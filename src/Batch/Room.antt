-- ===== src/Batch/Room.antt =====
-- The room in the queue of completions, and the rounds to work it off.
use yaoi.Base.{
  ℕ, zero, suc, ◌+◌, ◌≤◌, ◌<◌, ◌≡◌, ◌≢◌, inl, inr, refl, arith, Bool-cases, ltb, none, some, List,
  [], ◌∷◌, length, length-append, ap, ◌∙◌,
}
use yaoi.Crates.{Crates, Entry, Completion}
use yaoi.Outcome.{M, fuel_exhausted}
use yaoi.Outcome.Keeps.{Keeps, bind-Keeps}
use yaoi.Batch.{Handled, Bundled, bundle, push_handled, push_some, and_then, drain}

-- A panic of the code.
abbrev pub IsCoded : {A : Type 0} → Handled A → Type 0
IsCoded (Handled.bad p) = p ≢ fuel_exhausted
IsCoded (Handled.good m s) = Unit {0}

module _ (c : Crates) {n : ℕ} {A : Type 0} where
  -- A queue that holds no more than its places, or a panic of the code.
  abbrev pub IsRoomy : Bundled c n A → Type 0
  IsRoomy (Bundled.bad p) = p ≢ fuel_exhausted
  IsRoomy (Bundled.good b) = length (c.items b) ≤ n

  push_some-IsRoomy :
      (b : c.Buf n A) (m : A) → length (c.items b) ≤ n → IsRoomy (push_some c b (some m))
  push_some-IsRoomy b m h = elim (Bool-cases (ltb (length (c.items b)) n)) [
    | inl room ↦
        let (b', pushed, held) = c.items-push b m (ground arith) in
        let longer : length (c.items b') ≡ suc (length (c.items b)) =
          ap length held ∙ length-append (c.items b) (m ∷ []) ∙ omega arith in
        rw (push_some, pushed) (ground arith)
    | inr full ↦ rw (push_some, c.push-full b m (ground arith)) (λ same. cc)
  ]

  push_handled-IsRoomy :
      (b : c.Buf n A) (x : Handled A)
      → length (c.items b) ≤ n
      → IsCoded x
      → IsRoomy (push_handled c b x)
  push_handled-IsRoomy b (Handled.bad p) h coded = coded
  push_handled-IsRoomy b (Handled.good none s) h coded = h
  push_handled-IsRoomy b (Handled.good (some m) s) h coded = push_some-IsRoomy b m h

  and_then-IsRoomy :
      (x : Bundled c n A) (f : c.Buf n A → Bundled c n A)
      → IsRoomy x
      → ((b : c.Buf n A) → length (c.items b) ≤ n → IsRoomy (f b))
      → IsRoomy (and_then c x f)
  and_then-IsRoomy (Bundled.bad p) f h k = h
  and_then-IsRoomy (Bundled.good b) f h k = k b h

  bundle_from-IsRoomy :
      (handle : Entry → Completion → Handled A) (b : c.Buf n A) (batch : List (Entry × Completion))
      → ((e : Entry) (rec : Completion) → IsCoded (handle e rec))
      → length (c.items b) ≤ n
      → IsRoomy (bundle c handle b batch)
  unfolding bundle
  bundle_from-IsRoomy handle b [] coded h = h
  bundle_from-IsRoomy handle b ((e, rec) ∷ rest) coded h =
      and_then-IsRoomy (push_handled c b (handle e rec)) _
        (push_handled-IsRoomy b (handle e rec) h (coded e rec))
        λ b' h'. bundle_from-IsRoomy handle b' rest coded h'

  -- What every piece of work keeps, to work off the queue keeps.
  drain_items-Keeps :
      {S : Type 0} (Q : S → Type 0) (work : A → M c.types S (Unit {0})) (fuel : ℕ) (l : List A)
      (b : c.Buf n A)
      → ((m : A) → Keeps Q (work m))
      → c.items b ≡ l
      → length l < fuel
      → Keeps Q (drain c work fuel b)
  unfolding drain
  drain_items-Keeps Q work zero l b k held h = absurd (omega arith)
  drain_items-Keeps Q work (suc fuel) [] b k held h = rw (drain, c.pop-nil b held) (λ s t q. q)
  drain_items-Keeps Q work (suc fuel) (m ∷ l) b k held h =
      let (b', popped, left) = c.pop-cons b m l held in
      rw (drain, popped)
        (bind-Keeps Q (work m) _ (k m)
          (λ _. drain_items-Keeps Q work fuel l b' k left (omega arith)))

  pub drain-Keeps :
      {S : Type 0} (Q : S → Type 0) (work : A → M c.types S (Unit {0})) (b : c.Buf n A)
      → ((m : A) → Keeps Q (work m))
      → length (c.items b) ≤ n
      → Keeps Q (drain c work (n + 1) b)
  drain-Keeps Q work b k h = drain_items-Keeps Q work (n + 1) (c.items b) b k refl (omega arith)

-- A batch of any length, put into an empty queue.
pub bundle-IsRoomy :
    (c : Crates) (n : ℕ) {A : Type 0} (handle : Entry → Completion → Handled A)
    (batch : List (Entry × Completion))
    → ((e : Entry) (rec : Completion) → IsCoded (handle e rec))
    → IsRoomy c (bundle c handle (c.buf_new n A) batch)
bundle-IsRoomy c n {A} handle batch coded =
    let none_yet : length (c.items (c.buf_new n A)) ≡ 0 = ap length (c.items-new n A) in
    bundle_from-IsRoomy c handle (c.buf_new n A) batch coded (omega arith)
