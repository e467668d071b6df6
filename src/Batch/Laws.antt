-- ===== src/Batch/Laws.antt =====
-- What a batch comes to: each completion handled and worked on once, in order.
use yaoi.Base.{
  ℕ, zero, suc, ◌+◌, ◌≤◌, ◌<◌, ◌≡◌, refl, arith, Option, none, some, List, [], ◌∷◌, ◌++◌, length,
  length-append, append-nil, append_assoc, sym, ap, ◌∙◌,
}
use mathlib.Core.Option.{some-injective, none-ne-some}
use yaoi.Crates.{Crates, Trace, Entry, Completion}
use yaoi.Outcome.{M, Panic, pure, ◌>>◌}
use yaoi.Outcome.Rules.{chain-ext}
use yaoi.Batch.{Handled, Bundled, bundle, push_handled, push_some, and_then, drain}

-- One piece of work after the other, until one fails.
pub work_all :
    (c : Crates) {A S : Type 0} → (A → M c.types S (Unit {0})) → List A → M c.types S (Unit {0})
work_all c work [] = pure tt
work_all c work (mixed ∷ rest) = work mixed >> work_all c work rest

module _ {A : Type 0} where
  -- A completion that does not panic adds what it pushes.
  unfoldable pub after : Handled A → Option (List A) → Option (List A)
  after (Handled.bad p) rest = none
  after (Handled.good none _) rest = rest
  after (Handled.good (some m) _) none = none
  after (Handled.good (some m) _) (some l) = some (m ∷ l)

  -- What a batch puts into the queue, in order; `none` where an entry is one to panic at.
  unfoldable pub all_handled :
      (Entry → Completion → Handled A) → List (Entry × Completion) → Option (List A)
  all_handled handle [] = some []
  all_handled handle ((e, rec) ∷ rest) = after (handle e rec) (all_handled handle rest)

  after_short :
      (x : Handled A) (o : Option (List A)) (l : List A) (k : ℕ)
      → ((l' : List A) → o ≡ some l' → length l' ≤ k)
      → after x o ≡ some l
      → length l ≤ suc k
  unfolding after
  after_short (Handled.bad p) o l k ih h = absurd (none-ne-some l h)
  after_short (Handled.good none _) o l k ih h = let e = ih l h in omega arith
  after_short (Handled.good (some m) _) none l k ih h = absurd (none-ne-some l h)
  after_short (Handled.good (some m) _) (some l') l k ih h =
      let e = ih l' refl in
      let same : suc (length l') ≡ length l = ap length (some-injective (m ∷ l') l h) in omega arith

  all_handled_short :
      (handle : Entry → Completion → Handled A) (batch : List (Entry × Completion)) (l : List A)
      → all_handled handle batch ≡ some l
      → length l ≤ length batch
  unfolding all_handled
  all_handled_short handle [] l h =
      let same : 0 ≡ length l = ap length (some-injective [] l h) in omega arith
  all_handled_short handle ((e, rec) ∷ rest) l h =
      after_short (handle e rec) (all_handled handle rest) l (length rest)
        (λ l' e'. all_handled_short handle rest l' e') h

module _ (c : Crates) {n : ℕ} {A S : Type 0} (work : A → M c.types S (Unit {0})) where
  pub drain_items :
      (l : List A) (fuel : ℕ) (b : c.Buf n A) (w : S) (t : Trace c.types)
      → c.items b ≡ l
      → length l < fuel
      → drain c work fuel b w t ≡ work_all c work l w t
  unfolding drain work_all
  drain_items l zero b w t e h = absurd (omega arith)
  drain_items [] (suc fuel) b w t e h = rw (drain, c.pop-nil b e) refl
  drain_items (m ∷ l) (suc fuel) b w t e h =
      let (b', popped, left) = c.pop-cons b m l e in
      rw (drain, popped)
        (chain-ext (work m w t) _ _ (λ _ w' t'. drain_items l fuel b' w' t' left (omega arith)))

module _ (c : Crates) {n : ℕ} {A : Type 0} (handle : Entry → Completion → Handled A) where
  Filled : c.Buf n A → List A → Bundled c n A → Type 0
  Filled b l x = (b' : c.Buf n A) × (x ≡ Bundled.good b') × (c.items b' ≡ c.items b ++ l)

  Fits : c.Buf n A → List (Entry × Completion) → Type 0
  Fits b batch = length (c.items b) + length batch ≤ n

  push-next :
      (b : c.Buf n A) (m : A) (b' : c.Buf n A) (f : c.Buf n A → Bundled c n A)
      → c.push b m ≡ some b'
      → and_then c (push_some c b (some m)) f ≡ f b'
  push-next b m b' f e = rw (and_then, e) refl

  step :
      (x : Handled A) (o : Option (List A)) (rest : List (Entry × Completion)) (b : c.Buf n A)
      (l : List A)
      → ((b' : c.Buf n A) (l' : List A)
          → Fits b' rest
          → o ≡ some l'
          → Filled b' l' (bundle c handle b' rest))
      → length (c.items b) + suc (length rest) ≤ n
      → after x o ≡ some l
      → Filled b l (and_then c (push_handled c b x) (λ b'. bundle c handle b' rest))
  unfolding after Filled Fits
  step (Handled.bad p) o rest b l ih fits h = absurd (none-ne-some l h)
  step (Handled.good none _) o rest b l ih fits h = ih b l (omega arith) h
  step (Handled.good (some m) _) none rest b l ih fits h = absurd (none-ne-some l h)
  step (Handled.good (some m) _) (some l') rest b l ih fits h =
      let (b', pushed, held) = c.items-push b m (omega arith) in
      let longer : length (c.items b') ≡ suc (length (c.items b)) =
        ap length held ∙ length-append (c.items b) (m ∷ []) ∙ omega arith in
      let (b'', filled, items) = ih b' l' (omega arith) refl in
      (
        b'',
        push-next b m b' (λ x. bundle c handle x rest) pushed ∙ filled,
        items
            ∙ ap (λ x. x ++ l') held
            ∙ append_assoc (c.items b) (m ∷ []) l'
            ∙ ap (λ x. c.items b ++ x) (some-injective (m ∷ l') l h),
      )

  bundle-Filled :
      (batch : List (Entry × Completion)) (b : c.Buf n A) (l : List A)
      → Fits b batch
      → all_handled handle batch ≡ some l
      → Filled b l (bundle c handle b batch)
  unfolding bundle all_handled Filled Fits
  bundle-Filled [] b l fits h =
      (b, refl, sym (append-nil (c.items b)) ∙ ap (λ x. c.items b ++ x) (some-injective [] l h))
  bundle-Filled ((e, rec) ∷ rest) b l fits h =
      step (handle e rec) (all_handled handle rest) rest b l
        (λ b' l' f e'. bundle-Filled rest b' l' f e') fits h

-- A batch of no more than `n` completions, none of which panics, fills an empty queue of `n` places with
-- what its completions push, and `n + 1` rounds work all of that off.
pub bundle-work_all :
    (c : Crates) {A S : Type 0} (handle : Entry → Completion → Handled A)
    (work : A → M c.types S (Unit {0})) (n : ℕ) (batch : List (Entry × Completion)) (l : List A)
    → length batch ≤ n
    → all_handled handle batch ≡ some l
    → (b : c.Buf n A) × (bundle c handle (c.buf_new n A) batch ≡ Bundled.good b)
      × ((s : S) (t : Trace c.types) → drain c work (n + 1) b s t ≡ work_all c work l s t)
unfolding Filled Fits
bundle-work_all c {A} handle work n batch l few all =
    let empty = c.items-new n A in
    let room : length (c.items (c.buf_new n A)) ≡ 0 = ap length empty in
    let (b, filled, items) = bundle-Filled c handle batch (c.buf_new n A) l (omega arith) all in
    let held : c.items b ≡ l = items ∙ ap (λ x. x ++ l) empty in
    let short = all_handled_short handle batch l all in
    (b, filled, λ s t. drain_items c work l (n + 1) b s t held (omega arith))

-- A batch with an entry to panic at ends in a panic, if not in an earlier one.
pub bundle-bad :
    (c : Crates) {n : ℕ} {A : Type 0} (handle : Entry → Completion → Handled A)
    (before after : List (Entry × Completion)) (e : Entry) (rec : Completion) (p : Panic)
    (b : c.Buf n A)
    → handle e rec ≡ Handled.bad p
    → (q : Panic) × (bundle c handle b (before ++ (e, rec) ∷ after) ≡ Bundled.bad q)
unfolding bundle
bundle-bad c handle [] after e rec p b h = (p, rw h refl)
bundle-bad c {n} {A} handle ((f, r) ∷ before) after e rec p b h =
    go (push_handled c b (handle f r)) (λ b'. bundle-bad c handle before after e rec p b' h)
  where
    go :
        (x : Bundled c n A)
        → ((b' : c.Buf n A)
            → (q : Panic) × (bundle c handle b' (before ++ (e, rec) ∷ after) ≡ Bundled.bad q))
        → (q : Panic) × (and_then c x (λ b'. bundle c handle b' (before ++ (e, rec) ∷ after))
            ≡ Bundled.bad q)
    go (Bundled.bad q) ih = (q, refl)
    go (Bundled.good b') ih = ih b'
