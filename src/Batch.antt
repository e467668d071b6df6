-- ===== src/Batch.antt =====
-- A batch of completions, as TcpListener::check and TcpClientPool::check both take it in: each is put
-- into a queue of bounded size, and the queue is then worked off.
pub mod Laws
pub mod Room
use yaoi.Base.{ℕ, zero, suc, Option, none, some, List, [], ◌∷◌}
use yaoi.Crates.{Crates, Entry, Completion, Status}
use yaoi.Outcome.{M, Panic, unwrap_on_err, fuel_exhausted, pure, panics, ◌>>=◌, ◌>>◌}

-- One completion: a panic, or what is pushed and what becomes of the record.
pub data Handled (A : Type 0) : Type 0 where
  bad : Panic → Handled A
  good : Option A → Status → Handled A

-- The queue after a batch; a push into a full queue panics.
pub data Bundled (c : Crates) (n : ℕ) (A : Type 0) : Type 0 where
  bad : Panic → Bundled c n A
  good : c.Buf n A → Bundled c n A

module _ (c : Crates) {n : ℕ} {A : Type 0} where
  abbrev pub push_some : c.Buf n A → Option A → Bundled c n A
  push_some b none = Bundled.good b
  push_some b (some m) = elim (c.push b m) [
    | none ↦ Bundled.bad unwrap_on_err
    | some b' ↦ Bundled.good b'
  ]

  abbrev pub push_handled : c.Buf n A → Handled A → Bundled c n A
  push_handled b (Handled.bad p) = Bundled.bad p
  push_handled b (Handled.good m _) = push_some b m

  abbrev pub and_then : Bundled c n A → (c.Buf n A → Bundled c n A) → Bundled c n A
  and_then (Bundled.bad p) f = Bundled.bad p
  and_then (Bundled.good b) f = f b

  -- `handle_completions`, with the closure's handling of one completion.
  pub bundle :
      (Entry → Completion → Handled A) → c.Buf n A → List (Entry × Completion) → Bundled c n A
  bundle handle b [] = Bundled.good b
  bundle handle b ((e, rec) ∷ rest) =
      and_then (push_handled b (handle e rec)) (λ b'. bundle handle b' rest)

  -- `while let Some(mixed) = user.bundle.pop()`
  unfoldable pub drain :
      {S : Type 0} → (A → M c.types S (Unit {0})) → ℕ → c.Buf n A → M c.types S (Unit {0})
  drain work zero b = panics fuel_exhausted
  drain work (suc fuel) b = elim (c.pop b) [
    | none ↦ pure tt
    | some (mixed, b') ↦ work mixed >> drain work fuel b'
  ]
