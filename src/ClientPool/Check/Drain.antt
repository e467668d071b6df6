-- ===== src/ClientPool/Check/Drain.antt =====
-- TcpClientPool::check as the work on what a batch comes to.
use yaoi.Base.{as_u32, ℕ, ◌≤◌, ◌≡◌, refl, some, List, [], ◌∷◌, ◌++◌, length}
use yaoi.Crates.{Crates, Trace, done, handle_completions}
use yaoi.Outcome.{pure, ◌>>◌}
use yaoi.Cmaps.{ClientMapMixed}
use yaoi.Batch.Laws.{all_handled, work_all, bundle-work_all}
use yaoi.ClientPool.Complete.{handle, connects}
use yaoi.ClientPool.Check.{Work, work, drain_bundled, check}

-- A batch of no more completions than `check` asks for, which the ring hands over without an error and
-- none of which panics, is worked off whole, in the order they came in, until a piece of work fails.
-- Then the number of connects among them is returned, as a u32.
pub client_check-work_all :
    (c : Crates) {U : Type 0} (n : ℕ) (l : List ClientMapMixed) (w : Work c U) (t : Trace c.types)
    → length (c.completions t (as_u32 n)).0 ≤ n
    → (c.completions t (as_u32 n)).1 ≡ done tt
    → all_handled handle (c.completions t (as_u32 n)).0 ≡ some l
    → check c n w t
      ≡ (work_all c (work c) l >> pure (as_u32 (connects (c.completions t (as_u32 n)).0))) w
          (t ++ handle_completions (as_u32 n) ∷ [])
unfolding check drain_bundled
client_check-work_all c n l w t few well all =
    let (b, filled, drained) =
      bundle-work_all c handle (work c) n (c.completions t (as_u32 n)).0 l few all in
    rw (check, filled, well, drained w (t ++ handle_completions (as_u32 n) ∷ [])) refl
