-- ===== src/Listener/Check/Drain.antt =====
-- TcpListener::check as the work on what a batch comes to.
use yaoi.Base.{as_u32, ℕ, ◌≤◌, ◌≡◌, some, List, [], ◌∷◌, ◌++◌, length}
use yaoi.Crates.{Crates, Trace, done, handle_completions}
use yaoi.Cmaps.{ServerMapMixed}
use yaoi.Batch.Laws.{all_handled, work_all, bundle-work_all}
use yaoi.Listener.{Work}
use yaoi.Listener.Complete.{handle}
use yaoi.Listener.Check.{work, drain_bundled, check}

-- A batch of no more completions than `check` asks for, which the ring hands over without an error and
-- none of which panics, is worked off whole: each completion once, in the order they came in, until a
-- piece of work fails. The loop's rounds and the queue's room are enough.
pub check-work_all :
    (c : Crates) {U : Type 0} (n : ℕ) (l : List ServerMapMixed) (w : Work c U) (t : Trace c.types)
    → length (c.completions t (as_u32 n)).0 ≤ n
    → (c.completions t (as_u32 n)).1 ≡ done tt
    → all_handled handle (c.completions t (as_u32 n)).0 ≡ some l
    → check c n w t ≡ work_all c (work c) l w (t ++ handle_completions (as_u32 n) ∷ [])
unfolding check drain_bundled
check-work_all c {U} n l w t few well all =
    let (b, filled, drained) =
      bundle-work_all c handle (work c {U = U}) n (c.completions t (as_u32 n)).0 l few all in
    rw (check, filled, well) (drained w (t ++ handle_completions (as_u32 n) ∷ []))
