-- ===== src/Listener/Check/Keep.antt =====
-- TcpListener::check as a whole, and the invariant of its pool.
use yaoi.Base.{as_u32, ℕ, ◌≡◌, refl, ℤ, pos, negsuc, Option, none, some}
use yaoi.Crates.{
  Crates, Trace, Reply, done, failed, Entry, Completion, accept, send_zc, recv_multi, socket_made,
  connect, other,
}
use yaoi.Outcome.{outcome, bearer}
use yaoi.Outcome.Keeps.{Sound}
use yaoi.Cmaps.{ServerMapMixed}
use yaoi.Batch.{Bundled, bundle}
use yaoi.Batch.Room.{IsCoded, IsRoomy, bundle-IsRoomy, drain-Keeps}
use yaoi.Listener.{Work}
use yaoi.Listener.Complete.{handle, sent, received}
use yaoi.Listener.Check.{work, drain_bundled, check}
use yaoi.Listener.Check.Valid.{IsValid}
use yaoi.Listener.Check.Each.{work-Keeps}

sent-IsCoded :
    (e : Entry) (r : ℤ) (fd : ℕ) (buf : Option ℕ) → e.result ≡ r → IsCoded (sent e fd buf)
unfolding sent
sent-IsCoded e (negsuc k) fd buf h = rw (sent, h) tt
sent-IsCoded e (pos k) fd none h = rw (sent, h) (λ same. cc)
sent-IsCoded e (pos k) fd (some b) h = rw (sent, h) tt

received-IsCoded : (e : Entry) (r : ℤ) (fd grp : ℕ) → e.result ≡ r → IsCoded (received e fd grp)
unfolding received
received-IsCoded e (negsuc k) fd grp h = rw (received, h) (λ same. cc)
received-IsCoded e (pos k) fd grp h = rw (received, h) tt

handle-IsCoded : (e : Entry) (rec : Completion) → IsCoded (handle e rec)
unfolding handle
handle-IsCoded e (accept addr) = tt
handle-IsCoded e (send_zc fd buf) = sent-IsCoded e e.result fd buf refl
handle-IsCoded e (recv_multi fd grp) = received-IsCoded e e.result fd grp refl
handle-IsCoded e socket_made = λ same. cc
handle-IsCoded e (connect _) = λ same. cc
handle-IsCoded e other = λ same. cc

module _ (c : Crates) (n : ℕ) where
  drain_bundled-Sound :
      {U : Type 0} (x : Bundled c n ServerMapMixed) (r : Reply c.BearerError (Unit {0}))
      (w : Work c U) (t : Trace c.types)
      → IsRoomy c x
      → IsValid w
      → Sound (λ _ w'. IsValid w') (drain_bundled c x (outcome {ty = c.types} bearer r) w t)
  unfolding drain_bundled
  drain_bundled-Sound (Bundled.bad p) r w t roomy v = roomy
  drain_bundled-Sound (Bundled.good b) (done _) w t roomy v =
      drain-Keeps c IsValid (work c) b (work-Keeps c) roomy w t v
  drain_bundled-Sound (Bundled.good b) (failed e) w t roomy v = tt

-- From a valid listener, whose callback is fair and each of whose pool entries has its stream on its own
-- descriptor with a valid outgoing cursor, whatever completions come and however the calls of other crates
-- answer: `check` ends, it never runs out of the rounds that are given to its loops, and where it returns
-- without an error the listener is valid again.
pub check-IsValid :
    (c : Crates) {U : Type 0} (n : ℕ) (w : Work c U) (t : Trace c.types)
    → IsValid w
    → Sound (λ _ w'. IsValid w') (check c n w t)
unfolding check
check-IsValid c n w t v =
    drain_bundled-Sound c n
      (bundle c handle (c.buf_new n ServerMapMixed) (c.completions t (as_u32 n)).0)
      (c.completions t (as_u32 n)).1 w _
      (bundle-IsRoomy c n handle (c.completions t (as_u32 n)).0 handle-IsCoded) v
