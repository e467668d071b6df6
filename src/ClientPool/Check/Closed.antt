-- ===== src/ClientPool/Check/Closed.antt =====
-- What TcpClientPool::check makes of the completion by which a receive ends: the peer has closed.
use yaoi.Base.{as_u32, ℕ, ◌≡◌, refl, pos, false, true, none, some, List, [], ◌∷◌, ◌++◌}
use yaoi.Crates.{Crates, Trace, Entry, Completion, recv_multi, forget, handle_completions}
use yaoi.Outcome.{Panic, panic, no_buffer_id}
use yaoi.Cmaps.{ClientMapMixed, ServerMapMixed}
use yaoi.Batch.{Handled}
use yaoi.Batch.Laws.{bundle-bad}
use yaoi.Listener
use yaoi.Listener.Complete.{received, keep_if}
use yaoi.ClientPool.Complete.{handle, received_in}
use yaoi.ClientPool.Check.{Work, drain_bundled, check}

module _ (e : Entry) (len fd grp : ℕ) (closed : e.result ≡ pos len)
    (no_buffer : e.buffer_select ≡ none) where
  client-bad : handle e (recv_multi fd grp) ≡ Handled.bad no_buffer_id
  unfolding handle received_in
  client-bad = rw (handle, closed, no_buffer) refl

  listener-closes :
      e.more ≡ false
      → Listener.Complete.handle e (recv_multi fd grp)
        ≡ Handled.good
            (some (
              ServerMapMixed.recv_multi (record {
                fixed_fd = fd;
                buf_id = none;
                buf_len = len;
                buf_grp = grp;
                shutdown = true;
              })))
            forget
  unfolding Listener.Complete.handle received keep_if
  listener-closes last = rw (closed, no_buffer, last) refl

-- Whatever else is in a batch for the client: with a completion in it of a receive that has not failed, has no
-- buffer and is the last one, as comes when the peer closes, `check` panics before any work is done. The listener
-- takes the same completion for the end of the connection.
pub client_check-closed :
    (c : Crates) {U : Type 0} (n len fd grp : ℕ) (w : Work c U) (t : Trace c.types)
    (before after : List (Entry × Completion)) (e : Entry)
    → (c.completions t (as_u32 n)).0 ≡ before ++ (e, recv_multi fd grp) ∷ after
    → e.result ≡ pos len
    → e.buffer_select ≡ none
    → e.more ≡ false
    → ((p : Panic) × (check c n w t ≡ (panic p, w, t ++ handle_completions (as_u32 n) ∷ [])))
      × (Listener.Complete.handle e (recv_multi fd grp)
          ≡ Handled.good
              (some (
                ServerMapMixed.recv_multi (record {
                  fixed_fd = fd;
                  buf_id = none;
                  buf_len = len;
                  buf_grp = grp;
                  shutdown = true;
                })))
              forget)
unfolding check drain_bundled
client_check-closed c n len fd grp w t before after e batch closed no_buffer last =
    let (p, filled) =
      bundle-bad c handle before after e (recv_multi fd grp) no_buffer_id
        (c.buf_new n ClientMapMixed) (client-bad e len fd grp closed no_buffer) in
    ((p, rw (batch, filled) refl), listener-closes e len fd grp closed no_buffer last)
