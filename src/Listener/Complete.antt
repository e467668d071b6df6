-- ===== src/Listener/Complete.antt =====
-- The closure that TcpListener::check gives to `handle_completions`: each completion is put into
-- the bundle, and its record is kept or forgotten.
use yaoi.Base.{ℕ, pos, negsuc, Bool, true, false, not, Option, none, some}
use yaoi.Crates.{
  Entry, Completion, accept, send_zc, recv_multi, socket_made, connect, other, Status, forget,
  retain,
}
use yaoi.Outcome.{unreachable_code, missing_completion, recv_failed}
use yaoi.Batch.{Handled, bad, good}
use yaoi.Cmaps.{ServerMapMixed}

unfoldable pub keep_if : Bool → Status
keep_if true = retain
keep_if false = forget

unfoldable pub sent : Entry → ℕ → Option ℕ → Handled ServerMapMixed
sent e fixed_fd buf_ref = elim e.result [
  | negsuc _ ↦ good none (keep_if e.more)
  | pos sent_out ↦ elim buf_ref [
    | none ↦ bad unreachable_code
    | some buf_ref ↦
        good
          (some (
            ServerMapMixed.sent_zc (record {
              fixed_fd = fixed_fd;
              sent_out = sent_out;
              buf_ref = buf_ref;
              more = e.more;
            })))
          (keep_if e.more)
  ]
]

unfoldable pub received : Entry → ℕ → ℕ → Handled ServerMapMixed
received e fixed_fd buf_grp = elim e.result [
  | negsuc _ ↦ bad recv_failed
  | pos buf_len ↦
      good
        (some (
          ServerMapMixed.recv_multi (record {
            fixed_fd = fixed_fd;
            buf_id = e.buffer_select;
            buf_len = buf_len;
            buf_grp = buf_grp;
            shutdown = not e.more;
          })))
        (keep_if e.more)
]

unfoldable pub handle : Entry → Completion → Handled ServerMapMixed
unfolding sent received
handle e (accept s_addr) =
    good (some (ServerMapMixed.accepted (record { result = e.result; s_addr = s_addr }))) forget
handle e (send_zc fixed_fd buf_ref) = sent e fixed_fd buf_ref
handle e (recv_multi fixed_fd buf_grp) = received e fixed_fd buf_grp
handle e socket_made = bad missing_completion
handle e (connect _) = bad missing_completion
handle e other = bad missing_completion
