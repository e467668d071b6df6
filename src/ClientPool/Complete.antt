-- ===== src/ClientPool/Complete.antt =====
-- The closure that TcpClientPool::check gives to `handle_completions`.
pub mod Agree
use yaoi.Base.{ℕ, suc, pos, negsuc, false, Option, none, some, List, [], ◌∷◌}
use yaoi.Crates.{
  Entry, Completion, accept, send_zc, recv_multi, socket_made, connect, other, forget, retain,
}
use yaoi.Outcome.{unreachable_code, missing_completion, recv_failed, no_buffer_id}
use yaoi.Batch.{Handled, bad, good}
use yaoi.Cmaps.{ClientMapMixed}

unfoldable pub received_in : ℕ → ℕ → ℕ → Option ℕ → Handled ClientMapMixed
received_in fixed_fd buf_grp buf_len none = bad no_buffer_id
received_in fixed_fd buf_grp buf_len (some buf_id) =
    good
      (some (
        ClientMapMixed.recv_multi (record {
          fixed_fd = fixed_fd;
          buf_id = some buf_id;
          buf_len = buf_len;
          buf_grp = buf_grp;
          shutdown = false;
        })))
      retain

unfoldable pub sent_from : Entry → ℕ → ℕ → Option ℕ → Handled ClientMapMixed
sent_from e fixed_fd sent_out none = bad unreachable_code
sent_from e fixed_fd sent_out (some buf_ref) =
    good
      (some (
        ClientMapMixed.sent_zc
          (record { fixed_fd = fixed_fd; sent_out = sent_out; buf_ref = buf_ref; more = e.more })))
      forget

unfoldable pub handle : Entry → Completion → Handled ClientMapMixed
unfolding received_in sent_from
handle e socket_made = good none forget
handle e (connect fixed_fd) =
    good (some (ClientMapMixed.connected (record { fixed_fd = fixed_fd; result = e.result })))
      forget
handle e (recv_multi fixed_fd buf_grp) = elim e.result [
  | negsuc _ ↦ bad recv_failed
  | pos buf_len ↦ received_in fixed_fd buf_grp buf_len e.buffer_select
]
handle e (send_zc fixed_fd buf_ref) = elim e.result [
  | negsuc _ ↦ good none forget
  | pos sent_out ↦ sent_from e fixed_fd sent_out buf_ref
]
handle e (accept _) = bad missing_completion
handle e other = bad missing_completion

-- `user.e`: the connects among the completions.
pub connects : List (Entry × Completion) → ℕ
connects [] = 0
connects ((e, connect _) ∷ rest) = suc (connects rest)
connects ((e, _) ∷ rest) = connects rest
