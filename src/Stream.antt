-- ===== src/Stream.antt =====
-- src/tcp_stream.rs: a connection, with buffers or without. Every operation that needs buffers
-- refuses a connection without them.
pub mod Laws
pub mod Kept
use yaoi.Base.{ℕ, Bool, false, Option, none, some}
use yaoi.Crates.{Crates, CrateTypes}
use yaoi.Outcome.{
  M, Outcome, ok, err, panic, bp_need_buffers, huge_tlb_req_fixed_id, pure, raise, ◌>>=◌, ◌>>◌,
}
use yaoi.Cmaps.{MapSentZc, MapRecvMulti}
use yaoi.Connected.{EntConnected}
use yaoi.HugeTlb.{EntHugeTlb, slot_u16_from_fixed_fd}
use yaoi.Blueprints.{Blueprints}
use yaoi.Run.{Orbit, RunState}
use yaoi.Run
use yaoi.HugeTlb
use yaoi.HugeTlb.Send
use yaoi.HugeTlb.Recv
use yaoi.HugeTlb.Free

pub data TcpStream (ty : CrateTypes) : Type 0 where
  connected : EntConnected → TcpStream ty
  streaming_huge_tlb : EntHugeTlb ty → TcpStream ty

module _ {ty : CrateTypes} where
  pub require_fixed_fd : {S : Type 0} → Option ℕ → M ty S ℕ
  require_fixed_fd none = raise huge_tlb_req_fixed_id
  require_fixed_fd (some fd) = pure fd

  unfoldable pub fixed_fd : TcpStream ty → Option ℕ
  fixed_fd (connected e) = e.fixed_fd
  fixed_fd (streaming_huge_tlb e) = e.connection.fixed_fd

  unfoldable pub left_wants_read : TcpStream ty → Bool
  left_wants_read (connected e) = false
  left_wants_read (streaming_huge_tlb e) = e.want_read

  unfoldable pub left_wants_write : TcpStream ty → Bool
  left_wants_write (connected e) = false
  left_wants_write (streaming_huge_tlb e) = e.want_write

  -- The match of every operation: an error without buffers.
  abbrev pub on_huge : {A : Type 0} → M ty (EntHugeTlb ty) A → M ty (TcpStream ty) A
  on_huge m (connected e) t = raise bp_need_buffers (connected e) t
  on_huge m (streaming_huge_tlb e) t = let (r, e', t') = m e t in (r, streaming_huge_tlb e', t')

module _ (c : Crates) where
  pub recv_multi : M c.types (TcpStream c.types) ℕ
  recv_multi s =
      on_huge
        (do
          fd ← require_fixed_fd (fixed_fd s)
          slot ← slot_u16_from_fixed_fd (fixed_fd s)
          HugeTlb.recv_multi c fd slot)
        s

  pub send_all_out : M c.types (TcpStream c.types) ℕ
  send_all_out s = on_huge (do fd ← require_fixed_fd (fixed_fd s); Send.send_all_out c fd) s

  -- The stream is given up; its state no longer matters.
  pub destroy : {S : Type 0} → TcpStream c.types → M c.types S (Unit {0})
  destroy (streaming_huge_tlb e) = HugeTlb.destroy c e
  destroy (connected e) = pure tt

module _ {ty : CrateTypes} where
  pub try_free_buffers : M ty (TcpStream ty) (Unit {0})
  try_free_buffers = on_huge Free.try_free_buffers

  pub sent_zc : MapSentZc → M ty (TcpStream ty) (Unit {0})
  sent_zc z s = on_huge (do require_fixed_fd (fixed_fd s); Recv.sent_zc z) s

  pub cb_recv_multi : MapRecvMulti → M ty (TcpStream ty) (Unit {0})
  cb_recv_multi r s = on_huge (do require_fixed_fd (fixed_fd s); Recv.cb_recv_multi r) s

module _ {ty : CrateTypes} {O : Type 0} where
  abbrev pub stream_ran :
      Option (Outcome ty (RunState ty O)) → Option (Outcome ty (Blueprints O × TcpStream ty))
  stream_ran none = none
  stream_ran (some (ok s)) = some (ok (s.bp, streaming_huge_tlb s.ent))
  stream_ran (some (err e)) = some (err e)
  stream_ran (some (panic p)) = some (panic p)

  -- `none` means that the rounds of the run were not enough.
  unfoldable pub run_blueprints :
      Orbit ty O
      → ℕ
      → Blueprints O
      → TcpStream ty
      → Option (Outcome ty (Blueprints O × TcpStream ty))
  run_blueprints orbit fuel bp (connected _) = some (err bp_need_buffers)
  run_blueprints orbit fuel bp (streaming_huge_tlb e) =
      stream_ran (Run.run_blueprints orbit fuel bp e)
