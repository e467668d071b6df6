-- ===== src/Stream/Laws.antt =====
-- A connection without buffers refuses every operation that needs them, and a send keeps a stream
-- with buffers valid.
use yaoi.Base.{ℕ, ◌+◌, ◌≤◌, ◌≡◌, ◌⊎◌, refl, none, some, Option}
use yaoi.Crates.{Crates, CrateTypes, Trace}
use yaoi.Outcome.{chain, Outcome, ok, err, panic, bp_need_buffers}
use yaoi.Cmaps.{MapSentZc, MapRecvMulti}
use yaoi.Connected.{EntConnected}
use yaoi.HugeTlb.{EntHugeTlb}
use yaoi.HugeTlb.Send.Laws.{OutValid, AfterSend, send_all_out-OutValid}
use yaoi.HugeTlb.Send
use yaoi.Stream.{
  TcpStream, connected, streaming_huge_tlb, fixed_fd, require_fixed_fd, recv_multi, send_all_out,
  try_free_buffers, sent_zc, cb_recv_multi,
}

-- Without buffers: every operation is refused with the same error, and nothing is called or changed.
pub refused_without_buffers :
    (c : Crates) (e : EntConnected) (z : MapSentZc) (r : MapRecvMulti) (t : Trace c.types)
    → (recv_multi c (connected e) t ≡ (err bp_need_buffers, connected e, t))
      × (send_all_out c (connected e) t ≡ (err bp_need_buffers, connected e, t))
      × (try_free_buffers (connected e) t ≡ (err bp_need_buffers, connected e, t))
      × (sent_zc z (connected e) t ≡ (err bp_need_buffers, connected e, t))
      × (cb_recv_multi r (connected e) t ≡ (err bp_need_buffers, connected e, t))
unfolding recv_multi send_all_out try_free_buffers sent_zc cb_recv_multi
refused_without_buffers c e z r t = (refl, refl, refl, refl, refl)

-- The outgoing cursor is valid, where there is one.
abbrev pub IsSafe : {ty : CrateTypes} → TcpStream ty → Type 0
IsSafe (connected e) = Unit {0}
IsSafe (streaming_huge_tlb e) = OutValid e.cursor

-- The buffers that wait for a completion.
abbrev pub pending : {ty : CrateTypes} → TcpStream ty → ℕ
pending (connected e) = 0
pending (streaming_huge_tlb e) = e.cursor.pending_bufs

-- What a caller relies on after a send on a stream.
abbrev pub AfterSendOut :
    {ty : CrateTypes} → TcpStream ty → Outcome ty ℕ × TcpStream ty × Trace ty → Type 0
AfterSendOut s (ok n, s', _) =
    IsSafe s' × (pending s' ≡ pending s + n) × ((n ≡ 0) ⊎ (pending s ≤ 5))
AfterSendOut s (err e, s', _) = Unit {0}
AfterSendOut s (panic p, _, _) = ⊥

after_lifted :
    {ty : CrateTypes} (e : EntHugeTlb ty) (x : Outcome ty ℕ × EntHugeTlb ty × Trace ty)
    → AfterSend e x
    → AfterSendOut (streaming_huge_tlb e) (x.0, streaming_huge_tlb x.1, x.2)
after_lifted e (ok n, e', t') h = h
after_lifted e (err x, e', t') h = tt
after_lifted e (panic p, e', t') h = h

-- A send on a stream whose outgoing cursor, if it has one, is valid: a result keeps it valid and
-- counts the chunks as pending, and it does not panic.
pub send_all_out-IsSafe :
    (c : Crates) (s : TcpStream c.types) (t : Trace c.types)
    → IsSafe s
    → AfterSendOut s (send_all_out c s t)
unfolding send_all_out require_fixed_fd fixed_fd
send_all_out-IsSafe c (connected e) t v = tt
send_all_out-IsSafe c (streaming_huge_tlb e) t v = with_fd e.connection.fixed_fd
  where
    with_fd :
        (o : Option ℕ)
        → let x = chain (require_fixed_fd o e t) (λ fd. Send.send_all_out c fd) in
          AfterSendOut (streaming_huge_tlb e) (x.0, streaming_huge_tlb x.1, x.2)
    with_fd none = tt
    with_fd (some fd) =
        after_lifted e (Send.send_all_out c fd e t) (send_all_out-OutValid c fd e t v)
