-- ===== src/HugeTlb/Kept.antt =====
-- What the operations on a stream with buffers leave alone: its connection, and, but for a send, the
-- outgoing half of its cursor.
use yaoi.Base.{
  ℕ, zero, suc, ◌+◌, ◌/◌, ◌%◌, ◌-◌, ◌^◌, ◌≡◌, inl, inr, arith, ltb, ◌==◌, ◌&&◌, Option, none, some,
  Bool-cases, add_usize, add_u16,
}
use yaoi.Crates.{
  Crates, CrateTypes, Trace, huge_page_drop, ring_unregister, ring_choice, ring_unregistered,
  ring_register, add_recv_multi,
}
use yaoi.Outcome.{ask_ring, unwrap_drop}
use yaoi.Outcome.Rules.{chain-state}
use yaoi.Outcome.Keeps.{
  Sound, Keeps, chain-Sound, bind-Keeps, if-Keeps, ask_ring-Keeps, ask_register-Keeps,
  unwrap_drop-Keeps, ask_bearer-Keeps,
}
use yaoi.Cmaps.{MapSentZc, MapRecvMulti}
use yaoi.Connected.{EntConnected}
use yaoi.HugeTlb.{
  EntHugeTlb, buf_size, slot_u16_from_fixed_fd, register_buf_ring, from_connected, destroy,
  recv_multi,
}
use yaoi.HugeTlb.Send.{on_cursor, send_all_out}
use yaoi.HugeTlb.Send.Laws.{OutValid, send_all_out-cases}
use yaoi.HugeTlb.Recv.{end_to, settle, recv_in, recv_buf, cb_recv_multi, sent_zc, in_last_buf}
use yaoi.HugeTlb.Free.{reuse_to, free_range, try_free_buffers}

-- A property of a stream that only its connection and its outgoing cursor have a part in.
pub record IsOutward {ty : CrateTypes} (Q : EntHugeTlb ty → Type 0) : Type 0 where
  pub by_end : (pos : ℕ) (s : EntHugeTlb ty) → Q s → Q (on_cursor (end_to pos) s)
  pub by_reuse : (i : ℕ) (s : EntHugeTlb ty) → Q s → Q (on_cursor (reuse_to i) s)
  pub by_settle : (z : MapSentZc) (s : EntHugeTlb ty) → Q s → Q (on_cursor (settle z) s)

module _ {ty : CrateTypes} (Q : EntHugeTlb ty → Type 0) (out : IsOutward Q) where
  recv_in-Keeps : (b : ℕ) (r : MapRecvMulti) → Keeps Q (recv_in b r)
  unfolding recv_in
  recv_in-Keeps b r s t q =
      elim (Bool-cases (ltb s.cursor.pos_in_end (add_usize r.buf_len s.cursor.pos_in_end))) [
        | inl more ↦ rw more (out.by_end (add_usize r.buf_len s.cursor.pos_in_end) s q)
        | inr none_more ↦
            rw none_more (elim (Bool-cases (in_last_buf s.cursor.pos_in_end && (b == 0))) [
              | inl last ↦ rw last (λ same. cc)
              | inr other ↦ rw other (λ same. cc)
            ])
      ]

  recv_buf-Keeps : (b : Option ℕ) (r : MapRecvMulti) → Keeps Q (recv_buf b r)
  unfolding recv_buf
  recv_buf-Keeps none r s t q = q
  recv_buf-Keeps (some b) r s t q = recv_in-Keeps b r s t q

  pub cb_recv_multi-Keeps : (r : MapRecvMulti) → Keeps Q (cb_recv_multi r)
  unfolding cb_recv_multi
  cb_recv_multi-Keeps r = recv_buf-Keeps r.buf_id r

  pub sent_zc-Keeps : (z : MapSentZc) → Keeps Q (sent_zc z)
  unfolding sent_zc
  sent_zc-Keeps z s t q = out.by_settle z s q

-- Giving buffers back only counts them.
module _ {ty : CrateTypes} (Q : EntHugeTlb ty → Type 0)
    (by_reuse : (i : ℕ) (s : EntHugeTlb ty) → Q s → Q (on_cursor (reuse_to i) s)) where
  free_range-Keeps : (n i : ℕ) → Keeps Q (free_range n i)
  unfolding free_range
  free_range-Keeps zero i s t q = q
  free_range-Keeps (suc n) i s t q = free_range-Keeps n (i + 1) _ _ (by_reuse (add_u16 i 1) s q)

  pub try_free_buffers-Keeps : Keeps Q try_free_buffers
  unfolding try_free_buffers
  try_free_buffers-Keeps s t q =
      let cur = s.cursor.pos_in_start / buf_size in
      let reused = s.cursor.idx_in_reused in
      elim (Bool-cases ((cur == 0) && (reused == 255))) [
        | inl held ↦ rw held (by_reuse 0 s q)
        | inr a ↦ rw a (elim (Bool-cases ((cur == 0) && (reused == 256))) [
          | inl level ↦ rw level (by_reuse 0 s q)
          | inr b ↦ rw b (elim (Bool-cases (ltb cur reused)) [
            | inl behind ↦ rw behind (λ same. cc)
            | inr d ↦ rw d (elim (Bool-cases (ltb 0 cur && ltb 0 (cur - reused))) [
              | inl gap ↦ rw gap (free_range-Keeps (cur % 2 ^ 16 - reused) reused s t q)
              | inr e ↦ rw e q
            ])
          ])
        ])
      ]

-- What holds of the stream that a slot of a pool has: its outgoing cursor is valid, and it sends on
-- the descriptor of the slot.
pub record IsOwn {ty : CrateTypes} (slot : ℕ) (s : EntHugeTlb ty) : Type 0 where
  pub valid : OutValid s.cursor
  pub fd : s.connection.fixed_fd ≡ some slot

pub IsOwn-IsOutward : {ty : CrateTypes} (slot : ℕ) → IsOutward (IsOwn {ty = ty} slot)
IsOwn-IsOutward slot = record {
  by_end = λ pos s q. record { valid = omega arith; fd = q.fd };
  by_reuse = λ i s q. record { valid = omega arith; fd = q.fd };
  by_settle = λ z s q. record { valid = omega arith; fd = q.fd };
}

pub send_all_out-Keeps : (c : Crates) (fd slot : ℕ) → Keeps (IsOwn slot) (send_all_out c fd)
send_all_out-Keeps c fd slot s t q = elim (send_all_out-cases c fd s t q.valid) [
  | inl (_, h) ↦ rw h q
  | inr (inl (o, some_left, h, _)) ↦
      let v = q.valid in rw h (record { valid = ground arith; fd = q.fd })
  | inr (inr (o, (k, e, _, h))) ↦ rw h tt
]

module _ (c : Crates) {S : Type 0} (Q : S → Type 0) where
  pub slot_u16-Keeps : (fd : Option ℕ) → Keeps Q (slot_u16_from_fixed_fd {ty = c.types} fd)
  unfolding slot_u16_from_fixed_fd
  slot_u16-Keeps none = λ s t q. tt
  slot_u16-Keeps (some fd) = if-Keeps Q (ltb fd 65535) _ _ (λ s t q. q) (λ s t q. tt)

  -- The two that work on the state around a stream.
  pub recv_multi-Keeps : (fd slot : ℕ) → Keeps Q (recv_multi c fd slot)
  unfolding recv_multi
  recv_multi-Keeps fd slot = ask_bearer-Keeps c Q (add_recv_multi fd slot)

  pub destroy-Keeps : (s : EntHugeTlb c.types) → Keeps Q (destroy c s)
  unfolding destroy
  destroy-Keeps s =
      bind-Keeps Q (ask_ring c (ring_unregister s.ring_in)) _ (ask_ring-Keeps c Q _) λ _.
        bind-Keeps Q (unwrap_drop c (huge_page_drop s.hugetbl_in)) _ (unwrap_drop-Keeps c Q _)
          λ _. unwrap_drop-Keeps c Q (huge_page_drop s.hugetbl_out)

  pub destroy-state :
      (s : EntHugeTlb c.types) (w : S) (t : Trace c.types) → Q w → Q (destroy c s w t).1
  unfolding destroy
  destroy-state s w t q =
      chain-state Q (ask_ring c (ring_unregister s.ring_in) w t) _ q λ _ w' t' q'.
        chain-state Q (unwrap_drop c (huge_page_drop s.hugetbl_in) w' t') _ q' (λ _ _ _ q''. q'')

module _ (c : Crates) {S : Type 0} (Q : S → Type 0) (slot : ℕ) where
  register_buf_ring-Keeps : (page : c.HugePage) (bgid : ℕ) → Keeps Q (register_buf_ring c page bgid)
  unfolding register_buf_ring
  register_buf_ring-Keeps page bgid =
      bind-Keeps Q (ask_ring c (ring_choice 256 8192)) _ (ask_ring-Keeps c Q _) λ _.
        bind-Keeps Q (ask_ring c (ring_unregistered page)) _ (ask_ring-Keeps c Q _)
          λ _. ask_register-Keeps c Q (ring_register bgid)

  pub from_connected-Sound :
      (e : EntConnected) (hin hout : c.HugePage) (s : S) (t : Trace c.types)
      → e.fixed_fd ≡ some slot
      → Q s
      → Sound (λ ent s'. IsOwn slot ent × Q s') (from_connected c e hin hout s t)
  unfolding from_connected
  from_connected-Sound e hin hout s t fd q =
      chain-Sound (λ _ s'. Q s') _ (slot_u16_from_fixed_fd e.fixed_fd s t) _
        (slot_u16-Keeps c Q e.fixed_fd s t q)
        λ n s' t' q'.
          chain-Sound (λ _ s'. Q s') _ (register_buf_ring c hin n s' t') _
            (register_buf_ring-Keeps hin n s' t' q')
            λ ring s'' t'' q''. (record { valid = omega arith; fd = fd }, q'')
