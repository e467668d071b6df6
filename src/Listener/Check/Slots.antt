-- ===== src/Listener/Check/Slots.antt =====
-- What the handlers do to the slots of the pool.
use yaoi.Base.{ℕ, ◌≡◌, arith, ◌==◌, if◌then◌else◌, Bool, true, Option, none, some, [], ◌∷◌, negsuc}
use yaoi.Crates.{Crates, Trace, register_files_update}
use yaoi.Outcome.{M, ignore, modify, unwrap_os, pure, ◌>>◌, panic, slot_missing}
use yaoi.Outcome.Rules.{Post, map-Post, chain-Post, chain-Post_any, state-Post}
use yaoi.Cmaps.{MapRecvMulti, MapSentZc}
use yaoi.Stream.{TcpStream}
use yaoi.Stream
use yaoi.Listener.{ListenerSlotCtx, move_tcpstream_out, Work}
use yaoi.Serve.{Served}
use yaoi.Listener.Listen.{nuke_fixed}
use yaoi.Listener.Check.{
  set_pool, with_slot, recv_served, give_up, drop_entry, remove_slot, work_recv_multi, work_sent_zc,
}

module _ (c : Crates) {U : Type 0} where
  abbrev pub IsFree : ℕ → Work c U → Type 0
  IsFree slot w = c.get w.listener.pool slot ≡ none

  remove-IsFree :
      (slot : ℕ) (w : Work c U) → IsFree slot (set_pool c (c.remove w.listener.pool slot) w)
  remove-IsFree slot w = let same : (slot == slot) ≡ true = ground arith in rw (c.get-remove, same)

  nuke_fixed-IsFree :
      (slot fd : ℕ) (w : Work c U) (t : Trace c.types)
      → IsFree slot w
      → Post (λ _ w'. IsFree slot w') (nuke_fixed c fd w t)
  unfolding nuke_fixed
  nuke_fixed-IsFree slot fd w t h =
      chain-Post (λ _ w'. IsFree slot w') _
        (unwrap_os c (register_files_update fd (negsuc 0 ∷ [])) w t) _
        (state-Post (IsFree slot) (unwrap_os c (register_files_update fd (negsuc 0 ∷ [])) w t) h)
        (λ _ _ _ p. p)

  give_up-IsFree :
      (slot : ℕ) (stream : Option (TcpStream c.types)) (w : Work c U) (t : Trace c.types)
      → IsFree slot w
      → Post (λ _ w'. IsFree slot w') (give_up c slot stream w t)
  unfolding give_up
  give_up-IsFree slot none w t h = h
  give_up-IsFree slot (some stream) w t h =
      chain-Post_any _ (ignore (Stream.destroy c stream) w t)
        (λ _. modify (λ w'. set_pool c (c.remove w'.listener.pool slot) w') >> nuke_fixed c slot)
        (λ _ w' t'. nuke_fixed-IsFree slot slot _ t' (remove-IsFree slot w'))

  drop_entry-IsFree :
      (slot : ℕ) (entry : Option (ListenerSlotCtx c.types)) (w : Work c U) (t : Trace c.types)
      → Post (λ _ w'. IsFree slot w') (drop_entry c slot entry w t)
  unfolding drop_entry
  drop_entry-IsFree slot none w t = tt
  drop_entry-IsFree slot (some entry) w t =
      give_up-IsFree slot (move_tcpstream_out entry) _ t (remove-IsFree slot w)

  remove_slot-IsFree :
      (slot : ℕ) (w : Work c U) (t : Trace c.types)
      → Post (λ _ w'. IsFree slot w') (remove_slot c slot w t)
  unfolding remove_slot
  remove_slot-IsFree slot w t = drop_entry-IsFree slot (c.get w.listener.pool slot) w t

  shutdown_removes :
      (b : Bool) (slot : ℕ) (w : Work c U) (t : Trace c.types)
      → b ≡ true
      → Post (λ _ w'. IsFree slot w') ((if b then remove_slot c slot else pure tt) w t)
  shutdown_removes b slot w t h = rw h (remove_slot-IsFree slot w t)

  work_recv_multi-IsFree :
      (r : MapRecvMulti) (w : Work c U) (t : Trace c.types)
      → r.shutdown ≡ true
      → Post (λ _ w'. IsFree r.fixed_fd w') (work_recv_multi c r w t)
  unfolding work_recv_multi
  work_recv_multi-IsFree r w t h =
      chain-Post_any _ (with_slot c r.fixed_fd (recv_served c w.listener.a_fn r) w t) _
        (λ _ w' t'. shutdown_removes r.shutdown r.fixed_fd w' t' h)

  with_slot-IsFree :
      (slot : ℕ) {A : Type 0} (m : M c.types (Served c U) A) (w : Work c U) (t : Trace c.types)
      → IsFree slot w
      → with_slot c slot m w t ≡ (panic slot_missing, w, t)
  unfolding with_slot
  with_slot-IsFree slot m w t h = rw h

  work_sent_zc-IsFree :
      (z : MapSentZc) (w : Work c U) (t : Trace c.types)
      → IsFree z.fixed_fd w
      → work_sent_zc c z w t ≡ (panic slot_missing, w, t)
  unfolding work_sent_zc
  work_sent_zc-IsFree z w t h = with_slot-IsFree z.fixed_fd _ w t h

  -- If the work on a receive that closes the connection returns, the connection's slot is free, and
  -- the completion of a send of that connection that comes later panics, with the state unchanged.
  pub late_sent_zc :
      (r : MapRecvMulti) (z : MapSentZc) (w : Work c U) (t t' : Trace c.types)
      → r.shutdown ≡ true
      → z.fixed_fd ≡ r.fixed_fd
      → Post
          (λ _ w'. IsFree r.fixed_fd w' × work_sent_zc c z w' t' ≡ (panic slot_missing, w', t'))
          (work_recv_multi c r w t)
  late_sent_zc r z w t t' h same =
      map-Post _ _ (work_recv_multi c r w t)
        (λ _ w' free. (free, work_sent_zc-IsFree z w' t' (rw same free)))
        (work_recv_multi-IsFree r w t h)
