-- ===== src/Listener/Check/Frame.antt =====
-- The work on one message, and the other slots.
use yaoi.Base.{
  ℕ, ◌≡◌, ◌≢◌, refl, arith, ℤ, pos, negsuc, ◌==◌, if◌then◌else◌, ◌&&◌, Bool, true, false,
  Bool-cases, inl, inr, Option, none, some, Option-cases, [], ◌∷◌, ap,
}
use yaoi.Crates.{Crates, Trace, SocketAddr, submit, auto_registered, register_files_update}
use yaoi.Outcome.{M, Outcome, ok, err, panic, ask_bearer, ignore, unwrap_os}
use yaoi.Outcome.Rules.{chain-state, dropped-state}
use yaoi.Cmaps.{ServerMapMixed, nothing, MapAccepted, MapRecvMulti}
use yaoi.Stream.{TcpStream}
use yaoi.Stream
use yaoi.Stream.Kept
use yaoi.Serve.{Served, upgrade}
use yaoi.Serve.Laws.{upgrade-state}
use yaoi.Listener.{ListenerSlotCtx, Work, tcp_stream_mut, move_tcpstream_out}
use yaoi.Listener.Listen.{nuke_fixed, accept_call}
use yaoi.Listener.Check.{
  set_pool, borrow, with_slot, work_sent_zc, give_up, drop_entry, remove_slot, work_recv_multi,
  recv_served, sent_served, first_served, kept, on_local, accept_at, work_accepted, work, slot_for,
  fresh_stream,
}

-- The slot that a message is about; a failed accept is about none.
abbrev pub slot_of : ServerMapMixed → Option ℕ
slot_of nothing = none
slot_of (ServerMapMixed.sent_zc z) = some z.fixed_fd
slot_of (ServerMapMixed.recv_multi r) = some r.fixed_fd
slot_of (ServerMapMixed.accepted a) = elim a.result [ pos slot ↦ some slot | negsuc _ ↦ none ]

module _ (c : Crates) {U : Type 0} (w0 : Work c U) (slot : ℕ) where
  -- Every other slot is as it was.
  abbrev pub Others : Work c U → Type 0
  Others w = (k : ℕ) → slot ≢ k → c.get w.listener.pool k ≡ c.get w0.listener.pool k

  insert-Others :
      (entry : ListenerSlotCtx c.types) (w : Work c U)
      → Others w
      → (k : ℕ) → slot ≢ k
      → c.get (c.insert w.listener.pool slot entry) k ≡ c.get w0.listener.pool k
  insert-Others entry w h k other = elim (Bool-cases (slot == k)) [
    | inl same ↦ absurd (other (ground arith))
    | inr differs ↦ rw (c.get-insert, differs) (h k other)
  ]

  remove-Others :
      (w : Work c U)
      → Others w
      → (k : ℕ) → slot ≢ k
      → c.get (c.remove w.listener.pool slot) k ≡ c.get w0.listener.pool k
  remove-Others w h k other = elim (Bool-cases (slot == k)) [
    | inl same ↦ absurd (other (ground arith))
    | inr differs ↦ rw (c.get-remove, differs) (h k other)
  ]

  with_slot-Others :
      {A : Type 0} (m : M c.types (Served c U) A) (w : Work c U) (t : Trace c.types)
      → Others w
      → Others (with_slot c slot m w t).1
  unfolding with_slot borrow
  with_slot-Others m w t h = go (c.get w.listener.pool slot)
    where
      go : (entry : Option (ListenerSlotCtx c.types)) → Others (borrow c slot m entry w t).1
      go none = h
      go (some entry) = elim (Option-cases (tcp_stream_mut entry)) [
        | inl no_stream ↦ rw (borrow, no_stream) h
        | inr (stream, e) ↦ rw (borrow, e) (insert-Others _ w h)
      ]

  give_up-Others :
      (s : Option (TcpStream c.types)) (w : Work c U) (t : Trace c.types)
      → Others w
      → Others (give_up c slot s w t).1
  unfolding give_up nuke_fixed
  give_up-Others none w t h = h
  give_up-Others (some s) w t h =
      chain-state Others (ignore (Stream.destroy c s) w t) _
        (dropped-state (Stream.destroy c s w t) Others (Kept.destroy-state c Others s w t h))
        λ _ w' t' h'.
          let gone = set_pool c (c.remove w'.listener.pool slot) w' in
          chain-state Others (unwrap_os c (register_files_update slot (negsuc 0 ∷ [])) gone t') _
            (remove-Others w' h') (λ _ _ _ q. q)

  remove_slot-Others :
      (w : Work c U) (t : Trace c.types) → Others w → Others (remove_slot c slot w t).1
  unfolding remove_slot drop_entry
  remove_slot-Others w t h = go (c.get w.listener.pool slot)
    where
      go : (entry : Option (ListenerSlotCtx c.types)) → Others (drop_entry c slot entry w t).1
      go none = h
      go (some entry) =
          give_up-Others (move_tcpstream_out entry) (set_pool c (c.remove w.listener.pool slot) w) t
            (remove-Others w h)

  if-Others :
      (b : Bool) (m k : M c.types (Work c U) (Unit {0})) (w : Work c U) (t : Trace c.types)
      → Others (m w t).1
      → Others (k w t).1
      → Others ((if b then m else k) w t).1
  if-Others true m k w t h g = h
  if-Others false m k w t h g = g

  kept-Others :
      {A : Type 0} (w : Work c U) (x : Outcome c.types A × Served c U × Trace c.types)
      → Others w
      → Others (kept c w x).1
  kept-Others w (ok a, s, t) h = h
  kept-Others w (err e, s, t) h = h
  kept-Others w (panic p, s, t) h = h

  accept_at-Others :
      (addr : Option SocketAddr) (w : Work c U) (t : Trace c.types)
      → Others w
      → Others (accept_at c slot addr w t).1
  unfolding accept_at
  accept_at-Others addr w t h =
      let call =
        accept_call c w.listener.local_addr w.listener.reg_mapped_acceptfd auto_registered in
      chain-state Others (ask_bearer c call w t) _ h λ _ w1 t1 h1.
        chain-state Others (ask_bearer c submit w1 t1) _ h1 λ _ w2 t2 h2.
          chain-state Others (upgrade c w.listener.cfg_hugetlb (fresh_stream addr slot) w2 t2) _
            (upgrade-state c Others w.listener.cfg_hugetlb (fresh_stream addr slot) w2 t2 h2)
            λ stream w3 t3 h3.
              chain-state Others (on_local c stream (first_served c w.listener.a_fn) w3 t3) _
                (kept-Others w3
                  (first_served c w.listener.a_fn (record { user = w3.user; stream = stream }) t3)
                  h3)
                λ (sms, stream') w4 t4 h4.
                  let put =
                    set_pool c
                      (c.insert w4.listener.pool slot (
                        slot_for (Stream.left_wants_write stream) (Stream.left_wants_read stream)
                          stream'))
                      w4 in
                  if-Others ((sms.0 == 0) && (sms.1 == 0)) _ _ put t4 (insert-Others _ w4 h4) (
                    chain-state Others (ask_bearer c submit put t4) _ (insert-Others _ w4 h4)
                      (λ _ _ _ q. q))

module _ (c : Crates) {U : Type 0} (w : Work c U) (t : Trace c.types) where
  work_recv_multi-Others : (r : MapRecvMulti) → Others c w r.fixed_fd (work_recv_multi c r w t).1
  unfolding work_recv_multi
  work_recv_multi-Others r =
      let Q = Others c w r.fixed_fd in
      chain-state Q (with_slot c r.fixed_fd (recv_served c w.listener.a_fn r) w t) _
        (with_slot-Others c w r.fixed_fd (recv_served c w.listener.a_fn r) w t (λ _ _. refl))
        λ _ w' t' h.
          if-Others c w r.fixed_fd r.shutdown _ _ w' t' (remove_slot-Others c w r.fixed_fd w' t' h)
            h

  work_accepted-Others :
      (a : MapAccepted) (r : ℤ) (k : ℕ)
      → a.result ≡ r
      → slot_of (ServerMapMixed.accepted a) ≢ some k
      → c.get (work_accepted c a w t).1.listener.pool k ≡ c.get w.listener.pool k
  unfolding work_accepted
  work_accepted-Others a (pos slot) k e other =
      rw (work_accepted, e)
        (accept_at-Others c w slot a.s_addr w t (λ _ _. refl) k
          (λ same. other (rw e (ap some same))))
  work_accepted-Others a (negsuc n) k e other = rw (work_accepted, e) refl

  -- The work on a message leaves every slot but the message's own as it was, however it ends.
  pub work-slot_of :
      (m : ServerMapMixed) (k : ℕ)
      → slot_of m ≢ some k
      → c.get (work c m w t).1.listener.pool k ≡ c.get w.listener.pool k
  unfolding work work_sent_zc
  work-slot_of nothing k other = refl
  work-slot_of (ServerMapMixed.sent_zc z) k other =
      with_slot-Others c w z.fixed_fd (sent_served c w.listener.a_fn z) w t (λ _ _. refl) k
        (λ same. other (ap some same))
  work-slot_of (ServerMapMixed.recv_multi r) k other =
      work_recv_multi-Others r k (λ same. other (ap some same))
  work-slot_of (ServerMapMixed.accepted a) k other = work_accepted-Others a a.result k refl other
