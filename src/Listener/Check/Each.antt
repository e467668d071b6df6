-- ===== src/Listener/Check/Each.antt =====
-- The work on each kind of completion, and the listener's invariant.
use yaoi.Base.{
  ℕ, ◌≡◌, refl, ℤ, pos, negsuc, ◌==◌, ◌&&◌, Bool, true, false, Option, none, some, [], ◌∷◌,
}
use yaoi.Crates.{
  Crates, CrateTypes, Trace, SocketAddr, submit, auto_registered, register_files_update,
}
use yaoi.Outcome.{M, Outcome, ok, err, panic, ask_bearer, modify, ignore, unwrap_os}
use yaoi.Outcome.Keeps.{
  Sound, Keeps, chain-Sound, map-Sound, bind-Keeps, pure-Keeps, if-Keeps, dropped-Sound,
  ask_bearer-Keeps, unwrap_os-Keeps,
}
use yaoi.Cmaps.{ServerMapMixed, nothing, MapAccepted, MapSentZc, MapRecvMulti}
use yaoi.Stream.{TcpStream}
use yaoi.Stream
use yaoi.Stream.Kept
use yaoi.Stream.Kept.{FitsSlot}
use yaoi.Serve.{Served, upgrade}
use yaoi.Serve.Kept.{IsFit, upgrade-Sound}
use yaoi.Listener.{ListenerSlotCtx, Work, move_tcpstream_out}
use yaoi.Listener.Listen.{nuke_fixed, accept_call}
use yaoi.Listener.Check.{
  set_pool, with_slot, work_sent_zc, give_up, drop_entry, remove_slot, work_recv_multi,
  first_served, kept, on_local, accept_at, work_accepted, work, slot_for, fresh_stream, recv_served,
  sent_served,
}
use yaoi.Listener.Check.Fit.{sent_served-Keeps, recv_served-Keeps, first_served-Keeps}
use yaoi.Listener.Check.Valid.{FitsEntry, IsValid, insert-IsValid, remove-IsValid, with_slot-Keeps}

fresh_stream-FitsSlot :
    (ty : CrateTypes) (addr : Option SocketAddr) (slot : ℕ)
    → FitsSlot slot (fresh_stream {ty = ty} addr slot)
unfolding fresh_stream
fresh_stream-FitsSlot ty none slot = refl
fresh_stream-FitsSlot ty (some addr) slot = refl

module _ {ty : CrateTypes} where
  slot_for-FitsEntry :
      (slot : ℕ) (w r : Bool) (s : TcpStream ty) → FitsSlot slot s → FitsEntry slot (slot_for w r s)
  unfolding slot_for
  slot_for-FitsEntry slot false false s h = h
  slot_for-FitsEntry slot false true s h = h
  slot_for-FitsEntry slot true false s h = h
  slot_for-FitsEntry slot true true s h = h

module _ (c : Crates) {U : Type 0} where
  abbrev pub KeepsValid : {A : Type 0} → M c.types (Work c U) A → Type 0
  KeepsValid m = Keeps {ty = c.types} {S = Work c U} (IsValid {c = c} {U = U}) m

  work_sent_zc-Keeps : (z : MapSentZc) → KeepsValid (work_sent_zc c z)
  unfolding work_sent_zc
  work_sent_zc-Keeps z w t v =
      with_slot-Keeps c z.fixed_fd (sent_served c w.listener.a_fn z)
        (sent_served-Keeps c z.fixed_fd w.listener.a_fn v.fair z) w t v

  removed-Keeps :
      (slot : ℕ)
      → KeepsValid (modify (λ (w : Work c U). set_pool c (c.remove w.listener.pool slot) w))
  removed-Keeps slot w t v = remove-IsValid c slot w v

  nuke_fixed-Keeps : (slot : ℕ) → KeepsValid (nuke_fixed c slot)
  unfolding nuke_fixed
  nuke_fixed-Keeps slot =
      bind-Keeps IsValid (unwrap_os c (register_files_update slot (negsuc 0 ∷ []))) _
        (unwrap_os-Keeps c IsValid _) λ _. pure-Keeps IsValid tt

  ignore-destroy-Keeps : (s : TcpStream c.types) → KeepsValid (ignore (Stream.destroy c s))
  ignore-destroy-Keeps s w t v =
      dropped-Sound IsValid (Stream.destroy c s w t) (Kept.destroy-state c IsValid s w t v) (
        map-Sound (λ _ w'. IsValid w') _ (Stream.destroy c s w t)
          (Kept.destroy-Keeps c IsValid s w t v) (λ _ _ _. tt))

  give_up-Keeps : (slot : ℕ) (s : Option (TcpStream c.types)) → KeepsValid (give_up c slot s)
  unfolding give_up
  give_up-Keeps slot none w t v = v
  give_up-Keeps slot (some s) w t v =
      bind-Keeps IsValid (ignore (Stream.destroy c s)) _ (ignore-destroy-Keeps s)
        (λ _.
          bind-Keeps IsValid
            (modify (λ (w : Work c U). set_pool c (c.remove w.listener.pool slot) w)) _
            (removed-Keeps slot) (λ _. nuke_fixed-Keeps slot))
        w t v

  drop_entry-Keeps :
      (slot : ℕ) (entry : Option (ListenerSlotCtx c.types)) → KeepsValid (drop_entry c slot entry)
  unfolding drop_entry
  drop_entry-Keeps slot none w t v = λ same. cc
  drop_entry-Keeps slot (some entry) w t v =
      give_up-Keeps slot (move_tcpstream_out entry) (set_pool c (c.remove w.listener.pool slot) w) t
        (remove-IsValid c slot w v)

  remove_slot-Keeps : (slot : ℕ) → KeepsValid (remove_slot c slot)
  unfolding remove_slot
  remove_slot-Keeps slot w t v = drop_entry-Keeps slot (c.get w.listener.pool slot) w t v

  work_recv_multi-Keeps : (r : MapRecvMulti) → KeepsValid (work_recv_multi c r)
  unfolding work_recv_multi
  work_recv_multi-Keeps r w t v =
      bind-Keeps IsValid (with_slot c r.fixed_fd (recv_served c w.listener.a_fn r)) _
        (with_slot-Keeps c r.fixed_fd (recv_served c w.listener.a_fn r)
          (recv_served-Keeps c r.fixed_fd w.listener.a_fn v.fair r))
        (λ _.
          if-Keeps IsValid r.shutdown _ _ (remove_slot-Keeps r.fixed_fd) (pure-Keeps IsValid tt))
        w t v

  with_user-IsValid : (w : Work c U) (u : U) → IsValid w → IsValid (record w { user = u })
  with_user-IsValid w u v = record { fair = v.fair; fits = v.fits }

  kept-Sound :
      {A : Type 0} (slot : ℕ) (w : Work c U) (x : Outcome c.types A × Served c U × Trace c.types)
      → IsValid w
      → Sound (λ _ s. IsFit c slot s) x
      → Sound (λ r w'. FitsSlot slot r.1 × IsValid w') (kept c w x)
  kept-Sound slot w (ok a, s, t) v h = (h, with_user-IsValid w s.user v)
  kept-Sound slot w (err e, s, t) v h = tt
  kept-Sound slot w (panic p, s, t) v h = h

  accept_at-Keeps : (slot : ℕ) (addr : Option SocketAddr) → KeepsValid (accept_at c slot addr)
  unfolding accept_at
  accept_at-Keeps slot addr w t v =
      let call =
        accept_call c w.listener.local_addr w.listener.reg_mapped_acceptfd auto_registered in
      let Q = λ (_ : ℕ) (w' : Work c U). IsValid w' in
      chain-Sound Q _ (ask_bearer c call w t) _ (ask_bearer-Keeps c IsValid call w t v)
        λ _ w1 t1 v1.
          chain-Sound Q _ (ask_bearer c submit w1 t1) _ (ask_bearer-Keeps c IsValid submit w1 t1 v1)
            λ _ w2 t2 v2.
              chain-Sound (λ s w'. FitsSlot slot s × IsValid w') _
                (upgrade c w.listener.cfg_hugetlb (fresh_stream addr slot) w2 t2) _
                (upgrade-Sound c IsValid slot w.listener.cfg_hugetlb (fresh_stream addr slot) w2 t2
                  (fresh_stream-FitsSlot c.types addr slot) v2)
                λ stream w3 t3 (fit, v3).
                  chain-Sound (λ r w'. FitsSlot slot r.1 × IsValid w') _
                    (on_local c stream (first_served c w.listener.a_fn) w3 t3) _
                    (kept-Sound slot w3
                      (first_served c w.listener.a_fn (record { user = w3.user; stream = stream })
                        t3)
                      v3
                      (first_served-Keeps c slot w.listener.a_fn v.fair
                        (record { user = w3.user; stream = stream }) t3 fit))
                    λ (sms, stream') w4 t4 (fit', v4).
                      if-Keeps IsValid ((sms.0 == 0) && (sms.1 == 0)) _ _ (pure-Keeps IsValid tt)
                        (bind-Keeps IsValid (ask_bearer c submit) _
                          (ask_bearer-Keeps c IsValid submit) (λ _. pure-Keeps IsValid tt))
                        _ t4
                        (insert-IsValid c slot _ w4 v4 (
                          slot_for-FitsEntry slot (Stream.left_wants_write stream)
                            (Stream.left_wants_read stream) stream' fit'))

  work_accepted-Keeps : (a : MapAccepted) → KeepsValid (work_accepted c a)
  unfolding work_accepted
  work_accepted-Keeps a w t v = go a.result refl
    where
      go : (r : ℤ) → a.result ≡ r → Sound (λ _ w'. IsValid w') (work_accepted c a w t)
      go (pos slot) e = rw (work_accepted, e) (accept_at-Keeps slot a.s_addr w t v)
      go (negsuc n) e = rw (work_accepted, e) v

  pub work-Keeps : (m : ServerMapMixed) → KeepsValid (work c m)
  unfolding work
  work-Keeps nothing = λ w t v same. cc
  work-Keeps (ServerMapMixed.sent_zc z) = work_sent_zc-Keeps z
  work-Keeps (ServerMapMixed.recv_multi r) = work_recv_multi-Keeps r
  work-Keeps (ServerMapMixed.accepted a) = work_accepted-Keeps a
