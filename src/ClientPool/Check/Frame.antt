-- ===== src/ClientPool/Check/Frame.antt =====
-- The work of a client pool on one message, and the other slots.
use yaoi.Base.{
  ℕ, zero, suc, ◌≡◌, ◌≢◌, refl, arith, ℤ, pos, negsuc, ◌==◌, Bool-cases, inl, inr, Option, none,
  some, Option-cases, ap,
}
use yaoi.Crates.{Crates, Trace, submit}
use yaoi.Outcome.{M, Outcome, ok, err, panic, ask_bearer}
use yaoi.Outcome.Rules.{chain-state}
use yaoi.Cmaps.{ClientMapMixed, nothing}
use yaoi.Connected.{from_fixed}
use yaoi.Stream.{TcpStream}
use yaoi.Serve.{Served, upgrade}
use yaoi.Serve.Laws.{upgrade-state}
use yaoi.ClientPool.{ClientSlotCtx, connecting_error, tcp_stream_mut}
use yaoi.ClientPool.Check.{
  Work, borrow, with_slot, work_recv_multi, recv_served, work_sent_zc, count_error, count_connected,
  kept, on_local, first_served, establish, connect_failed, on_result, found, work_connected, work,
}

-- The slot that a message is about.
abbrev pub client_slot_of : ClientMapMixed → Option ℕ
client_slot_of nothing = none
client_slot_of (ClientMapMixed.sent_zc z) = some z.fixed_fd
client_slot_of (ClientMapMixed.recv_multi r) = some r.fixed_fd
client_slot_of (ClientMapMixed.connected m) = some m.fixed_fd

module _ (c : Crates) {U : Type 0} (w0 : Work c U) (slot : ℕ) where
  -- Every other slot is as it was.
  abbrev pub Others : Work c U → Type 0
  Others w = (k : ℕ) → slot ≢ k → c.get w.clients.pool k ≡ c.get w0.clients.pool k

  insert-Others :
      (entry : ClientSlotCtx c.types) (w : Work c U)
      → Others w
      → (k : ℕ) → slot ≢ k
      → c.get (c.insert w.clients.pool slot entry) k ≡ c.get w0.clients.pool k
  insert-Others entry w h k other = elim (Bool-cases (slot == k)) [
    | inl same ↦ absurd (other (ground arith))
    | inr differs ↦ rw (c.get-insert, differs) (h k other)
  ]

  with_slot-Others :
      {A : Type 0} (m : M c.types (Served c U) A) (w : Work c U) (t : Trace c.types)
      → Others w
      → Others (with_slot c slot m w t).1
  unfolding with_slot borrow
  with_slot-Others m w t h = go (c.get w.clients.pool slot)
    where
      go : (entry : Option (ClientSlotCtx c.types)) → Others (borrow c slot m entry w t).1
      go none = h
      go (some entry) = elim (Option-cases (tcp_stream_mut entry)) [
        | inl no_stream ↦ rw (borrow, no_stream) h
        | inr (stream, e) ↦ rw (borrow, e) (insert-Others _ w h)
      ]

  kept-Others :
      {A : Type 0} (w : Work c U) (x : Outcome c.types A × Served c U × Trace c.types)
      → Others w
      → Others (kept c w x).1
  kept-Others w (ok a, s, t) h = h
  kept-Others w (err e, s, t) h = h
  kept-Others w (panic p, s, t) h = h

  establish-Others : (w : Work c U) (t : Trace c.types) → Others w → Others (establish c slot w t).1
  unfolding establish
  establish-Others w t h =
      let made = TcpStream.connected (from_fixed slot) in
      chain-state Others (upgrade c w.clients.cfg_hugetlb made w t) _
        (upgrade-state c Others w.clients.cfg_hugetlb made w t h)
        λ stream w1 t1 h1.
          chain-state Others
            (on_local c stream (first_served c w.clients.c_fn) (count_connected c w1) t1) _
            (kept-Others (count_connected c w1)
              (first_served c w.clients.c_fn (record { user = w1.user; stream = stream }) t1) h1)
            λ stream' w2 t2 h2.
              chain-state Others (ask_bearer c submit _ t2) _ (insert-Others _ w2 h2) (λ _ _ _ q. q)

  on_result-Others :
      (result : ℤ) (w : Work c U) (t : Trace c.types)
      → Others w
      → Others (on_result c slot result w t).1
  unfolding on_result connect_failed
  on_result-Others (pos zero) w t h = establish-Others w t h
  on_result-Others (pos (suc n)) w t h =
      insert-Others (connecting_error (pos (suc n))) (count_error c w) h
  on_result-Others (negsuc n) w t h =
      insert-Others (connecting_error (negsuc n)) (count_error c w) h

  found-Others :
      (result : ℤ) (entry : Option (ClientSlotCtx c.types)) (w : Work c U) (t : Trace c.types)
      → Others w
      → Others (found c slot result entry w t).1
  unfolding found
  found-Others result none w t h = h
  found-Others result (some _) w t h = on_result-Others result w t h

-- The work of a client pool on a message leaves every slot but the message's own as it was, however it
-- ends.
pub work-client_slot_of :
    (c : Crates) {U : Type 0} (w : Work c U) (t : Trace c.types) (m : ClientMapMixed) (k : ℕ)
    → client_slot_of m ≢ some k
    → c.get (work c m w t).1.clients.pool k ≡ c.get w.clients.pool k
unfolding work work_recv_multi work_sent_zc work_connected
work-client_slot_of c w t nothing k away = refl
work-client_slot_of c w t (ClientMapMixed.sent_zc z) k away =
    with_slot-Others c w z.fixed_fd _ w t (λ _ _. refl) k (λ same. away (ap some same))
work-client_slot_of c w t (ClientMapMixed.recv_multi r) k away =
    with_slot-Others c w r.fixed_fd (recv_served c w.clients.c_fn r) w t (λ _ _. refl) k
      (λ same. away (ap some same))
work-client_slot_of c w t (ClientMapMixed.connected m) k away =
    found-Others c w m.fixed_fd m.result (c.get w.clients.pool m.fixed_fd) w t (λ _ _. refl) k
      (λ same. away (ap some same))
