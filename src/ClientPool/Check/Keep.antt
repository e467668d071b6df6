-- ===== src/ClientPool/Check/Keep.antt =====
-- TcpClientPool::check as a whole, and the invariant of its pool.
use yaoi.Base.{
  as_u32, ℕ, zero, suc, ◌≡◌, refl, ℤ, pos, negsuc, Bool, true, false, Option, none, some, [], ◌∷◌,
  ◌++◌,
}
use yaoi.Crates.{
  Crates, CrateTypes, Trace, Reply, done, failed, submit, handle_completions, Entry, Completion,
  accept, send_zc, recv_multi, socket_made, connect, other,
}
use yaoi.Outcome.{M, Outcome, ok, err, panic, unwrapped, ask_bearer}
use yaoi.Outcome.Keeps.{Sound, Keeps, chain-Sound, bind-Keeps, pure-Keeps, ask_bearer-Keeps}
use yaoi.Batch.{Bundled, bundle}
use yaoi.Batch.Room.{IsCoded, IsRoomy, bundle-IsRoomy, drain-Keeps}
use yaoi.Cmaps.{ClientMapMixed, nothing}
use yaoi.Connected.{from_fixed}
use yaoi.Stream.{TcpStream}
use yaoi.Stream
use yaoi.Stream.Kept
use yaoi.Stream.Kept.{FitsSlot}
use yaoi.Serve.{Served, on_stream, upgrade}
use yaoi.Serve.Kept.{IsFit, on_stream-Keeps, upgrade-Sound}
use yaoi.ClientPool.{ClientSlotCtx, connecting_error}
use yaoi.ClientPool.Complete.{handle, received_in, sent_from}
use yaoi.ClientPool.Check.{
  Work, slot_for, work_recv_multi, work_sent_zc, recv_served, first_served, count_error,
  count_connected, kept, on_local, establish, connect_failed, on_result, found, work_connected,
  work, drain_bundled, check,
}
use yaoi.ClientPool.Check.Valid.{
  IsValid, FitsEntry, set_entry-IsValid, with_slot-Keeps, recv_served-Keeps, first_served-Keeps,
}

slot_for-FitsEntry :
    {ty : CrateTypes} (slot : ℕ) (w r : Bool) (s : TcpStream ty)
    → FitsSlot slot s
    → FitsEntry slot (slot_for w r s)
unfolding slot_for
slot_for-FitsEntry slot false false s h = h
slot_for-FitsEntry slot false true s h = h
slot_for-FitsEntry slot true false s h = h
slot_for-FitsEntry slot true true s h = h

module _ (c : Crates) {U : Type 0} where
  abbrev pub KeepsValid : {A : Type 0} → M c.types (Work c U) A → Type 0
  KeepsValid m = Keeps {ty = c.types} {S = Work c U} (IsValid {c = c} {U = U}) m

  -- The counts have no part in what is valid.
  pub recount-IsValid :
      (w w' : Work c U)
      → w'.clients.pool ≡ w.clients.pool
      → w'.clients.c_fn ≡ w.clients.c_fn
      → IsValid w
      → IsValid w'
  recount-IsValid w w' same_pool same_fn v = record {
    fair = rw same_fn v.fair;
    fits = λ slot. rw same_pool (v.fits slot);
  }

  kept-Sound :
      {A : Type 0} (slot : ℕ) (w : Work c U) (x : Outcome c.types A × Served c U × Trace c.types)
      → IsValid w
      → Sound (λ _ s. IsFit c slot s) x
      → Sound (λ r w'. FitsSlot slot r × IsValid w') (kept c w x)
  kept-Sound slot w (ok a, s, t) v h = (h, record { fair = v.fair; fits = v.fits })
  kept-Sound slot w (err e, s, t) v h = tt
  kept-Sound slot w (panic p, s, t) v h = h

  establish-Keeps : (slot : ℕ) → KeepsValid (establish c slot)
  unfolding establish
  establish-Keeps slot w t v =
      chain-Sound (λ s w'. FitsSlot slot s × IsValid w') _
        (upgrade c w.clients.cfg_hugetlb (TcpStream.connected (from_fixed slot)) w t) _
        (upgrade-Sound c IsValid slot w.clients.cfg_hugetlb (TcpStream.connected (from_fixed slot))
          w t refl v)
        λ stream w1 t1 (fit, v1).
          chain-Sound (λ r w'. FitsSlot slot r × IsValid w') _
            (on_local c stream (first_served c w.clients.c_fn) (count_connected c w1) t1) _
            (kept-Sound slot (count_connected c w1)
              (first_served c w.clients.c_fn (record { user = w1.user; stream = stream }) t1)
              (recount-IsValid w1 (count_connected c w1) refl refl v1)
              (first_served-Keeps c slot w.clients.c_fn v.fair
                (record { user = w1.user; stream = stream }) t1 fit))
            λ stream' w2 t2 (fit', v2).
              bind-Keeps IsValid (ask_bearer c submit) _ (ask_bearer-Keeps c IsValid submit)
                (λ _. pure-Keeps IsValid tt) _ t2
                (set_entry-IsValid c slot _ w2 v2 (
                  slot_for-FitsEntry slot (Stream.left_wants_write stream)
                    (Stream.left_wants_read stream) stream' fit'))

  connect_failed-Keeps : (slot : ℕ) (result : ℤ) → KeepsValid (connect_failed c slot result)
  unfolding connect_failed
  connect_failed-Keeps slot result w t v =
      set_entry-IsValid c slot (connecting_error result) (count_error c w)
        (recount-IsValid w (count_error c w) refl refl v) tt

  on_result-Keeps : (slot : ℕ) (result : ℤ) → KeepsValid (on_result c slot result)
  unfolding on_result
  on_result-Keeps slot (pos zero) = establish-Keeps slot
  on_result-Keeps slot (pos (suc n)) = connect_failed-Keeps slot (pos (suc n))
  on_result-Keeps slot (negsuc n) = connect_failed-Keeps slot (negsuc n)

  found-Keeps :
      (slot : ℕ) (result : ℤ) (entry : Option (ClientSlotCtx c.types))
      → KeepsValid (found c slot result entry)
  unfolding found
  found-Keeps slot result none = λ w t v same. cc
  found-Keeps slot result (some _) = on_result-Keeps slot result

  pub work-Keeps : (m : ClientMapMixed) → KeepsValid (work c m)
  unfolding work work_recv_multi work_sent_zc work_connected
  work-Keeps nothing = λ w t v same. cc
  work-Keeps (ClientMapMixed.recv_multi r) = λ w t v.
      with_slot-Keeps c r.fixed_fd (recv_served c w.clients.c_fn r)
        (recv_served-Keeps c r.fixed_fd w.clients.c_fn v.fair r) w t v
  work-Keeps (ClientMapMixed.sent_zc z) =
      with_slot-Keeps c z.fixed_fd (on_stream c (Stream.sent_zc z))
        (on_stream-Keeps c z.fixed_fd _ (Kept.sent_zc-Keeps z.fixed_fd z))
  work-Keeps (ClientMapMixed.connected m) =
      λ w t v. found-Keeps m.fixed_fd m.result (c.get w.clients.pool m.fixed_fd) w t v

received-IsCoded :
    (e : Entry) (r : ℤ) (fd grp : ℕ) (buf : Option ℕ)
    → e.result ≡ r
    → e.buffer_select ≡ buf
    → IsCoded (handle e (recv_multi fd grp))
unfolding handle received_in
received-IsCoded e (negsuc k) fd grp buf h g = rw (handle, h) (λ same. cc)
received-IsCoded e (pos k) fd grp none h g = rw (handle, h, g) (λ same. cc)
received-IsCoded e (pos k) fd grp (some b) h g = rw (handle, h, g) tt

sent-IsCoded :
    (e : Entry) (r : ℤ) (fd : ℕ) (buf : Option ℕ)
    → e.result ≡ r
    → IsCoded (handle e (send_zc fd buf))
unfolding handle sent_from
sent-IsCoded e (negsuc k) fd buf h = rw (handle, h) tt
sent-IsCoded e (pos k) fd none h = rw (handle, h) (λ same. cc)
sent-IsCoded e (pos k) fd (some b) h = rw (handle, h) tt

handle-IsCoded : (e : Entry) (rec : Completion) → IsCoded (handle e rec)
unfolding handle
handle-IsCoded e (accept addr) = λ same. cc
handle-IsCoded e (send_zc fd buf) = sent-IsCoded e e.result fd buf refl
handle-IsCoded e (recv_multi fd grp) = received-IsCoded e e.result fd grp e.buffer_select refl refl
handle-IsCoded e socket_made = tt
handle-IsCoded e (connect _) = tt
handle-IsCoded e other = λ same. cc

module _ (c : Crates) {U : Type 0} (n : ℕ) where
  drain_bundled-Sound :
      (x : Bundled c n ClientMapMixed) (r : Reply c.BearerError (Unit {0})) (w : Work c U)
      (t : Trace c.types)
      → IsRoomy c x
      → IsValid w
      → Sound (λ _ w'. IsValid w') (drain_bundled c x (unwrapped {ty = c.types} r) w t)
  unfolding drain_bundled
  drain_bundled-Sound (Bundled.bad p) r w t roomy v = roomy
  drain_bundled-Sound (Bundled.good b) (done _) w t roomy v =
      drain-Keeps c IsValid (work c) b (work-Keeps c) roomy w t v
  drain_bundled-Sound (Bundled.good b) (failed e) w t roomy v = λ same. cc

  -- From a valid client pool, whose callback is fair and each of whose connections is on the descriptor of its slot
  -- with a valid outgoing cursor, whatever completions come and however the calls of other crates answer: `check`
  -- ends, it never runs out of the rounds that are given to its loop, and where it returns without an error the pool
  -- is valid again.
  pub client_check-IsValid :
      (w : Work c U) (t : Trace c.types) → IsValid w → Sound (λ _ w'. IsValid w') (check c n w t)
  unfolding check
  client_check-IsValid w t v =
      let batch = (c.completions t (as_u32 n)).0 in
      chain-Sound (λ _ w'. IsValid w') _
        (drain_bundled c (bundle c handle (c.buf_new n ClientMapMixed) batch)
          (unwrapped {ty = c.types} (c.completions t (as_u32 n)).1) w
          (t ++ handle_completions (as_u32 n) ∷ []))
        _
        (drain_bundled-Sound (bundle c handle (c.buf_new n ClientMapMixed) batch)
          (c.completions t (as_u32 n)).1 w _ (bundle-IsRoomy c n handle batch handle-IsCoded) v)
        (λ _ w' t' v'. v')
