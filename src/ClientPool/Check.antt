-- ===== src/ClientPool/Check.antt =====
-- TcpClientPool::check: take in a batch of completions, then work on what they were turned into.
pub mod Counts
pub mod Drain
pub mod Valid
pub mod Keep
pub mod Frame
pub mod Closed
use yaoi.Base.{
  as_u32, ℕ, zero, suc, ◌+◌, ℤ, pos, negsuc, Bool, true, false, Option, none, some, List, [], ◌∷◌,
  ◌++◌, add_usize, sub_usize,
}
use yaoi.Crates.{Crates, CrateTypes, Call, Trace, Reply, submit, handle_completions}
use yaoi.Outcome.{
  M, Outcome, ok, err, panic, bearer, slot_missing, unreachable_code, unwrap_on_err, fuel_exhausted,
  pure, panics, gets, modify, ask_bearer, unwrapped, ◌>>=◌, ◌>>◌,
}
use yaoi.Cmaps.{ClientMapMixed, nothing, MapConnected, MapRecvMulti, MapSentZc}
use yaoi.Connected.{from_fixed}
use yaoi.Stream.{TcpStream}
use yaoi.Stream
use yaoi.Serve.{Served, on_stream, after_call, upgrade}
use yaoi.ClientPool.{
  ClientSlotCtx, connected, reading, writing, reading_and_writing, connecting_error, tcp_stream_mut,
  put_stream, Callback, TcpClientPool,
}
use yaoi.Batch.{Bundled, bundle, drain}
use yaoi.ClientPool.Complete.{handle, connects}

-- A pool with the user data of its callback.
pub record Work (c : Crates) (U : Type 0) : Type 0 where
  pub clients : TcpClientPool c U
  pub user : U

unfoldable pub slot_for : {ty : CrateTypes} → Bool → Bool → TcpStream ty → ClientSlotCtx ty
slot_for false false s = connected s
slot_for false true s = reading s
slot_for true false s = writing s
slot_for true true s = reading_and_writing s

module _ (c : Crates) {U : Type 0} where
  pub call_fn : Option (Callback c.types U) → M c.types (Served c U) (Unit {0})
  call_fn none s t = pure tt s t
  call_fn (some f) s t = after_call c (f s.user s.stream) s t

  pub recv_served : Option (Callback c.types U) → MapRecvMulti → M c.types (Served c U) (Unit {0})
  recv_served c_fn r = do
    on_stream c (Stream.cb_recv_multi r)
    call_fn c_fn
    on_stream c (Stream.send_all_out c)
    ask_bearer c submit
    on_stream c Stream.try_free_buffers

  abbrev pub set_entry : ℕ → ClientSlotCtx c.types → Work c U → Work c U
  set_entry slot entry w = record w {
    clients = record w.clients { pool = c.insert w.clients.pool slot entry };
  }

  -- Work on the stream of the pool's entry at a slot.
  pub borrow :
      {A : Type 0}
      → ℕ
      → M c.types (Served c U) A
      → Option (ClientSlotCtx c.types)
      → M c.types (Work c U) A
  borrow slot m none w t = (panic slot_missing, w, t)
  borrow slot m (some entry) w t = elim (tcp_stream_mut entry) [
    | none ↦ (panic unreachable_code, w, t)
    | some stream ↦
        let (r, s, t') = m (record { user = w.user; stream = stream }) t in
        (r, set_entry slot (put_stream s.stream entry) (record w { user = s.user }), t')
  ]

  pub with_slot : {A : Type 0} → ℕ → M c.types (Served c U) A → M c.types (Work c U) A
  unfolding borrow
  with_slot slot m w = borrow slot m (c.get w.clients.pool slot) w

  pub work_recv_multi : MapRecvMulti → M c.types (Work c U) (Unit {0})
  unfolding recv_served
  work_recv_multi r w = with_slot r.fixed_fd (recv_served w.clients.c_fn r) w

  pub work_sent_zc : MapSentZc → M c.types (Work c U) (Unit {0})
  work_sent_zc z = with_slot z.fixed_fd (on_stream c (Stream.sent_zc z))

  -- `self.state_connecting -= 1`, with one more in error or connected.
  abbrev pub count_error : Work c U → Work c U
  count_error w = record w {
    clients = record w.clients {
      state_connecting = sub_usize w.clients.state_connecting 1;
      state_error = add_usize w.clients.state_error 1;
    };
  }

  abbrev pub count_connected : Work c U → Work c U
  count_connected w = record w {
    clients = record w.clients {
      state_connecting = sub_usize w.clients.state_connecting 1;
      state_connected = add_usize w.clients.state_connected 1;
    };
  }

  -- The first work on a new stream: the callback, a receive and what is to be sent.
  pub first_served : Option (Callback c.types U) → M c.types (Served c U) (Unit {0})
  first_served c_fn = do
    call_fn c_fn
    on_stream c (Stream.recv_multi c)
    on_stream c (Stream.send_all_out c)
    pure tt

  -- Work on a stream that is not in the pool yet: it is lost unless the work gives a value.
  abbrev pub kept :
      {A : Type 0}
      → Work c U
      → Outcome c.types A × Served c U × Trace c.types
      → Outcome c.types (TcpStream c.types) × Work c U × Trace c.types
  kept w (ok a, s, t) = (ok s.stream, record w { user = s.user }, t)
  kept w (err e, s, t) = (err e, record w { user = s.user }, t)
  kept w (panic p, s, t) = (panic p, record w { user = s.user }, t)

  abbrev pub on_local :
      {A : Type 0}
      → TcpStream c.types
      → M c.types (Served c U) A
      → M c.types (Work c U) (TcpStream c.types)
  on_local stream m w t = kept w (m (record { user = w.user; stream = stream }) t)

  pub establish : ℕ → M c.types (Work c U) (Unit {0})
  unfolding first_served
  establish slot = do
    p ← gets (λ w. w.clients)
    tcp_stream ← upgrade c p.cfg_hugetlb (TcpStream.connected (from_fixed slot))
    let wants_write = Stream.left_wants_write tcp_stream
    let wants_read = Stream.left_wants_read tcp_stream
    modify count_connected
    tcp_stream' ← on_local tcp_stream (first_served p.c_fn)
    modify (set_entry slot (slot_for wants_write wants_read tcp_stream'))
    ask_bearer c submit
    pure tt

  pub connect_failed : ℕ → ℤ → M c.types (Work c U) (Unit {0})
  connect_failed slot result =
      modify (λ w. set_entry slot (connecting_error result) (count_error w))

  pub on_result : ℕ → ℤ → M c.types (Work c U) (Unit {0})
  unfolding establish connect_failed
  on_result slot (pos zero) = establish slot
  on_result slot (pos (suc n)) = connect_failed slot (pos (suc n))
  on_result slot (negsuc n) = connect_failed slot (negsuc n)

  pub found : ℕ → ℤ → Option (ClientSlotCtx c.types) → M c.types (Work c U) (Unit {0})
  unfolding on_result
  found slot result none = panics slot_missing
  found slot result (some _) = on_result slot result

  pub work_connected : MapConnected → M c.types (Work c U) (Unit {0})
  unfolding found
  work_connected m w = found m.fixed_fd m.result (c.get w.clients.pool m.fixed_fd) w

  pub work : ClientMapMixed → M c.types (Work c U) (Unit {0})
  work nothing = panics unreachable_code
  work (ClientMapMixed.recv_multi r) = work_recv_multi r
  work (ClientMapMixed.sent_zc z) = work_sent_zc z
  work (ClientMapMixed.connected m) = work_connected m

  pub drain_bundled :
      {n : ℕ}
      → Bundled c n ClientMapMixed
      → Outcome c.types (Unit {0})
      → M c.types (Work c U) (Unit {0})
  drain_bundled (Bundled.bad p) r = panics p
  drain_bundled {n} (Bundled.good b) (ok _) = drain c work (n + 1) b
  drain_bundled (Bundled.good b) (err e) = panics unwrap_on_err
  drain_bundled (Bundled.good b) (panic p) = panics p

  -- At most `n` completions are taken in at once; the result counts the connects among them.
  pub check : ℕ → M c.types (Work c U) ℕ
  unfolding drain_bundled
  check n w t =
      let (batch, r) = c.completions t (as_u32 n) in
      (drain_bundled (bundle c handle (c.buf_new n ClientMapMixed) batch)
            (unwrapped {ty = c.types} r)
          >> pure (as_u32 (connects batch)))
        w (t ++ handle_completions (as_u32 n) ∷ [])
