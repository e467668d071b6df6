-- ===== src/Listener/Check.antt =====
-- TcpListener::check: take in a batch of completions, then work on what they were turned into.
pub mod Loop
pub mod Slots
pub mod Drain
pub mod Accept
pub mod Fit
pub mod Valid
pub mod Each
pub mod Keep
pub mod Frame
use yaoi.Base.{
  as_u32, ℕ, zero, suc, ◌+◌, ◌==◌, if◌then◌else◌, ℤ, pos, negsuc, Bool, true, false, ◌&&◌, Option,
  none, some, List, [], ◌∷◌, ◌++◌,
}
use yaoi.Crates.{
  Crates, CrateTypes, SocketAddr, Call, Trace, Reply, done, failed, auto_registered, submit,
  handle_completions,
}
use yaoi.Outcome.{
  M, Outcome, ok, err, panic, bearer, slot_missing, unreachable_code, fuel_exhausted, pure, raise,
  panics, gets, modify, ask_bearer, ask_page, ignore, outcome, ◌>>=◌, ◌>>◌,
}
use yaoi.Cmaps.{ServerMapMixed, nothing, MapAccepted, MapRecvMulti, MapSentZc}
use yaoi.Connected.{from_fixed, and_peer_addr}
use yaoi.Serve.{Served, on_stream, after_call, upgrade}
use yaoi.Stream.{TcpStream, connected, streaming_huge_tlb}
use yaoi.Stream
use yaoi.Listener.{
  ListenerSlotCtx, accepted, reading, writing, reading_and_writing, tcp_stream_mut, put_stream,
  move_tcpstream_out, Callback, TcpListener, Work,
}
use yaoi.Listener.Listen.{accept_call, nuke_fixed}
use yaoi.Batch.{Bundled, bundle, drain}
use yaoi.Listener.Complete.{handle}

-- The rounds of `serve` that are enough: a send goes out only while at most five buffers are
-- pending, and adds one at least.
abbrev pub serve_fuel : ℕ
serve_fuel = 7

module _ {ty : CrateTypes} where
  -- A new stream, without buffers yet.
  pub fresh_stream : Option SocketAddr → ℕ → TcpStream ty
  fresh_stream none slot = connected (from_fixed slot)
  fresh_stream (some addr) slot = connected (and_peer_addr (from_fixed slot) addr)

  pub slot_for : Bool → Bool → TcpStream ty → ListenerSlotCtx ty
  slot_for false false s = accepted s
  slot_for false true s = reading s
  slot_for true false s = writing s
  slot_for true true s = reading_and_writing s

module _ (c : Crates) {U : Type 0} where
  pub call_fn : Option (Callback c.types U) → Bool → M c.types (Served c U) (Unit {0})
  call_fn none flag s t = pure tt s t
  call_fn (some f) flag s t = after_call c (f s.user s.stream flag) s t

  -- One send of all that is there; with something sent, the ring is told and `rest` goes on.
  pub send_then : M c.types (Served c U) (Unit {0}) → M c.types (Served c U) (Unit {0})
  send_then rest = do
    sm_send ← on_stream c (Stream.send_all_out c)
    (if sm_send == 0 then pure tt else (ask_bearer c submit >> rest))

  -- The inner `loop` of both handlers: call back, and send until nothing more is sent. On a shutdown
  -- it stops after the first call; the handler of a sent buffer passes `false`.
  pub serve : ℕ → Option (Callback c.types U) → Bool → M c.types (Served c U) (Unit {0})
  serve zero a_fn flag = panics fuel_exhausted
  serve (suc fuel) a_fn flag =
      let rest = serve fuel a_fn flag in
      do call_fn a_fn flag; (if flag then pure tt else send_then rest)

  pub sent_served : Option (Callback c.types U) → MapSentZc → M c.types (Served c U) (Unit {0})
  sent_served a_fn z = do
    on_stream c (Stream.sent_zc z)
    serve serve_fuel a_fn false
    on_stream c Stream.try_free_buffers

  pub recv_served : Option (Callback c.types U) → MapRecvMulti → M c.types (Served c U) (Unit {0})
  recv_served a_fn r = do
    on_stream c (Stream.cb_recv_multi r)
    serve serve_fuel a_fn r.shutdown
    on_stream c Stream.try_free_buffers

  abbrev pub set_pool : c.Map (ListenerSlotCtx c.types) → Work c U → Work c U
  set_pool pool w = record w { listener = record w.listener { pool = pool } }

  -- What was done on a borrowed stream is done to the pool's entry.
  abbrev pub put_back : ℕ → ListenerSlotCtx c.types → Work c U → Served c U → Work c U
  put_back slot entry w s = record w {
    listener = record w.listener {
      pool = c.insert w.listener.pool slot (put_stream s.stream entry);
    };
    user = s.user;
  }

  -- Work on the stream of the pool's entry at a slot.
  pub borrow :
      {A : Type 0}
      → ℕ
      → M c.types (Served c U) A
      → Option (ListenerSlotCtx c.types)
      → M c.types (Work c U) A
  borrow slot m none w t = (panic slot_missing, w, t)
  borrow slot m (some entry) w t = elim (tcp_stream_mut entry) [
    | none ↦ (panic unreachable_code, w, t)
    | some stream ↦
        let (r, s, t') = m (record { user = w.user; stream = stream }) t in
        (r, put_back slot entry w s, t')
  ]

  pub with_slot : {A : Type 0} → ℕ → M c.types (Served c U) A → M c.types (Work c U) A
  unfolding borrow
  with_slot slot m w = borrow slot m (c.get w.listener.pool slot) w

  pub work_sent_zc : MapSentZc → M c.types (Work c U) (Unit {0})
  unfolding sent_served
  work_sent_zc z w = with_slot z.fixed_fd (sent_served w.listener.a_fn z) w

  pub give_up : ℕ → Option (TcpStream c.types) → M c.types (Work c U) (Unit {0})
  give_up slot none = pure tt
  give_up slot (some stream) = do
    ignore (Stream.destroy c stream)
    modify (λ w. set_pool (c.remove w.listener.pool slot) w)
    nuke_fixed c slot

  -- The entry is taken out of the pool; its stream is destroyed and its descriptor given up.
  pub drop_entry : ℕ → Option (ListenerSlotCtx c.types) → M c.types (Work c U) (Unit {0})
  unfolding give_up
  drop_entry slot none = panics slot_missing
  drop_entry slot (some entry) = do
    modify (λ w. set_pool (c.remove w.listener.pool slot) w)
    give_up slot (move_tcpstream_out entry)

  pub remove_slot : ℕ → M c.types (Work c U) (Unit {0})
  unfolding drop_entry
  remove_slot slot w = drop_entry slot (c.get w.listener.pool slot) w

  pub work_recv_multi : MapRecvMulti → M c.types (Work c U) (Unit {0})
  unfolding recv_served remove_slot
  work_recv_multi r = do
    a_fn ← gets (λ w. w.listener.a_fn)
    with_slot r.fixed_fd (recv_served a_fn r)
    (if r.shutdown then remove_slot r.fixed_fd else pure tt)

  -- The first work on a new stream: the callback, a receive and what is to be sent.
  pub first_served : Option (Callback c.types U) → M c.types (Served c U) (ℕ × ℕ)
  first_served a_fn = do
    call_fn a_fn false
    sm_recv ← on_stream c (Stream.recv_multi c)
    sm_send ← on_stream c (Stream.send_all_out c)
    pure (sm_recv, sm_send)

  -- Work on a stream that is not in the pool yet: it is lost unless the work gives a value.
  abbrev pub kept :
      {A : Type 0}
      → Work c U
      → Outcome c.types A × Served c U × Trace c.types
      → Outcome c.types (A × TcpStream c.types) × Work c U × Trace c.types
  kept w (ok a, s, t) = (ok (a, s.stream), record w { user = s.user }, t)
  kept w (err e, s, t) = (err e, record w { user = s.user }, t)
  kept w (panic p, s, t) = (panic p, record w { user = s.user }, t)

  abbrev pub on_local :
      {A : Type 0}
      → TcpStream c.types
      → M c.types (Served c U) A
      → M c.types (Work c U) (A × TcpStream c.types)
  on_local stream m w t = kept w (m (record { user = w.user; stream = stream }) t)

  pub accept_at : ℕ → Option SocketAddr → M c.types (Work c U) (Unit {0})
  unfolding fresh_stream first_served
  accept_at slot s_addr = do
    l ← gets (λ w. w.listener)
    ask_bearer c (accept_call c l.local_addr l.reg_mapped_acceptfd auto_registered)
    ask_bearer c submit
    tcp_stream ← upgrade c l.cfg_hugetlb (fresh_stream s_addr slot)
    let wants_write = Stream.left_wants_write tcp_stream
    let wants_read = Stream.left_wants_read tcp_stream
    (sms, tcp_stream') ← on_local tcp_stream (first_served l.a_fn)
    modify (λ w.
        set_pool (c.insert w.listener.pool slot (slot_for wants_write wants_read tcp_stream')) w)
    (if (sms.0 == 0) && (sms.1 == 0) then pure tt else (ask_bearer c submit >> pure tt))

  -- A failed accept is passed over, and no new one is asked for.
  pub work_accepted : MapAccepted → M c.types (Work c U) (Unit {0})
  unfolding accept_at
  work_accepted a = elim a.result [ pos slot ↦ accept_at slot a.s_addr | negsuc _ ↦ pure tt ]

  pub work : ServerMapMixed → M c.types (Work c U) (Unit {0})
  work nothing = panics unreachable_code
  work (ServerMapMixed.sent_zc z) = work_sent_zc z
  work (ServerMapMixed.recv_multi r) = work_recv_multi r
  work (ServerMapMixed.accepted a) = work_accepted a

  drain_bundled :
      {n : ℕ}
      → Bundled c n ServerMapMixed
      → Outcome c.types (Unit {0})
      → M c.types (Work c U) (Unit {0})
  drain_bundled (Bundled.bad p) r = panics p
  drain_bundled {n} (Bundled.good b) (ok _) = drain c work (n + 1) b
  drain_bundled (Bundled.good b) (err e) = raise e
  drain_bundled (Bundled.good b) (panic p) = panics p

  -- At most `n` completions are taken in at once.
  pub check : ℕ → M c.types (Work c U) (Unit {0})
  unfolding drain_bundled
  check n w t =
      let (batch, r) = c.completions t (as_u32 n) in
      drain_bundled (bundle c handle (c.buf_new n ServerMapMixed) batch)
        (outcome {ty = c.types} bearer r) w (t ++ handle_completions (as_u32 n) ∷ [])
