-- ===== src/ClientPool/Check/Valid.antt =====
-- The invariant of a client pool, and the work on one connection of it.
use yaoi.Base.{
  ℕ, ◌≡◌, refl, ◌∙◌, arith, ◌==◌, Bool-cases, inl, inr, Option, none, some, Option-cases,
}
use mathlib.Core.Option.{some-injective, none-ne-some}
use yaoi.Crates.{Crates, CrateTypes, Trace, submit}
use yaoi.Outcome.{M, Outcome, ok, err, panic, ask_bearer}
use yaoi.Outcome.Keeps.{Sound, Keeps, bind-Keeps, pure-Keeps, ask_bearer-Keeps}
use yaoi.Cmaps.{MapRecvMulti}
use yaoi.Stream.{TcpStream, fixed_fd}
use yaoi.Stream
use yaoi.Stream.Laws.{IsSafe}
use yaoi.Stream.Kept
use yaoi.Stream.Kept.{FitsSlot, FitsSlot-IsSafe, FitsSlot-fixed_fd, FitsSlot-of}
use yaoi.Serve.{Served, on_stream, after_call}
use yaoi.Serve.Kept.{IsFit, on_stream-Keeps}
use yaoi.ClientPool.{
  ClientSlotCtx, created, connecting, connecting_error, connected, reading, writing,
  reading_and_writing, shutdown_ok, tcp_stream_mut, put_stream, Callback,
}
use yaoi.ClientPool.Check.{Work, call_fn, recv_served, first_served, set_entry, borrow, with_slot}

-- A callback that keeps the outgoing cursor valid and leaves the stream on its descriptor.
abbrev pub IsFair : {ty : CrateTypes} {U : Type 0} → Option (Callback ty U) → Type 0
IsFair none = Unit {0}
IsFair {ty} {U} (some f) =
    (u u' : U) (s s' : TcpStream ty)
    → IsSafe s
    → f u s ≡ some (u', s')
    → IsSafe s' × (fixed_fd s' ≡ fixed_fd s)

abbrev pub FitsEntry : {ty : CrateTypes} → ℕ → ClientSlotCtx ty → Type 0
FitsEntry slot created = Unit {0}
FitsEntry slot (connecting op) = Unit {0}
FitsEntry slot (connecting_error e) = Unit {0}
FitsEntry slot (connected s) = FitsSlot slot s
FitsEntry slot (reading s) = FitsSlot slot s
FitsEntry slot (writing s) = FitsSlot slot s
FitsEntry slot (reading_and_writing s) = FitsSlot slot s
FitsEntry slot shutdown_ok = Unit {0}

abbrev pub FitsAt : {ty : CrateTypes} → ℕ → Option (ClientSlotCtx ty) → Type 0
FitsAt slot none = Unit {0}
FitsAt slot (some entry) = FitsEntry slot entry

pub record IsValid {c : Crates} {U : Type 0} (w : Work c U) : Type 0 where
  pub fair : IsFair w.clients.c_fn
  pub fits : (slot : ℕ) → FitsAt slot (c.get w.clients.pool slot)

stream-FitsSlot :
    {ty : CrateTypes} (slot : ℕ) (entry : ClientSlotCtx ty) (s : TcpStream ty)
    → FitsEntry slot entry
    → tcp_stream_mut entry ≡ some s
    → FitsSlot slot s
unfolding tcp_stream_mut
stream-FitsSlot slot created s h e = absurd (none-ne-some s e)
stream-FitsSlot slot (connecting op) s h e = absurd (none-ne-some s e)
stream-FitsSlot slot (connecting_error x) s h e = absurd (none-ne-some s e)
stream-FitsSlot slot shutdown_ok s h e = absurd (none-ne-some s e)
stream-FitsSlot slot (connected a) s h e = let same : a ≡ s = some-injective a s e in rw same at h
stream-FitsSlot slot (reading a) s h e = let same : a ≡ s = some-injective a s e in rw same at h
stream-FitsSlot slot (writing a) s h e = let same : a ≡ s = some-injective a s e in rw same at h
stream-FitsSlot slot (reading_and_writing a) s h e =
    let same : a ≡ s = some-injective a s e in rw same at h

put_stream-FitsEntry :
    {ty : CrateTypes} (slot : ℕ) (entry : ClientSlotCtx ty) (s : TcpStream ty)
    → FitsSlot slot s
    → FitsEntry slot (put_stream s entry)
unfolding put_stream
put_stream-FitsEntry slot created s h = tt
put_stream-FitsEntry slot (connecting op) s h = tt
put_stream-FitsEntry slot (connecting_error x) s h = tt
put_stream-FitsEntry slot shutdown_ok s h = tt
put_stream-FitsEntry slot (connected _) s h = h
put_stream-FitsEntry slot (reading _) s h = h
put_stream-FitsEntry slot (writing _) s h = h
put_stream-FitsEntry slot (reading_and_writing _) s h = h

module _ (c : Crates) {U : Type 0} where
  pub set_entry-IsValid :
      (slot : ℕ) (entry : ClientSlotCtx c.types) (w : Work c U)
      → IsValid w
      → FitsEntry slot entry
      → IsValid (set_entry c slot entry w)
  set_entry-IsValid slot entry w v h = record { fair = v.fair; fits = fits }
    where
      fits : (k : ℕ) → FitsAt k (c.get (c.insert w.clients.pool slot entry) k)
      fits k = elim (Bool-cases (slot == k)) [
        | inl same ↦ let e : slot ≡ k = ground arith in rw (c.get-insert, same) (rw e at h)
        | inr other ↦ rw (c.get-insert, other) (v.fits k)
      ]

  put_back-Sound :
      {A : Type 0} (slot : ℕ) (entry : ClientSlotCtx c.types) (w : Work c U)
      (x : Outcome c.types A × Served c U × Trace c.types)
      → IsValid w
      → Sound (λ _ s. IsFit c slot s) x
      → Sound
          (λ _ w'. IsValid w')
          (x.0, set_entry c slot (put_stream x.1.stream entry) (record w { user = x.1.user }), x.2)
  put_back-Sound slot entry w (ok a, s, t) v h =
      set_entry-IsValid slot (put_stream s.stream entry) (record w { user = s.user })
        (record { fair = v.fair; fits = v.fits }) (put_stream-FitsEntry slot entry s.stream h)
  put_back-Sound slot entry w (err e, s, t) v h = tt
  put_back-Sound slot entry w (panic p, s, t) v h = h

  borrow-Sound :
      {A : Type 0} (slot : ℕ) (m : M c.types (Served c U) A)
      (entry : Option (ClientSlotCtx c.types)) (w : Work c U) (t : Trace c.types)
      → Keeps (IsFit c slot) m
      → FitsAt slot entry
      → IsValid w
      → Sound (λ _ w'. IsValid w') (borrow c slot m entry w t)
  unfolding borrow
  borrow-Sound slot m none w t k h v = λ same. cc
  borrow-Sound slot m (some entry) w t k h v = elim (Option-cases (tcp_stream_mut entry)) [
    | inl no_stream ↦ rw (borrow, no_stream) (λ same. cc)
    | inr (stream, e) ↦
        rw (borrow, e)
          (put_back-Sound slot entry w (m (record { user = w.user; stream = stream }) t) v (
            k (record { user = w.user; stream = stream }) t
              (stream-FitsSlot slot entry stream h e)))
  ]

  pub with_slot-Keeps :
      {A : Type 0} (slot : ℕ) (m : M c.types (Served c U) A)
      → Keeps (IsFit c slot) m
      → Keeps IsValid (with_slot c slot m)
  unfolding with_slot
  with_slot-Keeps slot m k w t v =
      borrow-Sound slot m (c.get w.clients.pool slot) w t k (v.fits slot) v

  module _ (slot : ℕ) (c_fn : Option (Callback c.types U)) (fair : IsFair c_fn) where
    call_fn-Keeps : Keeps (IsFit c slot) (call_fn c c_fn)
    unfolding call_fn
    call_fn-Keeps s t q = go c_fn fair
      where
        called :
            (f : Callback c.types U) (r : Option (U × TcpStream c.types))
            → IsFair (some f)
            → f s.user s.stream ≡ r
            → Sound (λ _ s'. IsFit c slot s') (after_call c r s t)
        called f none h e = λ same. cc
        called f (some (u, st)) h e =
            let (safe, fd) = h s.user u s.stream st (FitsSlot-IsSafe slot s.stream q) e in
            FitsSlot-of slot st safe (fd ∙ FitsSlot-fixed_fd slot s.stream q)

        go :
            (fn : Option (Callback c.types U))
            → IsFair fn
            → Sound (λ _ s'. IsFit c slot s') (call_fn c fn s t)
        go none h = q
        go (some f) h = called f (f s.user s.stream) h refl

    pub recv_served-Keeps : (r : MapRecvMulti) → Keeps (IsFit c slot) (recv_served c c_fn r)
    unfolding recv_served
    recv_served-Keeps r =
        bind-Keeps (IsFit c slot) (on_stream c (Stream.cb_recv_multi r)) _
          (on_stream-Keeps c slot _ (Kept.cb_recv_multi-Keeps slot r))
          λ _. bind-Keeps (IsFit c slot) (call_fn c c_fn) _ call_fn-Keeps λ _.
            bind-Keeps (IsFit c slot) (on_stream c (Stream.send_all_out c)) _
              (on_stream-Keeps c slot _ (Kept.send_all_out-Keeps c slot))
              λ _.
                bind-Keeps (IsFit c slot) (ask_bearer c submit) _
                  (ask_bearer-Keeps c (IsFit c slot) submit)
                  λ _.
                    on_stream-Keeps c slot Stream.try_free_buffers
                      (Kept.try_free_buffers-Keeps slot)

    pub first_served-Keeps : Keeps (IsFit c slot) (first_served c c_fn)
    unfolding first_served
    first_served-Keeps = bind-Keeps (IsFit c slot) (call_fn c c_fn) _ call_fn-Keeps λ _.
        bind-Keeps (IsFit c slot) (on_stream c (Stream.recv_multi c)) _
          (on_stream-Keeps c slot _ (Kept.recv_multi-Keeps c slot))
          λ _.
            bind-Keeps (IsFit c slot) (on_stream c (Stream.send_all_out c)) _
              (on_stream-Keeps c slot _ (Kept.send_all_out-Keeps c slot))
              λ _. pure-Keeps (IsFit c slot) tt
