-- ===== src/Listener/Check/Valid.antt =====
-- The invariant of a listener, and the work on one entry of its pool.
use yaoi.Base.{ℕ, ◌≡◌, inl, inr, arith, ◌==◌, Bool-cases, Option, none, some, Option-cases}
use mathlib.Core.Option.{some-injective, none-ne-some}
use yaoi.Crates.{Crates, CrateTypes, Trace}
use yaoi.Outcome.{M, Outcome, ok, err, panic}
use yaoi.Outcome.Keeps.{Sound, Keeps}
use yaoi.Stream.{TcpStream}
use yaoi.Stream.Kept.{FitsSlot}
use yaoi.Serve.Kept.{IsFit}
use yaoi.Serve.{Served}
use yaoi.Listener.{
  ListenerSlotCtx, created, accepted, reading, writing, reading_and_writing, shutdown_ok, Work,
  tcp_stream_mut, put_stream,
}
use yaoi.Listener.Check.{set_pool, put_back, borrow, with_slot}
use yaoi.Listener.Check.Fit.{IsFair}

-- An entry of the pool: its stream, if it has one, fits its slot.
abbrev pub FitsEntry : {ty : CrateTypes} → ℕ → ListenerSlotCtx ty → Type 0
FitsEntry slot created = Unit {0}
FitsEntry slot (accepted s) = FitsSlot slot s
FitsEntry slot (reading s) = FitsSlot slot s
FitsEntry slot (writing s) = FitsSlot slot s
FitsEntry slot (reading_and_writing s) = FitsSlot slot s
FitsEntry slot shutdown_ok = Unit {0}

abbrev pub FitsAt : {ty : CrateTypes} → ℕ → Option (ListenerSlotCtx ty) → Type 0
FitsAt slot none = Unit {0}
FitsAt slot (some entry) = FitsEntry slot entry

-- A listener whose callback is fair and whose streams all fit their slots.
pub record IsValid {c : Crates} {U : Type 0} (w : Work c U) : Type 0 where
  pub fair : IsFair w.listener.a_fn
  pub fits : (slot : ℕ) → FitsAt slot (c.get w.listener.pool slot)

stream-FitsSlot :
    {ty : CrateTypes} (slot : ℕ) (entry : ListenerSlotCtx ty) (s : TcpStream ty)
    → FitsEntry slot entry
    → tcp_stream_mut entry ≡ some s
    → FitsSlot slot s
unfolding tcp_stream_mut
stream-FitsSlot slot created s h e = absurd (none-ne-some s e)
stream-FitsSlot slot shutdown_ok s h e = absurd (none-ne-some s e)
stream-FitsSlot slot (accepted a) s h e = let same : a ≡ s = some-injective a s e in rw same at h
stream-FitsSlot slot (reading a) s h e = let same : a ≡ s = some-injective a s e in rw same at h
stream-FitsSlot slot (writing a) s h e = let same : a ≡ s = some-injective a s e in rw same at h
stream-FitsSlot slot (reading_and_writing a) s h e =
    let same : a ≡ s = some-injective a s e in rw same at h

put_stream-FitsEntry :
    {ty : CrateTypes} (slot : ℕ) (entry : ListenerSlotCtx ty) (s : TcpStream ty)
    → FitsSlot slot s
    → FitsEntry slot (put_stream s entry)
unfolding put_stream
put_stream-FitsEntry slot created s h = tt
put_stream-FitsEntry slot shutdown_ok s h = tt
put_stream-FitsEntry slot (accepted _) s h = h
put_stream-FitsEntry slot (reading _) s h = h
put_stream-FitsEntry slot (writing _) s h = h
put_stream-FitsEntry slot (reading_and_writing _) s h = h

module _ (c : Crates) {U : Type 0} where
  pub insert-IsValid :
      (slot : ℕ) (entry : ListenerSlotCtx c.types) (w : Work c U)
      → IsValid w
      → FitsEntry slot entry
      → IsValid (set_pool c (c.insert w.listener.pool slot entry) w)
  insert-IsValid slot entry w v h = record { fair = v.fair; fits = fits }
    where
      fits : (k : ℕ) → FitsAt k (c.get (c.insert w.listener.pool slot entry) k)
      fits k = elim (Bool-cases (slot == k)) [
        | inl same ↦ let e : slot ≡ k = ground arith in rw (c.get-insert, same) (rw e at h)
        | inr other ↦ rw (c.get-insert, other) (v.fits k)
      ]

  pub remove-IsValid :
      (slot : ℕ) (w : Work c U) → IsValid w → IsValid (set_pool c (c.remove w.listener.pool slot) w)
  remove-IsValid slot w v = record { fair = v.fair; fits = fits }
    where
      fits : (k : ℕ) → FitsAt k (c.get (c.remove w.listener.pool slot) k)
      fits k = elim (Bool-cases (slot == k)) [
        | inl same ↦ rw (c.get-remove, same) tt
        | inr other ↦ rw (c.get-remove, other) (v.fits k)
      ]

  put_back-IsValid :
      (slot : ℕ) (entry : ListenerSlotCtx c.types) (w : Work c U) (s : Served c U)
      → IsValid w
      → IsFit c slot s
      → IsValid (put_back c slot entry w s)
  put_back-IsValid slot entry w s v h =
      let v' =
        insert-IsValid slot (put_stream s.stream entry) w v
          (put_stream-FitsEntry slot entry s.stream h) in
      record { fair = v'.fair; fits = v'.fits }

  put_back-Sound :
      {A : Type 0} (slot : ℕ) (entry : ListenerSlotCtx c.types) (w : Work c U)
      (x : Outcome c.types A × Served c U × Trace c.types)
      → IsValid w
      → Sound (λ _ s. IsFit c slot s) x
      → Sound (λ _ w'. IsValid w') (x.0, put_back c slot entry w x.1, x.2)
  put_back-Sound slot entry w (ok a, s, t) v h = put_back-IsValid slot entry w s v h
  put_back-Sound slot entry w (err e, s, t) v h = tt
  put_back-Sound slot entry w (panic p, s, t) v h = h

  borrow-Sound :
      {A : Type 0} (slot : ℕ) (m : M c.types (Served c U) A)
      (entry : Option (ListenerSlotCtx c.types)) (w : Work c U) (t : Trace c.types)
      → Keeps (IsFit c slot) m
      → FitsAt slot entry
      → IsValid w
      → Sound (λ _ w'. IsValid w') (borrow c slot m entry w t)
  unfolding borrow
  borrow-Sound slot m none w t k h v = λ same. cc
  borrow-Sound slot m (some entry) w t k h v = elim (Option-cases (tcp_stream_mut entry)) [
    | inl no_stream ↦ rw (borrow, no_stream) (λ same. cc)
    | inr (stream, e) ↦
        rw (borrow, e)
          (put_back-Sound slot entry w (m (record { user = w.user; stream = stream }) t) v (
            k (record { user = w.user; stream = stream }) t
              (stream-FitsSlot slot entry stream h e)))
  ]

  pub with_slot-Keeps :
      {A : Type 0} (slot : ℕ) (m : M c.types (Served c U) A)
      → Keeps (IsFit c slot) m
      → Keeps IsValid (with_slot c slot m)
  unfolding with_slot
  with_slot-Keeps slot m k w t v =
      borrow-Sound slot m (c.get w.listener.pool slot) w t k (v.fits slot) v
