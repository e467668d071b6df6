-- ===== src/Listener/Check/Fit.antt =====
-- What a stream of the pool is like, before and after the work on it.
use yaoi.Base.{
  ℕ, zero, suc, ◌≡◌, inl, inr, refl, ◌∙◌, ◌==◌, Bool, false, Bool-cases, Option, none, some,
}
use yaoi.Crates.{Crates, CrateTypes, Trace, submit}
use yaoi.Outcome.{M, Outcome, ok, err, panic, ask_bearer}
use yaoi.Outcome.Rules.{Post, chain-Post, state-Post}
use yaoi.Outcome.Keeps.{Sound, Keeps, Sound-Post, Post-Sound, bind-Keeps, pure-Keeps}
use yaoi.Cmaps.{MapSentZc, MapRecvMulti}
use yaoi.Stream.{TcpStream, fixed_fd}
use yaoi.Stream
use yaoi.Stream.Laws.{IsSafe}
use yaoi.Stream.Kept
use yaoi.Stream.Kept.{FitsSlot, FitsSlot-IsSafe, FitsSlot-fixed_fd, FitsSlot-of}
use yaoi.Serve.Kept.{IsFit, on_stream-Keeps}
use yaoi.Serve.{Served, on_stream, after_call}
use yaoi.Listener.{Callback}
use yaoi.Listener.Check.{
  call_fn, send_then, serve, serve_fuel, sent_served, recv_served, first_served,
}
use yaoi.Listener.Check.Loop.{FnKeepsSafe, KeepsSafe, Ends, serve-Ends}

-- A callback that leaves a stream on its descriptor.
abbrev pub FnKeepsFd : {ty : CrateTypes} {U : Type 0} → Option (Callback ty U) → Type 0
FnKeepsFd none = Unit {0}
FnKeepsFd {ty} {U} (some f) =
    (u u' : U) (s s' : TcpStream ty) (flag : Bool)
    → IsSafe s
    → f u s flag ≡ some (u', s')
    → fixed_fd s' ≡ fixed_fd s

-- What a callback may do with a stream: the outgoing cursor stays valid, no pending buffer is taken off, and
-- the stream stays on its descriptor.
pub record IsFair {ty : CrateTypes} {U : Type 0} (a_fn : Option (Callback ty U)) : Type 0 where
  pub safe : FnKeepsSafe a_fn
  pub same_fd : FnKeepsFd a_fn

Ends-Sound :
    {c : Crates} {U A : Type 0} (x : Outcome c.types A × Served c U × Trace c.types)
    → Ends x
    → Sound (λ _ s'. IsSafe s'.stream) x
Ends-Sound (ok a, s, t) e = e
Ends-Sound (err a, s, t) e = e
Ends-Sound (panic a, s, t) e = e

module _ (c : Crates) {U : Type 0} (slot : ℕ) where
  module _ (a_fn : Option (Callback c.types U)) (fair : IsFair a_fn) where
    after_call-Sound :
        (f : Callback c.types U) (flag : Bool) (s : Served c U) (t : Trace c.types)
        (r : Option (U × TcpStream c.types))
        → KeepsSafe f
        → FnKeepsFd (some f)
        → f s.user s.stream flag ≡ r
        → IsFit c slot s
        → Sound (λ _ s'. IsFit c slot s') (after_call c r s t)
    after_call-Sound f flag s t none safe same e q = λ p. cc
    after_call-Sound f flag s t (some (u, st)) safe same e q =
        FitsSlot-of slot st (safe s.user u s.stream st flag (FitsSlot-IsSafe slot s.stream q) e).0 (
          same s.user u s.stream st flag (FitsSlot-IsSafe slot s.stream q) e
          ∙ FitsSlot-fixed_fd slot s.stream q)

    call_fn-Keeps : (flag : Bool) → Keeps (IsFit c slot) (call_fn c a_fn flag)
    unfolding call_fn
    call_fn-Keeps flag s t q = go a_fn fair.safe fair.same_fd
      where
        go :
            (fn : Option (Callback c.types U))
            → FnKeepsSafe fn
            → FnKeepsFd fn
            → Sound (λ _ s'. IsFit c slot s') (call_fn c fn flag s t)
        go none safe same = q
        go (some f) safe same =
            after_call-Sound f flag s t (f s.user s.stream flag) safe same refl q

    send_then-Post :
        (rest : M c.types (Served c U) (Unit {0})) (s : Served c U) (t : Trace c.types)
        → ((s : Served c U) (t : Trace c.types)
            → IsFit c slot s
            → Post (λ _ s'. IsFit c slot s') (rest s t))
        → IsFit c slot s
        → Post (λ _ s'. IsFit c slot s') (send_then c rest s t)
    unfolding send_then
    send_then-Post rest s t k q =
        chain-Post (λ _ s'. IsFit c slot s') _ (on_stream c (Stream.send_all_out c) s t) _
          (Sound-Post _ (on_stream c (Stream.send_all_out c) s t)
            (on_stream-Keeps c slot (Stream.send_all_out c) (Kept.send_all_out-Keeps c slot) s t q))
          λ n s' t' q'. elim (Bool-cases (n == 0)) [
            | inl nothing_sent ↦ rw nothing_sent q'
            | inr some_sent ↦ rw some_sent (
                chain-Post (λ _ s'. IsFit c slot s') _ (ask_bearer c submit s' t') _
                  (state-Post (IsFit c slot) (ask_bearer c submit s' t') q')
                  (λ _ s'' t'' q''. k s'' t'' q''))
          ]

    serve-Post :
        (fuel : ℕ) (flag : Bool) (s : Served c U) (t : Trace c.types)
        → IsFit c slot s
        → Post (λ _ s'. IsFit c slot s') (serve c fuel a_fn flag s t)
    unfolding serve
    serve-Post zero flag s t q = tt
    serve-Post (suc fuel) flag s t q =
        chain-Post (λ _ s'. IsFit c slot s') _ (call_fn c a_fn flag s t) _
          (Sound-Post _ (call_fn c a_fn flag s t) (call_fn-Keeps flag s t q))
          λ _ s' t' q'. elim (Bool-cases flag) [
            | inl stops ↦ rw stops q'
            | inr goes ↦ rw goes (
                send_then-Post (serve c fuel a_fn false) s' t'
                  (λ s t q. serve-Post fuel false s t q) q')
          ]

    serve-Keeps : (flag : Bool) → Keeps (IsFit c slot) (serve c serve_fuel a_fn flag)
    serve-Keeps flag s t q =
        Post-Sound _ (λ _ s'. IsSafe s'.stream) (serve c serve_fuel a_fn flag s t)
          (serve-Post serve_fuel flag s t q)
          (Ends-Sound (serve c serve_fuel a_fn flag s t)
            (serve-Ends c a_fn flag s t fair.safe (FitsSlot-IsSafe slot s.stream q)))

    pub sent_served-Keeps : (z : MapSentZc) → Keeps (IsFit c slot) (sent_served c a_fn z)
    unfolding sent_served
    sent_served-Keeps z =
        bind-Keeps (IsFit c slot) (on_stream c (Stream.sent_zc z)) _
          (on_stream-Keeps c slot _ (Kept.sent_zc-Keeps slot z))
          λ _.
            bind-Keeps (IsFit c slot) (serve c serve_fuel a_fn false) _ (serve-Keeps false)
              λ _. on_stream-Keeps c slot Stream.try_free_buffers (Kept.try_free_buffers-Keeps slot)

    pub recv_served-Keeps : (r : MapRecvMulti) → Keeps (IsFit c slot) (recv_served c a_fn r)
    unfolding recv_served
    recv_served-Keeps r =
        bind-Keeps (IsFit c slot) (on_stream c (Stream.cb_recv_multi r)) _
          (on_stream-Keeps c slot _ (Kept.cb_recv_multi-Keeps slot r))
          λ _.
            bind-Keeps (IsFit c slot) (serve c serve_fuel a_fn r.shutdown) _
              (serve-Keeps r.shutdown)
              λ _. on_stream-Keeps c slot Stream.try_free_buffers (Kept.try_free_buffers-Keeps slot)

    pub first_served-Keeps : Keeps (IsFit c slot) (first_served c a_fn)
    unfolding first_served
    first_served-Keeps =
        bind-Keeps (IsFit c slot) (call_fn c a_fn false) _ (call_fn-Keeps false) λ _.
          bind-Keeps (IsFit c slot) (on_stream c (Stream.recv_multi c)) _
            (on_stream-Keeps c slot _ (Kept.recv_multi-Keeps c slot))
            λ n.
              bind-Keeps (IsFit c slot) (on_stream c (Stream.send_all_out c)) _
                (on_stream-Keeps c slot _ (Kept.send_all_out-Keeps c slot))
                λ m. pure-Keeps {A = ℕ × ℕ} (IsFit c slot) (n, m)
