-- ===== src/Listener/Check/Loop.antt =====
-- The inner loop of the handlers ends, within the rounds that it is given.
use yaoi.Base.{
  ℕ, zero, suc, ◌+◌, ◌≤◌, ◌<◌, ◌≡◌, ◌≢◌, inl, inr, refl, arith, ◌==◌, if◌then◌else◌, Bool, true,
  false, Option, none, some, [], ◌∷◌, ◌++◌, Bool-cases,
}
use yaoi.Crates.{Crates, CrateTypes, Trace, Reply, done, failed, submit}
use native.Mathlib.Nat.{le_refl}
use yaoi.Outcome.{
  M, outcome, bearer, pure, ask_bearer, ◌>>◌, chain, Outcome, ok, err, panic, fuel_exhausted,
}
use yaoi.Stream.{TcpStream, connected, streaming_huge_tlb}
use yaoi.Stream
use yaoi.Stream.Laws.{IsSafe, pending, AfterSendOut, send_all_out-IsSafe}
use yaoi.Serve.{Served, after_call}
use yaoi.Listener.{Callback}
use yaoi.Listener.Check.{call_fn, send_then, serve, serve_fuel}

-- A callback that treats a stream as an orbit does: the outgoing cursor stays valid, and no pending
-- buffer is taken off.
abbrev pub KeepsSafe : {ty : CrateTypes} {U : Type 0} → Callback ty U → Type 0
KeepsSafe {ty} {U} f =
    (u u' : U) (s s' : TcpStream ty) (flag : Bool)
    → IsSafe s
    → f u s flag ≡ some (u', s')
    → IsSafe s' × (pending s ≤ pending s')

abbrev pub FnKeepsSafe : {ty : CrateTypes} {U : Type 0} → Option (Callback ty U) → Type 0
FnKeepsSafe none = Unit {0}
FnKeepsSafe (some f) = KeepsSafe f

-- How the loop may end: with a safe stream, with an error, or with a panic that is not the model's
-- own for a loop without end.
abbrev pub Ends :
    {c : Crates} {U A : Type 0} → Outcome c.types A × Served c U × Trace c.types → Type 0
Ends (ok _, s, _) = IsSafe s.stream
Ends (err _, _, _) = Unit {0}
Ends (panic p, _, _) = p ≢ fuel_exhausted

module _ (c : Crates) {U : Type 0} (a_fn : Option (Callback c.types U))
    (keeps : FnKeepsSafe a_fn) where
  -- After the callback.
  abbrev Called : Served c U → Outcome c.types (Unit {0}) × Served c U × Trace c.types → Type 0
  Called s (ok _, s', _) = IsSafe s'.stream × (pending s.stream ≤ pending s'.stream)
  Called s (err _, s', _) = Unit {0}
  Called s (panic p, s', _) = p ≢ fuel_exhausted

  call_fn-Called :
      (flag : Bool) (s : Served c U) (t : Trace c.types)
      → IsSafe s.stream
      → Called s (call_fn c a_fn flag s t)
  unfolding call_fn
  call_fn-Called flag s t v = go a_fn keeps
    where
      go : (f : Option (Callback c.types U)) → FnKeepsSafe f → Called s (call_fn c f flag s t)
      go none k = (v, le_refl _)
      go (some f) k = with_result (f s.user s.stream flag) refl
        where
          with_result :
              (r : Option (U × TcpStream c.types))
              → f s.user s.stream flag ≡ r
              → Called s (after_call c r s t)
          with_result none e = λ same. cc
          with_result (some (u, st)) e = k s.user u s.stream st flag v e

  -- What the rest of the loop does, from a round with fewer left.
  abbrev RestEnds : ℕ → M c.types (Served c U) (Unit {0}) → Type 0
  RestEnds fuel rest =
      (s : Served c U) (t : Trace c.types)
      → IsSafe s.stream
      → 0 < fuel
      → 7 ≤ pending s.stream + fuel
      → Ends (rest s t)

  send_then-Ends :
      (fuel : ℕ) (rest : M c.types (Served c U) (Unit {0})) (s : Served c U) (t : Trace c.types)
      → RestEnds fuel rest
      → IsSafe s.stream
      → 7 ≤ pending s.stream + suc fuel
      → Ends (send_then c rest s t)
  unfolding send_then
  send_then-Ends fuel rest s t ends v h =
      sent (Stream.send_all_out c s.stream t) (send_all_out-IsSafe c s.stream t v)
    where
      submitted :
          (s' : Served c U) (t' : Trace c.types) (r : Reply c.BearerError ℕ)
          → IsSafe s'.stream
          → 0 < fuel
          → 7 ≤ pending s'.stream + fuel
          → Ends (chain (outcome {ty = c.types} bearer r, s', t') (λ _. rest))
      submitted s' t' (done _) v' more room = ends s' t' v' more room
      submitted s' t' (failed _) v' more room = tt

      sent :
          (x : Outcome c.types ℕ × TcpStream c.types × Trace c.types)
          → AfterSendOut s.stream x
          → Ends (
              chain
                (x.0, record s { stream = x.1 }, x.2)
                (λ sm_send. if sm_send == 0 then pure tt else (ask_bearer c submit >> rest)))
      sent (ok n, st, t') (v', count, limit) = elim (Bool-cases (n == 0)) [
        | inl nothing_sent ↦ rw nothing_sent v'
        | inr some_sent ↦
            let few : pending s.stream ≤ 5 = ground arith in
            let grown : pending s.stream < pending st = ground arith in
            rw some_sent (
              submitted (record s { stream = st }) (t' ++ submit ∷ []) (c.bearer t' submit) v'
                (omega arith) (omega arith))
      ]
      sent (err e, st, t') k = tt
      sent (panic p, st, t') k = absurd k

  serve_loop-Ends :
      (fuel : ℕ) (flag : Bool) (s : Served c U) (t : Trace c.types)
      → IsSafe s.stream
      → 0 < fuel
      → 7 ≤ pending s.stream + fuel
      → Ends (serve c fuel a_fn flag s t)
  unfolding serve
  serve_loop-Ends zero flag s t v some_fuel h = absurd (omega arith)
  serve_loop-Ends (suc fuel) flag s t v some_fuel h =
      called (call_fn c a_fn flag s t) flag (call_fn-Called flag s t v) (serve_loop-Ends fuel flag)
    where
      called :
          (x : Outcome c.types (Unit {0}) × Served c U × Trace c.types) (stops : Bool)
          → Called s x
          → RestEnds fuel (serve c fuel a_fn flag)
          → Ends (chain x (λ _. if stops then pure tt else send_then c (serve c fuel a_fn flag)))
      called (ok _, s', t') true (v', more) ends = v'
      called (ok _, s', t') false (v', more) ends =
          send_then-Ends fuel (serve c fuel a_fn flag) s' t' ends v' (omega arith)
      called (err e, s', t') stops k ends = tt
      called (panic p, s', t') stops k ends = k

-- The loop of the handlers is given enough rounds, whatever the bearer answers: from a safe stream,
-- with a callback that keeps streams safe, it does not run out of them, and a result leaves the
-- stream safe.
pub serve-Ends :
    (c : Crates) {U : Type 0} (a_fn : Option (Callback c.types U)) (flag : Bool) (s : Served c U)
    (t : Trace c.types)
    → FnKeepsSafe a_fn
    → IsSafe s.stream
    → Ends (serve c serve_fuel a_fn flag s t)
serve-Ends c a_fn flag s t keeps v =
    serve_loop-Ends c a_fn keeps serve_fuel flag s t v (omega arith) (omega arith)
