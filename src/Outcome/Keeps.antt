-- ===== src/Outcome/Keeps.antt =====
-- What an operation keeps of the state where it gives a value; and that no loop of the model runs out
-- of fuel, since that panic is the model's own.
use yaoi.Base.{◌≢◌, Bool, true, false, if◌then◌else◌}
use yaoi.Crates.{Crates, CrateTypes, Trace, Call, Reply, done, failed}
use yaoi.Outcome.Rules.{Post}
use yaoi.Outcome.{
  M, Outcome, ok, err, panic, fuel_exhausted, YaoiError, chain, outcome, unwrapped, pure, ◌>>=◌,
  dropped, ask_bearer, ask_syscall, ask_submitter, ask_page, ask_ring, ask_register, unwrap_os,
  unwrap_drop,
}

module _ {ty : CrateTypes} {S : Type 0} where
  -- With a value, `P` of it and the state; an error may leave anything; a panic is one of the code.
  abbrev pub Sound : {A : Type 0} → (A → S → Type 0) → Outcome ty A × S × Trace ty → Type 0
  Sound P (ok a, s, t) = P a s
  Sound P (err e, s, t) = Unit {0}
  Sound P (panic p, s, t) = p ≢ fuel_exhausted

  -- From a state with `Q`: a value leaves a state with `Q`, and no loop runs out of fuel.
  abbrev pub Keeps : {A : Type 0} → (S → Type 0) → M ty S A → Type 0
  Keeps Q m = (s : S) (t : Trace ty) → Q s → Sound (λ _ s'. Q s') (m s t)

  pub chain-Sound :
      {A B : Type 0} (P : A → S → Type 0) (R : B → S → Type 0) (x : Outcome ty A × S × Trace ty)
      (f : A → M ty S B)
      → Sound P x
      → ((a : A) (s : S) (t : Trace ty) → P a s → Sound R (f a s t))
      → Sound R (chain x f)
  chain-Sound P R (ok a, s, t) f p k = k a s t p
  chain-Sound P R (err e, s, t) f p k = tt
  chain-Sound P R (panic q, s, t) f p k = p

  pub map-Sound :
      {A : Type 0} (P R : A → S → Type 0) (x : Outcome ty A × S × Trace ty)
      → Sound P x
      → ((a : A) (s : S) → P a s → R a s)
      → Sound R x
  map-Sound P R (ok a, s, t) p k = k a s p
  map-Sound P R (err e, s, t) p k = tt
  map-Sound P R (panic q, s, t) p k = p

  pub Sound-Post :
      {A : Type 0} (P : A → S → Type 0) (x : Outcome ty A × S × Trace ty) → Sound P x → Post P x
  Sound-Post P (ok a, s, t) h = h
  Sound-Post P (err e, s, t) h = tt
  Sound-Post P (panic q, s, t) h = tt

  -- What holds of a value, for a result that is not the panic of the model.
  pub Post-Sound :
      {A : Type 0} (P R : A → S → Type 0) (x : Outcome ty A × S × Trace ty)
      → Post P x
      → Sound R x
      → Sound P x
  Post-Sound P R (ok a, s, t) p h = p
  Post-Sound P R (err e, s, t) p h = tt
  Post-Sound P R (panic q, s, t) p h = h

  pub bind-Keeps :
      {A B : Type 0} (Q : S → Type 0) (m : M ty S A) (f : A → M ty S B)
      → Keeps Q m
      → ((a : A) → Keeps Q (f a))
      → Keeps Q (m >>= f)
  bind-Keeps Q m f k l s t q = chain-Sound (λ _ s'. Q s') (λ _ s'. Q s') (m s t) f (k s t q) l

  pub pure-Keeps : {A : Type 0} (Q : S → Type 0) (a : A) → Keeps Q (pure a)
  pure-Keeps Q a s t q = q

  pub if-Keeps :
      {A : Type 0} (Q : S → Type 0) (b : Bool) (m k : M ty S A)
      → Keeps Q m
      → Keeps Q k
      → Keeps Q (if b then m else k)
  if-Keeps Q true m k p r = p
  if-Keeps Q false m k p r = r

  -- A result that is dropped: the state has to be kept by an error too.
  pub dropped-Sound :
      {A : Type 0} (Q : S → Type 0) (x : Outcome ty A × S × Trace ty)
      → Q x.1
      → Sound (λ _ _. Unit {0}) x
      → Sound (λ _ s'. Q s') (dropped x)
  dropped-Sound Q (ok a, s, t) q k = q
  dropped-Sound Q (err e, s, t) q k = q
  dropped-Sound Q (panic p, s, t) q k = k

  outcome-Sound :
      {E A : Type 0} (Q : S → Type 0) (e : E → YaoiError ty) (r : Reply E A) (s : S) (t : Trace ty)
      → Q s
      → Sound (λ _ s'. Q s') (outcome e r, s, t)
  outcome-Sound Q e (done a) s t q = q
  outcome-Sound Q e (failed x) s t q = tt

  unwrapped-Sound :
      {E A : Type 0} (Q : S → Type 0) (r : Reply E A) (s : S) (t : Trace ty)
      → Q s
      → Sound (λ _ s'. Q s') (unwrapped {ty = ty} r, s, t)
  unwrapped-Sound Q (done a) s t q = q
  unwrapped-Sound Q (failed x) s t q = λ same. cc

-- A call changes nothing here, and fails with an error or an `unwrap`.
module _ (c : Crates) {S : Type 0} (Q : S → Type 0) (k : Call c.types) where
  pub ask_bearer-Keeps : Keeps Q (ask_bearer c k)
  ask_bearer-Keeps s t q = outcome-Sound Q _ (c.bearer t k) s _ q

  pub ask_syscall-Keeps : Keeps Q (ask_syscall c k)
  ask_syscall-Keeps s t q = outcome-Sound Q _ (c.os t k) s _ q

  pub ask_submitter-Keeps : Keeps Q (ask_submitter c k)
  ask_submitter-Keeps s t q = outcome-Sound Q _ (c.os t k) s _ q

  pub ask_page-Keeps : Keeps Q (ask_page c k)
  ask_page-Keeps s t q = outcome-Sound Q _ (c.new_page t k) s _ q

  pub ask_ring-Keeps : Keeps Q (ask_ring c k)
  ask_ring-Keeps s t q = outcome-Sound Q _ (c.ring_step t k) s _ q

  pub ask_register-Keeps : Keeps Q (ask_register c k)
  ask_register-Keeps s t q = outcome-Sound Q _ (c.registers t k) s _ q

  pub unwrap_os-Keeps : Keeps Q (unwrap_os c k)
  unwrap_os-Keeps s t q = unwrapped-Sound Q (c.os t k) s _ q

  pub unwrap_drop-Keeps : Keeps Q (unwrap_drop c k)
  unwrap_drop-Keeps s t q = unwrapped-Sound Q (c.drops_page t k) s _ q
