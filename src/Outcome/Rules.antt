-- ===== src/Outcome/Rules.antt =====
-- Rules for what holds of an operation's value and state, where it gives a value.
use yaoi.Base.{◌≡◌, refl}
use yaoi.Crates.{CrateTypes, Trace}
use yaoi.Outcome.{M, Outcome, ok, err, panic, chain, dropped}

module _ {ty : CrateTypes} {S : Type 0} where
  abbrev pub Post : {A : Type 0} → (A → S → Type 0) → Outcome ty A × S × Trace ty → Type 0
  Post P (ok a, s, t) = P a s
  Post P (err e, s, t) = Unit
  Post P (panic p, s, t) = Unit

  pub chain-Post :
      {A B : Type 0} (P : A → S → Type 0) (R : B → S → Type 0) (x : Outcome ty A × S × Trace ty)
      (f : A → M ty S B)
      → Post P x
      → ((a : A) (s : S) (t : Trace ty) → P a s → Post R (f a s t))
      → Post R (chain x f)
  chain-Post P R (ok a, s, t) f p k = k a s t p
  chain-Post P R (err e, s, t) f p k = tt
  chain-Post P R (panic q, s, t) f p k = tt

  -- Nothing is known of the first operation.
  pub chain-Post_any :
      {A B : Type 0} (R : B → S → Type 0) (x : Outcome ty A × S × Trace ty) (f : A → M ty S B)
      → ((a : A) (s : S) (t : Trace ty) → Post R (f a s t))
      → Post R (chain x f)
  chain-Post_any R (ok a, s, t) f k = k a s t
  chain-Post_any R (err e, s, t) f k = tt
  chain-Post_any R (panic q, s, t) f k = tt

  -- The state is all that is known.
  pub state-Post :
      {A : Type 0} (Q : S → Type 0) (x : Outcome ty A × S × Trace ty) → Q x.1 → Post (λ _ s. Q s) x
  state-Post Q (ok a, s, t) q = q
  state-Post Q (err e, s, t) q = tt
  state-Post Q (panic p, s, t) q = tt

  pub dropped-state :
      {A : Type 0} (x : Outcome ty A × S × Trace ty) (Q : S → Type 0) → Q x.1 → Q (dropped x).1
  dropped-state (ok a, s, t) Q q = q
  dropped-state (err e, s, t) Q q = q
  dropped-state (panic p, s, t) Q q = q

  pub map-Post :
      {A : Type 0} (P R : A → S → Type 0) (x : Outcome ty A × S × Trace ty)
      → ((a : A) (s : S) → P a s → R a s)
      → Post P x
      → Post R x
  map-Post P R (ok a, s, t) f p = f a s p
  map-Post P R (err e, s, t) f p = tt
  map-Post P R (panic q, s, t) f p = tt

  -- What every step keeps of the state, however it ends, a chain of them keeps.
  pub chain-state :
      {A B : Type 0} (Q : S → Type 0) (x : Outcome ty A × S × Trace ty) (f : A → M ty S B)
      → Q x.1
      → ((a : A) (s : S) (t : Trace ty) → Q s → Q (f a s t).1)
      → Q (chain x f).1
  chain-state Q (ok a, s, t) f q k = k a s t q
  chain-state Q (err e, s, t) f q k = q
  chain-state Q (panic p, s, t) f q k = q

  pub chain-ext :
      {A B : Type 0} (x : Outcome ty A × S × Trace ty) (f g : A → M ty S B)
      → ((a : A) (s : S) (t : Trace ty) → f a s t ≡ g a s t)
      → chain x f ≡ chain x g
  chain-ext (ok a, s, t) f g k = k a s t
  chain-ext (err e, s, t) f g k = refl
  chain-ext (panic p, s, t) f g k = refl
