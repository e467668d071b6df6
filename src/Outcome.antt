-- ===== src/Outcome.antt =====
-- src/error.rs, and how an operation ends: with a value, with an error that `?` hands on, or with a
-- panic. The state and the trace come back after all three, since what was written stays written.
pub mod Rules
pub mod Keeps
pub mod Display
use yaoi.Base.{ℕ, Bool, true, false, [], ◌∷◌, ◌++◌}
use yaoi.Crates.{Crates, CrateTypes, Trace, Call, Reply, done, failed}

-- The payload of `std_io` and `io_uring` is an errno. `bug` carries no text.
pub data YaoiError (ty : CrateTypes) : Type 0 where
  std_io : ℕ → YaoiError ty
  bearer bearer2 : ty.BearerError → YaoiError ty
  bug : YaoiError ty
  io_uring : ℕ → YaoiError ty
  huge_tlb_already_set : YaoiError ty
  huge_tlb : ty.HugePageError → YaoiError ty
  bp_need_buffers : YaoiError ty
  limit_huge_tlb_u16 : YaoiError ty
  huge_tlb_req_fixed_id : YaoiError ty
  ring_buf : ty.RingBufError → YaoiError ty

-- The places where the code panics.
pub data Panic : Type 0 where
  unwrap_on_err index_out_of_bounds slice_out_of_range : Panic
  unreachable_code todo_code slot_missing missing_completion : Panic
  recv_failed no_buffer_id end_not_updated revolution : Panic
  left_in_over_capacity left_out_over_capacity reused_past_cursor : Panic
  in_callback : Panic
  -- of the model alone: a loop ran out of fuel
  fuel_exhausted : Panic

pub data Outcome (ty : CrateTypes) (A : Type 0) : Type 0 where
  ok : A → Outcome ty A
  err : YaoiError ty → Outcome ty A
  panic : Panic → Outcome ty A

-- An operation on a state `S`.
abbrev pub M : CrateTypes → Type 0 → Type 0 → Type 0
M ty S A = S → Trace ty → Outcome ty A × S × Trace ty

module _ {ty : CrateTypes} {S : Type 0} where
  abbrev pub pure : {A : Type 0} → A → M ty S A
  pure a s t = (ok a, s, t)

  abbrev pub raise : {A : Type 0} → YaoiError ty → M ty S A
  raise e s t = (err e, s, t)

  abbrev pub panics : {A : Type 0} → Panic → M ty S A
  panics p s t = (panic p, s, t)

  abbrev pub gets : {A : Type 0} → (S → A) → M ty S A
  gets f s t = (ok (f s), s, t)

  abbrev pub modify : (S → S) → M ty S (Unit {0})
  modify f s t = (ok tt, f s, t)

  -- Go on with the value of an operation that gave one.
  abbrev pub chain :
      {A B : Type 0} → Outcome ty A × S × Trace ty → (A → M ty S B) → Outcome ty B × S × Trace ty
  chain (ok a, s, t) f = f a s t
  chain (err e, s, t) f = (err e, s, t)
  chain (panic p, s, t) f = (panic p, s, t)

  infixl 5 ◌>>=◌ ◌>>◌
  abbrev pub ◌>>=◌ : {A B : Type 0} → M ty S A → (A → M ty S B) → M ty S B
  ◌>>=◌ m f s t = chain (m s t) f

  abbrev pub ◌>>◌ : {A B : Type 0} → M ty S A → M ty S B → M ty S B
  m >> k = m >>= λ _. k

  abbrev pub panic_if : Bool → Panic → M ty S (Unit {0})
  panic_if true p = panics p
  panic_if false p = pure tt

abbrev pub outcome :
    {ty : CrateTypes} {E A : Type 0} → (E → YaoiError ty) → Reply E A → Outcome ty A
outcome e (done a) = ok a
outcome e (failed x) = err (e x)

abbrev pub unwrapped : {ty : CrateTypes} {E A : Type 0} → Reply E A → Outcome ty A
unwrapped (done a) = ok a
unwrapped (failed x) = panic unwrap_on_err

-- A call that leaves the program: it is recorded, and its reply is the result. A failure is handed
-- on by `ask_…` (`map_err(e)?` in the code) and panics by `unwrap_…` (`unwrap()`).
module _ (c : Crates) {S : Type 0} where
  abbrev pub ask_bearer : Call c.types → M c.types S ℕ
  ask_bearer k s t = (outcome {ty = c.types} bearer (c.bearer t k), s, t ++ (k ∷ []))

  abbrev pub unwrap_bearer : Call c.types → M c.types S ℕ
  unwrap_bearer k s t = (unwrapped {ty = c.types} (c.bearer t k), s, t ++ (k ∷ []))

  -- `syscall!` of src/macros.rs: a result of -1 is the last error of the system.
  abbrev pub ask_syscall : Call c.types → M c.types S ℕ
  ask_syscall k s t = (outcome {ty = c.types} std_io (c.os t k), s, t ++ (k ∷ []))

  abbrev pub ask_submitter : Call c.types → M c.types S ℕ
  ask_submitter k s t = (outcome {ty = c.types} io_uring (c.os t k), s, t ++ (k ∷ []))

  abbrev pub unwrap_os : Call c.types → M c.types S ℕ
  unwrap_os k s t = (unwrapped {ty = c.types} (c.os t k), s, t ++ (k ∷ []))

  abbrev pub ask_page : Call c.types → M c.types S c.HugePage
  ask_page k s t = (outcome {ty = c.types} huge_tlb (c.new_page t k), s, t ++ (k ∷ []))

  abbrev pub unwrap_drop : Call c.types → M c.types S (Unit {0})
  unwrap_drop k s t = (unwrapped {ty = c.types} (c.drops_page t k), s, t ++ (k ∷ []))

  abbrev pub ask_ring : Call c.types → M c.types S (Unit {0})
  ask_ring k s t = (outcome {ty = c.types} ring_buf (c.ring_step t k), s, t ++ (k ∷ []))

  abbrev pub ask_register : Call c.types → M c.types S c.RingBuf
  ask_register k s t = (outcome {ty = c.types} ring_buf (c.registers t k), s, t ++ (k ∷ []))

-- A call with no result.
abbrev pub tell : {ty : CrateTypes} {S : Type 0} → Call ty → M ty S (Unit {0})
tell k s t = (ok tt, s, t ++ (k ∷ []))

abbrev pub dropped :
    {ty : CrateTypes} {S A : Type 0}
    → Outcome ty A × S × Trace ty
    → Outcome ty (Unit {0}) × S × Trace ty
dropped (ok a, s, t) = (ok tt, s, t)
dropped (err e, s, t) = (ok tt, s, t)
dropped (panic p, s, t) = (panic p, s, t)

-- An operation whose result the code drops.
abbrev pub ignore : {ty : CrateTypes} {S A : Type 0} → M ty S A → M ty S (Unit {0})
ignore m s t = dropped (m s t)

-- Run an operation on a part of the state.
abbrev pub zoom : {ty : CrateTypes} {S T A : Type 0} → (T → S) → (S → T → T) → M ty S A → M ty T A
zoom get put m s t = let (r, part, t') = m (get s) t in (r, put part s, t')
