-- ===== src/HugeTlb/Iovecs.antt =====
-- register_out_bufs: the buffers of an outgoing page as vectors of an io_uring. Nothing calls it.
use yaoi.Base.{ℕ, zero, suc, ◌+◌, ◌*◌, ◌≡◌, refl, arith, subst, List, [], ◌∷◌, ◌++◌}
use yaoi.Crates.{CrateTypes, Reply, done, failed, Crates, Trace, register_buffers}
use yaoi.Outcome.{Outcome, ok, panic, unwrap_on_err, unwrapped, chain, M, pure, unwrap_os, ◌>>◌}
use yaoi.HugeTlb.{buf_size, page_size}

-- The vectors of the buffers from `x` on, `n` of them: each its address and its length.
pub iovecs : ℕ → ℕ → ℕ → List (ℕ × ℕ)
iovecs base_ptr zero x = []
iovecs base_ptr (suc n) x = (base_ptr + buf_size * x, buf_size) ∷ iovecs base_ptr n (x + 1)

pub register_out_bufs : (c : Crates) {S : Type 0} → ℕ → M c.types S (Unit {0})
register_out_bufs c base_ptr = do unwrap_os c (register_buffers (iovecs base_ptr 256 0)); pure tt

-- Vectors that lie one behind the other from `a` to `e`.
abbrev pub Abut : ℕ → ℕ → List (ℕ × ℕ) → Type 0
Abut a e [] = a ≡ e
Abut a e ((start, len) ∷ vs) = (start ≡ a) × (len ≡ buf_size) × Abut (a + len) e vs

iovecs-Abut :
    (base n x : ℕ) → Abut (base + buf_size * x) (base + buf_size * (x + n)) (iovecs base n x)
unfolding iovecs
iovecs-Abut base zero x = omega arith
iovecs-Abut base (suc n) x =
    let next : base + buf_size * (x + 1) ≡ base + buf_size * x + buf_size = omega arith in
    let end : base + buf_size * (x + 1 + n) ≡ base + buf_size * (x + suc n) = omega arith in
    (
      refl,
      refl,
      subst (λ a. Abut a (base + buf_size * (x + suc n)) (iovecs base n (x + 1))) next
          (subst (λ e. Abut (base + buf_size * (x + 1)) e (iovecs base n (x + 1))) end
            (iovecs-Abut base n (x + 1))),
    )

-- How an unwrapped call ends whose value is dropped.
abbrev pub ended : {ty : CrateTypes} → Reply ℕ ℕ → Outcome ty (Unit {0})
ended (done n) = ok tt
ended (failed e) = panic unwrap_on_err

-- The registration of the outgoing buffers is one call, with vectors that cover the page of 2 MiB from its start to
-- its end, a buffer each. It gives a value if the call does, and panics if it fails.
pub register_out_bufs-Abut :
    (c : Crates) {S : Type 0} (base_ptr : ℕ) (s : S) (t : Trace c.types)
    → let call = register_buffers (iovecs base_ptr 256 0) in
      Abut base_ptr (base_ptr + page_size) (iovecs base_ptr 256 0)
      × (register_out_bufs c base_ptr s t ≡ (ended (c.os t call), s, t ++ call ∷ []))
unfolding register_out_bufs
register_out_bufs-Abut c {S} base_ptr s t =
    let start : base_ptr + buf_size * 0 ≡ base_ptr = omega arith in
    let end : base_ptr + buf_size * (0 + 256) ≡ base_ptr + page_size = omega arith in
    (
      subst (λ a. Abut a (base_ptr + page_size) (iovecs base_ptr 256 0)) start
          (subst (λ e. Abut (base_ptr + buf_size * 0) e (iovecs base_ptr 256 0)) end
            (iovecs-Abut base_ptr 256 0)),
      ends (c.os t (register_buffers (iovecs base_ptr 256 0))),
    )
  where
    ends :
        (r : Reply ℕ ℕ)
        → chain {ty = c.types}
            (unwrapped {ty = c.types} r, s, t ++ register_buffers (iovecs base_ptr 256 0) ∷ [])
            (λ _. pure tt)
          ≡ (ended r, s, t ++ register_buffers (iovecs base_ptr 256 0) ∷ [])
    ends (done n) = refl
    ends (failed e) = refl
