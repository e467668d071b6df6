-- ===== src/HugeTlb/Send/Chunks.antt =====
-- How outgoing bytes are cut into chunks, one for each buffer of the page.
use yaoi.Base.{
  ℕ, zero, suc, ◌+◌, ◌-◌, ◌*◌, ◌%◌, ◌≤◌, ◌<◌, ◌≡◌, refl, subst, arith, List, [], ◌∷◌, ltb,
  if◌then◌else◌,
}
use yaoi.HugeTlb.{buf_size}
use yaoi.HugeTlb.Send.{div_ceil}

-- A run of outgoing bytes: its offset in the page, and its length.
pub record Chunk : Type 0 where
  pub offset : ℕ
  pub len : ℕ

abbrev pub chunk_size : ℕ → ℕ
chunk_size rem = if ltb rem buf_size then rem else buf_size

-- The chunks of `rem` bytes from buffer `b` on.
unfoldable pub chunks_from : ℕ → ℕ → ℕ → List Chunk
chunks_from zero rem b = []
chunks_from (suc n) rem b =
    record { offset = b * buf_size; len = chunk_size rem }
    ∷ chunks_from n (rem - chunk_size rem) (b + 1)

-- The chunks lie one behind the other from `a` to `e`, each of them in one buffer.
abbrev pub Covers : ℕ → ℕ → List Chunk → Type 0
Covers a e [] = a ≡ e
Covers a e (k ∷ ks) =
    (k.offset ≡ a)
    × (k.offset % buf_size ≡ 0)
    × (0 < k.len)
    × (k.len ≤ buf_size)
    × Covers (a + k.len) e ks

pub chunks_from-Covers :
    (n rem b : ℕ)
    → n ≡ div_ceil rem buf_size
    → Covers (b * buf_size) (b * buf_size + rem) (chunks_from n rem b)
unfolding chunks_from
chunks_from-Covers zero rem b h = omega arith
chunks_from-Covers (suc zero) rem b h = ground arith
chunks_from-Covers (suc (suc n)) rem b h =
    let full : chunk_size rem ≡ buf_size = ground arith in
    let rest : (b + 1) * buf_size + (rem - buf_size) ≡ b * buf_size + rem = ground arith in
    let next : (b + 1) * buf_size ≡ b * buf_size + buf_size = omega arith in
    rw full (
      refl,
      omega arith,
      omega arith,
      omega arith,
      subst (λ x. Covers x (b * buf_size + rem) (chunks_from (suc n) (rem - buf_size) (b + 1))) next
          (subst (λ x. Covers ((b + 1) * buf_size) x (chunks_from (suc n) (rem - buf_size) (b + 1)))
            rest (chunks_from-Covers (suc n) (rem - buf_size) (b + 1) (ground arith))),
    )
