-- ===== src/Intermed/Laws.antt =====
-- Bytes that are added come out again, in order.
use yaoi.Base.{
  ℕ, zero, suc, ◌+◌, ◌≤◌, ◌<◌, ◌≡◌, ◌⊎◌, ◌∙◌, inl, inr, refl, arith, List, [], ◌∷◌, ◌++◌, ltb,
  length, length-set, length-replicate, set, false, append-nil, append_assoc, Bool-cases,
}
use yaoi.Crates.{CrateTypes, Trace}
use yaoi.Outcome.{ok, panic, slice_out_of_range}
use yaoi.Intermed.{
  IntermedBuf, take, splice, right_in, buf_right_out, add_right_out, add_right_in, array_size,
  zeros, default_intermed,
}

pub length-splice : (xs : List ℕ) (i : ℕ) (bs : List ℕ) → length (splice xs i bs) ≡ length xs
length-splice xs i [] = refl
length-splice xs i (b ∷ bs) = length-splice (set xs i b) (i + 1) bs ∙ length-set xs i b

take-set : (xs : List ℕ) (i v : ℕ) → i < length xs → take (i + 1) (set xs i v) ≡ take i xs ++ v ∷ []
take-set [] i v h = elim h [ ]
take-set (x ∷ xs) zero v h = refl
take-set (x ∷ xs) (suc i) v h =
    let e : suc i + 1 ≡ suc (i + 1) = omega arith in rw (e, take-set xs i v (omega arith))

pub take-splice :
    (xs : List ℕ) (i : ℕ) (bs : List ℕ)
    → i + length bs ≤ length xs
    → take (i + length bs) (splice xs i bs) ≡ take i xs ++ bs
take-splice xs i [] h = let e : i + 0 ≡ i = omega arith in rw (e, append-nil)
take-splice xs i (b ∷ bs) h =
    let e : i + suc (length bs) ≡ i + 1 + length bs = omega arith in
    rw (
      e,
      take-splice (set xs i b) (i + 1) bs (omega (arith, length-set xs i b)),
      take-set xs i b (omega arith),
      append_assoc,
    )

-- The bytes that a buffer holds, and its shape.
abbrev pub bytes_out : IntermedBuf → List ℕ
bytes_out s = take s.buf_right_out_len s.buf_right_out

abbrev pub bytes_in : IntermedBuf → List ℕ
bytes_in s = take s.buf_right_in_len s.buf_right_in

pub record IsValid (s : IntermedBuf) : Type 0 where
  pub in_array : length s.buf_right_in ≡ 8192
  pub out_array : length s.buf_right_out ≡ 8192
  pub in_fits : s.buf_right_in_len ≤ 8192
  pub out_fits : s.buf_right_out_len ≤ 8192

pub default_intermed-IsValid : IsValid default_intermed
unfolding default_intermed zeros array_size
default_intermed-IsValid = record {
  in_array = length-replicate {A = ℕ} 8192 0;
  out_array = length-replicate {A = ℕ} 8192 0;
  in_fits = omega arith;
  out_fits = omega arith;
}

module _ {ty : CrateTypes} (s : IntermedBuf) (t : Trace ty) where
  -- In a valid buffer, bytes added for the right side come out behind those that wait, in order, and the buffer stays
  -- valid, if they fit the 8192 bytes of the array. Else it panics and the buffer is as it was.
  pub buf_right_out-add_right_out :
      (bs : List ℕ)
      → IsValid s
      → let (r, s', t') = add_right_out {ty = ty} bs s t in
        ((s.buf_right_out_len + length bs ≤ 8192)
          × (r ≡ ok tt)
          × (buf_right_out s' t' ≡ (ok (bytes_out s ++ bs), s', t))
          × (bytes_in s' ≡ bytes_in s)
          × IsValid s')
        ⊎ ((8192 < s.buf_right_out_len + length bs) × (r ≡ panic slice_out_of_range) × (s' ≡ s))
  unfolding buf_right_out add_right_out
  buf_right_out-add_right_out bs v =
      elim (Bool-cases (ltb (length s.buf_right_out) (s.buf_right_out_len + length bs))) [
        | inl over ↦ rw over (inr (ground arith, refl, refl))
        | inr fits ↦
            let room : s.buf_right_out_len + length bs ≤ 8192 = ground arith in
            let e_len = length-splice s.buf_right_out s.buf_right_out_len bs in
            let e_fits : ltb (length (splice s.buf_right_out s.buf_right_out_len bs))
                  (s.buf_right_out_len + length bs)
                ≡ false =
              ground arith in
            rw fits (
              inl (
                room,
                refl,
                rw (e_fits, take-splice s.buf_right_out s.buf_right_out_len bs (omega arith)),
                refl,
                ground arith,
              ))
      ]

  -- The same for bytes added for the left side.
  pub right_in-add_right_in :
      (bs : List ℕ)
      → IsValid s
      → let (r, s', t') = add_right_in {ty = ty} bs s t in
        ((s.buf_right_in_len + length bs ≤ 8192)
          × (r ≡ ok tt)
          × (right_in s' t' ≡ (ok (bytes_in s ++ bs), s', t))
          × (bytes_out s' ≡ bytes_out s)
          × IsValid s')
        ⊎ ((8192 < s.buf_right_in_len + length bs) × (r ≡ panic slice_out_of_range) × (s' ≡ s))
  unfolding right_in add_right_in
  right_in-add_right_in bs v =
      elim (Bool-cases (ltb (length s.buf_right_in) (s.buf_right_in_len + length bs))) [
        | inl over ↦ rw over (inr (ground arith, refl, refl))
        | inr fits ↦
            let room : s.buf_right_in_len + length bs ≤ 8192 = ground arith in
            let e_len = length-splice s.buf_right_in s.buf_right_in_len bs in
            let e_fits : ltb (length (splice s.buf_right_in s.buf_right_in_len bs))
                  (s.buf_right_in_len + length bs)
                ≡ false =
              ground arith in
            rw fits (
              inl (
                room,
                refl,
                rw (e_fits, take-splice s.buf_right_in s.buf_right_in_len bs (omega arith)),
                refl,
                ground arith,
              ))
      ]
