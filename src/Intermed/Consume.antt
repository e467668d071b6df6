-- ===== src/Intermed/Consume.antt =====
-- What an orbit on the left of a buffer does with it: it takes the bytes that are in, and puts out
-- others.
use yaoi.Base.{
  ℕ, zero, suc, ◌+◌, ◌-◌, ◌≤◌, ◌<◌, ◌≡◌, refl, ap, arith, Bool, false, length-replicate, List, [],
  ◌∷◌, ◌++◌, length, ltb,
}
use yaoi.Crates.{CrateTypes, Trace}
use yaoi.Outcome.{ok}
use yaoi.HugeTlb.{CursorLeft}
use yaoi.HugeTlb.Left
use yaoi.HugeTlb.Left.Laws.{InValid}
use yaoi.Intermed.{
  IntermedBuf, take, splice, right_in, buf_right_out, left_set_lens, left_bufs_mut,
  set_left_in_blocked, set_ready, set_left_want_read, set_left_want_write, set_wants_right_next_in,
  shutdown, all_sent_right_out, left_lens, right_lens, zeros, array_size,
}
use yaoi.Intermed.Laws.{IsValid, bytes_in, bytes_out, length-splice, take-splice}

take-take : (k n : ℕ) (xs : List ℕ) → k ≤ n → take k (take n xs) ≡ take k xs
take-take zero n xs h = refl
take-take (suc k) zero xs h = absurd (omega arith)
take-take (suc k) (suc n) [] h = refl
take-take (suc k) (suc n) (x ∷ xs) h = ap (λ l. x ∷ l) (take-take k n xs (omega arith))

-- Bytes written to the borrowed array, behind those that wait.
abbrev pub put_out : List ℕ → IntermedBuf → IntermedBuf
put_out bs s =
    left_set_lens s.buf_right_in_len (s.buf_right_out_len + length bs)
      (record s { buf_right_out = splice s.buf_right_out s.buf_right_out_len bs })

module _ {ty : CrateTypes} (s : IntermedBuf) (t : Trace ty) (v : IsValid s) where
  -- In a valid buffer, what the left side borrows is exactly the bytes that wait on either side; bytes
  -- that it writes behind the outgoing ones, and counts in, are there for the right side, if they fit.
  pub buf_right_out-left_set_lens :
      (bs : List ℕ)
      → s.buf_right_out_len + length bs ≤ 8192
      → (left_bufs_mut {ty = ty} s t ≡ (ok (bytes_in s, s.buf_right_out), s, t))
        × (buf_right_out (put_out bs s) t ≡ (ok (bytes_out s ++ bs), put_out bs s, t))
        × (bytes_in (put_out bs s) ≡ bytes_in s)
        × IsValid (put_out bs s)
  unfolding left_bufs_mut right_in buf_right_out left_set_lens
  buf_right_out-left_set_lens bs room =
      let in_ok : ltb (length s.buf_right_in) s.buf_right_in_len ≡ false = ground arith in
      let e_len = length-splice s.buf_right_out s.buf_right_out_len bs in
      let fits : ltb (length (splice s.buf_right_out s.buf_right_out_len bs))
            (s.buf_right_out_len + length bs)
          ≡ false =
        ground arith in
      (
        rw in_ok,
        rw (fits, take-splice s.buf_right_out s.buf_right_out_len bs (omega arith)),
        refl,
        ground arith,
      )

  -- A shorter length of what is in keeps, of the buffer between layer and app, the first bytes, which are read again,
  -- and of a stream with a valid cursor the last ones, which were not read yet.
  pub left_set_lens_keeps :
      (cur : CursorLeft) (k len_out : ℕ)
      → k < s.buf_right_in_len
      → InValid cur
      → k < cur.pos_in_end - cur.pos_in_start
      → (right_in {ty = ty} (left_set_lens k len_out s) t
          ≡ (ok (take k (bytes_in s)), left_set_lens k len_out s, t))
        × ((Left.set_lens_cursor k len_out cur).pos_in_start ≡ cur.pos_in_end - k)
        × ((Left.set_lens_cursor k len_out cur).pos_in_end ≡ cur.pos_in_end)
  unfolding right_in left_set_lens Left.set_lens_cursor Left.left_lens
  left_set_lens_keeps cur k len_out less w less_in =
      let fits : ltb (length s.buf_right_in) k ≡ false = ground arith in
      (
        rw (fits, take-take k s.buf_right_in_len s.buf_right_in (omega arith)),
        ground arith,
        ground arith,
      )

-- The operations that touch no bytes that wait.
abbrev pub SameBytes : IntermedBuf → IntermedBuf → Type 0
SameBytes s s' =
    (bytes_in s' ≡ bytes_in s) × (bytes_out s' ≡ bytes_out s) × (left_lens s' ≡ right_lens s)

-- No flag has a part in the bytes: after each of the setters both sides see the bytes and the lengths that they saw
-- before. After `all_sent_right_out` of a valid buffer nothing waits for the right side, the bytes that are in are as they were, and it
-- is valid.
pub setters-SameBytes :
    {ty : CrateTypes} (s : IntermedBuf) (b : Bool) (t : Trace ty)
    → IsValid s
    → SameBytes s (shutdown s)
      × SameBytes s (set_left_in_blocked b s)
      × SameBytes s (set_ready b s)
      × SameBytes s (set_left_want_read b s)
      × SameBytes s (set_left_want_write b s)
      × SameBytes s (set_wants_right_next_in b s)
      × (let s' = (all_sent_right_out {ty = ty} s t).1 in
          (bytes_out s' ≡ []) × (bytes_in s' ≡ bytes_in s) × IsValid s')
unfolding shutdown set_left_in_blocked set_ready set_left_want_read set_left_want_write
    set_wants_right_next_in all_sent_right_out left_lens right_lens zeros array_size
setters-SameBytes s b t v = (
  (refl, refl, refl),
  (refl, refl, refl),
  (refl, refl, refl),
  (refl, refl, refl),
  (refl, refl, refl),
  (refl, refl, refl),
  (
    refl,
    refl,
    record {
      in_array = v.in_array;
      out_array = length-replicate {A = ℕ} 8192 0;
      in_fits = v.in_fits;
      out_fits = omega arith;
    },
  ),
)
