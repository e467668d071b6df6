-- ===== src/Intermed.antt =====
-- IntermedBuf of src/tcp_stream/ent_streaming_hugetlb.rs: what a layer and the app exchange bytes by.
pub mod Laws
pub mod Consume
use yaoi.Base.{
  ℕ, zero, suc, ◌+◌, ◌≤◌, Bool, true, false, List, [], ◌∷◌, ltb, if◌then◌else◌, length, set,
  replicate,
}
use yaoi.Crates.{CrateTypes}
use yaoi.Outcome.{M, slice_out_of_range, pure, panics, gets, modify, ◌>>=◌, ◌>>◌}

-- A byte is a number; each array has 8192 of them.
pub record IntermedBuf : Type 0 where
  pub buf_right_in : List ℕ
  pub buf_right_in_len : ℕ
  pub buf_right_out : List ℕ
  pub buf_right_out_len : ℕ
  pub left_ready : Bool
  pub left_want_read : Bool
  pub left_want_write : Bool
  pub left_blocked : Bool
  pub right_wants_next_in : Bool
  pub want_shutdown : Bool

pub array_size : ℕ
array_size = 8192

pub zeros : List ℕ
unfolding array_size
zeros = replicate array_size 0

unfoldable pub default_intermed : IntermedBuf
default_intermed = record {
  buf_right_in = zeros;
  buf_right_in_len = 0;
  buf_right_out = zeros;
  buf_right_out_len = 0;
  left_ready = false;
  left_want_read = false;
  left_want_write = false;
  left_blocked = false;
  right_wants_next_in = false;
  want_shutdown = false;
}

abbrev pub take : ℕ → List ℕ → List ℕ
take zero xs = []
take (suc n) [] = []
take (suc n) (x ∷ xs) = x ∷ take n xs

-- `copy_from_slice` into an array, from `start` on.
abbrev pub splice : List ℕ → ℕ → List ℕ → List ℕ
splice xs start [] = xs
splice xs start (b ∷ bs) = splice (set xs start b) (start + 1) bs

-- The `Left` and `Right` of the buffer.
pub shutdown : IntermedBuf → IntermedBuf
shutdown s = record s { want_shutdown = true }

unfoldable pub left_lens : IntermedBuf → ℕ × ℕ
left_lens s = (s.buf_right_in_len, s.buf_right_out_len)

unfoldable pub left_set_lens : ℕ → ℕ → IntermedBuf → IntermedBuf
left_set_lens len_in len_out s = record s { buf_right_in_len = len_in; buf_right_out_len = len_out }

pub set_left_in_blocked : Bool → IntermedBuf → IntermedBuf
set_left_in_blocked nb s = record s { left_blocked = nb }

pub set_ready : Bool → IntermedBuf → IntermedBuf
set_ready r s = record s { left_ready = r }

pub set_left_want_read : Bool → IntermedBuf → IntermedBuf
set_left_want_read w s = record s { left_want_read = w }

pub set_left_want_write : Bool → IntermedBuf → IntermedBuf
set_left_want_write w s = record s { left_want_write = w }

pub right_lens : IntermedBuf → ℕ × ℕ
right_lens s = (s.buf_right_in_len, s.buf_right_out_len)

pub set_wants_right_next_in : Bool → IntermedBuf → IntermedBuf
set_wants_right_next_in w s = record s { right_wants_next_in = w }

module _ {ty : CrateTypes} where
  -- `buf_right_in[0..len]`: what the app reads.
  pub right_in : M ty IntermedBuf (List ℕ)
  right_in s =
      if ltb (length s.buf_right_in) s.buf_right_in_len
      then panics slice_out_of_range s
      else pure (take s.buf_right_in_len s.buf_right_in) s

  -- The same bytes, and all of the other array.
  pub left_bufs_mut : M ty IntermedBuf (List ℕ × List ℕ)
  left_bufs_mut = do
    buf_in ← right_in
    s ← gets (λ (s : IntermedBuf). s)
    pure (buf_in, s.buf_right_out)

  pub buf_right_out : M ty IntermedBuf (List ℕ)
  buf_right_out s =
      if ltb (length s.buf_right_out) s.buf_right_out_len
      then panics slice_out_of_range s
      else pure (take s.buf_right_out_len s.buf_right_out) s

  pub all_sent_right_out : M ty IntermedBuf (Unit {0})
  all_sent_right_out = modify (λ s. record s { buf_right_out_len = 0; buf_right_out = zeros })

  pub add_right_out : List ℕ → M ty IntermedBuf (Unit {0})
  add_right_out bs s =
      let start_pos = s.buf_right_out_len in
      let end_pos = start_pos + length bs in
      if ltb (length s.buf_right_out) end_pos
      then panics slice_out_of_range s
      else modify
          (λ (s : IntermedBuf). record s {
            buf_right_out = splice s.buf_right_out start_pos bs;
            buf_right_out_len = end_pos;
          })
          s

  pub add_right_in : List ℕ → M ty IntermedBuf (Unit {0})
  add_right_in bs s =
      let start_pos = s.buf_right_in_len in
      let end_pos = start_pos + length bs in
      if ltb (length s.buf_right_in) end_pos
      then panics slice_out_of_range s
      else modify
          (λ (s : IntermedBuf). record s {
            buf_right_in = splice s.buf_right_in start_pos bs;
            buf_right_in_len = end_pos;
          })
          s
