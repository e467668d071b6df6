-- ===== src/HugeTlb/Send.antt =====
-- EntHugeTlb::send_all_out: the outgoing bytes as one send for each buffer of 8192 bytes.
pub mod Chunks
pub mod Exact
pub mod Laws
use yaoi.Base.{
  ℕ, zero, suc, ◌+◌, ◌-◌, ◌*◌, ◌/◌, ◌%◌, ◌^◌, ltb, ◌==◌, if◌then◌else◌, add_usize, sub_usize,
  add_u16,
}
use yaoi.Crates.{Crates, CrateTypes, add_send_zc_rawbuf}
use yaoi.Outcome.{M, pure, gets, modify, ask_bearer, ◌>>=◌, ◌>>◌}
use yaoi.HugeTlb.{CursorLeft, EntHugeTlb, buf_size}

-- How the `for` loop ends: by `return`, or by running out of chunks at a buffer.
pub data Flow : Type 0 where
  returned : Flow
  finished : ℕ → Flow

-- `usize::div_ceil`
abbrev pub div_ceil : ℕ → ℕ → ℕ
div_ceil a b = (a + b - 1) / b

abbrev pub on_cursor : {ty : CrateTypes} → (CursorLeft → CursorLeft) → EntHugeTlb ty → EntHugeTlb ty
on_cursor f s = record s { cursor = f s.cursor }

-- A send is pending until its completion.
abbrev pub add_pending : ℕ → CursorLeft → CursorLeft
add_pending chunk_len cur = record cur {
  pending_sends = add_usize cur.pending_sends chunk_len;
  pending_bufs = add_usize cur.pending_bufs 1;
}

-- The last buffer has been sent: start again at the first.
abbrev pub rewind_out : CursorLeft → CursorLeft
rewind_out cur = record cur { idx_out_cur = 0; pos_out_start = 0; pos_out_end = 0 }

-- Go on to the start of buffer `buf_id`; the end follows where it falls behind.
abbrev pub enter_buf : ℕ → CursorLeft → CursorLeft
enter_buf buf_id cur = record cur {
  pos_out_start = buf_id * buf_size;
  pos_out_end =
      if ltb cur.pos_out_end (buf_id * buf_size) then buf_id * buf_size else cur.pos_out_end;
}

-- One chunk, from the start of buffer `buf_id`.
unfoldable pub send_chunk : (c : Crates) → ℕ → ℕ → ℕ → M c.types (EntHugeTlb c.types) (Unit {0})
send_chunk c fixed_fd buf_id chunk_len = do
  cur ← gets (λ s. s.cursor)
  ask_bearer c (add_send_zc_rawbuf fixed_fd (buf_id * buf_size) chunk_len cur.pos_out_start)
  modify (on_cursor (add_pending chunk_len))

module _ (c : Crates) (fixed_fd total_out_len : ℕ) where
  -- The loop over `chunk_no`, with the number of chunks left.
  unfoldable pub send_chunks : ℕ → ℕ → ℕ → M c.types (EntHugeTlb c.types) Flow
  send_chunks zero sent_out buf_id = pure (finished buf_id)
  send_chunks (suc n) sent_out buf_id =
      let remaining = sub_usize total_out_len sent_out in
      let chunk_len = if ltb remaining buf_size then remaining else buf_size in
      do
        send_chunk c fixed_fd buf_id chunk_len
        (if buf_id == 255
            then modify (on_cursor rewind_out) >> pure returned
            else (modify (on_cursor (enter_buf (add_u16 buf_id 1)))
                >> send_chunks n (add_usize sent_out chunk_len) (add_u16 buf_id 1)))

-- After the loop. An early `return` reports all the chunks too.
unfoldable pub finish_send : {ty : CrateTypes} → ℕ → Flow → M ty (EntHugeTlb ty) ℕ
finish_send chunks returned = pure chunks
finish_send chunks (finished buf_id) = do
  modify (on_cursor (λ cur. record cur { idx_out_cur = buf_id }))
  pure chunks

unfoldable pub total_out : CursorLeft → ℕ
total_out cur = sub_usize cur.pos_out_end cur.pos_out_start

-- The buffer id is cut to 16 bits.
abbrev pub first_buf : CursorLeft → ℕ
first_buf cur = cur.pos_out_start / buf_size % 2 ^ 16

unfoldable pub send_all_out : (c : Crates) → ℕ → M c.types (EntHugeTlb c.types) ℕ
unfolding total_out
send_all_out c fixed_fd s t =
    let cur = s.cursor in
    let total = total_out cur in
    let chunks = div_ceil total buf_size in
    if ltb 8192 cur.pending_sends
    then pure 0 s t
    else if ltb 5 cur.pending_bufs
    then pure 0 s t
    else if total == 0
    then pure 0 s t
    else (send_chunks c fixed_fd total chunks 0 (first_buf cur) >>= finish_send chunks) s t
