-- ===== src/HugeTlb/Free.antt =====
-- EntHugeTlb::try_free_buffers: the input buffers that have been read go back to the ring.
use yaoi.Base.{
  ℕ, zero, suc, ◌+◌, ◌-◌, ◌/◌, ◌%◌, ◌^◌, ◌≤◌, ◌<◌, ◌≡◌, ◌⊎◌, refl, arith, List, [], ◌∷◌, ◌++◌, map,
  append-nil, append_assoc, false, true, ◌&&◌, ltb, ◌==◌, if◌then◌else◌, add_u16, dec_lt,
}
use yaoi.Crates.{CrateTypes, Trace, dropping_bid}
use yaoi.Outcome.{M, ok, panic, reused_past_cursor, pure, panics, gets, modify, tell, ◌>>=◌, ◌>>◌}
use yaoi.HugeTlb.{CursorLeft, EntHugeTlb, buf_size}
use yaoi.HugeTlb.Send.{on_cursor}

abbrev pub reuse_to : ℕ → CursorLeft → CursorLeft
reuse_to i cur = record cur { idx_in_reused = i }

-- `for do_free in i..i + n`
unfoldable pub free_range : {ty : CrateTypes} → ℕ → ℕ → M ty (EntHugeTlb ty) (Unit {0})
free_range zero i = pure tt
free_range {ty} (suc n) i = do
  ring ← gets (λ (s : EntHugeTlb ty). s.ring_in)
  tell {ty = ty} (dropping_bid ring i)
  modify (on_cursor (reuse_to (add_u16 i 1)))
  free_range n (i + 1)

unfoldable pub try_free_buffers : {ty : CrateTypes} → M ty (EntHugeTlb ty) (Unit {0})
try_free_buffers {ty} s =
    let cur_buf_id = s.cursor.pos_in_start / buf_size in
    let reused = s.cursor.idx_in_reused in
    let gap = cur_buf_id - reused in
    if (cur_buf_id == 0) && (reused == 255)
    then (tell {ty = ty} (dropping_bid s.ring_in 256) >> modify (on_cursor (reuse_to 0))) s
    else if (cur_buf_id == 0) && (reused == 256)
    then modify (on_cursor (reuse_to 0)) s
    else if ltb cur_buf_id reused
    then panics reused_past_cursor s
    else if ltb 0 cur_buf_id && ltb 0 gap
    then free_range (cur_buf_id % 2 ^ 16 - reused) reused s
    else pure tt s

-- The numbers from `i` on, `n` of them.
abbrev pub range_from : ℕ → ℕ → List ℕ
range_from i zero = []
range_from i (suc n) = i ∷ range_from (i + 1) n

free_range_lem :
    {ty : CrateTypes} (n i : ℕ) (s : EntHugeTlb ty) (t : Trace ty)
    → s.cursor.idx_in_reused ≡ i
    → i + n < 2 ^ 16
    → free_range n i s t
      ≡ (ok tt, on_cursor (reuse_to (i + n)) s, t ++ map (dropping_bid s.ring_in) (range_from i n))
unfolding free_range
free_range_lem zero i s t e h = rw append-nil (ground arith)
free_range_lem (suc n) i s t e h =
    let e_i : add_u16 i 1 ≡ i + 1 = omega arith in
    rw
      (
        e_i,
        free_range_lem n (i + 1) (on_cursor (reuse_to (i + 1)) s)
            (t ++ dropping_bid s.ring_in i ∷ []) refl (omega arith),
        append_assoc,
      )
      (ground arith)

abbrev pub cur_buf : {ty : CrateTypes} → EntHugeTlb ty → ℕ
cur_buf s = s.cursor.pos_in_start / buf_size

-- Where the read position has not fallen behind what was given back, and the number of its buffer
-- has 16 bits: exactly the buffers from the last one given back up to the current one, without that
-- one, go back to the ring, each once and in order.
pub try_free_buffers_lem :
    {ty : CrateTypes} (s : EntHugeTlb ty) (t : Trace ty)
    → s.cursor.idx_in_reused ≤ cur_buf s
    → cur_buf s < 2 ^ 16
    → try_free_buffers s t ≡ (
      ok tt,
      on_cursor (reuse_to (cur_buf s)) s,
      t
          ++ map
              (dropping_bid s.ring_in)
              (range_from s.cursor.idx_in_reused (cur_buf s - s.cursor.idx_in_reused)),
    )
unfolding try_free_buffers
try_free_buffers_lem s t h small =
    let e_cur : cur_buf s % 2 ^ 16 ≡ cur_buf s = omega arith in
    let e_end : s.cursor.idx_in_reused + (cur_buf s - s.cursor.idx_in_reused) ≡ cur_buf s =
      omega arith in
    elim (dec_lt s.cursor.idx_in_reused (cur_buf s)) [
      | yes behind ↦
          let e_first : ((cur_buf s == 0) && (s.cursor.idx_in_reused == 255)) ≡ false =
            ground arith in
          let e_second : ((cur_buf s == 0) && (s.cursor.idx_in_reused == 256)) ≡ false =
            ground arith in
          let e_third : ltb (cur_buf s) s.cursor.idx_in_reused ≡ false = ground arith in
          let e_gap : (ltb 0 (cur_buf s) && ltb 0 (cur_buf s - s.cursor.idx_in_reused)) ≡ true =
            ground arith in
          rw (
            e_first,
            e_second,
            e_third,
            e_gap,
            e_cur,
            free_range_lem (cur_buf s - s.cursor.idx_in_reused) s.cursor.idx_in_reused s t refl
                (omega arith),
            e_end,
          )
      | no level ↦
          let e_first : ((cur_buf s == 0) && (s.cursor.idx_in_reused == 255)) ≡ false =
            ground arith in
          let e_second : ((cur_buf s == 0) && (s.cursor.idx_in_reused == 256)) ≡ false =
            ground arith in
          let e_third : ltb (cur_buf s) s.cursor.idx_in_reused ≡ false = ground arith in
          let e_gap : (ltb 0 (cur_buf s) && ltb 0 (cur_buf s - s.cursor.idx_in_reused)) ≡ false =
            ground arith in
          let e_none : cur_buf s - s.cursor.idx_in_reused ≡ 0 = omega arith in
          rw (e_first, e_second, e_third, e_gap, e_none, append-nil) (ground arith)
    ]

-- The remaining branches. Once the read position is back in the first buffer with only the last
-- one held, the ring is given the number 256, which no buffer has, and 255 stays out. With
-- all given back only the count starts again. Elsewhere a position behind the count panics.
pub try_free_buffers_behind :
    {ty : CrateTypes} (s : EntHugeTlb ty) (t : Trace ty)
    → cur_buf s < s.cursor.idx_in_reused
    → let r = try_free_buffers s t in
      ((cur_buf s ≡ 0)
        × (s.cursor.idx_in_reused ≡ 255)
        × (r ≡ (ok tt, on_cursor (reuse_to 0) s, t ++ dropping_bid s.ring_in 256 ∷ [])))
      ⊎ ((cur_buf s ≡ 0)
          × (s.cursor.idx_in_reused ≡ 256)
          × (r ≡ (ok tt, on_cursor (reuse_to 0) s, t)))
      ⊎ (((0 < cur_buf s) ⊎ (s.cursor.idx_in_reused < 255) ⊎ (256 < s.cursor.idx_in_reused))
          × (r ≡ (panic reused_past_cursor, s, t)))
unfolding try_free_buffers
try_free_buffers_behind s t h = ground arith
