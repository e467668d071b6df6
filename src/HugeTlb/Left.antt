-- ===== src/HugeTlb/Left.antt =====
-- `impl Left for &mut EntHugeTlb`: the view that an orbit has of a stream's buffers. A slice is its
-- offset in the page and its length; the bytes themselves are never read here.
pub mod Laws
pub mod Overlong
pub mod Steps
use yaoi.Base.{
  ℕ, ◌+◌, ◌-◌, ◌*◌, ◌≤◌, ◌<◌, Bool, true, ◌&&◌, ◌||◌, not, ltb, ◌==◌, if◌then◌else◌, add_usize,
  sub_usize,
}
use yaoi.Crates.{Crates, CrateTypes}
use yaoi.Outcome.{
  M, slice_out_of_range, left_in_over_capacity, left_out_over_capacity, pure, gets, panics, modify,
  panic_if, ◌>>=◌, ◌>>◌,
}
use yaoi.HugeTlb.{CursorLeft, EntHugeTlb, buf_size, page_size}
use yaoi.HugeTlb.Send.{on_cursor}

pub record Slice : Type 0 where
  pub start : ℕ
  pub len : ℕ

-- blueprint::InBuffer
pub data InBuffer : Type 0 where
  single : Slice → InBuffer
  double : Slice → Slice → InBuffer

module _ {ty : CrateTypes} where
  pub shutdown : EntHugeTlb ty → EntHugeTlb ty
  shutdown s = record s { want_shutdown = true }

  pub set_left_in_blocked : Bool → EntHugeTlb ty → EntHugeTlb ty
  set_left_in_blocked nb s = record s { in_blocked = nb }

  pub set_ready : Bool → EntHugeTlb ty → EntHugeTlb ty
  set_ready r s = record s { is_ready = r }

  pub set_left_want_read : Bool → EntHugeTlb ty → EntHugeTlb ty
  set_left_want_read w s = record s { want_read = w }

  pub set_left_want_write : Bool → EntHugeTlb ty → EntHugeTlb ty
  set_left_want_write w s = record s { want_write = w }

-- The lengths of what came in and of what goes out.
unfoldable pub left_lens : CursorLeft → ℕ × ℕ
left_lens cur =
    (sub_usize cur.pos_in_end cur.pos_in_start, sub_usize cur.pos_out_end cur.pos_out_start)

-- Fewer bytes in: the front was read. More: the end moves.
abbrev pub set_in : ℕ → ℕ → CursorLeft → CursorLeft
set_in new_len_in cur_len_in cur =
    if ltb new_len_in cur_len_in
    then record cur { pos_in_start = sub_usize cur.pos_in_end new_len_in }
    else if ltb cur_len_in new_len_in
    then record cur { pos_in_end = add_usize cur.pos_in_start new_len_in }
    else cur

abbrev pub set_out : ℕ → ℕ → CursorLeft → CursorLeft
set_out new_len_out cur_len_out cur =
    if new_len_out == cur_len_out
    then cur
    else record cur { pos_out_end = add_usize (cur.idx_out_cur * buf_size) new_len_out }

unfoldable pub set_lens_cursor : ℕ → ℕ → CursorLeft → CursorLeft
unfolding left_lens
set_lens_cursor new_len_in new_len_out cur =
    let (cur_len_in, cur_len_out) = left_lens cur in
    set_out new_len_out cur_len_out (set_in new_len_in cur_len_in cur)

-- Both lengths are held against the capacity of the incoming page.
unfoldable pub left_set_lens : (c : Crates) → ℕ → ℕ → M c.types (EntHugeTlb c.types) (Unit {0})
left_set_lens c new_len_in new_len_out = do
  s ← gets (λ (s : EntHugeTlb c.types). s)
  panic_if (ltb (c.capacity s.hugetbl_in) (add_usize new_len_in s.cursor.pos_in_start))
      left_in_over_capacity
  panic_if (ltb (c.capacity s.hugetbl_in) (add_usize new_len_out s.cursor.pos_out_start))
      left_out_over_capacity
  modify (on_cursor (set_lens_cursor new_len_in new_len_out))

-- Both positions are past the page: start over.
abbrev pub revolve : CursorLeft → CursorLeft
revolve cur =
    if ltb page_size cur.pos_in_start && ltb page_size cur.pos_in_end
    then record cur {
      pos_in_start = cur.pos_in_start - page_size;
      pos_in_end = cur.pos_in_end - page_size;
    }
    else cur

-- The incoming bytes, in two slices where they run over the end of the page.
unfoldable pub in_buffer : (c : Crates) → M c.types (EntHugeTlb c.types) InBuffer
in_buffer c s =
    let start = s.cursor.pos_in_start in
    let end = s.cursor.pos_in_end in
    if not (ltb page_size start) && ltb page_size end
    then pure
        (double (record { start = start; len = page_size - start })
          (record { start = 0; len = end - page_size }))
        s
    else if ltb end start || ltb (c.capacity s.hugetbl_in) end
    then panics slice_out_of_range s
    else pure (single (record { start = start; len = end - start })) s

-- The rest of the outgoing page, from the current buffer on.
unfoldable pub out_buffer : (c : Crates) → M c.types (EntHugeTlb c.types) Slice
out_buffer c s =
    let start = s.cursor.idx_out_cur * buf_size in
    if ltb (c.capacity s.hugetbl_out) start
    then panics slice_out_of_range s
    else pure (record { start = start; len = c.capacity s.hugetbl_out - start }) s

unfoldable pub left_bufs_mut : (c : Crates) → M c.types (EntHugeTlb c.types) (InBuffer × Slice)
unfolding in_buffer out_buffer
left_bufs_mut c = do
  modify (on_cursor revolve)
  buf_in ← in_buffer c
  buf_out ← out_buffer c
  pure (buf_in, buf_out)
