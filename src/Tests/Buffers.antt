-- ===== src/Tests/Buffers.antt =====
-- The theorems on a stream's buffers, on one stream in the middle of its pages.
use yaoi.Base.{
  ℕ, ◌+◌, ◌≤◌, ◌<◌, ◌≡◌, ◌⊎◌, refl, arith, ◌==◌, if◌then◌else◌, ◌&&◌, false, none, some, List, [],
  ◌∷◌, ◌++◌, map, length,
}
use yaoi.Crates.{dropping_bid}
use yaoi.Outcome.{
  ok, panic, left_in_over_capacity, left_out_over_capacity, revolution, end_not_updated,
  slice_out_of_range,
}
use yaoi.Cmaps.{MapRecvMulti}
use yaoi.Connected.{from_fixed}
use yaoi.HugeTlb.{EntHugeTlb, CursorLeft, page_size}
use yaoi.HugeTlb.Send.{on_cursor, send_all_out}
use yaoi.HugeTlb.Send.Laws.{
  OutValid, Held, Sent, Refused, AfterSend, send_all_out-cases, send_all_out-OutValid,
}
use yaoi.HugeTlb.Recv.{cb_recv_multi, in_last_buf, end_to, cb_recv_multi_lem}
use yaoi.HugeTlb.Free.{try_free_buffers, reuse_to, range_from, try_free_buffers_lem}
use yaoi.HugeTlb.Left.{left_lens, set_lens_cursor, left_set_lens}
use yaoi.HugeTlb.Left.Laws.{InValid, left_set_lens-left_lens}
use yaoi.Intermed.{buf_right_out, add_right_out, default_intermed}
use yaoi.Intermed.Laws.{
  IsValid, default_intermed-IsValid, bytes_in, bytes_out, buf_right_out-add_right_out,
}
use yaoi.Tests.World.{world, some_types}

-- 20000 bytes wait to go out from the third buffer on, and 3516 came in behind it.
abbrev pub cursor_at : ℕ → CursorLeft
cursor_at reused = record {
  pos_in_start = 16484;
  pos_in_end = 20000;
  idx_in_reused = reused;
  pos_out_start = 16384;
  pos_out_end = 36384;
  idx_out_cur = 2;
  pending_sends = 0;
  pending_bufs = 0;
}

abbrev pub ent_at : ℕ → EntHugeTlb some_types
ent_at reused = record {
  connection = from_fixed 3;
  hugetbl_out = 0;
  hugetbl_in = 1;
  ring_in = 7;
  cursor = cursor_at reused;
  is_ready = false;
  want_read = false;
  want_write = false;
  in_blocked = false;
  want_shutdown = false;
}

pub cursor_at-OutValid : OutValid (cursor_at 1)
cursor_at-OutValid = record {
  aligned = refl;
  idx_in = omega arith;
  ordered = omega arith;
  fits = omega arith;
}

pub cursor_at-InValid : InValid (cursor_at 1)
cursor_at-InValid = record {
  ordered = omega arith;
  one_page = omega arith;
  start_near = omega arith;
}

send_all_out-cases_example :
    let s = ent_at 1 in
    let r = send_all_out (world []) 3 s [] in
    Held (world []) 3 s [] r ⊎ Sent (world []) 3 s [] r ⊎ Refused (world []) 3 s [] r
send_all_out-cases_example = send_all_out-cases (world []) 3 (ent_at 1) [] cursor_at-OutValid

send_all_out-OutValid_example : AfterSend (ent_at 1) (send_all_out (world []) 3 (ent_at 1) [])
send_all_out-OutValid_example = send_all_out-OutValid (world []) 3 (ent_at 1) [] cursor_at-OutValid

abbrev some_bytes : MapRecvMulti
some_bytes = record { fixed_fd = 3; buf_id = some 2; buf_len = 500; buf_grp = 3; shutdown = false }

cb_recv_multi_lem_example :
    let s = ent_at 1 in
    let o = cb_recv_multi {ty = some_types} some_bytes s [] in
    ((some_bytes.buf_id ≡ none) × (o ≡ (ok tt, s, [])))
    ⊎ ((b : ℕ) × (some_bytes.buf_id ≡ some b)
        × (0 < some_bytes.buf_len)
        × (o ≡ (ok tt, on_cursor (end_to (s.cursor.pos_in_end + some_bytes.buf_len)) s, [])))
    ⊎ ((b : ℕ) × (some_bytes.buf_id ≡ some b)
        × (some_bytes.buf_len ≡ 0)
        × (o ≡ (
          panic
              (if in_last_buf s.cursor.pos_in_end && (b == 0) then revolution else end_not_updated),
          s,
          [],
        )))
cb_recv_multi_lem_example = cb_recv_multi_lem some_bytes (ent_at 1) [] (omega arith)

try_free_buffers_lem_example : try_free_buffers (ent_at 0) [] ≡ (
  ok tt,
  on_cursor (reuse_to 2) (ent_at 0),
  map (dropping_bid (ent_at 0).ring_in) (range_from 0 2),
)
try_free_buffers_lem_example = try_free_buffers_lem (ent_at 0) [] (omega arith) (omega arith)

left_set_lens-left_lens_example :
    let s = ent_at 1 in
    let r = left_set_lens (world []) 100 20500 s [] in
    let cur = set_lens_cursor 100 20500 s.cursor in
    ((100 + s.cursor.pos_in_start ≤ page_size)
      × (20500 + s.cursor.pos_out_start ≤ page_size)
      × (r ≡ (ok tt, record s { cursor = cur }, []))
      × (left_lens cur ≡ (100, 20500))
      × InValid cur
      × OutValid cur)
    ⊎ ((page_size < 100 + s.cursor.pos_in_start) × (r ≡ (panic left_in_over_capacity, s, [])))
    ⊎ ((page_size < 20500 + s.cursor.pos_out_start) × (r ≡ (panic left_out_over_capacity, s, [])))
left_set_lens-left_lens_example =
    left_set_lens-left_lens (world []) (ent_at 1) [] 100 20500 cursor_at-InValid cursor_at-OutValid
      refl (omega arith) (omega arith)

buf_right_out-add_right_out_example :
    let s = default_intermed in
    let bs : List ℕ = 1 ∷ 2 ∷ 3 ∷ [] in
    let (r, s', t') = add_right_out {ty = some_types} bs s [] in
    ((s.buf_right_out_len + length bs ≤ 8192)
      × (r ≡ ok tt)
      × (buf_right_out s' t' ≡ (ok (bytes_out s ++ bs), s', []))
      × (bytes_in s' ≡ bytes_in s)
      × IsValid s')
    ⊎ ((8192 < s.buf_right_out_len + length bs) × (r ≡ panic slice_out_of_range) × (s' ≡ s))
buf_right_out-add_right_out_example =
    buf_right_out-add_right_out default_intermed [] (1 ∷ 2 ∷ 3 ∷ []) default_intermed-IsValid
