-- ===== src/Tests/Wrapping.antt =====
-- The theorems on the end of the input page and on the buffer between layer and app.
use yaoi.Base.{◌-◌, ◌≡◌, refl, arith, [], ◌∷◌, ◌++◌}
use yaoi.Outcome.{ok, panic, reused_past_cursor}
use yaoi.HugeTlb.{EntHugeTlb}
use yaoi.HugeTlb.Left
use yaoi.HugeTlb.Left.Steps.{IsUsable}
use yaoi.Crates.{dropping_bid}
use yaoi.HugeTlb.Wrap.{read_over, read_over_panics, read_and_look, read_and_look_drops}
use yaoi.Intermed.{
  IntermedBuf, default_intermed, left_bufs_mut, buf_right_out, right_in, left_set_lens, take,
}
use yaoi.Intermed.Laws.{IsValid, bytes_in, bytes_out, default_intermed-IsValid}
use yaoi.Intermed.Consume.{put_out, buf_right_out-left_set_lens, left_set_lens_keeps}
use yaoi.Tests.World.{world, some_types}
use yaoi.Tests.Buffers.{ent_at, cursor_at}

abbrev at_page_end : EntHugeTlb some_types
at_page_end = record (ent_at 1) {
  cursor = record (cursor_at 1) {
    pos_in_start = 2_097_152;
    pos_in_end = 2_107_152;
    idx_in_reused = 256;
  };
}

at_page_end-IsUsable : IsUsable (world []) at_page_end
at_page_end-IsUsable = record {
  in_valid = omega arith;
  out_valid = omega arith;
  cap_in = refl;
  cap_out = refl;
}

read_over_panics_example : (read_over (world []) at_page_end []).0 ≡ panic reused_past_cursor
read_over_panics_example =
    read_over_panics (world []) at_page_end [] 10000 at_page_end-IsUsable refl refl (omega arith)
      (omega arith) (omega arith)

-- The last buffer of the page is held, and 100 bytes are in the first one again.
abbrev in_last_buf : EntHugeTlb some_types
in_last_buf = record (ent_at 1) {
  cursor = record (cursor_at 1) {
    pos_in_start = 2_089_000;
    pos_in_end = 2_097_252;
    idx_in_reused = 255;
  };
}

in_last_buf-IsUsable : IsUsable (world []) in_last_buf
in_last_buf-IsUsable = record {
  in_valid = omega arith;
  out_valid = omega arith;
  cap_in = refl;
  cap_out = refl;
}

read_and_look_drops_example :
    (s' : EntHugeTlb some_types) × (read_and_look (world []) in_last_buf []
      ≡ (ok tt, s', dropping_bid in_last_buf.ring_in 256 ∷ []))
    × (s'.cursor.pos_in_start ≡ 100)
    × (s'.cursor.pos_in_end ≡ 100)
    × (s'.cursor.idx_in_reused ≡ 0)
read_and_look_drops_example =
    read_and_look_drops (world []) in_last_buf [] 100 in_last_buf-IsUsable (omega arith)
      (omega arith) refl (omega arith) (omega arith) refl

-- A buffer with three bytes in.
abbrev three_in : IntermedBuf
three_in = left_set_lens 3 0 default_intermed

three_in-IsValid : IsValid three_in
unfolding left_set_lens
three_in-IsValid =
    let v = default_intermed-IsValid in
    record {
      in_array = v.in_array;
      out_array = v.out_array;
      in_fits = omega arith;
      out_fits = omega arith;
    }

no_out : three_in.buf_right_out_len ≡ 0
unfolding left_set_lens
no_out = refl

three_long : three_in.buf_right_in_len ≡ 3
unfolding left_set_lens
three_long = refl

buf_right_out-left_set_lens_example :
    (left_bufs_mut {ty = some_types} three_in []
      ≡ (ok (bytes_in three_in, three_in.buf_right_out), three_in, []))
    × (buf_right_out {ty = some_types} (put_out (1 ∷ 2 ∷ []) three_in) []
        ≡ (ok (bytes_out three_in ++ 1 ∷ 2 ∷ []), put_out (1 ∷ 2 ∷ []) three_in, []))
    × (bytes_in (put_out (1 ∷ 2 ∷ []) three_in) ≡ bytes_in three_in)
    × IsValid (put_out (1 ∷ 2 ∷ []) three_in)
buf_right_out-left_set_lens_example =
    buf_right_out-left_set_lens {ty = some_types} three_in [] three_in-IsValid (1 ∷ 2 ∷ [])
      (omega (arith, no_out))

left_set_lens_keeps_example :
    (right_in {ty = some_types} (left_set_lens 1 0 three_in) []
      ≡ (ok (take 1 (bytes_in three_in)), left_set_lens 1 0 three_in, []))
    × ((Left.set_lens_cursor 1 0 (cursor_at 1)).pos_in_start ≡ 20000 - 1)
    × ((Left.set_lens_cursor 1 0 (cursor_at 1)).pos_in_end ≡ 20000)
left_set_lens_keeps_example =
    left_set_lens_keeps {ty = some_types} three_in [] three_in-IsValid (cursor_at 1) 1 0
      (omega (arith, three_long)) (omega arith) (omega arith)
