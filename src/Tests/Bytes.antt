-- ===== src/Tests/Bytes.antt =====
-- The theorems on the bytes of a stream, and on a client pool from its start.
use yaoi.Base.{◌≤◌, ◌≡◌, refl, arith, false, some, List, [], ◌∷◌, ◌++◌}
use yaoi.Outcome.{ok}
use yaoi.Cmaps.{MapRecvMulti}
use yaoi.HugeTlb.{EntHugeTlb, default_cursor}
use yaoi.HugeTlb.Send.{on_cursor, send_all_out, send_chunks, send_chunk, finish_send, total_out}
use yaoi.HugeTlb.Recv.{end_to, cb_recv_multi, recv_buf, recv_in}
use yaoi.HugeTlb.Left.{
  Slice, InBuffer, single, set_lens_cursor, left_lens, left_set_lens, revolve, left_bufs_mut,
}
use yaoi.HugeTlb.Left.Laws.{InPage}
use yaoi.HugeTlb.Left.Steps.{IsUsable}
use yaoi.HugeTlb.Bytes.{Page, put, bytes_at, bytes_of}
use yaoi.HugeTlb.Bytes.Incoming.{Event, arrived, taken, receives, reads, InSteps, quiet, and_then}
use yaoi.HugeTlb.Bytes.Queue.{writes, sends, OutSteps, still, OutSteps-waiting}
use yaoi.HugeTlb.Bytes.Moves.{waiting}
use yaoi.HugeTlb.Bytes.Queue
use yaoi.HugeTlb.Reuse.{BehindOrOver, left_bufs_mut-send_all_out}
use yaoi.Crates.{Trace, add_send_zc_rawbuf}
use yaoi.HugeTlb.Bytes.Fifo.{left_bufs_mut-arrivals}
use yaoi.Tests.World.{world, some_types}
use yaoi.Tests.Buffers.{ent_at, cursor_at}

abbrev new_ent : EntHugeTlb some_types
new_ent = record (ent_at 1) { cursor = default_cursor }

abbrev three_bytes : MapRecvMulti
three_bytes = record { fixed_fd = 3; buf_id = some 0; buf_len = 3; buf_grp = 3; shutdown = false }

-- Three bytes arrive, and the first of them is read.
abbrev events : List Event
events = arrived (10 ∷ 20 ∷ 30 ∷ []) ∷ taken 1 ∷ []

abbrev blank : Page
blank i = 0

abbrev written : Page
written = put blank 0 (10 ∷ 20 ∷ 30 ∷ [])

abbrev with_three : EntHugeTlb some_types
with_three = on_cursor (end_to 3) new_ent

abbrev with_two : EntHugeTlb some_types
with_two = on_cursor (set_lens_cursor 2 0) with_three

one_is_read : InSteps (world []) new_ent blank events with_two written
unfolding cb_recv_multi recv_buf recv_in left_set_lens
one_is_read =
    and_then (receives [] [] three_bytes 0 (10 ∷ 20 ∷ 30 ∷ []) refl refl (omega arith) refl)
      (and_then (reads [] [] 2 0 (omega arith) (omega arith) refl) quiet)

left_bufs_mut-arrivals_example :
    (b : InBuffer) × (o : Slice) × (left_bufs_mut (world []) with_two []
      ≡ (ok (b, o), on_cursor revolve with_two, []))
    × InPage b
    × (bytes_of written b ≡ 20 ∷ 30 ∷ [])
    × (1 ≤ 3)
left_bufs_mut-arrivals_example =
    left_bufs_mut-arrivals (world [])
      (record { same = refl; cursor = refl; no_read = refl; no_write = refl }) refl refl one_is_read
      []

-- An orbit looks at the buffers, and writes two bytes.
abbrev shown : InBuffer
shown = single (record { start = 16484; len = 3516 })

abbrev room : Slice
room = record { start = 16384; len = 2_080_768 }

-- Two bytes are written, and sent.
abbrev two_written : EntHugeTlb some_types
two_written = on_cursor (set_lens_cursor 0 2) new_ent

abbrev two_sent : EntHugeTlb some_types
two_sent = (send_all_out (world []) 3 two_written []).1

abbrev two_page : Page
two_page = put blank 0 (7 ∷ 8 ∷ [])

write_and_send : OutSteps (world []) 3 new_ent blank (7 ∷ 8 ∷ []) (7 ∷ 8 ∷ []) two_sent two_page
unfolding left_set_lens send_all_out send_chunks send_chunk finish_send total_out set_lens_cursor
    left_lens put bytes_at
write_and_send =
    Queue.and_then (writes [] (7 ∷ 8 ∷ []) 0 (omega arith) (omega arith) refl)
      (Queue.and_then (sends [] (add_send_zc_rawbuf 3 0 2 0 ∷ []) 1 refl) still)

OutSteps-waiting_example : 7 ∷ 8 ∷ [] ≡ (7 ∷ 8 ∷ []) ++ waiting two_sent two_page
OutSteps-waiting_example =
    OutSteps-waiting (world []) 3
      (record { same = refl; cursor = refl; no_read = refl; no_write = refl }) refl write_and_send

-- The last buffer of the outgoing page is full.
abbrev ent_last : EntHugeTlb some_types
ent_last = record (ent_at 1) {
  cursor = record (cursor_at 1) {
    pos_out_start = 2_088_960;
    pos_out_end = 2_097_152;
    idx_out_cur = 255;
  };
}

ent_last-IsUsable : IsUsable (world []) ent_last
ent_last-IsUsable = record {
  in_valid = omega arith;
  out_valid = record {
    aligned = refl;
    idx_in = omega arith;
    ordered = omega arith;
    fits = omega arith;
  };
  cap_in = refl;
  cap_out = refl;
}

abbrev last_sent : EntHugeTlb some_types
last_sent = record (ent_at 1) {
  cursor = record (cursor_at 1) {
    pos_out_start = 0;
    pos_out_end = 0;
    idx_out_cur = 0;
    pending_sends = 8192;
    pending_bufs = 1;
  };
}

abbrev last_call : Trace some_types
last_call = add_send_zc_rawbuf 3 2_088_960 8192 2_088_960 ∷ []

last_goes : send_all_out (world []) 3 ent_last [] ≡ (ok 1, last_sent, last_call)
unfolding send_all_out send_chunks send_chunk finish_send total_out
last_goes = refl

left_bufs_mut-send_all_out_example :
    (b : InBuffer) × (o : Slice) × (left_bufs_mut (world []) last_sent last_call
      ≡ (ok (b, o), on_cursor revolve last_sent, last_call))
    × BehindOrOver 1 ent_last last_sent o
left_bufs_mut-send_all_out_example =
    left_bufs_mut-send_all_out (world []) 3 ent_last [] ent_last-IsUsable last_goes (omega arith)
