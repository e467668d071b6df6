-- ===== src/Tests/Flights.antt =====
-- The theorems on the sends under way, on one stream.
use yaoi.Base.{ℕ, ◌≡◌, ◌⊎◌, refl, arith, false, List, [], ◌∷◌}
use yaoi.Outcome.{ok}
use yaoi.Connected.{from_fixed}
use yaoi.HugeTlb.{EntHugeTlb, default_cursor}
use yaoi.Cmaps.{MapSentZc}
use yaoi.Crates.{Trace}
use yaoi.HugeTlb.Send.{on_cursor, send_all_out, send_chunks, send_chunk, finish_send, total_out}
use yaoi.HugeTlb.Send.Chunks.{chunks_from}
use yaoi.HugeTlb.Send.Laws.{Sent, Refused, out_len}
use yaoi.HugeTlb.Left.{set_lens_cursor, left_lens, left_set_lens}
use yaoi.HugeTlb.Left.Steps.{sets_lens}
use yaoi.HugeTlb.Flight.{
  Sending, told, orbits, sends, completes, FlightSteps, landed, and_then, Balanced,
}
use yaoi.HugeTlb.Flight.Keep.{reached-Balanced}
use yaoi.HugeTlb.Flight.Live.{sends_on, lost_six_blocks}
use yaoi.Tests.World.{world, some_types}
use yaoi.Tests.Buffers.{ent_at, cursor_at, cursor_at-OutValid}

abbrev new_ent : EntHugeTlb some_types
new_ent = record (ent_at 1) { cursor = default_cursor }

-- An orbit writes 10000 bytes, they are sent in two chunks, and the first of them completes.
abbrev ent_written : EntHugeTlb some_types
ent_written = on_cursor (set_lens_cursor 0 10000) new_ent

abbrev calls_out : Trace some_types
calls_out = (send_all_out (world []) 3 ent_written []).2

abbrev ent_sent : EntHugeTlb some_types
ent_sent = (send_all_out (world []) 3 ent_written []).1

abbrev first_told : MapSentZc
first_told = record { fixed_fd = 3; sent_out = 8192; buf_ref = 0; more = false }

abbrev one_completed : Sending some_types
one_completed = record {
  ent = told first_told ent_sent;
  flight = 1808 ∷ [];
  lost_bufs = 0;
  lost_bytes = 0;
}

reached-Balanced_example : Balanced (world []) one_completed
unfolding left_set_lens send_all_out send_chunks send_chunk finish_send total_out set_lens_cursor
    left_lens chunks_from
reached-Balanced_example =
    reached-Balanced (world []) 3 (from_fixed 3) new_ent one_completed
      (record { same = refl; cursor = refl; no_read = refl; no_write = refl }) refl
      (and_then (orbits (sets_lens {t = []} 0 10000 (omega arith) (omega arith) refl)) (
        and_then (sends [] calls_out 2 refl)
          (and_then (completes first_told [] (1808 ∷ []) 8192 refl (omega arith) refl) landed)))

-- A stream with some sends under way.
abbrev ent_pending : ℕ → ℕ → EntHugeTlb some_types
ent_pending n bufs = record (ent_at 1) {
  cursor = record (cursor_at 1) { pending_sends = n; pending_bufs = bufs };
}

abbrev two_under_way : Sending some_types
two_under_way = record {
  ent = ent_pending 10000 2;
  flight = 8192 ∷ 1808 ∷ [];
  lost_bufs = 0;
  lost_bytes = 0;
}

two_under_way-Balanced : Balanced (world []) two_under_way
two_under_way-Balanced = record {
  size = refl;
  valid = omega (arith, cursor_at-OutValid);
  bufs = refl;
  sends = refl;
  bufs_few = omega arith;
  sends_few = omega arith;
}

sends_on_example :
    (q' : Sending some_types) × FlightSteps (world []) 3 two_under_way q'
    × (q'.flight ≡ [])
    × (out_len q'.ent.cursor ≡ 20000)
    × ((t : List _)
        → let r = send_all_out (world []) 3 q'.ent t in
          Sent (world []) 3 q'.ent t r ⊎ Refused (world []) 3 q'.ent t r)
sends_on_example =
    sends_on (world []) 3 two_under_way two_under_way-Balanced refl refl (omega arith)

abbrev six_lost : Sending some_types
six_lost = record { ent = ent_pending 600 6; flight = []; lost_bufs = 6; lost_bytes = 600 }

six_lost-Balanced : Balanced (world []) six_lost
six_lost-Balanced = record {
  size = refl;
  valid = omega (arith, cursor_at-OutValid);
  bufs = refl;
  sends = refl;
  bufs_few = omega arith;
  sends_few = omega arith;
}

lost_six_blocks_example :
    send_all_out (world []) 3 (ent_pending 600 6) [] ≡ (ok 0, ent_pending 600 6, [])
lost_six_blocks_example =
    lost_six_blocks (world []) 3 six_lost six_lost [] six_lost-Balanced (omega arith) landed
