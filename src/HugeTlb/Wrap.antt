-- ===== src/HugeTlb/Wrap.antt =====
-- The input of a stream at the end of its page: an orbit reads on over the end, the read buffers are
-- given back, the positions start over at the next look, and buffers are given back again; or an orbit
-- reads all and looks again before buffers are given back.
use yaoi.Base.{ℕ, ◌+◌, ◌-◌, ◌≤◌, ◌<◌, ◌≡◌, inl, inr, refl, arith, ◌++◌, ◌∷◌, [], map}
use yaoi.Crates.{Crates, Trace, dropping_bid}
use yaoi.Outcome.{M, ok, panic, reused_past_cursor, ◌>>◌}
use yaoi.HugeTlb.{CursorLeft, EntHugeTlb, page_size}
use yaoi.HugeTlb.Send.{on_cursor}
use yaoi.HugeTlb.Send.Laws.{OutValid, out_len}
use yaoi.HugeTlb.Free.{
  try_free_buffers, reuse_to, range_from, cur_buf, try_free_buffers_lem, try_free_buffers_behind,
}
use yaoi.HugeTlb.Left.{left_lens, set_lens_cursor, left_set_lens, revolve, left_bufs_mut}
use yaoi.HugeTlb.Left.Steps.{IsUsable}
use yaoi.HugeTlb.Left.Laws.{InValid, left_set_lens-left_lens, left_bufs_mut-InPage}

revolve_past :
    (cur : CursorLeft)
    → page_size < cur.pos_in_start
    → page_size < cur.pos_in_end
    → ((revolve cur).pos_in_start ≡ cur.pos_in_start - page_size)
      × ((revolve cur).idx_in_reused ≡ cur.idx_in_reused)
revolve_past cur h g = (ground arith, ground arith)

module _ (c : Crates) where
  -- All of the input is read, and no output written.
  read_all : M c.types (EntHugeTlb c.types) (Unit {0})
  read_all s = left_set_lens c 0 (out_len s.cursor) s

  -- One round of a handler after the read, and the start of the next.
  pub read_over : M c.types (EntHugeTlb c.types) (Unit {0})
  unfolding read_all
  read_over = read_all >> try_free_buffers >> left_bufs_mut c >> try_free_buffers

  -- A handler that reads all and looks again in the same round, and gives back after it.
  pub read_and_look : M c.types (EntHugeTlb c.types) (Unit {0})
  unfolding read_all
  read_and_look = read_all >> left_bufs_mut c >> try_free_buffers

  module _ (s : EntHugeTlb c.types) (t : Trace c.types) (len : ℕ) (u : IsUsable c s) where
    abbrev s1 : EntHugeTlb c.types
    s1 = on_cursor (set_lens_cursor 0 (out_len s.cursor)) s

    read_all_lem :
        s.cursor.pos_in_start ≤ page_size
        → (read_all s t ≡ (ok tt, s1, t)) × InValid s1.cursor × OutValid s1.cursor
    unfolding read_all
    read_all_lem near =
        let w = u.out_valid in
        elim (left_set_lens-left_lens c s t 0 (out_len s.cursor) u.in_valid u.out_valid u.cap_in
          (omega arith) (omega arith)) [
            | inl (_, _, e, _, v1, w1) ↦ (e, v1, w1)
            | inr (inl (over, _)) ↦ absurd (omega arith)
            | inr (inr (over, _)) ↦ absurd (omega arith)
          ]

    s1_cursor :
        s.cursor.pos_in_start ≤ page_size
        → s.cursor.pos_in_end ≡ page_size + len
        → 0 < len
        → len ≤ page_size
        → (s1.cursor.pos_in_start ≡ page_size + len)
          × (s1.cursor.pos_in_end ≡ page_size + len)
          × (s1.cursor.idx_in_reused ≡ s.cursor.idx_in_reused)
    unfolding set_lens_cursor left_lens
    s1_cursor near held some_bytes small =
        let w = u.out_valid in (ground arith, ground arith, ground arith)

    -- On a valid cursor and pages of 2 MiB, with the read position at the end of the page, between a buffer and a
    -- page of input behind it, and at most 256 buffers counted as given back: the read, giving back, the look at the
    -- buffers and giving back again end in a panic, since the count does not start over with the positions.
    pub read_over_panics :
        s.cursor.pos_in_start ≡ page_size
        → s.cursor.pos_in_end ≡ page_size + len
        → 8192 ≤ len
        → len ≤ page_size
        → s.cursor.idx_in_reused ≤ 256
        → (read_over s t).0 ≡ panic reused_past_cursor
    unfolding read_over
    read_over_panics at_end held long small few =
        let (e1, v1, w1) = read_all_lem (omega arith) in
        let (start1, end1, reused1) = s1_cursor (omega arith) held (omega arith) small in
        let e2 = try_free_buffers_lem s1 t (omega arith) (omega arith) in
        let s2 = on_cursor (reuse_to (cur_buf s1)) s1 in
        let t2 =
          t
          ++ map (dropping_bid s1.ring_in)
              (range_from s1.cursor.idx_in_reused (cur_buf s1 - s1.cursor.idx_in_reused)) in
        let v2 : InValid s2.cursor = omega arith in
        let w2 : OutValid s2.cursor = omega arith in
        let (b, o, e3, _, _, _, _, _, _, _) =
          left_bufs_mut-InPage c s2 t2 v2 w2 u.cap_in u.cap_out in
        let s3 = on_cursor revolve s2 in
        let many : 257 ≤ cur_buf s1 = omega arith in
        let (back, same) = revolve_past s2.cursor (omega arith) (omega arith) in
        let behind : cur_buf s3 < s3.cursor.idx_in_reused = omega arith in
        rw (e1, e2, e3)
          (elim (try_free_buffers_behind s3 t2 behind) [
            | inl (_, e, _) ↦ absurd (omega arith)
            | inr (inl (_, e, _)) ↦ absurd (omega arith)
            | inr (inr (_, e)) ↦ rw e refl
          ])

    -- On a valid cursor and pages of 2 MiB, with the read position in the last buffer of the page, 255 buffers counted
    -- as given back and the input ending in the first buffer again: after all is read and the buffers are looked at,
    -- giving back returns with one call only, for a buffer 256, and counts from 0 on; buffer 255 is not given back.
    pub read_and_look_drops :
        page_size < s.cursor.pos_in_start + 8192
        → s.cursor.pos_in_start ≤ page_size
        → s.cursor.pos_in_end ≡ page_size + len
        → 0 < len
        → len < 8192
        → s.cursor.idx_in_reused ≡ 255
        → (s' : EntHugeTlb c.types) × (read_and_look s t
            ≡ (ok tt, s', t ++ dropping_bid s.ring_in 256 ∷ []))
          × (s'.cursor.pos_in_start ≡ len)
          × (s'.cursor.pos_in_end ≡ len)
          × (s'.cursor.idx_in_reused ≡ 0)
    unfolding read_and_look
    read_and_look_drops last near held some_bytes few back =
        let (e1, v1, w1) = read_all_lem near in
        let (start1, end1, reused1) = s1_cursor near held some_bytes (omega arith) in
        let (b, o, e3, _, _, _, _, _, _, _) =
          left_bufs_mut-InPage c s1 t v1 w1 u.cap_in u.cap_out in
        let s3 = on_cursor revolve s1 in
        let (start3, reused3) = revolve_past s1.cursor (omega arith) (omega arith) in
        let end3 : s3.cursor.pos_in_end ≡ len = ground arith in
        let first : cur_buf s3 ≡ 0 = omega arith in
        rw (e1, e3)
          (elim (try_free_buffers_behind s3 t (omega arith)) [
            | inl (_, _, e) ↦ (on_cursor (reuse_to 0) s3, e, omega arith, end3, refl)
            | inr (inl (_, r, _)) ↦ absurd (omega arith)
            | inr (inr (other, _)) ↦ absurd (omega arith)
          ])
