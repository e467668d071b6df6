-- ===== src/HugeTlb/Left/Laws.antt =====
-- The buffers that an orbit is given lie inside the pages, and it can set the lengths as it likes
-- within them.
use yaoi.Base.{
  ℕ, ◌+◌, ◌-◌, ◌*◌, ◌≤◌, ◌<◌, ◌≡◌, ◌⊎◌, inl, inr, arith, ltb, add_usize, Bool-cases, dec_lt, ◌∙◌,
}
use yaoi.Crates.{Crates, Trace}
use yaoi.Outcome.{ok, panic, left_in_over_capacity, left_out_over_capacity}
use yaoi.HugeTlb.{CursorLeft, EntHugeTlb, buf_size, page_size}
use yaoi.HugeTlb.Send.{on_cursor}
use yaoi.HugeTlb.Send.Laws.{OutValid}
use yaoi.HugeTlb.Left.{
  Slice, InBuffer, single, double, left_lens, set_lens_cursor, left_set_lens, revolve, in_buffer,
  out_buffer, left_bufs_mut,
}

-- The incoming half of the cursor: at most a page is unread, and the end is at most one page ahead.
pub record InValid (cur : CursorLeft) : Type 0 where
  pub ordered : cur.pos_in_start ≤ cur.pos_in_end
  pub one_page : cur.pos_in_end ≤ cur.pos_in_start + page_size
  pub start_near : cur.pos_in_start ≤ 2 * page_size

set_lens_cursor-left_lens :
    (new_in new_out : ℕ) (cur : CursorLeft)
    → InValid cur
    → OutValid cur
    → new_in + cur.pos_in_start ≤ page_size
    → new_out + cur.pos_out_start ≤ page_size
    → let cur' = set_lens_cursor new_in new_out cur in
      (left_lens cur' ≡ (new_in, new_out)) × InValid cur' × OutValid cur'
unfolding set_lens_cursor left_lens
set_lens_cursor-left_lens new_in new_out cur v w hi ho = ground arith

module _ (c : Crates) (s : EntHugeTlb c.types) (t : Trace c.types) where
  -- On a valid cursor, an incoming page of 2 MiB and lengths of at most that: the new lengths are read back as they were set, and the cursor stays valid,
  -- if both fit the page behind their starts. Else it panics and nothing changes.
  pub left_set_lens-left_lens :
      (new_in new_out : ℕ)
      → InValid s.cursor
      → OutValid s.cursor
      → c.capacity s.hugetbl_in ≡ page_size
      → new_in ≤ page_size
      → new_out ≤ page_size
      → let r = left_set_lens c new_in new_out s t in
        let cur = set_lens_cursor new_in new_out s.cursor in
        ((new_in + s.cursor.pos_in_start ≤ page_size)
          × (new_out + s.cursor.pos_out_start ≤ page_size)
          × (r ≡ (ok tt, record s { cursor = cur }, t))
          × (left_lens cur ≡ (new_in, new_out))
          × InValid cur
          × OutValid cur)
        ⊎ ((page_size < new_in + s.cursor.pos_in_start) × (r ≡ (panic left_in_over_capacity, s, t)))
        ⊎ ((page_size < new_out + s.cursor.pos_out_start)
            × (r ≡ (panic left_out_over_capacity, s, t)))
  unfolding left_set_lens
  left_set_lens-left_lens new_in new_out v w cap hi ho =
      let e_in : add_usize new_in s.cursor.pos_in_start ≡ new_in + s.cursor.pos_in_start =
        omega arith in
      let e_out : add_usize new_out s.cursor.pos_out_start ≡ new_out + s.cursor.pos_out_start =
        omega arith in
      rw (cap, e_in, e_out)
        (elim (Bool-cases (ltb page_size (new_in + s.cursor.pos_in_start))) [
          | inl over ↦ inr (inl (ground arith, rw over))
          | inr fits ↦
              rw fits (elim (Bool-cases (ltb page_size (new_out + s.cursor.pos_out_start))) [
                | inl over ↦ inr (inr (ground arith, rw over))
                | inr fits_out ↦
                    let h_in : new_in + s.cursor.pos_in_start ≤ page_size = ground arith in
                    let h_out : new_out + s.cursor.pos_out_start ≤ page_size = ground arith in
                    let (lens, v', w') =
                      set_lens_cursor-left_lens new_in new_out s.cursor v w h_in h_out in
                    inl (h_in, h_out, rw fits_out, lens, v', w')
              ])
        ])

-- The bytes of a buffer.
abbrev pub buffer_len : InBuffer → ℕ
buffer_len (single a) = a.len
buffer_len (double a b) = a.len + b.len

-- Inside the page, and the two slices of one buffer do not meet.
abbrev pub InPage : InBuffer → Type 0
InPage (single a) = a.start + a.len ≤ page_size
InPage (double a b) = (a.start + a.len ≤ page_size) × (b.start + b.len ≤ a.start)

-- What a revolution leaves as it was.
record Revolved (cur cur' : CursorLeft) : Type 0 where
  valid : InValid cur'
  near : cur'.pos_in_start ≤ page_size
  len_in : cur'.pos_in_end - cur'.pos_in_start ≡ cur.pos_in_end - cur.pos_in_start
  start_out : cur'.pos_out_start ≡ cur.pos_out_start
  end_out : cur'.pos_out_end ≡ cur.pos_out_end
  idx_out : cur'.idx_out_cur ≡ cur.idx_out_cur

revolve-Revolved : (cur : CursorLeft) → InValid cur → Revolved cur (revolve cur)
revolve-Revolved cur v = ground arith

left_lens-Revolved :
    (cur cur' : CursorLeft) → InValid cur → Revolved cur cur' → left_lens cur' ≡ left_lens cur
unfolding left_lens
left_lens-Revolved cur cur' v r = ground arith

in_buffer_lem :
    (c : Crates) (s : EntHugeTlb c.types) (t : Trace c.types)
    → InValid s.cursor
    → s.cursor.pos_in_start ≤ page_size
    → c.capacity s.hugetbl_in ≡ page_size
    → (b : InBuffer) × (in_buffer c s t ≡ (ok b, s, t))
      × InPage b
      × (buffer_len b ≡ s.cursor.pos_in_end - s.cursor.pos_in_start)
unfolding in_buffer
in_buffer_lem c s t v near cap = elim (dec_lt page_size s.cursor.pos_in_end) [
  | yes past ↦ (
    double (record { start = s.cursor.pos_in_start; len = page_size - s.cursor.pos_in_start })
        (record { start = 0; len = s.cursor.pos_in_end - page_size }),
    ground arith,
    omega arith,
    omega arith,
  )
  | no inside ↦ (
    single (record {
      start = s.cursor.pos_in_start;
      len = s.cursor.pos_in_end - s.cursor.pos_in_start;
    }),
    ground arith,
    omega arith,
    omega arith,
  )
]

out_buffer_lem :
    (c : Crates) (s : EntHugeTlb c.types) (t : Trace c.types)
    → OutValid s.cursor
    → c.capacity s.hugetbl_out ≡ page_size
    → (o : Slice) × (out_buffer c s t ≡ (ok o, s, t))
      × (o.start ≡ s.cursor.pos_out_start)
      × (o.start + o.len ≡ page_size)
unfolding out_buffer
out_buffer_lem c s t w cap = (
  record {
    start = s.cursor.idx_out_cur * buf_size;
    len = page_size - s.cursor.idx_out_cur * buf_size;
  },
  ground arith,
  omega arith,
  omega arith,
)

module _ (c : Crates) (s : EntHugeTlb c.types) (t : Trace c.types) where
  pub left_bufs_mut-InPage :
      InValid s.cursor
      → OutValid s.cursor
      → c.capacity s.hugetbl_in ≡ page_size
      → c.capacity s.hugetbl_out ≡ page_size
      → (b : InBuffer) × (o : Slice) × (left_bufs_mut c s t ≡ (ok (b, o), on_cursor revolve s, t))
        × InPage b
        × (buffer_len b ≡ s.cursor.pos_in_end - s.cursor.pos_in_start)
        × (o.start ≡ s.cursor.pos_out_start)
        × (o.start + o.len ≡ page_size)
        × InValid (revolve s.cursor)
        × ((revolve s.cursor).pos_in_start ≤ page_size)
        × (left_lens (revolve s.cursor) ≡ left_lens s.cursor)
  unfolding left_bufs_mut
  left_bufs_mut-InPage v w cap_in cap_out =
      let r = revolve-Revolved s.cursor v in
      let w' : OutValid (revolve s.cursor) = omega arith in
      let (b, e_in, inside, len_in) =
        in_buffer_lem c (on_cursor revolve s) t r.valid r.near cap_in in
      let (o, e_out, from, to_end) = out_buffer_lem c (on_cursor revolve s) t w' cap_out in
      (
        b,
        o,
        rw (e_in, e_out),
        inside,
        len_in ∙ r.len_in,
        from ∙ r.start_out,
        to_end,
        r.valid,
        r.near,
        left_lens-Revolved s.cursor (revolve s.cursor) v r,
      )
