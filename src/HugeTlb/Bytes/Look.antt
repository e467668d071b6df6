-- ===== src/HugeTlb/Bytes/Look.antt =====
-- What a look at the buffers shows of the input, and that it leaves it as it is.
use yaoi.Base.{◌+◌, ◌-◌, ◌≤◌, ◌≡◌, refl, sym, ap, ◌∙◌, arith, dec_lt, ltb, true, false}
use yaoi.Crates.{Crates, Trace}
use yaoi.Outcome.{ok}
use yaoi.Outcome.Rules.{Post, chain-Post, chain-Post_any}
use yaoi.HugeTlb.{EntHugeTlb, page_size}
use yaoi.HugeTlb.Send.{on_cursor}
use yaoi.HugeTlb.Left.{Slice, InBuffer, revolve, in_buffer, out_buffer, left_bufs_mut}
use yaoi.HugeTlb.Left.Laws.{left_bufs_mut-InPage}
use yaoi.HugeTlb.Left.Steps.{IsUsable}
use yaoi.HugeTlb.Bytes.{Page, window, bytes_of, window-append, window-round, window-bytes_at}
use yaoi.HugeTlb.Bytes.Incoming.{unread, other, held}
use yaoi.HugeTlb.Bytes.Same.{Queues}

module _ (c : Crates) (s : EntHugeTlb c.types) (u : IsUsable c s) where
  -- What a look at the buffers shows.
  bytes-in_buffer :
      (page : Page) (t : Trace c.types)
      → s.cursor.pos_in_start ≤ page_size
      → Post (λ b s'. (s' ≡ s) × (bytes_of page b ≡ held s page)) (in_buffer c s t)
  unfolding in_buffer
  bytes-in_buffer page t near =
      let v = u.in_valid in
      let start = s.cursor.pos_in_start in
      let end = s.cursor.pos_in_end in
      rw u.cap_in (elim (dec_lt page_size end) [
        | yes past ↦
            let e1 : ltb page_size start ≡ false = ground arith in
            let e2 : ltb page_size end ≡ true = ground arith in
            let e_len : unread s.cursor ≡ page_size - start + (end - page_size) = omega arith in
            let e_pos : start + (page_size - start) ≡ 0 + page_size = omega arith in
            rw (e1, e2)
              (
                refl,
                rw (
                  e_len,
                  window-append,
                  e_pos,
                  window-round,
                  window-bytes_at page start (page_size - start) (omega arith),
                  window-bytes_at page 0 (end - page_size) (omega arith),
                ),
              )
        | no inside ↦
            let e0 : ltb page_size start ≡ false = ground arith in
            let e1 : ltb page_size end ≡ false = ground arith in
            let e2 : ltb end start ≡ false = ground arith in
            rw (e0, e1, e2) (refl, rw (window-bytes_at page start (unread s.cursor) (omega arith)))
      ])

module _ (c : Crates) (s : EntHugeTlb c.types) (u : IsUsable c s) (page : Page)
    (t : Trace c.types) where
  -- A revolution leaves the bytes as they are.
  held-revolve : held (on_cursor revolve s) page ≡ held s page
  held-revolve = elim (dec_lt page_size s.cursor.pos_in_start) [
    | yes past ↦
        let v = u.in_valid in
        let e_past : ltb page_size s.cursor.pos_in_start ≡ true = ground arith in
        let e_end : ltb page_size s.cursor.pos_in_end ≡ true = ground arith in
        let e_start : s.cursor.pos_in_start ≡ s.cursor.pos_in_start - page_size + page_size =
          omega arith in
        let e_len : s.cursor.pos_in_end - page_size - (s.cursor.pos_in_start - page_size)
            ≡ unread s.cursor =
          omega arith in
        rw (e_past, e_end, e_len)
          (sym (
            ap (λ a. window page a (unread s.cursor)) e_start
            ∙ window-round page (s.cursor.pos_in_start - page_size) (unread s.cursor)))
    | no near ↦ let e_near : ltb page_size s.cursor.pos_in_start ≡ false = ground arith in rw e_near
  ]

  revolve-IsUsable : IsUsable c (on_cursor revolve s)
  revolve-IsUsable =
      let (_, _, _, _, _, _, _, v, _, _) =
        left_bufs_mut-InPage c s t u.in_valid u.out_valid u.cap_in u.cap_out in
      record {
        in_valid = v;
        out_valid = let w = u.out_valid in ground arith;
        cap_in = u.cap_in;
        cap_out = u.cap_out;
      }

  -- The buffers that are handed out hold the unread bytes.
  pub bytes-left_bufs_mut : Post (λ b s'. bytes_of page b.0 ≡ held s page) (left_bufs_mut c s t)
  unfolding left_bufs_mut
  bytes-left_bufs_mut =
      let (_, _, _, _, _, _, _, _, near, _) =
        left_bufs_mut-InPage c s t u.in_valid u.out_valid u.cap_in u.cap_out in
      let s' = on_cursor revolve s in
      chain-Post _ _ (in_buffer c s' t) _ (bytes-in_buffer c s' revolve-IsUsable page t near)
        λ b s'' t' h. chain-Post_any _ (out_buffer c s'' t') _ λ o _ _. h.1 ∙ held-revolve

module _ (c : Crates) where
  pub looks-Queues :
      (s s' : EntHugeTlb c.types) (page : Page) (t t' : Trace c.types) (b : InBuffer × Slice)
      → IsUsable c s
      → left_bufs_mut c s t ≡ (ok b, s', t')
      → Queues c s page other s' page
  looks-Queues s s' page t t' b u h =
      let (_, _, e, _, _, _, _, _, _, _) =
        left_bufs_mut-InPage c s t u.in_valid u.out_valid u.cap_in u.cap_out in
      let same : s' ≡ on_cursor revolve s = ap (λ x. x.1) (sym h ∙ e) in
      rw same (revolve-IsUsable c s u page t, held-revolve c s u page t)
