-- ===== src/HugeTlb/Bytes/Same.antt =====
-- What one operation on a stream does to the bytes of its input: a completion, a change of the lengths,
-- and those that leave it alone.
use yaoi.Base.{ℕ, ◌+◌, ◌-◌, ◌≤◌, ◌≡◌, refl, sym, ap, ◌∙◌, arith, inl, inr, List, length, some}
use mathlib.Core.Option.{none-ne-some}
use yaoi.Crates.{Crates, Trace}
use yaoi.Outcome.Rules.{Post}
use yaoi.Outcome.Keeps.{Sound-Post}
use yaoi.Cmaps.{MapSentZc, MapRecvMulti}
use yaoi.HugeTlb.{EntHugeTlb, page_size}
use yaoi.HugeTlb.Send.{send_all_out}
use yaoi.HugeTlb.Send.Laws.{OutValid, send_all_out-cases}
use yaoi.HugeTlb.Recv.{cb_recv_multi, sent_zc, cb_recv_multi_lem}
use yaoi.HugeTlb.Free.{try_free_buffers}
use yaoi.HugeTlb.Kept
use yaoi.HugeTlb.Left.{left_lens, set_lens_cursor, left_set_lens}
use yaoi.HugeTlb.Left.Laws.{left_set_lens-left_lens}
use yaoi.HugeTlb.Left.Steps.{IsUsable}
use yaoi.HugeTlb.Bytes.{Page, put, window-put_before, window-put, window-append, window-drop}
use yaoi.HugeTlb.Bytes.Incoming.{unread, Event, arrived, taken, other, held, queue_after}

-- The input is where it was, on the same pages, and the output is still valid.
pub record SameInput (c : Crates) (s s' : EntHugeTlb c.types) : Type 0 where
  start : s'.cursor.pos_in_start ≡ s.cursor.pos_in_start
  end : s'.cursor.pos_in_end ≡ s.cursor.pos_in_end
  page_in : s'.hugetbl_in ≡ s.hugetbl_in
  page_out : s'.hugetbl_out ≡ s.hugetbl_out
  valid : OutValid s'.cursor

-- What one step does to the queue of bytes.
abbrev pub Queues :
    (c : Crates) → EntHugeTlb c.types → Page → Event → EntHugeTlb c.types → Page → Type 0
Queues c s page e s' page' = IsUsable c s' × (held s' page' ≡ queue_after e (held s page))

module _ (c : Crates) (s : EntHugeTlb c.types) (u : IsUsable c s) where
  pub same-Queues :
      (s' : EntHugeTlb c.types) (page : Page) → SameInput c s s' → Queues c s page other s' page
  same-Queues s' page h =
      let v = u.in_valid in
      let e_start = h.start in
      let e_end = h.end in
      (
        record {
          in_valid = omega arith;
          out_valid = h.valid;
          cap_in = ap c.capacity h.page_in ∙ u.cap_in;
          cap_out = ap c.capacity h.page_out ∙ u.cap_out;
        },
        rw (e_start, e_end),
      )

  pub frees-Same : (t : Trace c.types) → Post (λ _ s'. SameInput c s s') (try_free_buffers s t)
  frees-Same t =
      Sound-Post (λ _ s'. SameInput c s s') (try_free_buffers s t)
        (Kept.try_free_buffers-Keeps (SameInput c s)
          (λ i x h. record {
            start = h.start;
            end = h.end;
            page_in = h.page_in;
            page_out = h.page_out;
            valid = let w = h.valid in omega arith;
          })
          s t
          (record {
            start = refl;
            end = refl;
            page_in = refl;
            page_out = refl;
            valid = u.out_valid;
          }))

  pub sends-Same :
      (t : Trace c.types) (fd : ℕ) → Post (λ _ s'. SameInput c s s') (send_all_out c fd s t)
  sends-Same t fd = elim (send_all_out-cases c fd s t u.out_valid) [
    | inl (_, h) ↦
        rw h (record {
          start = refl;
          end = refl;
          page_in = refl;
          page_out = refl;
          valid = u.out_valid;
        })
    | inr (inl (o, some_left, h, _)) ↦
        let v = u.out_valid in
        rw h (record {
          start = refl;
          end = refl;
          page_in = refl;
          page_out = refl;
          valid = ground arith;
        })
    | inr (inr (o, (k, e, _, h))) ↦ rw h tt
  ]

  pub settles-Same :
      (t : Trace c.types) (z : MapSentZc) → Post (λ _ s'. SameInput c s s') (sent_zc z s t)
  unfolding sent_zc
  settles-Same t z = record {
    start = refl;
    end = refl;
    page_in = refl;
    page_out = refl;
    valid = let w = u.out_valid in omega arith;
  }

  pub receives-Queues :
      (page : Page) (t : Trace c.types) (r : MapRecvMulti) (b : ℕ) (bs : List ℕ)
      → r.buf_id ≡ some b
      → r.buf_len ≡ length bs
      → unread s.cursor + length bs ≤ page_size
      → Post
          (λ _ s'. Queues c s page (arrived bs) s' (put page s.cursor.pos_in_end bs))
          (cb_recv_multi r s t)
  receives-Queues page t r b bs id len room =
      let v = u.in_valid in
      elim (cb_recv_multi_lem r s t (omega arith)) [
        | inl (none_left, _) ↦ absurd (none-ne-some b (sym none_left ∙ id))
        | inr (inl (_, _, _, h)) ↦
            let w = u.out_valid in
            let cur = s.cursor in
            let e_end : cur.pos_in_end + r.buf_len - cur.pos_in_start ≡ unread cur + length bs =
              omega arith in
            let e_pos : cur.pos_in_start + unread cur ≡ cur.pos_in_end = omega arith in
            rw h (
              record {
                in_valid = omega arith;
                out_valid = omega arith;
                cap_in = u.cap_in;
                cap_out = u.cap_out;
              },
              rw (
                e_end,
                window-append,
                e_pos,
                window-put_before page cur.pos_in_start (unread cur) cur.pos_in_end bs (omega arith)
                    (omega arith),
                window-put page cur.pos_in_end bs (omega arith),
              ),
            )
        | inr (inr (_, _, _, h)) ↦ rw h tt
      ]

  reads_front :
      (new_in new_out : ℕ)
      → new_in ≤ unread s.cursor
      → let cur = set_lens_cursor new_in new_out s.cursor in
        (cur.pos_in_start ≡ s.cursor.pos_in_start + (unread s.cursor - new_in))
        × (unread cur ≡ unread s.cursor - (unread s.cursor - new_in))
  unfolding set_lens_cursor left_lens
  reads_front new_in new_out less = let v = u.in_valid in (ground arith, ground arith)

  pub reads-Queues :
      (page : Page) (t : Trace c.types) (new_in new_out : ℕ)
      → new_in ≤ unread s.cursor
      → new_out ≤ page_size
      → Post
          (λ _ s'. Queues c s page (taken (unread s.cursor - new_in)) s' page)
          (left_set_lens c new_in new_out s t)
  reads-Queues page t new_in new_out less small =
      let v = u.in_valid in
      elim (left_set_lens-left_lens c s t new_in new_out v u.out_valid u.cap_in (omega arith)
        small) [
          | inl (_, _, h, _, v', w') ↦
              let (e_start, e_len) = reads_front new_in new_out less in
              rw h (
                record { in_valid = v'; out_valid = w'; cap_in = u.cap_in; cap_out = u.cap_out },
                rw (e_len, e_start)
                    (window-drop page s.cursor.pos_in_start (unread s.cursor)
                      (unread s.cursor - new_in) (omega arith)),
              )
          | inr (inl (_, h)) ↦ rw h tt
          | inr (inr (_, h)) ↦ rw h tt
        ]
