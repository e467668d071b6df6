-- ===== src/HugeTlb/Send/Laws.antt =====
-- What `send_all_out` does on a valid cursor: nothing, all of the bytes, or all up to a refusal.
use yaoi.Base.{
  ℕ, suc, ◌+◌, ◌-◌, ◌*◌, ◌≤◌, ◌<◌, ◌≡◌, ◌⊎◌, inl, inr, refl, sym, subst, arith, ◌++◌, ltb, ◌==◌,
  if◌then◌else◌, Bool-cases,
}
use yaoi.Crates.{Crates, CrateTypes, Trace}
use yaoi.Outcome.{chain, Outcome, ok, err, bearer, panic}
use yaoi.HugeTlb.{CursorLeft, EntHugeTlb, buf_size, page_size}
use yaoi.HugeTlb.Send.{
  on_cursor, div_ceil, total_out, first_buf, send_chunks, finish_send, send_all_out,
}
use yaoi.HugeTlb.Send.Chunks.{chunks_from, Covers, chunks_from-Covers}
use yaoi.HugeTlb.Send.Exact.{cursor_after, cursor_stuck, flow_after, sent_calls, send_chunks-cases}

-- The outgoing half of the cursor: its start is the start of the current buffer.
pub record OutValid (cur : CursorLeft) : Type 0 where
  pub aligned : cur.pos_out_start ≡ cur.idx_out_cur * buf_size
  pub idx_in : cur.idx_out_cur < 256
  pub ordered : cur.pos_out_start ≤ cur.pos_out_end
  pub fits : cur.pos_out_end ≤ page_size

-- Neither limit on what is pending holds sends back.
pub record IsOpen (cur : CursorLeft) : Type 0 where
  pub sends_few : cur.pending_sends ≤ 8192
  pub bufs_few : cur.pending_bufs ≤ 5

abbrev pub out_len : CursorLeft → ℕ
out_len cur = cur.pos_out_end - cur.pos_out_start

abbrev pub out_chunks : CursorLeft → ℕ
out_chunks cur = div_ceil (out_len cur) buf_size

-- The cursor once all is sent: the next buffer, or the first after the last.
abbrev pub cursor_sent : CursorLeft → CursorLeft
cursor_sent cur =
    let next = cur.idx_out_cur + out_chunks cur in
    record (cursor_after (out_chunks cur) (out_len cur) cur.idx_out_cur cur) {
      idx_out_cur = if next == 256 then 0 else next;
    }

module _ (c : Crates) (fixed_fd : ℕ) (s : EntHugeTlb c.types) (t : Trace c.types) where
  abbrev calls : ℕ → Trace c.types
  calls n = sent_calls c fixed_fd n (out_len s.cursor) s.cursor.idx_out_cur

  -- Nothing to send, or too much pending.
  abbrev pub Held : Outcome c.types ℕ × EntHugeTlb c.types × Trace c.types → Type 0
  Held r =
      ((out_len s.cursor ≡ 0) ⊎ (8192 < s.cursor.pending_sends) ⊎ (5 < s.cursor.pending_bufs))
      × (r ≡ (ok 0, s, t))

  abbrev pub Sent : Outcome c.types ℕ × EntHugeTlb c.types × Trace c.types → Type 0
  Sent r =
      IsOpen s.cursor
      × (0 < out_chunks s.cursor)
      × (r ≡ (ok (out_chunks s.cursor), on_cursor cursor_sent s, t ++ calls (out_chunks s.cursor)))
      × Covers s.cursor.pos_out_start s.cursor.pos_out_end
          (chunks_from (out_chunks s.cursor) (out_len s.cursor) s.cursor.idx_out_cur)

  -- The bearer refused the chunk after the first `k`. The start has gone past those `k`, and
  -- `idx_out_cur` has not.
  abbrev pub Refused : Outcome c.types ℕ × EntHugeTlb c.types × Trace c.types → Type 0
  Refused r =
      IsOpen s.cursor
      × ((k : ℕ) × (e : c.BearerError) × (k < out_chunks s.cursor)
          × (r ≡ (
            err (bearer e),
            on_cursor (cursor_stuck k s.cursor.idx_out_cur) s,
            t ++ calls (suc k),
          )))

  finished_lem :
      finish_send
        (out_chunks s.cursor)
        (flow_after (out_chunks s.cursor) s.cursor.idx_out_cur)
        (on_cursor (cursor_after (out_chunks s.cursor) (out_len s.cursor) s.cursor.idx_out_cur) s)
        (t ++ calls (out_chunks s.cursor))
      ≡ (ok (out_chunks s.cursor), on_cursor cursor_sent s, t ++ calls (out_chunks s.cursor))
  unfolding finish_send
  finished_lem = elim (Bool-cases (s.cursor.idx_out_cur + out_chunks s.cursor == 256)) [
    | inl last ↦ rw last
    | inr more ↦ rw more
  ]

  pub covered :
      OutValid s.cursor
      → Covers s.cursor.pos_out_start s.cursor.pos_out_end
          (chunks_from (out_chunks s.cursor) (out_len s.cursor) s.cursor.idx_out_cur)
  covered v =
      let ends : s.cursor.idx_out_cur * buf_size + out_len s.cursor ≡ s.cursor.pos_out_end =
        omega arith in
      let ks = chunks_from (out_chunks s.cursor) (out_len s.cursor) s.cursor.idx_out_cur in
      subst (λ x. Covers x s.cursor.pos_out_end ks) (sym v.aligned)
        (subst (λ x. Covers (s.cursor.idx_out_cur * buf_size) x ks) ends
          (chunks_from-Covers (out_chunks s.cursor) (out_len s.cursor) s.cursor.idx_out_cur refl))

  rest-cases :
      OutValid s.cursor
      → IsOpen s.cursor
      → 0 < out_len s.cursor
      → let r =
          chain
            (send_chunks c fixed_fd
              (out_len s.cursor)
              (out_chunks s.cursor)
              0
              s.cursor.idx_out_cur
              s
              t)
            (finish_send (out_chunks s.cursor)) in
        Sent r ⊎ Refused r
  rest-cases v o more =
      elim (send_chunks-cases c fixed_fd (out_len s.cursor) (out_chunks s.cursor) (out_len s.cursor)
        0 s.cursor.idx_out_cur s t (ground arith)) [
          | inl h ↦ inl (o, omega arith, rw h finished_lem, covered v)
          | inr (k, e, lt, _, h) ↦ inr (o, (k, e, lt, rw h))
        ]

  -- Whatever the bearer answers, `send_all_out` on a valid cursor holds back and changes nothing,
  -- or sends chunks that cover the outgoing bytes exactly and moves on to the next buffer, or stops
  -- at the first chunk that the bearer refuses.
  pub send_all_out-cases :
      OutValid s.cursor → let r = send_all_out c fixed_fd s t in Held r ⊎ Sent r ⊎ Refused r
  unfolding send_all_out
  send_all_out-cases v =
      let e_total : total_out s.cursor ≡ out_len s.cursor = unfold total_out in (omega arith) in
      let e_first : first_buf s.cursor ≡ s.cursor.idx_out_cur = omega arith in
      rw (e_total, e_first)
        (elim (Bool-cases (ltb 8192 s.cursor.pending_sends)) [
          | inl many ↦ inl (inr (inl (ground arith)), rw many)
          | inr few ↦ rw few (elim (Bool-cases (ltb 5 s.cursor.pending_bufs)) [
            | inl many ↦ inl (inr (inr (ground arith)), rw many)
            | inr few_bufs ↦ rw few_bufs (elim (Bool-cases (out_len s.cursor == 0)) [
              | inl none_left ↦ inl (inl (ground arith), rw none_left)
              | inr more ↦ rw more (inr (rest-cases v (ground arith) (ground arith)))
            ])
          ])
        ])

-- What a caller relies on after a send: a result keeps the cursor valid and counts one more pending
-- buffer for each chunk; an error is the bearer's; there is no panic.
abbrev pub AfterSend :
    {ty : CrateTypes} → EntHugeTlb ty → Outcome ty ℕ × EntHugeTlb ty × Trace ty → Type 0
AfterSend s (ok n, s', _) =
    OutValid s'.cursor
    × (s'.cursor.pending_bufs ≡ s.cursor.pending_bufs + n)
    × ((n ≡ 0) ⊎ (s.cursor.pending_bufs ≤ 5))
AfterSend {ty} s (err e, s', _) =
    ((b : ty.BearerError) × (e ≡ bearer b)) × (s.cursor.pending_bufs ≤ s'.cursor.pending_bufs)
AfterSend s (panic p, _, _) = ⊥

-- Whatever the bearer answers, on a valid cursor: a send that returns `n` leaves a valid cursor with `n` more pending
-- buffers, and returns 0 where more than five were pending; it fails only with the bearer's error,
-- and does not panic.
pub send_all_out-OutValid :
    (c : Crates) (fixed_fd : ℕ) (s : EntHugeTlb c.types) (t : Trace c.types)
    → OutValid s.cursor
    → AfterSend s (send_all_out c fixed_fd s t)
send_all_out-OutValid c fixed_fd s t v = elim (send_all_out-cases c fixed_fd s t v) [
  | inl (_, h) ↦ rw h (v, omega arith, inl refl)
  | inr (inl (o, some_left, h, _)) ↦ rw h (ground arith, omega arith, inr o.bufs_few)
  | inr (inr (o, (k, e, _, h))) ↦ rw h ((e, refl), omega arith)
]
