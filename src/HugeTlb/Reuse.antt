-- ===== src/HugeTlb/Reuse.antt =====
-- The outgoing buffers that an orbit is given after a send, against those that the send has just handed
-- to the kernel: EntHugeTlb::send_all_out, then left_bufs_mut.
use yaoi.Base.{ℕ, ◌+◌, ◌*◌, ◌≤◌, ◌<◌, ◌≡◌, ◌⊎◌, inl, inr, refl, sym, ap, subst, ◌∙◌, arith, dec_lt}
use yaoi.Crates.{Crates, CrateTypes, Trace}
use yaoi.Outcome.{Outcome, ok, err, panic}
use yaoi.HugeTlb.{EntHugeTlb, buf_size, page_size}
use yaoi.HugeTlb.Send.{on_cursor, send_all_out}
use yaoi.HugeTlb.Send.Laws.{
  OutValid, AfterSend, cursor_sent, out_chunks, send_all_out-cases, send_all_out-OutValid,
}
use yaoi.HugeTlb.Left.{Slice, InBuffer, revolve, left_bufs_mut}
use yaoi.HugeTlb.Left.Laws.{InValid, left_bufs_mut-InPage}
use yaoi.HugeTlb.Left.Steps.{IsUsable}

-- The slice lies behind all that was sent; or it is the whole page, with what was sent inside it and pending.
abbrev pub BehindOrOver : {ty : CrateTypes} → ℕ → EntHugeTlb ty → EntHugeTlb ty → Slice → Type 0
BehindOrOver n s s' o =
    ((s.cursor.idx_out_cur + n < 256)
      × (o.start ≡ (s.cursor.idx_out_cur + n) * buf_size)
      × (s.cursor.pos_out_end ≤ o.start))
    ⊎ ((s.cursor.idx_out_cur + n ≡ 256)
        × (o.start ≡ 0)
        × (o.len ≡ page_size)
        × (s.cursor.pos_out_start < s.cursor.pos_out_end)
        × (s.cursor.pos_out_end ≤ o.len)
        × (s'.cursor.pending_bufs ≡ s.cursor.pending_bufs + n))

abbrev sent_chunks : {ty : CrateTypes} → Outcome ty ℕ → ℕ
sent_chunks (ok n) = n
sent_chunks (err e) = 0
sent_chunks (panic p) = 0

module _ (c : Crates) (fd : ℕ) (s : EntHugeTlb c.types) (t : Trace c.types) (u : IsUsable c s) where
  abbrev sent : EntHugeTlb c.types
  sent = on_cursor cursor_sent s

  sent-BehindOrOver :
      (o : Slice)
      → 0 < out_chunks s.cursor
      → OutValid (cursor_sent s.cursor)
      → o.start ≡ (cursor_sent s.cursor).pos_out_start
      → o.start + o.len ≡ page_size
      → BehindOrOver (out_chunks s.cursor) s sent o
  sent-BehindOrOver o some_left w from to_end =
      let v = u.out_valid in
      elim (dec_lt (s.cursor.idx_out_cur + out_chunks s.cursor) 256) [
        | yes before ↦ inl (before, ground arith, ground arith)
        | no last ↦ inr (omega arith, ground arith, ground arith, omega arith, ground arith, refl)
      ]

  -- On a valid cursor and pages of 2 MiB, after a send of some chunks: the next look at the buffers gives a value. Its
  -- outgoing slice starts at the buffer after the last one sent, so it lies behind all the bytes that were sent; or,
  -- where the last buffer of the page was sent, it is the whole page, which has all of those bytes in it while
  -- their buffers are pending.
  pub left_bufs_mut-send_all_out :
      {n : ℕ} {s' : EntHugeTlb c.types} {t' : Trace c.types}
      → send_all_out c fd s t ≡ (ok n, s', t')
      → 0 < n
      → (b : InBuffer) × (o : Slice) × (left_bufs_mut c s' t'
          ≡ (ok (b, o), on_cursor revolve s', t'))
        × BehindOrOver n s s' o
  left_bufs_mut-send_all_out {n} {s'} {t'} h some_sent =
      elim (send_all_out-cases c fd s t u.out_valid) [
        | inl (_, e) ↦ let none_sent = ap (λ x. sent_chunks x.0) (sym h ∙ e) in absurd (omega arith)
        | inr (inl (_, some_left, e, _)) ↦
            let same : s' ≡ sent = ap (λ x. x.1) (sym h ∙ e) in
            let w : OutValid (cursor_sent s.cursor) =
              (subst (AfterSend s) e (send_all_out-OutValid c fd s t u.out_valid)).0 in
            let v : InValid sent.cursor = let v0 = u.in_valid in omega arith in
            let (b, o, look, _, _, from, to_end, _, _, _) =
              left_bufs_mut-InPage c sent t' v w u.cap_in u.cap_out in
            let count : n ≡ out_chunks s.cursor = ap (λ x. sent_chunks x.0) (sym h ∙ e) in
            rw (same, count) (b, o, look, sent-BehindOrOver o some_left w from to_end)
        | inr (inr (_, (k, x, _, e))) ↦ let clash = ap (λ x. x.0) (sym h ∙ e) in cc
      ]
