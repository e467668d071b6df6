-- ===== src/HugeTlb/Send/Exact.antt =====
-- What the loop over the chunks does, whatever the bearer answers.
use yaoi.Base.{
  ℕ, zero, suc, ◌+◌, ◌-◌, ◌*◌, ◌^◌, ◌≤◌, ◌<◌, ◌≡◌, ◌≢◌, ◌⊎◌, refl, ◌∙◌, arith, [], ◌∷◌, ◌++◌, map,
  add_usize, add_u16, sub_usize, ◌==◌, if◌then◌else◌, append_assoc, append-nil, Bool-cases, inl,
  inr,
}
use yaoi.Crates.{Crates, CrateTypes, Trace, Call, Reply, done, failed, add_send_zc_rawbuf}
use yaoi.Outcome.{Outcome, ok, err, bearer}
use yaoi.HugeTlb.{CursorLeft, EntHugeTlb, buf_size, page_size}
use yaoi.HugeTlb.Send.Chunks.{Chunk, chunk_size, chunks_from}
use yaoi.HugeTlb.Send.{
  send_chunk, add_pending, enter_buf, Flow, returned, finished, on_cursor, div_ceil, send_chunks,
}

abbrev pub send_call : {ty : CrateTypes} → ℕ → Chunk → Call ty
send_call fixed_fd k = add_send_zc_rawbuf fixed_fd k.offset k.len k.offset

-- The cursor after `n` chunks, the last of which ends before buffer `b`.
abbrev pub cursor_after : ℕ → ℕ → ℕ → CursorLeft → CursorLeft
cursor_after n rem b cur = record cur {
  pos_out_start = if b + n == 256 then 0 else (b + n) * buf_size;
  pos_out_end = if b + n == 256 then 0 else (b + n) * buf_size;
  idx_out_cur = if b + n == 256 then 0 else cur.idx_out_cur;
  pending_sends = cur.pending_sends + rem;
  pending_bufs = cur.pending_bufs + n;
}

abbrev pub flow_after : ℕ → ℕ → Flow
flow_after n b = if b + n == 256 then returned else finished (b + n)

-- The cursor after `k` full chunks and a refusal of the next: `idx_out_cur` is as it was.
abbrev pub cursor_stuck : ℕ → ℕ → CursorLeft → CursorLeft
cursor_stuck k b cur = record cur {
  pos_out_start = (b + k) * buf_size;
  pending_sends = cur.pending_sends + k * buf_size;
  pending_bufs = cur.pending_bufs + k;
}

-- What holds where `n` chunks of `rem` bytes are left, from buffer `b` on.
pub record Ready (total n rem sent b : ℕ) (cur : CursorLeft) : Type 0 where
  pub split : sent + rem ≡ total
  pub count : n ≡ div_ceil rem buf_size
  pub buf_in : b < 256
  pub fits : b * buf_size + rem ≤ page_size
  pub short : total ≤ page_size
  pub starts : cur.pos_out_start ≡ b * buf_size
  pub ends : cur.pos_out_end ≡ b * buf_size + rem
  pub sends_small : cur.pending_sends + rem ≤ 2 ^ 32
  pub bufs_small : cur.pending_bufs + n ≤ 2 ^ 32

module _ (c : Crates) (fixed_fd : ℕ) where
  abbrev pub chunk_call : ℕ → ℕ → Call c.types
  chunk_call b len = add_send_zc_rawbuf fixed_fd (b * buf_size) len (b * buf_size)

  abbrev pub sent_calls : ℕ → ℕ → ℕ → Trace c.types
  sent_calls n rem b = map (send_call fixed_fd) (chunks_from n rem b)

  -- All chunks are taken, or the bearer refuses the one after the first `k`.
  abbrev pub AllSent :
      ℕ
      → ℕ
      → ℕ
      → EntHugeTlb c.types
      → Trace c.types
      → Outcome c.types Flow × EntHugeTlb c.types × Trace c.types
      → Type 0
  AllSent n rem b s t r =
      r ≡ (ok (flow_after n b), on_cursor (cursor_after n rem b) s, t ++ sent_calls n rem b)

  abbrev pub SendRefused :
      ℕ
      → ℕ
      → ℕ
      → EntHugeTlb c.types
      → Trace c.types
      → Outcome c.types Flow × EntHugeTlb c.types × Trace c.types
      → Type 0
  SendRefused n rem b s t r =
      (k : ℕ) × (e : c.BearerError) × (k < n)
      × (c.bearer (t ++ sent_calls k rem b) (chunk_call (b + k) (chunk_size (rem - k * buf_size)))
          ≡ failed e)
      × (r ≡ (err (bearer e), on_cursor (cursor_stuck k b) s, t ++ sent_calls (suc k) rem b))

  reply_cases :
      (t : Trace c.types) (k : Call c.types)
      → ((n : ℕ) × (c.bearer t k ≡ done n)) ⊎ ((e : c.BearerError) × (c.bearer t k ≡ failed e))
  reply_cases t k = go (c.bearer t k) refl
    where
      go :
          (r : Reply c.BearerError ℕ)
          → c.bearer t k ≡ r
          → ((n : ℕ) × (c.bearer t k ≡ done n)) ⊎ ((e : c.BearerError) × (c.bearer t k ≡ failed e))
      go (done n) h = inl (n, h)
      go (failed e) h = inr (e, h)

  send_chunk-taken :
      (b len : ℕ) (s : EntHugeTlb c.types) (t : Trace c.types) {n : ℕ}
      → s.cursor.pos_out_start ≡ b * buf_size
      → c.bearer t (chunk_call b len) ≡ done n
      → send_chunk c fixed_fd b len s t
        ≡ (ok tt, on_cursor (add_pending len) s, t ++ chunk_call b len ∷ [])
  unfolding send_chunk
  send_chunk-taken b len s t h taken = rw (h, taken)

  send_chunk-refused :
      (b len : ℕ) (s : EntHugeTlb c.types) (t : Trace c.types) {e : c.BearerError}
      → s.cursor.pos_out_start ≡ b * buf_size
      → c.bearer t (chunk_call b len) ≡ failed e
      → send_chunk c fixed_fd b len s t ≡ (err (bearer e), s, t ++ chunk_call b len ∷ [])
  unfolding send_chunk
  send_chunk-refused b len s t h refused = simp (h, refused)

  -- The step past a chunk that is not the last of the page.
  Ready-next :
      (total n rem sent b : ℕ) (cur : CursorLeft)
      → Ready total (suc n) rem sent b cur
      → b ≢ 255
      → Ready total n
          (rem - chunk_size rem)
          (sent + chunk_size rem)
          (b + 1)
          (enter_buf (b + 1) (add_pending (chunk_size rem) cur))
  Ready-next total n rem sent b cur v ne = ground arith

  module _ (n rem b : ℕ) (s : EntHugeTlb c.types) (t : Trace c.types) where
    abbrev entered : EntHugeTlb c.types
    entered = on_cursor (enter_buf (b + 1)) (on_cursor (add_pending (chunk_size rem)) s)

    abbrev after_call : Trace c.types
    after_call = t ++ chunk_call b (chunk_size rem) ∷ []

    AllSent-next :
        {total sent : ℕ} {r : Outcome c.types Flow × EntHugeTlb c.types × Trace c.types}
        → Ready total (suc n) rem sent b s.cursor
        → b ≢ 255
        → AllSent n (rem - chunk_size rem) (b + 1) entered after_call r
        → AllSent (suc n) rem b s t r
    unfolding chunks_from
    AllSent-next v ne h = h ∙ rw append_assoc (ground arith)

    SendRefused-next :
        {total sent : ℕ} {r : Outcome c.types Flow × EntHugeTlb c.types × Trace c.types}
        → Ready total (suc n) rem sent b s.cursor
        → b ≢ 255
        → SendRefused n (rem - chunk_size rem) (b + 1) entered after_call r
        → SendRefused (suc n) rem b s t r
    unfolding chunks_from
    SendRefused-next v ne (k, e, lt, refused, h) =
        let e_b : b + 1 + k ≡ b + suc k = omega arith in
        let e_rem : rem - chunk_size rem - k * buf_size ≡ rem - suc k * buf_size = ground arith in
        (
          suc k,
          e,
          omega arith,
          rw (← e_b, ← e_rem) (rw append_assoc at refused),
          h ∙ rw append_assoc (ground arith),
        )

  pub send_chunks-cases :
      (total n rem sent b : ℕ) (s : EntHugeTlb c.types) (t : Trace c.types)
      → Ready total n rem sent b s.cursor
      → let r = send_chunks c fixed_fd total n sent b s t in
        AllSent n rem b s t r ⊎ SendRefused n rem b s t r
  unfolding send_chunks chunks_from
  send_chunks-cases total zero rem sent b s t v = inl (rw append-nil (ground arith))
  send_chunks-cases total (suc n) rem sent b s t v =
      let e_rem : sub_usize total sent ≡ rem = omega arith in
      rw e_rem (elim (reply_cases t (chunk_call b (chunk_size rem))) [
        | inl (_, taken) ↦
            rw (send_chunk-taken b (chunk_size rem) s t v.starts taken)
              (elim (Bool-cases (b == 255)) [
                | inl last ↦ inl (let e_n : n ≡ 0 = ground arith in rw (last, e_n) (ground arith))
                | inr more ↦
                    let ne : b ≢ 255 = ground arith in
                    let e_sent : add_usize sent (chunk_size rem) ≡ sent + chunk_size rem =
                      ground arith in
                    let e_b : add_u16 b 1 ≡ b + 1 = ground arith in
                    rw (more, e_sent, e_b)
                      (elim (send_chunks-cases total n (rem - chunk_size rem)
                        (sent + chunk_size rem) (b + 1) (entered n rem b s t)
                        (after_call n rem b s t) (Ready-next total n rem sent b s.cursor v ne)) [
                          | inl h ↦ inl (AllSent-next n rem b s t v ne h)
                          | inr h ↦ inr (SendRefused-next n rem b s t v ne h)
                        ])
              ])
        | inr (e, refused) ↦ rw (send_chunk-refused b (chunk_size rem) s t v.starts refused) (
            let e_b : b + 0 ≡ b = omega arith in
            let e_0 : rem - 0 ≡ rem = omega arith in
            inr (0, e, omega arith, rw (append-nil, e_b, e_0) refused, ground arith))
      ])
