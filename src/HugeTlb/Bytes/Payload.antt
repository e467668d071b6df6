-- ===== src/HugeTlb/Bytes/Payload.antt =====
-- The bytes that the calls of EntHugeTlb::send_all_out send from the outgoing page.
use yaoi.Base.{
  ℕ, zero, suc, ◌+◌, ◌-◌, ◌≤◌, ◌<◌, ◌≡◌, ◌⊎◌, inl, inr, refl, sym, ap, ◌∙◌, arith, List, [], ◌∷◌,
  ◌++◌, map, length, append_assoc, true, ◌==◌, if◌then◌else◌,
}
use yaoi.Crates.{Crates, CrateTypes, Trace, add_send_zc_rawbuf}
use yaoi.Outcome.{Outcome, ok, err, bearer}
use yaoi.HugeTlb.{CursorLeft, EntHugeTlb}
use yaoi.HugeTlb.Send.{send_all_out}
use yaoi.HugeTlb.Send.Chunks.{Chunk, chunks_from, chunk_size, Covers}
use yaoi.HugeTlb.Send.Exact.{send_call, sent_calls}
use yaoi.HugeTlb.Send.Laws.{OutValid, out_len, out_chunks, covered, send_all_out-cases}
use yaoi.HugeTlb.Bytes.{Page, bytes_at}

-- The bytes that one call sends on a descriptor, and those of all calls.
abbrev pub payload : {ty : CrateTypes} → Page → ℕ → Trace ty → List ℕ
payload page fd [] = []
payload page fd (add_send_zc_rawbuf fd' offset len buf_ref ∷ ks) =
    (if fd' == fd then bytes_at page offset len else []) ++ payload page fd ks
payload page fd (_ ∷ ks) = payload page fd ks

pub bytes_at-append :
    (page : Page) (a m n : ℕ)
    → bytes_at page a (m + n) ≡ bytes_at page a m ++ bytes_at page (a + m) n
unfolding bytes_at
bytes_at-append page a zero n =
    let e : a + 0 ≡ a = omega arith in let e' : 0 + n ≡ n = omega arith in rw (e, e')
bytes_at-append page a (suc m) n =
    let e : a + 1 + m ≡ a + suc m = omega arith in
    let e_n : suc m + n ≡ suc (m + n) = omega arith in rw (e_n, bytes_at-append page (a + 1) m n, e)

module _ (ty : CrateTypes) (page : Page) (fd : ℕ) where
  -- Chunks that cover a part of the page carry its bytes.
  payload-Covers :
      (a e : ℕ) (ks : List Chunk)
      → Covers a e ks
      → (a ≤ e) × (payload {ty = ty} page fd (map (send_call fd) ks) ≡ bytes_at page a (e - a))
  unfolding bytes_at
  payload-Covers a e [] h = let e_0 : e - a ≡ 0 = omega arith in (omega arith, rw e_0)
  payload-Covers a e (k ∷ ks) (at, _, _, _, rest) =
      let (le, bytes) = payload-Covers (a + k.len) e ks rest in
      let same : (fd == fd) ≡ true = ground arith in
      let e_len : e - a ≡ k.len + (e - (a + k.len)) = omega arith in
      (omega arith, rw (same, at, bytes, e_len, bytes_at-append))

  -- The first chunks carry the first of the bytes.
  payload-chunks_from :
      (m n rem b : ℕ)
      → m ≤ n
      → (rest : List ℕ) × (payload {ty = ty} page fd (map (send_call fd) (chunks_from n rem b))
          ≡ payload {ty = ty} page fd (map (send_call fd) (chunks_from m rem b)) ++ rest)
  unfolding chunks_from
  payload-chunks_from zero n rem b h =
      (payload page fd (map (send_call fd) (chunks_from n rem b)), refl)
  payload-chunks_from (suc m) zero rem b h = absurd (omega arith)
  payload-chunks_from (suc m) (suc n) rem b h =
      let (rest, e) = payload-chunks_from m n (rem - chunk_size rem) (b + 1) (omega arith) in
      (rest, rw (e, append_assoc))

-- How the bytes that are written go out: not at all, for one of the reasons to hold them back; all of them, in
-- order; or, where the bearer refuses a chunk, the first of them, with the refused chunk.
abbrev pub SentBytes :
    {ty : CrateTypes}
    → Page
    → ℕ
    → CursorLeft
    → List ℕ
    → Trace ty
    → Outcome ty ℕ × EntHugeTlb ty × Trace ty
    → Type 0
SentBytes {ty} page fd cur bs t (r, s', t') =
    ((r ≡ ok 0) × (t' ≡ t) × ((bs ≡ []) ⊎ (8192 < cur.pending_sends) ⊎ (5 < cur.pending_bufs)))
    ⊎ ((n : ℕ) × (ks : Trace ty) × (r ≡ ok n)
        × (0 < n)
        × (t' ≡ t ++ ks)
        × (payload page fd ks ≡ bs))
    ⊎ ((e : ty.BearerError) × (ks : Trace ty) × (rest : List ℕ) × (r ≡ err (bearer e))
        × (t' ≡ t ++ ks)
        × (payload page fd ks ++ rest ≡ bs))

length-zero : (xs : List ℕ) → length xs ≡ 0 → xs ≡ []
length-zero [] h = refl
length-zero (x ∷ xs) h = absurd (omega arith)

pub SentBytes-pending :
    {ty : CrateTypes} (page : Page) (fd : ℕ) (cur cur' : CursorLeft) (bs : List ℕ) (t : Trace ty)
    (r : Outcome ty ℕ × EntHugeTlb ty × Trace ty)
    → cur'.pending_sends ≡ cur.pending_sends
    → cur'.pending_bufs ≡ cur.pending_bufs
    → SentBytes page fd cur' bs t r
    → SentBytes page fd cur bs t r
SentBytes-pending page fd cur cur' bs t (r, s', t') e g (inl (a, b, inl x)) = inl (a, b, inl x)
SentBytes-pending page fd cur cur' bs t (r, s', t') e g (inl (a, b, inr (inl x))) =
    inl (a, b, inr (inl (omega arith)))
SentBytes-pending page fd cur cur' bs t (r, s', t') e g (inl (a, b, inr (inr x))) =
    inl (a, b, inr (inr (omega arith)))
SentBytes-pending page fd cur cur' bs t (r, s', t') e g (inr x) = inr x

module _ (c : Crates) (fd : ℕ) (s : EntHugeTlb c.types) (page : Page) where
  -- What a send of all the output carries.
  pub all_bytes :
      OutValid s.cursor
      → payload {ty = c.types} page fd
          (sent_calls c fd (out_chunks s.cursor) (out_len s.cursor) s.cursor.idx_out_cur)
        ≡ bytes_at page s.cursor.pos_out_start (out_len s.cursor)
  all_bytes v = (payload-Covers c.types page fd _ _ _ (covered c fd s [] v)).1

module _ (c : Crates) (fd : ℕ) (s : EntHugeTlb c.types) (t : Trace c.types) (page : Page)
    (bs : List ℕ) where
  carried :
      OutValid s.cursor
      → out_len s.cursor ≡ length bs
      → bytes_at page s.cursor.pos_out_start (length bs) ≡ bs
      → payload {ty = c.types} page fd
          (sent_calls c fd (out_chunks s.cursor) (out_len s.cursor) s.cursor.idx_out_cur)
        ≡ bs
  carried v len bytes =
      all_bytes c fd s page v ∙ ap (bytes_at page s.cursor.pos_out_start) len ∙ bytes

  pub send_all_out-bytes :
      OutValid s.cursor
      → out_len s.cursor ≡ length bs
      → bytes_at page s.cursor.pos_out_start (length bs) ≡ bs
      → SentBytes page fd s.cursor bs t (send_all_out c fd s t)
  send_all_out-bytes v len bytes = elim (send_all_out-cases c fd s t v) [
    | inl (inl no_bytes, h) ↦
        inl (ap (λ x. x.0) h, ap (λ x. x.2) h, inl (length-zero bs (omega arith)))
    | inl (inr many, h) ↦ inl (ap (λ x. x.0) h, ap (λ x. x.2) h, inr many)
    | inr (inl (o, some_left, h, _)) ↦ inr (
        inl (
          out_chunks s.cursor,
          sent_calls c fd (out_chunks s.cursor) (out_len s.cursor) s.cursor.idx_out_cur,
          ap (λ x. x.0) h,
          some_left,
          ap (λ x. x.2) h,
          carried v len bytes,
        ))
    | inr (inr (o, (k, e, lt, h))) ↦
        let (rest, split) =
          payload-chunks_from c.types page fd (suc k) (out_chunks s.cursor) (out_len s.cursor)
            s.cursor.idx_out_cur (omega arith) in
        inr (
          inr (
            e,
            sent_calls c fd (suc k) (out_len s.cursor) s.cursor.idx_out_cur,
            rest,
            ap (λ x. x.0) h,
            ap (λ x. x.2) h,
            sym split ∙ carried v len bytes,
          ))
  ]
