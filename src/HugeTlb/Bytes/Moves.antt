-- ===== src/HugeTlb/Bytes/Moves.antt =====
-- What one operation on a stream does to the bytes of its output: a change of the lengths, a send, and
-- those that leave it alone.
use yaoi.Base.{
  ℕ, ◌+◌, ◌-◌, ◌≤◌, ◌≡◌, refl, sym, ap, subst, ◌∙◌, arith, inl, inr, List, [], ◌∷◌, ◌++◌, length,
  append-nil,
}
use yaoi.Crates.{Crates, CrateTypes, Trace}
use yaoi.Outcome.{ok}
use yaoi.Outcome.Rules.{Post}
use yaoi.HugeTlb.{EntHugeTlb, page_size}
use yaoi.HugeTlb.Send.{on_cursor, send_all_out}
use yaoi.HugeTlb.Send.Laws.{
  OutValid, out_len, cursor_sent, send_all_out-cases, send_all_out-OutValid, AfterSend,
}
use yaoi.HugeTlb.Kept
use yaoi.HugeTlb.Left.{left_lens, set_lens_cursor, left_set_lens}
use yaoi.HugeTlb.Left.Steps.{LeftStep, sets_lens}
use yaoi.HugeTlb.Left.Steps.Keep.{WasSet, left_set_lens-WasSet, step-Outward}
use yaoi.HugeTlb.Bytes.{Page, put, window, bytes_at, window-put_before, window-put, window-bytes_at}
use yaoi.HugeTlb.Bytes.Payload.{payload, bytes_at-append, all_bytes}

-- The bytes that wait to be sent.
abbrev pub waiting : {ty : CrateTypes} → EntHugeTlb ty → Page → List ℕ
waiting s page = bytes_at page s.cursor.pos_out_start (out_len s.cursor)

-- The output is where it was, on an incoming page of the same size.
pub record SameOutput (c : Crates) (s s' : EntHugeTlb c.types) : Type 0 where
  pub start : s'.cursor.pos_out_start ≡ s.cursor.pos_out_start
  pub end : s'.cursor.pos_out_end ≡ s.cursor.pos_out_end
  pub idx : s'.cursor.idx_out_cur ≡ s.cursor.idx_out_cur
  pub page_in : s'.hugetbl_in ≡ s.hugetbl_in

pub SameOutput-refl : (c : Crates) (s : EntHugeTlb c.types) → SameOutput c s s
SameOutput-refl c s = record { start = refl; end = refl; idx = refl; page_in = refl }

pub SameOutput-IsOutward : (c : Crates) (s : EntHugeTlb c.types) → Kept.IsOutward (SameOutput c s)
SameOutput-IsOutward c s = record {
  by_end = λ pos x h. record { start = h.start; end = h.end; idx = h.idx; page_in = h.page_in };
  by_reuse = λ i x h. record { start = h.start; end = h.end; idx = h.idx; page_in = h.page_in };
  by_settle = λ z x h. record { start = h.start; end = h.end; idx = h.idx; page_in = h.page_in };
}

-- What one step does to the queue, and what it needs of the next.
abbrev pub Moves :
    (c : Crates) → EntHugeTlb c.types → Page → List ℕ → List ℕ → EntHugeTlb c.types → Page → Type 0
Moves c s page bs out s' page' =
    OutValid s'.cursor
    × (c.capacity s'.hugetbl_in ≡ page_size)
    × (waiting s page ++ bs ≡ out ++ waiting s' page')

abbrev tail : {A : Type 0} → List A → List A
tail [] = []
tail (x ∷ xs) = xs

append_cancel : {A : Type 0} (xs ys zs : List A) → xs ++ ys ≡ xs ++ zs → ys ≡ zs
append_cancel [] ys zs h = h
append_cancel (x ∷ xs) ys zs h = append_cancel xs ys zs (ap tail h)

-- Bytes that are written behind those of a part of the page.
bytes_at-put :
    (page : Page) (start end : ℕ) (bs : List ℕ)
    → start ≤ end
    → end + length bs ≤ page_size
    → bytes_at (put page end bs) start (end - start + length bs)
      ≡ bytes_at page start (end - start) ++ bs
bytes_at-put page start end bs le fits =
    let page' = put page end bs in
    let e_pos : start + (end - start) ≡ end = omega arith in
    let before : window page' start (end - start) ≡ window page start (end - start) =
      window-put_before page start (end - start) end bs (omega arith) (omega arith) in
    rw (
      bytes_at-append page' start (end - start) (length bs),
      e_pos,
      ← window-bytes_at page' start (end - start) (omega arith),
      ← window-bytes_at page' end (length bs) fits,
      window-put page end bs (omega arith),
      before,
      window-bytes_at page start (end - start) (omega arith),
    )

module _ (c : Crates) (fd : ℕ) (s : EntHugeTlb c.types) (page : Page) (v : OutValid s.cursor)
    (size : c.capacity s.hugetbl_in ≡ page_size) where
  pub writes-Moves :
      (s' : EntHugeTlb c.types) (t : Trace c.types) (bs : List ℕ) (new_in : ℕ)
      → s.cursor.pos_out_end + length bs ≤ page_size
      → new_in ≤ page_size
      → left_set_lens c new_in (out_len s.cursor + length bs) s t ≡ (ok tt, s', t)
      → Moves c s page bs [] s' (put page s.cursor.pos_out_end bs)
  unfolding set_lens_cursor left_lens
  writes-Moves s' t bs new_in fits small h =
      let new_out = out_len s.cursor + length bs in
      let was : WasSet c s new_in new_out s' =
        subst (Post (λ _ x. WasSet c s new_in new_out x)) h
          (left_set_lens-WasSet c s t new_in new_out) in
      let step : LeftStep c s s' = sets_lens {t = t} new_in new_out small (omega arith) h in
      let (same, v') = step-Outward c step size v in
      let start = same.out_start in
      let end : s'.cursor.pos_out_end ≡ s.cursor.pos_out_end + length bs =
        rw was.1 (ground arith) in
      let len : out_len s'.cursor ≡ s.cursor.pos_out_end - s.cursor.pos_out_start + length bs =
        omega arith in
      (
        v',
        ap c.capacity same.page_in ∙ size,
        rw (len, start)
            (sym (bytes_at-put page s.cursor.pos_out_start s.cursor.pos_out_end bs v.ordered fits)),
      )

  pub same-Moves : (s' : EntHugeTlb c.types) → SameOutput c s s' → Moves c s page [] [] s' page
  same-Moves s' h =
      let e_start = h.start in
      let e_end = h.end in
      let e_idx = h.idx in
      (
        omega arith,
        ap c.capacity h.page_in ∙ size,
        rw (e_start, e_end) (append-nil (waiting s page)),
      )

  pub sends-Moves :
      (s' : EntHugeTlb c.types) (t ks : Trace c.types) (n : ℕ)
      → send_all_out c fd s t ≡ (ok n, s', t ++ ks)
      → Moves c s page [] (payload page fd ks) s' page
  unfolding bytes_at
  sends-Moves s' t ks n h = elim (send_all_out-cases c fd s t v) [
    | inl (_, e) ↦
        let same : s' ≡ s = ap (λ x. x.1) (sym h ∙ e) in
        let none_sent : ks ≡ [] =
          append_cancel t ks [] (ap (λ x. x.2) (sym h ∙ e) ∙ sym (append-nil t)) in
        rw (same, none_sent) (v, size, append-nil (waiting s page))
    | inr (inl (_, _, e, _)) ↦
        let same : s' ≡ on_cursor cursor_sent s = ap (λ x. x.1) (sym h ∙ e) in
        let sent = append_cancel t ks _ (ap (λ x. x.2) (sym h ∙ e)) in
        let e_len : out_len (cursor_sent s.cursor) ≡ 0 = omega arith in
        let v' : OutValid (cursor_sent s.cursor) =
          (subst (AfterSend s) e (send_all_out-OutValid c fd s t v)).0 in
        rw (same, sent) (v', size, rw (all_bytes c fd s page v, e_len) refl)
    | inr (inr (_, (k, x, _, e))) ↦ let clash = ap (λ x. x.0) (sym h ∙ e) in cc
  ]
