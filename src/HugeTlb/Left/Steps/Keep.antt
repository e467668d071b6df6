-- ===== src/HugeTlb/Left/Steps/Keep.antt =====
-- The operations of `Left`, and what is a stream's own.
use yaoi.Base.{
  ℕ, ◌≤◌, ◌≡◌, refl, sym, subst, ap, ◌∙◌, arith, ltb, false, Bool, Bool-cases, inl, inr, add_usize,
}
use yaoi.Crates.{Crates, CrateTypes, Trace}
use yaoi.Outcome.Rules.{Post, chain-state}
use yaoi.HugeTlb.{EntHugeTlb, page_size}
use yaoi.HugeTlb.Send.{on_cursor}
use yaoi.HugeTlb.Send.Laws.{OutValid}
use yaoi.HugeTlb.Left.{
  left_lens, set_lens_cursor, left_set_lens, revolve, in_buffer, out_buffer, left_bufs_mut,
  shutdown, set_left_in_blocked, set_ready, set_left_want_read, set_left_want_write,
}
use yaoi.HugeTlb.Left.Laws.{InValid, left_set_lens-left_lens, left_bufs_mut-InPage}
use yaoi.HugeTlb.Left.Steps.{
  LeftStep, shuts_down, blocks_in, readies, wants_read, wants_write, sets_lens, borrows, LeftSteps,
  none_left, and_then, Untouched, IsUsable, Untouched-refl, Untouched-trans,
}

module _ (c : Crates) (s : EntHugeTlb c.types) where
  -- What a change of the lengths that gives a value has checked and done.
  abbrev pub WasSet : ℕ → ℕ → EntHugeTlb c.types → Type 0
  WasSet new_in new_out s' =
      (ltb (c.capacity s.hugetbl_in) (add_usize new_out s.cursor.pos_out_start) ≡ false)
      × (s' ≡ on_cursor (set_lens_cursor new_in new_out) s)

  pub left_set_lens-WasSet :
      (t : Trace c.types) (new_in new_out : ℕ)
      → Post (λ _ s'. WasSet new_in new_out s') (left_set_lens c new_in new_out s t)
  unfolding left_set_lens
  left_set_lens-WasSet t new_in new_out =
      elim (Bool-cases (ltb (c.capacity s.hugetbl_in) (add_usize new_in s.cursor.pos_in_start))) [
        | inl over ↦ rw over tt
        | inr fits ↦
            rw fits
              (elim (Bool-cases
                (ltb (c.capacity s.hugetbl_in) (add_usize new_out s.cursor.pos_out_start))) [
                  | inl over ↦ rw over tt
                  | inr fits_out ↦ rw fits_out (refl, refl)
                ])
      ]

  in_buffer-state : (q : EntHugeTlb c.types) (w : Trace c.types) → (in_buffer c q w).1 ≡ q
  unfolding in_buffer
  in_buffer-state q w = ground arith

  out_buffer-state : (q : EntHugeTlb c.types) (w : Trace c.types) → (out_buffer c q w).1 ≡ q
  unfolding out_buffer
  out_buffer-state q w = ground arith

  pub left_bufs_mut-state : (t : Trace c.types) → (left_bufs_mut c s t).1 ≡ on_cursor revolve s
  unfolding left_bufs_mut
  left_bufs_mut-state t =
      chain-state (λ x. x ≡ on_cursor revolve s) (in_buffer c (on_cursor revolve s) t) _
        (in_buffer-state (on_cursor revolve s) t)
        λ buf_in s' t' same.
          chain-state (λ x. x ≡ on_cursor revolve s) (out_buffer c s' t') _
            (out_buffer-state s' t' ∙ same) (λ _ _ _ q. q)

module _ (c : Crates) (s s' : EntHugeTlb c.types) where
  set-Untouched : (new_in new_out : ℕ) → WasSet c s new_in new_out s' → Untouched s s'
  unfolding set_lens_cursor left_lens
  set-Untouched new_in new_out (_, e) = rw e (record {
    connection = refl;
    page_in = refl;
    page_out = refl;
    ring = refl;
    sends = ground arith;
    bufs = ground arith;
    out_start = ground arith;
    out_idx = ground arith;
    reused = ground arith;
  })

  set-OutValid :
      (new_in new_out : ℕ)
      → WasSet c s new_in new_out s'
      → c.capacity s.hugetbl_in ≡ page_size
      → new_out ≤ page_size
      → OutValid s.cursor
      → OutValid s'.cursor
  unfolding set_lens_cursor left_lens
  set-OutValid new_in new_out (room, e) size ho v =
      let room' : ltb page_size (add_usize new_out s.cursor.pos_out_start) ≡ false =
        rw size at room in
      rw e (ground arith)

-- The flags are an orbit's own.
flags-Untouched :
    {ty : CrateTypes} (s : EntHugeTlb ty) (ready want_read want_write blocked shut : Bool)
    → Untouched s (record s {
      is_ready = ready;
      want_read = want_read;
      want_write = want_write;
      in_blocked = blocked;
      want_shutdown = shut;
    })
flags-Untouched s ready want_read want_write blocked shut = record {
  connection = refl;
  page_in = refl;
  page_out = refl;
  ring = refl;
  sends = refl;
  bufs = refl;
  out_start = refl;
  out_idx = refl;
  reused = refl;
}

module _ (c : Crates) where
  -- What every step keeps, with a valid outgoing cursor.
  abbrev pub Outward : EntHugeTlb c.types → EntHugeTlb c.types → Type 0
  Outward s s' = Untouched s s' × OutValid s'.cursor

  revolve-Outward : (s : EntHugeTlb c.types) → OutValid s.cursor → Outward s (on_cursor revolve s)
  revolve-Outward s v = (
    record {
      connection = refl;
      page_in = refl;
      page_out = refl;
      ring = refl;
      sends = ground arith;
      bufs = ground arith;
      out_start = ground arith;
      out_idx = ground arith;
      reused = ground arith;
    },
    ground arith,
  )

  pub step-Outward :
      {s s' : EntHugeTlb c.types}
      → LeftStep c s s'
      → c.capacity s.hugetbl_in ≡ page_size
      → OutValid s.cursor
      → Outward s s'
  unfolding shutdown set_left_in_blocked set_ready set_left_want_read set_left_want_write
  step-Outward {s} shuts_down size v = (flags-Untouched s _ _ _ _ _, v)
  step-Outward {s} (blocks_in nb) size v = (flags-Untouched s _ _ _ _ _, v)
  step-Outward {s} (readies r) size v = (flags-Untouched s _ _ _ _ _, v)
  step-Outward {s} (wants_read w) size v = (flags-Untouched s _ _ _ _ _, v)
  step-Outward {s} (wants_write w) size v = (flags-Untouched s _ _ _ _ _, v)
  step-Outward {s} {s'} (sets_lens {t} i o hi ho e) size v =
      let was : WasSet c s i o s' =
        subst (Post (λ _ x. WasSet c s i o x)) e (left_set_lens-WasSet c s t i o) in
      (set-Untouched c s s' i o was, set-OutValid c s s' i o was size ho v)
  step-Outward {s} {s'} (borrows {t} b e) size v =
      let same : s' ≡ on_cursor revolve s = sym (ap (λ x. x.1) e) ∙ left_bufs_mut-state c s t in
      rw same (revolve-Outward s v)

  -- Whatever operations of `Left` return on a stream with a valid outgoing cursor and an incoming page of 2 MiB, as
  -- long as no length that is set is above a page: its connection, its pages, its ring and what is pending stay as they were, the outgoing bytes start where they
  -- did, and the outgoing cursor stays valid.
  pub LeftSteps-Outward :
      {s s' : EntHugeTlb c.types}
      → LeftSteps c s s'
      → c.capacity s.hugetbl_in ≡ page_size
      → OutValid s.cursor
      → Outward s s'
  LeftSteps-Outward {s} none_left size v = (Untouched-refl s, v)
  LeftSteps-Outward (and_then step rest) size v =
      let (u, v') = step-Outward step size v in
      let (u', v'') = LeftSteps-Outward rest (ap c.capacity u.page_in ∙ size) v' in
      (Untouched-trans u u', v'')

  step-IsUsable : {s s' : EntHugeTlb c.types} → LeftStep c s s' → IsUsable c s → InValid s'.cursor
  unfolding shutdown set_left_in_blocked set_ready set_left_want_read set_left_want_write
  step-IsUsable shuts_down u = u.in_valid
  step-IsUsable (blocks_in nb) u = u.in_valid
  step-IsUsable (readies r) u = u.in_valid
  step-IsUsable (wants_read w) u = u.in_valid
  step-IsUsable (wants_write w) u = u.in_valid
  step-IsUsable {s} {s'} (sets_lens {t} i o hi ho e) u =
      let was : WasSet c s i o s' =
        subst (Post (λ _ x. WasSet c s i o x)) e (left_set_lens-WasSet c s t i o) in
      elim (left_set_lens-left_lens c s t i o u.in_valid u.out_valid u.cap_in hi ho) [
        | inl (_, _, _, _, v, _) ↦ rw was.1 v
        | inr (inl (_, h)) ↦ let clash = ap (λ x. x.0) (sym e ∙ h) in cc
        | inr (inr (_, h)) ↦ let clash = ap (λ x. x.0) (sym e ∙ h) in cc
      ]
  step-IsUsable {s} {s'} (borrows {t} b e) u =
      let same : s' ≡ on_cursor revolve s = sym (ap (λ x. x.1) e) ∙ left_bufs_mut-state c s t in
      let (_, _, _, _, _, _, _, v, _, _) =
        left_bufs_mut-InPage c s t u.in_valid u.out_valid u.cap_in u.cap_out in
      rw same v

  -- The same for the whole cursor, on two pages of 2 MiB.
  pub LeftSteps-IsUsable :
      {s s' : EntHugeTlb c.types} → LeftSteps c s s' → IsUsable c s → IsUsable c s'
  LeftSteps-IsUsable none_left u = u
  LeftSteps-IsUsable (and_then step rest) u =
      let (same, v) = step-Outward step u.cap_in u.out_valid in
      LeftSteps-IsUsable rest (record {
        in_valid = step-IsUsable step u;
        out_valid = v;
        cap_in = ap c.capacity same.page_in ∙ u.cap_in;
        cap_out = ap c.capacity same.page_out ∙ u.cap_out;
      })

  pub LeftSteps-append :
      {s s' s'' : EntHugeTlb c.types} → LeftSteps c s s' → LeftSteps c s' s'' → LeftSteps c s s''
  LeftSteps-append none_left y = y
  LeftSteps-append (and_then step rest) y = and_then step (LeftSteps-append rest y)
