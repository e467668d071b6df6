-- ===== src/HugeTlb/Left/Steps.antt =====
-- What an orbit can do to a stream: the operations of `Left` on it, one after the other, with lengths of
-- at most a page of 2 MiB. Overlong has what a length near 2^64 does.
pub mod Keep
use yaoi.Base.{
  ℕ, ◌≤◌, ◌≡◌, refl, sym, subst, ap, ◌∙◌, arith, ltb, false, Bool, Bool-cases, inl, inr, add_usize,
}
use yaoi.Crates.{Crates, CrateTypes, Trace}
use yaoi.Outcome.{ok}
use yaoi.Outcome.Rules.{Post, chain-state}
use yaoi.HugeTlb.{EntHugeTlb, page_size}
use yaoi.HugeTlb.Send.{on_cursor}
use yaoi.HugeTlb.Send.Laws.{OutValid}
use yaoi.HugeTlb.Left.{
  Slice, InBuffer, left_lens, set_lens_cursor, left_set_lens, revolve, in_buffer, out_buffer,
  left_bufs_mut, shutdown, set_left_in_blocked, set_ready, set_left_want_read, set_left_want_write,
}
use yaoi.HugeTlb.Left.Laws.{InValid, left_set_lens-left_lens, left_bufs_mut-InPage}

-- One operation that returns. No length that is set is above a page of 2 MiB; `left_set_lens` does not ask for
-- that, since its test wraps around.
pub data LeftStep (c : Crates) : EntHugeTlb c.types → EntHugeTlb c.types → Type 0 where
  shuts_down : {s : EntHugeTlb c.types} → LeftStep c s (shutdown s)
  blocks_in : {s : EntHugeTlb c.types} (nb : Bool) → LeftStep c s (set_left_in_blocked nb s)
  readies : {s : EntHugeTlb c.types} (r : Bool) → LeftStep c s (set_ready r s)
  wants_read : {s : EntHugeTlb c.types} (w : Bool) → LeftStep c s (set_left_want_read w s)
  wants_write : {s : EntHugeTlb c.types} (w : Bool) → LeftStep c s (set_left_want_write w s)
  sets_lens :
      {s s' : EntHugeTlb c.types} {t : Trace c.types} (new_in new_out : ℕ)
      → new_in ≤ page_size
      → new_out ≤ page_size
      → left_set_lens c new_in new_out s t ≡ (ok tt, s', t)
      → LeftStep c s s'
  borrows :
      {s s' : EntHugeTlb c.types} {t : Trace c.types} (b : InBuffer × Slice)
      → left_bufs_mut c s t ≡ (ok b, s', t)
      → LeftStep c s s'

pub data LeftSteps (c : Crates) : EntHugeTlb c.types → EntHugeTlb c.types → Type 0 where
  none_left : {s : EntHugeTlb c.types} → LeftSteps c s s
  and_then :
      {s s' s'' : EntHugeTlb c.types} → LeftStep c s s' → LeftSteps c s' s'' → LeftSteps c s s''

-- What an orbit has no hand in: the connection, the pages, the ring, what is pending and where the
-- outgoing bytes start.
pub record Untouched {ty : CrateTypes} (s s' : EntHugeTlb ty) : Type 0 where
  pub connection : s'.connection ≡ s.connection
  pub page_in : s'.hugetbl_in ≡ s.hugetbl_in
  pub page_out : s'.hugetbl_out ≡ s.hugetbl_out
  pub ring : s'.ring_in ≡ s.ring_in
  pub sends : s'.cursor.pending_sends ≡ s.cursor.pending_sends
  pub bufs : s'.cursor.pending_bufs ≡ s.cursor.pending_bufs
  pub out_start : s'.cursor.pos_out_start ≡ s.cursor.pos_out_start
  pub out_idx : s'.cursor.idx_out_cur ≡ s.cursor.idx_out_cur
  pub reused : s'.cursor.idx_in_reused ≡ s.cursor.idx_in_reused

-- A valid cursor on two pages of 2 MiB.
pub record IsUsable (c : Crates) (s : EntHugeTlb c.types) : Type 0 where
  pub in_valid : InValid s.cursor
  pub out_valid : OutValid s.cursor
  pub cap_in : c.capacity s.hugetbl_in ≡ page_size
  pub cap_out : c.capacity s.hugetbl_out ≡ page_size

pub Untouched-refl : {ty : CrateTypes} (s : EntHugeTlb ty) → Untouched s s
Untouched-refl s = record {
  connection = refl;
  page_in = refl;
  page_out = refl;
  ring = refl;
  sends = refl;
  bufs = refl;
  out_start = refl;
  out_idx = refl;
  reused = refl;
}

pub Untouched-trans :
    {ty : CrateTypes} {s s' s'' : EntHugeTlb ty}
    → Untouched s s'
    → Untouched s' s''
    → Untouched s s''
Untouched-trans u v = record {
  connection = v.connection ∙ u.connection;
  page_in = v.page_in ∙ u.page_in;
  page_out = v.page_out ∙ u.page_out;
  ring = v.ring ∙ u.ring;
  sends = v.sends ∙ u.sends;
  bufs = v.bufs ∙ u.bufs;
  out_start = v.out_start ∙ u.out_start;
  out_idx = v.out_idx ∙ u.out_idx;
  reused = v.reused ∙ u.reused;
}
