-- ===== src/HugeTlb/Create.antt =====
-- A new stream with buffers: what it holds, and that making it touches nothing else.
use yaoi.Base.{ℕ, ◌≡◌, inl, inr, refl, false, Option, none, some, ltb, Bool-cases}
use yaoi.Crates.{Crates, CrateTypes, Trace, ring_choice, ring_unregistered}
use yaoi.Outcome.{ask_ring}
use yaoi.Outcome.Rules.{Post, chain-Post_any, chain-state}
use yaoi.Connected.{EntConnected}
use yaoi.HugeTlb.{
  EntHugeTlb, default_cursor, from_connected, register_buf_ring, slot_u16_from_fixed_fd,
}

-- What every new stream with buffers is like.
pub record IsNew {ty : CrateTypes} (connection : EntConnected) (e : EntHugeTlb ty) : Type 0 where
  pub same : e.connection ≡ connection
  pub cursor : e.cursor ≡ default_cursor
  pub no_read : e.want_read ≡ false
  pub no_write : e.want_write ≡ false

module _ (c : Crates) {S : Type 0} (connection : EntConnected) (hin hout : c.HugePage) (s : S)
    (t : Trace c.types) where
  -- A stream that is made is new, on the given connection.
  pub from_connected-IsNew :
      Post (λ e _. IsNew connection e) (from_connected c connection hin hout s t)
  unfolding from_connected
  from_connected-IsNew =
      chain-Post_any _ (slot_u16_from_fixed_fd connection.fixed_fd s t) _ λ n s' t'.
        chain-Post_any _ (register_buf_ring c hin n s' t') _
          λ ring s'' t''. record { same = refl; cursor = refl; no_read = refl; no_write = refl }

-- To make a stream touches nothing of the state around it, however it ends.
module _ (c : Crates) {S : Type 0} (Q : S → Type 0) where
  slot_u16-state :
      (fd : Option ℕ) (s : S) (t : Trace c.types)
      → Q s
      → Q (slot_u16_from_fixed_fd {ty = c.types} fd s t).1
  unfolding slot_u16_from_fixed_fd
  slot_u16-state none s t q = q
  slot_u16-state (some fd) s t q = elim (Bool-cases (ltb fd 65535)) [
    | inl small ↦ rw small q
    | inr large ↦ rw large q
  ]

  register_buf_ring-state :
      (page : c.HugePage) (bgid : ℕ) (s : S) (t : Trace c.types)
      → Q s
      → Q (register_buf_ring c page bgid s t).1
  unfolding register_buf_ring
  register_buf_ring-state page bgid s t q =
      chain-state Q (ask_ring c (ring_choice 256 8192) s t) _ q λ _ s' t' q'.
        chain-state Q (ask_ring c (ring_unregistered page) s' t') _ q' (λ _ _ _ q''. q'')

  pub from_connected-state :
      (connection : EntConnected) (hin hout : c.HugePage) (s : S) (t : Trace c.types)
      → Q s
      → Q (from_connected c connection hin hout s t).1
  unfolding from_connected
  from_connected-state connection hin hout s t q =
      chain-state Q (slot_u16_from_fixed_fd connection.fixed_fd s t) _
        (slot_u16-state connection.fixed_fd s t q)
        λ n s' t' q'.
          chain-state Q (register_buf_ring c hin n s' t') _ (register_buf_ring-state hin n s' t' q')
            (λ _ _ _ q''. q'')
