-- ===== src/Stream/Kept.antt =====
-- The operations on a connection keep it fit for its slot.
use yaoi.Base.{ℕ, ◌≡◌, Option, none, some}
use yaoi.Crates.{Crates, CrateTypes, Trace}
use yaoi.Outcome.{M, Outcome, ok, err, panic}
use yaoi.Outcome.Keeps.{Sound, Keeps, bind-Keeps}
use yaoi.Cmaps.{MapSentZc, MapRecvMulti}
use yaoi.HugeTlb.{EntHugeTlb, slot_u16_from_fixed_fd}
use yaoi.HugeTlb.Kept
use yaoi.HugeTlb.Kept.{IsOwn, IsOwn-IsOutward}
use yaoi.Stream.Laws.{IsSafe}
use yaoi.Stream.{
  TcpStream, connected, streaming_huge_tlb, on_huge, fixed_fd, require_fixed_fd, recv_multi,
  send_all_out, try_free_buffers, sent_zc, cb_recv_multi, destroy,
}

-- A connection that a slot may hold: it is on the slot's descriptor, and its outgoing cursor is valid
-- where it has buffers.
abbrev pub FitsSlot : {ty : CrateTypes} → ℕ → TcpStream ty → Type 0
FitsSlot slot (connected e) = e.fixed_fd ≡ some slot
FitsSlot slot (streaming_huge_tlb e) = IsOwn slot e

module _ {ty : CrateTypes} (slot : ℕ) where
  pub FitsSlot-IsSafe : (s : TcpStream ty) → FitsSlot slot s → IsSafe s
  FitsSlot-IsSafe (connected e) h = tt
  FitsSlot-IsSafe (streaming_huge_tlb e) h = h.valid

  pub FitsSlot-fixed_fd : (s : TcpStream ty) → FitsSlot slot s → fixed_fd s ≡ some slot
  unfolding fixed_fd
  FitsSlot-fixed_fd (connected e) h = h
  FitsSlot-fixed_fd (streaming_huge_tlb e) h = h.fd

  pub FitsSlot-of : (s : TcpStream ty) → IsSafe s → fixed_fd s ≡ some slot → FitsSlot slot s
  unfolding fixed_fd
  FitsSlot-of (connected e) v h = h
  FitsSlot-of (streaming_huge_tlb e) v h = record { valid = v; fd = h }

module _ {ty : CrateTypes} (slot : ℕ) where
  lifted-Sound :
      {A : Type 0} (x : Outcome ty A × EntHugeTlb ty × Trace ty)
      → Sound (λ _ e. IsOwn slot e) x
      → Sound (λ _ s. FitsSlot slot s) (x.0, streaming_huge_tlb x.1, x.2)
  lifted-Sound (ok a, e, t) h = h
  lifted-Sound (err x, e, t) h = h
  lifted-Sound (panic p, e, t) h = h

  on_huge-Keeps :
      {A : Type 0} (m : M ty (EntHugeTlb ty) A)
      → Keeps (IsOwn slot) m
      → Keeps (FitsSlot slot) (on_huge m)
  on_huge-Keeps m k (connected e) t q = tt
  on_huge-Keeps m k (streaming_huge_tlb e) t q = lifted-Sound (m e t) (k e t q)

  require_fixed_fd-Keeps :
      {S : Type 0} (Q : S → Type 0) (fd : Option ℕ) → Keeps {ty = ty} Q (require_fixed_fd fd)
  unfolding require_fixed_fd
  require_fixed_fd-Keeps Q none s t q = tt
  require_fixed_fd-Keeps Q (some fd) s t q = q

  pub try_free_buffers-Keeps : Keeps {ty = ty} (FitsSlot slot) try_free_buffers
  unfolding try_free_buffers
  try_free_buffers-Keeps =
      on_huge-Keeps _ (Kept.try_free_buffers-Keeps (IsOwn slot) (IsOwn-IsOutward slot).by_reuse)

  pub sent_zc-Keeps : (z : MapSentZc) → Keeps {ty = ty} (FitsSlot slot) (sent_zc z)
  unfolding sent_zc
  sent_zc-Keeps z s =
      on_huge-Keeps _
        (bind-Keeps (IsOwn slot) (require_fixed_fd (fixed_fd s)) _
          (require_fixed_fd-Keeps (IsOwn slot) (fixed_fd s))
          λ _. Kept.sent_zc-Keeps (IsOwn slot) (IsOwn-IsOutward slot) z)
        s

  pub cb_recv_multi-Keeps : (r : MapRecvMulti) → Keeps {ty = ty} (FitsSlot slot) (cb_recv_multi r)
  unfolding cb_recv_multi
  cb_recv_multi-Keeps r s =
      on_huge-Keeps _
        (bind-Keeps (IsOwn slot) (require_fixed_fd (fixed_fd s)) _
          (require_fixed_fd-Keeps (IsOwn slot) (fixed_fd s))
          λ _. Kept.cb_recv_multi-Keeps (IsOwn slot) (IsOwn-IsOutward slot) r)
        s

module _ (c : Crates) (slot : ℕ) where
  pub send_all_out-Keeps : Keeps (FitsSlot slot) (send_all_out c)
  unfolding send_all_out
  send_all_out-Keeps s =
      on_huge-Keeps slot _
        (bind-Keeps (IsOwn slot) (require_fixed_fd (fixed_fd s)) _
          (require_fixed_fd-Keeps slot (IsOwn slot) (fixed_fd s))
          λ fd. Kept.send_all_out-Keeps c fd slot)
        s

  pub recv_multi-Keeps : Keeps (FitsSlot slot) (recv_multi c)
  unfolding recv_multi
  recv_multi-Keeps s =
      on_huge-Keeps slot _
        (bind-Keeps (IsOwn slot) (require_fixed_fd (fixed_fd s)) _
          (require_fixed_fd-Keeps slot (IsOwn slot) (fixed_fd s))
          λ fd.
            bind-Keeps (IsOwn slot) (slot_u16_from_fixed_fd (fixed_fd s)) _
              (Kept.slot_u16-Keeps c (IsOwn slot) (fixed_fd s))
              λ bgid. Kept.recv_multi-Keeps c (IsOwn slot) fd bgid)
        s

-- The state around a connection that is given up is kept, however that ends.
module _ (c : Crates) {S : Type 0} (Q : S → Type 0) where
  pub destroy-Keeps : (s : TcpStream c.types) → Keeps Q (destroy c s)
  unfolding destroy
  destroy-Keeps (streaming_huge_tlb e) = Kept.destroy-Keeps c Q e
  destroy-Keeps (connected e) = λ s t q. q

  pub destroy-state :
      (s : TcpStream c.types) (w : S) (t : Trace c.types) → Q w → Q (destroy c s w t).1
  unfolding destroy
  destroy-state (streaming_huge_tlb e) w t q = Kept.destroy-state c Q e w t q
  destroy-state (connected e) w t q = q
