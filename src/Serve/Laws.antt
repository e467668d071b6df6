-- ===== src/Serve/Laws.antt =====
-- What `upgrade` leaves as it was, and that its stream asks for nothing yet.
use yaoi.Base.{◌≡◌, false, Option, none, some}
use yaoi.Crates.{CrateTypes, Crates, Trace, huge_page_new}
use yaoi.Outcome.{ask_page}
use yaoi.Outcome.Rules.{Post, chain-Post, chain-Post_any, chain-state}
use yaoi.HugeTlb.{from_connected}
use yaoi.HugeTlb.Create.{IsNew, from_connected-IsNew, from_connected-state}
use yaoi.Stream.{left_wants_read, left_wants_write, TcpStream, connected, streaming_huge_tlb}
use yaoi.Serve.{upgrade_with, upgrade}

module _ (c : Crates) {S : Type 0} (Q : S → Type 0) where
  upgrade_with-state :
      (hin hout : c.HugePage) (stream : TcpStream c.types) (s : S) (t : Trace c.types)
      → Q s
      → Q (upgrade_with c hin hout stream s t).1
  unfolding upgrade_with
  upgrade_with-state hin hout (streaming_huge_tlb _) s t q = q
  upgrade_with-state hin hout (connected e) s t q =
      chain-state Q (from_connected c e hin hout s t) _ (from_connected-state c Q e hin hout s t q)
        (λ _ _ _ q'. q')

  pub upgrade-state :
      (choice : Option c.HugePageChoice) (stream : TcpStream c.types) (s : S) (t : Trace c.types)
      → Q s
      → Q (upgrade c choice stream s t).1
  unfolding upgrade
  upgrade-state none stream s t q = q
  upgrade-state (some choice) stream s t q =
      chain-state Q (ask_page c (huge_page_new choice) s t) _ q λ hin s' t' q'.
        chain-state Q (ask_page c (huge_page_new choice) s' t') _ q'
          λ hout s'' t'' q''. upgrade_with-state hin hout stream s'' t'' q''

-- A stream that asks neither to be read nor to be written.
abbrev pub IsIdle : {ty : CrateTypes} → TcpStream ty → Type 0
IsIdle s = (left_wants_write s ≡ false) × (left_wants_read s ≡ false)

module _ (c : Crates) {S : Type 0} where
  upgrade_with-IsIdle :
      (hin hout : c.HugePage) (stream : TcpStream c.types) (s : S) (t : Trace c.types)
      → Post (λ a _. IsIdle a) (upgrade_with c hin hout stream s t)
  unfolding upgrade_with left_wants_write left_wants_read
  upgrade_with-IsIdle hin hout (streaming_huge_tlb _) s t = tt
  upgrade_with-IsIdle hin hout (connected e) s t =
      chain-Post (λ ent _. IsNew e ent) _ (from_connected c e hin hout s t) _
        (from_connected-IsNew c e hin hout s t) (λ ent _ _ new. (new.no_write, new.no_read))

  pub upgrade-IsIdle :
      (choice : Option c.HugePageChoice) (stream : TcpStream c.types) (s : S) (t : Trace c.types)
      → IsIdle stream
      → Post (λ a _. IsIdle a) (upgrade c choice stream s t)
  unfolding upgrade
  upgrade-IsIdle none stream s t h = h
  upgrade-IsIdle (some choice) stream s t h =
      chain-Post_any _ (ask_page c (huge_page_new choice) s t) _ λ hin s' t'.
        chain-Post_any _ (ask_page c (huge_page_new choice) s' t') _
          λ hout s'' t''. upgrade_with-IsIdle hin hout stream s'' t''
