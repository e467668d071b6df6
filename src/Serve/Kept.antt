-- ===== src/Serve/Kept.antt =====
-- A new stream that a slot may hold.
use yaoi.Base.{ℕ, Option, none, some}
use yaoi.Crates.{Crates, Trace, huge_page_new}
use yaoi.Outcome.{M, Outcome, ok, err, panic, ask_page}
use yaoi.Outcome.Keeps.{Sound, Keeps, chain-Sound, ask_page-Keeps}
use yaoi.HugeTlb.{from_connected}
use yaoi.HugeTlb.Kept
use yaoi.HugeTlb.Kept.{IsOwn}
use yaoi.Stream.{TcpStream, connected, streaming_huge_tlb}
use yaoi.Stream.Kept.{FitsSlot}
use yaoi.Serve.{Served, on_stream, upgrade_with, upgrade}

module _ (c : Crates) {S : Type 0} (Q : S → Type 0) (slot : ℕ) where
  upgrade_with-Sound :
      (hin hout : c.HugePage) (stream : TcpStream c.types) (s : S) (t : Trace c.types)
      → FitsSlot slot stream
      → Q s
      → Sound (λ stream' s'. FitsSlot slot stream' × Q s') (upgrade_with c hin hout stream s t)
  unfolding upgrade_with
  upgrade_with-Sound hin hout (streaming_huge_tlb _) s t h q = tt
  upgrade_with-Sound hin hout (connected e) s t h q =
      chain-Sound (λ ent s'. IsOwn slot ent × Q s') _ (from_connected c e hin hout s t) _
        (Kept.from_connected-Sound c Q slot e hin hout s t h q) (λ ent s' t' p. p)

  pub upgrade-Sound :
      (choice : Option c.HugePageChoice) (stream : TcpStream c.types) (s : S) (t : Trace c.types)
      → FitsSlot slot stream
      → Q s
      → Sound (λ stream' s'. FitsSlot slot stream' × Q s') (upgrade c choice stream s t)
  unfolding upgrade
  upgrade-Sound none stream s t h q = (h, q)
  upgrade-Sound (some choice) stream s t h q =
      chain-Sound (λ _ s'. Q s') _ (ask_page c (huge_page_new choice) s t) _
        (ask_page-Keeps c Q _ s t q)
        λ hin s' t' q'.
          chain-Sound (λ _ s'. Q s') _ (ask_page c (huge_page_new choice) s' t') _
            (ask_page-Keeps c Q _ s' t' q')
            λ hout s'' t'' q''. upgrade_with-Sound hin hout stream s'' t'' h q''

module _ (c : Crates) {U : Type 0} (slot : ℕ) where
  abbrev pub IsFit : Served c U → Type 0
  IsFit s = FitsSlot slot s.stream

  stream_put-Sound :
      {A : Type 0} (s : Served c U) (x : Outcome c.types A × TcpStream c.types × Trace c.types)
      → Sound (λ _ st. FitsSlot slot st) x
      → Sound (λ _ s'. IsFit s') (x.0, record s { stream = x.1 }, x.2)
  stream_put-Sound s (ok a, st, t) h = h
  stream_put-Sound s (err e, st, t) h = h
  stream_put-Sound s (panic p, st, t) h = h

  pub on_stream-Keeps :
      {A : Type 0} (m : M c.types (TcpStream c.types) A)
      → Keeps (FitsSlot slot) m
      → Keeps IsFit (on_stream c m)
  on_stream-Keeps m k s t q = stream_put-Sound s (m s.stream t) (k s.stream t q)
