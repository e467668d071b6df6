-- ===== src/Serve.antt =====
-- What TcpListener::check and TcpClientPool::check both do to a new stream.
pub mod Kept
pub mod Laws
use yaoi.Base.{Option, none, some}
use yaoi.Crates.{Crates, huge_page_new}
use yaoi.Outcome.{M, ok, panic, in_callback, bug, pure, raise, ask_page, ◌>>=◌}
use yaoi.HugeTlb.{from_connected}
use yaoi.Stream.{TcpStream, connected, streaming_huge_tlb}

-- The user data and the stream that a callback works on.
pub record Served (c : Crates) (U : Type 0) : Type 0 where
  pub user : U
  pub stream : TcpStream c.types

module _ (c : Crates) {U : Type 0} where
  abbrev pub on_stream : {A : Type 0} → M c.types (TcpStream c.types) A → M c.types (Served c U) A
  on_stream m s t = let (r, stream, t') = m s.stream t in (r, record s { stream = stream }, t')

  abbrev pub after_call : Option (U × TcpStream c.types) → M c.types (Served c U) (Unit {0})
  after_call none s t = (panic in_callback, s, t)
  after_call (some (user, stream)) s t = (ok tt, record { user = user; stream = stream }, t)

module _ (c : Crates) {S : Type 0} where
  upgrade_with : c.HugePage → c.HugePage → TcpStream c.types → M c.types S (TcpStream c.types)
  upgrade_with hugetlb_in hugetlb_out (connected ent_connected) = do
    ent ← from_connected c ent_connected hugetlb_in hugetlb_out
    pure (streaming_huge_tlb ent)
  upgrade_with hugetlb_in hugetlb_out (streaming_huge_tlb _) = raise bug

  -- A stream is put on two huge pages where these are configured.
  pub upgrade : Option c.HugePageChoice → TcpStream c.types → M c.types S (TcpStream c.types)
  unfolding upgrade_with
  upgrade none stream = pure stream
  upgrade (some choice) stream = do
    hugetlb_in ← ask_page c (huge_page_new choice)
    hugetlb_out ← ask_page c (huge_page_new choice)
    upgrade_with hugetlb_in hugetlb_out stream
