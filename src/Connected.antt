-- ===== src/Connected.antt =====
-- src/tcp_stream/ent_connected.rs: a connection and its descriptors.
use yaoi.Base.{ℕ, ℤ, Option, none, some}
use yaoi.Crates.{SocketAddr}

pub record EntConnected : Type 0 where
  pub raw_fd : Option ℤ
  pub fixed_fd : Option ℕ
  pub peer_addr : Option SocketAddr

abbrev pub from_fixed : ℕ → EntConnected
from_fixed f_fd = record { raw_fd = none; fixed_fd = some f_fd; peer_addr = none }

abbrev pub and_peer_addr : EntConnected → SocketAddr → EntConnected
and_peer_addr e addr = record e { peer_addr = some addr }
