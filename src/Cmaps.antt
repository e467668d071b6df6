-- ===== src/Cmaps.antt =====
-- src/cmaps.rs: what a completion is turned into before the pools work on it.
use yaoi.Base.{ℕ, ℤ, Bool, Option}
use yaoi.Crates.{SocketAddr}

pub record MapSentZc : Type 0 where
  pub fixed_fd : ℕ
  pub sent_out : ℕ
  pub buf_ref : ℕ
  pub more : Bool

pub record MapRecvMulti : Type 0 where
  pub fixed_fd : ℕ
  pub buf_id : Option ℕ
  pub buf_len : ℕ
  pub buf_grp : ℕ
  pub shutdown : Bool

pub record MapConnected : Type 0 where
  pub fixed_fd : ℕ
  pub result : ℤ

pub record MapAccepted : Type 0 where
  pub result : ℤ
  pub s_addr : Option SocketAddr

pub data ClientMapMixed : Type 0 where
  nothing : ClientMapMixed
  connected : MapConnected → ClientMapMixed
  recv_multi : MapRecvMulti → ClientMapMixed
  sent_zc : MapSentZc → ClientMapMixed

pub data ServerMapMixed : Type 0 where
  nothing : ServerMapMixed
  accepted : MapAccepted → ServerMapMixed
  recv_multi : MapRecvMulti → ServerMapMixed
  sent_zc : MapSentZc → ServerMapMixed
