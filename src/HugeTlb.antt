-- ===== src/HugeTlb.antt =====
-- src/tcp_stream/ent_streaming_hugetlb.rs: a stream whose buffers are two huge pages. This file has
-- its state, its construction and its end; the children have the operations on its cursor.
pub mod Create
pub mod Send
pub mod Recv
pub mod Free
pub mod Left
pub mod Kept
pub mod Flight
pub mod Wrap
pub mod Iovecs
pub mod Bytes
pub mod Reuse
use yaoi.Base.{ℕ, Bool, false, Option, none, some, ltb, if◌then◌else◌}
use yaoi.Crates.{
  Crates, CrateTypes, add_recv_multi, ring_choice, ring_unregistered, ring_register,
  ring_unregister, huge_page_drop,
}
use yaoi.Outcome.{
  M, limit_huge_tlb_u16, huge_tlb_req_fixed_id, pure, raise, ask_bearer, ask_ring, ask_register,
  unwrap_drop, ◌>>=◌, ◌>>◌,
}
use yaoi.Connected.{EntConnected}

-- Both pages are cut into 256 buffers of 8192 bytes.
abbrev pub buf_size : ℕ
buf_size = 8192

abbrev pub page_size : ℕ
page_size = 2_097_152

pub record CursorLeft : Type 0 where
  pub pos_in_start : ℕ
  pub pos_in_end : ℕ
  pub idx_in_reused : ℕ
  pub pos_out_start : ℕ
  pub pos_out_end : ℕ
  pub idx_out_cur : ℕ
  pub pending_sends : ℕ
  pub pending_bufs : ℕ

abbrev pub default_cursor : CursorLeft
default_cursor = record {
  pos_in_start = 0;
  pos_in_end = 0;
  idx_in_reused = 0;
  pos_out_start = 0;
  pos_out_end = 0;
  idx_out_cur = 0;
  pending_sends = 0;
  pending_bufs = 0;
}

pub record EntHugeTlb (ty : CrateTypes) : Type 0 where
  pub connection : EntConnected
  pub hugetbl_out : ty.HugePage
  pub hugetbl_in : ty.HugePage
  pub ring_in : ty.RingBuf
  pub cursor : CursorLeft
  pub is_ready : Bool
  pub want_read : Bool
  pub want_write : Bool
  pub in_blocked : Bool
  pub want_shutdown : Bool

-- The range is 0..u16::MAX, without its end.
pub slot_u16_from_fixed_fd : {ty : CrateTypes} {S : Type 0} → Option ℕ → M ty S ℕ
slot_u16_from_fixed_fd none = raise huge_tlb_req_fixed_id
slot_u16_from_fixed_fd (some fd) = if ltb fd 65535 then pure fd else raise limit_huge_tlb_u16

module _ (c : Crates) {S : Type 0} where
  pub register_buf_ring : c.HugePage → ℕ → M c.types S c.RingBuf
  register_buf_ring page bgid = do
    ask_ring c (ring_choice 256 8192)
    ask_ring c (ring_unregistered page)
    ask_register c (ring_register bgid)

  pub from_connected : EntConnected → c.HugePage → c.HugePage → M c.types S (EntHugeTlb c.types)
  from_connected connection hugetbl_in hugetbl_out = do
    bufgrp_idx_in ← slot_u16_from_fixed_fd connection.fixed_fd
    ring_in ← register_buf_ring hugetbl_in bufgrp_idx_in
    pure (record {
      connection = connection;
      hugetbl_in = hugetbl_in;
      ring_in = ring_in;
      hugetbl_out = hugetbl_out;
      cursor = default_cursor;
      is_ready = false;
      want_write = false;
      want_read = false;
      in_blocked = false;
      want_shutdown = false;
    })

  pub destroy : EntHugeTlb c.types → M c.types S (Unit {0})
  destroy s = do
    ask_ring c (ring_unregister s.ring_in)
    unwrap_drop c (huge_page_drop s.hugetbl_in)
    unwrap_drop c (huge_page_drop s.hugetbl_out)

  -- Arm a multishot receive; the number is the bearer's.
  pub recv_multi : ℕ → ℕ → M c.types S ℕ
  recv_multi fixed_fd bgid = ask_bearer c (add_recv_multi fixed_fd bgid)
