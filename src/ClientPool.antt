-- ===== src/ClientPool.antt =====
-- src/tcp_pool/tcp_client_pool.rs: the state of a client pool, and how it starts to connect. The
-- children have the handling of completions and `check`.
pub mod Complete
pub mod Check
pub mod Connect
pub mod Session
use yaoi.Base.{
  as_u32, ℕ, zero, suc, ◌+◌, Bool, true, Option, none, some, ℤ, negsuc, add_usize, replicate,
}
use yaoi.Crates.{
  Crates, CrateTypes, SocketAddr, af_inet, with_capacity, register_files, push_socket, push_connect,
  submit,
}
use yaoi.Outcome.{
  M, huge_tlb_already_set, pure, raise, modify, gets, ask_bearer, unwrap_bearer, unwrap_os, ◌>>=◌,
  ◌>>◌,
}
use yaoi.Capacity.{pool_setting}
use yaoi.Stream.{TcpStream}

pub data ClientSlotCtx (ty : CrateTypes) : Type 0 where
  created : ClientSlotCtx ty
  connecting : ℕ → ClientSlotCtx ty
  connecting_error : ℤ → ClientSlotCtx ty
  connected : TcpStream ty → ClientSlotCtx ty
  reading : TcpStream ty → ClientSlotCtx ty
  writing : TcpStream ty → ClientSlotCtx ty
  reading_and_writing : TcpStream ty → ClientSlotCtx ty
  shutdown_ok : ClientSlotCtx ty

module _ {ty : CrateTypes} where
  unfoldable pub tcp_stream_mut : ClientSlotCtx ty → Option (TcpStream ty)
  tcp_stream_mut (connected s) = some s
  tcp_stream_mut (reading s) = some s
  tcp_stream_mut (writing s) = some s
  tcp_stream_mut (reading_and_writing s) = some s
  tcp_stream_mut _ = none

  -- A write through the reference of `tcp_stream_mut`.
  unfoldable pub put_stream : TcpStream ty → ClientSlotCtx ty → ClientSlotCtx ty
  put_stream s (connected _) = connected s
  put_stream s (reading _) = reading s
  put_stream s (writing _) = writing s
  put_stream s (reading_and_writing _) = reading_and_writing s
  put_stream s slot = slot

-- A callback of type Fn(&mut Cdata, &mut TcpStream); `none` is a panic in it.
abbrev pub Callback : CrateTypes → Type 0 → Type 0
Callback ty U = U → TcpStream ty → Option (U × TcpStream ty)

pub record TcpClientPool (c : Crates) (U : Type 0) : Type 0 where
  pub pool : c.Map (ClientSlotCtx c.types)
  pub c_fn : Option (Callback c.types U)
  pub s_fn : Option (Callback c.types U)
  pub pool_count : ℕ
  pub state_connecting : ℕ
  pub state_error : ℕ
  pub state_connected : ℕ
  pub state_shutdown : ℕ
  pub cfg_hugetlb : Option c.HugePageChoice

module _ (c : Crates) {U : Type 0} where
  -- TcpClientPool::with_capacity
  unfoldable pub pool_with_capacity : {S : Type 0} → ℕ → M c.types S (TcpClientPool c U)
  pool_with_capacity pool_cap = do
    ask_bearer c (with_capacity (pool_setting (record { pool_count = pool_cap })))
    pure (record {
      pool = c.map_new;
      c_fn = none;
      s_fn = none;
      pool_count = pool_cap;
      state_connecting = 0;
      state_error = 0;
      state_connected = 0;
      state_shutdown = 0;
      cfg_hugetlb = none;
    })

  unfoldable pub set_hugetlb : c.HugePageChoice → M c.types (TcpClientPool c U) (Unit {0})
  set_hugetlb choice p = elim p.cfg_hugetlb [
    | none ↦ pure tt (record p { cfg_hugetlb = some choice })
    | some _ ↦ raise huge_tlb_already_set p
  ]

  abbrev pub start_connecting : ℕ → ℕ → TcpClientPool c U → TcpClientPool c U
  start_connecting x op_idx p = record p {
    state_connecting = add_usize p.state_connecting 1;
    pool = c.insert p.pool x (connecting op_idx);
  }

  -- One round of the loop: a socket in slot `x`, cut to 32 bits, linked to its connect. To build an operation can
  -- fail as to push it can, and panics alike.
  unfoldable pub connect_slot : SocketAddr → ℕ → M c.types (TcpClientPool c U) (Unit {0})
  connect_slot addr x = do
    unwrap_bearer c (push_socket (as_u32 x) af_inet true)
    op_idx ← unwrap_bearer c (push_connect (as_u32 x) addr)
    modify (start_connecting (as_u32 x) op_idx)

  -- `for x in x..x + n`
  unfoldable pub connect_slots : SocketAddr → ℕ → ℕ → M c.types (TcpClientPool c U) (Unit {0})
  connect_slots addr zero x = pure tt
  connect_slots addr (suc n) x = do connect_slot addr x; connect_slots addr n (x + 1)

  -- The result is the number of connects submitted, one for each place of the pool.
  unfoldable pub connect_with_cb : SocketAddr → Callback c.types U → M c.types (TcpClientPool c U) ℕ
  connect_with_cb addr cb = do
    modify (λ p. record p { c_fn = some cb })
    count ← gets (λ p. p.pool_count)
    unwrap_os c (register_files (replicate count (negsuc 0)))
    connect_slots addr count 0
    unwrap_bearer c submit
    pure count
