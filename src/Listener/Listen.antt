-- ===== src/Listener/Listen.antt =====
-- TcpListener::listen_with_strategy and the functions that it calls.
pub mod Laws
pub mod Keep
pub mod Calls
use yaoi.Base.{
  ℕ, zero, suc, ◌-◌, ◌%◌, ◌^◌, none, [], ◌∷◌, ltb, if◌then◌else◌, ℤ, pos, negsuc, replicate,
}
use yaoi.Crates.{
  Crates, SocketAddr, v4, v6, Family, af_inet, af_inet6, TargetFd, auto_registered, unregistered,
  Call, socket, setsockopt_reuseaddr, bind, listen, with_capacity, register_acceptor,
  commit_registered_init, register_files, register_files_update, add_accept_ipv4, add_accept_ipv6,
  submit,
}
use yaoi.Outcome.{
  M, todo_code, index_out_of_bounds, pure, panics, ask_bearer, ask_syscall, ask_submitter,
  unwrap_os, ◌>>=◌, ◌>>◌,
}
use yaoi.Strategy.{StrategyListener, regular, fixed, cap_pool}
use yaoi.Capacity.{listener_setting}
use yaoi.Listener.{TcpListener}

unfoldable pub family_of : SocketAddr → Family
family_of (v4 _ _) = af_inet
family_of (v6 _ _) = af_inet6

-- `q_count as i32`
pub as_i32 : ℕ → ℤ
as_i32 n = let w = n % 2 ^ 32 in if ltb w (2 ^ 31) then pos w else negsuc (2 ^ 32 - 1 - w)

unfoldable pub accept_call : (c : Crates) → SocketAddr → ℕ → TargetFd → Call c.types
accept_call c (v4 _ _) fd target = add_accept_ipv4 fd target
accept_call c (v6 _ _) fd target = add_accept_ipv6 fd target

module _ (c : Crates) {S : Type 0} where
  -- The number is kept as an i32: it is an index into the table of files of the ring, far below 2^31.
  pub register_strat_regular : ℕ → M c.types S ℕ
  register_strat_regular listener_fd = do
    reg_mapped_acceptfd ← ask_bearer c (register_acceptor listener_fd)
    ask_bearer c commit_registered_init
    pure reg_mapped_acceptfd

  -- The table of fixed descriptors: the listener, then free ones. With no place it panics.
  pub register_strat_fixed : ℕ → ℕ → M c.types S ℕ
  register_strat_fixed listener_fd zero = panics index_out_of_bounds
  register_strat_fixed listener_fd (suc n) = do
    ask_submitter c (register_files (pos listener_fd ∷ replicate n (negsuc 0)))
    pure 0

  -- The errors of the update panic.
  unfoldable pub nuke_fixed : ℕ → M c.types S (Unit {0})
  nuke_fixed fixed_fd = do unwrap_os c (register_files_update fixed_fd (negsuc 0 ∷ [])); pure tt

  pub add_accepts : SocketAddr → ℕ → TargetFd → ℕ → M c.types S (Unit {0})
  add_accepts addr fd target zero = pure tt
  add_accepts addr fd target (suc n) = do
    ask_bearer c (accept_call c addr fd target)
    add_accepts addr fd target n

  pub accept_replenish_cc : TargetFd → ℕ → SocketAddr → ℕ → M c.types S (Unit {0})
  accept_replenish_cc target_fd repl_cc addr reg_mapped_acceptfd = do
    add_accepts addr reg_mapped_acceptfd target_fd repl_cc
    ask_bearer c submit
    pure tt

  pub register : StrategyListener → ℕ → SocketAddr → M c.types S ℕ
  register (StrategyListener.replenish repl_cc regular _) listener_fd addr = do
    reg_mapped_acceptfd ← register_strat_regular listener_fd
    accept_replenish_cc unregistered repl_cc addr reg_mapped_acceptfd
    pure reg_mapped_acceptfd
  register (StrategyListener.replenish repl_cc (fixed fixed_count) _) listener_fd addr = do
    reg_mapped_acceptfd ← register_strat_fixed listener_fd fixed_count
    accept_replenish_cc auto_registered repl_cc addr reg_mapped_acceptfd
    pure reg_mapped_acceptfd
  register (StrategyListener.multi _ _) listener_fd addr = panics todo_code

  pub listen_with_strategy :
      {U : Type 0} → SocketAddr → ℕ → StrategyListener → M c.types S (TcpListener c U)
  listen_with_strategy addr q_count strategy = do
    listener_fd ← ask_syscall c (socket (family_of addr))
    unwrap_os c (setsockopt_reuseaddr listener_fd)
    ask_syscall c (bind listener_fd addr)
    ask_syscall c (listen listener_fd (as_i32 q_count))
    ask_bearer c (with_capacity (listener_setting (record { q_count = q_count })))
    reg_mapped_acceptfd ← register strategy listener_fd addr
    pure (record {
      local_addr = addr;
      listen_fd = listener_fd;
      reg_mapped_acceptfd = reg_mapped_acceptfd;
      strategy = strategy;
      pool = c.map_new;
      pool_count = cap_pool strategy;
      a_fn = none;
      cfg_hugetlb = none;
    })
