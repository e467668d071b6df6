-- ===== src/Listener/Listen/Keep.antt =====
-- The loops of listen_with_strategy, and the state around it.
use yaoi.Base.{ℕ, zero, suc, pos, negsuc, replicate, ◌∷◌}
use yaoi.Crates.{
  Crates, Trace, SocketAddr, TargetFd, auto_registered, unregistered, socket, setsockopt_reuseaddr,
  bind, listen, with_capacity, register_acceptor, commit_registered_init, register_files, submit,
}
use yaoi.Outcome.{ask_bearer, ask_syscall, ask_submitter, unwrap_os}
use yaoi.Outcome.Keeps.{
  Sound, Keeps, bind-Keeps, pure-Keeps, ask_bearer-Keeps, ask_syscall-Keeps, ask_submitter-Keeps,
  unwrap_os-Keeps, Post-Sound,
}
use yaoi.Strategy.{StrategyListener, regular, fixed}
use yaoi.Capacity.{listener_setting}
use yaoi.Listener.{TcpListener}
use yaoi.Listener.Listen.{
  family_of, as_i32, register_strat_regular, register_strat_fixed, add_accepts, accept_call,
  accept_replenish_cc, register, listen_with_strategy,
}
use yaoi.Listener.Listen.Laws.{IsFresh, listen_with_strategy-IsFresh}

module _ (c : Crates) {S : Type 0} (Q : S → Type 0) where
  regular-Keeps : (fd : ℕ) → Keeps Q (register_strat_regular c fd)
  unfolding register_strat_regular
  regular-Keeps fd =
      bind-Keeps Q (ask_bearer c (register_acceptor fd)) _ (ask_bearer-Keeps c Q _) λ r.
        bind-Keeps Q (ask_bearer c commit_registered_init) _ (ask_bearer-Keeps c Q _)
          (λ _. pure-Keeps Q r)

  fixed-Keeps : (fd n : ℕ) → Keeps Q (register_strat_fixed c fd n)
  unfolding register_strat_fixed
  fixed-Keeps fd zero = λ s t q same. cc
  fixed-Keeps fd (suc n) =
      bind-Keeps Q (ask_submitter c (register_files (pos fd ∷ replicate n (negsuc 0)))) _
        (ask_submitter-Keeps c Q _) (λ _. pure-Keeps {A = ℕ} Q 0)

  add_accepts-Keeps :
      (addr : SocketAddr) (fd : ℕ) (target : TargetFd) (n : ℕ)
      → Keeps Q (add_accepts c addr fd target n)
  unfolding add_accepts
  add_accepts-Keeps addr fd target zero = pure-Keeps Q tt
  add_accepts-Keeps addr fd target (suc n) =
      bind-Keeps Q (ask_bearer c (accept_call c addr fd target)) _ (ask_bearer-Keeps c Q _)
        (λ _. add_accepts-Keeps addr fd target n)

  replenish-Keeps :
      (target : TargetFd) (n : ℕ) (addr : SocketAddr) (fd : ℕ)
      → Keeps Q (accept_replenish_cc c target n addr fd)
  unfolding accept_replenish_cc
  replenish-Keeps target n addr fd =
      bind-Keeps Q (add_accepts c addr fd target n) _ (add_accepts-Keeps addr fd target n)
        λ _. bind-Keeps Q (ask_bearer c submit) _ (ask_bearer-Keeps c Q _) (λ _. pure-Keeps Q tt)

  register-Keeps :
      (strategy : StrategyListener) (fd : ℕ) (addr : SocketAddr)
      → Keeps Q (register c strategy fd addr)
  unfolding register
  register-Keeps (StrategyListener.replenish n regular cap) fd addr =
      bind-Keeps Q (register_strat_regular c fd) _ (regular-Keeps fd) λ r.
        bind-Keeps Q (accept_replenish_cc c unregistered n addr r) _
          (replenish-Keeps unregistered n addr r) (λ _. pure-Keeps Q r)
  register-Keeps (StrategyListener.replenish n (fixed k) cap) fd addr =
      bind-Keeps Q (register_strat_fixed c fd k) _ (fixed-Keeps fd k) λ r.
        bind-Keeps Q (accept_replenish_cc c auto_registered n addr r) _
          (replenish-Keeps auto_registered n addr r) (λ _. pure-Keeps Q r)
  register-Keeps (StrategyListener.multi reg cap) fd addr = λ s t q same. cc

  listen-Keeps :
      (U : Type 0) (addr : SocketAddr) (q_count : ℕ) (strategy : StrategyListener)
      → Keeps Q (listen_with_strategy c {U = U} addr q_count strategy)
  unfolding listen_with_strategy
  listen-Keeps U addr q_count strategy =
      bind-Keeps Q (ask_syscall c (socket (family_of addr))) _ (ask_syscall-Keeps c Q _) λ fd.
        bind-Keeps Q (unwrap_os c (setsockopt_reuseaddr fd)) _ (unwrap_os-Keeps c Q _) λ _.
          bind-Keeps Q (ask_syscall c (bind fd addr)) _ (ask_syscall-Keeps c Q _) λ _.
            bind-Keeps Q (ask_syscall c (listen fd (as_i32 q_count))) _ (ask_syscall-Keeps c Q _)
              λ _.
                bind-Keeps Q
                  (ask_bearer c (with_capacity (listener_setting (record { q_count = q_count })))) _
                  (ask_bearer-Keeps c Q _)
                  λ _.
                    bind-Keeps Q (register c strategy fd addr) _ (register-Keeps strategy fd addr)
                      (λ r s t q. q)

-- A listener that is made is fresh, and to make it runs out of no fuel.
pub listen-Sound :
    (c : Crates) {S : Type 0} (U : Type 0) (addr : SocketAddr) (q_count : ℕ)
    (strategy : StrategyListener) (s : S) (t : Trace c.types)
    → Sound
        (λ (l : TcpListener c U) _. IsFresh {c = c} {U = U} addr strategy l)
        (listen_with_strategy c {U = U} addr q_count strategy s t)
listen-Sound c U addr q_count strategy s t =
    Post-Sound _ (λ _ _. Unit {0}) (listen_with_strategy c {U = U} addr q_count strategy s t)
      (listen_with_strategy-IsFresh c U addr q_count strategy s t)
      (listen-Keeps c (λ _. Unit {0}) U addr q_count strategy s t tt)
