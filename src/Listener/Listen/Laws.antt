-- ===== src/Listener/Listen/Laws.antt =====
-- Which strategies a listener can be made with, and what a new listener is like.
use yaoi.Base.{ℕ, zero, suc, ◌≡◌, refl, none}
use yaoi.Crates.{
  Crates, Trace, SocketAddr, auto_registered, unregistered, socket, setsockopt_reuseaddr, bind,
  listen, with_capacity,
}
use yaoi.Outcome.{ask_bearer, ask_syscall, unwrap_os}
use yaoi.Outcome.Rules.{Post, chain-Post, chain-Post_any}
use yaoi.Strategy.{StrategyListener, regular, fixed, cap_pool}
use yaoi.Capacity.{listener_setting}
use yaoi.Listener.{TcpListener}
use yaoi.Listener.Listen.{
  family_of, as_i32, register_strat_regular, register_strat_fixed, accept_replenish_cc, register,
  listen_with_strategy,
}

-- The strategies that are implemented: replenishing ones, with regular descriptors or at least one
-- fixed descriptor.
abbrev pub IsServed : StrategyListener → Type 0
IsServed (StrategyListener.replenish _ regular _) = Unit {0}
IsServed (StrategyListener.replenish _ (fixed zero) _) = ⊥
IsServed (StrategyListener.replenish _ (fixed (suc n)) _) = Unit {0}
IsServed (StrategyListener.multi _ _) = ⊥

-- A listener that nothing was accepted by yet.
pub record IsFresh {c : Crates} {U : Type 0} (addr : SocketAddr) (strategy : StrategyListener)
    (l : TcpListener c U) : Type 0 where
  pub served : IsServed strategy
  pub at_addr : l.local_addr ≡ addr
  pub by_strategy : l.strategy ≡ strategy
  pub capacity : l.pool_count ≡ cap_pool strategy
  pub no_callback : l.a_fn ≡ none
  pub no_pages : l.cfg_hugetlb ≡ none
  pub all_free : (slot : ℕ) → c.get l.pool slot ≡ none

module _ (c : Crates) {S : Type 0} where
  register-IsServed :
      (strategy : StrategyListener) (fd : ℕ) (addr : SocketAddr) (s : S) (t : Trace c.types)
      → Post (λ _ _. IsServed strategy) (register c strategy fd addr s t)
  unfolding register register_strat_fixed
  register-IsServed (StrategyListener.replenish n regular cap) fd addr s t =
      chain-Post_any _ (register_strat_regular c fd s t) _ λ r s' t'.
        chain-Post_any _ (accept_replenish_cc c unregistered n addr r s' t') _ (λ _ _ _. tt)
  register-IsServed (StrategyListener.replenish n (fixed zero) cap) fd addr s t = tt
  register-IsServed (StrategyListener.replenish n (fixed (suc k)) cap) fd addr s t =
      chain-Post_any _ (register_strat_fixed c fd (suc k) s t) _ λ r s' t'.
        chain-Post_any _ (accept_replenish_cc c auto_registered n addr r s' t') _ (λ _ _ _. tt)
  register-IsServed (StrategyListener.multi reg cap) fd addr s t = tt

  -- A listener is made only with a replenishing strategy, with regular descriptors or at least one
  -- fixed one. It is at the given address, with that strategy and its capacity, without a callback and
  -- huge pages, and every slot of its pool is free.
  pub listen_with_strategy-IsFresh :
      (U : Type 0) (addr : SocketAddr) (q_count : ℕ) (strategy : StrategyListener) (s : S)
      (t : Trace c.types)
      → Post
          (λ (l : TcpListener c U) _. IsFresh {c = c} {U = U} addr strategy l)
          (listen_with_strategy c {U = U} addr q_count strategy s t)
  unfolding listen_with_strategy
  listen_with_strategy-IsFresh U addr q_count strategy s t =
      chain-Post_any _ (ask_syscall c (socket (family_of addr)) s t) _ λ fd s1 t1.
        chain-Post_any _ (unwrap_os c (setsockopt_reuseaddr fd) s1 t1) _ λ _ s2 t2.
          chain-Post_any _ (ask_syscall c (bind fd addr) s2 t2) _ λ _ s3 t3.
            chain-Post_any _ (ask_syscall c (listen fd (as_i32 q_count)) s3 t3) _ λ _ s4 t4.
              chain-Post_any _
                (ask_bearer c (with_capacity (listener_setting (record { q_count = q_count }))) s4
                  t4)
                _
                λ _ s5 t5.
                  chain-Post (λ _ _. IsServed strategy) _ (register c strategy fd addr s5 t5) _
                    (register-IsServed strategy fd addr s5 t5)
                    λ r s6 t6 served. record {
                      served = served;
                      at_addr = refl;
                      by_strategy = refl;
                      capacity = refl;
                      no_callback = refl;
                      no_pages = refl;
                      all_free = λ slot. c.get-new slot;
                    }
