-- ===== src/Listener/Listen/Calls.antt =====
-- The calls that TcpListener::listen_with_strategy makes for a listener that it returns.
use yaoi.Base.{
  ℕ, zero, suc, ◌≡◌, sym, ap, subst, ◌∙◌, pos, negsuc, [], ◌∷◌, ◌++◌, replicate, append_assoc,
  append-nil,
}
use yaoi.Crates.{
  Crates, CrateTypes, Trace, Call, Reply, done, failed, SocketAddr, TargetFd, auto_registered,
  unregistered, socket, setsockopt_reuseaddr, bind, listen, with_capacity, register_acceptor,
  commit_registered_init, register_files, submit,
}
use yaoi.Outcome.{
  M, Outcome, ok, err, panic, YaoiError, bearer, std_io, io_uring, outcome, unwrapped, chain,
  ask_bearer, ask_syscall, ask_submitter, unwrap_os,
}
use yaoi.Strategy.{StrategyListener, regular, fixed}
use yaoi.Capacity.{listener_setting}
use yaoi.Listener.{TcpListener}
use yaoi.Listener.Listen.{
  family_of, as_i32, accept_call, register_strat_regular, register_strat_fixed, add_accepts,
  accept_replenish_cc, register, listen_with_strategy,
}

module _ {ty : CrateTypes} {S : Type 0} where
  -- With a value, the calls that were made for it.
  abbrev pub Calls : {A : Type 0} → Trace ty → (A → Trace ty) → Outcome ty A × S × Trace ty → Type 0
  Calls t calls (ok a, s, t') = t' ≡ t ++ calls a
  Calls t calls (err e, s, t') = Unit {0}
  Calls t calls (panic p, s, t') = Unit {0}

  -- One operation's calls, then those of the next.
  chain-Calls :
      {A B : Type 0} (t : Trace ty) (first : A → Trace ty) (calls : B → Trace ty)
      (x : Outcome ty A × S × Trace ty) (f : A → M ty S B)
      → Calls t first x
      → ((a : A) (s : S) (t' : Trace ty) → t' ≡ t ++ first a → Calls t calls (f a s t'))
      → Calls t calls (chain x f)
  chain-Calls t first calls (ok a, s, t') f h k = k a s t' h
  chain-Calls t first calls (err e, s, t') f h k = tt
  chain-Calls t first calls (panic p, s, t') f h k = tt

-- The calls of a strategy: for regular descriptors the listener is registered with the ring, for fixed
-- ones it is the first of the table; then come the accepts, and one submit.
abbrev accepts : (c : Crates) → SocketAddr → ℕ → TargetFd → ℕ → Trace c.types
accepts c addr fd target n = replicate n (accept_call c addr fd target) ++ submit ∷ []

abbrev pub registration : (c : Crates) → StrategyListener → ℕ → SocketAddr → ℕ → Trace c.types
registration c (StrategyListener.replenish n regular _) fd addr mapped =
    register_acceptor fd ∷ commit_registered_init ∷ accepts c addr mapped unregistered n
registration c (StrategyListener.replenish n (fixed zero) _) fd addr mapped = []
registration c (StrategyListener.replenish n (fixed (suc k)) _) fd addr mapped =
    register_files (pos fd ∷ replicate k (negsuc 0)) ∷ accepts c addr mapped auto_registered n
registration c (StrategyListener.multi _ _) fd addr mapped = []

module _ (c : Crates) (t0 : Trace c.types) where
  one_more :
      (t before : Trace c.types) (k : Call c.types)
      → t ≡ t0 ++ before
      → t ++ k ∷ [] ≡ t0 ++ (before ++ k ∷ [])
  one_more t before k h = ap (λ x. x ++ k ∷ []) h ∙ append_assoc t0 before (k ∷ [])

module _ (c : Crates) {S : Type 0} (t0 : Trace c.types) where
  outcome-Calls :
      {E : Type 0} (e : E → YaoiError c.types) (r : Reply E ℕ) (k : Call c.types) (s : S)
      (t before : Trace c.types)
      → t ≡ t0 ++ before
      → Calls t0 (λ _. before ++ k ∷ []) (outcome {ty = c.types} e r, s, t ++ k ∷ [])
  outcome-Calls e (done n) k s t before h = one_more c t0 t before k h
  outcome-Calls e (failed x) k s t before h = tt

  unwrapped-Calls :
      {E : Type 0} (r : Reply E ℕ) (k : Call c.types) (s : S) (t before : Trace c.types)
      → t ≡ t0 ++ before
      → Calls t0 (λ _. before ++ k ∷ []) (unwrapped {ty = c.types} r, s, t ++ k ∷ [])
  unwrapped-Calls (done n) k s t before h = one_more c t0 t before k h
  unwrapped-Calls (failed x) k s t before h = tt

  ask_bearer-Calls :
      (k : Call c.types) (s : S) (t before : Trace c.types)
      → t ≡ t0 ++ before
      → Calls t0 (λ _. before ++ k ∷ []) (ask_bearer c k s t)
  ask_bearer-Calls k s t before h = outcome-Calls bearer (c.bearer t k) k s t before h

  add_accepts-Calls :
      (addr : SocketAddr) (fd : ℕ) (target : TargetFd) (n : ℕ) (s : S) (t before : Trace c.types)
      → t ≡ t0 ++ before
      → Calls t0
          (λ _. before ++ replicate n (accept_call c addr fd target))
          (add_accepts c addr fd target n s t)
  unfolding add_accepts
  add_accepts-Calls addr fd target zero s t before h =
      h ∙ ap (λ x. t0 ++ x) (sym (append-nil before))
  add_accepts-Calls addr fd target (suc n) s t before h =
      let k = accept_call c addr fd target in
      chain-Calls t0 (λ _. before ++ k ∷ []) _ (ask_bearer c k s t) _
        (ask_bearer-Calls k s t before h)
        λ _ s' t' h'.
          subst (λ l. Calls t0 (λ _. l) (add_accepts c addr fd target n s' t'))
            (append_assoc before (k ∷ []) (replicate n k))
            (add_accepts-Calls addr fd target n s' t' (before ++ k ∷ []) h')

  accept_replenish_cc-Calls :
      (target : TargetFd) (n : ℕ) (addr : SocketAddr) (fd : ℕ) (s : S) (t before : Trace c.types)
      → t ≡ t0 ++ before
      → Calls t0
          (λ _. before ++ accepts c addr fd target n)
          (accept_replenish_cc c target n addr fd s t)
  unfolding accept_replenish_cc
  accept_replenish_cc-Calls target n addr fd s t before h =
      let ks = replicate n (accept_call c addr fd target) in
      chain-Calls t0 (λ _. before ++ ks) _ (add_accepts c addr fd target n s t) _
        (add_accepts-Calls addr fd target n s t before h)
        λ _ s' t' h'.
          chain-Calls t0 (λ _. (before ++ ks) ++ submit ∷ []) _ (ask_bearer c submit s' t') _
            (ask_bearer-Calls submit s' t' (before ++ ks) h')
            λ _ s'' t'' h''. h'' ∙ ap (λ x. t0 ++ x) (append_assoc before ks (submit ∷ []))

  register-Calls :
      (strategy : StrategyListener) (fd : ℕ) (addr : SocketAddr) (s : S) (t before : Trace c.types)
      → t ≡ t0 ++ before
      → Calls t0
          (λ mapped. before ++ registration c strategy fd addr mapped)
          (register c strategy fd addr s t)
  unfolding register register_strat_regular register_strat_fixed
  register-Calls (StrategyListener.replenish n regular cap) fd addr s t before h =
      let first = before ++ register_acceptor fd ∷ [] in
      chain-Calls t0 (λ _. first ++ commit_registered_init ∷ []) _ (register_strat_regular c fd s t)
        _
        (chain-Calls t0 (λ _. first) _ (ask_bearer c (register_acceptor fd) s t) _
          (ask_bearer-Calls (register_acceptor fd) s t before h)
          λ _ s' t' h'.
            chain-Calls t0 (λ _. first ++ commit_registered_init ∷ []) _
              (ask_bearer c commit_registered_init s' t') _
              (ask_bearer-Calls commit_registered_init s' t' first h') λ _ _ _ h''. h'')
        λ mapped s' t' h'.
          chain-Calls t0
            (λ _. (first ++ commit_registered_init ∷ []) ++ accepts c addr mapped unregistered n) _
            (accept_replenish_cc c unregistered n addr mapped s' t') _
            (accept_replenish_cc-Calls unregistered n addr mapped s' t' _ h')
            λ _ s'' t'' h''.
              h''
              ∙ ap (λ x. t0 ++ x)
                  (append_assoc first (commit_registered_init ∷ [])
                      (accepts c addr mapped unregistered n)
                    ∙ append_assoc before (register_acceptor fd ∷ [])
                        (commit_registered_init ∷ accepts c addr mapped unregistered n))
  register-Calls (StrategyListener.replenish n (fixed zero) cap) fd addr s t before h = tt
  register-Calls (StrategyListener.replenish n (fixed (suc k)) cap) fd addr s t before h =
      let call = register_files (pos fd ∷ replicate k (negsuc 0)) in
      chain-Calls t0 (λ mapped. before ++ call ∷ []) _ (register_strat_fixed c fd (suc k) s t) _
        (chain-Calls t0 (λ _. before ++ call ∷ []) _ (ask_submitter c call s t) _
          (outcome-Calls io_uring (c.os t call) call s t before h) λ _ _ _ h'. h')
        λ mapped s' t' h'.
          chain-Calls t0 (λ _. (before ++ call ∷ []) ++ accepts c addr mapped auto_registered n) _
            (accept_replenish_cc c auto_registered n addr mapped s' t') _
            (accept_replenish_cc-Calls auto_registered n addr mapped s' t' _ h')
            λ _ s'' t'' h''.
              h''
              ∙ ap (λ x. t0 ++ x)
                  (append_assoc before (call ∷ []) (accepts c addr mapped auto_registered n))
  register-Calls (StrategyListener.multi reg cap) fd addr s t before h = tt

-- All calls for a listener: its socket is made, set up, bound and listened on before the ring is made, and accepts
-- are the last.
abbrev pub listen_calls :
    (c : Crates) {U : Type 0} → SocketAddr → ℕ → StrategyListener → TcpListener c U → Trace c.types
listen_calls c addr q_count strategy l =
    socket (family_of addr)
    ∷ setsockopt_reuseaddr l.listen_fd
    ∷ bind l.listen_fd addr
    ∷ listen l.listen_fd (as_i32 q_count)
    ∷ with_capacity (listener_setting (record { q_count = q_count }))
    ∷ registration c strategy l.listen_fd addr l.reg_mapped_acceptfd

-- Whatever the environment answers, a listener that is returned was made by exactly these calls, in this order: the
-- socket of the address's family, the reuse of its address, bind, listen and the ring, on the descriptor of the
-- listener; then the registration of its strategy, as many accepts of the address's family as the strategy
-- replenishes, and one submit.
pub listen_with_strategy-Calls :
    (c : Crates) (U : Type 0) {S : Type 0} (addr : SocketAddr) (q_count : ℕ)
    (strategy : StrategyListener) (s : S) (t : Trace c.types)
    → Calls t
        (listen_calls c {U = U} addr q_count strategy)
        (listen_with_strategy c {U = U} addr q_count strategy s t)
unfolding listen_with_strategy
listen_with_strategy-Calls c U addr q_count strategy s t =
    let k1 = socket (family_of addr) in
    let k5 = with_capacity (listener_setting (record { q_count = q_count })) in
    chain-Calls t (λ _. k1 ∷ []) _ (ask_syscall c k1 s t) _
      (outcome-Calls c t std_io (c.os t k1) k1 s t [] (sym (append-nil t)))
      λ fd s1 t1 h1.
        let k2 = setsockopt_reuseaddr fd in
        chain-Calls t (λ _. k1 ∷ k2 ∷ []) _ (unwrap_os c k2 s1 t1) _
          (unwrapped-Calls c t (c.os t1 k2) k2 s1 t1 (k1 ∷ []) h1)
          λ _ s2 t2 h2.
            let k3 = bind fd addr in
            chain-Calls t (λ _. k1 ∷ k2 ∷ k3 ∷ []) _ (ask_syscall c k3 s2 t2) _
              (outcome-Calls c t std_io (c.os t2 k3) k3 s2 t2 (k1 ∷ k2 ∷ []) h2)
              λ _ s3 t3 h3.
                let k4 = listen fd (as_i32 q_count) in
                chain-Calls t (λ _. k1 ∷ k2 ∷ k3 ∷ k4 ∷ []) _ (ask_syscall c k4 s3 t3) _
                  (outcome-Calls c t std_io (c.os t3 k4) k4 s3 t3 (k1 ∷ k2 ∷ k3 ∷ []) h3)
                  λ _ s4 t4 h4.
                    chain-Calls t (λ _. k1 ∷ k2 ∷ k3 ∷ k4 ∷ k5 ∷ []) _ (ask_bearer c k5 s4 t4) _
                      (ask_bearer-Calls c t k5 s4 t4 (k1 ∷ k2 ∷ k3 ∷ k4 ∷ []) h4)
                      λ _ s5 t5 h5.
                        chain-Calls t
                          (λ mapped.
                            k1 ∷ k2 ∷ k3 ∷ k4 ∷ k5 ∷ registration c strategy fd addr mapped)
                          _ (register c strategy fd addr s5 t5) _
                          (register-Calls c t strategy fd addr s5 t5 (k1 ∷ k2 ∷ k3 ∷ k4 ∷ k5 ∷ [])
                            h5)
                          λ _ _ _ h6. h6
