-- ===== src/ClientPool/Session.antt =====
-- A client pool through the calls of its owner: TcpClientPool::with_capacity, then set_hugetlb,
-- connect_with_cb and check, in any order.
use yaoi.Base.{
  as_u32, ℕ, zero, suc, ◌+◌, ◌%◌, ◌^◌, ◌≡◌, refl, sym, ap, subst, ◌∙◌, arith, Option, none, some,
  replicate, negsuc, true,
}
use yaoi.Crates.{
  Crates, Trace, SocketAddr, Reply, done, failed, af_inet, push_socket, push_connect, submit,
  with_capacity, register_files,
}
use yaoi.Outcome.{ok, unwrapped, ask_bearer, unwrap_bearer, unwrap_os}
use yaoi.Outcome.Rules.{Post, chain-Post, chain-Post_any, map-Post}
use yaoi.Capacity.{pool_setting}
use yaoi.ClientPool.{
  TcpClientPool, Callback, connecting, pool_with_capacity, set_hugetlb, start_connecting,
  connect_slot, connect_slots, connect_with_cb,
}
use yaoi.ClientPool.Check.{Work, check}
use yaoi.ClientPool.Check.Valid.{IsFair, IsValid, set_entry-IsValid}
use yaoi.ClientPool.Check.Keep.{recount-IsValid, client_check-IsValid}
use yaoi.ClientPool.Check.Counts.{total, check-total}
use yaoi.Outcome.Keeps.{Sound-Post}

-- A call that is unwrapped changes no state.
unwrapped-Post :
    (c : Crates) {S : Type 0} {E : Type 0} (r : Reply E ℕ) (s : S) (t : Trace c.types)
    → Post (λ _ s'. s' ≡ s) (unwrapped {ty = c.types} r, s, t)
unwrapped-Post c (done n) s t = refl
unwrapped-Post c (failed e) s t = tt

module _ (c : Crates) {U : Type 0} where
  abbrev pub with_clients : Work c U → TcpClientPool c U → Work c U
  with_clients w p = record w { clients = p }

  -- One call that returns without an error, and the number of connects that it starts.
  pub data ClientStep : Work c U → ℕ → Work c U → Type 0 where
    sets :
        {w : Work c U} {p : TcpClientPool c U} (t t' : Trace c.types) (choice : c.HugePageChoice)
        → set_hugetlb c choice w.clients t ≡ (ok tt, p, t')
        → ClientStep w 0 (with_clients w p)
    connects :
        {w : Work c U} {p : TcpClientPool c U} (t t' : Trace c.types) (addr : SocketAddr)
        (cb : Callback c.types U) (n : ℕ)
        → IsFair (some cb)
        → connect_with_cb c addr cb w.clients t ≡ (ok n, p, t')
        → ClientStep w n (with_clients w p)
    checks :
        {w w' : Work c U} (t t' : Trace c.types) (cap n : ℕ)
        → check c cap w t ≡ (ok n, w', t')
        → ClientStep w 0 w'

  pub data ClientSteps : Work c U → ℕ → Work c U → Type 0 where
    idle : {w : Work c U} → ClientSteps w 0 w
    and_then :
        {w w' w'' : Work c U} {m n : ℕ}
        → ClientStep w m w'
        → ClientSteps w' n w''
        → ClientSteps w (m + n) w''

  -- A valid pool, and `n` connections more that are counted.
  abbrev Adds : ℕ → Work c U → Work c U → Type 0
  Adds n w w' = IsValid w' × (total c w' ≡ (total c w + n) % 2 ^ 64)

  start_connecting-Adds :
      (w : Work c U) (x op : ℕ)
      → IsValid w
      → Adds 1 w (with_clients w (start_connecting c x op w.clients))
  start_connecting-Adds w x op v =
      let counted =
        with_clients w
          (record w.clients { state_connecting = (w.clients.state_connecting + 1) % 2 ^ 64 }) in
      (
        set_entry-IsValid c x (connecting op) counted (recount-IsValid c w counted refl refl v) tt,
        omega arith,
      )

  connect_slot-Adds :
      (addr : SocketAddr) (x : ℕ) (w : Work c U) (t : Trace c.types)
      → IsValid w
      → Post (λ _ p. Adds 1 w (with_clients w p)) (connect_slot c addr x w.clients t)
  unfolding connect_slot
  connect_slot-Adds addr x w t v =
      chain-Post (λ _ p. p ≡ w.clients) _
        (unwrap_bearer c (push_socket (as_u32 x) af_inet true) w.clients t) _
        (unwrapped-Post c (c.bearer t (push_socket (as_u32 x) af_inet true)) w.clients _)
        λ _ p t' same.
          chain-Post (λ _ p'. p' ≡ p) _ (unwrap_bearer c (push_connect (as_u32 x) addr) p t') _
            (unwrapped-Post c (c.bearer t' (push_connect (as_u32 x) addr)) p _)
            λ op p' t'' same'.
              subst (λ q. Adds 1 w (with_clients w (start_connecting c (as_u32 x) op q)))
                (sym (same' ∙ same)) (start_connecting-Adds w (as_u32 x) op v)

  Adds-trans : (m n : ℕ) (w w' w'' : Work c U) → Adds m w w' → Adds n w' w'' → Adds (m + n) w w''
  Adds-trans m n w w' w'' (_, e) (v, e') = (v, omega arith)

  connect_slots-Adds :
      (addr : SocketAddr) (n x : ℕ) (w : Work c U) (t : Trace c.types)
      → IsValid w
      → Post (λ _ p. Adds n w (with_clients w p)) (connect_slots c addr n x w.clients t)
  unfolding connect_slots
  connect_slots-Adds addr zero x w t v = (v, omega arith)
  connect_slots-Adds addr (suc n) x w t v =
      chain-Post (λ _ p. Adds 1 w (with_clients w p)) _ (connect_slot c addr x w.clients t) _
        (connect_slot-Adds addr x w t v)
        λ _ p t' h.
          map-Post _ _ (connect_slots c addr n (x + 1) p t')
            (λ _ p' h'.
              subst (λ k. Adds k w (with_clients w p')) (omega arith)
                (Adds-trans 1 n w (with_clients w p) (with_clients w p') h h'))
            (connect_slots-Adds addr n (x + 1) (with_clients w p) t' h.0)

  connects-Adds :
      (addr : SocketAddr) (cb : Callback c.types U) (w : Work c U) (t : Trace c.types)
      → IsFair (some cb)
      → IsValid w
      → Post (λ n p. Adds n w (with_clients w p)) (connect_with_cb c addr cb w.clients t)
  unfolding connect_with_cb
  connects-Adds addr cb w t fair v =
      let p0 = record w.clients { c_fn = some cb } in
      let w0 = with_clients w p0 in
      let count = w.clients.pool_count in
      let v0 : IsValid w0 = record { fair = fair; fits = v.fits } in
      chain-Post (λ _ p. p ≡ p0) _ (unwrap_os c (register_files (replicate count (negsuc 0))) p0 t)
        _ (unwrapped-Post c (c.os t (register_files (replicate count (negsuc 0)))) p0 _)
        λ _ p t' same.
          chain-Post (λ _ p'. Adds count w0 (with_clients w p')) _
            (connect_slots c addr count 0 p t') _
            (subst
              (λ q.
                Post (λ _ p'. Adds count w0 (with_clients w p'))
                  (connect_slots c addr count 0 q t'))
              (sym same) (connect_slots-Adds addr count 0 w0 t' v0))
            λ _ p' t'' h.
              chain-Post (λ _ q. q ≡ p') _ (unwrap_bearer c submit p' t'') _
                (unwrapped-Post c (c.bearer t'' submit) p' _)
                λ _ q _ same'. subst (λ r. Adds count w (with_clients w r)) (sym same') h

  sets-Adds :
      (choice : c.HugePageChoice) (w : Work c U) (t : Trace c.types)
      → IsValid w
      → Post (λ _ p. Adds 0 w (with_clients w p)) (set_hugetlb c choice w.clients t)
  unfolding set_hugetlb
  sets-Adds choice w t v = go w.clients.cfg_hugetlb refl
    where
      go :
          (o : Option c.HugePageChoice)
          → w.clients.cfg_hugetlb ≡ o
          → Post (λ _ p. Adds 0 w (with_clients w p)) (set_hugetlb c choice w.clients t)
      go none e = rw (set_hugetlb, e) (recount-IsValid c w _ refl refl v, omega arith)
      go (some old) e = rw (set_hugetlb, e) tt

  step-Adds : {w w' : Work c U} {n : ℕ} → ClientStep w n w' → IsValid w → Adds n w w'
  step-Adds {w} (sets t t' choice h) v =
      subst (Post (λ _ p. Adds 0 w (with_clients w p))) h (sets-Adds choice w t v)
  step-Adds {w} (connects t t' addr cb n fair h) v =
      subst (Post (λ n p. Adds n w (with_clients w p))) h (connects-Adds addr cb w t fair v)
  step-Adds {w} {w'} (checks t t' cap n h) v =
      let same : total c w' ≡ total c w = ap (λ x. total c x.1) (sym h) ∙ check-total c cap w t in
      (
        subst (Post (λ _ x. IsValid x)) h
            (Sound-Post (λ _ x. IsValid x) (check c cap w t) (client_check-IsValid c cap w t v)),
        omega arith,
      )

  steps-Adds : {w w' : Work c U} {n : ℕ} → ClientSteps w n w' → IsValid w → Adds n w w'
  steps-Adds {w} idle v = (v, omega arith)
  steps-Adds {w} (and_then {w' = w'} {w'' = w''} {m} {n} step rest) v =
      let h = step-Adds step v in Adds-trans m n w w' w'' h (steps-Adds rest h.0)

-- A new pool holds nothing.
pool_with_capacity-IsValid :
    (c : Crates) {U S : Type 0} (pool_cap : ℕ) (user : U) (s : S) (t : Trace c.types)
    → Post
        (λ p _.
          let w : Work c U = record { clients = p; user = user } in IsValid w × (total c w ≡ 0))
        (pool_with_capacity c pool_cap s t)
unfolding pool_with_capacity
pool_with_capacity-IsValid c {U} pool_cap user s t =
    chain-Post_any _
      (ask_bearer c (with_capacity (pool_setting (record { pool_count = pool_cap }))) s t) _
      λ _ s' t'. (record { fair = tt; fits = λ slot. rw c.get-new tt }, refl)

-- From a new client pool, whatever its owner calls in whatever order, as long as its callbacks are fair and the calls
-- return without an error, and whatever the calls of other crates answer and whatever completions come: the pool is
-- valid, with each connection on the descriptor of its slot and a valid outgoing cursor; and the connections under
-- way, failed and made are together, as a usize, as many as the connects that were started.
pub ClientSteps-total :
    (c : Crates) {U S : Type 0} (pool_cap : ℕ) (s s' : S) (t t' : Trace c.types)
    (p : TcpClientPool c U) (user : U) (n : ℕ) (w : Work c U)
    → pool_with_capacity c pool_cap s t ≡ (ok p, s', t')
    → ClientSteps c (record { clients = p; user = user }) n w
    → IsValid w × (total c w ≡ n % 2 ^ 64)
ClientSteps-total c {U} {S} pool_cap s s' t t' p user n w made steps =
    let (v, none_yet) =
      subst
        (Post (λ q _.
          let w : Work c U = record { clients = q; user = user } in IsValid w × (total c w ≡ 0)))
        made (pool_with_capacity-IsValid c pool_cap user s t) in
    let (v', count) = steps-Adds c steps v in (v', omega arith)
