-- ===== src/ClientPool/Connect.antt =====
-- What connect_with_cb leaves in the slots of the pool.
use yaoi.Base.{
  as_u32, ap, ℕ, zero, suc, ◌+◌, ◌%◌, ◌^◌, ◌≤◌, ◌<◌, ◌≡◌, ◌⊎◌, inl, inr, refl, arith, ◌==◌,
  Bool-cases, true, some, [], ◌∷◌, ◌++◌, negsuc, replicate, ℕ_discrete,
}
use yaoi.Crates.{
  Crates, SocketAddr, Trace, Reply, done, failed, af_inet, push_socket, push_connect,
  register_files, submit,
}
use yaoi.Outcome.{
  Outcome, ok, err, panic, unwrap_on_err, unwrapped, chain, unwrap_bearer, pure, ◌>>◌,
}
use yaoi.ClientPool.{
  TcpClientPool, Callback, connecting, start_connecting, connect_slot, connect_slots,
  connect_with_cb,
}

unwrap-cases :
    (c : Crates) {E : Type 0} (r : Reply E ℕ)
    → ((n : ℕ) × (unwrapped {ty = c.types} r ≡ ok n))
      ⊎ (unwrapped {ty = c.types} r ≡ panic unwrap_on_err)
unwrap-cases c (done n) = inl (n, refl)
unwrap-cases c (failed e) = inr refl

module _ (c : Crates) {U : Type 0} where
  -- A slot waits for its connect.
  abbrev pub IsConnecting : ℕ → TcpClientPool c U → Type 0
  IsConnecting k p = (op : ℕ) × (c.get p.pool k ≡ some (connecting op))

  -- `n` connects more are under way and slot `k`, as a u32, is one that waits; or an unwrap has panicked.
  abbrev pub AfterConnect :
      {A : Type 0}
      → TcpClientPool c U
      → ℕ
      → ℕ
      → Outcome c.types A × TcpClientPool c U × Trace c.types
      → Type 0
  AfterConnect p n k (ok _, p', _) =
      (p'.state_connecting % 2 ^ 64 ≡ (p.state_connecting + n) % 2 ^ 64)
      × IsConnecting (as_u32 k) p'
  AfterConnect p n k (err e, _, _) = ⊥
  AfterConnect p n k (panic q, _, _) = q ≡ unwrap_on_err

  start_connecting-IsConnecting :
      (x op k : ℕ) (p : TcpClientPool c U)
      → IsConnecting k p ⊎ (k ≡ x)
      → IsConnecting k (start_connecting c x op p)
  start_connecting-IsConnecting x op k p h = elim (Bool-cases (x == k)) [
    | inl same ↦ (op, rw (c.get-insert, same) refl)
    | inr other ↦ elim h [
      | inl (i, e) ↦ (i, rw (c.get-insert, other) e)
      | inr e ↦ absurd (ground arith)
    ]
  ]

  AfterConnect-next :
      {A : Type 0} (p : TcpClientPool c U) (n k x op : ℕ)
      (r : Outcome c.types A × TcpClientPool c U × Trace c.types)
      → AfterConnect (start_connecting c x op p) n k r
      → AfterConnect p (suc n) k r
  AfterConnect-next p n k x op (ok _, p', _) (count, waits) = (omega arith, waits)
  AfterConnect-next p n k x op (err e, _, _) h = h
  AfterConnect-next p n k x op (panic q, _, _) h = h

  in_range :
      (x n k : ℕ) (p : TcpClientPool c U) (op : ℕ)
      → IsConnecting (as_u32 k) p ⊎ ((x ≤ k) × (k < x + suc n))
      → IsConnecting (as_u32 k) (start_connecting c (as_u32 x) op p)
        ⊎ ((x + 1 ≤ k) × (k < x + 1 + n))
  in_range x n k p op (inl waits) =
      inl (start_connecting-IsConnecting (as_u32 x) op (as_u32 k) p (inl waits))
  in_range x n k p op (inr (from, to)) = elim (ℕ_discrete k x) [
    | yes e ↦ inl (start_connecting-IsConnecting (as_u32 x) op (as_u32 k) p (inr (ap as_u32 e)))
    | no ne ↦ inr (omega arith, omega arith)
  ]

  connect_slots-IsConnecting :
      (addr : SocketAddr) (n x k : ℕ) (p : TcpClientPool c U) (t : Trace c.types)
      → IsConnecting (as_u32 k) p ⊎ ((x ≤ k) × (k < x + n))
      → AfterConnect p n k (connect_slots c addr n x p t)
  unfolding connect_slots connect_slot
  connect_slots-IsConnecting addr zero x k p t h = elim h [
    | inl waits ↦ (omega arith, waits)
    | inr range ↦ absurd (omega arith)
  ]
  connect_slots-IsConnecting addr (suc n) x k p t h =
      elim (unwrap-cases c (c.bearer t (push_socket (as_u32 x) af_inet true))) [
        | inl (_, made) ↦
            rw made
              (elim (unwrap-cases c (
                c.bearer (t ++ push_socket (as_u32 x) af_inet true ∷ [])
                  (push_connect (as_u32 x) addr))) [
                    | inl (op, linked) ↦ rw linked (
                        AfterConnect-next p n k (as_u32 x) op _ (
                          connect_slots-IsConnecting addr n (x + 1) k
                            (start_connecting c (as_u32 x) op p) _ (in_range x n k p op h)))
                    | inr refused ↦ rw refused refl
                  ])
        | inr refused ↦ rw refused refl
      ]

  -- What a caller of connect_with_cb relies on for slot `k`, as a u32.
  abbrev pub AllConnecting :
      TcpClientPool c U → ℕ → Outcome c.types ℕ × TcpClientPool c U × Trace c.types → Type 0
  AllConnecting p k (ok n, p', _) =
      (n ≡ p.pool_count)
      × (p'.state_connecting % 2 ^ 64 ≡ (p.state_connecting + n) % 2 ^ 64)
      × IsConnecting (as_u32 k) p'
  AllConnecting p k (err e, _, _) = ⊥
  AllConnecting p k (panic q, _, _) = q ≡ unwrap_on_err

  submitted_lem :
      (p : TcpClientPool c U) (k : ℕ)
      (x : Outcome c.types (Unit {0}) × TcpClientPool c U × Trace c.types)
      → AfterConnect p p.pool_count k x
      → AllConnecting p k (chain x (λ _. unwrap_bearer c submit >> pure p.pool_count))
  submitted_lem p k (ok _, p', t) (count, waits) = elim (unwrap-cases c (c.bearer t submit)) [
    | inl (_, done_well) ↦ rw done_well (refl, count, waits)
    | inr refused ↦ rw refused refl
  ]
  submitted_lem p k (err e, p', t) h = h
  submitted_lem p k (panic q, p', t) h = h

  -- Whatever the environment answers: if connect_with_cb returns, the number is that of the places of
  -- the pool, the slot of every number below it, cut to 32 bits, waits for its connect, and so many
  -- connects more are counted as under way. It gives no error; a failure of the ring panics.
  pub connect_with_cb-AllConnecting :
      (addr : SocketAddr) (cb : Callback c.types U) (p : TcpClientPool c U) (t : Trace c.types)
      (k : ℕ)
      → k < p.pool_count
      → AllConnecting p k (connect_with_cb c addr cb p t)
  unfolding connect_with_cb
  connect_with_cb-AllConnecting addr cb p t k h =
      elim (unwrap-cases c (c.os t (register_files (replicate p.pool_count (negsuc 0))))) [
        | inl (_, registered) ↦ rw registered (
            submitted_lem (record p { c_fn = some cb }) k _
              (connect_slots-IsConnecting addr p.pool_count 0 k (record p { c_fn = some cb }) _
                (inr (omega arith, omega arith))))
        | inr refused ↦ rw refused refl
      ]
