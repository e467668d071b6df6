-- ===== src/ClientPool/Check/Counts.antt =====
-- The counters of a client pool through `check`.
use yaoi.Base.{
  as_u32, [], ◌∷◌, ◌++◌, Option-cases, inl, inr, ◌∙◌, ℕ, zero, suc, ◌+◌, ◌%◌, ◌^◌, ◌≡◌, refl, arith,
  ℤ, pos, negsuc, Option, none, some,
}
use yaoi.Crates.{Crates, Trace, submit, handle_completions}
use yaoi.Outcome.{M, unwrapped, Outcome, ok, err, panic, ask_bearer}
use yaoi.Outcome.Rules.{chain-state}
use yaoi.Cmaps.{ClientMapMixed, nothing}
use yaoi.Connected.{from_fixed}
use yaoi.Stream.{TcpStream}
use yaoi.Serve.{Served, upgrade}
use yaoi.Serve.Laws.{upgrade-state}
use yaoi.ClientPool.{ClientSlotCtx, tcp_stream_mut}
use yaoi.Batch.{Bundled, bundle, drain}
use yaoi.ClientPool.Complete.{handle}
use yaoi.ClientPool.Check.{
  set_entry, Work, borrow, with_slot, work_recv_multi, work_sent_zc, count_error, count_connected,
  kept, on_local, first_served, establish, connect_failed, on_result, found, work_connected, work,
  drain_bundled, check,
}

module _ (c : Crates) {U : Type 0} where
  -- The connections that are under way, failed or made, as a usize.
  abbrev pub total : Work c U → ℕ
  total w =
      (w.clients.state_connecting + w.clients.state_error + w.clients.state_connected) % 2 ^ 64

module _ (c : Crates) {U : Type 0} (n : ℕ) where
  Counts : Work c U → Type 0
  Counts w = total c w ≡ n

  count_error-Counts : (w : Work c U) → Counts w → Counts (count_error c w)
  unfolding Counts
  count_error-Counts w q = let e : total c (count_error c w) ≡ total c w = omega arith in e ∙ q

  count_connected-Counts : (w : Work c U) → Counts w → Counts (count_connected c w)
  unfolding Counts
  count_connected-Counts w q =
      let e : total c (count_connected c w) ≡ total c w = omega arith in e ∙ q

  borrow-Counts :
      {A : Type 0} (slot : ℕ) (m : M c.types (Served c U) A)
      (entry : Option (ClientSlotCtx c.types)) (w : Work c U) (t : Trace c.types)
      → Counts w
      → Counts (borrow c slot m entry w t).1
  unfolding borrow Counts
  borrow-Counts slot m none w t q = q
  borrow-Counts slot m (some entry) w t q = elim (Option-cases (tcp_stream_mut entry)) [
    | inl e ↦ rw (borrow, e) q
    | inr (stream, e) ↦ rw (borrow, e) q
  ]

  with_slot-Counts :
      {A : Type 0} (slot : ℕ) (m : M c.types (Served c U) A) (w : Work c U) (t : Trace c.types)
      → Counts w
      → Counts (with_slot c slot m w t).1
  unfolding with_slot
  with_slot-Counts slot m w t q = borrow-Counts slot m _ w t q

  kept-Counts :
      {A : Type 0} (w : Work c U) (x : Outcome c.types A × Served c U × Trace c.types)
      → Counts w
      → Counts (kept c w x).1
  unfolding Counts
  kept-Counts w (ok a, s, t) q = q
  kept-Counts w (err e, s, t) q = q
  kept-Counts w (panic p, s, t) q = q

  set_entry-Counts :
      (slot : ℕ) (entry : ClientSlotCtx c.types) (w : Work c U)
      → Counts w
      → Counts (set_entry c slot entry w)
  unfolding Counts
  set_entry-Counts slot entry w q = q

  -- A connection that is made.
  establish-Counts :
      (slot : ℕ) (w : Work c U) (t : Trace c.types) → Counts w → Counts (establish c slot w t).1
  unfolding establish
  establish-Counts slot w t q =
      chain-state Counts
        (upgrade c w.clients.cfg_hugetlb (TcpStream.connected (from_fixed slot)) w t) _
        (upgrade-state c Counts w.clients.cfg_hugetlb (TcpStream.connected (from_fixed slot)) w t q)
        λ stream w' t' q'.
          chain-state Counts
            (on_local c stream (first_served c w.clients.c_fn) (count_connected c w') t') _
            (kept-Counts (count_connected c w') (first_served c w.clients.c_fn _ t')
              (count_connected-Counts w' q'))
            λ stream' w'' t'' q''.
              chain-state Counts (ask_bearer c submit (set_entry c slot _ w'') t'') _
                (set_entry-Counts slot _ w'' q'') (λ _ _ _ p. p)

  on_result-Counts :
      (slot : ℕ) (result : ℤ) (w : Work c U) (t : Trace c.types)
      → Counts w
      → Counts (on_result c slot result w t).1
  unfolding on_result connect_failed Counts
  on_result-Counts slot (pos zero) w t q = establish-Counts slot w t q
  on_result-Counts slot (pos (suc k)) w t q = count_error-Counts w q
  on_result-Counts slot (negsuc k) w t q = count_error-Counts w q

  found-Counts :
      (slot : ℕ) (result : ℤ) (entry : Option (ClientSlotCtx c.types)) (w : Work c U)
      (t : Trace c.types)
      → Counts w
      → Counts (found c slot result entry w t).1
  unfolding found
  found-Counts slot result none w t q = q
  found-Counts slot result (some _) w t q = on_result-Counts slot result w t q

  work-Counts :
      (mixed : ClientMapMixed) (w : Work c U) (t : Trace c.types)
      → Counts w
      → Counts (work c mixed w t).1
  unfolding work work_recv_multi work_sent_zc work_connected
  work-Counts nothing w t q = q
  work-Counts (ClientMapMixed.recv_multi r) w t q = with_slot-Counts r.fixed_fd _ w t q
  work-Counts (ClientMapMixed.sent_zc z) w t q = with_slot-Counts z.fixed_fd _ w t q
  work-Counts (ClientMapMixed.connected m) w t q = found-Counts m.fixed_fd m.result _ w t q

  drain-Counts :
      {cap : ℕ} (fuel : ℕ) (b : c.Buf cap ClientMapMixed) (w : Work c U) (t : Trace c.types)
      → Counts w
      → Counts (drain c (work c) fuel b w t).1
  unfolding drain
  drain-Counts zero b w t q = q
  drain-Counts (suc fuel) b w t q = elim (Option-cases (c.pop b)) [
    | inl e ↦ rw (drain, e) q
    | inr ((mixed, b'), e) ↦
        rw (drain, e)
          (chain-state Counts (work c mixed w t) _ (work-Counts mixed w t q)
            (λ _ w' t' q'. drain-Counts fuel b' w' t' q'))
  ]

  drain_bundled-Counts :
      {cap : ℕ} (b : Bundled c cap ClientMapMixed) (r : Outcome c.types (Unit {0})) (w : Work c U)
      (t : Trace c.types)
      → Counts w
      → Counts (drain_bundled c b r w t).1
  unfolding drain_bundled
  drain_bundled-Counts (Bundled.bad p) r w t q = q
  drain_bundled-Counts {cap} (Bundled.good b) (ok _) w t q = drain-Counts (cap + 1) b w t q
  drain_bundled-Counts (Bundled.good b) (err e) w t q = q
  drain_bundled-Counts (Bundled.good b) (panic p) w t q = q

  check-Counts :
      (cap : ℕ) (w : Work c U) (t : Trace c.types) → Counts w → Counts (check c cap w t).1
  unfolding check
  check-Counts cap w t q =
      let (batch, r) = c.completions t (as_u32 cap) in
      chain-state Counts
        (drain_bundled c (bundle c handle (c.buf_new cap ClientMapMixed) batch)
          (unwrapped {ty = c.types} r) w (t ++ handle_completions (as_u32 cap) ∷ []))
        _ (drain_bundled-Counts _ _ w _ q) (λ _ _ _ q'. q')

-- Whatever completions come in and however `check` ends, the sum of the connections under way, failed
-- and made stays what it was, as a usize.
pub check-total :
    (c : Crates) {U : Type 0} (cap : ℕ) (w : Work c U) (t : Trace c.types)
    → total c (check c cap w t).1 ≡ total c w
unfolding Counts
check-total c cap w t = check-Counts c (total c w) cap w t refl
