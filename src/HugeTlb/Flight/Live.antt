-- ===== src/HugeTlb/Flight/Live.antt =====
-- How a stream sends on after the completions of its sends, and after failed ones.
use yaoi.Base.{
  ℕ, ◌+◌, ◌-◌, ◌≤◌, ◌<◌, ◌≡◌, ◌⊎◌, refl, ap, arith, inl, inr, false, List, [], ◌∷◌, length,
}
use native.Mathlib.Nat.{le_refl}
use yaoi.Crates.{Crates, Trace}
use yaoi.Outcome.{ok}
use yaoi.Cmaps.{MapSentZc}
use yaoi.HugeTlb.Send.{send_all_out}
use yaoi.HugeTlb.Send.Laws.{Sent, Refused, out_len, send_all_out-cases}
use yaoi.HugeTlb.Recv.{sent_zc}
use yaoi.HugeTlb.Flight.{
  Sending, total, told, FlightStep, completes, sends, reports, fails, orbits, FlightSteps, landed,
  and_then, Balanced,
}
use yaoi.HugeTlb.Flight.Keep.{FlightSteps-Balanced}

module _ (c : Crates) (fd : ℕ) where
  -- The completion that tells of all of a send.
  abbrev whole : ℕ → MapSentZc
  whole len = record { fixed_fd = fd; sent_out = len; buf_ref = 0; more = false }

  abbrev pub AllBack : Sending c.types → Sending c.types → Type 0
  AllBack q q' =
      FlightSteps c fd q q'
      × (q'.flight ≡ [])
      × (q'.lost_bufs ≡ q.lost_bufs)
      × (q'.lost_bytes ≡ q.lost_bytes)
      × (out_len q'.ent.cursor ≡ out_len q.ent.cursor)

  -- All sends under way complete, one after the other.
  all_back :
      (flight : List ℕ) (q : Sending c.types)
      → q.flight ≡ flight
      → (q' : Sending c.types) × AllBack q q'
  unfolding sent_zc
  all_back [] q h = (q, (landed, h, refl, refl, refl))
  all_back (len ∷ rest) q h =
      let next = record q {
        ent = told (whole len) q.ent;
        flight = rest;
        lost_bytes = q.lost_bytes + (len - len);
      } in
      let (q', (steps, none_left, bufs, bytes, same)) = all_back rest next refl in
      (
        q',
        (
          and_then (completes (whole len) [] rest len h (le_refl len) refl) steps,
          none_left,
          bufs,
          omega arith,
          same,
        ),
      )

  -- From a balanced stream that lost nothing and has bytes to send there are steps to one with nothing under way and
  -- as many bytes to send, on which the next call sends all of them or is refused by the bearer; it does not hold
  -- back.
  pub sends_on :
      (q : Sending c.types)
      → Balanced c q
      → q.lost_bufs ≡ 0
      → q.lost_bytes ≡ 0
      → 0 < out_len q.ent.cursor
      → (q' : Sending c.types) × FlightSteps c fd q q'
        × (q'.flight ≡ [])
        × (out_len q'.ent.cursor ≡ out_len q.ent.cursor)
        × ((t : Trace c.types)
            → let r = send_all_out c fd q'.ent t in Sent c fd q'.ent t r ⊎ Refused c fd q'.ent t r)
  sends_on q v no_bufs no_bytes more =
      let (q', (steps, none_left, bufs, bytes, same)) = all_back q.flight q refl in
      let v' = FlightSteps-Balanced c fd steps v in
      (
        q',
        steps,
        none_left,
        same,
        λ t. elim (send_all_out-cases c fd q'.ent t v'.valid) [
          | inl (held, _) ↦
              let no_flight : length q'.flight ≡ 0 = ap length none_left in
              let no_bytes_left : total q'.flight ≡ 0 = ap total none_left in
              let count = v'.bufs in
              let count_bytes = v'.sends in absurd (let x = held in omega arith)
          | inr r ↦ r
        ],
      )

  lost-FlightStep : {q q' : Sending c.types} → FlightStep c fd q q' → q.lost_bufs ≤ q'.lost_bufs
  lost-FlightStep (sends t t' n h) = omega arith
  lost-FlightStep (completes z before after len h le e) = omega arith
  lost-FlightStep (reports z before after len h le e) = omega arith
  lost-FlightStep (fails before after len h) = omega arith
  lost-FlightStep (orbits step) = omega arith

  lost-FlightSteps : {q q' : Sending c.types} → FlightSteps c fd q q' → q.lost_bufs ≤ q'.lost_bufs
  lost-FlightSteps landed = omega arith
  lost-FlightSteps (and_then step rest) = omega (arith, lost-FlightStep step, lost-FlightSteps rest)

  -- From a balanced stream that has lost six buffers to failed sends, whatever sends, completions and operations of
  -- orbits with lengths of at most a page follow, every call returns 0 and sends nothing, also with bytes to send and
  -- nothing under way.
  pub lost_six_blocks :
      (q q' : Sending c.types) (t : Trace c.types)
      → Balanced c q
      → 6 ≤ q.lost_bufs
      → FlightSteps c fd q q'
      → send_all_out c fd q'.ent t ≡ (ok 0, q'.ent, t)
  lost_six_blocks q q' t v many steps =
      let v' = FlightSteps-Balanced c fd steps v in
      let kept = lost-FlightSteps steps in
      let count = v'.bufs in
      elim (send_all_out-cases c fd q'.ent t v'.valid) [
        | inl (_, held) ↦ held
        | inr (inl (o, _, _, _)) ↦ let few = o.bufs_few in absurd (omega arith)
        | inr (inr (o, _)) ↦ let few = o.bufs_few in absurd (omega arith)
      ]
