-- ===== src/Example/Slots.antt =====
-- The callback of the example: which blueprints it runs, and what it leaves of the stream.
use yaoi.Base.{
  ℕ, zero, suc, ◌≤◌, ◌≡◌, ◌≢◌, refl, ap, subst, arith, Bool, true, Option, none, some, List,
  get_elem?, length, length-set, get_elem?-set, get_elem?-set_other,
}
use yaoi.Crates.{Crates}
use yaoi.Outcome.{Outcome, ok, err, panic}
use yaoi.Blueprints.{Blueprints}
use yaoi.HugeTlb.{EntHugeTlb, page_size}
use yaoi.HugeTlb.Send.Laws.{OutValid}
use yaoi.HugeTlb.Left.Steps.Keep.{LeftSteps-Outward}
use yaoi.Run.{Orbit, RunState}
use yaoi.Run
use yaoi.Run.Steps.{ByLeft, Moved, run_blueprints-Moved}
use yaoi.Stream.{TcpStream, connected, streaming_huge_tlb, fixed_fd, stream_ran}
use yaoi.Stream
use yaoi.Stream.Laws.{IsSafe, pending}
use yaoi.Listener.Check.Fit.{IsFair}
use yaoi.Example.{
  Makers, ytls_server_blueprints, next_blueprints, ran_at, run_at, on_slot, serve_blueprints,
}

module _ (c : Crates) {O : Type 0} (orbit : Orbit c.types O) (makers : Makers O) where
  -- What the callback leaves of the stream.
  abbrev Treated : TcpStream c.types → Option (List (Blueprints O) × TcpStream c.types) → Type 0
  Treated s none = Unit {0}
  Treated s (some (ud, s')) = IsSafe s' × (pending s ≤ pending s') × (fixed_fd s' ≡ fixed_fd s)

  module _ (by_left : ByLeft c orbit) (size : (p : c.HugePage) → c.capacity p ≡ page_size) where
    ran_at-Treated :
        (i : ℕ) (ud : List (Blueprints O)) (flag : Bool) (e : EntHugeTlb c.types)
        (r : Option (Outcome c.types (RunState c.types O)))
        → OutValid e.cursor
        → Moved c orbit by_left e r
        → Treated (streaming_huge_tlb e) (ran_at orbit makers i ud flag (stream_ran r))
    unfolding fixed_fd
    ran_at-Treated i ud flag e none v m = tt
    ran_at-Treated i ud flag e (some (ok s)) v m =
        let (u, v') = LeftSteps-Outward c m (size e.hugetbl_in) v in
        (v', omega (arith, u.bufs), ap (λ x. x.fixed_fd) u.connection)
    ran_at-Treated i ud flag e (some (err x)) v m = tt
    ran_at-Treated i ud flag e (some (panic p)) v m = tt

    run_at-Treated :
        (fuel i : ℕ) (ud : List (Blueprints O)) (bp : Option (Blueprints O)) (s : TcpStream c.types)
        (flag : Bool)
        → IsSafe s
        → Treated s (run_at orbit makers fuel i ud bp s flag)
    unfolding Stream.run_blueprints
    run_at-Treated fuel i ud none s flag v = tt
    run_at-Treated fuel i ud (some bp) (connected e) flag v = tt
    run_at-Treated fuel i ud (some bp) (streaming_huge_tlb e) flag v =
        ran_at-Treated i ud flag e (Run.run_blueprints orbit fuel bp e) v
          (run_blueprints-Moved c orbit by_left fuel bp e)

    on_slot-Treated :
        (fuel : ℕ) (fd : Option ℕ) (ud : List (Blueprints O)) (s : TcpStream c.types) (flag : Bool)
        → IsSafe s
        → Treated s (on_slot orbit makers fuel fd ud s flag)
    on_slot-Treated fuel none ud s flag v = tt
    on_slot-Treated fuel (some zero) ud s flag v = tt
    on_slot-Treated fuel (some (suc i)) ud s flag v =
        run_at-Treated fuel i ud (get_elem? ud i) s flag v

    -- Where the orbits change a stream by the operations of `Left` alone and set no length above a page, and every
    -- huge page has 2 MiB, the
    -- callback is fair: it keeps the outgoing cursor valid, takes no pending buffer off, and leaves the stream
    -- on its descriptor.
    pub serve_blueprints-IsFair : (fuel : ℕ) → IsFair (some (serve_blueprints orbit makers fuel))
    unfolding serve_blueprints
    serve_blueprints-IsFair fuel = record {
      safe = λ u u' s s' flag v e.
          let l : Treated s (some (u', s')) =
            subst (Treated s) e (on_slot-Treated fuel (fixed_fd s) u s flag v) in
          (l.0, l.1);
      same_fd = λ u u' s s' flag v e.
          let l : Treated s (some (u', s')) =
            subst (Treated s) e (on_slot-Treated fuel (fixed_fd s) u s flag v) in
          l.2;
    }

  -- The blueprints after the callback of a stream at slot `suc i`.
  pub record IsAlone (i : ℕ) (flag : Bool) (ud ud' : List (Blueprints O)) : Type 0 where
    pub places : length ud' ≡ length ud
    pub others : (j : ℕ) → i ≢ j → get_elem? ud' j ≡ get_elem? ud j
    pub anew : flag ≡ true → get_elem? ud' i ≡ some (ytls_server_blueprints makers)

  abbrev pub Alone :
      ℕ → Bool → List (Blueprints O) → Option (List (Blueprints O) × TcpStream c.types) → Type 0
  Alone i flag ud none = Unit {0}
  Alone i flag ud (some (ud', s')) = IsAlone i flag ud ud'

  ran_at-Alone :
      (i : ℕ) (ud : List (Blueprints O)) (bp : Blueprints O) (flag : Bool)
      (r : Option (Outcome c.types (Blueprints O × TcpStream c.types)))
      → get_elem? ud i ≡ some bp
      → Alone i flag ud (ran_at orbit makers i ud flag r)
  unfolding next_blueprints
  ran_at-Alone i ud bp flag none h = tt
  ran_at-Alone i ud bp flag (some (err x)) h = tt
  ran_at-Alone i ud bp flag (some (panic p)) h = tt
  ran_at-Alone i ud bp flag (some (ok (bp', s'))) h = record {
    places = length-set ud i _;
    others = λ j other. get_elem?-set_other ud i j _ other;
    anew = λ closing.
        rw (closing, get_elem?-set ud i (next_blueprints orbit makers true bp') bp h) refl;
  }

  run_at-Alone :
      (fuel i : ℕ) (ud : List (Blueprints O)) (bp : Option (Blueprints O)) (s : TcpStream c.types)
      (flag : Bool)
      → get_elem? ud i ≡ bp
      → Alone i flag ud (run_at orbit makers fuel i ud bp s flag)
  run_at-Alone fuel i ud none s flag h = tt
  run_at-Alone fuel i ud (some bp) s flag h =
      ran_at-Alone i ud bp flag (Stream.run_blueprints orbit fuel bp s) h

  -- A callback that returns, for a stream at slot `i + 1`, has worked on the blueprints at place `i` alone: the
  -- others are as they were, none is added or taken away, and on a shutdown the place has new ones.
  pub serve_blueprints-Alone :
      (fuel i : ℕ) (ud : List (Blueprints O)) (s : TcpStream c.types) (flag : Bool)
      → fixed_fd s ≡ some (suc i)
      → Alone i flag ud (serve_blueprints orbit makers fuel ud s flag)
  unfolding serve_blueprints
  serve_blueprints-Alone fuel i ud s flag h =
      rw (serve_blueprints, h) (run_at-Alone fuel i ud (get_elem? ud i) s flag refl)
