-- ===== src/Example.antt =====
-- examples/blueprint-tls-http/src/main.rs: a listener whose callback runs the blueprints of a
-- connection's slot.
pub mod Slots
pub mod Main
pub mod Tls
use yaoi.Base.{
  ℕ, zero, suc, ◌-◌, ◌==◌, if◌then◌else◌, Bool, true, false, Option, none, some, List, [], ◌∷◌,
  get_elem?, set,
}
use yaoi.Crates.{Crates, CrateTypes, Trace, SocketAddr, v4}
use yaoi.Outcome.{M, Outcome, ok, err, panic, unwrap_on_err, pure, panics, gets, zoom, ◌>>=◌, ◌>>◌}
use yaoi.Blueprints.{Blueprints, with_layers, with_app}
use yaoi.Run.{Orbit}
use yaoi.Strategy.{StrategyListener, replenishing, fixed_fds}
use yaoi.Stream.{TcpStream, fixed_fd}
use yaoi.Stream
use yaoi.Listener.{Callback, TcpListener, Work, accept_with_cb, set_hugetlb}
use yaoi.Listener.Listen.{listen_with_strategy}
use yaoi.Listener.Check.{check}

-- A result that is unwrapped: an error panics.
abbrev pub unwrapping :
    {ty : CrateTypes} {S A : Type 0} → Outcome ty A × S × Trace ty → Outcome ty A × S × Trace ty
unwrapping (ok a, s, t) = (ok a, s, t)
unwrapping (err e, s, t) = (panic unwrap_on_err, s, t)
unwrapping (panic p, s, t) = (panic p, s, t)

abbrev pub unwrap : {ty : CrateTypes} {S A : Type 0} → M ty S A → M ty S A
unwrap m s t = unwrapping (m s t)

-- The orbits of a connection: what `init_ytls_server` and `H11Serving::with_app` make. They are taken to be made
-- without a panic; where the configuration of the first panics is in Tls.
pub record Makers (O : Type 0) : Type 0 where
  pub ytls_server : O
  pub h11_server : O

module _ {O : Type 0} where
  pub ytls_server_blueprints : Makers O → Blueprints O
  ytls_server_blueprints makers = with_app (with_layers (makers.ytls_server ∷ [])) makers.h11_server

module _ {ty : CrateTypes} {O : Type 0} (orbit : Orbit ty O) (makers : Makers O) where
  -- On a shutdown the blueprints start anew.
  pub next_blueprints : Bool → Blueprints O → Blueprints O
  next_blueprints true bp = ytls_server_blueprints makers
  next_blueprints false bp = bp

  -- `stream.run_blueprints(&mut ud[id - 1]).unwrap()`, and what is put back at the place
  abbrev pub ran_at :
      ℕ
      → List (Blueprints O)
      → Bool
      → Option (Outcome ty (Blueprints O × TcpStream ty))
      → Option (List (Blueprints O) × TcpStream ty)
  ran_at i ud shutdown none = none
  ran_at i ud shutdown (some (ok (bp, stream))) =
      some (set ud i (next_blueprints shutdown bp), stream)
  ran_at i ud shutdown (some (err e)) = none
  ran_at i ud shutdown (some (panic p)) = none

  abbrev pub run_at :
      ℕ
      → ℕ
      → List (Blueprints O)
      → Option (Blueprints O)
      → TcpStream ty
      → Bool
      → Option (List (Blueprints O) × TcpStream ty)
  run_at fuel i ud none stream shutdown = none
  run_at fuel i ud (some bp) stream shutdown =
      ran_at i ud shutdown (Stream.run_blueprints orbit fuel bp stream)

  -- Slot 0 is the listener's own: `id - 1` is out of bounds there.
  abbrev pub on_slot : ℕ → Option ℕ → Callback ty (List (Blueprints O))
  on_slot fuel none ud stream shutdown = none
  on_slot fuel (some zero) ud stream shutdown = none
  on_slot fuel (some (suc i)) ud stream shutdown = run_at fuel i ud (get_elem? ud i) stream shutdown

  -- The callback: `none` is a panic in it, by `unwrap`, by the index or in a run, or that the rounds
  -- of the run were not enough.
  unfoldable pub serve_blueprints : ℕ → Callback ty (List (Blueprints O))
  serve_blueprints fuel ud stream shutdown = on_slot fuel (fixed_fd stream) ud stream shutdown

-- 192.168.64.3:8181
abbrev pub addr : SocketAddr
addr = v4 3_232_251_907 8181

pub listener_strategy : StrategyListener
listener_strategy = fixed_fds (replenishing 3) 3

module _ (c : Crates) {O : Type 0} where
  abbrev pub on_listener :
      {A : Type 0}
      → M c.types (TcpListener c (List (Blueprints O))) A
      → M c.types (Work c (List (Blueprints O))) A
  on_listener m = zoom (λ w. w.listener) (λ l w. record w { listener = l }) m

  -- `loop { listener.check::<16>(..).unwrap() }`, for a number of rounds
  pub check_loop : ℕ → M c.types (Work c (List (Blueprints O))) (Unit {0})
  check_loop zero = pure tt
  check_loop (suc rounds) = do unwrap (check c 16); check_loop rounds

  -- The first lines of `main`, on a listener with its blueprints.
  pub set_up :
      Orbit c.types O
      → Makers O
      → ℕ
      → c.HugePageChoice
      → M c.types (Work c (List (Blueprints O))) (Unit {0})
  set_up orbit makers fuel choice = do
    unwrap (on_listener (set_hugetlb c choice))
    unwrap (on_listener (accept_with_cb c (serve_blueprints orbit makers fuel)))

  pub session :
      Orbit c.types O
      → Makers O
      → ℕ
      → c.HugePageChoice
      → ℕ
      → M c.types (Work c (List (Blueprints O))) (Work c (List (Blueprints O)))
  session orbit makers fuel choice rounds = do
    set_up orbit makers fuel choice
    check_loop rounds
    gets (λ w. w)

  -- A listener, with two blueprints beside it
  abbrev pub with_two :
      Makers O
      → M c.types (Work c (List (Blueprints O))) (Work c (List (Blueprints O)))
      → Outcome c.types (TcpListener c (List (Blueprints O))) × Unit {0} × Trace c.types
      → Outcome c.types (Work c (List (Blueprints O))) × Unit {0} × Trace c.types
  with_two makers m (ok l, s, t) =
      let bp = ytls_server_blueprints makers in
      let (r, w, t') = m (record { listener = l; user = bp ∷ bp ∷ [] }) t in (r, s, t')
  with_two makers m (err e, s, t) = (err e, s, t)
  with_two makers m (panic p, s, t) = (panic p, s, t)

  -- `main`, for a number of rounds of its loop: the state after them.
  pub main :
      Orbit c.types O
      → Makers O
      → ℕ
      → c.HugePageChoice
      → ℕ
      → M c.types (Unit {0}) (Work c (List (Blueprints O)))
  unfolding session
  main orbit makers fuel choice rounds s t =
      with_two makers (session orbit makers fuel choice rounds)
        (unwrap (listen_with_strategy c addr 256 listener_strategy) s t)
