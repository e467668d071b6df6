-- ===== src/Example/Main.antt =====
-- `main` of the example, and the invariant of its listener.
use yaoi.Base.{ℕ, zero, suc, ◌≡◌, refl, Option, none, some, List, [], ◌∷◌}
use yaoi.Crates.{Crates, CrateTypes, Trace}
use yaoi.Outcome.{Outcome, ok, err, panic}
use yaoi.Outcome.Keeps.{Sound, chain-Sound}
use yaoi.Blueprints.{Blueprints}
use yaoi.HugeTlb.{page_size}
use yaoi.Run.{Orbit}
use yaoi.Run.Steps.{ByLeft}
use yaoi.Listener.{TcpListener, Work, accept_with_cb, set_hugetlb}
use yaoi.Listener.Listen.{listen_with_strategy}
use yaoi.Listener.Listen.Keep.{listen-Sound}
use yaoi.Listener.Listen.Laws.{IsFresh}
use yaoi.Listener.Check.{check}
use yaoi.Listener.Check.Fit.{IsFair}
use yaoi.Listener.Check.Valid.{IsValid}
use yaoi.Listener.Check.Keep.{check-IsValid}
use yaoi.Example.{
  Makers, ytls_server_blueprints, unwrapping, unwrap, serve_blueprints, addr, listener_strategy,
  on_listener, check_loop, set_up, session, with_two, main,
}
use yaoi.Example.Slots.{serve_blueprints-IsFair}

unwrapping-Sound :
    {ty : CrateTypes} {S A : Type 0} (P : A → S → Type 0) (x : Outcome ty A × S × Trace ty)
    → Sound P x
    → Sound P (unwrapping x)
unwrapping-Sound P (ok a, s, t) h = h
unwrapping-Sound P (err e, s, t) h = λ same. cc
unwrapping-Sound P (panic p, s, t) h = h

module _ (c : Crates) {O : Type 0} where
  -- Rounds of the loop, from a valid listener: each ends, and leaves the listener valid.
  pub check_loop-IsValid :
      (rounds : ℕ) (w : Work c (List (Blueprints O))) (t : Trace c.types)
      → IsValid w
      → Sound (λ _ w'. IsValid w') (check_loop c rounds w t)
  unfolding check_loop
  check_loop-IsValid zero w t v = v
  check_loop-IsValid (suc rounds) w t v =
      chain-Sound (λ _ w'. IsValid w') _ (unwrap (check c 16) w t) _
        (unwrapping-Sound (λ _ w'. IsValid w') (check c 16 w t) (check-IsValid c 16 w t v))
        λ _ w' t' v'. check_loop-IsValid rounds w' t' v'

  -- Nothing was accepted yet.
  abbrev IsEmpty : Work c (List (Blueprints O)) → Type 0
  IsEmpty w = (slot : ℕ) → c.get w.listener.pool slot ≡ none

  set_hugetlb-Sound :
      (choice : c.HugePageChoice) (w : Work c (List (Blueprints O))) (t : Trace c.types)
      → IsEmpty w
      → Sound (λ _ w'. IsEmpty w') (on_listener c (set_hugetlb c choice) w t)
  unfolding set_hugetlb
  set_hugetlb-Sound choice w t h = go w.listener.cfg_hugetlb refl
    where
      go :
          (o : Option c.HugePageChoice)
          → w.listener.cfg_hugetlb ≡ o
          → Sound (λ _ w'. IsEmpty w') (on_listener c (set_hugetlb c choice) w t)
      go none e = rw (set_hugetlb, e) h
      go (some old) e = rw (set_hugetlb, e) tt

  module _ (orbit : Orbit c.types O) (makers : Makers O) (fuel : ℕ)
      (fair : IsFair (some (serve_blueprints orbit makers fuel))) where
    set_up-IsValid :
        (choice : c.HugePageChoice) (w : Work c (List (Blueprints O))) (t : Trace c.types)
        → IsEmpty w
        → Sound (λ _ w'. IsValid w') (set_up c orbit makers fuel choice w t)
    unfolding set_up accept_with_cb
    set_up-IsValid choice w t h =
        chain-Sound (λ _ w'. IsEmpty w') _ (unwrap (on_listener c (set_hugetlb c choice)) w t) _
          (unwrapping-Sound _ (on_listener c (set_hugetlb c choice) w t)
            (set_hugetlb-Sound choice w t h))
          λ _ w' t' h'. record { fair = fair; fits = λ slot. rw (h' slot) tt }

    session-IsValid :
        (choice : c.HugePageChoice) (rounds : ℕ) (w : Work c (List (Blueprints O)))
        (t : Trace c.types)
        → IsEmpty w
        → Sound (λ w' _. IsValid w') (session c orbit makers fuel choice rounds w t)
    unfolding session
    session-IsValid choice rounds w t h =
        chain-Sound (λ _ w'. IsValid w') _ (set_up c orbit makers fuel choice w t) _
          (set_up-IsValid choice w t h)
          λ _ w' t' v'.
            chain-Sound (λ _ w'. IsValid w') _ (check_loop c rounds w' t') _
              (check_loop-IsValid rounds w' t' v') λ _ w'' t'' v''. v''

    with_two-Sound :
        (choice : c.HugePageChoice) (rounds : ℕ)
        (x : Outcome c.types (TcpListener c (List (Blueprints O))) × Unit {0} × Trace c.types)
        → Sound (λ l _. IsFresh {c = c} {U = List (Blueprints O)} addr listener_strategy l) x
        → Sound (λ w _. IsValid w) (with_two c makers (session c orbit makers fuel choice rounds) x)
    with_two-Sound choice rounds (ok l, s, t) fresh =
        let bp = ytls_server_blueprints makers in
        drop_state
          (session c orbit makers fuel choice rounds (record { listener = l; user = bp ∷ bp ∷ [] })
            t)
          (session-IsValid choice rounds (record { listener = l; user = bp ∷ bp ∷ [] }) t
            fresh.all_free)
      where
        drop_state :
            (y : Outcome c.types (Work c (List (Blueprints O)))
              × Work c (List (Blueprints O))
              × Trace c.types)
            → Sound (λ w' _. IsValid w') y
            → Sound (λ w' _. IsValid w') (y.0, s, y.2)
        drop_state (ok w, w', t') v = v
        drop_state (err e, w', t') v = tt
        drop_state (panic p, w', t') v = v
    with_two-Sound choice rounds (err e, s, t) fresh = tt
    with_two-Sound choice rounds (panic p, s, t) fresh = fresh

-- The example, with orbits that change a stream by the operations of `Left` alone and set no length above a page of
-- 2 MiB (`ByLeft`), and with huge pages of 2 MiB: whatever the calls of other crates answer and whatever completions come, no loop of `check` runs out of the
-- rounds that it is given, and after any number of rounds of the example's loop that return the listener is valid,
-- with each connection on the descriptor of its slot and a valid outgoing cursor. More turns of a run than the
-- callback allows count as a panic in it.
pub main-IsValid :
    (c : Crates) {O : Type 0} (orbit : Orbit c.types O) (makers : Makers O) (fuel : ℕ)
    (choice : c.HugePageChoice) (rounds : ℕ) (t : Trace c.types)
    → ByLeft c orbit
    → ((p : c.HugePage) → c.capacity p ≡ page_size)
    → Sound (λ w _. IsValid w) (main c orbit makers fuel choice rounds tt t)
unfolding main
main-IsValid c {O} orbit makers fuel choice rounds t by_left size =
    with_two-Sound c orbit makers fuel (serve_blueprints-IsFair c orbit makers by_left size fuel)
      choice rounds _
      (unwrapping-Sound _ (listen_with_strategy c addr 256 listener_strategy tt t)
        (listen-Sound c (List (Blueprints O)) addr 256 listener_strategy tt t))
