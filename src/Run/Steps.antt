-- ===== src/Run/Steps.antt =====
-- What a run of blueprints does to its stream, where its orbits work by `Left` alone, with lengths of at
-- most a page.
use yaoi.Base.{
  ℕ, zero, suc, ◌≡◌, refl, ◌==◌, Bool-cases, inl, inr, Option, none, some, List, [], ◌∷◌, length,
}
use yaoi.Crates.{Crates}
use yaoi.Outcome.{Outcome, ok, err, panic}
use yaoi.Blueprints.{Blueprints}
use yaoi.Intermed.{IntermedBuf}
use yaoi.HugeTlb.{EntHugeTlb}
use yaoi.HugeTlb.Left.Steps.{LeftSteps, none_left}
use yaoi.HugeTlb.Left.Steps.Keep.{LeftSteps-append}
use yaoi.Run.{
  Orbit, RunState, Next, stop, at_level, turn_layer, turn_app, turn, run_loop, run_alone,
  run_blueprints,
}

-- An orbit that changes a stream by the operations of `Left` alone, and sets no length above a page of 2 MiB.
pub record ByLeft (c : Crates) {O : Type 0} (orbit : Orbit c.types O) : Type 0 where
  pub alone :
      (o o' : O) (e e' : EntHugeTlb c.types)
      → orbit.advance_alone o e ≡ ok (o', e')
      → LeftSteps c e e'
  pub layer :
      (o o' : O) (e e' : EntHugeTlb c.types) (im im' : IntermedBuf)
      → orbit.advance_layer o e im ≡ ok (o', e', im')
      → LeftSteps c e e'

module _ (c : Crates) {O : Type 0} (orbit : Orbit c.types O) (by_left : ByLeft c orbit) where
  -- The stream after a turn, or a run, was reached by `Left`.
  abbrev pub Turned : EntHugeTlb c.types → Outcome c.types (RunState c.types O × Next) → Type 0
  Turned e (ok (s, n)) = LeftSteps c e s.ent
  Turned e (err x) = Unit {0}
  Turned e (panic p) = Unit {0}

  abbrev pub Moved : EntHugeTlb c.types → Option (Outcome c.types (RunState c.types O)) → Type 0
  Moved e none = Unit {0}
  Moved e (some (ok s)) = LeftSteps c e s.ent
  Moved e (some (err x)) = Unit {0}
  Moved e (some (panic p)) = Unit {0}

  turn_layer-Turned : (ls : List O) (s : RunState c.types O) → Turned s.ent (turn_layer orbit ls s)
  unfolding turn_layer
  turn_layer-Turned [] s = tt
  turn_layer-Turned (l ∷ ls) s = go (orbit.advance_layer l s.ent s.intermed) refl
    where
      go :
          (r : Outcome c.types (O × EntHugeTlb c.types × IntermedBuf))
          → orbit.advance_layer l s.ent s.intermed ≡ r
          → Turned s.ent (turn_layer orbit (l ∷ ls) s)
      go (ok (l', e', im')) e = rw (turn_layer, e) (by_left.layer l l' s.ent e' s.intermed im' e)
      go (err x) e = rw (turn_layer, e) tt
      go (panic p) e = rw (turn_layer, e) tt

  turn_app-Turned : (s : RunState c.types O) → Turned s.ent (turn_app orbit s)
  unfolding turn_app
  turn_app-Turned s = go (orbit.advance_app s.bp.app s.intermed) refl
    where
      go :
          (r : Outcome c.types (O × IntermedBuf))
          → orbit.advance_app s.bp.app s.intermed ≡ r
          → Turned s.ent (turn_app orbit s)
      go (ok (a', im')) e = rw (turn_app, e) none_left
      go (err x) e = rw (turn_app, e) tt
      go (panic p) e = rw (turn_app, e) tt

  turn-Turned : (level : ℕ) (s : RunState c.types O) → Turned s.ent (turn orbit level s)
  unfolding turn
  turn-Turned zero s = turn_layer-Turned s.bp.layers s
  turn-Turned (suc zero) s = turn_app-Turned s
  turn-Turned (suc (suc n)) s = tt

  Moved-after :
      (e e' : EntHugeTlb c.types) (r : Option (Outcome c.types (RunState c.types O)))
      → LeftSteps c e e'
      → Moved e' r
      → Moved e r
  Moved-after e e' none steps m = tt
  Moved-after e e' (some (ok s)) steps m = LeftSteps-append c steps m
  Moved-after e e' (some (err x)) steps m = tt
  Moved-after e e' (some (panic p)) steps m = tt

  run_loop-Moved :
      (fuel level : ℕ) (s : RunState c.types O) → Moved s.ent (run_loop orbit fuel level s)
  unfolding run_loop
  run_loop-Moved zero level s = tt
  run_loop-Moved (suc fuel) level s =
      go (turn orbit level s) refl (turn-Turned level s) (λ l s'. run_loop-Moved fuel l s')
    where
      go :
          (r : Outcome c.types (RunState c.types O × Next))
          → turn orbit level s ≡ r
          → Turned s.ent r
          → ((l : ℕ) (s' : RunState c.types O) → Moved s'.ent (run_loop orbit fuel l s'))
          → Moved s.ent (run_loop orbit (suc fuel) level s)
      go (ok (s', stop)) e steps ih = rw (run_loop, e) steps
      go (ok (s', at_level l)) e steps ih =
          rw (run_loop, e) (Moved-after s.ent s'.ent _ steps (ih l s'))
      go (err x) e steps ih = rw (run_loop, e) tt
      go (panic p) e steps ih = rw (run_loop, e) tt

  run_alone-Moved :
      (bp : Blueprints O) (ent : EntHugeTlb c.types) → Moved ent (some (run_alone orbit bp ent))
  unfolding run_alone
  run_alone-Moved bp ent = go (orbit.advance_alone bp.app ent) refl
    where
      go :
          (r : Outcome c.types (O × EntHugeTlb c.types))
          → orbit.advance_alone bp.app ent ≡ r
          → Moved ent (some (run_alone orbit bp ent))
      go (ok (a', e')) e = rw (run_alone, e) (by_left.alone bp.app a' ent e' e)
      go (err x) e = rw (run_alone, e) tt
      go (panic p) e = rw (run_alone, e) tt

  -- Where the orbits change a stream by the operations of `Left` alone, and set no length above a page of 2 MiB, so
  -- does a run of their blueprints that returns.
  pub run_blueprints-Moved :
      (fuel : ℕ) (bp : Blueprints O) (ent : EntHugeTlb c.types)
      → Moved ent (run_blueprints orbit fuel bp ent)
  unfolding run_blueprints
  run_blueprints-Moved fuel bp ent = elim (Bool-cases (length bp.layers == 0)) [
    | inl alone ↦ rw alone (run_alone-Moved bp ent)
    | inr layered ↦ rw layered (run_loop-Moved fuel 0 _)
  ]
