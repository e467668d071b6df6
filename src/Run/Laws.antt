-- ===== src/Run/Laws.antt =====
-- What a run does with the layers, and when it ends.
use yaoi.Base.{
  ℕ, zero, suc, ◌<◌, ◌≡◌, refl, arith, Option, some, none, List, [], ◌∷◌, ◌==◌, false, length, inl,
  inr, Bool-cases,
}
use yaoi.Crates.{CrateTypes}
use yaoi.Outcome.{Outcome, ok, err, panic}
use yaoi.Blueprints.{Blueprints}
use yaoi.HugeTlb.{EntHugeTlb}
use yaoi.Intermed.{IntermedBuf, default_intermed}
use yaoi.Run.{
  turn_layer, turn_app, run_alone, Orbit, RunState, Next, stop, at_level, turn, run_loop,
  run_blueprints,
}

-- The same state with other layers behind the first.
abbrev pub retail : {O : Type 0} → List O → List O → List O
retail rest [] = []
retail rest (l ∷ ls) = l ∷ rest

abbrev pub with_bp : {O : Type 0} → List O → Blueprints O → Blueprints O
with_bp rest bp = record bp { layers = retail rest bp.layers }

abbrev pub with_rest : {ty : CrateTypes} {O : Type 0} → List O → RunState ty O → RunState ty O
with_rest rest s = record s { bp = with_bp rest s.bp }

abbrev pub map_ok : {ty : CrateTypes} {A B : Type 0} → (A → B) → Outcome ty A → Outcome ty B
map_ok f (ok a) = ok (f a)
map_ok f (err e) = err e
map_ok f (panic p) = panic p

abbrev pub map_run :
    {ty : CrateTypes} {A B : Type 0} → (A → B) → Option (Outcome ty A) → Option (Outcome ty B)
map_run f none = none
map_run f (some r) = some (map_ok f r)

module _ {ty : CrateTypes} {O : Type 0} (orbit : Orbit ty O) (rest : List O) where
  abbrev both : RunState ty O × Next → RunState ty O × Next
  both (s, n) = (with_rest rest s, n)

  turn_layer-with_rest :
      (ls : List O) (s : RunState ty O)
      → turn_layer orbit (retail rest ls) (with_rest rest s) ≡ map_ok both (turn_layer orbit ls s)
  unfolding turn_layer
  turn_layer-with_rest [] s = refl
  turn_layer-with_rest (l ∷ ls) s = go (orbit.advance_layer l s.ent s.intermed) refl
    where
      go :
          (r : Outcome ty (O × EntHugeTlb ty × IntermedBuf))
          → orbit.advance_layer l s.ent s.intermed ≡ r
          → turn_layer orbit (l ∷ rest) (with_rest rest s)
            ≡ map_ok both (turn_layer orbit (l ∷ ls) s)
      go (ok (l', e', im')) e = rw (e, turn_layer)
      go (err x) e = rw (e, turn_layer)
      go (panic p) e = rw (e, turn_layer)

  turn_app-with_rest :
      (s : RunState ty O) → turn_app orbit (with_rest rest s) ≡ map_ok both (turn_app orbit s)
  unfolding turn_app
  turn_app-with_rest s = go (orbit.advance_app s.bp.app s.intermed) refl
    where
      go :
          (r : Outcome ty (O × IntermedBuf))
          → orbit.advance_app s.bp.app s.intermed ≡ r
          → turn_app orbit (with_rest rest s) ≡ map_ok both (turn_app orbit s)
      go (ok (a', im')) e = rw (e, turn_app)
      go (err x) e = rw (e, turn_app)
      go (panic p) e = rw (e, turn_app)

  turn-with_rest :
      (level : ℕ) (s : RunState ty O)
      → turn orbit level (with_rest rest s) ≡ map_ok both (turn orbit level s)
  unfolding turn
  turn-with_rest zero s = turn_layer-with_rest s.bp.layers s
  turn-with_rest (suc zero) s = turn_app-with_rest s
  turn-with_rest (suc (suc n)) s = refl

  run_loop-with_rest :
      (fuel level : ℕ) (s : RunState ty O)
      → run_loop orbit fuel level (with_rest rest s)
        ≡ map_run (with_rest rest) (run_loop orbit fuel level s)
  unfolding run_loop
  run_loop-with_rest zero level s = refl
  run_loop-with_rest (suc fuel) level s =
      go (turn orbit level s) refl (λ l s'. run_loop-with_rest fuel l s')
    where
      go :
          (r : Outcome ty (RunState ty O × Next))
          → turn orbit level s ≡ r
          → ((l : ℕ) (s' : RunState ty O)
              → run_loop orbit fuel l (with_rest rest s')
                ≡ map_run (with_rest rest) (run_loop orbit fuel l s'))
          → run_loop orbit (suc fuel) level (with_rest rest s)
            ≡ map_run (with_rest rest) (run_loop orbit (suc fuel) level s)
      go (ok (s', stop)) e ih = rw (run_loop, turn-with_rest level s, e)
      go (ok (s', at_level l)) e ih = rw (run_loop, turn-with_rest level s, e) (ih l s')
      go (err x) e ih = rw (run_loop, turn-with_rest level s, e)
      go (panic p) e ih = rw (run_loop, turn-with_rest level s, e)

  run_with_rest :
      (fuel : ℕ) (ls : List O) (a : O) (ent : EntHugeTlb ty)
      → run_blueprints orbit fuel (record { layers = retail rest ls; app = a }) ent
        ≡ map_run (with_rest rest) (run_blueprints orbit fuel (record { layers = ls; app = a }) ent)
  unfolding run_blueprints
  run_with_rest fuel [] a ent = go (orbit.advance_alone a ent) refl
    where
      go :
          (r : Outcome ty (O × EntHugeTlb ty))
          → orbit.advance_alone a ent ≡ r
          → run_blueprints orbit fuel (record { layers = []; app = a }) ent
            ≡ map_run
                (with_rest rest)
                (run_blueprints orbit fuel (record { layers = []; app = a }) ent)
      go (ok (a', e')) e = rw (run_blueprints, run_alone, e)
      go (err x) e = rw (run_blueprints, run_alone, e)
      go (panic p) e = rw (run_blueprints, run_alone, e)
  run_with_rest fuel (l ∷ ls) a ent =
      let some_rest : (suc (length rest) == 0) ≡ false = ground arith in
      let some_ls : (suc (length ls) == 0) ≡ false = ground arith in
      rw (some_rest, some_ls)
        (run_loop-with_rest fuel 0 (record {
          ent = ent;
          bp = record { layers = l ∷ ls; app = a };
          intermed = default_intermed;
        }))

  -- Layers behind the first are neither advanced nor changed, whatever the orbits do: with other
  -- layers in their place the run goes the same way, and returns them as they were given.
  pub run_blueprints-with_rest :
      (fuel : ℕ) (bp : Blueprints O) (ent : EntHugeTlb ty)
      → run_blueprints orbit fuel (with_bp rest bp) ent
        ≡ map_run (with_rest rest) (run_blueprints orbit fuel bp ent)
  run_blueprints-with_rest fuel bp ent = run_with_rest fuel bp.layers bp.app ent

-- A measure that falls whenever the loop turns again.
abbrev pub Falls : {ty : CrateTypes} {O : Type 0} → Orbit ty O → (ℕ → RunState ty O → ℕ) → Type 0
Falls {ty} {O} orbit m =
    (level : ℕ) (s s' : RunState ty O) (l : ℕ)
    → turn orbit level s ≡ ok (s', at_level l)
    → m l s' < m level s

module _ {ty : CrateTypes} {O : Type 0} (orbit : Orbit ty O) (m : ℕ → RunState ty O → ℕ)
    (falls : Falls orbit m) where
  pub run_loop_ends :
      (fuel level : ℕ) (s : RunState ty O)
      → m level s < fuel
      → (r : Outcome ty (RunState ty O)) × (run_loop orbit fuel level s ≡ some r)
  unfolding run_loop
  run_loop_ends zero level s h = elim h [ ]
  run_loop_ends (suc fuel) level s h =
      go (turn orbit level s) refl (λ l s' less. run_loop_ends fuel l s' less)
    where
      go :
          (r : Outcome ty (RunState ty O × Next))
          → turn orbit level s ≡ r
          → ((l : ℕ) (s' : RunState ty O)
              → m l s' < fuel
              → (o : Outcome ty (RunState ty O)) × (run_loop orbit fuel l s' ≡ some o))
          → (o : Outcome ty (RunState ty O)) × (run_loop orbit (suc fuel) level s ≡ some o)
      go (ok (s', stop)) e ih = (ok s', rw (e, run_loop))
      go (ok (s', at_level l)) e ih =
          let (o, e') = ih l s' (omega (arith, falls level s s' l e)) in (o, rw (e, run_loop) e')
      go (err x) e ih = (err x, rw (e, run_loop))
      go (panic p) e ih = (panic p, rw (e, run_loop))

  -- Under a measure that falls whenever the loop turns again: the run returns, with fuel above the
  -- measure of its first state.
  pub run_blueprints-Falls :
      (fuel : ℕ) (bp : Blueprints O) (ent : EntHugeTlb ty)
      → m 0 (record { ent = ent; bp = bp; intermed = default_intermed }) < fuel
      → (r : Outcome ty (RunState ty O)) × (run_blueprints orbit fuel bp ent ≡ some r)
  unfolding run_blueprints
  run_blueprints-Falls fuel bp ent h = elim (Bool-cases (length bp.layers == 0)) [
    | inl alone ↦ (run_alone orbit bp ent, rw alone)
    | inr layered ↦ rw layered (run_loop_ends fuel 0 _ h)
  ]
