-- ===== src/Run.antt =====
-- EntHugeTlb::run_blueprints: the loop that passes bytes between a stream, its layer and the app.
pub mod Laws
pub mod Ends
pub mod Steps
use yaoi.Base.{
  ℕ, zero, suc, ◌+◌, Bool, true, false, Option, none, some, List, [], ◌∷◌, ◌&&◌, not, ◌==◌,
  if◌then◌else◌, length,
}
use yaoi.Crates.{CrateTypes, Crates}
use yaoi.Outcome.{Outcome, ok, err, panic, todo_code, index_out_of_bounds}
use yaoi.Blueprints.{Blueprints}
use yaoi.Intermed.{IntermedBuf, default_intermed}
use yaoi.Intermed
use yaoi.HugeTlb.{EntHugeTlb}
use yaoi.HugeTlb.Left

-- blueprint::Orbit, at the three kinds of neighbours that it is advanced between. An orbit works on
-- its neighbours by their traits only, calls nothing else, and its result is not looked at.
pub record Orbit (ty : CrateTypes) (O : Type 0) : Type 0 where
  pub advance_alone : O → EntHugeTlb ty → Outcome ty (O × EntHugeTlb ty)
  pub advance_layer : O → EntHugeTlb ty → IntermedBuf → Outcome ty (O × EntHugeTlb ty × IntermedBuf)
  pub advance_app : O → IntermedBuf → Outcome ty (O × IntermedBuf)

pub record RunState (ty : CrateTypes) (O : Type 0) : Type 0 where
  pub ent : EntHugeTlb ty
  pub bp : Blueprints O
  pub intermed : IntermedBuf

-- After one turn of the loop: return, or turn again at a level.
pub data Next : Type 0 where
  stop : Next
  at_level : ℕ → Next

module _ {ty : CrateTypes} {O : Type 0} (orbit : Orbit ty O) where
  -- What follows an advance of the layer, by what the stream shows before and after.
  abbrev pub layer_next : EntHugeTlb ty → EntHugeTlb ty → Next
  layer_next pre ent =
      let (pre_in, _) = Left.left_lens pre.cursor in
      let (len_in, len_out) = Left.left_lens ent.cursor in
      if not (len_out == 0)
      then stop
      else if not ent.is_ready && not ent.in_blocked && not (pre_in == len_in)
      then at_level 0
      else if not ent.is_ready
      then stop
      else at_level 1

  abbrev pub app_next : IntermedBuf → IntermedBuf → Next
  app_next pre im =
      let (pre_in, pre_out) = Intermed.left_lens pre in
      let (len_in, len_out) = Intermed.left_lens im in
      if (len_in == 0) && (len_out == 0)
      then stop
      else if (len_out == 0) && ((pre_in == len_in) && (pre_out == len_out))
      then stop
      else at_level 0

  unfoldable pub turn_layer : List O → RunState ty O → Outcome ty (RunState ty O × Next)
  turn_layer [] s = panic index_out_of_bounds
  turn_layer (layer ∷ rest) s = elim (orbit.advance_layer layer s.ent s.intermed) [
    | ok (layer', ent', intermed') ↦ ok (
      record {
        ent = ent';
        bp = record { layers = layer' ∷ rest; app = s.bp.app };
        intermed = intermed';
      },
      layer_next s.ent ent',
    )
    | err e ↦ err e
    | panic p ↦ panic p
  ]

  unfoldable pub turn_app : RunState ty O → Outcome ty (RunState ty O × Next)
  turn_app s = elim (orbit.advance_app s.bp.app s.intermed) [
    | ok (app', intermed') ↦ ok (
      record {
        ent = s.ent;
        bp = record { layers = s.bp.layers; app = app' };
        intermed = intermed';
      },
      app_next s.intermed intermed',
    )
    | err e ↦ err e
    | panic p ↦ panic p
  ]

  -- One turn of the `loop`. The arm `count_layers` binds a new name, so it takes every other level.
  unfoldable pub turn : ℕ → RunState ty O → Outcome ty (RunState ty O × Next)
  unfolding turn_layer turn_app
  turn zero s = turn_layer s.bp.layers s
  turn (suc zero) s = turn_app s
  turn (suc (suc n)) s = panic todo_code

  -- `none` means that the fuel ran out.
  pub run_loop : ℕ → ℕ → RunState ty O → Option (Outcome ty (RunState ty O))
  run_loop zero level s = none
  run_loop (suc fuel) level s = elim (turn level s) [
    | ok (s', stop) ↦ some (ok s')
    | ok (s', at_level l) ↦ run_loop fuel l s'
    | err e ↦ some (err e)
    | panic p ↦ some (panic p)
  ]

  pub run_alone : Blueprints O → EntHugeTlb ty → Outcome ty (RunState ty O)
  run_alone bp ent = elim (orbit.advance_alone bp.app ent) [
    | ok (app', ent') ↦
        ok (record { ent = ent'; bp = record bp { app = app' }; intermed = default_intermed })
    | err e ↦ err e
    | panic p ↦ panic p
  ]

  pub run_blueprints : ℕ → Blueprints O → EntHugeTlb ty → Option (Outcome ty (RunState ty O))
  unfolding run_alone
  run_blueprints fuel bp ent =
      if length bp.layers == 0
      then some (run_alone bp ent)
      else run_loop fuel 0 (record { ent = ent; bp = bp; intermed = default_intermed })
