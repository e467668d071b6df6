-- ===== src/Run/Ends.antt =====
-- When a run of blueprints ends, by what its orbits do.
use yaoi.Base.{ℕ, zero, suc, ◌+◌, ◌*◌, ◌≤◌, ◌<◌, ◌≡◌, ◌≢◌, ◌⊎◌, List, ◌∷◌}
use yaoi.Crates.{CrateTypes}
use yaoi.Outcome.{Outcome, ok, err, panic}
use yaoi.Blueprints.{Blueprints}
use yaoi.HugeTlb.{EntHugeTlb}
use yaoi.HugeTlb.Left
use yaoi.Intermed
use yaoi.Intermed.{IntermedBuf}
use yaoi.Run.{Orbit, RunState, Next, stop, at_level}

-- The bytes that are in and out, of a stream and of the buffer behind its layer.
abbrev in_of : {ty : CrateTypes} → EntHugeTlb ty → ℕ
in_of e = (Left.left_lens e.cursor).0

-- The app has read or written, or has output that waits.
abbrev pub HasWorked : IntermedBuf → IntermedBuf → Type 0
HasWorked im im' =
    let (pre_in, pre_out) = Intermed.left_lens im in
    let (len_in, len_out) = Intermed.left_lens im' in
    (pre_in ≢ len_in) ⊎ (pre_out ≢ len_out) ⊎ (len_out ≢ 0)

-- Orbits that get on with what is left to do, as counted by `work`: no advance adds to it; a layer that changes the
-- length of the stream's input takes some of it off, and so does an app that changes a length or has output.
pub record Progress {ty : CrateTypes} {O : Type 0} (orbit : Orbit ty O)
    (work : EntHugeTlb ty → Blueprints O → IntermedBuf → ℕ) : Type 0 where
  pub layer_keeps :
      (l l' a : O) (ls : List O) (e e' : EntHugeTlb ty) (im im' : IntermedBuf)
      → orbit.advance_layer l e im ≡ ok (l', e', im')
      → work e' (record { layers = l' ∷ ls; app = a }) im'
        ≤ work e (record { layers = l ∷ ls; app = a }) im
  pub layer_reads :
      (l l' a : O) (ls : List O) (e e' : EntHugeTlb ty) (im im' : IntermedBuf)
      → orbit.advance_layer l e im ≡ ok (l', e', im')
      → in_of e ≢ in_of e'
      → work e' (record { layers = l' ∷ ls; app = a }) im'
        < work e (record { layers = l ∷ ls; app = a }) im
  pub app_works :
      (a a' : O) (ls : List O) (e : EntHugeTlb ty) (im im' : IntermedBuf)
      → orbit.advance_app a im ≡ ok (a', im')
      → HasWorked im im'
      → work e (record { layers = ls; app = a' }) im' < work e (record { layers = ls; app = a }) im

module _ {ty : CrateTypes} {O : Type 0} (orbit : Orbit ty O)
    (work : EntHugeTlb ty → Blueprints O → IntermedBuf → ℕ) (progress : Progress orbit work) where
  abbrev left_to_do : RunState ty O → ℕ
  left_to_do s = work s.ent s.bp s.intermed

  -- A turn of the layer goes before one of the app.
  abbrev measure : ℕ → RunState ty O → ℕ
  measure zero s = 2 * left_to_do s + 1
  measure (suc n) s = 2 * left_to_do s

  -- A turn that goes on has less to measure.
  abbrev Lowers : ℕ → RunState ty O → Outcome ty (RunState ty O × Next) → Type 0
  Lowers level s (ok (s', stop)) = Unit {0}
  Lowers level s (ok (s', at_level l)) = measure l s' < measure level s
  Lowers level s (err e) = Unit {0}
  Lowers level s (panic p) = Unit {0}
