-- ===== src/Blueprints.antt =====
-- src/blueprints.rs: the stack of orbits that a stream is run through, and its construction in two
-- steps. The constant LAYERS is the length of the list.
use yaoi.Base.{ℕ, ◌+◌, List, [], length}

pub record Blueprints (O : Type 0) : Type 0 where
  pub layers : List O
  pub app : O

pub record BlueprintsNeedApp (O : Type 0) : Type 0 where
  pub layers : List O

module _ {O : Type 0} where
  pub count_all_layers : Blueprints O → ℕ
  count_all_layers bp = length bp.layers + 1

  -- BlueprintsLayers::layers
  pub with_layers : List O → BlueprintsNeedApp O
  with_layers orbits = record { layers = orbits }

  -- BlueprintsLayers::no_layers
  pub no_layers : BlueprintsNeedApp O
  no_layers = record { layers = [] }

  -- BlueprintsNeedApp::app
  pub with_app : BlueprintsNeedApp O → O → Blueprints O
  with_app b app = record { layers = b.layers; app = app }
