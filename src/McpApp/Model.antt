-- ===== src/McpApp/Model.antt =====
-- The results, the map that is shown and the state of useMcpApp.ts.
use hifld_next.Common.{
  ℕ, String, Bool, true, false, leb, List, [], ◌∷◌, map, any, insert, Option, none,
}

-- A query layer of a result; it expires at a time in milliseconds.
pub record QueryLayer : Type 0 where
  pub query_id : String
  pub query_token : String
  pub layer_name : String
  pub expires_at : ℕ

pub data PreparationStatus : Type 0 where
  preparing failed : PreparationStatus

pub record PreparingLayer : Type 0 where
  pub layer_id : String
  pub layer_name : String
  pub preparation_status : PreparationStatus
  pub preparation_error : Option String

pub record ExternalLayer : Type 0 where
  pub layer_id : String
  pub layer_name : String

pub data ResultLayer : Type 0 where
  query_layer : QueryLayer → ResultLayer
  preparing_layer : PreparingLayer → ResultLayer
  external_layer : ExternalLayer → ResultLayer

-- Of the definition of a map, which layers have a query for a source.
pub record MapDefinition : Type 0 where
  pub has_query : List Bool

-- What is passed on to the map as it is; the camera by its text.
pub record MapView : Type 0 where
  pub title : String
  pub basemap : String
  pub worker_url : String
  pub camera : Option String

pub record MapResult : Type 0 where
  pub view : MapView
  pub layers : List ResultLayer
  pub map_spec : MapDefinition

-- A layer without its time, and the map that is shown.
pub data RuntimeLayer : Type 0 where
  query_runtime : String → String → String → RuntimeLayer
  preparing_runtime : PreparingLayer → RuntimeLayer
  external_runtime : ExternalLayer → RuntimeLayer

pub record MapConfiguration : Type 0 where
  pub view : MapView
  pub layers : List RuntimeLayer

abbrev pub runtime_layer : ResultLayer → RuntimeLayer
runtime_layer (query_layer q) = query_runtime q.query_id q.query_token q.layer_name
runtime_layer (preparing_layer p) = preparing_runtime p
runtime_layer (external_layer e) = external_runtime e

unfoldable pub runtime_configuration : MapResult → MapConfiguration
runtime_configuration result = record {
  view = result.view;
  layers = map runtime_layer result.layers;
}

-- `earliestExpiration(result) <= Date.now()`; without a query layer it is infinite.
abbrev expires_by : ℕ → ResultLayer → Bool
expires_by now (query_layer q) = leb q.expires_at now
expires_by now _ = false

unfoldable pub is_expired : ℕ → MapResult → Bool
is_expired now result = any (expires_by now) result.layers

abbrev pub is_preparing : ResultLayer → Bool
is_preparing (preparing_layer p) = true
is_preparing _ = false

-- `Object.fromEntries` of the tokens by query, onto an object.
unfoldable pub tokens_onto : List (String × String) → List ResultLayer → List (String × String)
tokens_onto tokens [] = tokens
tokens_onto tokens (query_layer q ∷ layers) =
    tokens_onto (insert q.query_id q.query_token tokens) layers
tokens_onto tokens (preparing_layer p ∷ layers) = tokens_onto tokens layers
tokens_onto tokens (external_layer e ∷ layers) = tokens_onto tokens layers

-- The preparation under way: its abort controller, and `result`, `sequence` and `current` of the call
-- of `acceptMapResult` that began it.
pub record Preparation : Type 0 where
  pub controller : ℕ
  pub sequence : ℕ
  pub result : MapResult
  pub current : MapResult

-- `refresh_expired` is none where the reference holds the function that does nothing; a preparation
-- that is none was aborted, as was every one whose controller is another. `refreshing` is the sequence
-- of the refresh that runs.
pub record McpMap : Type 0 where
  pub map_sequence : ℕ
  pub refresh_expired : Option (MapDefinition × ℕ)
  pub tokens : List (String × String)
  pub query_tokens : List (String × String)
  pub map_configuration : Option MapConfiguration
  pub bridge_error : Option String
  pub preparation : Option Preparation
  pub controllers : ℕ
  pub refreshing : Option ℕ
  pub feedback_notice : Option String

unfoldable pub new_map : McpMap
new_map = record {
  map_sequence = 0;
  refresh_expired = none;
  tokens = [];
  query_tokens = [];
  map_configuration = none;
  bridge_error = none;
  preparation = none;
  controllers = 0;
  refreshing = none;
  feedback_notice = none;
}
