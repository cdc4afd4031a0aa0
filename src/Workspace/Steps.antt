-- ===== src/Workspace/Steps.antt =====
-- The commands as steps on the state, in whatever order they come between the renders.
use hifld_next.Common.{String, Bool, List, Option, Result, ok, ◌≡◌, subst}
use hifld_next.Js.{Js}
use hifld_next.Layers.{LoadedMapLayer}
use hifld_next.Workspace.Layer.{DatasetLayerInput}
use hifld_next.Workspace.State.{
  Workspace, VectorLayer, render, begin_add, finish_add, remove_layer, set_layer_visibility,
  reorder_layers, set_basemap,
}
use hifld_next.Workspace.Style.{LayerStyleUpdate}
use hifld_next.Workspace.Styling.{set_layer_style}
use hifld_next.Workspace.Invariant.{
  IsWorkspace, render-IsWorkspace, begin_add-IsWorkspace, finish_add-IsWorkspace,
  remove_layer-IsWorkspace, set_layer_visibility-IsWorkspace, reorder_layers-IsWorkspace,
  set_basemap-IsWorkspace, set_layer_style-IsWorkspace,
}

module _ (js : Js) where
  -- A command that goes through, or a render, from one state to the next. Any other step may come
  -- between the `begin_add` and the `finish_add` of one call.
  pub data Step (w w' : Workspace js) : Type 0 where
    rendered : (vs : List (VectorLayer js)) → render js vs w ≡ w' → Step w w'
    began : (input : DatasetLayerInput) → begin_add js input w ≡ ok w' → Step w w'
    finished :
        (input : DatasetLayerInput) (resolved : Result (Option (LoadedMapLayer js)))
        → (finish_add js input resolved w).0 ≡ w'
        → Step w w'
    removed : (id : String) → remove_layer js id w ≡ ok w' → Step w w'
    shown :
        (id : String) (visible : Bool) → set_layer_visibility js id visible w ≡ ok w' → Step w w'
    ordered : (layer_ids : List String) → reorder_layers js layer_ids w ≡ ok w' → Step w w'
    styled :
        (id : String) (update : LayerStyleUpdate js)
        → set_layer_style js id update w ≡ ok w'
        → Step w w'
    based : (mode : String) → set_basemap js mode w ≡ ok w' → Step w w'

  pub data Steps : Workspace js → Workspace js → Type 0 where
    stay : (w : Workspace js) → Steps w w
    next : (w w' w'' : Workspace js) → Step w w' → Steps w' w'' → Steps w w''

  Step-IsWorkspace : (w w' : Workspace js) → Step w w' → IsWorkspace js w → IsWorkspace js w'
  Step-IsWorkspace w w' (rendered vs e) i = subst (IsWorkspace js) e (render-IsWorkspace js vs w i)
  Step-IsWorkspace w w' (began input h) i = begin_add-IsWorkspace js input w w' h i
  Step-IsWorkspace w w' (finished input resolved e) i =
      subst (IsWorkspace js) e (finish_add-IsWorkspace js input resolved w i)
  Step-IsWorkspace w w' (removed id h) i = remove_layer-IsWorkspace js id w w' h i
  Step-IsWorkspace w w' (shown id visible h) i =
      set_layer_visibility-IsWorkspace js id visible w w' h i
  Step-IsWorkspace w w' (ordered layer_ids h) i = reorder_layers-IsWorkspace js layer_ids w w' h i
  Step-IsWorkspace w w' (styled id update h) i = set_layer_style-IsWorkspace js id update w w' h i
  Step-IsWorkspace w w' (based mode h) i = set_basemap-IsWorkspace js mode w w' h i

  -- Where no layer id stands twice in the state or in the last render and none is pending twice,
  -- that still holds after any sequence of commands that go through, ends of pending additions and
  -- renders.
  pub Steps-IsWorkspace : (w w' : Workspace js) → Steps w w' → IsWorkspace js w → IsWorkspace js w'
  Steps-IsWorkspace w w' (stay _) i = i
  Steps-IsWorkspace w w'' (next _ w' _ s rest) i =
      Steps-IsWorkspace w' w'' rest (Step-IsWorkspace w w' s i)
