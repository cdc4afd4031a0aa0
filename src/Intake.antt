-- ===== src/Intake.antt =====
-- The loop of `updateSelectedFeatures` in webapp/src/components/map/featureSelection.ts, over any type
-- of candidate: candidates in order, none twice by its key, at most `max_selected_features` to a
-- group.
pub mod Bounds
pub mod Capped
pub mod Order
use hifld_next.Common.{
  ℕ, ◌+◌, String, Bool, true, false, ◌||◌, List, [], ◌∷◌, ◌++◌, if◌then◌else◌, leb, get_or, lookup,
  insert, includes,
}

-- `MAX_SELECTED_FEATURES`
abbrev pub max_selected_features : ℕ
max_selected_features = 100

-- The loop's variables; `seen` is the set of keys, `counts` the map from groups.
pub record Intake (A : Type 0) : Type 0 where
  pub rows : List A
  pub seen : List String
  pub counts : List (String × ℕ)
  pub was_capped : Bool

abbrev pub start : {A : Type 0} → Intake A
start = record { rows = []; seen = []; counts = []; was_capped = false }

-- `countByLoadedLayer.get(...) ?? 0`
abbrev pub group_count : {A : Type 0} → (A → String) → List (String × ℕ) → A → ℕ
group_count group counts x = get_or (lookup (group x) counts) 0

module _ {A : Type 0} (key group : A → String) where
  -- One round of the loop.
  unfoldable pub offer : Intake A → A → Intake A
  offer s x =
      if includes s.seen (key x)
      then s
      else if leb max_selected_features (group_count group s.counts x)
      then record s { seen = key x ∷ s.seen; was_capped = true }
      else record s {
        rows = s.rows ++ x ∷ [];
        seen = key x ∷ s.seen;
        counts = insert (group x) (group_count group s.counts x + 1) s.counts;
      }

  unfoldable pub take_all : Intake A → List A → Intake A
  take_all s [] = s
  take_all s (x ∷ xs) = take_all (offer s x) xs
