-- ===== src/Common/Text.antt =====
-- Texts as keys: the sets and maps of the source, in insertion order.
use Prim.Native.String
use Prim.Native.String.{String}
use mathlib.Core.Path.{◌≡◌, refl}
use mathlib.Core.Bool.{Bool, false, ◌||◌}
use mathlib.Core.List.{List, [], ◌∷◌, ◌++◌, map}
use mathlib.Core.Option.{Option, none, some}
use mathlib.Core.Logic.{inl, inr}
use native.Mathlib.Omega.{arith}
use text.Mathlib.Text.{◌==◌}
use text.Mathlib.TextEquality.{eq_iff}
use hifld_next.Common.Tests.{if◌then◌else◌, Bool-cases}

-- `Array.prototype.includes` and `Set.prototype.has` on texts
abbrev pub includes : List String → String → Bool
includes [] k = false
includes (x ∷ xs) k = x == k || includes xs k

-- No text stands twice.
abbrev pub Distinct : List String → Type 0
Distinct [] = Unit {0}
Distinct (x ∷ xs) = (includes xs x ≡ false) × Distinct xs

-- `Set.prototype.add`, on a set as the list of its members
abbrev pub add : List String → String → List String
add s k = if includes s k then s else s ++ k ∷ []

-- `new Set(...)`, onto a set
unfoldable pub add_all : List String → List String → List String
add_all s [] = s
add_all s (k ∷ ks) = add_all (add s k) ks

abbrev pub to_set : List String → List String
to_set ks = add_all [] ks

pub includes-append :
    (xs ys : List String) (k : String) → includes (xs ++ ys) k ≡ includes xs k || includes ys k
includes-append [] ys k = refl
includes-append (x ∷ xs) ys k = ground (arith, includes-append xs ys k)

pub includes-add : (s : List String) (j k : String) → includes (add s j) k ≡ includes s k || j == k
includes-add s j k = ground (arith, includes-append s (j ∷ []) k, eq_iff j k)

pub includes-add_all :
    (s ks : List String) (k : String) → includes (add_all s ks) k ≡ includes s k || includes ks k
unfolding add_all
includes-add_all s [] k = ground arith
includes-add_all s (j ∷ ks) k =
    ground (arith, includes-add_all (add s j) ks k, includes-add s j k, eq_iff j k)

pub includes-to_set : (ks : List String) (k : String) → includes (to_set ks) k ≡ includes ks k
includes-to_set ks k = includes-add_all [] ks k

pub Distinct-append_one :
    (s : List String) (k : String) → Distinct s → includes s k ≡ false → Distinct (s ++ k ∷ [])
Distinct-append_one [] k d h = (refl, tt)
Distinct-append_one (x ∷ xs) k (e, d) h = (
  ground (arith, includes-append xs (k ∷ []) x, eq_iff x k, eq_iff k x),
  Distinct-append_one xs k d (ground arith),
)

pub Distinct-add : (s : List String) (k : String) → Distinct s → Distinct (add s k)
Distinct-add s k d = elim (Bool-cases (includes s k)) [
  | inl old ↦ ground arith
  | inr new ↦ rw new (Distinct-append_one s k d new)
]

pub Distinct-add_all : (s ks : List String) → Distinct s → Distinct (add_all s ks)
unfolding add_all
Distinct-add_all s [] d = d
Distinct-add_all s (k ∷ ks) d = Distinct-add_all (add s k) ks (Distinct-add s k d)

-- Maps keyed by texts, as the list of their entries.
module _ {ℓ} {V : Type ℓ} where
  abbrev pub keys : List (String × V) → List String
  keys = map (λ e. e.0)

  abbrev pub lookup : String → List (String × V) → Option V
  lookup wanted [] = none
  lookup wanted ((k, v) ∷ rest) = if k == wanted then some v else lookup wanted rest

  abbrev pub insert : String → V → List (String × V) → List (String × V)
  insert k v ((i, old) ∷ rest) = if i == k then (k, v) ∷ rest else (i, old) ∷ insert k v rest
  insert k v [] = (k, v) ∷ []

  -- A lookup after a write.
  pub lookup-insert :
      (k wanted : String) (v : V) (m : List (String × V))
      → lookup wanted (insert k v m) ≡ (if k == wanted then some v else lookup wanted m)
  lookup-insert k wanted v ((i, old) ∷ rest) =
      let after = lookup-insert k wanted v rest in
      ground (arith, after, eq_iff i wanted, eq_iff i k, eq_iff k wanted)
  lookup-insert k wanted v [] = refl

-- A template, and `Array.prototype.join`.
abbrev pub concat : List String → String
concat [] = ""
concat (s ∷ ss) = String.◌++◌ s (concat ss)

abbrev pub join : String → List String → String
join sep [] = ""
join sep (s ∷ []) = s
join sep (s ∷ t ∷ ss) = concat (s ∷ sep ∷ join sep (t ∷ ss) ∷ [])
