-- ===== src/Js.antt =====
-- What the program takes from the JavaScript engine and from its text routines: numbers (IEEE
-- doubles), their printing and reading, collation, lower case and JSON text are parameters; the
-- values that cross the map library's boundary are one data type.
pub mod Trim
pub mod Patterns
pub mod Paths
pub mod Sort
use Prim.Native.Nat.{Ordering}
use hifld_next.Common.{
  ℕ, String, Bool, true, false, not, List, [], ◌∷◌, ◌++◌, if◌then◌else◌, ◌≡◌, ◌==◌, Option, none,
  some, ◌||◌,
}

-- A JavaScript value, over the engine's numbers.
mutual
  pub data Value (N : Type 0) : Type 0 where
    undefined : Value N
    null : Value N
    bool : Bool → Value N
    num : N → Value N
    bigint : ℕ → Value N
    str : String → Value N
    arr : Values N → Value N
    obj : Fields N → Value N

  pub data Values (N : Type 0) : Type 0 where
    nil : Values N
    cons : Value N → Values N → Values N

  pub data Fields (N : Type 0) : Type 0 where
    end : Fields N
    field : String → Value N → Fields N → Fields N

pub record Js : Type 1 where
  pub Number : Type 0
  -- The numeric literal `n / d`, so that 0.65 is `literal 65 100`.
  pub literal : ℕ → ℕ → Number
  pub minus : Number → Number
  pub plus : Number → Number → Number
  pub times : Number → Number → Number
  pub divide : Number → Number → Number
  -- `a < b` and `a === b`
  pub lt : Number → Number → Bool
  pub eq : Number → Number → Bool
  pub is_finite : Number → Bool
  pub is_nan : Number → Bool
  pub is_integer : Number → Bool
  -- `String(value)` and `Number(text)`
  pub print : Number → String
  pub read : String → Number
  pub locale_compare : String → String → Ordering
  pub to_lower_case : String → String
  pub print_bigint : ℕ → String
  pub json_stringify : Value Number → String

-- What the proofs use of the engine's order.
pub record IsOrdered (js : Js) : Type 0 where
  pub lt_irrefl : (a : js.Number) → js.lt a a ≡ false
  pub lt_trans : (a b c : js.Number) → js.lt a b ≡ true → js.lt b c ≡ true → js.lt a c ≡ true
  -- Numbers that are `===` compare alike.
  pub eq_lt : (a b c : js.Number) → js.eq a b ≡ true → js.lt b c ≡ js.lt a c

module _ (js : Js) where
  -- `n` as a number.
  abbrev pub whole : ℕ → js.Number
  whole n = js.literal n 1

  -- `typeof value === "number"`
  abbrev pub as_number : Value js.Number → Option js.Number
  as_number (num n) = some n
  as_number _ = none

  abbrev pub as_text : Value js.Number → Option String
  as_text (str s) = some s
  as_text _ = none

-- `value?.[name]` on an object's entries
pub get_field : {N : Type 0} → Fields N → String → Value N
get_field end name = undefined
get_field (field k v fs) name = if k == name then v else get_field fs name
