-- ===== src/VersionLabel.antt =====
-- webapp/src/components/dataset/versionLabel.ts: how versions are shown and ordered.
use Prim.Native.Char.{code}
use Prim.Native.Nat.{Ordering}
use Prim.Native.String.{◌∷◌}
use Prim.Native.String as Text
use hifld_next.Common.{
  ℕ, zero, suc, String, Bool, false, ◌||◌, ◌&&◌, not, if◌then◌else◌, eqb, Option, none, some, ◌==◌,
}
use hifld_next.Js.{Js}
use hifld_next.Js.Patterns.{is_digit}

starts_with_v : String → Bool
starts_with_v Text.[] = false
starts_with_v (c ∷ s) = eqb (code c) b'v'

-- `n` digits, then the rest.
skip_digits : ℕ → String → Option String
unfolding is_digit
skip_digits zero s = some s
skip_digits (suc n) Text.[] = none
skip_digits (suc n) (c ∷ s) = let rest = skip_digits n s in if is_digit (code c) then rest else none

skip_dash : Option String → Option String
skip_dash none = none
skip_dash (some Text.[]) = none
skip_dash (some (c ∷ s)) = if eqb (code c) b'-' then some s else none

-- `/^\d{4}-\d{2}-\d{2}$/`
unfoldable pub is_date : String → Bool
unfolding skip_digits skip_dash
is_date s = ends (digits 2 (skip_dash (digits 2 (skip_dash (skip_digits 4 s)))))
  where
    digits : ℕ → Option String → Option String
    digits n none = none
    digits n (some rest) = skip_digits n rest

    ends : Option String → Bool
    ends none = false
    ends (some rest) = rest == ""

-- `null` and `undefined` are `none`; a number is given as its text.
unfoldable pub format_version_label : Option String → String
unfolding starts_with_v is_date
format_version_label none = ""
format_version_label (some version) =
    if is_date version || starts_with_v version then version else Text.◌++◌ "v" version

-- The longest run of digits at the front, and the rest.
take_digits : String → String × String
unfolding is_digit
take_digits Text.[] = ("", "")
take_digits (c ∷ s) =
    let (ds, rest) = take_digits s in if is_digit (code c) then (c ∷ ds, rest) else ("", c ∷ s)

-- `\d+`, then the character `mark`.
part_and : ℕ → String → Option (String × String)
unfolding take_digits
part_and mark s = after (take_digits s).0 (take_digits s).1
  where
    after : String → String → Option (String × String)
    after ds Text.[] = none
    after ds (c ∷ rest) = if not (ds == "") && eqb (code c) mark then some (ds, rest) else none

module _ (js : Js) where
  pub record Semver : Type 0 where
    pub major : js.Number
    pub minor : js.Number
    pub patch : js.Number

  -- `/^v(\d+)\.(\d+)\.(\d+)$/`
  unfoldable pub parse_semver_version : String → Option Semver
  unfolding starts_with_v part_and
  parse_semver_version Text.[] = none
  parse_semver_version (v ∷ s) = if eqb (code v) b'v' then parts (part_and b'.' s) else none
    where
      last : String → String → String × String → Option Semver
      last major minor (patch, rest) =
          if not (patch == "") && rest == ""
          then some (record { major = js.read major; minor = js.read minor; patch = js.read patch })
          else none

      two : String → Option (String × String) → Option Semver
      two major none = none
      two major (some (minor, rest)) = last major minor (take_digits rest)

      parts : Option (String × String) → Option Semver
      parts none = none
      parts (some (major, rest)) = two major (part_and b'.' rest)

  -- The sign of `b - a`.
  abbrev pub sign_of_difference : js.Number → js.Number → Ordering
  sign_of_difference b a =
      if js.lt b a then Ordering.lt else if js.lt a b then Ordering.gt else Ordering.eq

  abbrev pub or_else : Ordering → Ordering → Ordering
  or_else Ordering.eq later = later
  or_else first later = first

  -- The sign of the comparison: positive where `right` is the newer version.
  unfoldable pub compare_version_values : String → String → Ordering
  unfolding parse_semver_version
  compare_version_values left right =
      by_semver (parse_semver_version left) (parse_semver_version right)
    where
      by_number : Ordering
      by_number =
          if not (js.is_nan (js.read left)) && not (js.is_nan (js.read right))
          then sign_of_difference (js.read right) (js.read left)
          else js.locale_compare right left

      by_semver : Option Semver → Option Semver → Ordering
      by_semver (some l) (some r) =
          or_else (sign_of_difference r.major l.major)
            (or_else (sign_of_difference r.minor l.minor) (sign_of_difference r.patch l.patch))
      by_semver _ _ = by_number
