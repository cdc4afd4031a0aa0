-- ===== src/Js/Patterns.antt =====
-- The regular expressions and substring tests of the source, as functions on texts.
use Prim.Native.Char.{code}
use Prim.Native.String
use Prim.Native.String.{String, [], ◌∷◌}
use hifld_next.Common.{
  ℕ, zero, suc, Bool, true, false, ◌||◌, ◌&&◌, if◌then◌else◌, eqb, leb, ◌-◌, ◌==◌,
}

unfoldable pub is_digit : ℕ → Bool
is_digit c = leb b'0' c && leb c b'9'

-- `[a-z0-9]`
unfoldable pub is_word : ℕ → Bool
unfolding is_digit
is_word c = (leb b'a' c && leb c b'z') || is_digit c

-- `replace(/[^…]+/g, " ")`: each run of such characters becomes one space. `inside` holds after
-- such a character.
unfoldable pub collapse_from : (ℕ → Bool) → Bool → String → String
collapse_from p inside [] = []
collapse_from p inside (c ∷ s) =
    let rest = collapse_from p (p (code c)) s in
    if p (code c) then (if inside then rest else String.◌++◌ " " rest) else c ∷ rest

unfoldable pub is_prefix : String → String → Bool
is_prefix [] s = true
is_prefix (c ∷ p) [] = false
is_prefix (c ∷ p) (d ∷ s) = eqb (code c) (code d) && is_prefix p s

-- `text.includes(part)`
unfoldable pub has_part : String → String → Bool
unfolding is_prefix
has_part [] part = is_prefix part []
has_part (d ∷ s) part = is_prefix part (d ∷ s) || has_part s part

-- The characters of a text. (The source counts UTF-16 units; it does so of ASCII texts.)
unfoldable pub text_length : String → ℕ
text_length [] = 0
text_length (c ∷ s) = suc (text_length s)

-- `text.slice(0, n)`, of an ASCII text
unfoldable pub text_take : ℕ → String → String
text_take zero s = ""
text_take (suc n) [] = ""
text_take (suc n) (c ∷ s) = c ∷ text_take n s

-- `text.slice(n)`, of an ASCII text
unfoldable pub text_drop : ℕ → String → String
text_drop zero s = s
text_drop (suc n) [] = []
text_drop (suc n) (c ∷ s) = text_drop n s

-- `text.endsWith(part)`
unfoldable pub is_suffix : String → String → Bool
is_suffix part s =
    leb (text_length part) (text_length s) && text_drop (text_length s - text_length part) s == part

-- Whether a text has the character.
abbrev pub has_code : ℕ → String → Bool
has_code mark [] = false
has_code mark (c ∷ s) = eqb (code c) mark || has_code mark s

-- `text.replaceAll(mark, escape)`, of one character
unfoldable pub replace_all : ℕ → String → String → String
replace_all mark escape [] = []
replace_all mark escape (c ∷ s) =
    let rest = replace_all mark escape s in
    if eqb (code c) mark then String.◌++◌ escape rest else c ∷ rest
