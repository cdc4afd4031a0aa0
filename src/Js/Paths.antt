-- ===== src/Js/Paths.antt =====
-- Paths and addresses as texts: the splits and the slash patterns of the source.
use Prim.Native.Char.{Char, code}
use Prim.Native.String
use Prim.Native.String.{[], ◌∷◌}
use hifld_next.Common.{
  ℕ, String, Bool, false, not, ◌||◌, ◌&&◌, ◌==◌, eqb, leb, if◌then◌else◌, List, [], ◌∷◌, filter,
  Option, none, some,
}
use hifld_next.Js.Patterns.{is_prefix, text_drop, text_length, has_code, is_word}

-- `text.split(mark)`
abbrev join_first : Char → List String → List String
join_first c [] = (c ∷ []) ∷ []
join_first c (w ∷ ws) = (c ∷ w) ∷ ws

unfoldable pub split : ℕ → String → List String
split mark [] = "" ∷ []
split mark (c ∷ s) =
    let rest = split mark s in if eqb (code c) mark then "" ∷ rest else join_first c rest

-- `text.split("/").filter(Boolean)`
unfoldable pub segments : String → List String
unfolding split
segments path = filter (λ part. not (part == "")) (split b'/' path)

-- `text.replace(/^\/+/, "")`
unfoldable pub strip_leading : String → String
strip_leading [] = []
strip_leading (c ∷ s) = let rest = strip_leading s in if eqb (code c) b'/' then rest else c ∷ s

-- `text.replace(/\/+$/, "")`
unfoldable pub strip_trailing : String → String
strip_trailing [] = []
strip_trailing (c ∷ s) =
    let rest = strip_trailing s in if eqb (code c) b'/' && rest == "" then [] else c ∷ rest

-- `text.slice(0, text.lastIndexOf("/") + 1)`: up to the last slash, and nothing where there is none.
unfoldable pub up_to_last_slash : String → String
up_to_last_slash [] = []
up_to_last_slash (c ∷ s) =
    let rest = up_to_last_slash s in
    if has_code b'/' s then c ∷ rest else if eqb (code c) b'/' then "/" else []

-- What stands behind the first occurrence of the part: `text.slice(text.indexOf(part) + part.length)`.
unfoldable pub after_part : String → String → Option String
unfolding is_prefix text_drop text_length
after_part part [] = if part == "" then some "" else none
after_part part (c ∷ s) =
    let rest = after_part part s in
    if is_prefix part (c ∷ s) then some (text_drop (text_length part) (c ∷ s)) else rest

-- The text up to the next slash, and the slash with what follows it.
unfoldable pub to_slash : String → String × String
to_slash [] = ("", "")
to_slash (c ∷ s) =
    let rest = to_slash s in if eqb (code c) b'/' then ("", c ∷ s) else (c ∷ rest.0, rest.1)

-- `[a-z0-9+.-]` of `/…/i`
unfoldable pub is_scheme_code : ℕ → Bool
unfolding is_word
is_scheme_code c = is_word c || (leb b'A' c && leb c b'Z') || eqb c b'+' || eqb c b'.' || eqb c b'-'

-- The scheme before the first colon, and what stands behind it.
unfoldable pub scheme_and_rest : String → Option (String × String)
unfolding is_scheme_code
scheme_and_rest [] = none
scheme_and_rest (c ∷ s) =
    let rest = scheme_and_rest s in
    if eqb (code c) b':'
    then some ("", s)
    else if is_scheme_code (code c)
    then in_front c rest
    else none
  where
    in_front : Char → Option (String × String) → Option (String × String)
    in_front c none = none
    in_front c (some (scheme, rest)) = some (c ∷ scheme, rest)

-- What `.` does not match.
has_line_end : String → Bool
has_line_end s = has_code 10 s || has_code 13 s || has_code 8232 s || has_code 8233 s

starts_with_letter : String → Bool
starts_with_letter [] = false
starts_with_letter (c ∷ s) =
    (leb b'a' (code c) && leb (code c) b'z') || (leb b'A' (code c) && leb (code c) b'Z')

-- The first group of `/^([a-z][a-z0-9+.-]*:\/\/[^/]+)(?:\/.*)?$/i`, where the text matches.
authority : String → Option (String × String) → Option String
unfolding is_prefix to_slash text_drop starts_with_letter has_line_end
authority uri none = none
authority uri (some (scheme, rest)) =
    let (host, path) = to_slash (text_drop 2 rest) in
    if starts_with_letter scheme
      && is_prefix "//" rest
      && not (host == "")
      && not (has_line_end path)
    then some (String.◌++◌ scheme (String.◌++◌ "://" host))
    else none

unfoldable pub uri_root : String → Option String
unfolding authority scheme_and_rest
uri_root uri = authority uri (scheme_and_rest uri)
