-- ===== src/Highlights/Hidden.antt =====
-- What a highlighted feature does not show: the patterns of mapSelection.ts.
use Prim.Native.Char.{code}
use Prim.Native.String.{String, [], ◌∷◌}
use hifld_next.Common.{
  ℕ, ◌+◌, Bool, true, false, not, ◌||◌, ◌&&◌, eqb, leb, List, [], ◌∷◌, any, if◌then◌else◌,
}
use hifld_next.Js.{Value, str}
use hifld_next.Js.Trim.{trim_start}
use hifld_next.Js.Patterns.{is_digit}

-- The patterns of texts that are well-known text, GeoJSON or the URL of a tile.
pub record Patterns : Type 0 where
  pub wkt_geometry : String → Bool
  pub geojson_geometry : String → Bool
  pub mvt_tile_url : String → Bool

abbrev is_upper : ℕ → Bool
is_upper c = leb b'A' c && leb c b'Z'

-- The flag `i` compares ASCII letters without their case, and no other character with them.
unfoldable pub same_letter : ℕ → ℕ → Bool
same_letter c d = eqb (if is_upper c then c + 32 else c) (if is_upper d then d + 32 else d)

unfoldable pub starts_with_any_case : String → String → Bool
unfolding same_letter
starts_with_any_case [] s = true
starts_with_any_case (c ∷ p) [] = false
starts_with_any_case (c ∷ p) (d ∷ s) = same_letter (code c) (code d) && starts_with_any_case p s

unfoldable pub has_any_case : String → String → Bool
unfolding starts_with_any_case
has_any_case part [] = starts_with_any_case part []
has_any_case part (d ∷ s) = starts_with_any_case part (d ∷ s) || has_any_case part s

abbrev pub private_parts : List String
private_parts = "token" ∷ "tileurl" ∷ "tile_url" ∷ "tile-url" ∷ "sql" ∷ "geometry" ∷ []

-- `PRIVATE_PROPERTY_NAME.test`
unfoldable pub is_private_property_name : String → Bool
is_private_property_name name = any (λ part. has_any_case part name) private_parts

-- `\w`
abbrev is_word_character : ℕ → Bool
is_word_character c = is_upper c || (leb b'a' c && leb c b'z') || is_digit c || eqb c b'_'

-- `\b` after a word
abbrev ends_word : String → Bool
ends_word [] = true
ends_word (c ∷ s) = not (is_word_character (code c))

-- The keyword and then the end of the word.
unfoldable pub starts_with_keyword : String → String → Bool
unfolding same_letter is_digit
starts_with_keyword [] s = ends_word s
starts_with_keyword (c ∷ p) [] = false
starts_with_keyword (c ∷ p) (d ∷ s) = same_letter (code c) (code d) && starts_with_keyword p s

abbrev pub sql_keywords : List String
sql_keywords =
    "SELECT" ∷ "WITH" ∷ "INSERT" ∷ "UPDATE" ∷ "DELETE" ∷ "MERGE" ∷ "CREATE" ∷ "ALTER" ∷ "DROP"
    ∷ "TRUNCATE" ∷ "GRANT" ∷ "REVOKE" ∷ "COPY" ∷ "EXPLAIN" ∷ []

-- `SQL_STATEMENT.test`
unfoldable pub is_sql_statement : String → Bool
is_sql_statement s = any (λ k. starts_with_keyword k (trim_start s)) sql_keywords

unfoldable pub contains_sensitive_feature_data : {N : Type 0} → Patterns → Value N → Bool
contains_sensitive_feature_data patterns (str s) =
    patterns.wkt_geometry s
    || patterns.geojson_geometry s
    || is_sql_statement s
    || patterns.mvt_tile_url s
contains_sensitive_feature_data patterns v = false
