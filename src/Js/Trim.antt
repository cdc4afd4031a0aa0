-- ===== src/Js/Trim.antt =====
-- `String.prototype.trim`, over code points.
use Prim.Native.Char.{code}
use Prim.Native.String.{String, [], ◌∷◌}
use text.Mathlib.Text.{◌==◌}
use hifld_next.Common.{ℕ, Bool, ◌||◌, ◌&&◌, if◌then◌else◌, eqb, leb}

-- ECMAScript's white space and line terminators.
unfoldable pub is_space : ℕ → Bool
is_space c =
    (leb 9 c && leb c 13)
    || eqb c 32
    || eqb c 160
    || eqb c 5760
    || (leb 8192 c && leb c 8202)
    || eqb c 8232
    || eqb c 8233
    || eqb c 8239
    || eqb c 8287
    || eqb c 12288
    || eqb c 65279

unfoldable pub trim_start : String → String
trim_start [] = []
trim_start (c ∷ s) = if is_space (code c) then trim_start s else c ∷ s

unfoldable pub trim_end : String → String
trim_end [] = []
trim_end (c ∷ s) = let t = trim_end s in if t == "" && is_space (code c) then [] else c ∷ t

unfoldable pub trim : String → String
unfolding is_space trim_start trim_end
trim s = trim_end (trim_start s)

-- `!text.trim()`
abbrev pub is_blank : String → Bool
is_blank s = trim s == ""
