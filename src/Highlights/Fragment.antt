-- ===== src/Highlights/Fragment.antt =====
-- `stableExternalFeatureId` of mapSelection.ts: the 32-bit FNV-1a hash of a feature without an id, and
-- its eight hexadecimal digits.
use Prim.Native.Char.{Char, code}
use Prim.Native.Nat.{◌^◌, ◌<◌, bit_xor}
use Prim.Native.String.{String, [], ◌∷◌}
use hifld_next.Common.{
  ℕ, zero, suc, ◌+◌, ◌-◌, ◌*◌, ◌/◌, ◌%◌, List, [], ◌∷◌, get_elem?, get_or, concat, ◌∙◌,
  if◌then◌else◌, ltb, leb, ◌≡◌, refl, arith, ap,
}

-- One round of the loop, of one UTF-16 unit.
unfoldable pub hash_unit : ℕ → ℕ → ℕ
hash_unit hash unit = bit_xor hash unit * 16777619 % 2 ^ 32

-- The units of a code point: itself, or two surrogates.
unfoldable pub hash_code : ℕ → ℕ → ℕ
hash_code hash c =
    if ltb c 65536
    then hash_unit hash c
    else hash_unit (hash_unit hash (55296 + (c - 65536) / 1024)) (56320 + (c - 65536) % 1024)

unfoldable pub hash_from : ℕ → String → ℕ
hash_from hash [] = hash
hash_from hash (c ∷ s) = hash_from (hash_code hash (code c)) s

unfoldable pub hash : String → ℕ
hash identity = hash_from 2166136261 identity

abbrev hex_chars : List Char
hex_chars =
    "0" ∷ "1" ∷ "2" ∷ "3" ∷ "4" ∷ "5" ∷ "6" ∷ "7" ∷ "8" ∷ "9" ∷ "a" ∷ "b" ∷ "c" ∷ "d" ∷ "e" ∷ "f"
    ∷ []

abbrev hex_char : ℕ → Char
hex_char d = get_or (get_elem? hex_chars d) "0"

-- `n.toString(16).padStart(digits, "0")`, of a number of so many digits, before a text
unfoldable pub hex_onto : ℕ → ℕ → String → String
hex_onto zero n rest = rest
hex_onto (suc digits) n rest = hex_onto digits (n / 16) (hex_char (n % 16) ∷ rest)

unfoldable pub fragment_id : String → String
fragment_id identity = concat ("tile-fragment:" ∷ hex_onto 8 (hash identity) "" ∷ [])

-- What hexadecimal digits stand for, after those of `n`.
abbrev hex_value : Char → ℕ
hex_value c = if leb (code c) b'9' then code c - b'0' else code c - b'a' + 10

abbrev pub read_hex : ℕ → String → ℕ
read_hex n [] = n
read_hex n (c ∷ s) = read_hex (16 * n + hex_value c) s

abbrev pow16 : ℕ → ℕ
pow16 zero = 1
pow16 (suc k) = 16 * pow16 k

digit_reads : (d : ℕ) → d < 16 → hex_value (hex_char d) ≡ d
digit_reads zero h = refl
digit_reads (suc zero) h = refl
digit_reads (suc (suc zero)) h = refl
digit_reads (suc (suc (suc zero))) h = refl
digit_reads (suc (suc (suc (suc zero)))) h = refl
digit_reads (suc (suc (suc (suc (suc zero))))) h = refl
digit_reads (suc (suc (suc (suc (suc (suc zero)))))) h = refl
digit_reads (suc (suc (suc (suc (suc (suc (suc zero))))))) h = refl
digit_reads (suc (suc (suc (suc (suc (suc (suc (suc zero)))))))) h = refl
digit_reads (suc (suc (suc (suc (suc (suc (suc (suc (suc zero))))))))) h = refl
digit_reads (suc (suc (suc (suc (suc (suc (suc (suc (suc (suc zero)))))))))) h = refl
digit_reads (suc (suc (suc (suc (suc (suc (suc (suc (suc (suc (suc zero))))))))))) h = refl
digit_reads (suc (suc (suc (suc (suc (suc (suc (suc (suc (suc (suc (suc zero)))))))))))) h = refl
digit_reads (suc (suc (suc (suc (suc (suc (suc (suc (suc (suc (suc (suc (suc zero))))))))))))) h =
    refl
digit_reads (suc (suc (suc (suc (suc (suc (suc (suc (suc (suc (suc (suc (suc (suc zero))))))))))))))
      h =
    refl
digit_reads
      (suc (suc (suc (suc (suc (suc (suc (suc (suc (suc (suc (suc (suc (suc (suc zero)))))))))))))))
      h =
    refl
digit_reads
      (suc
        (suc (suc (suc (suc (suc (suc (suc (suc (suc (suc (suc (suc (suc (suc (suc d))))))))))))))))
      h =
    omega arith

hex_reads :
    (digits n m : ℕ) (rest : String)
    → n < pow16 digits
    → read_hex m (hex_onto digits n rest) ≡ read_hex (m * pow16 digits + n) rest
unfolding hex_onto
hex_reads zero n m rest h = ap (λ k. read_hex k rest) (omega arith)
hex_reads (suc digits) n m rest h =
    hex_reads digits (n / 16) m (hex_char (n % 16) ∷ rest) (omega arith)
    ∙ ap (λ k. read_hex k rest) (omega (arith, digit_reads (n % 16)))

hash_code_bounded : (h c : ℕ) → hash_code h c < 2 ^ 32
unfolding hash_code hash_unit
hash_code_bounded h c = ground arith

hash_from_bounded : (h : ℕ) (s : String) → h < 2 ^ 32 → hash_from h s < 2 ^ 32
unfolding hash_from
hash_from_bounded h [] b = b
hash_from_bounded h (c ∷ s) b =
    hash_from_bounded (hash_code h (code c)) s (hash_code_bounded h (code c))

-- The hash of any text is below 2^32, and its eight hexadecimal digits, read as a number, are the
-- hash again.
pub hash_reads_back :
    (identity : String)
    → (hash identity < 2 ^ 32) × (read_hex 0 (hex_onto 8 (hash identity) "") ≡ hash identity)
unfolding hash
hash_reads_back identity =
    let bounded = hash_from_bounded 2166136261 identity (omega arith) in
    (bounded, hex_reads 8 (hash identity) 0 "" bounded ∙ omega arith)
