-- ===== src/Site/Xml.antt =====
-- `escapeXml` of webapp/src/lib/sitemap.ts.
use Prim.Native.Char.{Char, code}
use Prim.Native.String
use Prim.Native.String.{[], ◌∷◌}
use text.Mathlib.TextLemmas.{nil-append, cons-append, append_assoc}
use hifld_next.Common.{ℕ, String, eqb, if◌then◌else◌, Bool-cases, inl, inr, ◌≡◌, refl, ap, sym, ◌∙◌}
use hifld_next.Js.Patterns.{replace_all}

unfoldable pub escape_xml : String → String
unfolding replace_all
escape_xml value = replace_all b'\'' "&apos;" (
    replace_all b'"' "&quot;"
      (replace_all b'>' "&gt;" (replace_all b'<' "&lt;" (replace_all b'&' "&amp;" value))))

-- What stands for a character.
abbrev entity : Char → String
entity c =
    if eqb (code c) b'&'
    then "&amp;"
    else if eqb (code c) b'<'
    then "&lt;"
    else if eqb (code c) b'>'
    then "&gt;"
    else if eqb (code c) b'"'
    then "&quot;"
    else if eqb (code c) b'\''
    then "&apos;"
    else c ∷ ""

abbrev pub escape_each : String → String
escape_each [] = ""
escape_each (c ∷ s) = String.◌++◌ (entity c) (escape_each s)

replace_all-append :
    (mark : ℕ) (by s t : String)
    → replace_all mark by (String.◌++◌ s t)
      ≡ String.◌++◌ (replace_all mark by s) (replace_all mark by t)
unfolding replace_all
replace_all-append mark by [] t =
    ap (replace_all mark by) (nil-append t) ∙ sym (nil-append (replace_all mark by t))
replace_all-append mark by (c ∷ s) t =
    ap (replace_all mark by) (cons-append c s t) ∙ elim (Bool-cases (eqb (code c) mark)) [
      | inl here ↦ rw here (
          ap (String.◌++◌ by) (replace_all-append mark by s t)
          ∙ sym (append_assoc by (replace_all mark by s) (replace_all mark by t)))
      | inr there ↦ rw there (
          ap (λ r. c ∷ r) (replace_all-append mark by s t)
          ∙ sym (cons-append c (replace_all mark by s) (replace_all mark by t)))
    ]

-- One character, with a text behind it.
escape_xml-append :
    (s t : String) → escape_xml (String.◌++◌ s t) ≡ String.◌++◌ (escape_xml s) (escape_xml t)
unfolding escape_xml
escape_xml-append s t = simp (replace_all-append)

escape_xml-entity : (c : Char) → escape_xml (c ∷ "") ≡ entity c
unfolding escape_xml replace_all
escape_xml-entity c = elim (Bool-cases (eqb (code c) b'&')) [
  | inl here ↦ rw here refl
  | inr there ↦ rw there (elim (Bool-cases (eqb (code c) b'<')) [
    | inl here ↦ rw here refl
    | inr there ↦ rw there (elim (Bool-cases (eqb (code c) b'>')) [
      | inl here ↦ rw here refl
      | inr there ↦ rw there (elim (Bool-cases (eqb (code c) b'"')) [
        | inl here ↦ rw here refl
        | inr there ↦ rw there (elim (Bool-cases (eqb (code c) b'\'')) [
          | inl here ↦ rw here refl
          | inr there ↦ rw there (refl)
        ])
      ])
    ])
  ])
]

-- To replace the five marks of XML one after the other gives the same as to replace each character
-- by itself, so none of the replacements touches what another one wrote.
pub escape_xml_each : (value : String) → escape_xml value ≡ escape_each value
escape_xml_each [] = unfold escape_xml replace_all in refl
escape_xml_each (c ∷ s) =
    ap escape_xml (sym (ap (λ t. c ∷ t) (nil-append s)) ∙ sym (cons-append c "" s))
    ∙ escape_xml-append (c ∷ "") s
    ∙ ap (λ t. String.◌++◌ t (escape_xml s)) (escape_xml-entity c)
    ∙ ap (String.◌++◌ (entity c)) (escape_xml_each s)
