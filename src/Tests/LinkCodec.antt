-- ===== src/Tests/LinkCodec.antt =====
-- A codec of descriptors: escaped fields between bars stand in for the JSON text, and the same escapes
-- for those of a URI component.
use Prim.Native.Char.{code}
use Prim.Native.String.{[], ◌∷◌}
use text.Mathlib.TextEquality.{Char-path}
use hifld_next.Common.{
  String, Bool, true, false, ◌==◌, eqb, eqb_iff, if◌then◌else◌, List, [], ◌∷◌, join, All, Option,
  none, some, ◌≡◌, refl, sym, ap, ◌∙◌, arith, Bool-cases, inl, inr,
}
use hifld_next.Js.Patterns.{has_code}
use hifld_next.Layers.{SourceDescriptor}
use hifld_next.Dataset.Descriptors.{Codec}
use hifld_next.Js.Paths.{split}
use hifld_next.Dataset.Descriptors.RoundTrip.{IsCodec, cons_nonempty, split-join, join-nonempty}

abbrev escape : String → String
escape [] = []
escape (c ∷ s) =
    let rest = escape s in
    if eqb (code c) b'|'
    then "%" ∷ "p" ∷ rest
    else if eqb (code c) b'%'
    then "%" ∷ "%" ∷ rest
    else c ∷ rest

abbrev unescape_from : Bool → String → String
unescape_from pending [] = []
unescape_from true (c ∷ s) = (if eqb (code c) b'p' then "|" else c) ∷ unescape_from false s
unescape_from false (c ∷ s) =
    let plain = unescape_from false s in
    let escaped = unescape_from true s in if eqb (code c) b'%' then escaped else c ∷ plain

abbrev unescape : String → String
unescape s = unescape_from false s

unescape-escape : (s : String) → unescape (escape s) ≡ s
unescape-escape [] = refl
unescape-escape (c ∷ s) = elim (Bool-cases (eqb (code c) b'|')) [
  | inl bar ↦ rw bar (
      ap (λ t. "|" ∷ t) (unescape-escape s)
      ∙ ap (λ d. d ∷ s) (Char-path "|" c (sym ((eqb_iff (code c) b'|').0 bar))))
  | inr other ↦ elim (Bool-cases (eqb (code c) b'%')) [
    | inl percent ↦
        rw (other, percent)
          (ap (λ t. "%" ∷ t) (unescape-escape s)
            ∙ ap (λ d. d ∷ s) (Char-path "%" c (sym ((eqb_iff (code c) b'%').0 percent))))
    | inr plain ↦ rw (other, plain) (rw plain (ap (λ t. c ∷ t) (unescape-escape s)))
  ]
]

escape-free : (s : String) → has_code b'|' (escape s) ≡ false
escape-free [] = refl
escape-free (c ∷ s) = ground (arith, escape-free s)

abbrev fields : SourceDescriptor → List String
fields d =
    escape d.collection_slug
    ∷ escape d.dataset_slug
    ∷ escape d.file_slug
    ∷ escape d.version
    ∷ escape d.asset_key
    ∷ slug d.storage_location_slug
  where
    slug : Option String → List String
    slug none = []
    slug (some s) = escape s ∷ []

abbrev read_fields : List String → Option SourceDescriptor
read_fields (v ∷ a ∷ b ∷ c ∷ d ∷ e ∷ rest) = some (record {
  collection_slug = unescape a;
  dataset_slug = unescape b;
  file_slug = unescape c;
  version = unescape d;
  asset_key = unescape e;
  storage_location_slug = slug rest;
})
  where
    slug : List String → Option String
    slug [] = none
    slug (s ∷ ss) = some (unescape s)
read_fields _ = none

abbrev pub link_codec : Codec
link_codec = record {
  stringify = λ d. join "|" ("v" ∷ fields d);
  parse = λ text. read_fields (split b'|' text);
  encode_component = escape;
  decode_component = λ text. some (unescape text);
}

fields-free : (d : SourceDescriptor) → All (λ t. has_code b'|' t ≡ false) (fields d)
fields-free d =
    elim d.storage_location_slug
      as (λ o.
        All (λ t. has_code b'|' t ≡ false) (fields (record d { storage_location_slug = o }))) [
          | none ↦ (
            escape-free d.collection_slug,
            (
              escape-free d.dataset_slug,
              (escape-free d.file_slug, (escape-free d.version, (escape-free d.asset_key, tt))),
            ),
          )
          | some s ↦ (
            escape-free d.collection_slug,
            (
              escape-free d.dataset_slug,
              (
                escape-free d.file_slug,
                (escape-free d.version, (escape-free d.asset_key, (escape-free s, tt))),
              ),
            ),
          )
        ]

read_fields-fields : (d : SourceDescriptor) → read_fields ("v" ∷ fields d) ≡ some d
read_fields-fields d =
    elim d.storage_location_slug
      as (λ o.
        read_fields ("v" ∷ fields (record d { storage_location_slug = o }))
        ≡ some (record d { storage_location_slug = o })) [
          | none ↦
              rw
                (
                  unescape-escape d.collection_slug,
                  unescape-escape d.dataset_slug,
                  unescape-escape d.file_slug,
                  unescape-escape d.version,
                  unescape-escape d.asset_key,
                )
                refl
          | some s ↦
              rw
                (
                  unescape-escape d.collection_slug,
                  unescape-escape d.dataset_slug,
                  unescape-escape d.file_slug,
                  unescape-escape d.version,
                  unescape-escape d.asset_key,
                  unescape-escape s,
                )
                refl
        ]

escape_empty : (s : String) → escape s == "" ≡ s == ""
escape_empty [] = refl
escape_empty (c ∷ s) = ground (
  arith,
  cons_nonempty c s,
  cons_nonempty c (escape s),
  cons_nonempty "%" ("p" ∷ escape s),
  cons_nonempty "%" ("%" ∷ escape s),
)

pub link_codec-IsCodec : IsCodec link_codec
link_codec-IsCodec = record {
  parses =
      λ d h. ap read_fields (split-join "v" (fields d) refl (fields-free d)) ∙ read_fields-fields d;
  writes = λ d. join-nonempty "v" (fields d) refl;
  decodes = λ text. ap some (unescape-escape text);
  bars = escape-free;
  empty = escape_empty;
}
