-- ===== src/Dataset/Descriptors/RoundTrip.antt =====
-- What a link says of its sources is read back from it.
use Prim.Native.Char.{Char}
use Prim.Native.String
use Prim.Native.String.{[], ◌∷◌}
use text.Mathlib.TextLemmas.{nil-append, cons-append, append-nil, cons≢nil}
use hifld_next.Common.{
  ℕ, String, false, ◌==◌, eq_iff, List, [], ◌∷◌, map, filter_map, join, All, some, ◌≡◌, refl, ap,
  ◌∙◌, arith, Bool-cases, inl, inr,
}
use hifld_next.Js.Patterns.{has_code}
use hifld_next.Layers.{SourceDescriptor}
use hifld_next.Js.Paths.{split}
use hifld_next.Dataset.Descriptors.{
  Codec, encode_source_descriptor, decode_source_descriptor, encode_source_descriptor_list,
  decode_source_descriptor_list,
}

-- What the schema asks of a descriptor: no field that is given is empty.
pub record IsDescriptor (d : SourceDescriptor) : Type 0 where
  pub collection_slug : d.collection_slug == "" ≡ false
  pub dataset_slug : d.dataset_slug == "" ≡ false
  pub file_slug : d.file_slug == "" ≡ false
  pub version : d.version == "" ≡ false
  pub asset_key : d.asset_key == "" ≡ false
  pub storage_location_slug :
      (slug : String) → d.storage_location_slug ≡ some slug → slug == "" ≡ false

-- What the language and the schema promise: a descriptor is parsed back from its JSON text, which is
-- not empty; a component is decoded to what was encoded; and an encoded one has no bar, and is empty
-- only where the text is.
pub record IsCodec (codec : Codec) : Type 0 where
  pub parses : (d : SourceDescriptor) → IsDescriptor d → codec.parse (codec.stringify d) ≡ some d
  pub writes : (d : SourceDescriptor) → codec.stringify d == "" ≡ false
  pub decodes : (text : String) → codec.decode_component (codec.encode_component text) ≡ some text
  pub bars : (text : String) → has_code b'|' (codec.encode_component text) ≡ false
  pub empty : (text : String) → codec.encode_component text == "" ≡ text == ""

split-free : (mark : ℕ) (s : String) → has_code mark s ≡ false → split mark s ≡ s ∷ []
unfolding split
split-free mark [] h = refl
split-free mark (c ∷ s) h = ground (arith, split-free mark s)

split-append :
    (s t : String)
    → has_code b'|' s ≡ false
    → split b'|' (String.◌++◌ s (String.◌++◌ "|" t)) ≡ s ∷ split b'|' t
unfolding split
split-append [] t h = rw (nil-append (String.◌++◌ "|" t), cons-append "|" "" t, nil-append t) refl
split-append (c ∷ s) t h =
    rw (cons-append c s (String.◌++◌ "|" t)) (ground (arith, split-append s t))

pub split-join :
    (s : String) (ss : List String)
    → has_code b'|' s ≡ false
    → All (λ t. has_code b'|' t ≡ false) ss
    → split b'|' (join "|" (s ∷ ss)) ≡ s ∷ ss
split-join s [] h k = split-free b'|' s h
split-join s (t ∷ ss) h (e, k) =
    rw (append-nil (join "|" (t ∷ ss)))
      (split-append s (join "|" (t ∷ ss)) h ∙ ap (λ ws. s ∷ ws) (split-join t ss e k))

pub cons_nonempty : (c : Char) (s : String) → (c ∷ s) == "" ≡ false
cons_nonempty c s = elim (Bool-cases ((c ∷ s) == "")) [
  | inl empty ↦ absurd (cons≢nil ((eq_iff (c ∷ s) "").0 empty))
  | inr full ↦ full
]

pub join-nonempty :
    (s : String) (ss : List String) → s == "" ≡ false → join "|" (s ∷ ss) == "" ≡ false
join-nonempty s [] h = h
join-nonempty [] (t ∷ ss) h = cc
join-nonempty (c ∷ s) (t ∷ ss) h =
    rw (cons-append c s (String.◌++◌ "|" (String.◌++◌ (join "|" (t ∷ ss)) "")))
      (cons_nonempty c (String.◌++◌ s (String.◌++◌ "|" (String.◌++◌ (join "|" (t ∷ ss)) ""))))

module _ (codec : Codec) (laws : IsCodec codec) where
  encoded_nonempty : (d : SourceDescriptor) → encode_source_descriptor codec d == "" ≡ false
  unfolding encode_source_descriptor
  encoded_nonempty d = laws.empty (codec.stringify d) ∙ laws.writes d

  -- x
  pub decode_source_descriptor-encode_source_descriptor :
      (d : SourceDescriptor)
      → IsDescriptor d
      → decode_source_descriptor codec (some (encode_source_descriptor codec d)) ≡ some d
  unfolding decode_source_descriptor encode_source_descriptor
  decode_source_descriptor-encode_source_descriptor d h =
      ground (arith, encoded_nonempty d, laws.decodes (codec.stringify d), laws.parses d h)

  encoded_free :
      (ds : List SourceDescriptor)
      → All (λ t. has_code b'|' t ≡ false) (map (encode_source_descriptor codec) ds)
  unfolding encode_source_descriptor
  encoded_free [] = tt
  encoded_free (d ∷ ds) = (laws.bars (codec.stringify d), encoded_free ds)

  decoded :
      (ds : List SourceDescriptor)
      → All IsDescriptor ds
      → filter_map
          (λ entry. decode_source_descriptor codec (some entry))
          (map (encode_source_descriptor codec) ds)
        ≡ ds
  decoded [] h = refl
  decoded (d ∷ ds) (p, h) =
      rw (decode_source_descriptor-encode_source_descriptor d p, decoded ds h) refl

  -- Where the codec keeps what the language and the schema promise: a list of descriptors without
  -- empty fields is read back from the text of its link, each descriptor and in order; an empty
  -- list is read back from no text.
  pub decode_source_descriptor_list_inverts :
      (ds : List SourceDescriptor)
      → All IsDescriptor ds
      → decode_source_descriptor_list codec (encode_source_descriptor_list codec ds) ≡ ds
  unfolding decode_source_descriptor_list encode_source_descriptor_list
  decode_source_descriptor_list_inverts [] h = refl
  decode_source_descriptor_list_inverts (d ∷ ds) h =
      let first = encode_source_descriptor codec d in
      let others = map (encode_source_descriptor codec) ds in
      let (bar, bars) = encoded_free (d ∷ ds) in
      rw (join-nonempty first others (encoded_nonempty d), split-join first others bar bars)
        (decoded (d ∷ ds) h)
