-- ===== src/Site/QueryApi/Body.antt =====
-- How much of a request is read.
use hifld_next.Common.{
  ℕ, ◌+◌, ◌≤◌, String, not, ◌&&◌, ltb, leb, if◌then◌else◌, List, [], ◌∷◌, ◌++◌, append_assoc,
  append-nil, Option, none, some, Bool-cases, inl, inr, ◌≡◌, refl, ap, ◌∙◌, arith,
}
use native.Mathlib.Nat.{add_assoc, zero-add}
use hifld_next.Js.{Js}
use hifld_next.Site.QueryApi.{stream, read_chunks, is_too_long, read_bounded_request_body}

abbrev pub total_of : {C : Type 0} → (C → ℕ) → List C → ℕ
total_of byte_length [] = 0
total_of byte_length (chunk ∷ chunks) = byte_length chunk + total_of byte_length chunks

module _ {C : Type 0} (byte_length : C → ℕ) (utf8_length : String → ℕ)
    (decode : List C → String) where
  read_chunks_all :
      (max_bytes : ℕ) (chunks : List C) (total : ℕ) (rest : List C)
      → total ≤ max_bytes
      → let read = read_chunks byte_length utf8_length decode max_bytes chunks total rest in
        (read.body ≡ (
          if leb (total + total_of byte_length rest) max_bytes
          then some (decode (chunks ++ rest))
          else none))
        × (read.cancelled ≡ ltb max_bytes (total + total_of byte_length rest))
  unfolding read_chunks
  read_chunks_all max_bytes chunks total [] h = (ground (arith, append-nil chunks), ground arith)
  read_chunks_all max_bytes chunks total (chunk ∷ rest) h =
      elim (Bool-cases (ltb max_bytes (total + byte_length chunk))) [
        | inl over ↦ (ground (arith, over), ground (arith, over))
        | inr fits ↦
            let (body, cancelled) =
              read_chunks_all max_bytes (chunks ++ chunk ∷ []) (total + byte_length chunk) rest
                (ground arith) in
            rw fits (
              body
                  ∙ ap
                      (λ n.
                        if leb n max_bytes
                        then some (decode ((chunks ++ chunk ∷ []) ++ rest))
                        else none)
                      (add_assoc total (byte_length chunk) (total_of byte_length rest))
                  ∙ ap
                      (λ l.
                        if leb (total + total_of byte_length (chunk ∷ rest)) max_bytes
                        then some (decode l)
                        else none)
                      (append_assoc chunks (chunk ∷ []) rest),
              cancelled
                  ∙ ap (ltb max_bytes)
                      (add_assoc total (byte_length chunk) (total_of byte_length rest)),
            )
      ]

  -- A streamed body is returned, with all its chunks, just when its announced length, if any,
  -- passes and its bytes are within the limit; and the stream is cancelled just when it was begun
  -- and its bytes exceed the limit.
  pub read_bounded_request_body_stream :
      (js : Js) (max_bytes : ℕ) (content_length : Option String) (chunks : List C)
      → let read =
          read_bounded_request_body byte_length utf8_length decode js max_bytes content_length
            (stream chunks) in
        (read.body ≡ (
          if is_too_long js max_bytes content_length
          then none
          else if leb (total_of byte_length chunks) max_bytes
          then some (decode chunks)
          else none))
        × (read.cancelled
            ≡ not (is_too_long js max_bytes content_length)
              && ltb max_bytes (total_of byte_length chunks))
  unfolding read_bounded_request_body
  read_bounded_request_body_stream js max_bytes content_length chunks =
      elim (Bool-cases (is_too_long js max_bytes content_length)) [
        | inl long ↦ rw long (refl, refl)
        | inr fine ↦ rw fine (
            rw (zero-add (total_of byte_length chunks)) at
              (read_chunks_all max_bytes [] 0 chunks (omega arith)))
      ]
