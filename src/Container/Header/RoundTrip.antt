-- ===== src/Container/Header/RoundTrip.antt =====
-- header.go: Encode and ReadHeader.
use restore_safe.Io.{Source, got, length-nil, read_full, read_full-append, whole}
use restore_safe.Container.Header.Defs.{
  Header, HeaderCodec, accept_body, decoded, encode_header, encoded, from_be8, header_prefix,
  header_prefix_len, max_header_json, no_json, ok, read_body_of, read_header, validate_header,
}
use restore_safe.Cryptox.Platform.{Platform}
use restore_safe.Base.{
  Bool-cases, Bytes, Option-cases, [], ap, append_assoc, arith, be32, false, from_be32,
  from_be32-be32, inl, inr, length, ltb, none, refl, sym, text_eq, ℕ, ◌++◌, ◌<◌, ◌==◌, ◌∙◌, ◌≡◌,
  ◌≢◌, ◌≤◌,
}

module _ (platform : Platform) (codec : HeaderCodec) where
  accept_body_lem :
      (prefix : Bytes) (h : Header) (rest : Source)
      → codec.unmarshal (codec.marshal h) ≡ decoded h
      → validate_header platform h ≡ none
      → accept_body platform codec prefix (codec.marshal h) rest
        ≡ ok h (prefix ++ codec.marshal h) rest
  unfolding accept_body
  accept_body_lem prefix h rest u v = rw (u, v, accept_body) refl

  decoded≢no_json : (h : Header) → decoded h ≢ no_json
  decoded≢no_json h e = cc e

  length-marshal :
      (h : Header) → codec.unmarshal (codec.marshal h) ≡ decoded h → 0 < length (codec.marshal h)
  length-marshal h u = elim (Bool-cases (length (codec.marshal h) == 0)) [
    | inl e ↦
        (let e' : codec.marshal h ≡ [] = length-nil (codec.marshal h) (ground arith) in
          absurd (decoded≢no_json h (sym u ∙ ap codec.unmarshal e' ∙ codec.unmarshal-nil)))
    | inr e ↦ ground arith
  ]

  read_body_of-header_prefix :
      (h : Header) (rest : Bytes)
      → codec.unmarshal (codec.marshal h) ≡ decoded h
      → validate_header platform h ≡ none
      → length (codec.marshal h) ≤ max_header_json
      → read_body_of platform codec
          (header_prefix (length (codec.marshal h)))
          (whole (codec.marshal h ++ rest))
        ≡ ok h (header_prefix (length (codec.marshal h)) ++ codec.marshal h) (whole rest)
  unfolding read_body_of header_prefix from_be8 text_eq
  read_body_of-header_prefix h rest u v l =
      let n = length (codec.marshal h) in
      let pos = length-marshal h u in
      let small : from_be32 (be32 n) ≡ n = from_be32-be32 n (ground arith) in
      let e0 : (n == 0) ≡ false = ground arith in
      let e1 : ltb max_header_json n ≡ false = ground arith in
      rw
        (
          small,
          e0,
          e1,
          read_full-append (codec.marshal h) rest,
          accept_body_lem (header_prefix n) h (whole rest) u v,
        )
        refl

  length-header_prefix : (n : ℕ) → length (header_prefix n) ≡ header_prefix_len
  unfolding header_prefix be32
  length-header_prefix n = refl

  encode_header-encoded :
      (h : Header) (raw : Bytes)
      → encode_header platform codec h ≡ encoded raw
      → (validate_header platform h ≡ none)
        × (length (codec.marshal h) ≤ max_header_json)
        × (raw ≡ header_prefix (length (codec.marshal h)) ++ codec.marshal h)
  unfolding encode_header
  encode_header-encoded h raw e = elim (Option-cases (validate_header platform h)) [
    | inl v ↦ ground arith
    | inr (x, v) ↦ ground arith
  ]

  -- Where Encode accepts a header whose JSON decodes to it, ReadHeader of what Encode wrote, with
  -- anything behind it, gives the header, the bytes it was written as, and the reader behind them.
  pub read_header-encode_header :
      (h : Header) (raw rest : Bytes)
      → codec.unmarshal (codec.marshal h) ≡ decoded h
      → encode_header platform codec h ≡ encoded raw
      → read_header platform codec (whole (raw ++ rest)) ≡ ok h raw (whole rest)
  unfolding read_header
  read_header-encode_header h raw rest u e =
      let (v, l, q) = encode_header-encoded h raw e in
      let p = header_prefix (length (codec.marshal h)) in
      let body = codec.marshal h in
      let split : raw ++ rest ≡ p ++ (body ++ rest) =
        ap (λ x. x ++ rest) q ∙ append_assoc p body rest in
      let front : read_full header_prefix_len (whole (p ++ (body ++ rest)))
          ≡ got p (whole (body ++ rest)) =
        ap (λ k. read_full k (whole (p ++ (body ++ rest))))
          (sym (length-header_prefix (length body)))
        ∙ read_full-append p (body ++ rest) in
      rw (split, read_header, front)
        (read_body_of-header_prefix h rest u v l ∙ ap (λ x. ok h x (whole rest)) (sym q))
