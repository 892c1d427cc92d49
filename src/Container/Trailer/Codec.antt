-- ===== src/Container/Trailer/Codec.antt =====
-- trailer.go: Encode and DecodeTrailer.
use restore_safe.Base.{
  Bytes, ap, arith, be32, be64, drop, from_be32, from_be32-be32, from_be64, from_be64-be64, length,
  length-take, refl, sym, take, text_eq, text_eq_iff, true, ◌++◌, ◌+◌, ◌<◌, ◌^◌, ◌∙◌, ◌≡◌,
}
use restore_safe.Container.Trailer.Defs.{
  Trailer, decode, encode, trailer, trailer_body, trailer_len, trailer_magic,
}
use restore_safe.Container.Trailer.Check.{IsWord}

module _ (sha256 : Bytes → Bytes) (length-sha256 : (b : Bytes) → length (sha256 b) ≡ 32) where
  checksum-length : (b : Bytes) → length (take 16 (sha256 b)) ≡ 16
  checksum-length b = omega (arith, length-take 16 (sha256 b), length-sha256 b)

  -- Where the fields stand in front of any tail.
  fields :
      (t : Trailer) (rest : Bytes)
      → let b = trailer_body sha256 t ++ rest in
        (take 8 b ≡ trailer_magic)
        × (take 48 b ≡ trailer_body sha256 t)
        × (drop 48 b ≡ rest)
        × (take 4 (drop 44 b) ≡ be32 0)
        × (take 8 (drop 8 b) ≡ be64 t.data_offset)
        × (take 8 (drop 16 b) ≡ be64 t.data_length)
        × (take 8 (drop 24 b) ≡ be64 t.manifest_offset)
        × (take 8 (drop 32 b) ≡ be64 t.manifest_length)
        × (take 4 (drop 40 b) ≡ be32 t.part_count)
        × (length b ≡ 48 + length rest)
  unfolding trailer_body be64 be32
  fields t rest = (refl, refl, refl, refl, refl, refl, refl, refl, refl, omega arith)

  pub length-encode : (t : Trailer) → length (encode sha256 t) ≡ trailer_len
  unfolding encode
  length-encode t =
      let body = trailer_body sha256 t in
      omega (arith, (fields t (take 16 (sha256 body))).9, checksum-length body)

  text_eq_self : (a b : Bytes) → a ≡ b → text_eq a b ≡ true
  text_eq_self a b e = (text_eq_iff a b).1 e

  decode-fields :
      (t : Trailer) (b : Bytes)
      → IsWord t
      → t.part_count < 2 ^ 32
      → length b ≡ trailer_len
      → take 8 b ≡ trailer_magic
      → take 48 b ≡ trailer_body sha256 t
      → drop 48 b ≡ take 16 (sha256 (trailer_body sha256 t))
      → take 4 (drop 44 b) ≡ be32 0
      → take 8 (drop 8 b) ≡ be64 t.data_offset
      → take 8 (drop 16 b) ≡ be64 t.data_length
      → take 8 (drop 24 b) ≡ be64 t.manifest_offset
      → take 8 (drop 32 b) ≡ be64 t.manifest_length
      → take 4 (drop 40 b) ≡ be32 t.part_count
      → decode sha256 b ≡ trailer t
  unfolding decode
  decode-fields t b w n size magic front sum reserved f1 f2 f3 f4 f5 =
      let ok_sum : text_eq (take 16 (sha256 (take 48 b))) (drop 48 b) ≡ true =
        text_eq_self _ _ (ap (λ x. take 16 (sha256 x)) front ∙ sym sum) in
      let zero_word : from_be32 (take 4 (drop 44 b)) ≡ 0 =
        ap from_be32 reserved ∙ from_be32-be32 0 (omega arith) in
      rw (size, text_eq_self _ _ magic, ok_sum, zero_word)
        (cc (
          ap from_be64 f1 ∙ from_be64-be64 _ w.data_offset_fits,
          ap from_be64 f2 ∙ from_be64-be64 _ w.data_length_fits,
          ap from_be64 f3 ∙ from_be64-be64 _ w.manifest_offset_fits,
          ap from_be64 f4 ∙ from_be64-be64 _ w.manifest_length_fits,
          ap from_be32 f5 ∙ from_be32-be32 _ n,
        ))

  -- What a set's last 64 bytes are decoded to is what was encoded, for fields that are int64 bit
  -- patterns and a part count that is a uint32, whatever hash of 32 bytes is used.
  pub decode-encode :
      (t : Trailer)
      → IsWord t
      → t.part_count < 2 ^ 32
      → (length (encode sha256 t) ≡ trailer_len) × (decode sha256 (encode sha256 t) ≡ trailer t)
  unfolding encode
  decode-encode t w n =
      let body = trailer_body sha256 t in
      let (magic, front, sum, reserved, f1, f2, f3, f4, f5, size) =
        fields t (take 16 (sha256 body)) in
      (
        length-encode t,
        decode-fields t (encode sha256 t) w n (length-encode t) magic front sum reserved f1 f2 f3 f4
            f5,
      )
