-- ===== src/Container/Trailer/Defs.antt =====
-- trailer.go: Trailer with Encode, DecodeTrailer and check. The 64-bit fields are the bit patterns of
-- int64 values, so that uint64(x) and int64(x) are the identity; sums wrap, and `less_int64` compares
-- with the sign.
use restore_safe.Base.{
  Bool, Bytes, Option, [], be32, be64, drop, from_be32, from_be64, if◌then◌else◌, length, ltb, none,
  not, some, take, text_eq, ℕ, ◌%◌, ◌++◌, ◌+◌, ◌==◌, ◌^◌, ◌||◌, ◌∷◌,
}

abbrev pub int64_mod : ℕ
int64_mod = 2 ^ 64

-- `a + b` and `a < b` on int64.
abbrev pub add_int64 : ℕ → ℕ → ℕ
add_int64 a b = (a + b) % 2 ^ 64

abbrev pub less_int64 : ℕ → ℕ → Bool
less_int64 a b = ltb ((a + 2 ^ 63) % 2 ^ 64) ((b + 2 ^ 63) % 2 ^ 64)

abbrev pub trailer_len : ℕ
trailer_len = 64

-- "RSTRL\x00\x02\x00"
abbrev pub trailer_magic : Bytes
trailer_magic = b'R' ∷ b'S' ∷ b'T' ∷ b'R' ∷ b'L' ∷ 0 ∷ 2 ∷ 0 ∷ []

abbrev pub min_section_len : ℕ
min_section_len = 21

pub record Trailer : Type 0 where
  pub data_offset : ℕ
  pub data_length : ℕ
  pub manifest_offset : ℕ
  pub manifest_length : ℕ
  pub part_count : ℕ

-- The reasons of ErrIncomplete.
pub data Incomplete : Type 0 where
  no_part_files file_too_short wrong_length not_found checksum_mismatch reserved_not_zero :
      Incomplete
  data_not_after_header section_too_short not_adjacent size_mismatch part_count_mismatch :
      Incomplete

pub data Decoded : Type 0 where
  trailer : Trailer → Decoded
  incomplete : Incomplete → Decoded

module _ (sha256 : Bytes → Bytes) where
  -- The fields as they are written, without the checksum.
  unfoldable pub trailer_body : Trailer → Bytes
  trailer_body t =
      trailer_magic
      ++ (be64 t.data_offset
          ++ (be64 t.data_length
              ++ (be64 t.manifest_offset
                  ++ (be64 t.manifest_length ++ (be32 t.part_count ++ be32 0)))))

  unfoldable pub encode : Trailer → Bytes
  encode t = let buf = trailer_body t in buf ++ take 16 (sha256 buf)

  unfoldable pub decode : Bytes → Decoded
  decode b =
      if not (length b == trailer_len)
      then incomplete wrong_length
      else if not (text_eq (take 8 b) trailer_magic)
      then incomplete not_found
      else if not (text_eq (take 16 (sha256 (take 48 b))) (drop 48 b))
      then incomplete checksum_mismatch
      else if not (from_be32 (take 4 (drop 44 b)) == 0)
      then incomplete reserved_not_zero
      else trailer (record {
        data_offset = from_be64 (take 8 (drop 8 b));
        data_length = from_be64 (take 8 (drop 16 b));
        manifest_offset = from_be64 (take 8 (drop 24 b));
        manifest_length = from_be64 (take 8 (drop 32 b));
        part_count = from_be32 (take 4 (drop 40 b));
      })

-- The checks against the header's length, the size of all parts and their number.
unfoldable pub check : Trailer → ℕ → ℕ → ℕ → Option Incomplete
check t header_len total_size parts_present =
    if not (t.data_offset == header_len)
    then some data_not_after_header
    else if less_int64 t.data_length min_section_len || less_int64 t.manifest_length min_section_len
    then some section_too_short
    else if not (t.manifest_offset == add_int64 t.data_offset t.data_length)
    then some not_adjacent
    else if not
        (add_int64 (add_int64 t.manifest_offset t.manifest_length) trailer_len == total_size)
    then some size_mismatch
    else if not (t.part_count == parts_present)
    then some part_count_mismatch
    else none
