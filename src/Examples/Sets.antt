-- ===== src/Examples/Sets.antt =====
-- A whole set, written and read.
use restore_safe.Base.{
  Bytes, be32, be64, codes, leb, leb→le, length, ltb, ltb→lt, none, refl, text_eq, true, ◌++◌, ◌+◌,
  ◌-◌, ◌^◌, ◌≡◌,
}
use restore_safe.Io.{whole}
use restore_safe.Cryptox.Key.{KeyResult}
use restore_safe.Cryptox.Stream.{Sink, encrypt_stream}
use restore_safe.Container.Trailer.{Trailer, encode}
use restore_safe.Container.KeySet.{SectionKeys, derive_section_keys}
use restore_safe.Container.Header.{header_prefix}
use restore_safe.Container.Set.{
  Structure, Written, decrypt_data, decrypt_manifest, div_int64, found, part_count, read_structure,
  section_aad, trailer_of, write_set, written,
}
use restore_safe.Container.Set.Parts.{parts_needed}
use restore_safe.Container.Set.RoundTrip.{read_structure-write_set}
use restore_safe.Examples.Platforms.{first_bytes, plain_cipher, plain_platform, zeros32}
use restore_safe.Examples.Files.{encode-header1, header1, one_header}

abbrev raw : Bytes
raw = header_prefix 2 ++ codes "{}"

abbrev keys : SectionKeys
keys = record {
  data_key = first_bytes (codes "RestoreSafe v2 data");
  manifest_key = first_bytes (codes "RestoreSafe v2 manifest");
}

abbrev payload : Bytes
payload = codes "tar"

abbrev listing : Bytes
listing = codes "list"

abbrev data_sink : Sink
data_sink =
    encrypt_stream plain_cipher keys.data_key (section_aad (first_bytes raw) 1) (whole payload)

abbrev manifest_sink : Sink
manifest_sink =
    encrypt_stream plain_cipher keys.manifest_key (section_aad (first_bytes raw) 2) (whole listing)

abbrev located : Trailer
located = trailer_of (length raw) (length data_sink.written) (length manifest_sink.written) 50

abbrev set1 : Written
set1 = record {
  content = raw ++ (data_sink.written ++ (manifest_sink.written ++ encode first_bytes located));
  recorded = located;
  manifest_sum = first_bytes listing;
}

derive-keys :
    derive_section_keys plain_platform plain_cipher zeros32 (first_bytes raw) ≡ KeyResult.ok keys
unfolding derive_section_keys restore_safe.Cryptox.Key.derive_subkey
derive-keys = refl

write-set1 :
    write_set plain_platform plain_cipher one_header header1 zeros32 50
      (whole payload)
      (whole listing)
    ≡ written set1
unfolding write_set restore_safe.Container.Header.encode_header
    restore_safe.Container.Header.validate_header restore_safe.Base.text_eq
    restore_safe.Naming.Validate.validate_backup_entry_name
    restore_safe.Container.KeySet.Validate.validate restore_safe.Text.all_bytes
    restore_safe.Container.KeySet.regular_slot_type restore_safe.Cryptox.Key.validate_argon2_params
    restore_safe.Container.KeySet.slot_aad derive_section_keys
    restore_safe.Cryptox.Key.derive_subkey encrypt_stream restore_safe.Io.read_full
write-set1 = refl

set1-small : ltb (length set1.content) (2 ^ 63) ≡ true
unfolding trailer_of header_prefix restore_safe.Base.be32 encrypt_stream restore_safe.Io.read_full
    restore_safe.Cryptox.Stream.encrypted_chunk restore_safe.Cryptox.Stream.nonce
    restore_safe.Base.be64 restore_safe.Cryptox.Stream.chunk_aad section_aad encode
    restore_safe.Container.Trailer.trailer_body
set1-small = refl

set1-sizes : leb (length set1.content + 50) (2 ^ 63) ≡ true
unfolding trailer_of header_prefix restore_safe.Base.be32 encrypt_stream restore_safe.Io.read_full
    restore_safe.Cryptox.Stream.encrypted_chunk restore_safe.Cryptox.Stream.nonce
    restore_safe.Base.be64 restore_safe.Cryptox.Stream.chunk_aad section_aad encode
    restore_safe.Container.Trailer.trailer_body
set1-sizes = refl

set1-parts : ltb (located.part_count) (2 ^ 32) ≡ true
unfolding trailer_of header_prefix be32 encrypt_stream restore_safe.Io.read_full
    restore_safe.Cryptox.Stream.encrypted_chunk restore_safe.Cryptox.Stream.nonce be64
    restore_safe.Cryptox.Stream.chunk_aad section_aad
set1-parts = refl

-- At a split size near 2 ^ 63 the sum wraps round, and the part that 1000 bytes take is not counted.
wrapped_part_count : part_count 1000 (2 ^ 63 - 1) ≡ 0
unfolding part_count div_int64
wrapped_part_count = refl

abbrev structure1 : Structure
structure1 = record { header = header1; header_hash = first_bytes raw; recorded = located }

read_structure-write_set_example :
    (read_structure plain_platform plain_cipher one_header set1.content (located.part_count)
      ≡ found structure1)
    × (decrypt_data plain_platform plain_cipher one_header set1.content structure1 keys
        ≡ record { written = payload; failure = none })
    × (decrypt_manifest plain_platform plain_cipher one_header set1.content structure1 keys
        ≡ record { written = listing; failure = none })
    × (located.part_count ≡ parts_needed (length set1.content) 50)
read_structure-write_set_example =
    read_structure-write_set plain_platform plain_cipher one_header header1 zeros32 50 payload
      listing raw keys set1 refl encode-header1 derive-keys write-set1
      (ltb→lt (length set1.content) (2 ^ 63) set1-small)
      (leb→le (length set1.content + 50) (2 ^ 63) set1-sizes)
      (ltb→lt located.part_count (2 ^ 32) set1-parts)
