-- ===== src/Container/Set/Defs.antt =====
-- set.go: Write, readStructure, SectionKeys and the decryption of the sections. The destination takes
-- every byte; the parts that are read are one text, as partsReader presents them.
use restore_safe.Base.{
  Bytes, [], drop, if◌then◌else◌, length, ltb, none, some, take, ℕ, ◌%◌, ◌++◌, ◌+◌, ◌-◌, ◌/◌, ◌^◌,
  ◌∷◌,
}
use restore_safe.Io.{Source, whole}
use restore_safe.Cryptox.Platform.{Platform}
use restore_safe.Cryptox.Gcm.{Aead}
use restore_safe.Cryptox.Key.{KeyResult}
use restore_safe.Cryptox.Stream.{Sink, StreamError, decrypt_stream, encrypt_stream}
use restore_safe.Container.Trailer.{
  Incomplete, Trailer, check, decode, encode, file_too_short, incomplete, trailer, trailer_len,
}
use restore_safe.Container.KeySet.{SectionKeys, derive_section_keys}
use restore_safe.Container.Header.{
  Header, HeaderCodec, HeaderError, HeaderRead, ReadHeaderError, encode_header, encoded,
  read_header, refused, too_large,
}

abbrev pub section_data : ℕ
section_data = 1

abbrev pub section_manifest : ℕ
section_manifest = 2

-- sectionAAD
unfoldable pub section_aad : Bytes → ℕ → Bytes
section_aad header_hash section = header_hash ++ section ∷ []

-- `a / b` on int64, for the bit pattern of `a` and a positive `b`: the quotient is cut towards 0.
unfoldable pub div_int64 : ℕ → ℕ → ℕ
div_int64 a b = if ltb a (2 ^ 63) then a / b else (2 ^ 64 - (2 ^ 64 - a) / b) % 2 ^ 64

-- The part count that Write records, on int64, for a stream of `total` bytes; a split size of 0 stands
-- for every `splitSize <= 0`.
unfoldable pub part_count : ℕ → ℕ → ℕ
unfolding div_int64
part_count total split_size =
    if ltb 0 split_size then div_int64 ((total + split_size - 1) % 2 ^ 64) split_size else 1

pub data WriteSetError : Type 0 where
  header_refused : HeaderError → WriteSetError
  header_too_large invalid_master : WriteSetError
  section_failed : StreamError → WriteSetError

-- What Write has put into its destination, with the trailer and the manifest's hash of WriteResult.
pub record Written : Type 0 where
  pub content : Bytes
  pub recorded : Trailer
  pub manifest_sum : Bytes

pub data WriteResult : Type 0 where
  written : Written → WriteResult
  failed : WriteSetError → WriteResult

-- What readStructure finds.
pub record Structure : Type 0 where
  pub header : Header
  pub header_hash : Bytes
  pub recorded : Trailer

pub data StructureRead : Type 0 where
  found : Structure → StructureRead
  bad_header : ReadHeaderError → StructureRead
  not_complete : Incomplete → StructureRead

-- The trailer of sections of these lengths.
unfoldable pub trailer_of : ℕ → ℕ → ℕ → ℕ → Trailer
unfolding part_count
trailer_of header_len data_len manifest_len split_size = record {
  data_offset = header_len;
  data_length = data_len;
  manifest_offset = header_len + data_len;
  manifest_length = manifest_len;
  part_count = part_count (header_len + data_len + manifest_len + trailer_len) split_size;
}

-- io.NewSectionReader.
unfoldable pub section : Bytes → ℕ → ℕ → Source
section content offset n = whole (take n (drop offset content))

module _ (platform : Platform) (cipher : Aead) (codec : HeaderCodec) where
  -- The end of Write, from the encrypted sections.
  unfoldable pub join_set : Bytes → Sink → Sink → Bytes → ℕ → WriteResult
  unfolding trailer_of
  join_set raw data_sink manifest_sink manifest_sum split_size =
      let t =
        trailer_of (length raw) (length data_sink.written) (length manifest_sink.written)
          split_size in
      elim data_sink.failure [
        | some e ↦ failed (section_failed e)
        | none ↦ elim manifest_sink.failure [
          | some e ↦ failed (section_failed e)
          | none ↦ written (record {
            content =
                raw ++ (data_sink.written ++ (manifest_sink.written ++ encode platform.sha256 t));
            recorded = t;
            manifest_sum = manifest_sum;
          })
        ]
      ]

  -- Write, from the header's bytes and the section keys. The manifest is what manifestFn writes.
  unfoldable pub write_sections : Bytes → SectionKeys → ℕ → Source → Source → WriteResult
  unfolding join_set section_aad
  write_sections raw keys split_size data_source manifest_source =
      let header_hash = platform.sha256 raw in
      join_set raw
        (encrypt_stream cipher keys.data_key (section_aad header_hash section_data) data_source)
        (encrypt_stream cipher keys.manifest_key (section_aad header_hash section_manifest)
          manifest_source)
        (platform.sha256 manifest_source.content) split_size

  -- Write
  unfoldable pub write_set : Header → Bytes → ℕ → Source → Source → WriteResult
  unfolding write_sections
  write_set h master split_size data_source manifest_source =
      elim (encode_header platform codec h) [
        | refused e ↦ failed (header_refused e)
        | too_large ↦ failed header_too_large
        | encoded raw ↦ elim (derive_section_keys platform cipher master (platform.sha256 raw)) [
          | KeyResult.err _ ↦ failed invalid_master
          | KeyResult.ok keys ↦ write_sections raw keys split_size data_source manifest_source
        ]
      ]

  -- readStructure, from the header on.
  unfoldable pub read_trailer : Header → Bytes → Bytes → ℕ → StructureRead
  read_trailer h raw content parts =
      if ltb (length content) (length raw + trailer_len)
      then not_complete file_too_short
      else elim (decode platform.sha256 (drop (length content - trailer_len) content)) [
        | incomplete e ↦ not_complete e
        | trailer t ↦ elim (check t (length raw) (length content) parts) [
          | some e ↦ not_complete e
          | none ↦ found (record { header = h; header_hash = platform.sha256 raw; recorded = t })
        ]
      ]

  -- readStructure
  unfoldable pub read_structure : Bytes → ℕ → StructureRead
  unfolding read_trailer
  read_structure content parts = elim (read_header platform codec (whole content)) [
    | HeaderRead.err e ↦ bad_header e
    | HeaderRead.ok h raw _ ↦ read_trailer h raw content parts
  ]

  -- DecryptData
  unfoldable pub decrypt_data : Bytes → Structure → SectionKeys → Sink
  unfolding section section_aad
  decrypt_data content s keys =
      decrypt_stream cipher keys.data_key (section_aad s.header_hash section_data)
        (section content s.recorded.data_offset s.recorded.data_length)

  -- The decryption of ReadManifest.
  unfoldable pub decrypt_manifest : Bytes → Structure → SectionKeys → Sink
  unfolding section section_aad
  decrypt_manifest content s keys =
      decrypt_stream cipher keys.manifest_key (section_aad s.header_hash section_manifest)
        (section content s.recorded.manifest_offset s.recorded.manifest_length)
