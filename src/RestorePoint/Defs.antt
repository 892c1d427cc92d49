-- ===== src/RestorePoint/Defs.antt =====
-- restorepoint.go: read (Restore and Verify), VerifyOwnData, checkBaseLink and SectionSize; the
-- outcome of decrypt in decrypt_pipeline.go; ReadManifest of set.go.
use restore_safe.Base.{
  Bool, Bytes, Option, [], if◌then◌else◌, inl, inr, none, not, some, text_eq, true, ℕ, ◌%◌, ◌&&◌,
  ◌+◌, ◌==◌, ◌^◌, ◌||◌, ◌⊎◌,
}
use restore_safe.Archive.Tar.{TarStream, hex_encode}
use restore_safe.Container.KeySet.{SectionKeys}
use restore_safe.Cryptox.Platform.{Platform}
use restore_safe.Manifest.{Manifest, ManifestHeader}
use restore_safe.Manifest.Coding.{LineCodec, decode_manifest}
use restore_safe.Io.{Source}
use restore_safe.Container.Header.{Header, header_is_diff}
use restore_safe.Archive.Dest.{Dest, Volume}
use restore_safe.Archive.Restore.{
  Decision, RestoreError, Restorer, create_directories, decide_from_base, decide_own,
  expect_own_content_only, extract_section, finish, new_restorer,
}

-- What is used of a container.Set: SectionKeys of the master key, the pipe that the decrypted
-- manifest section is read from, broken where the decryption fails, and DecryptData into a pipe.
-- `decryption keys err` is for a consumer that answers `err`: whether DecryptData succeeds then,
-- and whether a write to the pipe has failed.
pub record SetReader : Type 0 where
  pub header : Header
  pub data_length : ℕ
  pub section_keys : Bytes → Option SectionKeys
  pub manifest_section : SectionKeys → Source
  pub data_stream : SectionKeys → TarStream
  pub decryption : SectionKeys → Option RestoreError → Bool × Bool

-- What parses a manifest: the JSON of its lines, and strings.ToLower.
pub record Parser : Type 0 where
  pub codec : LineCodec
  pub to_lower : Bytes → Bytes

pub data LinkError : Type 0 where
  base_not_full wrong_chain other_keys wrong_checksum : LinkError

pub data PointError : Type 0 where
  base_required no_keys no_manifest no_base_keys no_base_manifest decryption_failed : PointError
  bad_link : LinkError → PointError
  not_prepared not_extracted not_finished : RestoreError → PointError

-- checkBaseLink
unfoldable pub check_base_link : Header → Header → Bytes → Option LinkError
check_base_link diff base base_sum =
    if header_is_diff base
    then some base_not_full
    else if not (text_eq base.chain_id diff.chain_id)
        || not (text_eq base.directory_name diff.directory_name)
        || not (text_eq base.date diff.base_date)
    then some wrong_chain
    else if not (text_eq base.key_set.id diff.key_set.id)
    then some other_keys
    else if not (text_eq base_sum diff.base_manifest_sha256)
    then some wrong_checksum
    else none

-- The end of decrypt: the consumer's error counts if decryption succeeded or failed in a write.
unfoldable pub pipe_outcome : Option RestoreError → Bool × Bool → Option PointError
pipe_outcome none (decrypted, pipe_broken) = if decrypted then none else some decryption_failed
pipe_outcome (some e) (decrypted, pipe_broken) =
    if decrypted || pipe_broken then some (not_extracted e) else some decryption_failed

-- Whether a manifest belongs to the header of its set.
unfoldable pub matches_header : ManifestHeader → Header → Bool
matches_header mh h =
    text_eq mh.set_type h.set_type
    && text_eq mh.chain_id h.chain_id
    && mh.diff_number == h.diff_number
    && text_eq mh.directory_name h.directory_name

-- ReadManifest: the manifest with the checksum of its text. What Decode accepts it has read to the end,
-- so that all of the text was hashed.
unfoldable pub read_manifest :
    Platform → Parser → SetReader → SectionKeys → Option (Manifest × Bytes)
unfolding matches_header
read_manifest platform parser set keys =
    let src = set.manifest_section keys in
    elim (decode_manifest parser.codec parser.to_lower src) [
      | inr e ↦ none
      | inl m ↦
          if matches_header m.header set.header
          then some (m, hex_encode (platform.sha256 src.content))
          else none
    ]

-- The keys and the manifest of a set.
unfoldable pub open_set :
    Platform
    → Parser
    → SetReader
    → Bytes
    → PointError
    → PointError
    → (SectionKeys × (Manifest × Bytes)) ⊎ PointError
unfolding read_manifest
open_set platform parser set master no_key no_list = elim (set.section_keys master) [
  | none ↦ inr no_key
  | some keys ↦ elim (read_manifest platform parser set keys) [
    | none ↦ inr no_list
    | some found ↦ inl (keys, found)
  ]
]

-- The base of a differential, with its keys, where the link is as the differential says.
unfoldable pub open_base :
    Platform → Parser → SetReader → SetReader → Bytes → SectionKeys ⊎ PointError
unfolding open_set check_base_link
open_base platform parser set base master =
    elim (open_set platform parser base master no_base_keys no_base_manifest) [
      | inr e ↦ inr e
      | inl (keys, (m, sum)) ↦ elim (check_base_link set.header base.header sum) [
        | some e ↦ inr (bad_link e)
        | none ↦ inl keys
      ]
    ]

module _ (vol : Volume) (platform : Platform) where
  -- decrypt with ExtractSection as its consumer.
  unfoldable pub extract_from :
      SetReader
      → SectionKeys
      → (Bytes → Decision)
      → Restorer
      → Dest
      → (Restorer × Dest) × Option PointError
  unfolding pipe_outcome
  extract_from set keys decide r d =
      let (after, err) = extract_section vol platform r d (set.data_stream keys) decide in
      (after, pipe_outcome err (set.decryption keys err))

  -- read from the last section on.
  unfoldable pub read_own :
      SetReader → SectionKeys → Manifest → Restorer → Dest → Dest × (Manifest ⊎ PointError)
  unfolding extract_from
  read_own set keys m r d =
      let ((r', d'), err) = extract_from set keys (decide_own m) r d in
      let ((r'', d''), last) = finish vol r' d' in
      elim err [
        | some e ↦ (d', inr e)
        | none ↦ elim last [ some e ↦ (d'', inr (not_finished e)) | none ↦ (d'', inl m) ]
      ]

  -- read from the new Restorer on; `base` is that of a differential, with its keys.
  unfoldable pub read_sections :
      SetReader
      → SectionKeys
      → Manifest
      → Option (SetReader × SectionKeys)
      → Restorer
      → Dest
      → Dest × (Manifest ⊎ PointError)
  unfolding read_own
  read_sections set keys m base r d =
      let (d', err) = create_directories vol r d in
      elim err [
        | some e ↦ (d', inr (not_prepared e))
        | none ↦ elim base [
          | none ↦ read_own set keys m r d'
          | some (full, base_keys) ↦
              let ((r', d''), err') = extract_from full base_keys (decide_from_base m) r d' in
              elim err' [ some e ↦ (d'', inr e) | none ↦ read_own set keys m r' d'' ]
        ]
      ]

module _ (vol : Volume) (platform : Platform) (parser : Parser) where
  -- read
  unfoldable pub read_point :
      SetReader → Option SetReader → Bytes → Bytes → Bool → Dest → Dest × (Manifest ⊎ PointError)
  unfolding read_sections open_base
  read_point set base master dest_dir verify_only d =
      if header_is_diff set.header
      then elim base [
        | none ↦ (d, inr base_required)
        | some full ↦ elim (open_set platform parser set master no_keys no_manifest) [
          | inr e ↦ (d, inr e)
          | inl (keys, (m, sum)) ↦ elim (open_base platform parser set full master) [
            | inr e ↦ (d, inr e)
            | inl base_keys ↦
                read_sections vol platform set keys m (some (full, base_keys))
                  (new_restorer m dest_dir verify_only) d
          ]
        ]
      ]
      else elim (open_set platform parser set master no_keys no_manifest) [
        | inr e ↦ (d, inr e)
        | inl (keys, (m, sum)) ↦
            read_sections vol platform set keys m none (new_restorer m dest_dir verify_only) d
      ]

  -- VerifyOwnData
  unfoldable pub verify_own_data : SetReader → Bytes → Dest → Dest × (Manifest ⊎ PointError)
  unfolding read_own open_set
  verify_own_data set master d = elim (open_set platform parser set master no_keys no_manifest) [
    | inr e ↦ (d, inr e)
    | inl (keys, (m, sum)) ↦
        read_own vol platform set keys m (expect_own_content_only (new_restorer m [] true)) d
  ]

-- SectionSize, on int64s.
unfoldable pub section_size : SetReader → Option SetReader → ℕ
section_size set none = set.data_length
section_size set (some base) = (set.data_length + base.data_length) % 2 ^ 64
