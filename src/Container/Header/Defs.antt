-- ===== src/Container/Header/Defs.antt =====
-- header.go: Header with Validate, Encode and ReadHeader.
use restore_safe.Io.{Source, got, read_full}
use restore_safe.Naming.{read_class, read_date}
use restore_safe.Naming.Validate.{NameError, validate_backup_entry_name}
use restore_safe.Cryptox.Platform.{Platform}
use restore_safe.Cryptox.Stream.{chunk_size}
use restore_safe.Container.KeySet.{KeySet}
use restore_safe.Container.KeySet.Validate.{KeySetError, validate}
use restore_safe.Base.{
  Bool, Bytes, Option, [], be32, codes, drop, false, from_be32, if◌then◌else◌, leb, length, ltb,
  none, not, some, take, text_eq, true, ℕ, ◌&&◌, ◌*◌, ◌++◌, ◌==◌, ◌||◌, ◌∷◌, ◌≡◌,
}

abbrev pub magic_prefix : Bytes
magic_prefix = codes "RSBKP" ++ 0 ∷ []

abbrev pub format_version : ℕ
format_version = 2

abbrev pub header_prefix_len : ℕ
header_prefix_len = 12

abbrev pub max_header_json : ℕ
max_header_json = 64 * 1024

abbrev pub set_nonce_len : ℕ
set_nonce_len = 32

abbrev pub compression_none : Bytes
compression_none = codes "none"

abbrev pub set_type_full : Bytes
set_type_full = codes "full"

abbrev pub set_type_diff : Bytes
set_type_diff = codes "diff"

-- `diff_number` is an int as the 64 bits it has, so a negative one is large.
pub record Header : Type 0 where
  pub set_type : Bytes
  pub chain_id : Bytes
  pub diff_number : ℕ
  pub run_id : Bytes
  pub set_nonce : Bytes
  pub directory_name : Bytes
  pub date : Bytes
  pub created_utc : Bytes
  pub app_version : Bytes
  pub base_date : Bytes
  pub base_manifest_sha256 : Bytes
  pub chunk_len : ℕ
  pub compression : Bytes
  pub key_set : KeySet

pub data HeaderError : Type 0 where
  differential_fields invalid_diff_number invalid_base_date invalid_base_hash unknown_set_type :
      HeaderError
  invalid_ids invalid_set_nonce invalid_date invalid_created unsupported_chunk_size : HeaderError
  unsupported_compression : HeaderError
  invalid_name : NameError → HeaderError
  invalid_key_set : KeySetError → HeaderError

-- Header.IsDiff
abbrev pub header_is_diff : Header → Bool
header_is_diff h = text_eq h.set_type set_type_diff

abbrev is_id_char : ℕ → Bool
is_id_char c = (leb b'A' c && leb c b'Z') || (leb b'0' c && leb c b'9')

-- idPattern.MatchString
unfoldable pub matches_id : Bytes → Bool
unfolding read_class
matches_id s = elim (read_class is_id_char 6 s) [ some (_, []) ↦ true | _ ↦ false ]

-- datePattern.MatchString
unfoldable pub matches_date : Bytes → Bool
unfolding read_date
matches_date s = elim (read_date s) [ some (_, []) ↦ true | _ ↦ false ]

-- The switch of Validate on the set's type.
unfoldable pub validate_type : Header → Option HeaderError
unfolding matches_date
validate_type h =
    if text_eq h.set_type set_type_full
    then (if not (h.diff_number == 0)
          || not (length h.base_date == 0)
          || not (length h.base_manifest_sha256 == 0)
        then some differential_fields
        else none)
    else if text_eq h.set_type set_type_diff
    then (if ltb h.diff_number 1 || ltb 999 h.diff_number
        then some invalid_diff_number
        else if not (matches_date h.base_date)
        then some invalid_base_date
        else if not (length h.base_manifest_sha256 == 64)
        then some invalid_base_hash
        else none)
    else some unknown_set_type

module _ (platform : Platform) where
  -- What Validate checks after the creation time.
  unfoldable pub validate_rest : Header → Option HeaderError
  validate_rest h =
      if not (h.chunk_len == chunk_size)
      then some unsupported_chunk_size
      else if not (text_eq h.compression compression_none)
      then some unsupported_compression
      else elim (validate platform h.key_set) [ some e ↦ some (invalid_key_set e) | none ↦ none ]

  -- What it checks after the directory's name.
  unfoldable pub validate_dates : Header → Option HeaderError
  unfolding validate_rest matches_date
  validate_dates h =
      if not (matches_date h.date)
      then some invalid_date
      else elim (platform.parse_time h.created_utc) [
        | none ↦ some invalid_created
        | some _ ↦ validate_rest h
      ]

  -- Validate
  unfoldable pub validate_header : Header → Option HeaderError
  unfolding validate_type validate_dates matches_id
  validate_header h = elim (validate_type h) [
    | some e ↦ some e
    | none ↦
        if not (matches_id h.chain_id) || not (matches_id h.run_id)
        then some invalid_ids
        else if not (length h.set_nonce == set_nonce_len)
        then some invalid_set_nonce
        else elim (validate_backup_entry_name h.directory_name) [
          | some e ↦ some (invalid_name e)
          | none ↦ validate_dates h
        ]
  ]

-- What json.Decoder makes of a text, with DisallowUnknownFields, and then More.
pub data Decoded : Type 0 where
  no_json trailing_data : Decoded
  decoded : Header → Decoded

-- encoding/json on the header: Marshal, and Decode followed by More. No text is no JSON.
pub record HeaderCodec : Type 0 where
  pub marshal : Header → Bytes
  pub unmarshal : Bytes → Decoded
  pub unmarshal-nil : unmarshal [] ≡ no_json

pub data Encoded : Type 0 where
  refused : HeaderError → Encoded
  too_large : Encoded
  encoded : Bytes → Encoded

pub data ReadHeaderError : Type 0 where
  unreadable not_a_backup reserved_byte invalid_json more_json : ReadHeaderError
  -- Version 1 or below, and above 2.
  old_version new_version : ℕ → ReadHeaderError
  invalid_length : ℕ → ReadHeaderError
  invalid_header : HeaderError → ReadHeaderError

pub data HeaderRead : Type 0 where
  ok : Header → Bytes → Source → HeaderRead
  err : ReadHeaderError → HeaderRead

-- `prefix[i]`, of the one byte that stands there.
unfoldable pub from_be8 : Bytes → ℕ
from_be8 (b ∷ _) = b
from_be8 [] = 0

-- The bytes in front of the JSON.
unfoldable pub header_prefix : ℕ → Bytes
header_prefix n = magic_prefix ++ format_version ∷ 0 ∷ be32 n

module _ (platform : Platform) (codec : HeaderCodec) where
  -- Encode
  unfoldable pub encode_header : Header → Encoded
  unfolding header_prefix
  encode_header h =
      let body = codec.marshal h in
      elim (validate_header platform h) [
        | some e ↦ refused e
        | none ↦
            if ltb max_header_json (length body)
            then too_large
            else encoded (header_prefix (length body) ++ body)
      ]

  -- The end of ReadHeader, from the JSON.
  unfoldable pub accept_body : Bytes → Bytes → Source → HeaderRead
  accept_body prefix body rest = elim (codec.unmarshal body) [
    | no_json ↦ err invalid_json
    | trailing_data ↦ err more_json
    | decoded h ↦ elim (validate_header platform h) [
      | some e ↦ err (invalid_header e)
      | none ↦ ok h (prefix ++ body) rest
    ]
  ]

  -- Its middle, from the prefix that was read: the fields are at 6, 7 and 8.
  unfoldable pub read_body_of : Bytes → Source → HeaderRead
  unfolding accept_body
  read_body_of prefix src =
      let version = from_be8 (take 1 (drop 6 prefix)) in
      let json_len = from_be32 (drop 8 prefix) in
      if not (text_eq (take 6 prefix) magic_prefix)
      then err not_a_backup
      else if ltb version format_version
      then err (old_version version)
      else if ltb format_version version
      then err (new_version version)
      else if not (from_be8 (take 1 (drop 7 prefix)) == 0)
      then err reserved_byte
      else if json_len == 0 || ltb max_header_json json_len
      then err (invalid_length json_len)
      else elim (read_full json_len src) [
        | got body rest ↦ accept_body prefix body rest
        | _ ↦ err unreadable
      ]

  -- ReadHeader
  unfoldable pub read_header : Source → HeaderRead
  unfolding read_body_of
  read_header src = elim (read_full header_prefix_len src) [
    | got prefix rest ↦ read_body_of prefix rest
    | _ ↦ err unreadable
  ]
