-- ===== src/Manifest/Validate.antt =====
-- manifest.go: validateEntry and Manifest.Validate.
use restore_safe.Base.{
  Bool, Bytes, List, Option, [], codes, false, if◌then◌else◌, inl, inr, leb, length, ltb, none, not,
  some, text_eq, true, ℕ, ◌&&◌, ◌==◌, ◌^◌, ◌||◌, ◌∷◌, ◌⊎◌,
}
use restore_safe.Container.KeySet.Validate.{bool_eq}
use restore_safe.Text.{all_bytes}
use restore_safe.Manifest.Path.{PathError, dot, path_dir, validate_path}
use restore_safe.Manifest.Defs.{
  Entry, Footer, Manifest, ManifestHeader, compute_footer, hash_alg_sha256, is_some, is_type,
  origin_diff, origin_full, type_dir, type_file, type_skipped, version,
}

pub data EntryError : Type 0 where
  unknown_attributes directory_with_file_fields skipped_without_reason skipped_with_content :
      EntryError
  negative_size invalid_hash file_with_reason negative_offset no_content_in_full : EntryError
  full_with_offset diff_origin_in_full invalid_diff_content invalid_origin : EntryError
  invalid_stale invalid_void unknown_entry_type : EntryError

abbrev is_hex_digit : ℕ → Bool
is_hex_digit c = (leb b'0' c && leb c b'9') || (leb b'a' c && leb c b'f')

-- isValidHash
unfoldable pub is_valid_hash : Bytes → Bool
unfolding all_bytes
is_valid_hash h = length h == 64 && all_bytes is_hex_digit h

unfoldable pub negative_int64 : Option ℕ → Bool
negative_int64 none = false
negative_int64 (some n) = leb (2 ^ 63) n

-- The end of the file case: the markers.
unfoldable pub validate_markers : Entry → Bool → Option EntryError
validate_markers e is_diff =
    if e.stale && (not is_diff || not (text_eq e.origin origin_full))
    then some invalid_stale
    else if e.void && not e.stale
    then some invalid_void
    else none

-- The switch on the origin, and what follows.
unfoldable pub validate_origin : Entry → Bool → Option EntryError
unfolding is_some validate_markers
validate_origin e is_diff =
    if text_eq e.origin origin_full
    then (if not is_diff && (not (is_some e.offset) || e.void)
        then some no_content_in_full
        else if is_diff && is_some e.offset
        then some full_with_offset
        else validate_markers e is_diff)
    else if text_eq e.origin origin_diff
    then (if not is_diff
        then some diff_origin_in_full
        else if not (is_some e.offset) || e.void || e.stale
        then some invalid_diff_content
        else validate_markers e is_diff)
    else some invalid_origin

-- The file case.
unfoldable pub validate_file : Entry → Bool → Option EntryError
unfolding is_valid_hash negative_int64 validate_origin
validate_file e is_diff =
    if leb (2 ^ 63) e.size
    then some negative_size
    else if not (is_valid_hash e.hash)
    then some invalid_hash
    else if not (length e.reason == 0)
    then some file_with_reason
    else if negative_int64 e.offset
    then some negative_offset
    else validate_origin e is_diff

-- validateEntry: only the three lowest attribute bits are known.
unfoldable pub validate_entry : Entry → Bool → Option EntryError
unfolding validate_file
validate_entry e is_diff =
    let has_content =
      not (e.size == 0)
      || not (length e.hash == 0)
      || not (length e.origin == 0)
      || is_some e.offset
      || e.stale in
    if ltb 7 e.attributes
    then some unknown_attributes
    else if is_type type_dir e
    then (if has_content || e.void || not (length e.reason == 0)
        then some directory_with_file_fields
        else none)
    else if is_type type_skipped e
    then (if length e.reason == 0
        then some skipped_without_reason
        else if has_content
        then some skipped_with_content
        else none)
    else if is_type type_file e
    then validate_file e is_diff
    else some unknown_entry_type

pub data ManifestError : Type 0 where
  unsupported_version unsupported_hash_alg full_with_diff_number invalid_diff_number : ManifestError
  unknown_set_type missing_chain_or_name footer_mismatch : ManifestError
  duplicate_path case_collision no_parent : Bytes → ManifestError
  invalid_path : PathError → ManifestError
  invalid_entry : Bytes → EntryError → ManifestError

-- The switch of Validate on the set type: whether the set is a differential.
unfoldable pub set_type_of : ManifestHeader → Bool ⊎ ManifestError
set_type_of h =
    if text_eq h.set_type (codes "full")
    then (if not (h.diff_number == 0) then inr full_with_diff_number else inl false)
    else if text_eq h.set_type (codes "diff")
    then (if ltb h.diff_number 1 || ltb 999 h.diff_number
        then inr invalid_diff_number
        else inl true)
    else inr unknown_set_type

-- The path that was seen with a folded path.
unfoldable pub find_folded : Bytes → List (Bytes × Bytes) → Option Bytes
find_folded folded [] = none
find_folded folded ((key, path) ∷ seen) =
    let rest = find_folded folded seen in if text_eq key folded then some path else rest

unfoldable pub has_dir : Bytes → List Bytes → Bool
has_dir d [] = false
has_dir d (x ∷ xs) = text_eq x d || has_dir d xs

-- `==` of footers.
unfoldable pub footer_eq : Footer → Footer → Bool
footer_eq f g =
    bool_eq f.is_end g.is_end
    && f.entry_count == g.entry_count
    && f.file_count == g.file_count
    && f.dir_count == g.dir_count
    && f.skipped_count == g.skipped_count
    && f.stale_count == g.stale_count
    && f.total_bytes == g.total_bytes
    && f.data_bytes == g.data_bytes

module _ (to_lower : Bytes → Bytes) where
  -- What a round of the loop of Validate refuses an entry for.
  unfoldable pub check_entry :
      List (Bytes × Bytes) → List Bytes → Bool → Entry → Option ManifestError
  unfolding find_folded has_dir
  check_entry seen dirs is_diff e = elim (validate_path e.path) [
    | some x ↦ some (invalid_path x)
    | none ↦ elim (find_folded (to_lower e.path) seen) [
      | some other ↦
          if text_eq other e.path
          then some (duplicate_path e.path)
          else some (case_collision e.path)
      | none ↦
          if not (text_eq (path_dir e.path) dot) && not (has_dir (path_dir e.path) dirs)
          then some (no_parent e.path)
          else elim (validate_entry e is_diff) [
            | some x ↦ some (invalid_entry e.path x)
            | none ↦ none
          ]
    ]
  ]

  -- The loop of Validate, where strings.ToLower is `to_lower`.
  unfoldable pub check_entries :
      List (Bytes × Bytes) → List Bytes → Bool → List Entry → Option ManifestError
  unfolding check_entry
  check_entries seen dirs is_diff [] = none
  check_entries seen dirs is_diff (e ∷ es) = elim (check_entry seen dirs is_diff e) [
    | some x ↦ some x
    | none ↦
        check_entries ((to_lower e.path, e.path) ∷ seen)
          (if is_type type_dir e then e.path ∷ dirs else dirs) is_diff es
  ]

  -- Validate
  unfoldable pub validate_manifest : Manifest → Option ManifestError
  unfolding check_entries set_type_of footer_eq
  validate_manifest m =
      if not (m.header.manifest_version == version)
      then some unsupported_version
      else if not (text_eq m.header.hash_alg hash_alg_sha256)
      then some unsupported_hash_alg
      else elim (set_type_of m.header) [
        | inr x ↦ some x
        | inl is_diff ↦
            if length m.header.chain_id == 0 || length m.header.directory_name == 0
            then some missing_chain_or_name
            else elim (check_entries [] [] is_diff m.entries) [
              | some x ↦ some x
              | none ↦
                  if not (footer_eq m.footer (compute_footer m.entries))
                  then some footer_mismatch
                  else none
            ]
      ]
