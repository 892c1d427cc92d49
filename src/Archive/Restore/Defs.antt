-- ===== src/Archive/Restore/Defs.antt =====
-- restore.go: Restorer with NewRestorer, targetPath, CreateDirectories, ExtractSection, extractFile
-- and Finish, DecideFromBase and DecideOwn, SkippedFiles and StaleFiles.
use restore_safe.Base.{
  Bool, Bytes, List, Option, [], false, filter, if◌then◌else◌, inl, inr, length, ltb, map, none,
  not, some, sort_by, take, text_eq, true, ℕ, ◌&&◌, ◌++◌, ◌+◌, ◌==◌, ◌||◌, ◌∷◌, ◌⊎◌,
}
use restore_safe.Manifest.Coding.{has_prefix}
use restore_safe.Archive.Tar.{TarEntry, TarStream, hex_encode}
use restore_safe.Cryptox.Platform.{Platform}
use restore_safe.Manifest.Path.{PathError, validate_path}
use restore_safe.Manifest.{
  Entry, Manifest, has_content_in_set, is_type, origin_full, type_dir, type_file, type_skipped,
}
use restore_safe.Archive.Dest.{Dest, Volume, has_path, is_taken, set_attributes, set_times}

pub data RestoreError : Type 0 where
  invalid_path : PathError → RestoreError
  path_traversal reparse_point mkdir_failed create_failed write_failed close_failed times_failed
        attributes_failed :
      Bytes → RestoreError
  tar_unreadable : RestoreError
  unexpected_entry_type skip_failed no_manifest_entry appears_twice size_mismatch content_unreadable
        checksum_mismatch not_in_manifest :
      Bytes → RestoreError
  files_missing : ℕ → Bytes → RestoreError

-- What a Decide function answers; `refuse` is an error.
pub data Decision : Type 0 where
  extract : Entry → Decision
  read_past refuse : Decision

-- Restorer; `done` holds the paths that the map has. The buffer has no state.
pub record Restorer : Type 0 where
  pub dest_dir : Bytes
  pub verify_only : Bool
  pub own_only : Bool
  pub target : Manifest
  pub done : List Bytes
  pub failures : List Bytes

-- NewRestorer
abbrev pub new_restorer : Manifest → Bytes → Bool → Restorer
new_restorer target dest_dir verify_only = record {
  dest_dir = dest_dir;
  verify_only = verify_only;
  own_only = false;
  target = target;
  done = [];
  failures = [];
}

-- ExpectOwnContentOnly
abbrev pub expect_own_content_only : Restorer → Restorer
expect_own_content_only r = record r { own_only = true }

-- The entry that a map from the paths to the entries has for a path: the last one wins.
unfoldable pub entry_at : Bytes → List Entry → Option Entry
entry_at p [] = none
entry_at p (e ∷ es) = elim (entry_at p es) [
  | some x ↦ some x
  | none ↦ if text_eq e.path p then some e else none
]

-- DecideFromBase
unfoldable pub decide_from_base : Manifest → Bytes → Decision
unfolding entry_at
decide_from_base target name = elim (entry_at name target.entries) [
  | some e ↦ if is_type type_file e && text_eq e.origin origin_full then extract e else read_past
  | none ↦ read_past
]

-- DecideOwn
unfoldable pub decide_own : Manifest → Bytes → Decision
unfolding entry_at has_content_in_set
decide_own m name = elim (entry_at name m.entries) [
  | some e ↦ if has_content_in_set e then extract e else if e.void then read_past else refuse
  | none ↦ refuse
]

-- checkHash
unfoldable pub check_hash : Platform → Entry → Bytes → Option RestoreError
check_hash platform e content =
    if text_eq (hex_encode (platform.sha256 content)) e.hash
    then none
    else some (checksum_mismatch e.path)

-- The files of the target that Finish requires.
unfoldable pub is_required : Restorer → Entry → Bool
unfolding has_content_in_set
is_required r e = is_type type_file e && not (r.own_only && not (has_content_in_set e))

-- The loop of Finish over the files.
unfoldable pub missing_files : Restorer → List Entry → List Bytes
unfolding is_required
missing_files r [] = []
missing_files r (e ∷ es) =
    let rest = missing_files r es in
    if is_required r e && not (has_path e.path r.done) then e.path ∷ rest else rest

-- strings.Count of slashes.
unfoldable pub count_slashes : Bytes → ℕ
count_slashes [] = 0
count_slashes (c ∷ cs) = let rest = count_slashes cs in if c == b'/' then rest + 1 else rest

-- The directories, the deepest ones first.
unfoldable pub deepest_first : List Entry → List Entry
unfolding count_slashes
deepest_first es =
    sort_by (λ a b. ltb (count_slashes b.path) (count_slashes a.path))
      (filter (λ e. is_type type_dir e) es)

module _ (vol : Volume) where
  -- targetPath
  unfoldable pub target_path : Bytes → Bytes → Bytes ⊎ RestoreError
  target_path dest_dir rel = elim (validate_path rel) [
    | some x ↦ inr (invalid_path x)
    | none ↦
        let p = vol.join_slash dest_dir rel in
        if has_prefix (vol.clean dest_dir ++ b'\\' ∷ []) (vol.clean p ++ b'\\' ∷ [])
        then inl p
        else inr (path_traversal rel)
  ]

  -- A round of CreateDirectories, for an entry that is a directory.
  unfoldable pub create_directory : Restorer → Dest → Entry → Dest × Option RestoreError
  unfolding target_path
  create_directory r d e = elim (target_path r.dest_dir e.path) [
    | inr x ↦ (d, some x)
    | inl p ↦
        if is_taken d p || not (vol.mkdir_ok d p)
        then (d, some (mkdir_failed p))
        else let made : Dest = record d { dirs = p ∷ d.dirs } in
          if not (vol.not_reparse made p) then (made, some (reparse_point p)) else (made, none)
  ]

  unfoldable pub create_each : Restorer → Dest → List Entry → Dest × Option RestoreError
  unfolding create_directory
  create_each r d [] = (d, none)
  create_each r d (e ∷ es) =
      let rest = create_each r d es in
      let (made, err) = create_directory r d e in
      if not (is_type type_dir e)
      then rest
      else elim err [ some x ↦ (made, some x) | none ↦ create_each r made es ]

  -- CreateDirectories
  unfoldable pub create_directories : Restorer → Dest → Dest × Option RestoreError
  unfolding create_each
  create_directories r d =
      if r.verify_only
      then (d, none)
      else if not (vol.not_reparse d r.dest_dir)
      then (d, some (reparse_point r.dest_dir))
      else create_each r d r.target.entries

  -- setTimes and setAttributes, the second if the first succeeds.
  unfoldable pub set_metadata : Dest → Bytes → Entry → Dest × Option RestoreError
  unfolding set_times set_attributes
  set_metadata d p e =
      let (timed, d') = set_times vol d p e.creation_time e.mod_time in
      let (marked, d'') = set_attributes vol d' p e.attributes in
      if not timed
      then (d', some (times_failed p))
      else if not marked
      then (d'', some (attributes_failed p))
      else (d'', none)

  -- The last loop of Finish.
  unfoldable pub finish_directories : Restorer → Dest → List Entry → Dest × Option RestoreError
  unfolding target_path set_metadata
  finish_directories r d [] = (d, none)
  finish_directories r d (e ∷ es) = elim (target_path r.dest_dir e.path) [
    | inr x ↦ (d, some x)
    | inl p ↦
        let (d', err) = set_metadata d p e in
        elim err [ some x ↦ (d', some x) | none ↦ finish_directories r d' es ]
  ]

  -- Finish
  unfoldable pub finish : Restorer → Dest → (Restorer × Dest) × Option RestoreError
  unfolding missing_files deepest_first finish_directories
  finish r d = elim (missing_files r r.target.entries) [
    | p ∷ ps ↦ ((record r { failures = p ∷ ps }, d), some (files_missing (length (p ∷ ps)) p))
    | [] ↦
        if r.verify_only
        then ((r, d), none)
        else let (d', err) = finish_directories r d (deepest_first r.target.entries) in
          ((r, d'), err)
  ]

  module _ (platform : Platform) where
    -- extractFile from the creation of the file on.
    unfoldable pub write_file : Dest → Bytes → TarEntry → Entry → Dest × Option RestoreError
    unfolding check_hash set_metadata
    write_file d p t e =
        let kept = take (vol.accepts d p) t.content in
        let made : Dest = record d { files = (p, kept) ∷ d.files } in
        if is_taken d p || not (vol.create_ok d p)
        then (d, some (create_failed p))
        else if t.content_broken || ltb (vol.accepts d p) (length t.content)
        then (made, some (write_failed p))
        else if not (vol.close_ok made p)
        then (made, some (close_failed p))
        else elim (check_hash platform e t.content) [
          | some x ↦ (made, some x)
          | none ↦ set_metadata made p e
        ]

    -- extractFile
    unfoldable pub extract_file : Restorer → Dest → TarEntry → Entry → Dest × Option RestoreError
    unfolding target_path write_file
    extract_file r d t e =
        if r.verify_only
        then (if t.content_broken
            then (d, some (content_unreadable e.path))
            else (d, check_hash platform e t.content))
        else elim (target_path r.dest_dir e.path) [
          | inr x ↦ (d, some x)
          | inl p ↦
              if not (vol.not_reparse d (vol.dir_of p))
              then (d, some (reparse_point (vol.dir_of p)))
              else write_file d p t e
        ]

    -- A round of ExtractSection for an entry that Decide has extracted.
    unfoldable pub extract_entry :
        Restorer → Dest → TarEntry → Entry → (Restorer × Dest) × Option RestoreError
    unfolding extract_file
    extract_entry r d t e =
        let (d', err) = extract_file r d t e in
        if not (is_type type_file e) || not (text_eq e.path t.name)
        then ((r, d), some (no_manifest_entry t.name))
        else if has_path e.path r.done
        then ((r, d), some (appears_twice e.path))
        else if not (t.size == e.size)
        then ((r, d), some (size_mismatch e.path))
        else elim err [
          | some x ↦ ((r, d'), some x)
          | none ↦ ((record r { done = e.path ∷ r.done }, d'), none)
        ]

    -- A round of ExtractSection.
    unfoldable pub extract_round :
        Restorer → Dest → TarEntry → Decision → (Restorer × Dest) × Option RestoreError
    unfolding extract_entry
    extract_round r d t (extract e) = extract_entry r d t e
    extract_round r d t read_past =
        if t.content_broken then ((r, d), some (skip_failed t.name)) else ((r, d), none)
    extract_round r d t refuse = ((r, d), some (not_in_manifest t.name))

    -- The loop of ExtractSection; `broken`: the stream ends with an error.
    unfoldable pub extract_entries :
        (Bytes → Decision)
        → Bool
        → Restorer
        → Dest
        → List TarEntry
        → (Restorer × Dest) × Option RestoreError
    unfolding extract_round
    extract_entries decide broken r d [] =
        if broken then ((r, d), some tar_unreadable) else ((r, d), none)
    extract_entries decide broken r d (t ∷ ts) =
        if not t.is_regular
        then ((r, d), some (unexpected_entry_type t.name))
        else let ((r', d'), err) = extract_round r d t (decide t.name) in
          elim err [ some x ↦ ((r', d'), some x) | none ↦ extract_entries decide broken r' d' ts ]

    -- ExtractSection
    unfoldable pub extract_section :
        Restorer → Dest → TarStream → (Bytes → Decision) → (Restorer × Dest) × Option RestoreError
    unfolding extract_entries
    extract_section r d stream decide = extract_entries decide stream.broken r d stream.entries

-- SkippedFiles
unfoldable pub skipped_files : Manifest → List Bytes
skipped_files m = map (λ e. e.path) (filter (λ e. is_type type_skipped e) m.entries)

-- StaleFiles
unfoldable pub stale_files : Manifest → List Bytes
stale_files m = map (λ e. e.path) (filter (λ e. e.stale) m.entries)
