-- ===== src/Archive/Build/Defs.antt =====
-- build.go: BuildTar with visit, unlisted, unstatable, addDir, addFile, skip, skipFile, unchanged,
-- fromBase, skipDirOrNil and writeFile. The calls that filepath.WalkDir makes of visit are a list.
use restore_safe.Archive.Build.Data.{
  BuildError, FileResult, Meta, ReadError, SourceFile, TarBuilder, Visit, Walk, context_error,
  from_base, go_on, is_unchanged, not_read, path_refused, skip_dir, skip_dir_or_nil, stop,
  unread_entry, unreadable, written,
}
use restore_safe.Base.{
  Bool, Bytes, List, Option, [], codes, false, filter, if◌then◌else◌, inl, inr, length, ltb, none,
  not, some, suc, take, true, zero, ℕ, ◌&&◌, ◌++◌, ◌+◌, ◌-◌, ◌∷◌,
}
use restore_safe.Archive.Restore.{entry_at}
use restore_safe.Archive.Tar.{TarEntry, hex_encode}
use restore_safe.Cryptox.Platform.{Platform}
use restore_safe.Manifest.Path.{validate_path}
use restore_safe.Manifest.{
  Entry, is_type, origin_diff, origin_full, skip_last, skipped_entry, type_dir, type_file,
}

-- The bytes that pad an entry.
unfoldable pub zero_bytes : ℕ → Bytes
zero_bytes zero = []
zero_bytes (suc n) = 0 ∷ zero_bytes n

abbrev pub add_listed : TarBuilder → Entry → TarBuilder
add_listed b e = record b { listed = b.listed ++ e ∷ [] }

-- skip
abbrev pub count_skip : TarBuilder → Bytes → Bytes → TarBuilder
count_skip b rel reason = record b {
  stats = record (b.stats) { skipped = b.stats.skipped + 1 };
  skips = b.skips ++ (rel, (reason, false)) ∷ [];
}

abbrev pub count_vanished : TarBuilder → TarBuilder
count_vanished b = record b { stats = record (b.stats) { vanished = b.stats.vanished + 1 } }

-- The files of the base, the last one of a path first; none for a full backup.
unfoldable pub base_file : Option (List Entry) → Bytes → Option Entry
base_file none rel = none
base_file (some es) rel = entry_at rel (filter (λ e. is_type type_file e) es)

-- The options of a run: on_unreadable_file, the files of the base, and the bytes that a TAR entry of a
-- name and a size takes, with its header and padding.
module _ (platform : Platform) (skip_unreadable : Bool) (base : Option (List Entry))
    (entry_bytes : Bytes → ℕ → ℕ) where
  -- writeFile from the header on, for a file of `size` bytes at the offset.
  unfoldable pub copy_file : ℕ → Bytes → SourceFile → Meta → ℕ → FileResult
  unfolding zero_bytes
  copy_file offset rel f meta size =
      let t : TarEntry = record {
        name = rel;
        is_regular = true;
        size = size;
        content = take size f.content ++ zero_bytes (size - length f.content);
        content_broken = false;
      } in
      let e : Entry = record {
        path = rel;
        entry_type = type_file;
        size = size;
        mod_time = meta.mod_time;
        change_time = meta.change_time;
        creation_time = meta.creation_time;
        attributes = meta.attributes;
        hash = hex_encode (platform.sha256 (take size f.content));
        origin = elim base [ none ↦ origin_full | some _ ↦ origin_diff ];
        offset = some offset;
        stale = false;
        void = false;
        reason = [];
      } in
      if ltb (length f.content) size
      then not_read
          (elim f.read_error [
            | some x ↦ x
            | none ↦ record {
              not_exist = false;
              message = codes "the file became smaller during backup";
            }
          ])
          (some t)
      else if ltb size (length f.content)
      then not_read (record { not_exist = false; message = codes "the file grew during backup" })
          (some t)
      else written e t

  -- writeFile
  unfoldable pub read_file : ℕ → Bytes → SourceFile → FileResult
  unfolding copy_file
  read_file offset rel f = elim f.open_error [
    | some x ↦ not_read x none
    | none ↦ elim f.handle_info [
      | inr x ↦ not_read x none
      | inl meta ↦ elim f.stat_size [
        | inr x ↦ not_read x none
        | inl size ↦ copy_file offset rel f meta size
      ]
    ]
  ]

  abbrev pub add_tar : TarBuilder → Option TarEntry → TarBuilder
  add_tar b none = b
  add_tar b (some t) = record b {
    tar = b.tar ++ t ∷ [];
    tar_bytes = b.tar_bytes + entry_bytes t.name t.size;
  }

  abbrev pub is_started : Option TarEntry → Bool
  is_started none = false
  is_started (some _) = true

  -- skipFile
  unfoldable pub skip_file : TarBuilder → Bytes → ReadError → Bool → TarBuilder
  unfolding base_file
  skip_file b rel x header_written = elim (base_file base rel) [
    | some e ↦ record (add_listed b (from_base e true header_written)) {
      stats = record (b.stats) { stale_kept = b.stats.stale_kept + 1 };
      skips = b.skips ++ (rel, (x.message, true)) ∷ [];
    }
    | none ↦ count_skip (add_listed b (unread_entry rel x.message header_written)) rel x.message
  ]

  -- addFile from writeFile on.
  unfoldable pub store_file : TarBuilder → Bytes → FileResult → TarBuilder × Walk
  unfolding skip_file
  store_file b rel (written e t) =
      let b' = add_listed (add_tar b (some t)) e in
      (record b' { stats = record (b.stats) { stored = b.stats.stored + 1 } }, go_on)
  store_file b rel (not_read x t) =
      if x.not_exist && not (is_started t)
      then (count_vanished b, go_on)
      else if not skip_unreadable
      then (add_tar b t, stop (unreadable rel x))
      else (skip_file (add_tar b t) rel x (is_started t), go_on)

  -- Whether addFile takes the file from the base.
  unfoldable pub kept_from_base : Visit → ℕ → Option Entry
  unfolding base_file
  kept_from_base v size = elim (base_file base v.rel) [
    | none ↦ none
    | some e ↦ elim v.basic [
      | inr _ ↦ none
      | inl meta ↦ if is_unchanged e size meta then some e else none
    ]
  ]

  -- addFile
  unfoldable pub add_file : TarBuilder → Visit → ℕ → TarBuilder × Walk
  unfolding kept_from_base store_file read_file
  add_file b v size = elim (kept_from_base v size) [
    | some e ↦ (
      record (add_listed b (from_base e false false)) {
        stats = record (b.stats) { unchanged_files = b.stats.unchanged_files + 1 };
      },
      go_on,
    )
    | none ↦ store_file b v.rel (read_file b.tar_bytes v.rel v.source)
  ]

  -- What addDir and unstatable do with a directory that cannot be read.
  abbrev skip_directory : TarBuilder → Visit → ReadError → TarBuilder × Walk
  skip_directory b v x =
      (count_skip (add_listed b (unread_entry v.rel x.message false)) v.rel x.message, skip_dir)

  abbrev pub dir_entry : Bytes → Meta → Entry
  dir_entry rel meta = record (skipped_entry rel []) {
    entry_type = type_dir;
    mod_time = meta.mod_time;
    creation_time = meta.creation_time;
    attributes = meta.attributes;
  }

  -- addDir
  unfoldable pub add_dir : TarBuilder → Visit → TarBuilder × Walk
  add_dir b v = elim v.basic [
    | inl meta ↦ (add_listed b (dir_entry v.rel meta), go_on)
    | inr x ↦
        if x.not_exist
        then (count_vanished b, skip_dir)
        else if not skip_unreadable
        then (b, stop (unreadable v.rel x))
        else skip_directory b v x
  ]

  -- unstatable
  unfoldable pub unstatable : TarBuilder → Visit → ReadError → TarBuilder × Walk
  unfolding skip_file
  unstatable b v x =
      if x.not_exist
      then (count_vanished b, skip_dir_or_nil v)
      else if not skip_unreadable
      then (b, stop (unreadable v.rel x))
      else if v.is_dir
      then skip_directory b v x
      else (skip_file b v.rel x false, go_on)

  -- unlisted
  unfoldable pub unlisted : TarBuilder → Visit → ReadError → TarBuilder × Walk
  unfolding skip_last
  unlisted b v x =
      let (entries, converted) = skip_last b.listed v.rel x.message in
      let b' =
        if converted
        then record b { listed = entries }
        else add_listed b (unread_entry v.rel x.message false) in
      if x.not_exist
      then (count_vanished b, skip_dir_or_nil v)
      else if not skip_unreadable
      then (b, stop (unreadable v.rel x))
      else (count_skip b' v.rel x.message, skip_dir_or_nil v)

  -- visit, for a path below the source directory.
  unfoldable pub visit : TarBuilder → Visit → TarBuilder × Walk
  unfolding unlisted unstatable add_dir add_file
  visit b v = if v.cancelled then (b, stop context_error) else elim v.walk_error [
    | some x ↦ unlisted b v x
    | none ↦
        if v.is_excluded
        then (b, skip_dir_or_nil v)
        else if v.is_matched
        then (
          record b { stats = record (b.stats) { excluded = b.stats.excluded + 1 } },
          skip_dir_or_nil v,
        )
        else elim v.info [
          | inr x ↦ unstatable b v x
          | inl (is_plain, is_folder, size) ↦
              if not is_plain then (b, go_on) else elim (validate_path v.rel) [
                | some x ↦ (b, stop (path_refused x))
                | none ↦ if is_folder then add_dir b v else add_file b v size
              ]
        ]
  ]

  -- filepath.WalkDir over the calls that it would make if nothing were skipped: those below a directory
  -- that is skipped, at level `skipping`, are not made.
  unfoldable pub walk_dir : Option ℕ → TarBuilder → List Visit → TarBuilder × Option BuildError
  unfolding visit
  walk_dir skipping b [] = (b, none)
  walk_dir skipping b (v ∷ vs) =
      let (b', answer) = visit b v in
      let pass = walk_dir skipping b vs in
      let call : TarBuilder × Option BuildError = elim answer [
        | stop e ↦ (b', some e)
        | go_on ↦ walk_dir none b' vs
        | skip_dir ↦ walk_dir (some (v.depth)) b' vs
      ] in
      elim skipping [ none ↦ call | some level ↦ if ltb level v.depth then pass else call ]

  abbrev pub new_tar_builder : TarBuilder
  new_tar_builder = record {
    listed = [];
    tar = [];
    tar_bytes = 0;
    stats = record {
      excluded = 0;
      skipped = 0;
      stale_kept = 0;
      vanished = 0;
      unchanged_files = 0;
      stored = 0;
    };
    skips = [];
  }

  -- BuildTar
  unfoldable pub build_tar : List Visit → TarBuilder × Option BuildError
  unfolding walk_dir
  build_tar visits = walk_dir none new_tar_builder visits
