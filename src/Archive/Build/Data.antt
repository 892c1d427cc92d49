-- ===== src/Archive/Build/Data.antt =====
-- build.go: what BuildTar reads and keeps.
use restore_safe.Base.{Bool, Bytes, List, Option, if◌then◌else◌, none, ℕ, ◌&&◌, ◌==◌, ◌⊎◌}
use restore_safe.Archive.Tar.{TarEntry}
use restore_safe.Manifest.Path.{PathError}
use restore_safe.Manifest.{Entry, origin_full, skipped_entry}

-- An error of the file system: whether it is fs.ErrNotExist, and its text.
pub record ReadError : Type 0 where
  pub not_exist : Bool
  pub message : Bytes

-- basicInfo
pub record Meta : Type 0 where
  pub mod_time : ℕ
  pub change_time : ℕ
  pub creation_time : ℕ
  pub attributes : ℕ

-- A source file while it is copied: what openSource, basicInfoFromHandle and Stat answer, what is read
-- and how reading ends. The size is that of Stat.
pub record SourceFile : Type 0 where
  pub open_error : Option ReadError
  pub handle_info : Meta ⊎ ReadError
  pub stat_size : ℕ ⊎ ReadError
  pub content : Bytes
  pub read_error : Option ReadError

-- A call of visit for an entry below the source directory, `depth` levels below it; the call for a
-- directory that cannot be listed counts as one level below that directory. The answers of
-- isExcluded and ExcludeMatcher.Match, of DirEntry.Info and of statBasic stand with it. The path is the
-- relative one with slashes.
pub record Visit : Type 0 where
  pub rel : Bytes
  pub depth : ℕ
  pub cancelled : Bool
  pub walk_error : Option ReadError
  pub is_dir : Bool
  pub is_excluded : Bool
  pub is_matched : Bool
  -- Whether the entry is a directory or a regular file, whether a directory, and its size.
  pub info : (Bool × Bool × ℕ) ⊎ ReadError
  pub basic : Meta ⊎ ReadError
  pub source : SourceFile

pub data BuildError : Type 0 where
  context_error : BuildError
  unreadable : Bytes → ReadError → BuildError
  path_refused : PathError → BuildError

-- BuildStats
pub record BuildStats : Type 0 where
  pub excluded : ℕ
  pub skipped : ℕ
  pub stale_kept : ℕ
  pub vanished : ℕ
  pub unchanged_files : ℕ
  pub stored : ℕ

-- tarBuilder, with the TAR entries written so far, the bytes that they have, and the calls of OnSkip.
pub record TarBuilder : Type 0 where
  pub listed : List Entry
  pub tar : List TarEntry
  pub tar_bytes : ℕ
  pub stats : BuildStats
  pub skips : List (Bytes × (Bytes × Bool))

-- What visit answers to WalkDir.
pub data Walk : Type 0 where
  go_on skip_dir : Walk
  stop : BuildError → Walk

-- skipDirOrNil
abbrev pub skip_dir_or_nil : Visit → Walk
skip_dir_or_nil v = if v.is_dir then skip_dir else go_on

-- A started or complete TAR entry.
pub data FileResult : Type 0 where
  written : Entry → TarEntry → FileResult
  -- The TAR entry that was started, if one was.
  not_read : ReadError → Option TarEntry → FileResult

-- fromBase
abbrev pub from_base : Entry → Bool → Bool → Entry
from_base base stale void = record base {
  origin = origin_full;
  offset = none;
  stale = stale;
  void = void;
}

-- unchanged
abbrev pub is_unchanged : Entry → ℕ → Meta → Bool
is_unchanged base size meta =
    base.size == size && base.mod_time == meta.mod_time && base.change_time == meta.change_time

-- A record of an entry that could not be read.
abbrev pub unread_entry : Bytes → Bytes → Bool → Entry
unread_entry rel reason void = record (skipped_entry rel reason) { void = void }
