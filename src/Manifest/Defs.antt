-- ===== src/Manifest/Defs.antt =====
-- manifest.go: Header, Entry, Footer and Manifest, the totals of a footer, and the Builder.
use restore_safe.Base.{
  Bool, Bytes, List, Option, [], codes, false, if◌then◌else◌, length, none, not, some, text_eq,
  true, ℕ, ◌%◌, ◌&&◌, ◌++◌, ◌+◌, ◌^◌, ◌||◌, ◌∷◌,
}

abbrev pub version : ℕ
version = 1

abbrev pub hash_alg_sha256 : Bytes
hash_alg_sha256 = codes "sha256"

abbrev pub type_file : Bytes
type_file = codes "f"

abbrev pub type_dir : Bytes
type_dir = codes "d"

abbrev pub type_skipped : Bytes
type_skipped = codes "s"

abbrev pub origin_full : Bytes
origin_full = codes "F"

abbrev pub origin_diff : Bytes
origin_diff = codes "D"

-- The ints are the 64 bits that they have. No exclude list is a nil slice.
pub record ManifestHeader : Type 0 where
  pub manifest_version : ℕ
  pub set_type : Bytes
  pub chain_id : Bytes
  pub diff_number : ℕ
  pub directory_name : Bytes
  pub source_path : Bytes
  pub hash_alg : Bytes
  pub exclude : Option (List Bytes)

-- The int64 fields are the bit patterns that they have.
pub record Entry : Type 0 where
  pub path : Bytes
  pub entry_type : Bytes
  pub size : ℕ
  pub mod_time : ℕ
  pub change_time : ℕ
  pub creation_time : ℕ
  pub attributes : ℕ
  pub hash : Bytes
  pub origin : Bytes
  pub offset : Option ℕ
  pub stale : Bool
  pub void : Bool
  pub reason : Bytes

pub record Footer : Type 0 where
  pub is_end : Bool
  pub entry_count : ℕ
  pub file_count : ℕ
  pub dir_count : ℕ
  pub skipped_count : ℕ
  pub stale_count : ℕ
  pub total_bytes : ℕ
  pub data_bytes : ℕ

pub record Manifest : Type 0 where
  pub header : ManifestHeader
  pub entries : List Entry
  pub footer : Footer

abbrev pub is_type : Bytes → Entry → Bool
is_type t e = text_eq e.entry_type t

unfoldable pub is_some : Option ℕ → Bool
is_some none = false
is_some (some _) = true

-- HasContentInSet
unfoldable pub has_content_in_set : Entry → Bool
unfolding is_some
has_content_in_set e = is_type type_file e && is_some e.offset

-- `+=` on an int64.
abbrev pub plus_int64 : ℕ → ℕ → ℕ
plus_int64 a b = (a + b) % 2 ^ 64

-- A round of computeFooter. The counts of entries do not reach 2 ^ 63.
unfoldable pub count_entry : Footer → Entry → Footer
unfolding has_content_in_set
count_entry f e =
    if is_type type_file e
    then record f {
      file_count = f.file_count + 1;
      total_bytes = plus_int64 f.total_bytes e.size;
      data_bytes = if has_content_in_set e then plus_int64 f.data_bytes e.size else f.data_bytes;
      stale_count = if e.stale then f.stale_count + 1 else f.stale_count;
    }
    else if is_type type_dir e
    then record f { dir_count = f.dir_count + 1 }
    else if is_type type_skipped e
    then record f { skipped_count = f.skipped_count + 1 }
    else f

unfoldable pub count_entries : Footer → List Entry → Footer
unfolding count_entry
count_entries f [] = f
count_entries f (e ∷ es) = count_entries (count_entry f e) es

abbrev pub no_counts : List Entry → Footer
no_counts es = record {
  is_end = true;
  entry_count = length es;
  file_count = 0;
  dir_count = 0;
  skipped_count = 0;
  stale_count = 0;
  total_bytes = 0;
  data_bytes = 0;
}

-- computeFooter
unfoldable pub compute_footer : List Entry → Footer
unfolding count_entries
compute_footer es = count_entries (no_counts es) es

pub record Builder : Type 0 where
  pub header : ManifestHeader
  pub entries : List Entry

-- NewBuilder
unfoldable pub new_builder : ManifestHeader → Builder
new_builder h = record {
  header = record h {
    manifest_version = version;
    hash_alg = hash_alg_sha256;
    exclude = elim h.exclude [ none ↦ some [] | some xs ↦ some xs ];
  };
  entries = [];
}

-- Add
abbrev pub add_entry : Builder → Entry → Builder
add_entry b e = record b { entries = b.entries ++ e ∷ [] }

-- The entry that SkipLastDirectory puts in a directory's place.
abbrev pub skipped_entry : Bytes → Bytes → Entry
skipped_entry path reason = record {
  path = path;
  entry_type = type_skipped;
  size = 0;
  mod_time = 0;
  change_time = 0;
  creation_time = 0;
  attributes = 0;
  hash = [];
  origin = [];
  offset = none;
  stale = false;
  void = false;
  reason = reason;
}

-- SkipLastDirectory on the entries.
unfoldable pub skip_last : List Entry → Bytes → Bytes → List Entry × Bool
skip_last [] path reason = ([], false)
skip_last (e ∷ []) path reason =
    if not (text_eq e.path path) || not (is_type type_dir e)
    then (e ∷ [], false)
    else (skipped_entry path reason ∷ [], true)
skip_last (e ∷ d ∷ es) path reason =
    let (rest, converted) = skip_last (d ∷ es) path reason in (e ∷ rest, converted)

-- SkipLastDirectory
unfoldable pub skip_last_directory : Builder → Bytes → Bytes → Builder × Bool
unfolding skip_last
skip_last_directory b path reason =
    let (es, converted) = skip_last b.entries path reason in (record b { entries = es }, converted)
