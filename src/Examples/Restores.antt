-- ===== src/Examples/Restores.antt =====
-- A differential and its full backup, restored.
use restore_safe.RestorePoint.Complete.{read_point-Restored}
use restore_safe.RestorePoint.Opened.{IsLinked, base_entries}
use restore_safe.RestorePoint.{Parser, SetReader, read_manifest, read_point}
use restore_safe.Manifest.Validate.{validate_manifest}
use restore_safe.Archive.Restore.{entry_at}
use restore_safe.Io.{whole}
use restore_safe.Base.{
  Bytes, Mem, Option, [], codes, false, filter, if◌then◌else◌, inl, none, refl, some, sort_by,
  text_eq, true, ℕ, ◌++◌, ◌∷◌, ◌≡◌,
}
use restore_safe.Examples.Manifests.{manifest1, same_case}
use restore_safe.Examples.Files.{header1}
use restore_safe.Examples.Platforms.{first_bytes, plain_platform, zeros32}
use restore_safe.Manifest.Coding.{built}
use restore_safe.Archive.Tar.{TarStream, hex_encode}
use restore_safe.Container.KeySet.{SectionKeys}
use restore_safe.RestorePoint.Listed.{IsBack}
use restore_safe.Container.Header.{Header, set_type_diff}
use restore_safe.Manifest.{
  Entry, Manifest, add_entry, is_type, new_builder, origin_diff, origin_full, skipped_entry,
  type_file,
}
use restore_safe.Archive.Dest.{Dest, Volume}

abbrev pub roomy : Volume
roomy = record {
  join_slash = λ dir rel. dir ++ (b'\\' ∷ rel);
  clean = λ p. p;
  dir_of = λ p. codes "R";
  not_reparse = λ d p. true;
  mkdir_ok = λ d p. true;
  create_ok = λ d p. true;
  accepts = λ d p. 100;
  close_ok = λ d p. true;
  times_ok = λ d p. true;
  attributes_ok = λ d p. true;
}

abbrev pub empty_dest : Dest
empty_dest = record { dirs = []; files = []; times = []; attributes = [] }

abbrev full_header : Header
full_header = record header1 { directory_name = codes "Docs"; date = codes "2026-01-01" }

-- The manifest sections, as a codec of these manifests alone has them.
abbrev full_text : Bytes
full_text = codes "full\nd\nd/f\n{\"end\":full}\n"

abbrev diff_text : Bytes
diff_text = codes "diff\nold\nnew\n{\"end\":diff}\n"

abbrev diff_header : Header
diff_header = record full_header {
  set_type = set_type_diff;
  diff_number = 1;
  date = codes "2026-01-02";
  base_date = codes "2026-01-01";
  base_manifest_sha256 = hex_encode (first_bytes full_text);
}

-- A file of three bytes.
abbrev file_of : Bytes → Bytes → Bytes → Option ℕ → Entry
file_of path content origin offset = record (skipped_entry path []) {
  entry_type = type_file;
  size = 3;
  mod_time = 5;
  attributes = 1;
  hash = hex_encode (first_bytes content);
  origin = origin;
  offset = offset;
}

abbrev kept : Entry
kept = file_of (codes "old") (codes "abc") origin_full none

abbrev listed : Manifest
listed = built (
    add_entry
      (add_entry
        (new_builder (record manifest1.header { set_type = codes "diff"; diff_number = 1 })) kept)
      (file_of (codes "new") (codes "def") origin_diff (some 0)))

-- A codec that has the text of the header at hand, finds an entry by its path, and reads the footer of
-- the first manifest from the line given, and that of the second from any other.
abbrev pub parser_of : Manifest → Bytes → Bytes → Manifest → Parser
parser_of first head foot second = record {
  codec = record {
    marshal_header = λ h. [];
    marshal_entry = λ e. e.path;
    marshal_footer = λ f. [];
    unmarshal_header = λ s. some (if text_eq s head then first.header else second.header);
    unmarshal_entry = λ s. entry_at s (first.entries ++ second.entries);
    unmarshal_footer = λ s. some (if text_eq s foot then first.footer else second.footer);
  };
  to_lower = same_case;
}

abbrev parser1 : Parser
parser1 = parser_of manifest1 (codes "full") (codes "{\"end\":full}") listed

abbrev tar_of : Bytes → Bytes → TarStream
tar_of name content = record {
  entries =
      record { name = name; is_regular = true; size = 3; content = content; content_broken = false }
      ∷ [];
  broken = false;
}

abbrev pub point_keys : SectionKeys
point_keys = record { data_key = zeros32; manifest_key = zeros32 }

abbrev pub full_set : SetReader
full_set = record {
  header = full_header;
  data_length = 3;
  section_keys = λ m. some point_keys;
  manifest_section = λ k. whole full_text;
  data_stream = λ k. tar_of (codes "old") (codes "abc");
  decryption = λ k e. (true, false);
}

abbrev diff_set : SetReader
diff_set = record full_set {
  header = diff_header;
  manifest_section = λ k. whole diff_text;
  data_stream = λ k. tar_of (codes "new") (codes "def");
}

abbrev restored_dest : Dest
restored_dest = record {
  dirs = [];
  files = (codes "R\\new", codes "def") ∷ (codes "R\\old", codes "abc") ∷ [];
  times = (codes "R\\new", (none, some 5)) ∷ (codes "R\\old", (none, some 5)) ∷ [];
  attributes = (codes "R\\new", 1) ∷ (codes "R\\old", 1) ∷ [];
}

restore-diff_set :
    read_point roomy plain_platform parser1 diff_set
      (some full_set)
      zeros32
      (codes "R")
      false
      empty_dest
    ≡ (restored_dest, inl listed)
unfolding read_point restore_safe.Base.text_eq restore_safe.Archive.Restore.create_directories built
    new_builder restore_safe.Archive.Restore.extract_section
    restore_safe.Archive.Restore.decide_from_base restore_safe.Archive.Dest.has_path
    restore_safe.Manifest.Path.validate_path restore_safe.Manifest.Coding.has_prefix
    restore_safe.Archive.Dest.is_taken hex_encode restore_safe.Archive.Restore.decide_own
    restore_safe.Archive.Restore.finish restore_safe.Base.sort_by restore_safe.Base.filter
    restore_safe.Archive.Restore.entry_at restore_safe.Manifest.Coding.decode_manifest
    restore_safe.Manifest.Validate.validate_manifest restore_safe.Manifest.Path.path_dir
    restore_safe.Manifest.Validate.validate_entry restore_safe.Manifest.compute_footer
    restore_safe.Manifest.Coding.drop_cr
restore-diff_set = refl

read_point-Restored_example :
    (keys : SectionKeys) × (sum : Bytes) × (linked : Option (SetReader × SectionKeys))
    × (diff_set.section_keys zeros32 ≡ some keys)
    × (read_manifest plain_platform parser1 diff_set keys ≡ some (listed, sum))
    × (validate_manifest same_case listed ≡ none)
    × IsLinked plain_platform parser1 diff_set (some full_set) zeros32 linked
    × ((e : Entry)
        → Mem e listed.entries
        → is_type type_file e ≡ true
        → IsBack roomy plain_platform e
            (codes "R")
            false
            restored_dest
            (base_entries linked ++ (diff_set.data_stream keys).entries))
read_point-Restored_example =
    read_point-Restored roomy plain_platform parser1 diff_set (some full_set) zeros32 (codes "R")
      false empty_dest restored_dest listed restore-diff_set
