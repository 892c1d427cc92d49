-- ===== src/Examples/Builds.antt =====
-- A walk with a directory, a file and a file that shrinks, written and verified.
use restore_safe.Base.{
  Bool, Bytes, List, Option, [], codes, false, inl, none, refl, some, text_eq, true, ℕ, ◌∷◌, ◌≡◌,
}
use restore_safe.RestorePoint.Written.{verify_own_data-build_tar}
use restore_safe.Archive.Tar.{hex_encode}
use restore_safe.Io.{whole}
use restore_safe.Examples.Platforms.{first_bytes, plain_platform, zeros32}
use restore_safe.Examples.Manifests.{manifest1}
use restore_safe.Examples.Restores.{empty_dest, full_set, parser_of, point_keys, roomy}
use restore_safe.Manifest.Coding.{built}
use restore_safe.RestorePoint.{Parser, SetReader, read_manifest, verify_own_data}
use restore_safe.Manifest.{Manifest}
use restore_safe.Archive.Build.{
  BuildError, Meta, ReadError, SourceFile, TarBuilder, Visit, build_tar,
}

abbrev no_error : ReadError
no_error = record { not_exist = false; message = codes "locked" }

abbrev facts : Meta
facts = record { mod_time = 5; change_time = 5; creation_time = 4; attributes = 0 }

abbrev source_of : Bytes → ℕ → SourceFile
source_of content size = record {
  open_error = none;
  handle_info = inl facts;
  stat_size = inl size;
  content = content;
  read_error = none;
}

abbrev visit_of : Bytes → Bool → Bytes → ℕ → Visit
visit_of rel folder content size = record {
  rel = rel;
  depth = 1;
  cancelled = false;
  walk_error = none;
  is_dir = folder;
  is_excluded = false;
  is_matched = false;
  info = inl (true, folder, size);
  basic = inl facts;
  source = source_of content size;
}

abbrev visits : List Visit
visits =
    visit_of (codes "d") true [] 0
    ∷ visit_of (codes "d/f") false (codes "abc") 3
    ∷ visit_of (codes "g") false (codes "ab") 3
    ∷ []

abbrev block_bytes : Bytes → ℕ → ℕ
block_bytes name size = 2048

abbrev outcome : TarBuilder × Option BuildError
outcome = build_tar plain_platform true none block_bytes visits

abbrev backup : TarBuilder
backup = outcome.0

build-visits : build_tar plain_platform true none block_bytes visits ≡ (backup, none)
unfolding build_tar restore_safe.Manifest.Path.validate_path restore_safe.Base.text_eq
build-visits = refl

abbrev recorded : Manifest
recorded = built (record { header = manifest1.header; entries = backup.listed })

abbrev listing : Bytes
listing = codes "full\nd\nd/f\ng\n{\"end\":true}\n"

abbrev parser2 : Parser
parser2 = parser_of recorded [] [] recorded

abbrev written_set : SetReader
written_set = record full_set {
  manifest_section = λ k. whole listing;
  data_stream = λ k. record { entries = backup.tar; broken = false };
}

abbrev sum : Bytes
sum = hex_encode (first_bytes listing)

reads : read_manifest plain_platform parser2 written_set point_keys ≡ some (recorded, sum)
unfolding read_manifest build_tar built restore_safe.Manifest.new_builder text_eq
    restore_safe.Manifest.Path.validate_path restore_safe.Manifest.Path.path_dir
    restore_safe.Manifest.Validate.validate_entry hex_encode restore_safe.Manifest.compute_footer
    restore_safe.Manifest.Coding.decode_manifest restore_safe.Archive.Restore.entry_at
    restore_safe.Manifest.Validate.validate_manifest restore_safe.Manifest.Coding.has_prefix
    restore_safe.Manifest.Coding.drop_cr
reads = refl

verify_own_data-build_tar_example :
    verify_own_data roomy plain_platform parser2 written_set zeros32 empty_dest
    ≡ (empty_dest, inl recorded)
unfolding built
verify_own_data-build_tar_example =
    verify_own_data-build_tar roomy plain_platform parser2 recorded true none block_bytes backup
      visits empty_dest written_set zeros32 sum point_keys build-visits refl refl reads refl refl
