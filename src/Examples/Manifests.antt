-- ===== src/Examples/Manifests.antt =====
-- A manifest of a directory and a file, validated, written and read.
use restore_safe.Manifest.Coding.{
  LineCodec, built, decode_manifest, drop_cr, encode_manifest, footer_start, has_prefix,
  manifest_text, max_line_bytes, newline, read_failed,
}
use restore_safe.Manifest.RoundTrip.{
  HasEnds, IsReadable, decode_manifest-encode_manifest, decode_manifest-long_header,
}
use restore_safe.Text.{contains}
use restore_safe.Manifest.Accepted.{IsPlaced, validate_manifest-IsPlaced}
use restore_safe.Base.{
  Bool, Bytes, [], ap, arith, codes, false, if◌then◌else◌, inl, inr, length, none, refl, some, suc,
  text_eq, true, zero, ℕ, ◌+◌, ◌<◌, ◌∷◌, ◌≡◌, ◌≤◌,
}
use restore_safe.Io.{whole}
use restore_safe.Manifest.Totals.{validate_manifest-counted}
use restore_safe.Manifest.Validate.{validate_manifest}
use restore_safe.Manifest.Path.{validate_path}
use restore_safe.Manifest.{
  Builder, Entry, Manifest, ManifestHeader, add_entry, new_builder, origin_full, skipped_entry,
  type_dir, type_file,
}

abbrev pub same_case : Bytes → Bytes
same_case b = b

abbrev entry1 : Entry
entry1 = record (skipped_entry (codes "d") []) { entry_type = type_dir }

abbrev hash1 : Bytes
hash1 = codes "00000000000000000000000000000000000000000000000000000000000000ff"

abbrev entry2 : Entry
entry2 = record (skipped_entry (codes "d/f") []) {
  entry_type = type_file;
  size = 3;
  hash = hash1;
  origin = origin_full;
  offset = some 512;
}

abbrev header1 : ManifestHeader
header1 = record {
  manifest_version = 0;
  set_type = codes "full";
  chain_id = codes "ABC123";
  diff_number = 0;
  directory_name = codes "Docs";
  source_path = codes "C:";
  hash_alg = [];
  exclude = none;
}

abbrev builder1 : Builder
builder1 = add_entry (add_entry (new_builder header1) entry1) entry2

abbrev pub manifest1 : Manifest
manifest1 = built builder1

validate-manifest1 : validate_manifest same_case manifest1 ≡ none
unfolding validate_manifest built new_builder text_eq validate_path
    restore_safe.Manifest.Path.path_dir restore_safe.Manifest.Validate.validate_entry
    restore_safe.Manifest.compute_footer
validate-manifest1 = refl

validate_manifest-IsPlaced_example :
    (is_diff : Bool) × IsPlaced same_case is_diff (entry1 ∷ []) entry2
unfolding built new_builder
validate_manifest-IsPlaced_example =
    validate_manifest-IsPlaced same_case manifest1 (entry1 ∷ []) entry2 [] validate-manifest1 refl

validate_manifest-counted_example :
    (manifest1.footer.is_end ≡ true)
    × (manifest1.footer.entry_count ≡ 2)
    × (manifest1.footer.file_count + manifest1.footer.dir_count + manifest1.footer.skipped_count
        ≡ 2)
    × (manifest1.footer.stale_count ≤ manifest1.footer.file_count)
unfolding built new_builder
validate_manifest-counted_example = validate_manifest-counted same_case manifest1 validate-manifest1

-- The JSON of these values alone.
abbrev codec_of : Bytes → LineCodec
codec_of head = record {
  marshal_header = λ h. head;
  marshal_entry = λ e. e.path;
  marshal_footer = λ f. codes "{\"end\":true}";
  unmarshal_header = λ s. some (manifest1.header);
  unmarshal_entry = λ s. some (if text_eq s (codes "d") then entry1 else entry2);
  unmarshal_footer = λ s. some (manifest1.footer);
}

abbrev codec1 : LineCodec
codec1 = codec_of (codes "{header}")

encode-builder1 :
    (head : Bytes)
    → encode_manifest (codec_of head) same_case builder1
      ≡ inl (manifest_text (codec_of head) manifest1)
unfolding encode_manifest
encode-builder1 head = rw (encode_manifest, validate-manifest1) refl

abbrev ends1 : HasEnds codec1 manifest1
unfolding restore_safe.Text.contains restore_safe.Manifest.Coding.drop_cr
    restore_safe.Manifest.Coding.has_prefix
ends1 = record {
  header_line = record { one_line = refl; no_cr = refl };
  header_back = refl;
  header_short = omega arith;
  footer_line = record { one_line = refl; no_cr = refl };
  footer_back = refl;
  footer_marked = refl;
  footer_short = omega arith;
}

readable :
    (e : Entry)
    → contains e.path newline ≡ false
    → drop_cr e.path ≡ e.path
    → has_prefix footer_start e.path ≡ false
    → (if text_eq e.path (codes "d") then entry1 else entry2) ≡ e
    → length e.path < max_line_bytes
    → IsReadable codec1 e
readable e one cr not_foot back short = record {
  line = record { one_line = one; no_cr = cr };
  not_footer = not_foot;
  read_back = ap some back;
  short = short;
}

decode_manifest-encode_manifest_example :
    decode_manifest codec1 same_case (whole (manifest_text codec1 manifest1)) ≡ inl manifest1
unfolding new_builder contains drop_cr has_prefix text_eq
decode_manifest-encode_manifest_example =
    decode_manifest-encode_manifest codec1 same_case builder1 (manifest_text codec1 manifest1) ends1
      (
        readable entry1 refl refl refl refl (omega arith),
        (readable entry2 refl refl refl refl (omega arith), tt),
      )
      (encode-builder1 (codes "{header}"))

-- A line of as many letters as asked for.
unfoldable letters : ℕ → Bytes
letters zero = []
letters (suc n) = b'a' ∷ letters n

length-letters : (n : ℕ) → length (letters n) ≡ n
unfolding letters
length-letters zero = refl
length-letters (suc n) = ap suc (length-letters n)

drop_cr-letters : (n : ℕ) → drop_cr (letters n) ≡ letters n
unfolding letters drop_cr
drop_cr-letters zero = refl
drop_cr-letters (suc zero) = refl
drop_cr-letters (suc (suc n)) = ap (λ x. b'a' ∷ x) (drop_cr-letters (suc n))

contains-letters : (n : ℕ) → contains (letters n) newline ≡ false
unfolding letters contains
contains-letters zero = refl
contains-letters (suc n) = contains-letters n

abbrev long : Bytes
long = letters max_line_bytes

decode_manifest-long_header_example :
    decode_manifest (codec_of long) same_case (whole (manifest_text (codec_of long) manifest1))
    ≡ inr read_failed
decode_manifest-long_header_example =
    decode_manifest-long_header (codec_of long) same_case builder1
      (manifest_text (codec_of long) manifest1)
      (record {
        one_line = contains-letters max_line_bytes;
        no_cr = drop_cr-letters max_line_bytes;
      })
      (omega (arith, length-letters max_line_bytes)) (encode-builder1 long)
