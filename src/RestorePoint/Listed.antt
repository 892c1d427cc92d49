-- ===== src/RestorePoint/Listed.antt =====
-- set.go and restorepoint.go: the manifest that ReadManifest gives, and the files that it lists.
use restore_safe.RestorePoint.Defs.{Parser, SetReader, matches_header, read_manifest}
use restore_safe.Archive.Build.Paths.{Distinct, entry_at-Distinct, validate_manifest-Distinct}
use restore_safe.Archive.Restore.{entry_at, target_path}
use restore_safe.Archive.Restore.Extracted.{IsRestored, some_eq}
use restore_safe.Archive.Tar.{TarEntry, hex_encode}
use restore_safe.Archive.Dest.{Dest, Volume}
use restore_safe.Manifest.Coding.{decode_manifest}
use restore_safe.Manifest.Decoded.{decode_manifest-valid}
use restore_safe.Manifest.Validate.{validate_manifest}
use restore_safe.Manifest.{Entry, Manifest}
use restore_safe.Container.KeySet.{SectionKeys}
use restore_safe.Cryptox.Platform.{Platform}
use restore_safe.Base.{
  Bool, Bool-cases, Bytes, List, Mem, Sum-cases, ap, false, inl, inr, none, some, subst, sym, ◌∙◌,
  ◌≡◌,
}

-- Where no path stands twice, entries with the same path are the same.
same_entry :
    (es : List Entry) (a b : Entry) → Distinct es → Mem a es → Mem b es → a.path ≡ b.path → a ≡ b
same_entry es a b d m n q =
    some_eq
      (sym (entry_at-Distinct a es d m) ∙ ap (λ z. entry_at z es) q ∙ entry_at-Distinct b es d n)

-- How a listed file was brought back: by a TAR entry of its path and size, whose content could be read
-- and has its hash; and where files are written, a file at the path's place has that content.
pub record IsBack (vol : Volume) (platform : Platform) (e : Entry) (dest_dir : Bytes)
    (verify_only : Bool) (d : Dest) (ts : List TarEntry) : Type 0 where
  pub from : TarEntry
  pub from_stream : Mem from ts
  pub from_name : from.name ≡ e.path
  pub same_size : from.size ≡ e.size
  pub readable : from.content_broken ≡ false
  pub same_hash : hex_encode (platform.sha256 from.content) ≡ e.hash
  pub written :
      verify_only ≡ false
      → (place : Bytes) × (target_path vol dest_dir e.path ≡ inl place)
        × Mem (place, from.content) d.files

pub IsRestored-IsBack :
    (vol : Volume) (platform : Platform) (m : Manifest) (dest_dir : Bytes) (verify_only : Bool)
    (d : Dest) (ts : List TarEntry) (e : Entry)
    → Distinct m.entries
    → Mem e m.entries
    → IsRestored vol platform m dest_dir verify_only d ts e.path
    → IsBack vol platform e dest_dir verify_only d ts
IsRestored-IsBack vol platform m dest_dir verify_only d ts e distinct listed r =
    let same : r.entry ≡ e =
      same_entry m.entries r.entry e distinct r.in_target listed r.entry_path in
    record {
      from = r.from;
      from_stream = r.from_stream;
      from_name = r.from_name;
      same_size = r.same_size ∙ ap (λ z. z.size) same;
      readable = r.readable;
      same_hash = r.same_hash ∙ ap (λ z. z.hash) same;
      written = r.written;
    }

module _ (platform : Platform) (parser : Parser) where
  -- ReadManifest gives a manifest that Validate accepts.
  pub read_manifest-valid :
      (set : SetReader) (keys : SectionKeys) (m : Manifest) (sum : Bytes)
      → read_manifest platform parser set keys ≡ some (m, sum)
      → validate_manifest parser.to_lower m ≡ none
  unfolding read_manifest
  read_manifest-valid set keys m sum h =
      let src = set.manifest_section keys in
      elim (Sum-cases (decode_manifest parser.codec parser.to_lower src)) [
        | inr (e, q) ↦ absurd (cc (rw (q, read_manifest) at h))
        | inl (x, q) ↦ elim (Bool-cases (matches_header x.header set.header)) [
          | inr n ↦ absurd (cc (rw (q, n, read_manifest) at h))
          | inl y ↦
              let same : (x, hex_encode (platform.sha256 src.content)) ≡ (m, sum) =
                some_eq (rw (q, y, read_manifest) at h) in
              subst (λ z. validate_manifest parser.to_lower z ≡ none) (ap (λ z. z.0) same)
                (decode_manifest-valid parser.codec parser.to_lower src x q)
        ]
      ]

  pub read_manifest-Distinct :
      (set : SetReader) (keys : SectionKeys) (m : Manifest) (sum : Bytes)
      → read_manifest platform parser set keys ≡ some (m, sum)
      → Distinct m.entries
  read_manifest-Distinct set keys m sum h =
      validate_manifest-Distinct parser.to_lower m (read_manifest-valid set keys m sum h)
