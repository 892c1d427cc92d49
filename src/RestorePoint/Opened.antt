-- ===== src/RestorePoint/Opened.antt =====
-- restorepoint.go: what a set and its base were opened with, and one section of a restore.
use restore_safe.RestorePoint.Defs.{
  Parser, PointError, SetReader, check_base_link, extract_from, no_base_keys, no_base_manifest,
  open_base, open_set, pipe_outcome, read_manifest,
}
use restore_safe.Archive.Restore.Section.{AllDone, IsLater, extract_section-AllDone}
use restore_safe.Manifest.{Manifest}
use restore_safe.Container.Header.{header_is_diff}
use restore_safe.Archive.Restore.Extracted.{IsOf}
use restore_safe.Archive.Restore.{Decision, RestoreError, Restorer, extract_section}
use restore_safe.Base.{
  Bool, Bytes, List, Option, Option-cases, Sum-cases, [], ap, arith, false, inl, inr, none, refl,
  some, subst, true, ◌++◌, ◌∙◌, ◌≡◌,
}
use restore_safe.Archive.Tar.{TarEntry}
use restore_safe.Container.KeySet.{SectionKeys}
use restore_safe.Cryptox.Platform.{Platform}
use restore_safe.Archive.Dest.{Dest, Volume}

pipe_outcome-none :
    (err : Option RestoreError) (how : Bool × Bool) → pipe_outcome err how ≡ none → err ≡ none
unfolding pipe_outcome
pipe_outcome-none none how h = refl
pipe_outcome-none (some e) (a, b) h = absurd (ground arith)

-- The TAR entries of the data of a differential's base.
unfoldable pub base_entries : Option (SetReader × SectionKeys) → List TarEntry
base_entries none = []
base_entries (some (full, keys)) = (full.data_stream keys).entries

-- What the data of a set are completed with: those of a differential by the data of its base, which
-- belongs to it and is opened by the same master key.
abbrev pub IsLinked :
    Platform
    → Parser
    → SetReader
    → Option SetReader
    → Bytes
    → Option (SetReader × SectionKeys)
    → Type 0
IsLinked platform parser set base master none = header_is_diff set.header ≡ false
IsLinked platform parser set base master (some (full, keys)) =
    (header_is_diff set.header ≡ true)
    × (base ≡ some full)
    × (full.section_keys master ≡ some keys)
    × ((m : Manifest) × (sum : Bytes) × (read_manifest platform parser full keys ≡ some (m, sum))
        × (check_base_link set.header full.header sum ≡ none))

pub open_set-inl :
    (platform : Platform) (parser : Parser) (set : SetReader) (master : Bytes)
    (no_open no_list : PointError) (keys : SectionKeys) (m : Manifest) (sum : Bytes)
    → open_set platform parser set master no_open no_list ≡ inl (keys, (m, sum))
    → (set.section_keys master ≡ some keys)
      × (read_manifest platform parser set keys ≡ some (m, sum))
unfolding open_set
open_set-inl platform parser set master no_open no_list keys m sum h =
    elim (Option-cases (set.section_keys master)) [
      | inl q ↦ absurd (cc (rw (q, open_set) at h))
      | inr (k, q) ↦ elim (Option-cases (read_manifest platform parser set k)) [
        | inl p ↦ absurd (cc (rw (q, p, open_set) at h))
        | inr (x, p) ↦
            let same : inl (k, x) ≡ inl (keys, (m, sum)) = rw (q, p, open_set) at h in
            let key : k ≡ keys = cc same in
            (
              q ∙ ap some key,
              subst (λ z. read_manifest platform parser set z ≡ some (m, sum)) key (p ∙ (cc same)),
            )
      ]
    ]

pub open_base-inl :
    (platform : Platform) (parser : Parser) (set full : SetReader) (master : Bytes)
    (keys : SectionKeys)
    → open_base platform parser set full master ≡ inl keys
    → (full.section_keys master ≡ some keys)
      × ((m : Manifest) × (sum : Bytes) × (read_manifest platform parser full keys ≡ some (m, sum))
          × (check_base_link set.header full.header sum ≡ none))
unfolding open_base
open_base-inl platform parser set full master keys h =
    elim (Sum-cases (open_set platform parser full master no_base_keys no_base_manifest)) [
      | inr (x, q) ↦ absurd (cc (rw (q, open_base) at h))
      | inl ((k, (m, sum)), q) ↦ elim (Option-cases (check_base_link set.header full.header sum)) [
        | inr (x, p) ↦ absurd (cc (rw (q, p, open_base) at h))
        | inl p ↦
            let same : k ≡ keys = cc (rw (q, p, open_base) at h) in
            let (a, b) =
              open_set-inl platform parser full master no_base_keys no_base_manifest k m sum q in
            (
              a ∙ ap some same,
              (m, sum, subst (λ z. read_manifest platform parser full z ≡ some (m, sum)) same b, p),
            )
      ]
    ]

module _ (vol : Volume) (platform : Platform) where
  pub extract_from-none :
      (set : SetReader) (keys : SectionKeys) (decide : Bytes → Decision) (r : Restorer) (d : Dest)
      (ts : List TarEntry)
      → AllDone vol platform r d ts
      → IsOf r.target decide
      → (extract_from vol platform set keys decide r d).1 ≡ none
      → let after = (extract_from vol platform set keys decide r d).0 in
        AllDone vol platform after.0 after.1 (ts ++ (set.data_stream keys).entries)
        × IsLater vol platform r after.0
  unfolding extract_from
  extract_from-none set keys decide r d ts all of h =
      let out = extract_section vol platform r d (set.data_stream keys) decide in
      let ok : out.1 ≡ none = pipe_outcome-none out.1 (set.decryption keys out.1) h in
      extract_section-AllDone vol platform decide r out.0.0 d out.0.1 ts (set.data_stream keys) all
        of (ap (λ z. (out.0, z)) ok)
