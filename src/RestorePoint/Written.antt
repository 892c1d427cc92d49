-- ===== src/RestorePoint/Written.antt =====
-- build.go and restorepoint.go: BuildTar and VerifyOwnData.
use restore_safe.Archive.Build.Verified.{build_tar-accepted, own_restorer}
use restore_safe.Archive.Tar.{TarStream}
use restore_safe.Archive.Restore.{Restorer, decide_own, extract_section, finish}
use restore_safe.RestorePoint.Defs.{
  Parser, PointError, SetReader, extract_from, not_finished, open_set, pipe_outcome, read_manifest,
  read_own, verify_own_data,
}
use restore_safe.Base.{
  Bool, Bytes, List, Option, ap, false, inl, inr, none, some, true, ℕ, ◌∙◌, ◌≡◌, ◌⊎◌,
}
use restore_safe.RestorePoint.Listed.{read_manifest-valid}
use restore_safe.Container.Split.Invariant.{stream}
use restore_safe.Archive.Build.{TarBuilder, Visit, build_tar}
use restore_safe.Container.KeySet.{SectionKeys}
use restore_safe.Cryptox.Platform.{Platform}
use restore_safe.Manifest.{Entry, Manifest}
use restore_safe.Archive.Dest.{Dest, Volume}

module _ (vol : Volume) (platform : Platform) (m : Manifest) where
  extract_from-clean :
      (set : SetReader) (keys : SectionKeys) (stream : TarStream) (r s : Restorer) (d : Dest)
      → set.data_stream keys ≡ stream
      → set.decryption keys none ≡ (true, false)
      → extract_section vol platform r d stream (decide_own m) ≡ ((s, d), none)
      → extract_from vol platform set keys (decide_own m) r d ≡ ((s, d), none)
  unfolding extract_from pipe_outcome
  extract_from-clean set keys stream r s d same clean run =
      let run' : extract_section vol platform r d (set.data_stream keys) (decide_own m)
          ≡ ((s, d), none) =
        ap (λ z. extract_section vol platform r d z (decide_own m)) same ∙ run in
      let end : pipe_outcome none (set.decryption keys none) ≡ none =
        ap (pipe_outcome none) clean in
      ap (λ z. (z.0, pipe_outcome z.1 (set.decryption keys z.1))) run' ∙ ap (λ z. ((s, d), z)) end

  -- The end of a reading.
  abbrev after_sections : Restorer × Dest → Dest × (Manifest ⊎ PointError)
  after_sections z =
      let ((r, d), last) = finish vol z.0 z.1 in
      elim last [ some e ↦ (d, inr (not_finished e)) | none ↦ (d, inl m) ]

  read_own-clean :
      (set : SetReader) (keys : SectionKeys) (r s : Restorer) (d : Dest)
      → extract_from vol platform set keys (decide_own m) r d ≡ ((s, d), none)
      → finish vol s d ≡ ((s, d), none)
      → read_own vol platform set keys m r d ≡ (d, inl m)
  unfolding read_own
  read_own-clean set keys r s d run last =
      let ends : (extract_from vol platform set keys (decide_own m) r d).1 ≡ none =
        ap (λ z. z.1) run in
      let finished : (finish vol s d).1 ≡ none = ap (λ z. z.1) last in
      let tail : after_sections (s, d) ≡ (d, inl m) =
        rw (finished, after_sections) (ap (λ z. (z.0.1, inl m)) last) in
      rw (ends, read_own) (ap (λ z. after_sections z.0) run ∙ tail)

module _ (vol : Volume) (platform : Platform) (parser : Parser) (m : Manifest) where
  -- The verification after a backup: where BuildTar of a walk has no error, the manifest lists the
  -- entries that it added, and the set opens with the master key and gives back that manifest, which
  -- ReadManifest accepts, and that TAR stream, with nothing wrong in the decryption, VerifyOwnData
  -- succeeds with the manifest: for a full backup and for a differential, also where files were skipped
  -- or kept in an older version.
  pub verify_own_data-build_tar :
      (skip_unreadable : Bool) (base : Option (List Entry)) (entry_bytes : Bytes → ℕ → ℕ)
      (b : TarBuilder) (visits : List Visit) (d : Dest) (set : SetReader) (master sum : Bytes)
      (keys : SectionKeys)
      → build_tar platform skip_unreadable base entry_bytes visits ≡ (b, none)
      → m.entries ≡ b.listed
      → set.section_keys master ≡ some keys
      → read_manifest platform parser set keys ≡ some (m, sum)
      → set.data_stream keys ≡ record { entries = b.tar; broken = false }
      → set.decryption keys none ≡ (true, false)
      → verify_own_data vol platform parser set master d ≡ (d, inl m)
  unfolding verify_own_data open_set
  verify_own_data-build_tar skip_unreadable base entry_bytes b visits d set master sum keys h listed
        has_keys has_list stream clean =
      let (s, run, last) =
        build_tar-accepted vol platform m parser.to_lower skip_unreadable base entry_bytes b visits
          d h listed (read_manifest-valid platform parser set keys m sum has_list) in
      let read =
        read_own-clean vol platform m set keys (own_restorer vol platform m) s d
          (extract_from-clean vol platform m set keys (record { entries = b.tar; broken = false })
            (own_restorer vol platform m) s d stream clean run)
          last in
      rw (verify_own_data, open_set, has_keys, has_list) read
