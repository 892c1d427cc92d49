-- ===== src/RestorePoint/Complete.antt =====
-- restorepoint.go: the runs of Restore and Verify that succeed.
use restore_safe.RestorePoint.Opened.{
  IsLinked, base_entries, extract_from-none, open_base-inl, open_set-inl,
}
use restore_safe.RestorePoint.Defs.{
  Parser, PointError, SetReader, extract_from, no_keys, no_manifest, open_base, open_set,
  read_manifest, read_own, read_point, read_sections,
}
use restore_safe.Archive.Restore.Section.{AllDone, IsLater, new_restorer-AllDone}
use restore_safe.Archive.Restore.Complete.{finish-IsRestored}
use restore_safe.RestorePoint.Listed.{
  IsBack, IsRestored-IsBack, read_manifest-Distinct, read_manifest-valid,
}
use restore_safe.Manifest.Validate.{validate_manifest}
use restore_safe.Manifest.{Entry, Manifest, is_type, type_file}
use restore_safe.Container.Header.{header_is_diff}
use restore_safe.Archive.Restore.Extracted.{
  IsOf, IsRestored, decide_from_base-IsOf, decide_own-IsOf,
}
use restore_safe.Archive.Restore.{
  Restorer, create_directories, decide_from_base, decide_own, finish, is_required, new_restorer,
}
use restore_safe.Base.{
  Bool, Bool-cases, Bytes, List, Mem, Option, Option-cases, Sum-cases, [], ap, inl, inr, none, refl,
  some, subst, sym, true, ◌++◌, ◌∙◌, ◌≡◌, ◌≢◌,
}
use restore_safe.Archive.Tar.{TarEntry}
use restore_safe.Container.KeySet.{SectionKeys}
use restore_safe.Cryptox.Platform.{Platform}
use restore_safe.Archive.Dest.{Dest, Volume}

module _ (vol : Volume) (platform : Platform) where
  IsRestored-later :
      (r s : Restorer) (d : Dest) (ts : List TarEntry) (p : Bytes)
      → IsLater vol platform r s
      → IsRestored vol platform s.target s.dest_dir s.verify_only d ts p
      → IsRestored vol platform r.target r.dest_dir r.verify_only d ts p
  IsRestored-later r s d ts p (a, b, c, o) x = rw (sym a, sym b, sym c) x

  is_required-later :
      (r s : Restorer) (e : Entry)
      → IsLater vol platform r s
      → is_required r e ≡ true
      → is_required s e ≡ true
  unfolding is_required
  is_required-later r s e (a, b, c, o) h = rw (o, is_required) h

  -- The files that a restore of a manifest has to bring back were restored from TAR entries.
  abbrev pub Restored : Restorer → Manifest → Dest → List TarEntry → Type 0
  Restored r m d ts =
      (e : Entry)
      → Mem e m.entries
      → is_required r e ≡ true
      → IsRestored vol platform m r.dest_dir r.verify_only d ts e.path

  Restored-later :
      (r s : Restorer) (m : Manifest) (d : Dest) (ts : List TarEntry)
      → IsLater vol platform r s
      → Restored s m d ts
      → Restored r m d ts
  Restored-later r s m d ts (a, b, c, o) all e x w =
      rw (sym b, sym c) (all e x (is_required-later r s e (a, b, c, o) w))

  read_own-Restored :
      (set : SetReader) (keys : SectionKeys) (m m' : Manifest) (r : Restorer) (d d' : Dest)
      (ts : List TarEntry)
      → AllDone vol platform r d ts
      → r.target ≡ m
      → read_own vol platform set keys m r d ≡ (d', inl m')
      → (m' ≡ m) × Restored r m d' (ts ++ (set.data_stream keys).entries)
  unfolding read_own
  read_own-Restored set keys m m' r d d' ts all target h =
      let out = extract_from vol platform set keys (decide_own m) r d in
      let last = finish vol out.0.0 out.0.1 in
      elim (Option-cases out.1) [
        | inr (x, q) ↦ absurd (cc (rw (q, read_own) at h))
        | inl q ↦ elim (Option-cases last.1) [
          | inr (x, k) ↦ absurd (cc (rw (q, k, read_own) at h))
          | inl k ↦
              let same : (last.0.1, inl m) ≡ (d', inl m') = rw (q, k, read_own) at h in
              let (done_all, later) =
                extract_from-none vol platform set keys (decide_own m) r d ts all
                  (subst (λ z. IsOf z (decide_own m)) (sym target) (decide_own-IsOf m)) q in
              let (a, b, c, o) = later in
              (
                cc same,
                λ e x w.
                    subst
                      (λ z.
                        IsRestored vol platform m r.dest_dir r.verify_only z
                          (ts ++ (set.data_stream keys).entries) e.path)
                      (ap (λ z. z.0) same)
                      (subst
                        (λ z.
                          IsRestored vol platform z r.dest_dir r.verify_only last.0.1
                            (ts ++ (set.data_stream keys).entries) e.path)
                        target
                        (IsRestored-later r out.0.0 last.0.1 (ts ++ (set.data_stream keys).entries)
                          e.path later
                          (finish-IsRestored vol platform out.0.0 last.0.0 out.0.1 last.0.1
                            (ts ++ (set.data_stream keys).entries) e done_all
                            (ap (λ z. (last.0, z)) k)
                            (subst (λ z. Mem e z.entries) (sym (a ∙ target)) x)
                            (is_required-later r out.0.0 e later w)))),
              )
        ]
      ]

  read_sections-Restored :
      (set : SetReader) (keys : SectionKeys) (m m' : Manifest)
      (base : Option (SetReader × SectionKeys)) (dest_dir : Bytes) (verify_only : Bool)
      (d d' : Dest)
      → read_sections vol platform set keys m base (new_restorer m dest_dir verify_only) d
        ≡ (d', inl m')
      → (m' ≡ m)
        × Restored
            (new_restorer m dest_dir verify_only)
            m
            d'
            (base_entries base ++ (set.data_stream keys).entries)
  unfolding read_sections base_entries
  read_sections-Restored set keys m m' none dest_dir verify_only d d' h =
      let r = new_restorer m dest_dir verify_only in
      let made = create_directories vol r d in
      elim (Option-cases made.1) [
        | inr (x, q) ↦ absurd (cc (rw (q, read_sections) at h))
        | inl q ↦
            read_own-Restored set keys m m' r made.0 d' []
              (new_restorer-AllDone vol platform m dest_dir verify_only made.0) refl
              (rw (q, read_sections) at h)
      ]
  read_sections-Restored set keys m m' (some (full, base_keys)) dest_dir verify_only d d' h =
      let r = new_restorer m dest_dir verify_only in
      let made = create_directories vol r d in
      let out = extract_from vol platform full base_keys (decide_from_base m) r made.0 in
      elim (Option-cases made.1) [
        | inr (x, q) ↦ absurd (cc (rw (q, read_sections) at h))
        | inl q ↦ elim (Option-cases out.1) [
          | inr (x, k) ↦ absurd (cc (rw (q, k, read_sections) at h))
          | inl k ↦
              let (done_all, later) =
                extract_from-none vol platform full base_keys (decide_from_base m) r made.0 []
                  (new_restorer-AllDone vol platform m dest_dir verify_only made.0)
                  (decide_from_base-IsOf m) k in
              let (a, b, c, o) = later in
              let (same, all) =
                read_own-Restored set keys m m' out.0.0 out.0.1 d'
                  (full.data_stream base_keys).entries done_all a (rw (q, k, read_sections) at h) in
              (
                same,
                Restored-later r out.0.0 m d'
                    ((full.data_stream base_keys).entries ++ (set.data_stream keys).entries) later
                    all,
              )
        ]
      ]

  is_required-file :
      (m : Manifest) (dest_dir : Bytes) (verify_only : Bool) (e : Entry)
      → is_type type_file e ≡ true
      → is_required (new_restorer m dest_dir verify_only) e ≡ true
  unfolding is_required
  is_required-file m dest_dir verify_only e h = rw (h, is_required) refl

module _ (vol : Volume) (platform : Platform) (parser : Parser) where
  read_point-run :
      (set : SetReader) (base : Option SetReader) (master dest_dir : Bytes) (verify_only : Bool)
      (d d' : Dest) (keys : SectionKeys) (m m' : Manifest) (sum : Bytes)
      → open_set platform parser set master no_keys no_manifest ≡ inl (keys, (m', sum))
      → read_point vol platform parser set base master dest_dir verify_only d ≡ (d', inl m)
      → (linked : Option (SetReader × SectionKeys)) × IsLinked platform parser set base master
          linked
        × (read_sections vol platform set keys m' linked (new_restorer m' dest_dir verify_only) d
            ≡ (d', inl m))
  unfolding read_point
  read_point-run set none master dest_dir verify_only d d' keys m m' sum q h =
      elim (Bool-cases (header_is_diff set.header)) [
        | inl y ↦ absurd (cc (rw (y, read_point) at h))
        | inr n ↦ (none, n, rw (n, q, read_point) at h)
      ]
  read_point-run set (some full) master dest_dir verify_only d d' keys m m' sum q h =
      elim (Bool-cases (header_is_diff set.header)) [
        | inr n ↦ (none, n, rw (n, q, read_point) at h)
        | inl y ↦ elim (Sum-cases (open_base platform parser set full master)) [
          | inr (x, k) ↦ absurd (cc (rw (y, q, k, read_point) at h))
          | inl (base_keys, k) ↦
              let (a, b) = open_base-inl platform parser set full master base_keys k in
              (some (full, base_keys), (y, refl, a, b), rw (y, q, k, read_point) at h)
        ]
      ]

  read_point-closed :
      (set : SetReader) (base : Option SetReader) (master dest_dir : Bytes) (verify_only : Bool)
      (d d' : Dest) (m : Manifest) (x : PointError)
      → open_set platform parser set master no_keys no_manifest ≡ inr x
      → read_point vol platform parser set base master dest_dir verify_only d ≢ (d', inl m)
  unfolding read_point
  read_point-closed set none master dest_dir verify_only d d' m x q h =
      elim (Bool-cases (header_is_diff set.header)) [
        | inl y ↦ cc (rw (y, read_point) at h)
        | inr n ↦ cc (rw (n, q, read_point) at h)
      ]
  read_point-closed set (some full) master dest_dir verify_only d d' m x q h =
      elim (Bool-cases (header_is_diff set.header)) [
        | inl y ↦ cc (rw (y, q, read_point) at h)
        | inr n ↦ cc (rw (n, q, read_point) at h)
      ]

  -- Where Restore or Verify succeeds, it returns the manifest that the set's own keys open, which
  -- Validate accepts. Every file that it lists was restored from an entry of the set's data or, for a
  -- differential, of the data of its full backup: the entry has the listed path and the listed size, it
  -- could be read to its end, and its content has the listed hash. Unless files are only verified, a
  -- file at the path's place in the destination has that content. The full backup of a differential is
  -- the one that it links to.
  pub read_point-Restored :
      (set : SetReader) (base : Option SetReader) (master dest_dir : Bytes) (verify_only : Bool)
      (d d' : Dest) (m : Manifest)
      → read_point vol platform parser set base master dest_dir verify_only d ≡ (d', inl m)
      → (keys : SectionKeys) × (sum : Bytes) × (linked : Option (SetReader × SectionKeys))
        × (set.section_keys master ≡ some keys)
        × (read_manifest platform parser set keys ≡ some (m, sum))
        × (validate_manifest parser.to_lower m ≡ none)
        × IsLinked platform parser set base master linked
        × ((e : Entry)
            → Mem e m.entries
            → is_type type_file e ≡ true
            → IsBack vol platform e dest_dir verify_only d'
                (base_entries linked ++ (set.data_stream keys).entries))
  unfolding read_point
  read_point-Restored set base master dest_dir verify_only d d' m h =
      elim (Sum-cases (open_set platform parser set master no_keys no_manifest)) [
        | inr (x, q) ↦ absurd (read_point-closed set base master dest_dir verify_only d d' m x q h)
        | inl ((keys, (m', sum)), q) ↦
            let (has_keys, has_list) =
              open_set-inl platform parser set master no_keys no_manifest keys m' sum q in
            let (linked, link, run) =
              read_point-run set base master dest_dir verify_only d d' keys m m' sum q h in
            let (same, all) =
              read_sections-Restored vol platform set keys m' m linked dest_dir verify_only d d'
                run in
            let list : read_manifest platform parser set keys ≡ some (m, sum) =
              subst (λ z. read_manifest platform parser set keys ≡ some (z, sum)) (sym same)
                has_list in
            let distinct = read_manifest-Distinct platform parser set keys m sum list in
            (
              keys,
              sum,
              linked,
              has_keys,
              list,
              read_manifest-valid platform parser set keys m sum list,
              link,
              λ e x w.
                  IsRestored-IsBack vol platform m dest_dir verify_only d'
                    (base_entries linked ++ (set.data_stream keys).entries) e distinct x
                    (subst
                      (λ z.
                        IsRestored vol platform z dest_dir verify_only d'
                          (base_entries linked ++ (set.data_stream keys).entries) e.path)
                      (sym same)
                      (all e (subst (λ z. Mem e z.entries) same x)
                        (is_required-file vol platform m' dest_dir verify_only e w))),
            )
      ]
