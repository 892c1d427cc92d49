-- ===== src/Archive/Restore/Complete.antt =====
-- restore.go: Finish.
use restore_safe.Archive.Restore.Extracted.{IsRestored, set_metadata-files}
use restore_safe.Archive.Restore.Defs.{
  Restorer, deepest_first, finish, finish_directories, is_required, missing_files, set_metadata,
  target_path,
}
use restore_safe.Archive.Restore.Section.{AllDone, IsRestored-grows}
use restore_safe.Catalog.{complete}
use restore_safe.Archive.Tar.{TarEntry}
use restore_safe.Manifest.{Entry}
use restore_safe.Base.{
  Bool-cases, List, Mem, Option-cases, Sum-cases, [], arith, false, inl, inr, none, refl, subst,
  sym, true, ◌∙◌, ◌∷◌, ◌≡◌,
}
use restore_safe.Cryptox.Platform.{Platform}
use restore_safe.Archive.Dest.{Dest, Volume, has_path}

module _ (vol : Volume) (platform : Platform) where
  missing_files-nil :
      (r : Restorer) (es : List Entry) (e : Entry)
      → missing_files r es ≡ []
      → Mem e es
      → is_required r e ≡ true
      → has_path e.path r.done ≡ true
  unfolding missing_files Mem
  missing_files-nil r [] e h m q = absurd m
  missing_files-nil r (x ∷ xs) e h (inl same) q = elim (Bool-cases (has_path e.path r.done)) [
    | inl y ↦ y
    | inr n ↦
        let q' : is_required r x ≡ true = subst (λ z. is_required r z ≡ true) same q in
        let n' : has_path x.path r.done ≡ false =
          subst (λ z. has_path z.path r.done ≡ false) same n in
        absurd (ground arith)
  ]
  missing_files-nil r (x ∷ xs) e h (inr m) q = missing_files-nil r xs e (ground arith) m q

  finish_directories-files :
      (r : Restorer) (d : Dest) (es : List Entry)
      → (finish_directories vol r d es).0.files ≡ d.files
  unfolding finish_directories
  finish_directories-files r d [] = refl
  finish_directories-files r d (e ∷ es) = elim (Sum-cases (target_path vol r.dest_dir e.path)) [
    | inr (x, q) ↦ rw (q, finish_directories) refl
    | inl (p, q) ↦
        let d' = (set_metadata vol d p e).0 in
        let here : d'.files ≡ d.files = set_metadata-files vol platform d p e in
        elim (Option-cases (set_metadata vol d p e).1) [
          | inr (x, k) ↦ rw (q, k, finish_directories) here
          | inl k ↦ rw (q, k, finish_directories) (finish_directories-files r d' es ∙ here)
        ]
  ]

  pub finish-none :
      (r r' : Restorer) (d d' : Dest)
      → finish vol r d ≡ ((r', d'), none)
      → (missing_files r r.target.entries ≡ []) × (r' ≡ r) × (d'.files ≡ d.files)
  unfolding finish
  finish-none r r' d d' h =
      let kept = finish_directories-files r d (deepest_first r.target.entries) in
      elim (Bool-cases r.verify_only) [
        | inl v ↦ (ground arith, ground arith, ground arith)
        | inr v ↦ (ground arith, ground arith, ground arith)
      ]

  -- What Finish requires of the target was restored.
  pub finish-IsRestored :
      (r r' : Restorer) (d d' : Dest) (ts : List TarEntry) (e : Entry)
      → AllDone vol platform r d ts
      → finish vol r d ≡ ((r', d'), none)
      → Mem e r.target.entries
      → is_required r e ≡ true
      → IsRestored vol platform r.target r.dest_dir r.verify_only d' ts e.path
  finish-IsRestored r r' d d' ts e all h m q =
      let (complete, same, files) = finish-none r r' d d' h in
      IsRestored-grows vol platform r d d' ts ts e.path (λ x y. subst (λ z. Mem x z) (sym files) y)
        (λ x y. y) (all e.path (missing_files-nil r r.target.entries e complete m q))
