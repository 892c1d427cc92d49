-- ===== src/Manifest/Totals.antt =====
-- manifest.go: Validate and the footer.
use restore_safe.Manifest.Defs.{
  Entry, Footer, Manifest, compute_footer, count_entries, count_entry, is_type, no_counts, type_dir,
  type_file, type_skipped,
}
use restore_safe.Container.KeySet.Validate.{bool_eq}
use restore_safe.Manifest.Accepted.{validate_manifest-check_entries}
use restore_safe.Base.{
  Bool, Bool-cases, Bytes, List, Option-cases, Sum-cases, [], arith, false, if◌then◌else◌, inl, inr,
  length, none, not-true, refl, sym, true, ℕ, ◌+◌, ◌∙◌, ◌∷◌, ◌≡◌, ◌≤◌, ◌⊎◌,
}
use restore_safe.Manifest.Validate.{
  check_entries, check_entry, footer_eq, set_type_of, validate_entry, validate_manifest,
}

-- The entries that a footer has counted.
abbrev counted : Footer → ℕ
counted f = f.file_count + f.dir_count + f.skipped_count

bool_eq-true : (a b : Bool) → bool_eq a b ≡ true → a ≡ b
bool_eq-true true b h = sym h
bool_eq-true false b h = sym (not-true b h)

footer_eq-fields :
    (f g : Footer)
    → footer_eq f g ≡ true
    → (f.is_end ≡ g.is_end)
      × (f.entry_count ≡ g.entry_count)
      × (f.file_count ≡ g.file_count)
      × (f.dir_count ≡ g.dir_count)
      × (f.skipped_count ≡ g.skipped_count)
      × (f.stale_count ≡ g.stale_count)
unfolding footer_eq
footer_eq-fields f g h = (
  bool_eq-true f.is_end g.is_end (ground arith),
  ground arith,
  ground arith,
  ground arith,
  ground arith,
  ground arith,
)

entry-type :
    (e : Entry) (is_diff : Bool)
    → validate_entry e is_diff ≡ none
    → (is_type type_file e ≡ true) ⊎ (is_type type_dir e ≡ true) ⊎ (is_type type_skipped e ≡ true)
unfolding validate_entry
entry-type e is_diff h = elim (Bool-cases (is_type type_file e)) [
  | inl a ↦ inl a
  | inr a ↦ elim (Bool-cases (is_type type_dir e)) [
    | inl b ↦ inr (inl b)
    | inr b ↦ elim (Bool-cases (is_type type_skipped e)) [
      | inl c ↦ inr (inr c)
      | inr c ↦ absurd (ground arith)
    ]
  ]
]

count_entry-counted :
    (f : Footer) (e : Entry)
    → (is_type type_file e ≡ true) ⊎ (is_type type_dir e ≡ true) ⊎ (is_type type_skipped e ≡ true)
    → f.stale_count ≤ f.file_count
    → let g = count_entry f e in
      (counted g ≡ counted f + 1)
      × (g.stale_count ≤ g.file_count)
      × (g.entry_count ≡ f.entry_count)
      × (g.is_end ≡ f.is_end)
unfolding count_entry
count_entry-counted f e h s = ground arith

module _ (to_lower : Bytes → Bytes) where
  check_entry-type :
      (seen : List (Bytes × Bytes)) (dirs : List Bytes) (is_diff : Bool) (e : Entry)
      → check_entry to_lower seen dirs is_diff e ≡ none
      → validate_entry e is_diff ≡ none
  unfolding check_entry
  check_entry-type seen dirs is_diff e h = ground arith

  count_entries-counted :
      (seen : List (Bytes × Bytes)) (dirs : List Bytes) (is_diff : Bool) (f : Footer)
      (es : List Entry)
      → check_entries to_lower seen dirs is_diff es ≡ none
      → f.stale_count ≤ f.file_count
      → let g = count_entries f es in
        (counted g ≡ counted f + length es)
        × (g.stale_count ≤ g.file_count)
        × (g.entry_count ≡ f.entry_count)
        × (g.is_end ≡ f.is_end)
  unfolding check_entries count_entries
  count_entries-counted seen dirs is_diff f [] h s = (omega arith, s, refl, refl)
  count_entries-counted seen dirs is_diff f (e ∷ es) h s =
      elim (Option-cases (check_entry to_lower seen dirs is_diff e)) [
        | inr (x, q) ↦ absurd (cc (rw (q, check_entries) at h))
        | inl q ↦
            let (a, b, c, d) =
              count_entry-counted f e
                (entry-type e is_diff (check_entry-type seen dirs is_diff e q)) s in
            let (a', b', c', d') =
              count_entries-counted ((to_lower e.path, e.path) ∷ seen)
                (if is_type type_dir e then e.path ∷ dirs else dirs) is_diff (count_entry f e) es
                (rw (q, check_entries) at h) b in
            (omega arith, b', c' ∙ c, d' ∙ d)
      ]

  validate_manifest-footer_eq :
      (m : Manifest)
      → validate_manifest to_lower m ≡ none
      → footer_eq m.footer (compute_footer m.entries) ≡ true
  unfolding validate_manifest
  validate_manifest-footer_eq m h = elim (Sum-cases (set_type_of m.header)) [
    | inr (x, q) ↦ absurd (ground arith)
    | inl (is_diff, q) ↦ ground arith
  ]

  -- The footer of a manifest that Validate accepts marks the end and counts every entry, and each once:
  -- its files, directories and skipped files are together as many as its entries, which are those of
  -- the manifest, and the stale files are not more than the files.
  pub validate_manifest-counted :
      (m : Manifest)
      → validate_manifest to_lower m ≡ none
      → (m.footer.is_end ≡ true)
        × (m.footer.entry_count ≡ length m.entries)
        × (m.footer.file_count + m.footer.dir_count + m.footer.skipped_count ≡ length m.entries)
        × (m.footer.stale_count ≤ m.footer.file_count)
  unfolding compute_footer
  validate_manifest-counted m h =
      let (is_diff, accepted) = validate_manifest-check_entries to_lower m h in
      let (a, b, c, d) =
        count_entries-counted [] [] is_diff (no_counts m.entries) m.entries accepted
          (omega arith) in
      let (x, y, z, u, v, w) =
        footer_eq-fields m.footer (compute_footer m.entries) (validate_manifest-footer_eq m h) in
      (x ∙ d, y ∙ c, omega (arith, z, u, v, a), omega (arith, z, w, b))
