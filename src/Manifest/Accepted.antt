-- ===== src/Manifest/Accepted.antt =====
-- manifest.go: Validate, entry by entry.
use restore_safe.Manifest.Validate.{
  check_entries, check_entry, find_folded, has_dir, set_type_of, validate_entry, validate_manifest,
}
use restore_safe.Base.{
  Bool, Bool-cases, Bytes, List, Mem, Mem-append, Mem-append_left, Mem-append_right, Mem-here,
  Option-cases, Sum-cases, [], ap, append-nil, append_assoc, arith, if◌then◌else◌, inl, inr, none,
  not, subst, sym, text_eq, text_eq_iff, true, ◌&&◌, ◌++◌, ◌∙◌, ◌∷◌, ◌≡◌, ◌≢◌, ◌⊎◌,
}
use restore_safe.Manifest.Path.{dot, path_dir, validate_path}
use restore_safe.Manifest.Defs.{Entry, Manifest, is_type, type_dir}

-- Whether an entry's parent is the top or a directory of the list.
abbrev pub HasParent : Entry → List Entry → Type 0
HasParent e pre =
    (path_dir e.path ≡ dot)
    ⊎ ((d : Entry) × Mem d pre × (d.path ≡ path_dir e.path) × (is_type type_dir d ≡ true))

module _ (to_lower : Bytes → Bytes) where
  -- What the loop has seen stands in the maps.
  abbrev SeenAre : List (Bytes × Bytes) → List Entry → Type 0
  SeenAre seen pre = (e : Entry) → Mem e pre → find_folded (to_lower e.path) seen ≢ none

  abbrev DirsAre : List Bytes → List Entry → Type 0
  DirsAre dirs pre =
      (p : Bytes)
      → has_dir p dirs ≡ true
      → (d : Entry) × Mem d pre × (d.path ≡ p) × (is_type type_dir d ≡ true)

  -- The conditions on an entry behind `pre`.
  pub record IsPlaced (is_diff : Bool) (pre : List Entry) (e : Entry) : Type 0 where
    pub path_valid : validate_path e.path ≡ none
    pub path_new : (other : Entry) → Mem other pre → to_lower other.path ≢ to_lower e.path
    pub has_parent : HasParent e pre
    pub entry_valid : validate_entry e is_diff ≡ none

  check_entry-IsPlaced :
      (seen : List (Bytes × Bytes)) (dirs : List Bytes) (is_diff : Bool) (pre : List Entry)
      (e : Entry)
      → SeenAre seen pre
      → DirsAre dirs pre
      → check_entry to_lower seen dirs is_diff e ≡ none
      → IsPlaced is_diff pre e
  unfolding check_entry
  check_entry-IsPlaced seen dirs is_diff pre e s d h = elim (Option-cases (validate_path e.path)) [
    | inr (x, v) ↦ absurd (cc (rw (v, check_entry) at h))
    | inl v ↦ elim (Option-cases (find_folded (to_lower e.path) seen)) [
      | inr (x, f) ↦ elim (Bool-cases (text_eq x e.path)) [
        | inl q ↦ absurd (cc (rw (v, f, q, check_entry) at h))
        | inr q ↦ absurd (cc (rw (v, f, q, check_entry) at h))
      ]
      | inl f ↦
          elim (Bool-cases
            (not (text_eq (path_dir e.path) dot) && not (has_dir (path_dir e.path) dirs))) [
              | inl p ↦ absurd (cc (rw (v, f, p, check_entry) at h))
              | inr p ↦ elim (Option-cases (validate_entry e is_diff)) [
                | inr (x, w) ↦ absurd (cc (rw (v, f, p, w, check_entry) at h))
                | inl w ↦ record {
                  path_valid = v;
                  path_new = λ other m q. s other m (ap (λ x. find_folded x seen) q ∙ f);
                  has_parent = elim (Bool-cases (text_eq (path_dir e.path) dot)) [
                    | inl q ↦ inl ((text_eq_iff (path_dir e.path) dot).0 q)
                    | inr q ↦ inr (d (path_dir e.path) (ground arith))
                  ];
                  entry_valid = w;
                }
              ]
            ]
    ]
  ]

  SeenAre-next :
      (seen : List (Bytes × Bytes)) (pre : List Entry) (e : Entry)
      → SeenAre seen pre
      → SeenAre ((to_lower e.path, e.path) ∷ seen) (pre ++ e ∷ [])
  unfolding find_folded Mem
  SeenAre-next seen pre e s other m q =
      elim (Bool-cases (text_eq (to_lower e.path) (to_lower other.path))) [
        | inl y ↦ absurd (cc (rw (y, find_folded) at q))
        | inr y ↦ elim (Mem-append other pre (e ∷ []) m) [
          | inl a ↦ s other a (rw (y, find_folded) at q)
          | inr (inl x) ↦ absurd (
              cc (
                y,
                (text_eq_iff (to_lower e.path) (to_lower other.path)).1
                    (ap (λ z. to_lower z.path) (sym x)),
              ))
          | inr (inr x) ↦ absurd x
        ]
      ]

  DirsAre-next :
      (dirs : List Bytes) (pre : List Entry) (e : Entry)
      → DirsAre dirs pre
      → DirsAre (if is_type type_dir e then e.path ∷ dirs else dirs) (pre ++ e ∷ [])
  unfolding has_dir
  DirsAre-next dirs pre e d p h =
      let old : has_dir p dirs ≡ true
          → (x : Entry) × Mem x (pre ++ e ∷ []) × (x.path ≡ p) × (is_type type_dir x ≡ true) =
        λ k. (let (x, m, q, t) = d p k in (x, Mem-append_left x pre (e ∷ []) m, q, t)) in
      elim (Bool-cases (is_type type_dir e)) [
        | inr n ↦ old (rw n at h)
        | inl y ↦ elim (Bool-cases (text_eq e.path p)) [
          | inl q ↦
              (e, Mem-append_right e pre (e ∷ []) (Mem-here e []), (text_eq_iff e.path p).0 q, y)
          | inr q ↦ old (rw (q, has_dir) at (rw y at h))
        ]
      ]

  check_entries-IsPlaced :
      (seen : List (Bytes × Bytes)) (dirs : List Bytes) (is_diff : Bool) (before pre : List Entry)
      (e : Entry) (post : List Entry)
      → SeenAre seen before
      → DirsAre dirs before
      → check_entries to_lower seen dirs is_diff (pre ++ e ∷ post) ≡ none
      → IsPlaced is_diff (before ++ pre) e
  unfolding check_entries
  check_entries-IsPlaced seen dirs is_diff before [] e post s d h =
      elim (Option-cases (check_entry to_lower seen dirs is_diff e)) [
        | inr (x, q) ↦ absurd (cc (rw (q, check_entries) at h))
        | inl q ↦ rw (append-nil before) (check_entry-IsPlaced seen dirs is_diff before e s d q)
      ]
  check_entries-IsPlaced seen dirs is_diff before (a ∷ pre) e post s d h =
      elim (Option-cases (check_entry to_lower seen dirs is_diff a)) [
        | inr (x, q) ↦ absurd (cc (rw (q, check_entries) at h))
        | inl q ↦
            subst (λ x. IsPlaced is_diff x e) (append_assoc before (a ∷ []) pre)
              (check_entries-IsPlaced ((to_lower a.path, a.path) ∷ seen)
                (if is_type type_dir a then a.path ∷ dirs else dirs) is_diff (before ++ a ∷ []) pre
                e post (SeenAre-next seen before a s) (DirsAre-next dirs before a d)
                (rw (q, check_entries) at h))
      ]

  nothing : (x : Entry) → ¬ Mem x []
  unfolding Mem
  nothing x h = h

  no_dir : (p : Bytes) → has_dir p [] ≢ true
  unfolding has_dir
  no_dir p h = cc h

  pub validate_manifest-check_entries :
      (m : Manifest)
      → validate_manifest to_lower m ≡ none
      → (is_diff : Bool) × (check_entries to_lower [] [] is_diff m.entries ≡ none)
  unfolding validate_manifest
  validate_manifest-check_entries m h = elim (Sum-cases (set_type_of m.header)) [
    | inr (x, q) ↦ absurd (ground arith)
    | inl (is_diff, q) ↦ (is_diff, ground arith)
  ]

  -- In a manifest that Validate accepts, every entry has a path that ValidatePath accepts, which no
  -- entry before it has, not even in another case; its parent directory stands before it, if it has
  -- one; and its fields are as validateEntry asks of a full or of a differential backup.
  pub validate_manifest-IsPlaced :
      (m : Manifest) (pre : List Entry) (e : Entry) (post : List Entry)
      → validate_manifest to_lower m ≡ none
      → m.entries ≡ pre ++ e ∷ post
      → (is_diff : Bool) × IsPlaced is_diff pre e
  unfolding validate_manifest
  validate_manifest-IsPlaced m pre e post h q =
      let (is_diff, accepted) = validate_manifest-check_entries m h in
      (
        is_diff,
        check_entries-IsPlaced [] [] is_diff [] pre e post (λ x y. absurd (nothing x y))
            (λ p y. absurd (no_dir p y))
            (subst (λ x. check_entries to_lower [] [] is_diff x ≡ none) q accepted),
      )
