-- ===== src/Archive/Build/Verified.antt =====
-- build.go and restore.go: BuildTar, read by a Restorer of the set's own files.
use restore_safe.Archive.Build.Paths.{Distinct, entry_at-Distinct, validate_manifest-Distinct}
use restore_safe.Archive.Restore.{
  Decision, Restorer, check_hash, decide_own, entry_at, expect_own_content_only, extract,
  extract_entries, extract_entry, extract_file, extract_round, extract_section, finish, is_required,
  missing_files, new_restorer, read_past,
}
use restore_safe.Archive.Build.Walks.{build_tar-IsLogged}
use restore_safe.Archive.Build.Data.{TarBuilder, Visit}
use restore_safe.Archive.Build.Defs.{build_tar}
use restore_safe.Archive.Build.Logged.{ArePairs, IsPair, Log, entries_of, tars_of}
use restore_safe.Base.{
  ==_iff, Bool, Bool-cases, Bytes, List, Mem, Option, [], and-true, ap, arith, false, inl, inr,
  none, refl, some, subst, sym, text_eq, text_eq_iff, true, ℕ, ◌==◌, ◌||◌, ◌∙◌, ◌∷◌, ◌≡◌, ◌≢◌,
}
use restore_safe.Manifest.Validate.{validate_manifest}
use restore_safe.Archive.Tar.{TarEntry}
use restore_safe.Cryptox.Platform.{Platform}
use restore_safe.Manifest.{Entry, Manifest, has_content_in_set, is_some, is_type, type_file}
use restore_safe.Archive.Dest.{Dest, Volume, has_path}

differ : (a b : Bytes) → a ≢ b → text_eq a b ≡ false
differ a b h = elim (Bool-cases (text_eq a b)) [
  | inl y ↦ absurd (h ((text_eq_iff a b).0 y))
  | inr n ↦ n
]

or_true : (a : Bool) → (a || true) ≡ true
or_true true = refl
or_true false = refl

module _ (vol : Volume) (platform : Platform) (m : Manifest) where
  -- A restorer that verifies.
  abbrev IsVerifying : Restorer → Restorer → Type 0
  IsVerifying r s = (s.verify_only ≡ true) × (s.own_only ≡ r.own_only) × (s.target ≡ r.target)

  extract_file-verified :
      (r : Restorer) (d : Dest) (e : Entry) (t : TarEntry)
      → r.verify_only ≡ true
      → t.content_broken ≡ false
      → check_hash platform e t.content ≡ none
      → extract_file vol platform r d t e ≡ (d, none)
  unfolding extract_file
  extract_file-verified r d e t v readable hash = rw (v, readable, hash, extract_file) refl

  extract_entries-nil :
      (r : Restorer) (d : Dest)
      → extract_entries vol platform (decide_own m) false r d [] ≡ ((r, d), none)
  unfolding extract_entries
  extract_entries-nil r d = refl

  extract_entries-next :
      (decide : Bytes → Decision) (r s : Restorer) (d : Dest) (t : TarEntry) (ts : List TarEntry)
      → t.is_regular ≡ true
      → extract_round vol platform r d t (decide t.name) ≡ ((s, d), none)
      → extract_entries vol platform decide false r d (t ∷ ts)
        ≡ extract_entries vol platform decide false s d ts
  unfolding extract_entries
  extract_entries-next decide r s d t ts regular one =
      let ends : (extract_round vol platform r d t (decide t.name)).1 ≡ none = ap (λ z. z.1) one in
      rw (regular, ends, extract_entries)
        (ap (λ z. extract_entries vol platform decide false z.0.0 z.0.1 ts) one)

  read_past-next :
      (r : Restorer) (d : Dest) (t : TarEntry)
      → t.content_broken ≡ false
      → extract_round vol platform r d t read_past ≡ ((r, d), none)
  unfolding extract_round
  read_past-next r d t readable = rw (readable, extract_round) refl

  extract-next :
      (r : Restorer) (d : Dest) (t : TarEntry) (e : Entry)
      → extract_round vol platform r d t (extract e) ≡ extract_entry vol platform r d t e
  unfolding extract_round
  extract-next r d t e = refl

  extract_entry-stored :
      (r : Restorer) (d : Dest) (e : Entry) (t : TarEntry)
      → r.verify_only ≡ true
      → IsPair platform e t
      → has_content_in_set e ≡ true
      → t.size ≡ e.size
      → check_hash platform e t.content ≡ none
      → has_path e.path r.done ≡ false
      → extract_entry vol platform r d t e ≡ ((record r { done = e.path ∷ r.done }, d), none)
  unfolding extract_entry has_content_in_set
  extract_entry-stored r d e t v pair has size hash fresh =
      let (regular, whole_entry) = pair.is_whole in
      let file : is_type type_file e ≡ true =
        (and-true (is_type type_file e) (is_some e.offset) has).0 in
      let same : text_eq e.path t.name ≡ true =
        (text_eq_iff e.path t.name).1 (sym pair.same_path) in
      let equal : (t.size == e.size) ≡ true = (==_iff t.size e.size).1 size in
      let done = extract_file-verified r d e t v whole_entry hash in
      let ends : (extract_file vol platform r d t e).1 ≡ none = ap (λ z. z.1) done in
      rw (ends, file, same, fresh, equal, extract_entry)
        (ap (λ z. ((record r { done = e.path ∷ r.done }, z.0), none)) done)

  decide_own-stored :
      (e : Entry) (t : TarEntry)
      → Distinct m.entries
      → Mem e m.entries
      → IsPair platform e t
      → has_content_in_set e ≡ true
      → decide_own m t.name ≡ extract e
  unfolding decide_own
  decide_own-stored e t distinct known pair has =
      let found : entry_at t.name m.entries ≡ some e =
        ap (λ z. entry_at z m.entries) pair.same_path
        ∙ entry_at-Distinct e m.entries distinct known in
      rw (found, has, decide_own) refl

  decide_own-void :
      (e : Entry) (t : TarEntry)
      → Distinct m.entries
      → Mem e m.entries
      → IsPair platform e t
      → has_content_in_set e ≡ false
      → e.void ≡ true
      → decide_own m t.name ≡ read_past
  unfolding decide_own
  decide_own-void e t distinct known pair has void =
      let found : entry_at t.name m.entries ≡ some e =
        ap (λ z. entry_at z m.entries) pair.same_path
        ∙ entry_at-Distinct e m.entries distinct known in
      rw (found, has, void, decide_own) refl

  -- The entries of a log are extracted or read past, one after the other, and the files stored are done.
  extract_entries-log :
      (r : Restorer) (d : Dest) (ls : Log)
      → Distinct m.entries
      → Distinct (entries_of ls)
      → ((e : Entry) → Mem e (entries_of ls) → Mem e m.entries)
      → ArePairs platform ls
      → r.verify_only ≡ true
      → ((e : Entry) → Mem e (entries_of ls) → has_path e.path r.done ≡ false)
      → (s : Restorer) × (extract_entries vol platform (decide_own m) false r d (tars_of ls)
          ≡ ((s, d), none))
        × IsVerifying r s
        × ((p : Bytes) → has_path p r.done ≡ true → has_path p s.done ≡ true)
        × ((e : Entry)
            → Mem e (entries_of ls)
            → has_content_in_set e ≡ true
            → has_path e.path s.done ≡ true)
  unfolding entries_of tars_of Mem has_path
  extract_entries-log r d [] dm dl known pairs v fresh =
      (r, extract_entries-nil r d, (v, refl, refl), λ p h. h, λ e x. absurd x)
  extract_entries-log r d ((e, none) ∷ ls) dm (other, dl) known (empty, pairs) v fresh =
      let (s, run, ver, more, all) =
        extract_entries-log r d ls dm dl (λ x n. known x (inr n)) pairs v
          (λ x n. fresh x (inr n)) in
      (
        s,
        run,
        ver,
        more,
        λ x n c. elim n [
          | inl q ↦ absurd (cc (subst (λ z. has_content_in_set z ≡ true) q c, empty))
          | inr n' ↦ all x n' c
        ],
      )
  extract_entries-log r d ((e, some t) ∷ ls) dm (other, dl) known (pair, pairs) v fresh =
      let (regular, readable) = pair.is_whole in
      elim pair.stored_or_void [
        | inl (has, size, hash) ↦
            let next : Restorer = record r { done = e.path ∷ r.done } in
            let one = extract_entry-stored r d e t v pair has size hash (fresh e (inl refl)) in
            let (s, run, (a, b, c), more, all) =
              extract_entries-log next d ls dm dl (λ x n. known x (inr n)) pairs v
                (λ x n.
                  rw (differ e.path x.path (λ z. other x n (sym z)), fresh x (inr n), has_path)
                    refl) in
            (
              s,
              extract_entries-next (decide_own m) r next d t (tars_of ls) regular (
                    ap (extract_round vol platform r d t)
                      (decide_own-stored e t dm (known e (inl refl)) pair has)
                    ∙ (extract-next r d t e ∙ one))
                  ∙ run,
              (a, b, c),
              λ p h. more p (rw (h, has_path) (or_true (text_eq e.path p))),
              λ x n k. elim n [
                | inl q ↦
                    more x.path
                      (rw ((text_eq_iff e.path x.path).1 (ap (λ z. z.path) (sym q)), has_path) refl)
                | inr n' ↦ all x n' k
              ],
            )
        | inr (empty, void) ↦
            let (s, run, ver, more, all) =
              extract_entries-log r d ls dm dl (λ x n. known x (inr n)) pairs v
                (λ x n. fresh x (inr n)) in
            (
              s,
              extract_entries-next (decide_own m) r r d t (tars_of ls) regular (
                    ap (extract_round vol platform r d t)
                      (decide_own-void e t dm (known e (inl refl)) pair empty void)
                    ∙ read_past-next r d t readable)
                  ∙ run,
              ver,
              more,
              λ x n c. elim n [
                | inl q ↦ absurd (cc (subst (λ z. has_content_in_set z ≡ true) q c, empty))
                | inr n' ↦ all x n' c
              ],
            )
      ]

  missing_files-all :
      (r : Restorer) (es : List Entry)
      → ((e : Entry) → Mem e es → is_required r e ≡ true → has_path e.path r.done ≡ true)
      → missing_files r es ≡ []
  unfolding missing_files Mem
  missing_files-all r [] h = refl
  missing_files-all r (e ∷ es) h =
      let rest = missing_files-all r es (λ x n. h x (inr n)) in
      elim (Bool-cases (is_required r e)) [
        | inl q ↦ rw (rest, q, h e (inl refl) q, missing_files) refl
        | inr q ↦ rw (rest, q, missing_files) refl
      ]

  finish-verified :
      (r : Restorer) (d : Dest)
      → missing_files r r.target.entries ≡ []
      → r.verify_only ≡ true
      → finish vol r d ≡ ((r, d), none)
  unfolding finish
  finish-verified r d h v = rw (h, finish) (ground (arith, v))

  is_required-own :
      (r : Restorer) (e : Entry)
      → r.own_only ≡ true
      → is_required r e ≡ true
      → has_content_in_set e ≡ true
  unfolding is_required
  is_required-own r e o h = ground (arith, o, h)

  abbrev pub own_restorer : Restorer
  own_restorer = expect_own_content_only (new_restorer m [] true)

  -- The TAR stream of a build is accepted by a Restorer that expects the own files of the manifest.
  pub build_tar-accepted :
      (to_lower : Bytes → Bytes) (skip_unreadable : Bool) (base : Option (List Entry))
      (entry_bytes : Bytes → ℕ → ℕ) (b : TarBuilder) (visits : List Visit) (d : Dest)
      → build_tar platform skip_unreadable base entry_bytes visits ≡ (b, none)
      → m.entries ≡ b.listed
      → validate_manifest to_lower m ≡ none
      → (s : Restorer) × (extract_section vol platform own_restorer d
            (record { entries = b.tar; broken = false })
            (decide_own m)
          ≡ ((s, d), none))
        × (finish vol s d ≡ ((s, d), none))
  unfolding extract_section has_path
  build_tar-accepted to_lower skip_unreadable base entry_bytes b visits d h listed valid =
      let (ls, a, c, pairs) =
        build_tar-IsLogged platform skip_unreadable base entry_bytes b visits h in
      let same : m.entries ≡ entries_of ls = listed ∙ a in
      let distinct = validate_manifest-Distinct to_lower m valid in
      let (s, run, (v, own, target), more, all) =
        extract_entries-log own_restorer d ls distinct (subst (λ z. Distinct z) same distinct)
          (λ e n. subst (λ z. Mem e z) (sym same) n) pairs refl (λ e n. refl) in
      let complete : missing_files s s.target.entries ≡ [] =
        missing_files-all s s.target.entries (λ e n q.
          all e (subst (λ z. Mem e z) (ap (λ z. z.entries) target ∙ same) n)
            (is_required-own s e own q)) in
      (
        s,
        subst
            (λ z.
              extract_entries vol platform (decide_own m) false own_restorer d z ≡ ((s, d), none))
            (sym c) run,
        finish-verified s d complete v,
      )
