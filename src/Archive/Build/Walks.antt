-- ===== src/Archive/Build/Walks.antt =====
-- build.go: the walk of BuildTar.
use restore_safe.Archive.Build.Data.{
  BuildError, ReadError, TarBuilder, Visit, Walk, go_on, skip_dir, stop, unread_entry,
}
use restore_safe.Archive.Build.Defs.{
  add_listed, build_tar, count_skip, count_vanished, new_tar_builder, unlisted, visit, walk_dir,
}
use restore_safe.Base.{
  Bool, Bool-cases, Bytes, List, Option, Option-cases, Sum-cases, [], false, inl, inr, ltb, none,
  refl, some, subst, sym, ℕ, ◌+◌, ◌∙◌, ◌∷◌, ◌≡◌, ◌⊎◌,
}
use restore_safe.Manifest.Path.{validate_path}
use restore_safe.Cryptox.Platform.{Platform}
use restore_safe.Archive.Build.Logged.{
  IsLogged, IsLogged-listed, entries_of, skip_last-log, tars_of,
}
use restore_safe.Archive.Build.Visits.{
  add_dir-Fine, add_file-Fine, skip_dir_or_nil-Fine, unstatable-Fine,
}
use restore_safe.Archive.Build.Files.{Fine, unread_entry-empty}
use restore_safe.Manifest.{Entry, skip_last}

Walk-cases : (w : Walk) → ((e : BuildError) × (w ≡ stop e)) ⊎ ((w ≡ go_on) ⊎ (w ≡ skip_dir))
Walk-cases (stop e) = inl (e, refl)
Walk-cases go_on = inr (inl refl)
Walk-cases skip_dir = inr (inr refl)

module _ (platform : Platform) (skip_unreadable : Bool) (base : Option (List Entry))
    (entry_bytes : Bytes → ℕ → ℕ) where
  unlisted-Fine :
      (b : TarBuilder) (v : Visit) (x : ReadError)
      → IsLogged platform b
      → Fine platform skip_unreadable base entry_bytes
          (unlisted platform skip_unreadable base entry_bytes b v x)
  unfolding unlisted
  unlisted-Fine b v x (ls, a, c, pairs) =
      let last = skip_last b.listed v.rel x.message in
      let turned = record b { listed = last.0 } in
      let added = add_listed b (unread_entry v.rel x.message false) in
      let (ks, l, t, pairs') = skip_last-log platform ls v.rel x.message pairs in
      let log_turned : IsLogged platform turned = (
        ks,
        subst (λ z. (skip_last z v.rel x.message).0 ≡ entries_of ks) (sym a) l,
        c ∙ t,
        pairs',
      ) in
      let log_added : IsLogged platform added =
        IsLogged-listed platform b added (unread_entry v.rel x.message false) (ls, a, c, pairs)
          (unread_entry-empty v.rel x.message false) refl refl in
      elim (Bool-cases x.not_exist) [
        | inl n ↦
            rw (n, unlisted)
              (skip_dir_or_nil-Fine platform skip_unreadable base entry_bytes (count_vanished b) v
                (ls, a, c, pairs))
        | inr n ↦ elim (Bool-cases skip_unreadable) [
          | inr s ↦ rw (n, s, unlisted) tt
          | inl s ↦ elim (Bool-cases last.1) [
            | inl k ↦
                rw (n, s, k, unlisted)
                  (skip_dir_or_nil-Fine platform skip_unreadable base entry_bytes
                    (count_skip turned v.rel x.message) v log_turned)
            | inr k ↦
                rw (n, s, k, unlisted)
                  (skip_dir_or_nil-Fine platform skip_unreadable base entry_bytes
                    (count_skip added v.rel x.message) v log_added)
          ]
        ]
      ]

  visit-Fine :
      (b : TarBuilder) (v : Visit)
      → IsLogged platform b
      → Fine platform skip_unreadable base entry_bytes
          (visit platform skip_unreadable base entry_bytes b v)
  unfolding visit
  visit-Fine b v log = elim (Bool-cases v.cancelled) [
    | inl c ↦ rw (c, visit) tt
    | inr c ↦ elim (Option-cases v.walk_error) [
      | inr (x, w) ↦ rw (c, w, visit) (unlisted-Fine b v x log)
      | inl w ↦ elim (Bool-cases v.is_excluded) [
        | inl e ↦
            rw (c, w, e, visit)
              (skip_dir_or_nil-Fine platform skip_unreadable base entry_bytes b v log)
        | inr e ↦ elim (Bool-cases v.is_matched) [
          | inl m ↦
              let b' : TarBuilder = record b {
                stats = record (b.stats) { excluded = b.stats.excluded + 1 };
              } in
              rw (c, w, e, m, visit)
                (skip_dir_or_nil-Fine platform skip_unreadable base entry_bytes b' v log)
          | inr m ↦ elim (Sum-cases v.info) [
            | inr (x, i) ↦
                rw (c, w, e, m, i, visit)
                  (unstatable-Fine platform skip_unreadable base entry_bytes b v x log)
            | inl ((plain, folder, size), i) ↦ elim (Bool-cases plain) [
              | inr p ↦ rw (c, w, e, m, i, p, visit) log
              | inl p ↦ elim (Option-cases (validate_path v.rel)) [
                | inr (x, q) ↦ rw (c, w, e, m, i, p, q, visit) tt
                | inl q ↦ elim (Bool-cases folder) [
                  | inl f ↦
                      rw (c, w, e, m, i, p, q, f, visit)
                        (add_dir-Fine platform skip_unreadable base entry_bytes b v log)
                  | inr f ↦
                      rw (c, w, e, m, i, p, q, f, visit)
                        (add_file-Fine platform skip_unreadable base entry_bytes b v size log)
                ]
              ]
            ]
          ]
        ]
      ]
    ]
  ]

  walk_dir-visited :
      (b b' : TarBuilder) (v : Visit) (vs : List Visit)
      → ((skipping : Option ℕ) (c : TarBuilder)
          → IsLogged platform c
          → walk_dir platform skip_unreadable base entry_bytes skipping c vs ≡ (b', none)
          → IsLogged platform b')
      → IsLogged platform b
      → walk_dir platform skip_unreadable base entry_bytes none b (v ∷ vs) ≡ (b', none)
      → IsLogged platform b'
  unfolding walk_dir
  walk_dir-visited b b' v vs later log h =
      let out = visit platform skip_unreadable base entry_bytes b v in
      let fine : Fine platform skip_unreadable base entry_bytes (out.0, out.1) =
        visit-Fine b v log in
      elim (Walk-cases out.1) [
        | inl (e, q) ↦ absurd (cc (rw (q, walk_dir) at h))
        | inr (inl q) ↦
            later none out.0
              (subst (λ z. Fine platform skip_unreadable base entry_bytes (out.0, z)) q fine)
              (rw (q, walk_dir) at h)
        | inr (inr q) ↦
            later (some (v.depth)) out.0
              (subst (λ z. Fine platform skip_unreadable base entry_bytes (out.0, z)) q fine)
              (rw (q, walk_dir) at h)
      ]

  walk_dir-IsLogged :
      (skipping : Option ℕ) (b b' : TarBuilder) (vs : List Visit)
      → IsLogged platform b
      → walk_dir platform skip_unreadable base entry_bytes skipping b vs ≡ (b', none)
      → IsLogged platform b'
  unfolding walk_dir
  walk_dir-IsLogged skipping b b' [] log h =
      let same : b ≡ b' = cc h in subst (λ z. IsLogged platform z) same log
  walk_dir-IsLogged none b b' (v ∷ vs) log h =
      walk_dir-visited b b' v vs (λ s c l k. walk_dir-IsLogged s c b' vs l k) log h
  walk_dir-IsLogged (some level) b b' (v ∷ vs) log h = elim (Bool-cases (ltb level v.depth)) [
    | inl l ↦ walk_dir-IsLogged (some level) b b' vs log (rw (l, walk_dir) at h)
    | inr l ↦
        walk_dir-visited b b' v vs (λ s c x k. walk_dir-IsLogged s c b' vs x k) log
          (rw (l, walk_dir) at h)
  ]

  -- BuildTar without an error leaves entries and TAR entries that are those of one log of pairs.
  pub build_tar-IsLogged :
      (b : TarBuilder) (visits : List Visit)
      → build_tar platform skip_unreadable base entry_bytes visits ≡ (b, none)
      → IsLogged platform b
  unfolding build_tar entries_of tars_of
  build_tar-IsLogged b visits h =
      walk_dir-IsLogged none (new_tar_builder platform skip_unreadable base entry_bytes) b visits
        ([], refl, refl, tt) h
