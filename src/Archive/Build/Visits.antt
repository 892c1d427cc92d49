-- ===== src/Archive/Build/Visits.antt =====
-- build.go: the calls of visit.
use restore_safe.Archive.Build.Files.{
  Fine, IsRead, from_base-empty, read_file-IsRead, skip_file-IsLogged, skip_file-started,
  unread_entry-empty,
}
use restore_safe.Archive.Build.Data.{
  FileResult, ReadError, TarBuilder, Visit, from_base, not_read, skip_dir_or_nil, unread_entry,
  written,
}
use restore_safe.Archive.Build.Defs.{
  add_dir, add_file, add_listed, add_tar, count_skip, count_vanished, dir_entry, kept_from_base,
  read_file, store_file, unstatable,
}
use restore_safe.Archive.Build.Logged.{IsLogged, IsLogged-listed, IsLogged-same, IsLogged-stored}
use restore_safe.Manifest.{Entry, has_content_in_set}
use restore_safe.Base.{
  Bool, Bool-cases, Bytes, List, Option, Option-cases, Sum-cases, arith, false, inl, inr, none,
  refl, some, text_eq, ℕ, ◌&&◌, ◌+◌, ◌≡◌,
}
use restore_safe.Cryptox.Platform.{Platform}

module _ (platform : Platform) (skip_unreadable : Bool) (base : Option (List Entry))
    (entry_bytes : Bytes → ℕ → ℕ) where
  store_file-Fine :
      (b : TarBuilder) (rel : Bytes) (r : FileResult)
      → IsLogged platform b
      → IsRead platform skip_unreadable base entry_bytes rel r
      → Fine platform skip_unreadable base entry_bytes
          (store_file platform skip_unreadable base entry_bytes b rel r)
  unfolding store_file
  store_file-Fine b rel (written e t) log pair =
      let b' = add_tar platform skip_unreadable base entry_bytes b (some t) in
      IsLogged-stored platform b
        (record (add_listed b' e) { stats = record (b.stats) { stored = b.stats.stored + 1 } }) e t
        log pair refl refl
  store_file-Fine b rel (not_read x none) log read = elim (Bool-cases x.not_exist) [
    | inl n ↦ rw (n, store_file) (IsLogged-same platform b (count_vanished b) log refl refl)
    | inr n ↦ elim (Bool-cases skip_unreadable) [
      | inl s ↦
          rw (n, s, store_file)
            (skip_file-IsLogged platform skip_unreadable base entry_bytes b rel x log)
      | inr s ↦ rw (n, s, store_file) tt
    ]
  ]
  store_file-Fine b rel (not_read x (some t)) log (named, regular, readable) =
      let never : (x.not_exist && false) ≡ false = ground arith in
      elim (Bool-cases skip_unreadable) [
        | inl s ↦
            rw (never, s, store_file)
              (skip_file-started platform skip_unreadable base entry_bytes b rel x t log named
                (regular, readable))
        | inr s ↦ rw (never, s, store_file) tt
      ]

  pub add_file-Fine :
      (b : TarBuilder) (v : Visit) (size : ℕ)
      → IsLogged platform b
      → Fine platform skip_unreadable base entry_bytes
          (add_file platform skip_unreadable base entry_bytes b v size)
  unfolding add_file
  add_file-Fine b v size log =
      elim (Option-cases (kept_from_base platform skip_unreadable base entry_bytes v size)) [
        | inl q ↦
            let r =
              read_file platform skip_unreadable base entry_bytes b.tar_bytes v.rel v.source in
            rw (q, add_file)
              (store_file-Fine b v.rel r log (
                read_file-IsRead platform skip_unreadable base entry_bytes b.tar_bytes v.rel
                  v.source))
        | inr (e, q) ↦
            rw (q, add_file)
              (IsLogged-listed platform b
                (record (add_listed b (from_base e false false)) {
                  stats = record (b.stats) { unchanged_files = b.stats.unchanged_files + 1 };
                })
                (from_base e false false) log (from_base-empty e false false) refl refl)
      ]

  unread-IsLogged :
      (b : TarBuilder) (rel reason : Bytes)
      → IsLogged platform b
      → IsLogged platform (count_skip (add_listed b (unread_entry rel reason false)) rel reason)
  unread-IsLogged b rel reason log =
      IsLogged-listed platform b
        (count_skip (add_listed b (unread_entry rel reason false)) rel reason)
        (unread_entry rel reason false) log (unread_entry-empty rel reason false) refl refl

  pub add_dir-Fine :
      (b : TarBuilder) (v : Visit)
      → IsLogged platform b
      → Fine platform skip_unreadable base entry_bytes
          (add_dir platform skip_unreadable base entry_bytes b v)
  unfolding add_dir has_content_in_set text_eq
  add_dir-Fine b v log = elim (Sum-cases v.basic) [
    | inl (meta, q) ↦
        let e = dir_entry platform skip_unreadable base entry_bytes v.rel meta in
        rw (q, add_dir) (IsLogged-listed platform b (add_listed b e) e log refl refl refl)
    | inr (x, q) ↦ elim (Bool-cases x.not_exist) [
      | inl n ↦ rw (q, n, add_dir) (IsLogged-same platform b (count_vanished b) log refl refl)
      | inr n ↦ elim (Bool-cases skip_unreadable) [
        | inl s ↦ rw (q, n, s, add_dir) (unread-IsLogged b v.rel x.message log)
        | inr s ↦ rw (q, n, s, add_dir) tt
      ]
    ]
  ]

  pub skip_dir_or_nil-Fine :
      (b : TarBuilder) (v : Visit)
      → IsLogged platform b
      → Fine platform skip_unreadable base entry_bytes (b, skip_dir_or_nil v)
  skip_dir_or_nil-Fine b v log = elim (Bool-cases v.is_dir) [ inl d ↦ rw d log | inr d ↦ rw d log ]

  pub unstatable-Fine :
      (b : TarBuilder) (v : Visit) (x : ReadError)
      → IsLogged platform b
      → Fine platform skip_unreadable base entry_bytes
          (unstatable platform skip_unreadable base entry_bytes b v x)
  unfolding unstatable
  unstatable-Fine b v x log = elim (Bool-cases x.not_exist) [
    | inl n ↦
        rw (n, unstatable)
          (skip_dir_or_nil-Fine (count_vanished b) v
            (IsLogged-same platform b (count_vanished b) log refl refl))
    | inr n ↦ elim (Bool-cases skip_unreadable) [
      | inr s ↦ rw (n, s, unstatable) tt
      | inl s ↦ elim (Bool-cases v.is_dir) [
        | inl d ↦ rw (n, s, d, unstatable) (unread-IsLogged b v.rel x.message log)
        | inr d ↦
            rw (n, s, d, unstatable)
              (skip_file-IsLogged platform skip_unreadable base entry_bytes b v.rel x log)
      ]
    ]
  ]
