-- ===== src/Archive/Build/Files.antt =====
-- build.go: what becomes of a file that is read, or cannot be read.
use restore_safe.Io.{whole}
use restore_safe.Archive.Tar.{TarEntry, hex_encode}
use restore_safe.Archive.Build.Data.{
  FileResult, Meta, ReadError, SourceFile, TarBuilder, Walk, from_base, go_on, not_read, skip_dir,
  stop, unread_entry, written,
}
use restore_safe.Archive.Build.Defs.{
  add_tar, base_file, copy_file, read_file, skip_file, zero_bytes,
}
use restore_safe.Archive.Build.Logged.{IsLogged, IsLogged-listed, IsLogged-stored, IsPair}
use restore_safe.Manifest.{Entry, has_content_in_set, is_some, is_type, type_dir, type_file}
use restore_safe.Archive.Restore.{check_hash}
use restore_safe.Base.{
  Bool, Bool-cases, Bytes, List, Mem-filter, Option, Option-cases, Sum-cases, [], append-nil, arith,
  false, filter, inl, inr, length, ltb, none, refl, some, subst, sym, take, text_eq, text_eq_iff,
  true, ℕ, ◌++◌, ◌-◌, ◌∙◌, ◌∷◌, ◌≡◌,
}
use restore_safe.Archive.Restore.Extracted.{entry_at-Mem}
use restore_safe.Cryptox.Platform.{Platform}

-- No entry of the base has content of its own where it is referred to.
base_file-type :
    (base : Option (List Entry)) (rel : Bytes) (e : Entry)
    → base_file base rel ≡ some e
    → (is_type type_file e ≡ true) × (e.path ≡ rel)
unfolding base_file
base_file-type none rel e h = absurd (cc h)
base_file-type (some es) rel e h =
    let (m, same) = entry_at-Mem rel (filter (λ x. is_type type_file x) es) e h in
    ((Mem-filter (λ x. is_type type_file x) e es m).1, same)

pub from_base-empty :
    (e : Entry) (stale void : Bool) → has_content_in_set (from_base e stale void) ≡ false
unfolding has_content_in_set
from_base-empty e stale void = ground arith

pub unread_entry-empty :
    (rel reason : Bytes) (void : Bool) → has_content_in_set (unread_entry rel reason void) ≡ false
unfolding has_content_in_set text_eq
unread_entry-empty rel reason void = refl

file-no_directory : (e : Entry) → is_type type_file e ≡ true → is_type type_dir e ≡ false
unfolding text_eq
file-no_directory e h =
    let same : e.entry_type ≡ type_file = (text_eq_iff e.entry_type type_file).0 h in
    subst (λ z. text_eq z type_dir ≡ false) (sym same) refl

module _ (platform : Platform) (skip_unreadable : Bool) (base : Option (List Entry))
    (entry_bytes : Bytes → ℕ → ℕ) where
  -- What holds of the builder unless the walk stops.
  abbrev pub Fine : TarBuilder × Walk → Type 0
  Fine (b, stop e) = Unit
  Fine (b, go_on) = IsLogged platform b
  Fine (b, skip_dir) = IsLogged platform b

  abbrev skipped_file : TarBuilder → Bytes → ReadError → Bool → TarBuilder
  skipped_file = skip_file platform skip_unreadable base entry_bytes

  -- The entry that skipFile adds.
  skip_file-entry :
      (b : TarBuilder) (rel : Bytes) (x : ReadError) (started : Bool)
      → (e : Entry) × (has_content_in_set e ≡ false)
        × (is_type type_dir e ≡ false)
        × (e.path ≡ rel)
        × (e.void ≡ started)
        × ((skipped_file b rel x started).listed ≡ b.listed ++ e ∷ [])
        × ((skipped_file b rel x started).tar ≡ b.tar)
  unfolding skip_file text_eq
  skip_file-entry b rel x started = elim (Option-cases (base_file base rel)) [
    | inl q ↦ (
      unread_entry rel x.message started,
      unread_entry-empty rel x.message started,
      refl,
      refl,
      refl,
      rw (q, skip_file) refl,
      rw (q, skip_file) refl,
    )
    | inr (e, q) ↦
        let (file, same) = base_file-type base rel e q in
        (
          from_base e true started,
          from_base-empty e true started,
          file-no_directory e file,
          same,
          refl,
          rw (q, skip_file) refl,
          rw (q, skip_file) refl,
        )
  ]

  pub skip_file-IsLogged :
      (b : TarBuilder) (rel : Bytes) (x : ReadError)
      → IsLogged platform b
      → IsLogged platform (skipped_file b rel x false)
  skip_file-IsLogged b rel x log =
      let (e, empty, no_dir, same, void, l, t) = skip_file-entry b rel x false in
      IsLogged-listed platform b (skipped_file b rel x false) e log empty l t

  -- A TAR entry that was started for a file that was then not read.
  pub skip_file-started :
      (b : TarBuilder) (rel : Bytes) (x : ReadError) (t : TarEntry)
      → IsLogged platform b
      → t.name ≡ rel
      → (t.is_regular ≡ true) × (t.content_broken ≡ false)
      → IsLogged platform
          (skipped_file (add_tar platform skip_unreadable base entry_bytes b (some t)) rel x true)
  skip_file-started b rel x t log named whole =
      let b' = add_tar platform skip_unreadable base entry_bytes b (some t) in
      let (e, empty, no_dir, same, void, l, ts) = skip_file-entry b' rel x true in
      IsLogged-stored platform b (skipped_file b' rel x true) e t log
        (record {
          same_path = named ∙ sym same;
          is_whole = whole;
          no_directory = no_dir;
          stored_or_void = inr (empty, void);
        })
        l ts

  -- What writeFile answers.
  abbrev pub IsRead : Bytes → FileResult → Type 0
  IsRead rel (written e t) = IsPair platform e t
  IsRead rel (not_read x none) = Unit
  IsRead rel (not_read x (some t)) =
      (t.name ≡ rel) × (t.is_regular ≡ true) × (t.content_broken ≡ false)

  take-exact :
      (size : ℕ) (content : Bytes)
      → ltb (length content) size ≡ false
      → ltb size (length content) ≡ false
      → take size content ++ zero_bytes (size - length content) ≡ take size content
  unfolding zero_bytes
  take-exact size content a b =
      let none_left : size - length content ≡ 0 = ground arith in
      rw none_left (append-nil (take size content))

  copy_file-IsRead :
      (offset : ℕ) (rel : Bytes) (f : SourceFile) (meta : Meta) (size : ℕ)
      → IsRead rel (copy_file platform skip_unreadable base entry_bytes offset rel f meta size)
  unfolding copy_file has_content_in_set is_some text_eq check_hash
  copy_file-IsRead offset rel f meta size = elim (Bool-cases (ltb (length f.content) size)) [
    | inl a ↦ rw (a, copy_file) (refl, refl, refl)
    | inr a ↦ elim (Bool-cases (ltb size (length f.content))) [
      | inl c ↦ rw (a, c, copy_file) (refl, refl, refl)
      | inr c ↦
          rw (a, c, copy_file)
            (record {
              same_path = refl;
              is_whole = (refl, refl);
              no_directory = refl;
              stored_or_void = inl (
                refl,
                refl,
                rw
                    (
                      take-exact size f.content a c,
                      (text_eq_iff (hex_encode (platform.sha256 (take size f.content)))
                            (hex_encode (platform.sha256 (take size f.content)))).1
                          refl,
                    )
                    refl,
              );
            })
    ]
  ]

  pub read_file-IsRead :
      (offset : ℕ) (rel : Bytes) (f : SourceFile)
      → IsRead rel (read_file platform skip_unreadable base entry_bytes offset rel f)
  unfolding read_file
  read_file-IsRead offset rel f = elim (Option-cases f.open_error) [
    | inr (x, q) ↦ rw (q, read_file) tt
    | inl q ↦ elim (Sum-cases f.handle_info) [
      | inr (x, h) ↦ rw (q, h, read_file) tt
      | inl (meta, h) ↦ elim (Sum-cases f.stat_size) [
        | inr (x, s) ↦ rw (q, h, s, read_file) tt
        | inl (size, s) ↦ rw (q, h, s, read_file) (copy_file-IsRead offset rel f meta size)
      ]
    ]
  ]
