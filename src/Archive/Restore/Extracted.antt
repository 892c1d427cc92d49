-- ===== src/Archive/Restore/Extracted.antt =====
-- restore.go: extractFile, and the Decide functions.
use restore_safe.Archive.Dest.{Dest, Volume, has_path, set_attributes, set_times}
use restore_safe.Archive.Restore.Defs.{
  Decision, Restorer, check_hash, decide_from_base, decide_own, entry_at, extract, extract_entry,
  extract_file, set_metadata, target_path, write_file,
}
use restore_safe.Archive.Tar.{TarEntry, hex_encode}
use restore_safe.Manifest.{Entry, Manifest, has_content_in_set, is_type, origin_full, type_file}
use restore_safe.Base.{
  Bool, Bool-cases, Bytes, List, Mem, Option-cases, Sum-cases, [], ap, arith, false, inl, inr, none,
  some, subst, sym, take, take-length, text_eq, text_eq_iff, true, ◌&&◌, ◌∙◌, ◌∷◌, ◌≡◌, ◌⊎◌,
}
use restore_safe.Cryptox.Platform.{Platform}

pub some_eq : {A : Type 0} {x y : A} → some x ≡ some y → x ≡ y
some_eq h = cc h

pub entry_at-Mem :
    (p : Bytes) (es : List Entry) (e : Entry) → entry_at p es ≡ some e → Mem e es × (e.path ≡ p)
unfolding entry_at Mem
entry_at-Mem p [] e h = absurd (cc h)
entry_at-Mem p (x ∷ xs) e h = elim (Option-cases (entry_at p xs)) [
  | inr (y, q) ↦ let (m, same) = entry_at-Mem p xs e (q ∙ (rw (q, entry_at) at h)) in (inr m, same)
  | inl q ↦ elim (Bool-cases (text_eq x.path p)) [
    | inr n ↦ absurd (cc (rw (q, n, entry_at) at h))
    | inl y ↦
        let same : x ≡ e = some_eq (rw (q, y, entry_at) at h) in
        (inl (sym same), ap (λ z. z.path) (sym same) ∙ (text_eq_iff x.path p).0 y)
  ]
]

extract_eq : {a b : Entry} → extract a ≡ extract b → a ≡ b
extract_eq h = cc h

-- A Decide function that extracts entries of a manifest only.
abbrev pub IsOf : Manifest → (Bytes → Decision) → Type 0
IsOf m decide = (name : Bytes) (e : Entry) → decide name ≡ extract e → Mem e m.entries

pub decide_own-IsOf : (m : Manifest) → IsOf m (decide_own m)
unfolding decide_own
decide_own-IsOf m name e h = elim (Option-cases (entry_at name m.entries)) [
  | inl q ↦ absurd (cc (rw (q, decide_own) at h))
  | inr (x, q) ↦
      let found = (entry_at-Mem name m.entries x q).0 in
      elim (Bool-cases (has_content_in_set x)) [
        | inl y ↦ subst (λ z. Mem z m.entries) (extract_eq (rw (q, y, decide_own) at h)) found
        | inr n ↦ absurd (ground arith)
      ]
]

pub decide_from_base-IsOf : (m : Manifest) → IsOf m (decide_from_base m)
unfolding decide_from_base
decide_from_base-IsOf m name e h = elim (Option-cases (entry_at name m.entries)) [
  | inl q ↦ absurd (cc (rw (q, decide_from_base) at h))
  | inr (x, q) ↦
      let found = (entry_at-Mem name m.entries x q).0 in
      elim (Bool-cases (is_type type_file x && text_eq x.origin origin_full)) [
        | inl y ↦ subst (λ z. Mem z m.entries) (extract_eq (rw (q, y, decide_from_base) at h)) found
        | inr n ↦ absurd (cc (rw (q, n, decide_from_base) at h))
      ]
]

-- How a path of a target was restored: by a TAR entry of its size, whose content could be read and has
-- its hash; and where files are written, a file at the path's place has that content.
pub record IsRestored (vol : Volume) (platform : Platform) (target : Manifest) (dest_dir : Bytes)
    (verify_only : Bool) (d : Dest) (ts : List TarEntry) (p : Bytes) : Type 0 where
  pub entry : Entry
  pub in_target : Mem entry target.entries
  pub entry_path : entry.path ≡ p
  pub from : TarEntry
  pub from_stream : Mem from ts
  pub from_name : from.name ≡ p
  pub same_size : from.size ≡ entry.size
  pub readable : from.content_broken ≡ false
  pub same_hash : hex_encode (platform.sha256 from.content) ≡ entry.hash
  pub written :
      verify_only ≡ false
      → (place : Bytes) × (target_path vol dest_dir p ≡ inl place)
        × Mem (place, from.content) d.files

module _ (vol : Volume) (platform : Platform) where
  pub set_metadata-files :
      (d : Dest) (p : Bytes) (e : Entry) → (set_metadata vol d p e).0.files ≡ d.files
  unfolding set_metadata set_times set_attributes
  set_metadata-files d p e = ground arith

  write_file-none :
      (d d' : Dest) (p : Bytes) (t : TarEntry) (e : Entry)
      → write_file vol platform d p t e ≡ (d', none)
      → (t.content_broken ≡ false)
        × (check_hash platform e t.content ≡ none)
        × (d'.files ≡ (p, t.content) ∷ d.files)
  unfolding write_file
  write_file-none d d' p t e h =
      let all = take-length (vol.accepts d p) t.content in
      let kept =
        set_metadata-files (record d { files = (p, take (vol.accepts d p) t.content) ∷ d.files }) p
          e in
      elim (Option-cases (check_hash platform e t.content)) [
        | inl q ↦ (ground arith, q, ground (arith, kept, all))
        | inr (x, q) ↦ absurd (ground arith)
      ]

  -- What an extraction does to the destination.
  abbrev pub Wrote : Restorer → Dest → Dest → TarEntry → Entry → Type 0
  Wrote r d d' t e =
      ((r.verify_only ≡ true) × (d' ≡ d))
      ⊎ ((r.verify_only ≡ false)
          × ((place : Bytes) × (target_path vol r.dest_dir e.path ≡ inl place)
              × (d'.files ≡ (place, t.content) ∷ d.files)))

  pub extract_file-none :
      (r : Restorer) (d d' : Dest) (t : TarEntry) (e : Entry)
      → extract_file vol platform r d t e ≡ (d', none)
      → (t.content_broken ≡ false) × (check_hash platform e t.content ≡ none) × Wrote r d d' t e
  unfolding extract_file
  extract_file-none r d d' t e h = elim (Bool-cases r.verify_only) [
    | inl v ↦ (ground arith, ground arith, inl (v, ground arith))
    | inr v ↦ elim (Sum-cases (target_path vol r.dest_dir e.path)) [
      | inr (x, q) ↦ absurd (ground arith)
      | inl (p, q) ↦
          let w : write_file vol platform d p t e ≡ (d', none) = ground arith in
          let (a, b, c) = write_file-none d d' p t e w in (a, b, inr (v, (p, q, c)))
    ]
  ]

  pub extract_entry-none :
      (r r' : Restorer) (d d' : Dest) (t : TarEntry) (e : Entry)
      → extract_entry vol platform r d t e ≡ ((r', d'), none)
      → (e.path ≡ t.name)
        × (has_path e.path r.done ≡ false)
        × (t.size ≡ e.size)
        × (extract_file vol platform r d t e ≡ (d', none))
        × (r' ≡ record r { done = e.path ∷ r.done })
  unfolding extract_entry
  extract_entry-none r r' d d' t e h = elim (Option-cases (extract_file vol platform r d t e).1) [
    | inr (x, q) ↦ absurd (ground arith)
    | inl q ↦
        let same : text_eq e.path t.name ≡ true = ground arith in
        ((text_eq_iff e.path t.name).0 same, ground arith, ground arith, ground arith, ground arith)
  ]
