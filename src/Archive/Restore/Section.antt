-- ===== src/Archive/Restore/Section.antt =====
-- restore.go: ExtractSection.
use restore_safe.Archive.Restore.Extracted.{
  IsOf, IsRestored, Wrote, extract_entry-none, extract_file-none,
}
use restore_safe.Archive.Restore.Defs.{
  Decision, Restorer, check_hash, extract, extract_entries, extract_entry, extract_round,
  extract_section, new_restorer, read_past, refuse, target_path,
}
use restore_safe.Archive.Tar.{TarEntry, TarStream, hex_encode}
use restore_safe.Manifest.{Entry, Manifest}
use restore_safe.Base.{
  Bool, Bool-cases, Bytes, List, Mem, Mem-append_left, Mem-append_right, Mem-here, Option-cases, [],
  ap, append-nil, append_assoc, arith, false, inl, inr, none, refl, subst, sym, text_eq,
  text_eq_iff, true, ◌++◌, ◌∙◌, ◌∷◌, ◌≡◌,
}
use restore_safe.Cryptox.Platform.{Platform}
use restore_safe.Archive.Dest.{Dest, Volume, has_path}

module _ (vol : Volume) (platform : Platform) where
  -- The restorers of one restore.
  abbrev pub IsLater : Restorer → Restorer → Type 0
  IsLater r r' =
      (r'.target ≡ r.target)
      × (r'.dest_dir ≡ r.dest_dir)
      × (r'.verify_only ≡ r.verify_only)
      × (r'.own_only ≡ r.own_only)

  abbrev pub AllDone : Restorer → Dest → List TarEntry → Type 0
  AllDone r d ts =
      (p : Bytes)
      → has_path p r.done ≡ true
      → IsRestored vol platform r.target r.dest_dir r.verify_only d ts p

  pub IsRestored-grows :
      (r : Restorer) (d d' : Dest) (ts ts' : List TarEntry) (p : Bytes)
      → ((x : Bytes × Bytes) → Mem x d.files → Mem x d'.files)
      → ((x : TarEntry) → Mem x ts → Mem x ts')
      → IsRestored vol platform r.target r.dest_dir r.verify_only d ts p
      → IsRestored vol platform r.target r.dest_dir r.verify_only d' ts' p
  IsRestored-grows r d d' ts ts' p files more x = record {
    entry = x.entry;
    in_target = x.in_target;
    entry_path = x.entry_path;
    from = x.from;
    from_stream = more x.from x.from_stream;
    from_name = x.from_name;
    same_size = x.same_size;
    readable = x.readable;
    same_hash = x.same_hash;
    written =
        λ v. (let (place, at, m) = x.written v in (place, at, files (place, x.from.content) m));
  }

  Wrote-files :
      (r : Restorer) (d d' : Dest) (t : TarEntry) (e : Entry)
      → Wrote vol platform r d d' t e
      → (x : Bytes × Bytes) → Mem x d.files
      → Mem x d'.files
  unfolding Mem
  Wrote-files r d d' t e (inl (v, q)) x m = subst (λ z. Mem x z.files) (sym q) m
  Wrote-files r d d' t e (inr (v, (place, at, q))) x m = subst (λ z. Mem x z) (sym q) (inr m)

  Wrote-written :
      (r : Restorer) (d d' : Dest) (t : TarEntry) (e : Entry)
      → Wrote vol platform r d d' t e
      → r.verify_only ≡ false
      → (place : Bytes) × (target_path vol r.dest_dir e.path ≡ inl place)
        × Mem (place, t.content) d'.files
  unfolding Mem
  Wrote-written r d d' t e (inl (v, q)) w = absurd (cc (v, w))
  Wrote-written r d d' t e (inr (v, (place, at, q))) w =
      (place, at, subst (λ z. Mem (place, t.content) z) (sym q) (inl refl))

  check_hash-none :
      (e : Entry) (content : Bytes)
      → check_hash platform e content ≡ none
      → hex_encode (platform.sha256 content) ≡ e.hash
  unfolding check_hash
  check_hash-none e content h =
      (text_eq_iff (hex_encode (platform.sha256 content)) e.hash).0 (ground arith)

  extract_entry-AllDone :
      (r r' : Restorer) (d d' : Dest) (ts : List TarEntry) (t : TarEntry) (e : Entry)
      → AllDone r d ts
      → Mem e r.target.entries
      → extract_entry vol platform r d t e ≡ ((r', d'), none)
      → AllDone r' d' (ts ++ t ∷ []) × IsLater r r'
  unfolding has_path check_hash
  extract_entry-AllDone r r' d d' ts t e all m h =
      let (same_name, fresh, same_size, file, later) =
        extract_entry-none vol platform r r' d d' t e h in
      let (readable, hash, wrote) = extract_file-none vol platform r d d' t e file in
      let goal : AllDone (record r { done = e.path ∷ r.done }) d' (ts ++ t ∷ []) = λ p x.
        elim (Bool-cases (text_eq e.path p)) [
          | inl q ↦
              let same = (text_eq_iff e.path p).0 q in
              record {
                entry = e;
                in_target = m;
                entry_path = same;
                from = t;
                from_stream = Mem-append_right t ts (t ∷ []) (Mem-here t []);
                from_name = sym same_name ∙ same;
                same_size = same_size;
                readable = readable;
                same_hash = check_hash-none e t.content hash;
                written = λ v.
                    subst
                      (λ z.
                        (place : Bytes) × (target_path vol r.dest_dir z ≡ inl place)
                        × Mem (place, t.content) d'.files)
                      same (Wrote-written r d d' t e wrote v);
              }
          | inr q ↦
              IsRestored-grows r d d' ts (ts ++ t ∷ []) p (Wrote-files r d d' t e wrote)
                (λ y z. Mem-append_left y ts (t ∷ []) z) (all p (rw (q, has_path) at x))
        ] in
      (subst (λ z. AllDone z d' (ts ++ t ∷ [])) (sym later) goal, rw later (refl, refl, refl, refl))

  IsLater-trans : (r s t : Restorer) → IsLater r s → IsLater s t → IsLater r t
  IsLater-trans r s t (a, b, c, d) (a', b', c', d') = (a' ∙ a, b' ∙ b, c' ∙ c, d' ∙ d)

  extract_round-AllDone :
      (r r' : Restorer) (d d' : Dest) (ts : List TarEntry) (t : TarEntry) (x : Decision)
      → AllDone r d ts
      → ((e : Entry) → x ≡ extract e → Mem e r.target.entries)
      → extract_round vol platform r d t x ≡ ((r', d'), none)
      → AllDone r' d' (ts ++ t ∷ []) × IsLater r r'
  unfolding extract_round
  extract_round-AllDone r r' d d' ts t (extract e) all m h =
      extract_entry-AllDone r r' d d' ts t e all (m e refl) h
  extract_round-AllDone r r' d d' ts t read_past all m h =
      let same_r : r ≡ r' = ground arith in
      let same_d : d ≡ d' = ground arith in
      (
        subst (λ z. AllDone z d' (ts ++ t ∷ [])) same_r
            (subst (λ z. AllDone r z (ts ++ t ∷ [])) same_d
              (λ p x.
                IsRestored-grows r d d ts (ts ++ t ∷ []) p (λ y z. z)
                  (λ y z. Mem-append_left y ts (t ∷ []) z) (all p x))),
        rw (sym same_r) (refl, refl, refl, refl),
      )
  extract_round-AllDone r r' d d' ts t refuse all m h = absurd (cc h)

  extract_entries-AllDone :
      (decide : Bytes → Decision) (broken : Bool) (r r' : Restorer) (d d' : Dest)
      (ts us : List TarEntry)
      → AllDone r d ts
      → IsOf r.target decide
      → extract_entries vol platform decide broken r d us ≡ ((r', d'), none)
      → AllDone r' d' (ts ++ us) × IsLater r r'
  unfolding extract_entries
  extract_entries-AllDone decide broken r r' d d' ts [] all of h =
      let same_r : r ≡ r' = ground arith in
      let same_d : d ≡ d' = ground arith in
      (
        subst (λ z. AllDone z d' (ts ++ [])) same_r
            (subst (λ z. AllDone r z (ts ++ [])) same_d (rw (append-nil ts) all)),
        rw (sym same_r) (refl, refl, refl, refl),
      )
  extract_entries-AllDone decide broken r r' d d' ts (u ∷ us) all of h =
      let step = extract_round vol platform r d u (decide u.name) in
      elim (Option-cases step.1) [
        | inr (x, q) ↦ absurd (ground arith)
        | inl q ↦
            let one : step ≡ ((step.0.0, step.0.1), none) = ap (λ z. (step.0, z)) q in
            let more : extract_entries vol platform decide broken step.0.0 step.0.1 us
                ≡ ((r', d'), none) =
              ground arith in
            let (done_one, (a, b, c, e)) =
              extract_round-AllDone r step.0.0 d step.0.1 ts u (decide u.name) all (of u.name)
                one in
            let (done_all, later) =
              extract_entries-AllDone decide broken step.0.0 r' step.0.1 d' (ts ++ u ∷ []) us
                done_one (λ n e x. subst (λ z. Mem e z.entries) (sym a) (of n e x)) more in
            (
              subst (λ z. AllDone r' d' z) (append_assoc ts (u ∷ []) us) done_all,
              IsLater-trans r step.0.0 r' (a, b, c, e) later,
            )
      ]

  -- ExtractSection, with a Decide function of the target's entries.
  pub extract_section-AllDone :
      (decide : Bytes → Decision) (r r' : Restorer) (d d' : Dest) (ts : List TarEntry)
      (stream : TarStream)
      → AllDone r d ts
      → IsOf r.target decide
      → extract_section vol platform r d stream decide ≡ ((r', d'), none)
      → AllDone r' d' (ts ++ stream.entries) × IsLater r r'
  unfolding extract_section
  extract_section-AllDone decide r r' d d' ts stream all of h =
      extract_entries-AllDone decide stream.broken r r' d d' ts stream.entries all of h

  pub new_restorer-AllDone :
      (m : Manifest) (dest_dir : Bytes) (verify_only : Bool) (d : Dest)
      → AllDone (new_restorer m dest_dir verify_only) d []
  unfolding has_path
  new_restorer-AllDone m dest_dir verify_only d p h = absurd (cc h)
