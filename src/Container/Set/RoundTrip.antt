-- ===== src/Container/Set/RoundTrip.antt =====
-- set.go: Write, and the readers of what it writes.
use restore_safe.Container.Set.Parts.{part_count-parts_needed, parts_needed}
use restore_safe.Container.Set.Lengths.{encrypt_stream-long}
use restore_safe.Cryptox.Stream.RoundTrip.{decrypt_stream-encrypt_stream}
use restore_safe.Cryptox.Key.{KeyResult, derive_subkey}
use restore_safe.Container.KeySet.{SectionKeys, derive_section_keys}
use restore_safe.Container.Set.Defs.{
  decrypt_data, decrypt_manifest, found, join_set, part_count, read_structure, read_trailer,
  section, section_aad, trailer_of, write_sections, write_set, written,
}
use restore_safe.Container.Trailer.Codec.{decode-encode, length-encode}
use restore_safe.Cryptox.Stream.{Sink, encrypt_stream}
use restore_safe.Cryptox.Gcm.{Aead, key_len}
use restore_safe.Io.{Source, whole}
use restore_safe.Base.{
  Bool-cases, Bytes, Option-cases, ap, append_assoc, arith, codes, drop, drop-append, false, inl,
  inr, length, length-append, ltb, none, refl, subst, sym, take, take-append, ℕ, ◌++◌, ◌+◌, ◌-◌,
  ◌<◌, ◌==◌, ◌^◌, ◌∙◌, ◌≡◌, ◌≤◌,
}
use restore_safe.Cryptox.Platform.{Platform}
use restore_safe.Container.Trailer.{Trailer, check, encode, trailer_len}
use restore_safe.Container.Trailer.Check.{IsWord, Layout, check_iff-Layout}
use restore_safe.Container.Header.{Header, HeaderCodec, decoded, encode_header, encoded}
use restore_safe.Container.Header.RoundTrip.{read_header-encode_header}

module _ (platform : Platform) (cipher : Aead) (codec : HeaderCodec) where
  written_eq : {a b : restore_safe.Container.Set.Defs.Written} → written a ≡ written b → a ≡ b
  written_eq h = cc h

  join_set-written :
      (raw : Bytes) (d m : Sink) (sum : Bytes) (split_size : ℕ)
      (w : restore_safe.Container.Set.Defs.Written)
      → join_set platform cipher codec raw d m sum split_size ≡ written w
      → let t = trailer_of (length raw) (length d.written) (length m.written) split_size in
        (d.failure ≡ none)
        × (m.failure ≡ none)
        × (w.recorded ≡ t)
        × (w.content ≡ raw ++ (d.written ++ (m.written ++ encode platform.sha256 t)))
  unfolding join_set
  join_set-written raw d m sum split_size w e = elim (Option-cases d.failure) [
    | inr (x, q) ↦ absurd (cc (rw (q, join_set) at e))
    | inl q ↦ elim (Option-cases m.failure) [
      | inr (x, q') ↦ absurd (cc (rw (q, q', join_set) at e))
      | inl q' ↦
          (let e' = rw (q, q', join_set) at e in
            let i = written_eq e' in
            (q, q', sym (ap (λ x. x.recorded) i), sym (ap (λ x. x.content) i)))
    ]
  ]

  trailer_of-Layout :
      (header_len data_len manifest_len split_size : ℕ)
      → 21 ≤ data_len
      → 21 ≤ manifest_len
      → Layout
          (trailer_of header_len data_len manifest_len split_size)
          header_len
          (header_len + data_len + manifest_len + 64)
  unfolding trailer_of
  trailer_of-Layout header_len data_len manifest_len split_size d m = record {
    data_starts = refl;
    data_long = d;
    manifest_starts = refl;
    manifest_long = m;
    ends = refl;
  }

  trailer_of-IsWord :
      (header_len data_len manifest_len split_size : ℕ)
      → header_len + data_len + manifest_len + 64 < 2 ^ 63
      → IsWord (trailer_of header_len data_len manifest_len split_size)
  unfolding trailer_of
  trailer_of-IsWord header_len data_len manifest_len split_size small = record {
    data_offset_fits = omega arith;
    data_length_fits = omega arith;
    manifest_offset_fits = omega arith;
    manifest_length_fits = omega arith;
  }

  -- readStructure of header, sections and trailer, as Write joins them.
  read_trailer-encode :
      (h : Header) (raw d m : Bytes) (split_size : ℕ)
      → 21 ≤ length d
      → 21 ≤ length m
      → length raw + length d + length m + 64 < 2 ^ 63
      → let t = trailer_of (length raw) (length d) (length m) split_size in
        t.part_count < 2 ^ 32
        → read_trailer platform cipher codec h raw
            (raw ++ (d ++ (m ++ encode platform.sha256 t)))
            t.part_count
          ≡ found (record { header = h; header_hash = platform.sha256 raw; recorded = t })
  unfolding read_trailer
  read_trailer-encode h raw d m split_size dl ml small count =
      let t = trailer_of (length raw) (length d) (length m) split_size in
      let (size, back) =
        decode-encode platform.sha256 platform.length-sha256 t
          (trailer_of-IsWord (length raw) (length d) (length m) split_size small) count in
      let content = raw ++ (d ++ (m ++ encode platform.sha256 t)) in
      let total : length content ≡ length raw + length d + length m + 64 = omega (
        arith,
        size,
        length-append raw (d ++ (m ++ encode platform.sha256 t)),
        length-append d (m ++ encode platform.sha256 t),
        length-append m (encode platform.sha256 t),
      ) in
      let long : ltb (length content) (length raw + trailer_len) ≡ false = ground arith in
      let tail : drop (length content - trailer_len) content ≡ encode platform.sha256 t =
        let joined : content ≡ (raw ++ (d ++ m)) ++ encode platform.sha256 t = sym (
          append_assoc raw (d ++ m) (encode platform.sha256 t)
          ∙ ap (λ x. raw ++ x) (append_assoc d m (encode platform.sha256 t))) in
        let at_end : length content - trailer_len ≡ length (raw ++ (d ++ m)) =
          omega (arith, total, length-append raw (d ++ m), length-append d m) in
        (λ i. drop (at_end i) (joined i))
        ∙ drop-append (raw ++ (d ++ m)) (encode platform.sha256 t) in
      let checked : check t (length raw) (length content) t.part_count ≡ none =
        (check_iff-Layout t (length raw) (length content) t.part_count
            (trailer_of-IsWord (length raw) (length d) (length m) split_size small) (omega arith)
            (omega arith)).1
          (
            subst (λ n. Layout t (length raw) n) (sym total)
                (trailer_of-Layout (length raw) (length d) (length m) split_size dl ml),
            refl,
          ) in
      rw (long, tail, back, checked) refl

  keys_eq : {a b : SectionKeys} → KeyResult.ok a ≡ KeyResult.ok b → a ≡ b
  keys_eq h = cc h

  derive_section_keys-length :
      (master salt : Bytes) (keys : SectionKeys)
      → derive_section_keys platform cipher master salt ≡ KeyResult.ok keys
      → (length keys.data_key ≡ key_len) × (length keys.manifest_key ≡ key_len)
  unfolding derive_section_keys derive_subkey
  derive_section_keys-length master salt keys h = elim (Bool-cases (length master == key_len)) [
    | inl e ↦
        (let i = rw (e, derive_section_keys, derive_subkey) at h in
          let same = keys_eq i in
          (
            ap (λ x. length x.data_key) (sym same)
                ∙ platform.length-hkdf_key master salt (codes "RestoreSafe v2 data"),
            ap (λ x. length x.manifest_key) (sym same)
                ∙ platform.length-hkdf_key master salt (codes "RestoreSafe v2 manifest"),
          ))
    | inr e ↦ absurd (cc (rw (e, derive_section_keys, derive_subkey) at h))
  ]

  take-middle : (xs ys zs : Bytes) → take (length ys) (drop (length xs) (xs ++ (ys ++ zs))) ≡ ys
  take-middle xs ys zs =
      ap (λ x. take (length ys) x) (drop-append xs (ys ++ zs)) ∙ take-append ys zs

  take-later :
      (xs ys zs end : Bytes)
      → take (length zs) (drop (length xs + length ys) (xs ++ (ys ++ (zs ++ end)))) ≡ zs
  take-later xs ys zs end =
      ap (λ x. take (length zs) (drop x (xs ++ (ys ++ (zs ++ end))))) (sym (length-append xs ys))
      ∙ ap (λ x. take (length zs) (drop (length (xs ++ ys)) x))
          (sym (append_assoc xs ys (zs ++ end)))
      ∙ take-middle (xs ++ ys) zs end

  write_set-join_set :
      (h : Header) (master : Bytes) (split_size : ℕ) (data_source manifest_source : Source)
      (raw : Bytes) (keys : SectionKeys)
      → encode_header platform codec h ≡ encoded raw
      → derive_section_keys platform cipher master (platform.sha256 raw) ≡ KeyResult.ok keys
      → write_set platform cipher codec h master split_size data_source manifest_source
        ≡ join_set platform cipher codec raw
            (encrypt_stream cipher keys.data_key (section_aad (platform.sha256 raw) 1) data_source)
            (encrypt_stream cipher keys.manifest_key
              (section_aad (platform.sha256 raw) 2)
              manifest_source)
            (platform.sha256 manifest_source.content)
            split_size
  unfolding write_set write_sections
  write_set-join_set h master split_size data_source manifest_source raw keys e d =
      rw (e, d, write_set) refl

  join_length :
      (raw d m : Bytes) (t : Trailer)
      → length (raw ++ (d ++ (m ++ encode platform.sha256 t)))
        ≡ length raw + length d + length m + 64
  join_length raw d m t =
      let e = encode platform.sha256 t in
      omega (
        arith,
        length-encode platform.sha256 platform.length-sha256 t,
        length-append raw (d ++ (m ++ e)),
        length-append d (m ++ e),
        length-append m e,
      )

  -- Where Write writes a set, from a header whose JSON decodes to it, of less than 2 ^ 63 bytes, in
  -- less than 2 ^ 32 parts, and at a split size that the int64s have room for beside the bytes:
  -- readStructure of what was written, in as many parts as are recorded, accepts it and finds the
  -- header and the recorded trailer; with the section keys that Write derived, DecryptData writes
  -- the data back, and the manifest's section is decrypted to the manifest; and the parts are as
  -- many as the bytes need at the split size.
  pub read_structure-write_set :
      (h : Header) (master : Bytes) (split_size : ℕ) (payload manifest : Bytes) (raw : Bytes)
      (keys : SectionKeys) (w : restore_safe.Container.Set.Defs.Written)
      → codec.unmarshal (codec.marshal h) ≡ decoded h
      → encode_header platform codec h ≡ encoded raw
      → derive_section_keys platform cipher master (platform.sha256 raw) ≡ KeyResult.ok keys
      → write_set platform cipher codec h master split_size (whole payload) (whole manifest)
        ≡ written w
      → length w.content < 2 ^ 63
      → length w.content + split_size ≤ 2 ^ 63
      → w.recorded.part_count < 2 ^ 32
      → let s : restore_safe.Container.Set.Defs.Structure = record {
        header = h;
        header_hash = platform.sha256 raw;
        recorded = w.recorded;
      } in
        (read_structure platform cipher codec w.content w.recorded.part_count ≡ found s)
        × (decrypt_data platform cipher codec w.content s keys
            ≡ record { written = payload; failure = none })
        × (decrypt_manifest platform cipher codec w.content s keys
            ≡ record { written = manifest; failure = none })
        × (w.recorded.part_count ≡ parts_needed (length w.content) split_size)
  unfolding read_structure decrypt_data decrypt_manifest section trailer_of
  read_structure-write_set h master split_size payload manifest raw keys w law enc der wr small
        sizes count =
      let hash = platform.sha256 raw in
      let d = encrypt_stream cipher keys.data_key (section_aad hash 1) (whole payload) in
      let m = encrypt_stream cipher keys.manifest_key (section_aad hash 2) (whole manifest) in
      let t = trailer_of (length raw) (length d.written) (length m.written) split_size in
      let (dk, mk) = derive_section_keys-length master hash keys der in
      let (fd, fm, rec, con) = join_set-written raw d m (platform.sha256 manifest) split_size w (
        sym
          (write_set-join_set h master split_size (whole payload) (whole manifest) raw keys enc der)
        ∙ wr) in
      let e = encode platform.sha256 t in
      let n : length w.content ≡ length raw + length d.written + length m.written + 64 =
        ap length con ∙ join_length raw d.written m.written t in
      let small' : length raw + length d.written + length m.written + 64 < 2 ^ 63 =
        subst (λ x. x < 2 ^ 63) n small in
      let count' : t.part_count < 2 ^ 32 = subst (λ x. x.part_count < 2 ^ 32) rec count in
      let parsed =
        read_header-encode_header platform codec h raw (d.written ++ (m.written ++ e)) law enc in
      let long_d =
        encrypt_stream-long cipher keys.data_key (section_aad hash 1) (whole payload) fd in
      let long_m =
        encrypt_stream-long cipher keys.manifest_key (section_aad hash 2) (whole manifest) fm in
      rw (rec, con)
        (
          rw (parsed, read_structure)
              (read_trailer-encode h raw d.written m.written split_size long_d long_m small'
                count'),
          rw (take-middle raw d.written (m.written ++ e))
              (decrypt_stream-encrypt_stream cipher keys.data_key (section_aad hash 1) payload
                dk).1,
          rw (take-later raw d.written m.written e)
              (decrypt_stream-encrypt_stream cipher keys.manifest_key (section_aad hash 2) manifest
                mk).1,
          ap (λ x. part_count x split_size) (sym n)
              ∙ part_count-parts_needed (length w.content) split_size sizes
              ∙ ap (λ x. parts_needed (length x) split_size) con,
        )
