-- ===== src/Cryptox/Stream/Authentic.antt =====
-- crypto.go: the streams that DecryptStream accepts.
use restore_safe.Cryptox.Stream.Defs.{
  Round, StreamError, chunk, chunk_aad, chunk_size, data_after_final, decrypt_chunks,
  decrypt_stream, encrypted_chunk, finish, flags_of, next_index, nonce, open_chunk, over, read_body,
  read_chunk, read_flagged, read_flags, refused, sealed,
}
use restore_safe.Io.{Read-cases, Source, got, read_full, read_full-eof, read_full-got}
use restore_safe.Base.{
  AreBytes, AreBytes-append, Bool, Bool-cases, Bytes, [], ap, append-nil, append_assoc, arith, be32,
  be32-from_be32, false, from_be32, inl, inr, length, none, refl, subst, suc, sym, true, zero, ℕ,
  ◌++◌, ◌+◌, ◌==◌, ◌∙◌, ◌∷◌, ◌≡◌, ◌≢◌, ◌≤◌, ◌⊎◌,
}
use restore_safe.Cryptox.Gcm.{Aead, gcm_tag_len, key_len}

-- A flag byte, a length and a body of that length.
reframe :
    (flags : ℕ) (src mid mid' after prefix body : Bytes)
    → AreBytes src
    → src ≡ flags ∷ mid
    → mid ≡ prefix ++ mid'
    → length prefix ≡ 4
    → mid' ≡ body ++ after
    → length body ≡ from_be32 prefix
    → src ≡ flags ∷ ((be32 (length body) ++ body) ++ after)
reframe flags src mid mid' after prefix body bytes e1 e2 four e3 size =
    let mid_bytes : AreBytes mid = (subst AreBytes e1 bytes).1 in
    let prefix_bytes = (AreBytes-append prefix mid' (subst AreBytes e2 mid_bytes)).0 in
    let same : be32 (length body) ≡ prefix =
      ap be32 size ∙ be32-from_be32 prefix four prefix_bytes in
    e1
    ∙ ap (◌∷◌ flags) (
        e2
        ∙ ap (λ x. prefix ++ x) e3
        ∙ sym (append_assoc prefix body after)
        ∙ ap (λ x. (x ++ body) ++ after) (sym same))

module _ (cipher : Aead) (key aad_prefix : Bytes) where
  -- A stream of sealed chunks from `index` on, and its plaintext.
  pub data SealedChunks : ℕ → Bytes → Bytes → Type 0 where
    last :
        {index : ℕ} {stream : Bytes} (p : Bytes)
        → length p ≤ chunk_size
        → stream ≡ encrypted_chunk cipher key aad_prefix index p true
        → SealedChunks index stream p
    more :
        {index : ℕ} {stream plaintext : Bytes} (p rest rest_plaintext : Bytes)
        → length p ≡ chunk_size
        → stream ≡ encrypted_chunk cipher key aad_prefix index p false ++ rest
        → plaintext ≡ p ++ rest_plaintext
        → SealedChunks (next_index index) rest rest_plaintext
        → SealedChunks index stream plaintext

  open_chunk-authentic :
      (index : ℕ) (was_final : Bool) (body p : Bytes) (rest rest' : Source) (is_final : Bool)
      → length body ≤ chunk_size + gcm_tag_len
      → open_chunk cipher key aad_prefix index (flags_of was_final) body rest
        ≡ chunk p is_final rest'
      → (body ≡ sealed cipher key aad_prefix index (flags_of is_final) p)
        × (is_final ≡ was_final)
        × (rest' ≡ rest)
        × (length p ≤ chunk_size)
        × (is_final ≡ false → length p ≡ chunk_size)
  unfolding open_chunk
  open_chunk-authentic index true body p rest rest' is_final hi h =
      let aad = chunk_aad aad_prefix index 1 in
      ground (
        arith,
        cipher.open_authentic key (nonce index) body aad p,
        cipher.length-seal key (nonce index) p aad,
      )
  open_chunk-authentic index false body p rest rest' is_final hi h =
      let aad = chunk_aad aad_prefix index 0 in
      ground (
        arith,
        cipher.open_authentic key (nonce index) body aad p,
        cipher.length-seal key (nonce index) p aad,
      )

  -- Past the flag byte: a length that fits, and a body of that length.
  read_body-chunk :
      (index flags : ℕ) (src rest : Source) (p : Bytes) (is_final : Bool)
      → read_body cipher key aad_prefix index flags src ≡ chunk p is_final rest
      → (prefix body : Bytes) × (mid after : Source) × (read_full 4 src ≡ got prefix mid)
        × (read_full (from_be32 prefix) mid ≡ got body after)
        × (from_be32 prefix ≤ chunk_size + gcm_tag_len)
        × (open_chunk cipher key aad_prefix index flags body after ≡ chunk p is_final rest)
  unfolding read_body
  read_body-chunk index flags src rest p is_final h = elim (Read-cases (read_full 4 src)) [
    | inl (prefix, mid, e) ↦ elim (Read-cases (read_full (from_be32 prefix) mid)) [
      | inl (body, after, k) ↦ (prefix, body, mid, after, e, k, ground arith, ground arith)
      | inr no_data ↦ absurd (ground arith)
    ]
    | inr no_length ↦ absurd (ground arith)
  ]

  read_flagged-chunk :
      (index : ℕ) (prefix : Bytes) (mid rest : Source) (p : Bytes) (is_final : Bool)
      → length prefix ≡ 1
      → read_flagged cipher key aad_prefix false index prefix mid ≡ chunk p is_final rest
      → (was_final : Bool) × (prefix ≡ flags_of was_final ∷ [])
        × (read_body cipher key aad_prefix index (flags_of was_final) mid ≡ chunk p is_final rest)
  unfolding read_flagged
  read_flagged-chunk index [] mid rest p is_final l h = absurd (omega arith)
  read_flagged-chunk index (f ∷ g ∷ x) mid rest p is_final l h = absurd (omega arith)
  read_flagged-chunk index (f ∷ []) mid rest p is_final l h = elim (Bool-cases (f == 1)) [
    | inl is_one ↦
        let e : f ≡ 1 = ground arith in (true, ap (λ x. x ∷ []) e, rw (← e) (ground arith))
    | inr other ↦
        let e : f ≡ 0 = ground arith in (false, ap (λ x. x ∷ []) e, rw (← e) (ground arith))
  ]

  read_chunk-chunk :
      (index : ℕ) (src rest : Source) (p : Bytes) (is_final : Bool)
      → read_chunk cipher key aad_prefix false index src ≡ chunk p is_final rest
      → (was_final : Bool) × (mid : Source) × (read_full 1 src ≡ got (flags_of was_final ∷ []) mid)
        × (read_body cipher key aad_prefix index (flags_of was_final) mid ≡ chunk p is_final rest)
  unfolding read_chunk
  read_chunk-chunk index src rest p is_final h = elim (Read-cases (read_full 1 src)) [
    | inl (prefix, mid, e) ↦
        let (was_final, k, body) =
          read_flagged-chunk index prefix mid rest p is_final (read_full-got 1 src mid prefix e).1
            (ground arith) in
        (was_final, mid, e ∙ ap (λ x. got x mid) k, body)
    | inr no_flags ↦ absurd (ground arith)
  ]

  -- A round that gives a chunk has read what the writer makes of that chunk.
  read_chunk-authentic :
      (index : ℕ) (src rest : Source) (p : Bytes) (is_final : Bool)
      → AreBytes src.content
      → read_chunk cipher key aad_prefix false index src ≡ chunk p is_final rest
      → (src.content ≡ encrypted_chunk cipher key aad_prefix index p is_final ++ rest.content)
        × (rest.broken ≡ src.broken)
        × (length p ≤ chunk_size)
        × (is_final ≡ false → length p ≡ chunk_size)
  unfolding encrypted_chunk
  read_chunk-authentic index src rest p is_final bytes h =
      let (was_final, mid, e1, h1) = read_chunk-chunk index src rest p is_final h in
      let (prefix, body, mid', after, e2, e3, fits, h2) =
        read_body-chunk index (flags_of was_final) mid rest p is_final h1 in
      let (sealed_body, same, end, small, full) =
        open_chunk-authentic index was_final body p after rest is_final
          (omega (arith, (read_full-got _ _ _ _ e3).1)) h2 in
      let (c1, l1, b1) = read_full-got 1 src mid (flags_of was_final ∷ []) e1 in
      let (c2, l2, b2) = read_full-got 4 mid mid' prefix e2 in
      let (c3, l3, b3) = read_full-got (from_be32 prefix) mid' after body e3 in
      let framed =
        reframe (flags_of was_final) src.content mid.content mid'.content after.content prefix body
          bytes c1 c2 l2 c3 l3 in
      (cc framed, cc, small, full)

  AreBytes-rest :
      (index : ℕ) (src rest : Source) (p : Bytes) (is_final : Bool)
      → AreBytes src.content
      → src.content ≡ encrypted_chunk cipher key aad_prefix index p is_final ++ rest.content
      → AreBytes rest.content
  AreBytes-rest index src rest p is_final bytes e =
      (AreBytes-append (encrypted_chunk cipher key aad_prefix index p is_final) rest.content
        (subst AreBytes e bytes)).1

  read_flagged-refused :
      (index : ℕ) (prefix : Bytes) (rest : Source)
      → (e : StreamError) × (read_flagged cipher key aad_prefix true index prefix rest ≡ refused e)
  unfolding read_flagged
  read_flagged-refused index [] rest = (read_flags, refl)
  read_flagged-refused index (f ∷ fs) rest = (data_after_final, refl)

  -- After the final chunk only the end of the stream is accepted.
  read_chunk-after_final :
      (index : ℕ) (src : Source)
      → ((read_chunk cipher key aad_prefix true index src ≡ over) × (src.content ≡ []))
        ⊎ ((e : StreamError) × (read_chunk cipher key aad_prefix true index src ≡ refused e))
  unfolding read_chunk
  read_chunk-after_final index src = elim (Read-cases (read_full 1 src)) [
    | inl (prefix, mid, e) ↦
        let (why, k) = read_flagged-refused index prefix mid in inr (why, rw (e, read_chunk) k)
    | inr (inl e) ↦ inl (rw (e, read_chunk), read_full-eof 1 src e)
    | inr (inr (inl e)) ↦ inr (read_flags, rw (e, read_chunk))
    | inr (inr (inr e)) ↦ inr (read_flags, rw (e, read_chunk))
  ]

  decrypt_chunks-after_final :
      (fuel index : ℕ) (src : Source)
      → (decrypt_chunks cipher key aad_prefix fuel true index src).failure ≡ none
      → (src.content ≡ []) × (decrypt_chunks cipher key aad_prefix fuel true index src ≡ finish)
  unfolding decrypt_chunks
  decrypt_chunks-after_final zero index src h = absurd (cc)
  decrypt_chunks-after_final (suc fuel) index src h = elim (read_chunk-after_final index src) [
    | inl (e, empty) ↦ (empty, rw (e, decrypt_chunks))
    | inr (why, e) ↦ absurd (ground arith)
  ]

  read_chunk-open :
      (index : ℕ) (src : Source) → read_chunk cipher key aad_prefix false index src ≢ over
  unfolding read_chunk read_flagged read_body open_chunk
  read_chunk-open index src h = ground arith

  Round-cases :
      (r : Round)
      → (r ≡ over)
        ⊎ ((e : StreamError) × (r ≡ refused e))
        ⊎ ((p : Bytes) × (is_final : Bool) × (rest : Source) × (r ≡ chunk p is_final rest))
  Round-cases over = inl refl
  Round-cases (refused e) = inr (inl (e, refl))
  Round-cases (chunk p is_final rest) = inr (inr (p, is_final, rest, refl))

  -- One more chunk in front of what is accepted from there on.
  SealedChunks-chunk :
      (fuel index : ℕ) (p : Bytes) (is_final : Bool) (content : Bytes) (rest : Source)
      → length p ≤ chunk_size
      → (is_final ≡ false → length p ≡ chunk_size)
      → content ≡ encrypted_chunk cipher key aad_prefix index p is_final ++ rest.content
      → (decrypt_chunks cipher key aad_prefix fuel is_final (next_index index) rest).failure ≡ none
      → ((decrypt_chunks cipher key aad_prefix fuel false (next_index index) rest).failure ≡ none
          → SealedChunks
              (next_index index)
              rest.content
              (decrypt_chunks cipher key aad_prefix fuel false (next_index index) rest).written)
      → SealedChunks index content (
          p ++ (decrypt_chunks cipher key aad_prefix fuel is_final (next_index index) rest).written)
  SealedChunks-chunk fuel index p true content rest small full e h ih =
      let (empty, end) = decrypt_chunks-after_final fuel (next_index index) rest h in
      rw (end, append-nil) (last p small (e ∙ rw (empty, append-nil)))
  SealedChunks-chunk fuel index p false content rest small full e h ih =
      more p rest.content _ (full refl) e refl (ih h)

  -- What is accepted from `index` on, whatever fuel is given.
  decrypt_chunks-authentic :
      (fuel index : ℕ) (src : Source)
      → AreBytes src.content
      → (decrypt_chunks cipher key aad_prefix fuel false index src).failure ≡ none
      → SealedChunks index src.content
          (decrypt_chunks cipher key aad_prefix fuel false index src).written
  unfolding decrypt_chunks
  decrypt_chunks-authentic zero index src bytes h = absurd (cc)
  decrypt_chunks-authentic (suc fuel) index src bytes h =
      elim (Round-cases (read_chunk cipher key aad_prefix false index src)) [
        | inl e ↦ absurd (read_chunk-open index src e)
        | inr (inl (why, e)) ↦ absurd (ground arith)
        | inr (inr (p, is_final, rest, e)) ↦
            let (content, _, small, full) =
              read_chunk-authentic index src rest p is_final bytes e in
            rw (e, decrypt_chunks)
              (SealedChunks-chunk fuel index p is_final src.content rest small full content
                (rw (e, decrypt_chunks) at h)
                (decrypt_chunks-authentic fuel (next_index index) rest
                  (AreBytes-rest index src rest p is_final bytes content)))
      ]

  -- Where DecryptStream reports success on a stream of bytes, the stream is a sequence of chunks
  -- sealed under the indexes 0, 1, 2, ..., all but the last full and not final, the last final, with
  -- nothing behind it, and what was written is their plaintext.
  pub decrypt_stream-authentic :
      (src : Source)
      → AreBytes src.content
      → (decrypt_stream cipher key aad_prefix src).failure ≡ none
      → SealedChunks 0 src.content (decrypt_stream cipher key aad_prefix src).written
  unfolding decrypt_stream
  decrypt_stream-authentic src bytes h = elim (Bool-cases (length key == key_len)) [
    | inl e ↦ rw e (decrypt_chunks-authentic (suc (length src.content)) 0 src bytes (rw e at h))
    | inr e ↦ absurd (ground arith)
  ]
