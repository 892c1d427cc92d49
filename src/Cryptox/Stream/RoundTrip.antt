-- ===== src/Cryptox/Stream/RoundTrip.antt =====
-- crypto.go: DecryptStream behind EncryptStream.
use restore_safe.Cryptox.Gcm.{Aead, gcm_tag_len, key_len}
use restore_safe.Cryptox.Stream.Defs.{
  chunk, chunk_aad, chunk_size, decrypt_chunks, decrypt_stream, encrypt_chunks, encrypt_stream,
  encrypted_chunk, finish, flags_of, max_encrypted_chunk_size, next_index, nonce, open_chunk,
  read_body, read_chunk, read_flagged, sealed, write,
}
use restore_safe.Io.{
  Source, read_full, read_full-append, read_full-enough, read_full-nil, read_full_short, whole,
}
use restore_safe.Base.{
  Bool, Bool-cases, Bytes, [], ap, append-nil, append_assoc, arith, be32, drop, false,
  from_be32-be32, inl, inr, leb, leb→le, length, length-append, length-be32, length-drop,
  length-take, none, refl, suc, take, take-append-drop, true, zero, ℕ, ◌++◌, ◌+◌, ◌<◌, ◌∙◌, ◌∷◌,
  ◌≡◌, ◌≤◌, ◌⊎◌,
}

flags_cases : (b : Bool) → (flags_of b ≡ 0) ⊎ (flags_of b ≡ 1)
flags_cases true = inr refl
flags_cases false = inl refl

module _ (cipher : Aead) (key aad_prefix : Bytes) where
  abbrev sealed_chunk : ℕ → Bytes → Bool → Bytes
  sealed_chunk index p is_final = sealed cipher key aad_prefix index (flags_of is_final) p

  pub length-sealed_chunk :
      (index : ℕ) (p : Bytes) (is_final : Bool)
      → length (sealed_chunk index p is_final) ≡ length p + gcm_tag_len
  length-sealed_chunk index p is_final = cipher.length-seal key _ p _

  open_chunk-sealed :
      (index : ℕ) (p : Bytes) (is_final : Bool) (rest : Source)
      → (is_final ≡ false → length p ≡ chunk_size)
      → open_chunk cipher key aad_prefix index
          (flags_of is_final)
          (sealed_chunk index p is_final)
          rest
        ≡ chunk p is_final rest
  unfolding open_chunk
  open_chunk-sealed index p true rest h =
      ground (arith, cipher.open-seal key (nonce index) p (chunk_aad aad_prefix index 1))
  open_chunk-sealed index p false rest h =
      ground (arith, h refl, cipher.open-seal key (nonce index) p (chunk_aad aad_prefix index 0))

  -- A body in front of `rest` is read by its length.
  read_body-framed :
      (index flags : ℕ) (body rest : Bytes)
      → gcm_tag_len ≤ length body
      → length body ≤ max_encrypted_chunk_size
      → read_body cipher key aad_prefix index flags (whole (be32 (length body) ++ (body ++ rest)))
        ≡ open_chunk cipher key aad_prefix index flags body (whole rest)
  unfolding read_body
  read_body-framed index flags body rest lo hi = ground (
    arith,
    read_full-append (be32 (length body)) (body ++ rest),
    read_full-append body rest,
    length-be32 (length body),
    from_be32-be32 (length body),
  )

  read_chunk-flagged :
      (index flags : ℕ) (rest : Bytes)
      → (flags ≡ 0) ⊎ (flags ≡ 1)
      → read_chunk cipher key aad_prefix false index (whole (flags ∷ rest))
        ≡ read_body cipher key aad_prefix index flags (whole rest)
  unfolding read_chunk read_flagged
  read_chunk-flagged index flags rest h = ground (arith, read_full-append (flags ∷ []) rest)

  -- A round of the reader on what the writer made of one chunk.
  read_chunk-encrypted :
      (index : ℕ) (p : Bytes) (is_final : Bool) (rest : Bytes)
      → length p ≤ chunk_size
      → (is_final ≡ false → length p ≡ chunk_size)
      → read_chunk cipher key aad_prefix false index
          (whole (encrypted_chunk cipher key aad_prefix index p is_final ++ rest))
        ≡ chunk p is_final (whole rest)
  unfolding encrypted_chunk
  read_chunk-encrypted index p is_final rest h k =
      let body = sealed_chunk index p is_final in
      read_chunk-flagged index (flags_of is_final) ((be32 (length body) ++ body) ++ rest)
        (flags_cases is_final)
      ∙ rw append_assoc (
          read_body-framed index (flags_of is_final) body rest
            (omega (arith, length-sealed_chunk index p is_final))
            (omega (arith, length-sealed_chunk index p is_final)))
      ∙ open_chunk-sealed index p is_final (whole rest) k

  encrypt_chunks-full :
      (fuel index : ℕ) (src : Bytes)
      → chunk_size ≤ length src
      → encrypt_chunks cipher key aad_prefix (suc fuel) index (whole src)
        ≡ write (encrypted_chunk cipher key aad_prefix index (take chunk_size src) false) (
            encrypt_chunks cipher key aad_prefix fuel
              (next_index index)
              (whole (drop chunk_size src)))
  unfolding encrypt_chunks
  encrypt_chunks-full fuel index src h =
      rw (read_full-enough chunk_size (whole src) h, encrypt_chunks)

  encrypt_chunks-last :
      (fuel index : ℕ) (src : Bytes)
      → length src < chunk_size
      → encrypt_chunks cipher key aad_prefix (suc fuel) index (whole src)
        ≡ write (encrypted_chunk cipher key aad_prefix index src true) finish
  unfolding encrypt_chunks
  encrypt_chunks-last fuel index [] h = rw (read_full-nil chunk_size h, encrypt_chunks)
  encrypt_chunks-last fuel index (b ∷ src) h =
      rw (read_full_short chunk_size b src h, encrypt_chunks)

  decrypt_chunks-encrypted :
      (fuel index : ℕ) (p : Bytes) (is_final : Bool) (rest : Bytes)
      → length p ≤ chunk_size
      → (is_final ≡ false → length p ≡ chunk_size)
      → decrypt_chunks cipher key aad_prefix
          (suc fuel)
          false
          index
          (whole (encrypted_chunk cipher key aad_prefix index p is_final ++ rest))
        ≡ write p
            (decrypt_chunks cipher key aad_prefix fuel is_final (next_index index) (whole rest))
  unfolding decrypt_chunks
  decrypt_chunks-encrypted fuel index p is_final rest h k =
      rw (read_chunk-encrypted index p is_final rest h k, decrypt_chunks)

  encrypted_chunk-nonempty :
      (index : ℕ) (p : Bytes) (is_final : Bool)
      → 2 ≤ length (encrypted_chunk cipher key aad_prefix index p is_final)
  unfolding encrypted_chunk be32
  encrypted_chunk-nonempty index p is_final = omega arith

  decrypt_chunks-over :
      (fuel index : ℕ)
      → 0 < fuel
      → decrypt_chunks cipher key aad_prefix fuel true index (whole []) ≡ finish
  unfolding decrypt_chunks read_chunk read_full
  decrypt_chunks-over zero index h = elim h [ ]
  decrypt_chunks-over (suc fuel) index h = refl

  -- Enough fuel for the writer, and for the reader on what the writer wrote.
  pub decrypt_chunks-encrypt_chunks :
      (fuel reader_fuel index : ℕ) (src : Bytes)
      → length src < fuel
      → length (encrypt_chunks cipher key aad_prefix fuel index (whole src)).written < reader_fuel
      → ((encrypt_chunks cipher key aad_prefix fuel index (whole src)).failure ≡ none)
        × (decrypt_chunks cipher key aad_prefix reader_fuel false index
              (whole (encrypt_chunks cipher key aad_prefix fuel index (whole src)).written)
            ≡ record { written = src; failure = none })
  decrypt_chunks-encrypt_chunks fuel zero index src h k = elim k [ ]
  decrypt_chunks-encrypt_chunks zero (suc g) index src h k = elim h [ ]
  decrypt_chunks-encrypt_chunks (suc fuel) (suc g) index src h k =
      elim (Bool-cases (leb chunk_size (length src))) [
        | inl full ↦
            let enough = leb→le chunk_size (length src) full in
            let e = encrypt_chunks-full fuel index src enough in
            let front = encrypted_chunk cipher key aad_prefix index (take chunk_size src) false in
            let rest =
              encrypt_chunks cipher key aad_prefix fuel (next_index index)
                (whole (drop chunk_size src)) in
            let ih =
              decrypt_chunks-encrypt_chunks fuel g (next_index index) (drop chunk_size src)
                (omega (arith, length-drop chunk_size src))
                (omega (
                  arith,
                  rw e at k,
                  length-append front rest.written,
                  encrypted_chunk-nonempty index (take chunk_size src) false,
                )) in
            rw e (
              ih.0,
              decrypt_chunks-encrypted g index (take chunk_size src) false rest.written
                    (omega (arith, length-take chunk_size src))
                    (λ _. omega (arith, length-take chunk_size src))
                  ∙ ap (write (take chunk_size src)) ih.1
                  ∙ rw take-append-drop,
            )
        | inr short ↦
            let e = encrypt_chunks-last fuel index src (ground arith) in
            let front = encrypted_chunk cipher key aad_prefix index src true in
            rw e (
              refl,
              decrypt_chunks-encrypted g index src true [] (ground arith) (λ x. cc)
                  ∙ ap (write src) (
                      decrypt_chunks-over g (next_index index) (
                        omega (
                          arith,
                          rw e at k,
                          length-append front [],
                          encrypted_chunk-nonempty index src true,
                        )))
                  ∙ rw append-nil,
            )
      ]

  -- With a key of 32 bytes, EncryptStream succeeds on every source that can be read to its end, and
  -- DecryptStream under the same key and prefix writes the source's bytes back and succeeds.
  pub decrypt_stream-encrypt_stream :
      (src : Bytes)
      → length key ≡ key_len
      → ((encrypt_stream cipher key aad_prefix (whole src)).failure ≡ none)
        × (decrypt_stream cipher key aad_prefix
              (whole (encrypt_stream cipher key aad_prefix (whole src)).written)
            ≡ record { written = src; failure = none })
  unfolding encrypt_stream decrypt_stream
  decrypt_stream-encrypt_stream src h =
      let sink = encrypt_chunks cipher key aad_prefix (suc (length src)) 0 (whole src) in
      rw h (
        decrypt_chunks-encrypt_chunks (suc (length src)) (suc (length sink.written)) 0 src
          (omega arith) (omega arith))
