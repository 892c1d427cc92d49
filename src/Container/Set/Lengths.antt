-- ===== src/Container/Set/Lengths.antt =====
-- set.go: how long the encrypted sections are.
use restore_safe.Cryptox.Stream.{
  chunk_aad, chunk_size, encrypt_chunks, encrypt_stream, encrypted_chunk, flags_of, next_index,
  nonce, sealed,
}
use restore_safe.Cryptox.Gcm.{Aead, key_len}
use restore_safe.Io.{Read-cases, Source, read_full}
use restore_safe.Base.{
  Bool, Bool-cases, Bytes, [], arith, be32, false, inl, inr, length, length-append, length-be32,
  none, suc, true, zero, ℕ, ◌==◌, ◌≡◌, ◌≤◌,
}

module _ (cipher : Aead) (key aad : Bytes) where
  encrypted_chunk-long :
      (index : ℕ) (p : Bytes) (is_final : Bool)
      → 21 ≤ length (encrypted_chunk cipher key aad index p is_final)
  unfolding encrypted_chunk
  encrypted_chunk-long index p is_final =
      let body = sealed cipher key aad index (flags_of is_final) p in
      omega (
        arith,
        length-append (be32 (length body)) body,
        length-be32 (length body),
        cipher.length-seal key (nonce index) p (chunk_aad aad index (flags_of is_final)),
      )

  encrypt_chunks-long :
      (fuel index : ℕ) (src : Source)
      → (encrypt_chunks cipher key aad fuel index src).failure ≡ none
      → 21 ≤ length (encrypt_chunks cipher key aad fuel index src).written
  unfolding encrypt_chunks
  encrypt_chunks-long zero index src h = absurd (cc h)
  encrypt_chunks-long (suc fuel) index src h = elim (Read-cases (read_full chunk_size src)) [
    | inl (buf, rest, e) ↦
        rw (e, encrypt_chunks)
          (let long = encrypted_chunk-long index buf false in
            omega (
              arith,
              length-append (encrypted_chunk cipher key aad index buf false)
                  (encrypt_chunks cipher key aad fuel (next_index index) rest).written,
            ))
    | inr (inl e) ↦
        rw (e, encrypt_chunks)
          (let long = encrypted_chunk-long index [] true in
            omega (arith, length-append (encrypted_chunk cipher key aad index [] true) []))
    | inr (inr (inl e)) ↦
        rw (e, encrypt_chunks)
          (let long = encrypted_chunk-long index src.content true in
            omega (arith, length-append (encrypted_chunk cipher key aad index src.content true) []))
    | inr (inr (inr e)) ↦ absurd (cc (rw (e, encrypt_chunks) at h))
  ]

  pub encrypt_stream-long :
      (src : Source)
      → (encrypt_stream cipher key aad src).failure ≡ none
      → 21 ≤ length (encrypt_stream cipher key aad src).written
  unfolding encrypt_stream
  encrypt_stream-long src h = elim (Bool-cases (length key == key_len)) [
    | inl e ↦
        rw (e, encrypt_stream)
          (encrypt_chunks-long (suc (length src.content)) 0 src (rw (e, encrypt_stream) at h))
    | inr e ↦ absurd (cc (rw (e, encrypt_stream) at h))
  ]
