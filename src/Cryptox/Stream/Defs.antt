-- ===== src/Cryptox/Stream/Defs.antt =====
-- crypto.go: EncryptStream, DecryptStream, writeEncryptedChunk and chunkParams.
use restore_safe.Cryptox.Gcm.{Aead, gcm_tag_len, key_len}
use restore_safe.Io.{Source, eof, failed, got, read_full, unexpected_eof}
use restore_safe.Base.{
  Bool, Bytes, Option, [], be32, be64, false, from_be32, if◌then◌else◌, length, ltb, none, not,
  some, suc, true, zero, ℕ, ◌%◌, ◌&&◌, ◌*◌, ◌++◌, ◌+◌, ◌==◌, ◌^◌, ◌||◌, ◌∷◌,
}

abbrev pub chunk_size : ℕ
chunk_size = 8 * 1024 * 1024

abbrev pub max_encrypted_chunk_size : ℕ
max_encrypted_chunk_size = chunk_size + gcm_tag_len

abbrev pub chunk_flag_final : ℕ
chunk_flag_final = 1

pub data StreamError : Type 0 where
  invalid_key_length read_plaintext missing_final_chunk read_flags data_after_final : StreamError
  invalid_flags read_length invalid_length read_chunk_data corrupted : StreamError
  invalid_nonfinal_size out_of_fuel : StreamError

pub record Sink : Type 0 where
  pub written : Bytes
  pub failure : Option StreamError

abbrev pub stop : StreamError → Sink
stop e = record { written = []; failure = some e }

abbrev pub finish : Sink
finish = record { written = []; failure = none }

abbrev pub write : Bytes → Sink → Sink
write bs rest = record rest { written = bs ++ rest.written }

-- chunkParams.nonce: four zero bytes, then the index.
unfoldable pub nonce : ℕ → Bytes
nonce index = 0 ∷ 0 ∷ 0 ∷ 0 ∷ be64 index

-- chunkParams.aad: the caller's prefix, the index and the flags.
unfoldable pub chunk_aad : Bytes → ℕ → ℕ → Bytes
chunk_aad aad_prefix index flags = aad_prefix ++ (be64 index ++ flags ∷ [])

-- `chunkIndex++` on a uint64.
abbrev pub next_index : ℕ → ℕ
next_index index = (index + 1) % 2 ^ 64

-- What one round of DecryptStream makes of the source: the stream is over, or it is refused, or it
-- gives a chunk's plaintext, whether the chunk was the final one, and the source behind it.
pub data Round : Type 0 where
  over : Round
  refused : StreamError → Round
  chunk : Bytes → Bool → Source → Round

abbrev pub flags_of : Bool → ℕ
flags_of true = chunk_flag_final
flags_of false = 0

module _ (cipher : Aead) (key aad_prefix : Bytes) where
  open cipher use {seal, open_sealed}

  abbrev pub sealed : ℕ → ℕ → Bytes → Bytes
  sealed index flags plaintext = seal key (nonce index) plaintext (chunk_aad aad_prefix index flags)

  -- writeEncryptedChunk: one flag byte, the length of the ciphertext, the ciphertext.
  unfoldable pub encrypted_chunk : ℕ → Bytes → Bool → Bytes
  encrypted_chunk index plaintext is_final =
      let flags : ℕ = flags_of is_final in
      let body = sealed index flags plaintext in flags ∷ (be32 (length body) ++ body)

  -- The loop of EncryptStream.
  unfoldable pub encrypt_chunks : ℕ → ℕ → Source → Sink
  encrypt_chunks zero index src = stop out_of_fuel
  encrypt_chunks (suc fuel) index src = elim (read_full chunk_size src) [
    | got buf rest ↦
        write (encrypted_chunk index buf false) (encrypt_chunks fuel (next_index index) rest)
    | eof ↦ write (encrypted_chunk index [] true) finish
    | unexpected_eof ↦ write (encrypted_chunk index src.content true) finish
    | failed ↦ stop read_plaintext
  ]

  -- EncryptStream. Every full chunk uses a byte of the source at least, so a round for each byte and
  -- one for the final chunk are enough.
  unfoldable pub encrypt_stream : Source → Sink
  unfolding encrypt_chunks
  encrypt_stream src =
      if length key == key_len
      then encrypt_chunks (suc (length src.content)) 0 src
      else stop invalid_key_length

  -- The end of a round: gcm.Open and the size check.
  unfoldable pub open_chunk : ℕ → ℕ → Bytes → Source → Round
  open_chunk index flags encrypted rest =
      elim (open_sealed key (nonce index) encrypted (chunk_aad aad_prefix index flags)) [
        | none ↦ refused corrupted
        | some plaintext ↦
            if not (flags == chunk_flag_final) && not (length plaintext == chunk_size)
            then refused invalid_nonfinal_size
            else chunk plaintext (flags == chunk_flag_final) rest
      ]

  -- From the length on.
  unfoldable pub read_body : ℕ → ℕ → Source → Round
  read_body index flags src = elim (read_full 4 src) [
    | got prefix rest ↦
        let size = from_be32 prefix in
        if ltb size gcm_tag_len || ltb max_encrypted_chunk_size size
        then refused invalid_length
        else elim (read_full size rest) [
          | got encrypted rest' ↦ open_chunk index flags encrypted rest'
          | _ ↦ refused read_chunk_data
        ]
    | _ ↦ refused read_length
  ]

  -- The behaviour on the flag byte.
  unfoldable pub read_flagged : Bool → ℕ → Bytes → Source → Round
  read_flagged saw_final index (flags ∷ _) rest =
      if saw_final
      then refused data_after_final
      else if not (flags == 0) && not (flags == chunk_flag_final)
      then refused invalid_flags
      else read_body index flags rest
  read_flagged saw_final index [] rest = refused read_flags

  unfoldable pub read_chunk : Bool → ℕ → Source → Round
  read_chunk saw_final index src = elim (read_full 1 src) [
    | got prefix rest ↦ read_flagged saw_final index prefix rest
    | eof ↦ if saw_final then over else refused missing_final_chunk
    | unexpected_eof ↦ refused read_flags
    | failed ↦ refused read_flags
  ]

  -- The loop of DecryptStream.
  unfoldable pub decrypt_chunks : ℕ → Bool → ℕ → Source → Sink
  decrypt_chunks zero saw_final index src = stop out_of_fuel
  decrypt_chunks (suc fuel) saw_final index src = elim (read_chunk saw_final index src) [
    | over ↦ finish
    | refused e ↦ stop e
    | chunk plaintext is_final rest ↦
        write plaintext (decrypt_chunks fuel is_final (next_index index) rest)
  ]

  -- DecryptStream. Every chunk uses a byte of the source at least.
  unfoldable pub decrypt_stream : Source → Sink
  unfolding decrypt_chunks
  decrypt_stream src =
      if length key == key_len
      then decrypt_chunks (suc (length src.content)) false 0 src
      else stop invalid_key_length
