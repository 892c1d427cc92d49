-- ===== src/Examples/Crypto.antt =====
-- Streams, key sets and recovery codes under the plain cipher.
use restore_safe.Container.KeySet.{
  KeySet, Slot, add_slot, new_slot, regular_slot_type, slot_aad, slot_indexes, slot_password,
  slot_recovery, unlock, with_slot,
}
use restore_safe.Base.{
  AreBytes, Bytes, [], arith, be32, be64, codes, length, ltb, none, refl, text_eq, true, ◌++◌, ◌+◌,
  ◌∷◌, ◌≡◌, ◌≤◌,
}
use restore_safe.Io.{whole}
use restore_safe.Text.{all_bytes}
use restore_safe.Cryptox.Key.{Argon2Params, ok}
use restore_safe.Cryptox.Stream.{decrypt_stream, encrypt_stream}
use restore_safe.Cryptox.Stream.RoundTrip.{decrypt_stream-encrypt_stream}
use restore_safe.Cryptox.Stream.Authentic.{SealedChunks, decrypt_stream-authentic}
use restore_safe.Container.KeySet.Slots.{unlock-add_slot, unlock-add_slot_before}
use restore_safe.Container.KeySet.Counts.{validate-slot_indexes}
use restore_safe.Recovery.{display, generate}
use restore_safe.Recovery.RoundTrip.{IsValidCode}
use restore_safe.Recovery.Generate.{parse-display-generate}
use restore_safe.Examples.Platforms.{
  first_bytes, length-first_bytes, plain_cipher, plain_platform, plain_tag, zeros, zeros32,
}

abbrev message : Bytes
message = codes "notes"

abbrev prefix : Bytes
prefix = codes "hash"

decrypt_stream-encrypt_stream_example :
    ((encrypt_stream plain_cipher zeros32 prefix (whole message)).failure ≡ none)
    × (decrypt_stream plain_cipher zeros32 prefix
          (whole (encrypt_stream plain_cipher zeros32 prefix (whole message)).written)
        ≡ record { written = message; failure = none })
decrypt_stream-encrypt_stream_example =
    decrypt_stream-encrypt_stream plain_cipher zeros32 prefix message refl

all_bytes-AreBytes : (bs : Bytes) → all_bytes (λ b. ltb b 256) bs ≡ true → AreBytes bs
unfolding all_bytes
all_bytes-AreBytes [] h = tt
all_bytes-AreBytes (b ∷ bs) h = (ground arith, all_bytes-AreBytes bs (ground arith))

abbrev sealed_message : Bytes
sealed_message = (encrypt_stream plain_cipher zeros32 prefix (whole message)).written

sealed_message-bytes : all_bytes (λ b. ltb b 256) sealed_message ≡ true
unfolding all_bytes encrypt_stream restore_safe.Io.read_full
    restore_safe.Cryptox.Stream.encrypted_chunk restore_safe.Base.be32
    restore_safe.Cryptox.Stream.nonce restore_safe.Base.be64 restore_safe.Cryptox.Stream.chunk_aad
sealed_message-bytes = refl

decrypt_stream-authentic_example :
    SealedChunks plain_cipher zeros32 prefix 0 sealed_message
      (decrypt_stream plain_cipher zeros32 prefix (whole sealed_message)).written
decrypt_stream-authentic_example =
    decrypt_stream-authentic plain_cipher zeros32 prefix (whole sealed_message)
      (all_bytes-AreBytes sealed_message sealed_message-bytes)
      (rw (decrypt_stream-encrypt_stream_example.1) refl)

abbrev params : Argon2Params
params = record { time = 3; memory_kb = 65536; threads = 4 }

abbrev keys0 : KeySet
keys0 = record {
  id = codes "0123456789abcdef0123456789abcdef";
  created_utc = codes "2026-01-01T00:00:00Z";
  auth_mode = 1;
  slots = [];
}

abbrev pub slot1 : Slot
slot1 = new_slot slot_password (codes "main") params none [] zeros32 (zeros 12) (
    zeros32
    ++ plain_tag (first_bytes (codes "secret")) (zeros 12) (slot_aad keys0.id 0 slot_password))

abbrev pub keys1 : KeySet
keys1 = with_slot keys0 slot1

abbrev keys2 : KeySet
keys2 = with_slot keys1 (
    new_slot slot_recovery (codes "code") params none (codes "ABCDE") zeros32 (zeros 12) (
      zeros32
      ++ plain_tag (first_bytes (codes "paper")) (zeros 12) (slot_aad keys1.id 1 slot_recovery)))

add_keys1 :
    add_slot plain_platform plain_cipher keys0 zeros32 slot_password
      (codes "main")
      (codes "secret")
      params
      none
      []
      zeros32
      (zeros 12)
    ≡ ok keys1
unfolding add_slot restore_safe.Cryptox.Key.derive_kek
    restore_safe.Cryptox.Key.validate_argon2_params restore_safe.Cryptox.Key.seal_key
add_keys1 = refl

add_keys2 :
    add_slot plain_platform plain_cipher keys1 zeros32 slot_recovery
      (codes "code")
      (codes "paper")
      params
      none
      (codes "ABCDE")
      zeros32
      (zeros 12)
    ≡ ok keys2
unfolding add_slot restore_safe.Cryptox.Key.derive_kek
    restore_safe.Cryptox.Key.validate_argon2_params restore_safe.Cryptox.Key.seal_key
add_keys2 = refl

unlock-add_slot_example : unlock plain_platform plain_cipher keys1 0 (codes "secret") ≡ ok zeros32
unlock-add_slot_example =
    unlock-add_slot plain_platform plain_cipher keys0 keys1 zeros32 slot_password (codes "main")
      (codes "secret") params none [] zeros32 (zeros 12) (omega arith) add_keys1

unlock-add_slot_before_example :
    unlock plain_platform plain_cipher keys2 0 (codes "secret")
    ≡ unlock plain_platform plain_cipher keys1 0 (codes "secret")
unlock-add_slot_before_example =
    unlock-add_slot_before plain_platform plain_cipher keys1 keys2 zeros32 slot_recovery
      (codes "code") (codes "paper") params none (codes "ABCDE") zeros32 (zeros 12) 0
      (codes "secret") add_keys2 (omega arith)

keys2-valid : restore_safe.Container.KeySet.Validate.validate plain_platform keys2 ≡ none
unfolding restore_safe.Container.KeySet.Validate.validate all_bytes restore_safe.Base.text_eq
    regular_slot_type restore_safe.Cryptox.Key.validate_argon2_params slot_aad
    restore_safe.Recovery.valid_check
keys2-valid = refl

validate-slot_indexes_example :
    (length (slot_indexes keys2 (regular_slot_type 1)) ≡ 1)
    × (length (slot_indexes keys2 slot_recovery) ≤ 1)
    × (length (slot_indexes keys2 (regular_slot_type 1)) + length (slot_indexes keys2 slot_recovery)
        ≡ 2)
validate-slot_indexes_example = validate-slot_indexes plain_platform keys2 keys2-valid

parse-display-generate_example :
    IsValidCode first_bytes (generate first_bytes (zeros 16))
    × (restore_safe.Recovery.parse first_bytes (display (generate first_bytes (zeros 16)))
        ≡ restore_safe.Recovery.ok (generate first_bytes (zeros 16)))
parse-display-generate_example =
    parse-display-generate first_bytes (zeros 16) refl length-first_bytes
