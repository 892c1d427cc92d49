-- ===== src/Cryptox/Key.antt =====
-- crypto.go: key derivation and the wrapping of keys.
use restore_safe.Cryptox.Platform.{Platform}
use restore_safe.Cryptox.Gcm.{Aead, key_len, nonce_len}
use restore_safe.Base.{
  Bytes, Option, arith, if◌then◌else◌, inl, inr, length, ltb, none, not, refl, some, ℕ, ◌*◌, ◌==◌,
  ◌||◌, ◌≡◌, ◌⊎◌,
}

abbrev pub salt_len : ℕ
salt_len = 32

abbrev pub min_argon_time : ℕ
min_argon_time = 2

abbrev pub max_argon_time : ℕ
max_argon_time = 20

abbrev pub min_argon_memory_kb : ℕ
min_argon_memory_kb = 64 * 1024

abbrev pub max_argon_memory_kb : ℕ
max_argon_memory_kb = 4096 * 1024

abbrev pub min_argon_threads : ℕ
min_argon_threads = 1

abbrev pub max_argon_threads : ℕ
max_argon_threads = 255

pub data KeyError : Type 0 where
  invalid_time invalid_memory invalid_threads invalid_salt_length invalid_nonce_length : KeyError
  invalid_key_length wrong_password no_such_slot : KeyError

pub data KeyResult {ℓ} (A : Type ℓ) : Type ℓ where
  ok : A → KeyResult A
  err : KeyError → KeyResult A

pub KeyResult-cases {ℓ} :
    {A : Type ℓ} (r : KeyResult A) → ((a : A) × (r ≡ ok a)) ⊎ ((e : KeyError) × (r ≡ err e))
KeyResult-cases (ok a) = inl (a, refl)
KeyResult-cases (err e) = inr (e, refl)

infixl 5 ◌>>=◌
abbrev pub ◌>>=◌ {ℓ κ} : {A : Type ℓ} {B : Type κ} → KeyResult A → (A → KeyResult B) → KeyResult B
ok a >>= f = f a
err e >>= f = err e

pub record Argon2Params : Type 0 where
  pub time : ℕ
  pub memory_kb : ℕ
  -- A uint8.
  pub threads : ℕ

-- ValidateArgon2Params
unfoldable pub validate_argon2_params : ℕ → ℕ → ℕ → Option KeyError
validate_argon2_params time memory_kb threads =
    if ltb time min_argon_time || ltb max_argon_time time
    then some invalid_time
    else if ltb memory_kb min_argon_memory_kb || ltb max_argon_memory_kb memory_kb
    then some invalid_memory
    else if ltb threads min_argon_threads || ltb max_argon_threads threads
    then some invalid_threads
    else none

module _ (platform : Platform) (cipher : Aead) where
  open platform use {argon2_id_key, hkdf_key}
  open cipher use {seal, open_sealed}

  -- DeriveKEK
  unfoldable pub derive_kek : Bytes → Bytes → Argon2Params → KeyResult Bytes
  derive_kek secret salt params =
      if not (length salt == salt_len)
      then err invalid_salt_length
      else elim (validate_argon2_params params.time params.memory_kb params.threads) [
        | some e ↦ err e
        | none ↦ ok (argon2_id_key secret salt params.time params.memory_kb params.threads)
      ]

  -- SealKey; the first test is that of newGCM.
  unfoldable pub seal_key : Bytes → Bytes → Bytes → Bytes → KeyResult Bytes
  seal_key kek nonce plaintext aad =
      if not (length kek == key_len)
      then err invalid_key_length
      else if not (length nonce == nonce_len)
      then err invalid_nonce_length
      else ok (seal kek nonce plaintext aad)

  -- OpenKey
  unfoldable pub open_key : Bytes → Bytes → Bytes → Bytes → KeyResult Bytes
  open_key kek nonce ciphertext aad =
      if not (length kek == key_len)
      then err invalid_key_length
      else if not (length nonce == nonce_len)
      then err invalid_nonce_length
      else elim (open_sealed kek nonce ciphertext aad) [
        | none ↦ err wrong_password
        | some plaintext ↦ ok plaintext
      ]

  -- DeriveSubkey
  unfoldable pub derive_subkey : Bytes → Bytes → Bytes → KeyResult Bytes
  derive_subkey master salt info =
      if not (length master == key_len)
      then err invalid_key_length
      else ok (hkdf_key master salt info)

  -- A key that was sealed is opened with the same key, nonce and data.
  pub open_key-seal_key :
      (kek nonce plaintext aad sealed : Bytes)
      → seal_key kek nonce plaintext aad ≡ ok sealed
      → open_key kek nonce sealed aad ≡ ok plaintext
  unfolding seal_key open_key
  open_key-seal_key kek nonce plaintext aad sealed h =
      ground (arith, cipher.open-seal kek nonce plaintext aad)
