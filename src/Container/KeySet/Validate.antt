-- ===== src/Container/KeySet/Validate.antt =====
-- keyset.go: validateSlot and KeySet.Validate.
use restore_safe.Base.{
  Bool, Bytes, List, Option, [], false, if◌then◌else◌, inl, inr, leb, length, ltb, none, not, some,
  text_eq, true, ℕ, ◌&&◌, ◌+◌, ◌==◌, ◌||◌, ◌∷◌, ◌⊎◌,
}
use restore_safe.Text.{all_bytes}
use restore_safe.Cryptox.Platform.{Platform}
use restore_safe.Cryptox.Gcm.{key_len, nonce_len}
use restore_safe.Cryptox.Key.{salt_len, validate_argon2_params}
use restore_safe.Recovery.{valid_check}
use restore_safe.Yubikey.Challenge.{challenge_ok}
use restore_safe.Container.KeySet.Defs.{
  KeySet, Slot, kdf_alg_argon2, regular_slot_type, slot_recovery, slot_yubikey, uses_yubikey,
}

pub data SlotError : Type 0 where
  invalid_label invalid_kdf invalid_argon2 invalid_wrapped_key missing_challenge damaged_challenge :
      SlotError
  challenge_mismatch unexpected_challenge invalid_check unexpected_check : SlotError

pub data KeySetError : Type 0 where
  invalid_id invalid_creation_time invalid_auth_mode no_slots type_mismatch slot_counts :
      KeySetError
  invalid_slot : SlotError → KeySetError

abbrev pub wrapped_key_len : ℕ
wrapped_key_len = key_len + 16

-- hex.DecodeString accepts exactly an even number of hexadecimal digits.
abbrev pub is_hex : ℕ → Bool
is_hex c = (leb b'0' c && leb c b'9') || (leb b'a' c && leb c b'f') || (leb b'A' c && leb c b'F')

abbrev pub bool_eq : Bool → Bool → Bool
bool_eq true b = b
bool_eq false b = not b

module _ (platform : Platform) where
  -- The end of validateSlot.
  unfoldable pub validate_check : Slot → Option SlotError
  validate_check s =
      if text_eq s.slot_type slot_recovery
      then (if valid_check s.check then none else some invalid_check)
      else if length s.check == 0
      then none
      else some unexpected_check

  -- Its part about the YubiKey challenge.
  unfoldable pub validate_challenge : Slot → Option SlotError
  validate_challenge s =
      if uses_yubikey s
      then elim s.challenge [
        | none ↦ some missing_challenge
        | some cd ↦
            if not (challenge_ok platform cd)
            then some damaged_challenge
            else if not (bool_eq cd.no_password (text_eq s.slot_type slot_yubikey))
            then some challenge_mismatch
            else validate_check s
      ]
      else elim s.challenge [ none ↦ validate_check s | some _ ↦ some unexpected_challenge ]

  -- validateSlot
  unfoldable pub validate_slot : Slot → Option SlotError
  validate_slot s =
      if length s.label == 0 || ltb 100 (length s.label)
      then some invalid_label
      else if not (text_eq s.kdf.alg kdf_alg_argon2) || not (length s.kdf.salt == salt_len)
      then some invalid_kdf
      else elim (validate_argon2_params s.kdf.time s.kdf.memory_kib s.kdf.threads) [
        | some _ ↦ some invalid_argon2
        | none ↦
            if not (length s.nonce == nonce_len) || not (length s.wrapped == wrapped_key_len)
            then some invalid_wrapped_key
            else validate_challenge s
      ]

  -- The loop of Validate: the counts of regular and of recovery slots, or the first error.
  unfoldable pub count_slots : Bytes → ℕ → ℕ → List Slot → (ℕ × ℕ) ⊎ KeySetError
  count_slots regular m n [] = inl (m, n)
  count_slots regular m n (s ∷ ss) =
      let is_regular = text_eq s.slot_type regular in
      let rest =
        count_slots regular (if is_regular then m + 1 else m) (if is_regular then n else n + 1)
          ss in
      if not is_regular && not (text_eq s.slot_type slot_recovery)
      then inr type_mismatch
      else elim (validate_slot s) [ some e ↦ inr (invalid_slot e) | none ↦ rest ]

  -- KeySet.Validate
  unfoldable pub validate : KeySet → Option KeySetError
  unfolding count_slots validate_slot validate_challenge validate_check
  validate ks =
      if not (length ks.id == 32) || not (all_bytes is_hex ks.id)
      then some invalid_id
      else elim (platform.parse_time ks.created_utc) [
        | none ↦ some invalid_creation_time
        | some _ ↦
            if ltb ks.auth_mode 1 || ltb 3 ks.auth_mode
            then some invalid_auth_mode
            else if length ks.slots == 0
            then some no_slots
            else elim (count_slots (regular_slot_type ks.auth_mode) 0 0 ks.slots) [
              | inr e ↦ some e
              | inl (regular_count, recovery_count) ↦
                  if not (regular_count == 1) || ltb 1 recovery_count
                  then some slot_counts
                  else none
            ]
      ]
