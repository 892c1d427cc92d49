-- ===== src/Unlock/Outcomes.antt =====
-- unlock.go: the ways in which KeySet ends.
use restore_safe.Container.KeySet.{
  KeySet, Slot, get_slot?, has_slot_type, regular_slot_type, slot_indexes, slot_password,
  slot_recovery, slot_yubikey,
}
use restore_safe.Base.{
  Bool, Bool-cases, Bytes, List-cases, Option, Option-cases, Sum-cases, [], inl, inr, none, refl,
  some, text_eq, ℕ, ◌&&◌, ◌≡◌, ◌⊎◌,
}
use restore_safe.Unlock.Defs.{
  UnlockError, Unlocked, User, ask_codes, ask_passwords, derive_yubikey_secret,
  max_password_attempts, no_key_slot, unanswered, unlock_key_set, unlock_regular, unlock_slot,
  unlock_with_recovery_code, unlock_with_yubikey,
}
use restore_safe.Cryptox.Platform.{Platform}
use restore_safe.Cryptox.Gcm.{Aead}

module _ (platform : Platform) (cipher : Aead) (user : User) (ks : KeySet) where
  -- An error without a question, the loops over passwords and codes, or a YubiKey alone.
  abbrev pub HasOutcome : Unlocked → Type 0
  HasOutcome u =
      ((e : UnlockError) × (u ≡ ([], inr e)))
      ⊎ (((index : ℕ) × (yubi : Option Bytes) × (u
              ≡ ask_passwords platform cipher user ks index yubi max_password_attempts 1 none))
          ⊎ (((index : ℕ) × (slot : Slot) × (u
                  ≡ ask_codes platform cipher user ks index slot max_password_attempts 1 none))
              ⊎ ((index : ℕ) × (secret : Bytes) × (u
                    ≡ ([], unlock_with_yubikey platform cipher user ks index secret)))))

  unlock_slot-HasOutcome :
      (index : ℕ) (slot : Slot) → HasOutcome (unlock_slot platform cipher user ks index slot)
  unfolding unlock_slot
  unlock_slot-HasOutcome index slot =
      elim (Bool-cases (text_eq (regular_slot_type ks.auth_mode) slot_password)) [
        | inl p ↦ inr (inl (index, none, rw (p, unlock_slot) refl))
        | inr p ↦ elim (Sum-cases (derive_yubikey_secret user slot)) [
          | inr (e, d) ↦ inl (e, rw (p, d, unlock_slot) refl)
          | inl (s, d) ↦ elim (Bool-cases (text_eq (regular_slot_type ks.auth_mode) slot_yubikey)) [
            | inl y ↦ inr (inr (inr (index, s, rw (p, d, y, unlock_slot) refl)))
            | inr y ↦ inr (inl (index, some s, rw (p, d, y, unlock_slot) refl))
          ]
        ]
      ]

  unlock_regular-HasOutcome : HasOutcome (unlock_regular platform cipher user ks)
  unfolding unlock_regular
  unlock_regular-HasOutcome = elim (List-cases (slot_indexes ks (regular_slot_type ks.auth_mode))) [
    | inl q ↦ inl (no_key_slot, rw (q, unlock_regular) refl)
    | inr (index, more, q) ↦ elim (Option-cases (get_slot? ks.slots index)) [
      | inl g ↦ inl (no_key_slot, rw (q, g, unlock_regular) refl)
      | inr (slot, g) ↦ rw (q, g, unlock_regular) (unlock_slot-HasOutcome index slot)
    ]
  ]

  unlock_with_recovery_code-HasOutcome :
      HasOutcome (unlock_with_recovery_code platform cipher user ks)
  unfolding unlock_with_recovery_code
  unlock_with_recovery_code-HasOutcome = elim (List-cases (slot_indexes ks slot_recovery)) [
    | inl q ↦ inl (no_key_slot, rw (q, unlock_with_recovery_code) refl)
    | inr (index, more, q) ↦ elim (Option-cases (get_slot? ks.slots index)) [
      | inl g ↦ inl (no_key_slot, rw (q, g, unlock_with_recovery_code) refl)
      | inr (slot, g) ↦ inr (inr (inl (index, slot, rw (q, g, unlock_with_recovery_code) refl)))
    ]
  ]

  pub unlock_key_set-HasOutcome :
      (allow_recovery : Bool) → HasOutcome (unlock_key_set platform cipher user ks allow_recovery)
  unfolding unlock_key_set
  unlock_key_set-HasOutcome allow_recovery =
      elim (Bool-cases (allow_recovery && has_slot_type ks slot_recovery)) [
        | inr n ↦ rw (n, unlock_key_set) unlock_regular-HasOutcome
        | inl y ↦ elim (Option-cases user.use_recovery) [
          | inl u ↦ inl (unanswered, rw (y, u, unlock_key_set) refl)
          | inr (chosen, u) ↦ elim (Bool-cases chosen) [
            | inl c ↦ rw (y, u, c, unlock_key_set) unlock_with_recovery_code-HasOutcome
            | inr c ↦ rw (y, u, c, unlock_key_set) unlock_regular-HasOutcome
          ]
        ]
      ]
