-- ===== src/Unlock/Defs.antt =====
-- unlock.go: KeySet, unlockWithRecoveryCode, deriveYubiKeySecret and KeySets. The questions that were
-- asked are returned with the result.
use restore_safe.Base.{
  Bool, Bytes, List, Option, [], false, if◌then◌else◌, inl, inr, none, not, some, suc, text_eq,
  true, zero, ℕ, ◌&&◌, ◌++◌, ◌+◌, ◌∷◌, ◌⊎◌,
}
use restore_safe.Recovery.{ParseError, Parsed, parse}
use restore_safe.Container.KeySet.{
  KeySet, Slot, get_slot?, has_slot_type, regular_slot_type, slot_indexes, slot_password,
  slot_recovery, slot_yubikey, unlock,
}
use restore_safe.Cryptox.Key.{
  KeyError, KeyResult, invalid_key_length, invalid_memory, invalid_nonce_length,
  invalid_salt_length, invalid_threads, invalid_time, no_such_slot, wrong_password,
}
use restore_safe.Yubikey.Challenge.{ChallengeData}
use restore_safe.Cryptox.Gcm.{Aead}
use restore_safe.Cryptox.Platform.{Platform}

abbrev pub max_password_attempts : ℕ
max_password_attempts = 3

pub data SecretKind : Type 0 where
  secret_password secret_recovery_code : SecretKind

-- Why a try failed.
pub data Failure : Type 0 where
  bad_password bad_credentials bad_code : Failure
  code_of_other_keys : Failure
  unreadable_code : ParseError → Failure

-- SecretQuestion with its Attempt.
pub record Question : Type 0 where
  pub kind : SecretKind
  pub n : ℕ
  pub tries_left : ℕ
  pub failure : Option Failure

-- The user and the YubiKey: ChooseUnlockMethod, Password, CheckConnected and DeriveFIDO2Secret. No
-- answer is an error of the question, such as a cancellation.
pub record User : Type 0 where
  pub use_recovery : Option Bool
  pub answer : Question → Option Bytes
  pub is_connected : Bool
  pub yubikey_secret : ChallengeData → Option Bytes

pub data UnlockError : Type 0 where
  unanswered no_key_slot yubikey_required yubikey_failed yubikey_refused : UnlockError
  too_many_attempts too_many_passwords too_many_codes no_challenge : UnlockError
  key_error : KeyError → UnlockError

abbrev pub Unlocked : Type 0
Unlocked = List Question × (Bytes ⊎ UnlockError)

-- deriveYubiKeySecret
unfoldable pub derive_yubikey_secret : User → Slot → Bytes ⊎ UnlockError
derive_yubikey_secret user slot = elim slot.challenge [
  | none ↦ inr no_challenge
  | some c ↦
      if not user.is_connected
      then inr yubikey_required
      else elim (user.yubikey_secret c) [ none ↦ inr yubikey_failed | some s ↦ inl s ]
]

-- Whether an error of Unlock is ErrWrongPassword.
abbrev pub is_wrong_password : KeyError → Bool
is_wrong_password e = elim e [
  | wrong_password ↦ true
  | invalid_time ↦ false
  | invalid_memory ↦ false
  | invalid_threads ↦ false
  | invalid_salt_length ↦ false
  | invalid_nonce_length ↦ false
  | invalid_key_length ↦ false
  | no_such_slot ↦ false
]

-- The question and the questions after it.
abbrev pub after : Question → Unlocked → Unlocked
after q (asked, result) = (q ∷ asked, result)

module _ (platform : Platform) (cipher : Aead) (user : User) (ks : KeySet) where
  -- The loop over the passwords with `tries` tries left; `yubi` is the secret of the YubiKey, if one is
  -- used.
  unfoldable pub ask_passwords : ℕ → Option Bytes → ℕ → ℕ → Option Failure → Unlocked
  ask_passwords index yubi zero attempt why =
      ([], inr (elim yubi [ none ↦ too_many_passwords | some _ ↦ too_many_attempts ]))
  ask_passwords index yubi (suc tries) attempt why =
      let q : Question = record {
        kind = secret_password;
        n = attempt;
        tries_left = suc tries;
        failure = why;
      } in
      let failed : Failure = elim yubi [ none ↦ bad_password | some _ ↦ bad_credentials ] in
      let again = ask_passwords index yubi tries (attempt + 1) (some failed) in
      elim (user.answer q) [
        | none ↦ (q ∷ [], inr unanswered)
        | some password ↦
            elim (unlock platform cipher ks index
              (elim yubi [ none ↦ password | some s ↦ password ++ s ])) [
                | KeyResult.ok master ↦ (q ∷ [], inl master)
                | KeyResult.err e ↦
                    if is_wrong_password e then after q again else (q ∷ [], inr (key_error e))
              ]
      ]

  -- The code of a try: of the slot's keys, or why not.
  unfoldable pub check_code : Slot → Bytes → Bytes ⊎ Failure
  check_code slot input = elim (parse platform.sha256 input) [
    | Parsed.err e ↦ inr (unreadable_code e)
    | Parsed.ok code ↦
        if text_eq code.check slot.check then inl code.data_part else inr code_of_other_keys
  ]

  -- The loop of unlockWithRecoveryCode.
  unfoldable pub ask_codes : ℕ → Slot → ℕ → ℕ → Option Failure → Unlocked
  unfolding check_code
  ask_codes index slot zero attempt why = ([], inr too_many_codes)
  ask_codes index slot (suc tries) attempt why =
      let q : Question = record {
        kind = secret_recovery_code;
        n = attempt;
        tries_left = suc tries;
        failure = why;
      } in
      let again : Failure → Unlocked =
        λ f. after q (ask_codes index slot tries (attempt + 1) (some f)) in
      elim (user.answer q) [
        | none ↦ (q ∷ [], inr unanswered)
        | some input ↦ elim (check_code slot input) [
          | inr f ↦ again f
          | inl secret ↦ elim (unlock platform cipher ks index secret) [
            | KeyResult.ok master ↦ (q ∷ [], inl master)
            | KeyResult.err e ↦
                if is_wrong_password e then again bad_code else (q ∷ [], inr (key_error e))
          ]
        ]
      ]

  -- unlockWithRecoveryCode
  unfoldable pub unlock_with_recovery_code : Unlocked
  unfolding ask_codes
  unlock_with_recovery_code = elim (slot_indexes ks slot_recovery) [
    | [] ↦ ([], inr no_key_slot)
    | index ∷ _ ↦ elim (get_slot? ks.slots index) [
      | none ↦ ([], inr no_key_slot)
      | some slot ↦ ask_codes index slot max_password_attempts 1 none
    ]
  ]

  -- KeySet with a YubiKey alone.
  unfoldable pub unlock_with_yubikey : ℕ → Bytes → Bytes ⊎ UnlockError
  unlock_with_yubikey index secret = elim (unlock platform cipher ks index secret) [
    | KeyResult.ok master ↦ inl master
    | KeyResult.err e ↦ if is_wrong_password e then inr yubikey_refused else inr (key_error e)
  ]

  -- KeySet with the regular credentials, for the slot of an index.
  unfoldable pub unlock_slot : ℕ → Slot → Unlocked
  unfolding ask_passwords unlock_with_yubikey derive_yubikey_secret
  unlock_slot index slot =
      let slot_type = regular_slot_type ks.auth_mode in
      if text_eq slot_type slot_password
      then ask_passwords index none max_password_attempts 1 none
      else elim (derive_yubikey_secret user slot) [
        | inr e ↦ ([], inr e)
        | inl secret ↦
            if text_eq slot_type slot_yubikey
            then ([], unlock_with_yubikey index secret)
            else ask_passwords index (some secret) max_password_attempts 1 none
      ]

  unfoldable pub unlock_regular : Unlocked
  unfolding unlock_slot
  unlock_regular = elim (slot_indexes ks (regular_slot_type ks.auth_mode)) [
    | [] ↦ ([], inr no_key_slot)
    | index ∷ _ ↦ elim (get_slot? ks.slots index) [
      | none ↦ ([], inr no_key_slot)
      | some slot ↦ unlock_slot index slot
    ]
  ]

  -- KeySet
  unfoldable pub unlock_key_set : Bool → Unlocked
  unfolding unlock_regular unlock_with_recovery_code
  unlock_key_set allow_recovery =
      if allow_recovery && has_slot_type ks slot_recovery
      then elim user.use_recovery [
        | none ↦ ([], inr unanswered)
        | some chosen ↦ if chosen then unlock_with_recovery_code else unlock_regular
      ]
      else unlock_regular

-- MasterKeys
abbrev pub MasterKeys : Type 0
MasterKeys = List (Bytes × Bytes)

unfoldable pub master_of : Bytes → MasterKeys → Option Bytes
master_of id [] = none
master_of id ((i, m) ∷ ms) = let rest = master_of id ms in if text_eq i id then some m else rest

-- KeySets, over the key sets of the sets; `users` has the answers for each.
unfoldable pub unlock_key_sets :
    Platform → Aead → (KeySet → User) → MasterKeys → List KeySet → MasterKeys ⊎ UnlockError
unfolding unlock_key_set master_of
unlock_key_sets platform cipher users keys [] = inl keys
unlock_key_sets platform cipher users keys (ks ∷ rest) =
    let skip = unlock_key_sets platform cipher users keys rest in
    elim (master_of ks.id keys) [
      | some _ ↦ skip
      | none ↦ elim (unlock_key_set platform cipher (users ks) ks true).1 [
        | inr e ↦ inr e
        | inl master ↦ unlock_key_sets platform cipher users ((ks.id, master) ∷ keys) rest
      ]
    ]
