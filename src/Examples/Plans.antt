-- ===== src/Examples/Plans.antt =====
-- The plan of a directory, and the questions for its keys.
use restore_safe.Examples.Crypto.{keys1, slot1}
use restore_safe.Plan.Folders.Numbers.{IsNext, plan_folder-IsNext}
use restore_safe.Unlock.Masters.{HasMaster, unlock_key_sets-HasMaster}
use restore_safe.Unlock.Attempts.{
  IsPassword, question_count, unlock_key_set-question_count, unlock_key_set_opened,
}
use restore_safe.Unlock.{Question, User, unlock_key_set, unlock_key_sets}
use restore_safe.Base.{
  Bool-cases, Bytes, List, Mem, [], codes, false, if◌then◌else◌, inl, inr, none, refl, some,
  text_eq, true, ℕ, ◌==◌, ◌^◌, ◌∷◌, ◌≡◌, ◌≤◌,
}
use restore_safe.Container.KeySet.{slot_indexes, unlock}
use restore_safe.Examples.Flows.{set_of}
use restore_safe.Examples.Platforms.{plain_cipher, plain_platform, zeros32}
use restore_safe.Catalog.{SetInfo}
use restore_safe.Cryptox.Key.{KeyResult, wrong_password}
use restore_safe.Container.Header.{Header}
use restore_safe.Plan.Folders.{Differential, Folder, existing, plan_folder}

abbrev settings : Differential
settings = record { enabled = none; full_backup_interval_days = 0; max_size_percent = 0 }

abbrev full_set : SetInfo
full_set = set_of (codes "ABC123") 0

abbrev stored : List SetInfo
stored =
    record (set_of (codes "ABC123") 2) { data_length = 1 }
    ∷ set_of (codes "ABC123") 1
    ∷ full_set
    ∷ []

abbrev creation : Header → ℕ
creation h = 0

abbrev planned : Folder
planned = plan_folder settings creation stored (codes "docs") (existing keys1) false (10 ^ 15)

planned-base : planned.base ≡ some full_set
unfolding plan_folder restore_safe.Base.text_eq restore_safe.Catalog.complete
planned-base = refl

planned-number : planned.diff_number ≡ 3
unfolding plan_folder text_eq restore_safe.Catalog.complete
planned-number = refl

plan_folder-IsNext_example :
    IsNext settings creation stored (codes "docs") (existing keys1) (10 ^ 15) planned full_set
plan_folder-IsNext_example =
    plan_folder-IsNext settings creation stored (codes "docs") (existing keys1) false (10 ^ 15)
      full_set planned-base

-- A user who gets the password right at the last try.
abbrev hasty : User
hasty = record {
  use_recovery = some false;
  answer = λ q. some (if q.tries_left == 1 then codes "secret" else codes "wrong");
  is_connected = false;
  yubikey_secret = λ c. none;
}

wrong_answer :
    unlock plain_platform plain_cipher keys1 0 (codes "wrong") ≡ KeyResult.err wrong_password
unfolding unlock restore_safe.Container.KeySet.get_slot? restore_safe.Cryptox.Key.derive_kek
    restore_safe.Cryptox.Key.validate_argon2_params restore_safe.Cryptox.Key.open_key
    restore_safe.Examples.Platforms.plain_open text_eq
wrong_answer = refl

right_answer : unlock plain_platform plain_cipher keys1 0 (codes "secret") ≡ KeyResult.ok zeros32
unfolding unlock restore_safe.Container.KeySet.get_slot? restore_safe.Cryptox.Key.derive_kek
    restore_safe.Cryptox.Key.validate_argon2_params restore_safe.Cryptox.Key.open_key
    restore_safe.Examples.Platforms.plain_open text_eq restore_safe.Container.KeySet.slot_aad
right_answer = refl

answers :
    (q : Question)
    → (password : Bytes) × (hasty.answer q ≡ some password)
      × IsPassword plain_platform plain_cipher hasty keys1 0 password
answers q = elim (Bool-cases (q.tries_left == 1)) [
  | inl e ↦ (codes "secret", rw e refl, inl (zeros32, right_answer))
  | inr e ↦ (codes "wrong", rw e refl, inr wrong_answer)
]

unlock_key_set_opened_example :
    (master : Bytes) × ((unlock_key_set plain_platform plain_cipher hasty keys1 false).1
      ≡ inl master)
unfolding slot_indexes restore_safe.Container.KeySet.regular_slot_type text_eq
    restore_safe.Container.KeySet.get_slot?
unlock_key_set_opened_example =
    unlock_key_set_opened plain_platform plain_cipher hasty keys1 0 [] slot1 refl refl refl answers
      (λ q e. (codes "secret", zeros32, rw e refl, right_answer))

unlock_key_set-question_count_example :
    question_count (unlock_key_set plain_platform plain_cipher hasty keys1 true) ≤ 3
unlock_key_set-question_count_example =
    unlock_key_set-question_count plain_platform plain_cipher hasty keys1 true

unlocked_twice :
    unlock_key_sets plain_platform plain_cipher (λ k. hasty) [] (keys1 ∷ keys1 ∷ [])
    ≡ inl ((keys1.id, zeros32) ∷ [])
unfolding unlock_key_sets restore_safe.Container.KeySet.has_slot_type text_eq
    restore_safe.Container.KeySet.regular_slot_type restore_safe.Container.KeySet.get_slot? unlock
    restore_safe.Cryptox.Key.derive_kek restore_safe.Cryptox.Key.validate_argon2_params
    restore_safe.Cryptox.Key.open_key restore_safe.Examples.Platforms.plain_open
    restore_safe.Container.KeySet.slot_aad
unlocked_twice = refl

unlock_key_sets-HasMaster_example :
    HasMaster plain_platform plain_cipher
      (λ k. hasty)
      (keys1 ∷ keys1 ∷ [])
      ((keys1.id, zeros32) ∷ [])
      keys1
unfolding Mem
unlock_key_sets-HasMaster_example =
    unlock_key_sets-HasMaster plain_platform plain_cipher (λ k. hasty) (keys1 ∷ keys1 ∷ [])
      ((keys1.id, zeros32) ∷ []) keys1 unlocked_twice (inl refl)
