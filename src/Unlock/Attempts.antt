-- ===== src/Unlock/Attempts.antt =====
-- unlock.go: the questions that KeySet asks.
use restore_safe.Container.KeySet.{
  KeySet, Slot, get_slot?, regular_slot_type, slot_indexes, slot_password, unlock,
}
use restore_safe.Unlock.Defs.{
  Failure, Question, Unlocked, User, after, ask_codes, ask_passwords, bad_code, bad_credentials,
  bad_password, check_code, is_wrong_password, secret_password, secret_recovery_code,
  unlock_key_set, unlock_regular, unlock_slot,
}
use restore_safe.Cryptox.Key.{KeyResult, KeyResult-cases, wrong_password}
use restore_safe.Unlock.Outcomes.{HasOutcome, unlock_key_set-HasOutcome}
use restore_safe.Base.{
  Bool, Bool-cases, Bytes, List, Option, Option-cases, Sum-cases, arith, false, inl, inr, length,
  none, refl, some, suc, text_eq, zero, ℕ, ◌+◌, ◌∷◌, ◌≡◌, ◌≤◌, ◌⊎◌,
}
use restore_safe.Cryptox.Platform.{Platform}
use restore_safe.Cryptox.Gcm.{Aead}

-- How many questions were asked.
abbrev pub question_count : Unlocked → ℕ
question_count u = length u.0

module _ (platform : Platform) (cipher : Aead) (user : User) (ks : KeySet) where
  ask_passwords-question_count :
      (index : ℕ) (yubi : Option Bytes) (tries attempt : ℕ) (why : Option Failure)
      → question_count (ask_passwords platform cipher user ks index yubi tries attempt why) ≤ tries
  unfolding ask_passwords
  ask_passwords-question_count index yubi zero attempt why = omega arith
  ask_passwords-question_count index yubi (suc tries) attempt why =
      let failed : Failure = elim yubi [ none ↦ bad_password | some _ ↦ bad_credentials ] in
      let rest = ask_passwords-question_count index yubi tries (attempt + 1) (some failed) in
      ground (arith, rest)

  ask_codes-question_count :
      (index : ℕ) (slot : Slot) (tries attempt : ℕ) (why : Option Failure)
      → question_count (ask_codes platform cipher user ks index slot tries attempt why) ≤ tries
  unfolding ask_codes
  ask_codes-question_count index slot zero attempt why = omega arith
  ask_codes-question_count index slot (suc tries) attempt why =
      let q : Question = record {
        kind = secret_recovery_code;
        n = attempt;
        tries_left = suc tries;
        failure = why;
      } in
      let rest : (f : Failure)
          → question_count
              (after q (ask_codes platform cipher user ks index slot tries (attempt + 1) (some f)))
            ≤ suc tries =
        λ f. omega (arith, ask_codes-question_count index slot tries (attempt + 1) (some f)) in
      elim (Option-cases (user.answer q)) [
        | inl a ↦ rw (a, ask_codes) (omega arith)
        | inr (input, a) ↦ elim (Sum-cases (check_code platform cipher user ks slot input)) [
          | inr (f, c) ↦ rw (a, c, ask_codes) (rest f)
          | inl (secret, c) ↦ elim (KeyResult-cases (unlock platform cipher ks index secret)) [
            | inl (master, u) ↦ rw (a, c, u, ask_codes) (omega arith)
            | inr (e, u) ↦ elim (Bool-cases (is_wrong_password e)) [
              | inl w ↦ rw (a, c, u, w, ask_codes) (rest bad_code)
              | inr w ↦ rw (a, c, u, w, ask_codes) (omega arith)
            ]
          ]
        ]
      ]

  outcome-question_count :
      (u : Unlocked) → HasOutcome platform cipher user ks u → question_count u ≤ 3
  outcome-question_count u (inl (e, q)) = rw q (omega arith)
  outcome-question_count u (inr (inl (index, yubi, q))) =
      rw q (ask_passwords-question_count index yubi 3 1 none)
  outcome-question_count u (inr (inr (inl (index, slot, q)))) =
      rw q (ask_codes-question_count index slot 3 1 none)
  outcome-question_count u (inr (inr (inr (index, secret, q)))) = rw q (omega arith)

  -- KeySet asks for a password or a recovery code three times at most, whatever the answers are.
  pub unlock_key_set-question_count :
      (allow_recovery : Bool)
      → question_count (unlock_key_set platform cipher user ks allow_recovery) ≤ 3
  unlock_key_set-question_count allow_recovery =
      outcome-question_count (unlock_key_set platform cipher user ks allow_recovery)
        (unlock_key_set-HasOutcome platform cipher user ks allow_recovery)

  -- An answer that the slot takes, or refuses as a wrong password.
  abbrev pub IsPassword : ℕ → Bytes → Type 0
  IsPassword index password =
      ((master : Bytes) × (unlock platform cipher ks index password ≡ KeyResult.ok master))
      ⊎ (unlock platform cipher ks index password ≡ KeyResult.err wrong_password)

  ask_passwords-opened :
      (index tries attempt : ℕ) (why : Option Failure)
      → ((q : Question)
          → (password : Bytes) × (user.answer q ≡ some password) × IsPassword index password)
      → ((q : Question)
          → q.tries_left ≡ 1
          → (password : Bytes) × (master : Bytes) × (user.answer q ≡ some password)
            × (unlock platform cipher ks index password ≡ KeyResult.ok master))
      → (master : Bytes) × ((ask_passwords platform cipher user ks index none
            (suc tries)
            attempt
            why).1
          ≡ inl master)
  unfolding ask_passwords
  ask_passwords-opened index zero attempt why answers right =
      let q : Question = record {
        kind = secret_password;
        n = attempt;
        tries_left = 1;
        failure = why;
      } in
      let (password, master, a, u) = right q refl in (master, rw (a, u, ask_passwords) refl)
  ask_passwords-opened index (suc tries) attempt why answers right =
      let q : Question = record {
        kind = secret_password;
        n = attempt;
        tries_left = suc (suc tries);
        failure = why;
      } in
      let (password, a, or_wrong) = answers q in
      elim or_wrong [
        | inl (master, u) ↦ (master, rw (a, u, ask_passwords) refl)
        | inr u ↦
            let (master, m) =
              ask_passwords-opened index tries (attempt + 1) (some bad_password) answers right in
            (master, rw (a, u, ask_passwords) m)
      ]

  -- KeySet of a key set with a password, not with the recovery code: if each answer is a password that
  -- the slot takes or refuses as wrong, and the answer to a question for the last try is one that it
  -- takes, the master key is unlocked.
  pub unlock_key_set_opened :
      (index : ℕ) (more : List ℕ) (slot : Slot)
      → regular_slot_type ks.auth_mode ≡ slot_password
      → slot_indexes ks slot_password ≡ index ∷ more
      → get_slot? ks.slots index ≡ some slot
      → ((q : Question)
          → (password : Bytes) × (user.answer q ≡ some password) × IsPassword index password)
      → ((q : Question)
          → q.tries_left ≡ 1
          → (password : Bytes) × (master : Bytes) × (user.answer q ≡ some password)
            × (unlock platform cipher ks index password ≡ KeyResult.ok master))
      → (master : Bytes) × ((unlock_key_set platform cipher user ks false).1 ≡ inl master)
  unfolding unlock_key_set unlock_regular unlock_slot text_eq
  unlock_key_set_opened index more slot mode indexes has answers right =
      let (master, m) = ask_passwords-opened index 2 1 none answers right in
      let first : slot_indexes ks (regular_slot_type ks.auth_mode) ≡ index ∷ more =
        rw mode indexes in
      (master, rw (unlock_regular, first, has, unlock_slot, mode) m)
