-- ===== src/Unlock/Opened.antt =====
-- unlock.go: where the master key of a key set comes from.
use restore_safe.Container.KeySet.{
  KeySet, Slot, get_slot?, has_slot_type, regular_slot_type, slot_indexes, slot_password,
  slot_recovery, slot_yubikey, unlock,
}
use restore_safe.Recovery.{Code, ParseError, Parsed, parse}
use restore_safe.Yubikey.Challenge.{ChallengeData}
use restore_safe.Unlock.Defs.{
  Failure, Question, User, ask_codes, ask_passwords, bad_code, bad_credentials, bad_password,
  check_code, derive_yubikey_secret, is_wrong_password, max_password_attempts, secret_password,
  secret_recovery_code, unlock_key_set, unlock_regular, unlock_slot, unlock_with_recovery_code,
  unlock_with_yubikey,
}
use restore_safe.Cryptox.Key.{KeyResult, KeyResult-cases}
use restore_safe.Base.{
  Bool, Bool-cases, Bytes, List, List-cases, Option, Option-cases, Sum-cases, ap, false, inl, inr,
  none, refl, some, suc, text_eq, text_eq_iff, true, zero, ℕ, ◌++◌, ◌+◌, ◌∙◌, ◌∷◌, ◌≡◌, ◌⊎◌,
}
use restore_safe.Cryptox.Platform.{Platform}
use restore_safe.Cryptox.Gcm.{Aead}

-- The user's answer to a question for a password, followed by the secret of the YubiKey, if one is used.
abbrev pub IsPasswordSecret : User → Option Bytes → Bytes → Type 0
IsPasswordSecret user yubi secret =
    (q : Question) × (password : Bytes) × (q.kind ≡ secret_password)
    × (user.answer q ≡ some password)
    × (secret ≡ elim yubi [ none ↦ password | some s ↦ password ++ s ])

-- What the connected YubiKey answers to the challenge of the slot.
abbrev pub IsYubikeySecret : User → Slot → Bytes → Type 0
IsYubikeySecret user slot secret =
    (c : ChallengeData) × (slot.challenge ≡ some c)
    × (user.is_connected ≡ true)
    × (user.yubikey_secret c ≡ some secret)

-- The data of a recovery code that the user gives, whose check is that of the slot.
abbrev pub IsCodeSecret : Platform → User → Slot → Bytes → Type 0
IsCodeSecret platform user slot secret =
    (q : Question) × (input : Bytes) × (code : Code) × (q.kind ≡ secret_recovery_code)
    × (user.answer q ≡ some input)
    × (parse platform.sha256 input ≡ Parsed.ok code)
    × (code.check ≡ slot.check)
    × (secret ≡ code.data_part)

-- The first slot of a type.
abbrev pub IsFirst : KeySet → Bytes → ℕ → Slot → Type 0
IsFirst ks slot_type index slot =
    (more : List ℕ) × (slot_indexes ks slot_type ≡ index ∷ more)
    × (get_slot? ks.slots index ≡ some slot)

-- What the authentication mode asks for: a password, a YubiKey, or both.
abbrev pub IsRegularSecret : User → KeySet → Slot → Bytes → Type 0
IsRegularSecret user ks slot secret =
    ((regular_slot_type ks.auth_mode ≡ slot_password) × IsPasswordSecret user none secret)
    ⊎ (((regular_slot_type ks.auth_mode ≡ slot_yubikey) × IsYubikeySecret user slot secret)
        ⊎ ((¬ (regular_slot_type ks.auth_mode ≡ slot_password))
            × (¬ (regular_slot_type ks.auth_mode ≡ slot_yubikey))
            × ((s : Bytes) × IsYubikeySecret user slot s × IsPasswordSecret user (some s) secret)))

-- Which secret opens which slot: a recovery code the first recovery slot, where it is allowed and was
-- chosen, or what the authentication mode asks for the first regular slot.
abbrev pub IsCredential : Platform → User → KeySet → Bool → ℕ → Bytes → Type 0
IsCredential platform user ks allow_recovery index secret =
    (slot : Slot) × (((allow_recovery ≡ true)
        × (user.use_recovery ≡ some true)
        × IsFirst ks slot_recovery index slot
        × IsCodeSecret platform user slot secret)
      ⊎ (IsFirst ks (regular_slot_type ks.auth_mode) index slot
          × IsRegularSecret user ks slot secret))

Parsed-cases :
    (r : Parsed) → ((c : Code) × (r ≡ Parsed.ok c)) ⊎ ((e : ParseError) × (r ≡ Parsed.err e))
Parsed-cases (Parsed.ok c) = inl (c, refl)
Parsed-cases (Parsed.err e) = inr (e, refl)

derive_yubikey_secret-inl :
    (user : User) (slot : Slot) (s : Bytes)
    → derive_yubikey_secret user slot ≡ inl s
    → IsYubikeySecret user slot s
unfolding derive_yubikey_secret
derive_yubikey_secret-inl user slot s h = elim (Option-cases slot.challenge) [
  | inl q ↦ absurd (cc (rw (q, derive_yubikey_secret) at h))
  | inr (c, q) ↦ elim (Bool-cases user.is_connected) [
    | inr n ↦ absurd (cc (rw (q, n, derive_yubikey_secret) at h))
    | inl y ↦ elim (Option-cases (user.yubikey_secret c)) [
      | inl k ↦ absurd (cc (rw (q, y, k, derive_yubikey_secret) at h))
      | inr (x, k) ↦ (c, q, y, k ∙ ap some (cc (rw (q, y, k, derive_yubikey_secret) at h)))
    ]
  ]
]

module _ (platform : Platform) (cipher : Aead) (user : User) (ks : KeySet) where
  -- A secret of a kind with which the slot gives the master key.
  abbrev Opens : (Bytes → Type 0) → ℕ → Bytes → Type 0
  Opens IsSecret index master =
      (secret : Bytes) × (unlock platform cipher ks index secret ≡ KeyResult.ok master)
      × IsSecret secret

  -- A credential of the key set with which its slot gives the master key.
  abbrev pub IsOpenedBy : Bool → Bytes → Type 0
  IsOpenedBy allow_recovery master =
      (index : ℕ) × Opens (IsCredential platform user ks allow_recovery index) index master

  ask_passwords-Opens :
      (index : ℕ) (yubi : Option Bytes) (tries attempt : ℕ) (why : Option Failure) (master : Bytes)
      → (ask_passwords platform cipher user ks index yubi tries attempt why).1 ≡ inl master
      → Opens (IsPasswordSecret user yubi) index master
  unfolding ask_passwords
  ask_passwords-Opens index yubi zero attempt why master h = absurd (cc h)
  ask_passwords-Opens index yubi (suc tries) attempt why master h =
      let q : Question = record {
        kind = secret_password;
        n = attempt;
        tries_left = suc tries;
        failure = why;
      } in
      let failed : Failure = elim yubi [ none ↦ bad_password | some _ ↦ bad_credentials ] in
      elim (Option-cases (user.answer q)) [
        | inl a ↦ absurd (cc (rw (a, ask_passwords) at h))
        | inr (password, a) ↦
            let secret : Bytes = elim yubi [ none ↦ password | some s ↦ password ++ s ] in
            elim (KeyResult-cases (unlock platform cipher ks index secret)) [
              | inl (m, u) ↦ (
                secret,
                u ∙ ap KeyResult.ok (cc (rw (a, u, ask_passwords) at h)),
                (q, password, refl, a, refl),
              )
              | inr (e, u) ↦ elim (Bool-cases (is_wrong_password e)) [
                | inl w ↦
                    ask_passwords-Opens index yubi tries (attempt + 1) (some failed) master
                      (rw (a, u, w, ask_passwords) at h)
                | inr w ↦ absurd (cc (rw (a, u, w, ask_passwords) at h))
              ]
            ]
      ]

  check_code-inl :
      (slot : Slot) (input secret : Bytes)
      → check_code platform cipher user ks slot input ≡ inl secret
      → (code : Code) × (parse platform.sha256 input ≡ Parsed.ok code)
        × (code.check ≡ slot.check)
        × (secret ≡ code.data_part)
  unfolding check_code
  check_code-inl slot input secret h = elim (Parsed-cases (parse platform.sha256 input)) [
    | inr (e, q) ↦ absurd (cc (rw (q, check_code) at h))
    | inl (code, q) ↦ elim (Bool-cases (text_eq code.check slot.check)) [
      | inr n ↦ absurd (cc (rw (q, n, check_code) at h))
      | inl y ↦ (code, q, (text_eq_iff code.check slot.check).0 y, cc (rw (q, y, check_code) at h))
    ]
  ]

  ask_codes-Opens :
      (index : ℕ) (slot : Slot) (tries attempt : ℕ) (why : Option Failure) (master : Bytes)
      → (ask_codes platform cipher user ks index slot tries attempt why).1 ≡ inl master
      → Opens (IsCodeSecret platform user slot) index master
  unfolding ask_codes
  ask_codes-Opens index slot zero attempt why master h = absurd (cc h)
  ask_codes-Opens index slot (suc tries) attempt why master h =
      let q : Question = record {
        kind = secret_recovery_code;
        n = attempt;
        tries_left = suc tries;
        failure = why;
      } in
      let later : (f : Failure)
          → (ask_codes platform cipher user ks index slot tries (attempt + 1) (some f)).1
            ≡ inl master
          → Opens (IsCodeSecret platform user slot) index master =
        λ f. ask_codes-Opens index slot tries (attempt + 1) (some f) master in
      elim (Option-cases (user.answer q)) [
        | inl a ↦ absurd (cc (rw (a, ask_codes) at h))
        | inr (input, a) ↦ elim (Sum-cases (check_code platform cipher user ks slot input)) [
          | inr (f, c) ↦ later f (rw (a, c, ask_codes) at h)
          | inl (secret, c) ↦ elim (KeyResult-cases (unlock platform cipher ks index secret)) [
            | inl (m, u) ↦
                let (code, parsed, check, part) = check_code-inl slot input secret c in
                (
                  secret,
                  u ∙ ap KeyResult.ok (cc (rw (a, c, u, ask_codes) at h)),
                  (q, input, code, refl, a, parsed, check, part),
                )
            | inr (e, u) ↦ elim (Bool-cases (is_wrong_password e)) [
              | inl w ↦ later bad_code (rw (a, c, u, w, ask_codes) at h)
              | inr w ↦ absurd (cc (rw (a, c, u, w, ask_codes) at h))
            ]
          ]
        ]
      ]

  unlock_with_yubikey-ok :
      (index : ℕ) (secret master : Bytes)
      → unlock_with_yubikey platform cipher user ks index secret ≡ inl master
      → unlock platform cipher ks index secret ≡ KeyResult.ok master
  unfolding unlock_with_yubikey
  unlock_with_yubikey-ok index secret master h =
      elim (KeyResult-cases (unlock platform cipher ks index secret)) [
        | inl (m, u) ↦ u ∙ ap KeyResult.ok (cc (rw (u, unlock_with_yubikey) at h))
        | inr (e, u) ↦ elim (Bool-cases (is_wrong_password e)) [
          | inl w ↦ absurd (cc (rw (u, w, unlock_with_yubikey) at h))
          | inr w ↦ absurd (cc (rw (u, w, unlock_with_yubikey) at h))
        ]
      ]

  unlock_slot-Opens :
      (index : ℕ) (slot : Slot) (master : Bytes)
      → (unlock_slot platform cipher user ks index slot).1 ≡ inl master
      → Opens (IsRegularSecret user ks slot) index master
  unfolding unlock_slot
  unlock_slot-Opens index slot master h =
      let kind = regular_slot_type ks.auth_mode in
      elim (Bool-cases (text_eq kind slot_password)) [
        | inl p ↦
            let (secret, u, is) =
              ask_passwords-Opens index none max_password_attempts 1 none master
                (rw (p, unlock_slot) at h) in
            (secret, u, inl ((text_eq_iff kind slot_password).0 p, is))
        | inr p ↦ elim (Sum-cases (derive_yubikey_secret user slot)) [
          | inr (e, d) ↦ absurd (cc (rw (p, d, unlock_slot) at h))
          | inl (s, d) ↦
              let key = derive_yubikey_secret-inl user slot s d in
              elim (Bool-cases (text_eq kind slot_yubikey)) [
                | inl y ↦
                    let u =
                      unlock_with_yubikey-ok index s master (rw (p, d, y, unlock_slot) at h) in
                    (s, u, inr (inl ((text_eq_iff kind slot_yubikey).0 y, key)))
                | inr y ↦
                    let (secret, u, is) =
                      ask_passwords-Opens index (some s) max_password_attempts 1 none master
                        (rw (p, d, y, unlock_slot) at h) in
                    (
                      secret,
                      u,
                      inr (
                          inr (
                            λ z. cc (p, (text_eq_iff kind slot_password).1 z),
                            λ z. cc (y, (text_eq_iff kind slot_yubikey).1 z),
                            (s, key, is),
                          )),
                    )
              ]
        ]
      ]

  unlock_regular-IsOpenedBy :
      (allow_recovery : Bool) (master : Bytes)
      → (unlock_regular platform cipher user ks).1 ≡ inl master
      → IsOpenedBy allow_recovery master
  unfolding unlock_regular
  unlock_regular-IsOpenedBy allow_recovery master h =
      elim (List-cases (slot_indexes ks (regular_slot_type ks.auth_mode))) [
        | inl q ↦ absurd (cc (rw (q, unlock_regular) at h))
        | inr (index, more, q) ↦ elim (Option-cases (get_slot? ks.slots index)) [
          | inl g ↦ absurd (cc (rw (q, g, unlock_regular) at h))
          | inr (slot, g) ↦
              let (secret, u, is) =
                unlock_slot-Opens index slot master (rw (q, g, unlock_regular) at h) in
              (index, (secret, u, (slot, inr ((more, q, g), is))))
        ]
      ]

  unlock_with_recovery_code-IsOpenedBy :
      (master : Bytes)
      → user.use_recovery ≡ some true
      → (unlock_with_recovery_code platform cipher user ks).1 ≡ inl master
      → IsOpenedBy true master
  unfolding unlock_with_recovery_code
  unlock_with_recovery_code-IsOpenedBy master chosen h =
      elim (List-cases (slot_indexes ks slot_recovery)) [
        | inl q ↦ absurd (cc (rw (q, unlock_with_recovery_code) at h))
        | inr (index, more, q) ↦ elim (Option-cases (get_slot? ks.slots index)) [
          | inl g ↦ absurd (cc (rw (q, g, unlock_with_recovery_code) at h))
          | inr (slot, g) ↦
              let (secret, u, is) =
                ask_codes-Opens index slot max_password_attempts 1 none master
                  (rw (q, g, unlock_with_recovery_code) at h) in
              (index, (secret, u, (slot, inl (refl, chosen, (more, q, g), is))))
        ]
      ]

  pub unlock_key_set-IsOpenedBy :
      (allow_recovery : Bool) (master : Bytes)
      → (unlock_key_set platform cipher user ks allow_recovery).1 ≡ inl master
      → IsOpenedBy allow_recovery master
  unfolding unlock_key_set
  unlock_key_set-IsOpenedBy false master h = unlock_regular-IsOpenedBy false master h
  unlock_key_set-IsOpenedBy true master h = elim (Bool-cases (has_slot_type ks slot_recovery)) [
    | inr n ↦ unlock_regular-IsOpenedBy true master (rw (n, unlock_key_set) at h)
    | inl y ↦ elim (Option-cases user.use_recovery) [
      | inl u ↦ absurd (cc (rw (y, u, unlock_key_set) at h))
      | inr (true, u) ↦
          unlock_with_recovery_code-IsOpenedBy master u (rw (y, u, unlock_key_set) at h)
      | inr (false, u) ↦ unlock_regular-IsOpenedBy true master (rw (y, u, unlock_key_set) at h)
    ]
  ]
