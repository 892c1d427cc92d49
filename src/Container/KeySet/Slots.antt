-- ===== src/Container/KeySet/Slots.antt =====
-- keyset.go: AddSlot and Unlock.
use restore_safe.Container.KeySet.Defs.{
  KeySet, Slot, add_slot, get_slot?, kdf_params, new_slot, slot_aad, unlock, with_slot,
}
use restore_safe.Base.{
  Bytes, List, Option, [], arith, length, refl, some, suc, zero, ℕ, ◌%◌, ◌++◌, ◌<◌, ◌∷◌, ◌≡◌,
}
use restore_safe.Cryptox.Platform.{Platform}
use restore_safe.Yubikey.Challenge.{ChallengeData}
use restore_safe.Cryptox.Gcm.{Aead}
use restore_safe.Cryptox.Key.{
  Argon2Params, KeyResult, derive_kek, err, ok, open_key, open_key-seal_key, seal_key, ◌>>=◌,
}

get_slot?-append : (ss : List Slot) (s : Slot) → get_slot? (ss ++ s ∷ []) (length ss) ≡ some s
unfolding get_slot?
get_slot?-append [] s = refl
get_slot?-append (x ∷ ss) s = get_slot?-append ss s

get_slot?-append_lt :
    (ss : List Slot) (s : Slot) (i : ℕ)
    → i < length ss
    → get_slot? (ss ++ s ∷ []) i ≡ get_slot? ss i
unfolding get_slot?
get_slot?-append_lt [] s i h = absurd (omega arith)
get_slot?-append_lt (x ∷ ss) s zero h = refl
get_slot?-append_lt (x ∷ ss) s (suc i) h = get_slot?-append_lt ss s i (omega arith)

bind_ok :
    {A B : Type 0} (b : B) (first : KeyResult A) (next : A → KeyResult B)
    → first >>= next ≡ ok b
    → (a : A) × (first ≡ ok a) × (next a ≡ ok b)
bind_ok b (err _) next h = absurd (cc h)
bind_ok b (ok a) next h = (a, refl, h)

module _ (platform : Platform) (cipher : Aead) where
  unlock-new :
      (ks : KeySet) (slot : Slot) (secret kek master : Bytes)
      → derive_kek platform cipher secret slot.kdf.salt (kdf_params slot.kdf) ≡ ok kek
      → open_key platform cipher kek slot.nonce slot.wrapped
          (slot_aad ks.id (length ks.slots) slot.slot_type)
        ≡ ok master
      → unlock platform cipher (with_slot ks slot) (length ks.slots) secret ≡ ok master
  unfolding unlock
  unlock-new ks slot secret kek master e o = rw (get_slot?-append ks.slots slot, unlock) (rw e o)

  unlock-old :
      (ks : KeySet) (slot : Slot) (i : ℕ) (other : Bytes)
      → i < length ks.slots
      → unlock platform cipher (with_slot ks slot) i other ≡ unlock platform cipher ks i other
  unfolding unlock
  unlock-old ks slot i other h = rw (get_slot?-append_lt ks.slots slot i h, unlock)

  add_slot-ok :
      (ks ks' : KeySet) (master slot_type label secret : Bytes) (params : Argon2Params)
      (challenge : Option ChallengeData) (check salt nonce : Bytes)
      → add_slot platform cipher ks master slot_type label secret params challenge check salt nonce
        ≡ ok ks'
      → (kek : Bytes) × (wrapped : Bytes) × (derive_kek platform cipher secret salt params ≡ ok kek)
        × (open_key platform cipher kek nonce wrapped (slot_aad ks.id (length ks.slots) slot_type)
            ≡ ok master)
        × (with_slot ks (new_slot slot_type label params challenge check salt nonce wrapped) ≡ ks')
  unfolding add_slot
  add_slot-ok ks ks' master slot_type label secret params challenge check salt nonce h =
      let (kek, e1, h1) = bind_ok ks' (derive_kek platform cipher secret salt params) _ h in
      let aad = slot_aad ks.id (length ks.slots) slot_type in
      let (wrapped, e2, h2) = bind_ok ks' (seal_key platform cipher kek nonce master aad) _ h1 in
      (kek, wrapped, e1, open_key-seal_key platform cipher kek nonce master aad wrapped e2, cc h2)

  -- A slot that AddSlot adds under a secret, with a thread count that is a uint8, is opened by that
  -- secret and gives the master key back.
  pub unlock-add_slot :
      (ks ks' : KeySet) (master slot_type label secret : Bytes) (params : Argon2Params)
      (challenge : Option ChallengeData) (check salt nonce : Bytes)
      → params.threads < 256
      → add_slot platform cipher ks master slot_type label secret params challenge check salt nonce
        ≡ ok ks'
      → unlock platform cipher ks' (length ks.slots) secret ≡ ok master
  unlock-add_slot ks ks' master slot_type label secret params challenge check salt nonce small h =
      let (kek, wrapped, e1, opened, same) =
        add_slot-ok ks ks' master slot_type label secret params challenge check salt nonce h in
      let slot = new_slot slot_type label params challenge check salt nonce wrapped in
      let threads : params.threads % 256 ≡ params.threads = omega arith in
      rw (← same) (unlock-new ks slot secret kek master (rw threads e1) opened)

  -- After AddSlot, every slot that was there before gives, for every secret, what it gave before.
  pub unlock-add_slot_before :
      (ks ks' : KeySet) (master slot_type label secret : Bytes) (params : Argon2Params)
      (challenge : Option ChallengeData) (check salt nonce : Bytes) (i : ℕ) (other : Bytes)
      → add_slot platform cipher ks master slot_type label secret params challenge check salt nonce
        ≡ ok ks'
      → i < length ks.slots
      → unlock platform cipher ks' i other ≡ unlock platform cipher ks i other
  unlock-add_slot_before ks ks' master slot_type label secret params challenge check salt nonce i
        other h lt =
      let (kek, wrapped, e1, opened, same) =
        add_slot-ok ks ks' master slot_type label secret params challenge check salt nonce h in
      let slot = new_slot slot_type label params challenge check salt nonce wrapped in
      rw (← same) (unlock-old ks slot i other lt)
