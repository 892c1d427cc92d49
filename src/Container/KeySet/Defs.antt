-- ===== src/Container/KeySet/Defs.antt =====
-- keyset.go: KeySet with AddSlot, Unlock, SlotIndexes and HasSlotType; DeriveSectionKeys. A text is
-- its bytes.
use restore_safe.Base.{
  Bool, Bytes, List, Option, [], be32, codes, if◌then◌else◌, length, ltb, none, some, suc, text_eq,
  zero, ℕ, ◌%◌, ◌++◌, ◌+◌, ◌==◌, ◌^◌, ◌||◌, ◌∷◌,
}
use restore_safe.Cryptox.Platform.{Platform}
use restore_safe.Yubikey.Challenge.{ChallengeData}
use restore_safe.Cryptox.Gcm.{Aead}
use restore_safe.Cryptox.Key.{
  Argon2Params, KeyResult, derive_kek, derive_subkey, err, no_such_slot, ok, open_key, seal_key,
  ◌>>=◌,
}

abbrev pub slot_password : Bytes
slot_password = codes "password"

abbrev pub slot_password_yubikey : Bytes
slot_password_yubikey = codes "password_yubikey"

abbrev pub slot_yubikey : Bytes
slot_yubikey = codes "yubikey"

abbrev pub slot_recovery : Bytes
slot_recovery = codes "recovery"

abbrev pub kdf_alg_argon2 : Bytes
kdf_alg_argon2 = codes "argon2id"

pub record Kdf : Type 0 where
  pub alg : Bytes
  pub salt : Bytes
  pub time : ℕ
  pub memory_kib : ℕ
  -- A uint32.
  pub threads : ℕ

-- KDF.params: the threads are cut to a uint8.
abbrev pub kdf_params : Kdf → Argon2Params
kdf_params k = record { time = k.time; memory_kb = k.memory_kib; threads = k.threads % 256 }

pub record Slot : Type 0 where
  pub slot_type : Bytes
  pub label : Bytes
  pub kdf : Kdf
  pub challenge : Option ChallengeData
  pub check : Bytes
  pub nonce : Bytes
  pub wrapped : Bytes

abbrev pub uses_yubikey : Slot → Bool
uses_yubikey s = text_eq s.slot_type slot_password_yubikey || text_eq s.slot_type slot_yubikey

abbrev pub uses_password : Slot → Bool
uses_password s = text_eq s.slot_type slot_password || text_eq s.slot_type slot_password_yubikey

-- An authentication mode is its number; 0 stands for every number below 1.
pub record KeySet : Type 0 where
  pub id : Bytes
  pub created_utc : Bytes
  pub auth_mode : ℕ
  pub slots : List Slot

-- RegularSlotType
unfoldable pub regular_slot_type : ℕ → Bytes
regular_slot_type auth_mode =
    if auth_mode == 2
    then slot_password_yubikey
    else if auth_mode == 3
    then slot_yubikey
    else slot_password

-- SlotIndexes
unfoldable pub slot_indexes_from : ℕ → Bytes → List Slot → List ℕ
slot_indexes_from i slot_type [] = []
slot_indexes_from i slot_type (s ∷ ss) =
    let rest = slot_indexes_from (i + 1) slot_type ss in
    if text_eq s.slot_type slot_type then i ∷ rest else rest

unfoldable pub slot_indexes : KeySet → Bytes → List ℕ
unfolding slot_indexes_from
slot_indexes ks slot_type = slot_indexes_from 0 slot_type ks.slots

unfoldable pub has_slot_type : KeySet → Bytes → Bool
unfolding slot_indexes
has_slot_type ks slot_type = ltb 0 (length (slot_indexes ks slot_type))

-- slotAAD
unfoldable pub slot_aad : Bytes → ℕ → Bytes → Bytes
slot_aad key_set_id index slot_type =
    codes "RestoreSafe v2 slot" ++ (key_set_id ++ (be32 (index % 2 ^ 32) ++ slot_type))

unfoldable pub get_slot? : List Slot → ℕ → Option Slot
get_slot? [] i = none
get_slot? (s ∷ ss) zero = some s
get_slot? (s ∷ ss) (suc i) = get_slot? ss i

pub record SectionKeys : Type 0 where
  pub data_key : Bytes
  pub manifest_key : Bytes

-- The slot that AddSlot appends.
abbrev pub new_slot :
    Bytes → Bytes → Argon2Params → Option ChallengeData → Bytes → Bytes → Bytes → Bytes → Slot
new_slot slot_type label params challenge check salt nonce wrapped = record {
  slot_type = slot_type;
  label = label;
  kdf = record {
    alg = kdf_alg_argon2;
    salt = salt;
    time = params.time;
    memory_kib = params.memory_kb;
    threads = params.threads;
  };
  challenge = challenge;
  check = check;
  nonce = nonce;
  wrapped = wrapped;
}

abbrev pub with_slot : KeySet → Slot → KeySet
with_slot ks s = record ks { slots = ks.slots ++ s ∷ [] }

module _ (platform : Platform) (cipher : Aead) where
  -- AddSlot, with the random salt and nonce that it draws.
  unfoldable pub add_slot :
      KeySet
      → Bytes
      → Bytes
      → Bytes
      → Bytes
      → Argon2Params
      → Option ChallengeData
      → Bytes
      → Bytes
      → Bytes
      → KeyResult KeySet
  add_slot ks master slot_type label secret params challenge check salt nonce = do
    kek ← derive_kek platform cipher secret salt params
    wrapped ← seal_key platform cipher kek nonce master (slot_aad ks.id (length ks.slots) slot_type)
    ok (with_slot ks (new_slot slot_type label params challenge check salt nonce wrapped))

  -- Unlock; a negative index is refused as one past the slots is.
  unfoldable pub unlock : KeySet → ℕ → Bytes → KeyResult Bytes
  unlock ks index secret = elim (get_slot? ks.slots index) [
    | none ↦ err no_such_slot
    | some slot ↦ (do
      kek ← derive_kek platform cipher secret slot.kdf.salt (kdf_params slot.kdf)
      open_key platform cipher kek slot.nonce slot.wrapped (slot_aad ks.id index slot.slot_type))
  ]

  -- DeriveSectionKeys
  unfoldable pub derive_section_keys : Bytes → Bytes → KeyResult SectionKeys
  derive_section_keys master header_hash = do
    data_key ← derive_subkey platform cipher master header_hash (codes "RestoreSafe v2 data")
    manifest_key ←
        derive_subkey platform cipher master header_hash (codes "RestoreSafe v2 manifest")
    ok (record { data_key = data_key; manifest_key = manifest_key })
