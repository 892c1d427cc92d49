-- ===== src/Unlock/Masters.antt =====
-- unlock.go: the keys that KeySets collects.
use restore_safe.Unlock.Opened.{IsOpenedBy, unlock_key_set-IsOpenedBy}
use restore_safe.Container.KeySet.{KeySet}
use restore_safe.Unlock.Defs.{MasterKeys, User, master_of, unlock_key_set, unlock_key_sets}
use restore_safe.Base.{
  Bool-cases, Bytes, List, Mem, Option-cases, Sum-cases, [], inl, inr, none, refl, some, subst,
  text_eq, text_eq_iff, true, ◌∷◌, ◌≡◌,
}
use restore_safe.Cryptox.Platform.{Platform}
use restore_safe.Cryptox.Gcm.{Aead}

module _ (platform : Platform) (cipher : Aead) (users : KeySet → User) where
  -- A key set has a master key that was unlocked for one of the key sets, with the same ID.
  abbrev pub HasMaster : List KeySet → MasterKeys → KeySet → Type 0
  HasMaster sets keys ks =
      (master : Bytes) × (owner : KeySet) × (master_of ks.id keys ≡ some master)
      × Mem owner sets
      × (owner.id ≡ ks.id)
      × IsOpenedBy platform cipher (users owner) owner true master

  -- Every master key was unlocked for a key set of the list.
  abbrev AreOpened : List KeySet → MasterKeys → Type 0
  AreOpened sets keys =
      (id master : Bytes)
      → master_of id keys ≡ some master
      → (owner : KeySet) × Mem owner sets
        × (owner.id ≡ id)
        × IsOpenedBy platform cipher (users owner) owner true master

  master_of-other :
      (id id' master new : Bytes) (keys : MasterKeys)
      → master_of id' keys ≡ none
      → master_of id keys ≡ some master
      → master_of id ((id', new) ∷ keys) ≡ some master
  unfolding master_of
  master_of-other id id' master new keys absent m = elim (Bool-cases (text_eq id' id)) [
    | inl y ↦
        absurd (cc (subst (λ z. master_of z keys ≡ none) ((text_eq_iff id' id).0 y) absent, m))
    | inr n ↦ rw (n, master_of) m
  ]

  unlock_key_sets-grows :
      (keys out : MasterKeys) (sets : List KeySet) (id master : Bytes)
      → unlock_key_sets platform cipher users keys sets ≡ inl out
      → master_of id keys ≡ some master
      → master_of id out ≡ some master
  unfolding unlock_key_sets
  unlock_key_sets-grows keys out [] id master h m =
      subst (λ z. master_of id z ≡ some master) (cc h) m
  unlock_key_sets-grows keys out (ks ∷ rest) id master h m =
      elim (Option-cases (master_of ks.id keys)) [
        | inr (x, k) ↦
            unlock_key_sets-grows keys out rest id master (rw (k, unlock_key_sets) at h) m
        | inl k ↦ elim (Sum-cases (unlock_key_set platform cipher (users ks) ks true).1) [
          | inr (e, u) ↦ absurd (cc (rw (k, u, unlock_key_sets) at h))
          | inl (new, u) ↦
              unlock_key_sets-grows ((ks.id, new) ∷ keys) out rest id master
                (rw (k, u, unlock_key_sets) at h) (master_of-other id ks.id master new keys k m)
        ]
      ]

  AreOpened-next :
      (sets : List KeySet) (keys : MasterKeys) (ks : KeySet) (new : Bytes)
      → AreOpened sets keys
      → Mem ks sets
      → IsOpenedBy platform cipher (users ks) ks true new
      → AreOpened sets ((ks.id, new) ∷ keys)
  unfolding master_of
  AreOpened-next sets keys ks new all m opened id master h = elim (Bool-cases (text_eq ks.id id)) [
    | inl y ↦
        let same : new ≡ master = cc (rw (y, master_of) at h) in
        (
          ks,
          m,
          (text_eq_iff ks.id id).0 y,
          subst (λ z. IsOpenedBy platform cipher (users ks) ks true z) same opened,
        )
    | inr n ↦ all id master (rw (n, master_of) at h)
  ]

  unlock_key_sets-opened :
      (all : List KeySet) (keys out : MasterKeys) (sets : List KeySet)
      → AreOpened all keys
      → ((ks : KeySet) → Mem ks sets → Mem ks all)
      → unlock_key_sets platform cipher users keys sets ≡ inl out
      → AreOpened all out
        × ((ks : KeySet) → Mem ks sets → (master : Bytes) × (master_of ks.id out ≡ some master))
  unfolding unlock_key_sets Mem master_of
  unlock_key_sets-opened all keys out [] opened within h =
      (subst (λ z. AreOpened all z) (cc h) opened, λ ks m. absurd m)
  unlock_key_sets-opened all keys out (ks ∷ rest) opened within h =
      elim (Option-cases (master_of ks.id keys)) [
        | inr (x, k) ↦
            let next : unlock_key_sets platform cipher users keys rest ≡ inl out =
              rw (k, unlock_key_sets) at h in
            let (a, b) =
              unlock_key_sets-opened all keys out rest opened (λ y m. within y (inr m)) next in
            (
              a,
              λ y m. elim m [
                | inl q ↦ (x, rw q (unlock_key_sets-grows keys out rest ks.id x next k))
                | inr m' ↦ b y m'
              ],
            )
        | inl k ↦ elim (Sum-cases (unlock_key_set platform cipher (users ks) ks true).1) [
          | inr (e, u) ↦ absurd (cc (rw (k, u, unlock_key_sets) at h))
          | inl (new, u) ↦
              let next : unlock_key_sets platform cipher users ((ks.id, new) ∷ keys) rest
                  ≡ inl out =
                rw (k, u, unlock_key_sets) at h in
              let found : master_of ks.id ((ks.id, new) ∷ keys) ≡ some new =
                rw ((text_eq_iff ks.id ks.id).1 refl, master_of) refl in
              let (a, b) =
                unlock_key_sets-opened all ((ks.id, new) ∷ keys) out rest
                  (AreOpened-next all keys ks new opened (within ks (inl refl))
                    (unlock_key_set-IsOpenedBy platform cipher (users ks) ks true new u))
                  (λ y m. within y (inr m)) next in
              (
                a,
                λ y m. elim m [
                  | inl q ↦ (
                    new,
                    rw q
                        (unlock_key_sets-grows ((ks.id, new) ∷ keys) out rest ks.id new next found),
                  )
                  | inr m' ↦ b y m'
                ],
              )
        ]
      ]

  -- Where KeySets succeeds, every key set of the list has a master key under its ID, which a slot of a
  -- key set of the list with that ID gives for some secret.
  pub unlock_key_sets-HasMaster :
      (sets : List KeySet) (out : MasterKeys) (ks : KeySet)
      → unlock_key_sets platform cipher users [] sets ≡ inl out
      → Mem ks sets
      → HasMaster sets out ks
  unfolding master_of
  unlock_key_sets-HasMaster sets out ks h m =
      let (opened, found) =
        unlock_key_sets-opened sets [] out sets (λ id master x. absurd (cc x)) (λ y z. z) h in
      let (master, q) = found ks m in
      let (owner, n, same, secret) = opened ks.id master q in (master, owner, q, n, same, secret)
