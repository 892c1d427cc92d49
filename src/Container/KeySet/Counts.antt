-- ===== src/Container/KeySet/Counts.antt =====
-- keyset.go: the slots of a key set, and their number by type.
use restore_safe.Base.{
  Bool-cases, Bytes, List, Sum-cases, [], arith, false, inl, inr, length, none, sym, text_eq,
  text_eq_iff, true, ℕ, ◌+◌, ◌∙◌, ◌∷◌, ◌≡◌, ◌≢◌, ◌≤◌,
}
use restore_safe.Cryptox.Platform.{Platform}
use restore_safe.Container.KeySet.Defs.{
  KeySet, Slot, regular_slot_type, slot_indexes, slot_indexes_from, slot_recovery,
}
use restore_safe.Container.KeySet.Validate.{count_slots, validate}

regular-ne-recovery : (mode : ℕ) → regular_slot_type mode ≢ slot_recovery
unfolding regular_slot_type
regular-ne-recovery mode h = ground arith

module _ (platform : Platform) (regular : Bytes) (ne : regular ≢ slot_recovery) where
  not_both : (t : Bytes) → text_eq t regular ≡ true → text_eq t slot_recovery ≡ false
  not_both t h = elim (Bool-cases (text_eq t slot_recovery)) [
    | inl k ↦ absurd (ne (sym ((text_eq_iff t regular).0 h) ∙ (text_eq_iff t slot_recovery).0 k))
    | inr k ↦ k
  ]

  count_slots-slot_indexes :
      (ss : List Slot) (i m n a b : ℕ)
      → count_slots platform regular m n ss ≡ inl (a, b)
      → (a ≡ m + length (slot_indexes_from i regular ss))
        × (b ≡ n + length (slot_indexes_from i slot_recovery ss))
        × (length (slot_indexes_from i regular ss) + length (slot_indexes_from i slot_recovery ss)
            ≡ length ss)
  unfolding count_slots slot_indexes_from
  count_slots-slot_indexes [] i m n a b h = ground arith
  count_slots-slot_indexes (s ∷ ss) i m n a b h = elim (Bool-cases (text_eq s.slot_type regular)) [
    | inl reg ↦
        ground (arith, not_both s.slot_type reg, count_slots-slot_indexes ss (i + 1) (m + 1) n a b)
    | inr other ↦ ground (arith, count_slots-slot_indexes ss (i + 1) m (n + 1) a b)
  ]

-- What Validate asks of the counts.
validate-count_slots :
    (platform : Platform) (ks : KeySet)
    → validate platform ks ≡ none
    → (a b : ℕ) × (count_slots platform (regular_slot_type ks.auth_mode) 0 0 ks.slots ≡ inl (a, b))
      × (a ≡ 1)
      × (b ≤ 1)
unfolding validate
validate-count_slots platform ks h =
    elim (Sum-cases (count_slots platform (regular_slot_type ks.auth_mode) 0 0 ks.slots)) [
      | inl ((a, b), e) ↦ (a, b, e, ground arith, ground arith)
      | inr (e, k) ↦ absurd (ground arith)
    ]

-- A key set that Validate accepts has exactly one slot of its authentication mode's type and at most
-- one recovery slot, and no other slots.
pub validate-slot_indexes :
    (platform : Platform) (ks : KeySet)
    → validate platform ks ≡ none
    → let regular = length (slot_indexes ks (regular_slot_type ks.auth_mode)) in
      let recovery = length (slot_indexes ks slot_recovery) in
      (regular ≡ 1) × (recovery ≤ 1) × (regular + recovery ≡ length ks.slots)
unfolding slot_indexes
validate-slot_indexes platform ks h =
    let (a, b, e, one, most) = validate-count_slots platform ks h in
    let counts =
      count_slots-slot_indexes platform (regular_slot_type ks.auth_mode)
        (regular-ne-recovery ks.auth_mode) ks.slots 0 0 0 a b e in
    (omega (arith, counts.0), omega (arith, counts.1), counts.2)
