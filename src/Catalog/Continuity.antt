-- ===== src/Catalog/Continuity.antt =====
-- inventory.go: checkContinuity, which looks for gaps in a sorted list of part numbers.
use restore_safe.Base.{
  Bool-cases, List, Mem, Mem-append, Mem-append_left, Mem-append_right, [], arith, inl, inr, ltb,
  suc, zero, ℕ, ◌+◌, ◌-◌, ◌<◌, ◌==◌, ◌↔◌, ◌∷◌, ◌≢◌, ◌≤◌,
}
use restore_safe.Catalog.Defs.{missing_from, numbers_from}

-- The numbers rise from `next` on, as a sorted list of different part numbers does.
unfoldable pub AreRisingFrom : ℕ → List ℕ → Type 0
AreRisingFrom next [] = Unit
AreRisingFrom next (seq ∷ seqs) = (next ≤ seq) × AreRisingFrom (seq + 1) seqs

-- The last of the numbers, `prev` for none.
unfoldable pub last_number : ℕ → List ℕ → ℕ
last_number prev [] = prev
last_number prev (n ∷ ns) = last_number n ns

Mem-numbers_from : (next n x : ℕ) → Mem x (numbers_from next n) → (next ≤ x) × (x < next + n)
unfolding Mem numbers_from
Mem-numbers_from next zero x h = absurd h
Mem-numbers_from next (suc n) x (inl e) = (omega arith, omega arith)
Mem-numbers_from next (suc n) x (inr h) =
    let (a, b) = Mem-numbers_from (next + 1) n x h in (omega arith, omega arith)

numbers_from-Mem : (next n x : ℕ) → next ≤ x → x < next + n → Mem x (numbers_from next n)
unfolding Mem numbers_from
numbers_from-Mem next zero x a b = absurd (omega arith)
numbers_from-Mem next (suc n) x a b = elim (Bool-cases (x == next)) [
  | inl e ↦ inl (ground arith)
  | inr e ↦ inr (numbers_from-Mem (next + 1) n x (ground arith) (ground arith))
]

above : (next : ℕ) (seqs : List ℕ) (x : ℕ) → AreRisingFrom next seqs → Mem x seqs → next ≤ x
unfolding AreRisingFrom Mem
above next (s ∷ ss) x (a, r) (inl e) = omega arith
above next (s ∷ ss) x (a, r) (inr h) = (let q = above (s + 1) ss x r h in omega arith)
above next [] x r h = absurd h

last_above :
    (prev : ℕ) (seqs : List ℕ) → AreRisingFrom (prev + 1) seqs → prev ≤ last_number prev seqs
unfolding AreRisingFrom last_number
last_above prev [] r = omega arith
last_above prev (s ∷ ss) (a, r) = (let q = last_above s ss r in omega arith)

IsGap : ℕ → List ℕ → ℕ → Type 0
IsGap prev seqs x = (prev < x) × (x < last_number prev seqs) × ¬ (Mem x seqs)

missing_from-IsGap :
    (prev : ℕ) (seqs : List ℕ) (x : ℕ)
    → AreRisingFrom (prev + 1) seqs
    → Mem x (missing_from (prev + 1) seqs)
    → IsGap prev seqs x
unfolding AreRisingFrom missing_from last_number Mem IsGap
missing_from-IsGap prev [] x r h = absurd h
missing_from-IsGap prev (s ∷ ss) x (a, r) h =
    let big = last_above s ss r in
    elim (Mem-append x (numbers_from (prev + 1) (s - (prev + 1))) (missing_from (s + 1) ss) h) [
      | inl m ↦
          (let (b, c) = Mem-numbers_from (prev + 1) (s - (prev + 1)) x m in
            (
              omega arith,
              omega arith,
              λ k. elim k [
                | inl e ↦ omega arith
                | inr k' ↦ (let q = above (s + 1) ss x r k' in omega arith)
              ],
            ))
      | inr m ↦
          (let (b, c, d) = missing_from-IsGap s ss x r m in
            (omega arith, c, λ k. elim k [ inl e ↦ omega arith | inr k' ↦ d k' ]))
    ]

above_other : (s x : ℕ) → s ≤ x → x ≢ s → s < x
above_other s x h n = ground arith

IsGap-missing_from :
    (prev : ℕ) (seqs : List ℕ) (x : ℕ)
    → AreRisingFrom (prev + 1) seqs
    → IsGap prev seqs x
    → Mem x (missing_from (prev + 1) seqs)
unfolding AreRisingFrom missing_from last_number Mem IsGap
IsGap-missing_from prev [] x r (b, c, d) = omega arith
IsGap-missing_from prev (s ∷ ss) x (a, r) (b, c, d) =
    let front = numbers_from (prev + 1) (s - (prev + 1)) in
    elim (Bool-cases (ltb x s)) [
      | inl e ↦
          Mem-append_left x front (missing_from (s + 1) ss)
            (numbers_from-Mem (prev + 1) (s - (prev + 1)) x (ground arith) (ground arith))
      | inr e ↦ Mem-append_right x front (missing_from (s + 1) ss) (
          IsGap-missing_from s ss x r
            (above_other s x (ground arith) (λ q. d (inl q)), c, λ k. d (inr k)))
    ]

-- For part numbers that rise from 1 or above, as those of a set's sorted files do, the numbers that
-- checkContinuity reports missing are exactly those from 1 up to the last one present that are not
-- present themselves.
pub missing_from_iff :
    (seqs : List ℕ) (x : ℕ)
    → AreRisingFrom 1 seqs
    → Mem x (missing_from 1 seqs) ↔ ((0 < x) × (x < last_number 0 seqs) × ¬ (Mem x seqs))
unfolding IsGap
missing_from_iff seqs x r = (missing_from-IsGap 0 seqs x r, IsGap-missing_from 0 seqs x r)
