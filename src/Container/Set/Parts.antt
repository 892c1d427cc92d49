-- ===== src/Container/Set/Parts.antt =====
-- set.go: the number of parts that Write records, and the parts that so many bytes take.
use restore_safe.Container.Set.Defs.{div_int64, part_count}
use restore_safe.Base.{
  Bool-cases, arith, if◌then◌else◌, inl, inr, ltb, refl, true, ℕ, ◌%◌, ◌+◌, ◌-◌, ◌/◌, ◌^◌, ◌≡◌, ◌≤◌,
}

-- The parts of at most `m` bytes that `n` bytes take: the quotient, rounded up. Without a part size
-- there is one part.
unfoldable pub parts_needed : ℕ → ℕ → ℕ
parts_needed n m = if ltb 0 m then (n + m - 1) / m else 1

-- Where the sum of both sizes does not wrap round, the recorded number is the one needed.
pub part_count-parts_needed : (n m : ℕ) → n + m ≤ 2 ^ 63 → part_count n m ≡ parts_needed n m
unfolding part_count parts_needed div_int64
part_count-parts_needed n m h = elim (Bool-cases (ltb 0 m)) [
  | inr z ↦ rw (z, part_count, parts_needed) refl
  | inl z ↦
      let fits : (n + m - 1) % 2 ^ 64 ≡ n + m - 1 = ground arith in
      let positive : ltb (n + m - 1) (2 ^ 63) ≡ true = ground arith in
      rw (z, part_count, parts_needed, fits, div_int64, positive) refl
]
