-- ===== src/Container/Split/Loop.antt =====
-- split.go: the loop of Write, and Write.
use restore_safe.Container.Split.Defs.{
  Disk, Part, WriteError, Writer, close_current, ensure_open, open_next, out_of_fuel, part_path,
  write, write_open, write_part, write_round, write_rounds,
}
use restore_safe.Base.{
  Bytes, Option-cases, [], ap, append-nil, append_assoc, arith, drop, false, inl, inr, length,
  length-drop, none, refl, some, suc, sym, take, take-add, zero, ℕ, ◌++◌, ◌+◌, ◌<◌, ◌==◌, ◌∙◌, ◌∷◌,
  ◌≡◌, ◌≢◌, ◌⊎◌,
}
use restore_safe.Container.Split.Invariant.{
  Appends, AreDistinct, IsWriting, stream, write_round-Appends,
}

module _ (disk : Disk) (name_func : ℕ → Bytes)
    (distinct : AreDistinct (part_path disk name_func)) where
  write_part_fueled :
      (w : Writer) (part : Part) (p : Bytes)
      → (write_part disk name_func w part p).2 ≢ some out_of_fuel
  unfolding write_part close_current
  write_part_fueled w part p = ground arith

  ensure_open_fueled : (w : Writer) → (ensure_open disk name_func w).1 ≢ some out_of_fuel
  unfolding ensure_open open_next
  ensure_open_fueled w = ground arith

  write_open_fueled :
      (w : Writer) (p : Bytes) → (write_open disk name_func w p).2 ≢ some out_of_fuel
  unfolding write_open
  write_open_fueled w p = elim (Option-cases w.current) [
    | inl e ↦ rw (e, write_open) (λ x. cc)
    | inr (part, e) ↦ rw (e, write_open) (write_part_fueled w part p)
  ]

  write_round_fueled :
      (w : Writer) (p : Bytes) → (write_round disk name_func w p).2 ≢ some out_of_fuel
  unfolding write_round
  write_round_fueled w p = elim (Option-cases (ensure_open disk name_func w).1) [
    | inl e ↦ rw (e, write_round) (write_open_fueled (ensure_open disk name_func w).0 p)
    | inr (f, e) ↦ rw (e, write_round) (λ x. ensure_open_fueled w (e ∙ x))
  ]

  -- A call that takes `k` bytes, and a call on what is left.
  Appends-trans :
      {w w1 w2 : Writer} {p : Bytes} {k k2 : ℕ}
      → Appends (part_path disk name_func) w p w1 k
      → Appends (part_path disk name_func) w1 (drop k p) w2 k2
      → Appends (part_path disk name_func) w p w2 (k + k2)
  Appends-trans {w} {w1} {w2} {p} {k} {k2} a b = record {
    writing = b.writing;
    size_kept = b.size_kept ∙ a.size_kept;
    appended =
        b.appended
        ∙ ap (λ x. x ++ take k2 (drop k p)) a.appended
        ∙ append_assoc (stream w) _ _
        ∙ ap (λ x. stream w ++ x) (sym (take-add k k2 (k + k2) p refl));
    taken = omega (arith, a.taken, b.taken, length-drop k p);
  }

  pub write_rounds-failed :
      (fuel : ℕ) (w : Writer) (b : ℕ) (bs : Bytes) (total : ℕ) (e : WriteError)
      → let r = write_round disk name_func w (b ∷ bs) in
        r.2 ≡ some e
        → write_rounds disk name_func (suc fuel) w (b ∷ bs) total ≡ (r.0, total + r.1, some e)
  unfolding write_rounds
  write_rounds-failed fuel w b bs total e h = rw (h, write_rounds)

  pub write_rounds-next :
      (fuel : ℕ) (w : Writer) (b : ℕ) (bs : Bytes) (total : ℕ)
      → let r = write_round disk name_func w (b ∷ bs) in
        r.2 ≡ none
        → write_rounds disk name_func (suc fuel) w (b ∷ bs) total
          ≡ write_rounds disk name_func fuel r.0 (drop r.1 (b ∷ bs)) (total + r.1)
  unfolding write_rounds
  write_rounds-next fuel w b bs total h = rw (h, write_rounds)

  -- With a round of fuel for each byte, the loop does not run out of fuel.
  write_rounds-Appends :
      (fuel : ℕ) (w : Writer) (p : Bytes) (total : ℕ)
      → IsWriting (part_path disk name_func) w
      → length p < fuel
      → let r = write_rounds disk name_func fuel w p total in
        (k : ℕ) × (r.1 ≡ total + k)
        × Appends (part_path disk name_func) w p r.0 k
        × (r.2 ≡ none → k ≡ length p)
        × (r.2 ≢ some out_of_fuel)
  unfolding write_rounds
  write_rounds-Appends zero w p total v h = elim h [ ]
  write_rounds-Appends (suc fuel) w [] total v h = (
    0,
    omega arith,
    record { writing = v; size_kept = refl; appended = sym (append-nil _); taken = omega arith },
    λ _. refl,
    λ x. cc,
  )
  write_rounds-Appends (suc fuel) w (b ∷ bs) total v h =
      let (w', k, failure) = write_round disk name_func w (b ∷ bs) in
      let (a, progress) = write_round-Appends disk name_func distinct w (b ∷ bs) v in
      elim (Option-cases failure) [
        | inr (e, q) ↦
            rw (write_rounds-failed fuel w b bs total e q)
              (k, refl, a, λ x. cc, λ x. write_round_fueled w (b ∷ bs) (q ∙ x))
        | inl q ↦
            let grown : 0 < k = progress q (omega arith) in
            let (k2, sum, a2, all, fueled) =
              write_rounds-Appends fuel w' (drop k (b ∷ bs)) (total + k) a.writing
                (omega (arith, length-drop k (b ∷ bs))) in
            rw (write_rounds-next fuel w b bs total q) (
              k + k2,
              omega (arith, sum),
              Appends-trans a a2,
              λ x. omega (arith, all x, length-drop k (b ∷ bs), a.taken),
              fueled,
            )
      ]

  -- Write of a writer with a positive part size, whatever the operating system does, where no two
  -- numbers have the same path: with `k` the count that it returns, the contents of the files that
  -- stand on disk have grown by the first `k` bytes of the input, they are still the files at the paths
  -- of Paths, the closed ones are full and the open one is shorter than the part size. Either there is no
  -- error, and `k` is the length of the input, or there is one, which is not that of the fuel.
  pub write-Appends :
      (w : Writer) (p : Bytes)
      → IsWriting (part_path disk name_func) w
      → let r = write disk name_func w p in
        Appends (part_path disk name_func) w p r.0 r.1
        × (((r.2 ≡ none) × (r.1 ≡ length p))
            ⊎ ((e : WriteError) × (r.2 ≡ some e) × (e ≢ out_of_fuel)))
  unfolding write
  write-Appends w p v =
      let (k, sum, a, all, fueled) = write_rounds-Appends (suc (length p)) w p 0 v (omega arith) in
      let positive : (w.max_bytes == 0) ≡ false = ground (arith, v.size_positive) in
      let e : (write_rounds disk name_func (suc (length p)) w p 0).1 ≡ k = omega (arith, sum) in
      rw positive (
        rw e a,
        elim (Option-cases (write_rounds disk name_func (suc (length p)) w p 0).2) [
          | inl n ↦ inl (n, e ∙ all n)
          | inr (x, q) ↦ inr (x, q, λ f. fueled (q ∙ ap some f))
        ],
      )

  -- Without an error the count is the length of the input.
  pub write-all :
      (w : Writer) (p : Bytes)
      → IsWriting (part_path disk name_func) w
      → (write disk name_func w p).2 ≡ none
      → (write disk name_func w p).1 ≡ length p
  write-all w p v n = elim ((write-Appends w p v).1) [
    | inl (a, b) ↦ b
    | inr (x, q, f) ↦ absurd (cc (n, q))
  ]
