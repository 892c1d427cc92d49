-- ===== src/Container/Split/Nonempty.antt =====
-- split.go: the open part after a call of Write.
use restore_safe.Container.Split.Invariant.{
  AreDistinct, CurrentFits, IsWriting, ensure_open-IsWriting, write_round-Appends,
  write_round-failed, write_round-opened,
}
use restore_safe.Container.Split.Loop.{write_rounds-failed, write_rounds-next}
use restore_safe.Base.{
  Bool-cases, Bytes, Option-cases, [], arith, drop, false, inl, inr, leb, length, ltb, none, refl,
  some, suc, zero, ℕ, ◌+◌, ◌-◌, ◌<◌, ◌==◌, ◌∷◌, ◌≡◌, ◌⊎◌,
}
use Prim.Native.Nat.{min}
use restore_safe.Container.Split.Defs.{
  Disk, Part, Writer, close_current, ensure_open, part_path, write, write_part, write_round,
  write_rounds,
}

-- An open part holds a byte at least.
abbrev pub CurrentNonempty : Writer → Type 0
CurrentNonempty w = (w.current ≡ none) ⊎ (0 < w.written)

module _ (disk : Disk) (name_func : ℕ → Bytes)
    (distinct : AreDistinct (part_path disk name_func)) where
  write_part-nonempty :
      (w : Writer) (part : Part) (p : Bytes)
      → w.current ≡ some part
      → CurrentFits w.max_bytes w.written w.current
      → 0 < length p
      → let r = write_part disk name_func w part p in r.2 ≡ none → CurrentNonempty r.0
  unfolding write_part close_current
  write_part-nonempty w part p e fits h s =
      let room : (length part.content ≡ w.written) × (w.written < w.max_bytes) = rw e at fits in
      let n = min (length p) (w.max_bytes - w.written) in
      let k = disk.accepts part.path w.written n in
      elim (Bool-cases (ltb k n)) [
        | inl short ↦ absurd (cc (rw short at s))
        | inr whole ↦
            let grown : 0 < w.written + k = ground arith in
            elim (Bool-cases (leb w.max_bytes (w.written + k))) [
              | inl full ↦ rw (whole, full) (inl refl)
              | inr space ↦ rw (whole, space) (inr grown)
            ]
      ]

  -- A round that goes on leaves no empty part behind.
  write_round-nonempty :
      (w : Writer) (p : Bytes)
      → IsWriting (part_path disk name_func) w
      → 0 < length p
      → let r = write_round disk name_func w p in r.2 ≡ none → CurrentNonempty r.0
  write_round-nonempty w p v h s =
      let (v', _, _, opens) = ensure_open-IsWriting disk name_func distinct w v in
      elim (Option-cases (ensure_open disk name_func w).1) [
        | inr (e, q) ↦ absurd (cc (write_round-failed disk name_func distinct w p e q))
        | inl q ↦
            let (part, k) = opens q in
            let e = write_round-opened disk name_func distinct w p part q k in
            rw e (
              write_part-nonempty (ensure_open disk name_func w).0 part p k v'.current_fits h
                (rw e at s))
      ]

  write_rounds-nonempty :
      (fuel : ℕ) (w : Writer) (p : Bytes) (total : ℕ)
      → IsWriting (part_path disk name_func) w
      → CurrentNonempty w
      → let r = write_rounds disk name_func fuel w p total in r.2 ≡ none → CurrentNonempty r.0
  unfolding write_rounds
  write_rounds-nonempty zero w p total v h s = absurd (cc)
  write_rounds-nonempty (suc fuel) w [] total v h s = h
  write_rounds-nonempty (suc fuel) w (b ∷ bs) total v h s =
      let (w', k, failure) = write_round disk name_func w (b ∷ bs) in
      elim (Option-cases failure) [
        | inr (e, q) ↦
            absurd (cc (write_rounds-failed disk name_func distinct fuel w b bs total e q))
        | inl q ↦
            let e = write_rounds-next disk name_func distinct fuel w b bs total q in
            rw e (
              write_rounds-nonempty fuel w' (drop k (b ∷ bs)) (total + k)
                (write_round-Appends disk name_func distinct w (b ∷ bs) v).0.writing
                (write_round-nonempty w (b ∷ bs) v (omega arith) q) (rw e at s))
      ]

  pub write-nonempty :
      (w : Writer) (p : Bytes)
      → IsWriting (part_path disk name_func) w
      → CurrentNonempty w
      → let r = write disk name_func w p in r.2 ≡ none → CurrentNonempty r.0
  unfolding write
  write-nonempty w p v h s =
      let positive : (w.max_bytes == 0) ≡ false = ground (arith, v.size_positive) in
      rw positive (write_rounds-nonempty (suc (length p)) w p 0 v h (rw positive at s))
