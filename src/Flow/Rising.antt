-- ===== src/Flow/Rising.antt =====
-- speed.go: the samples that Add keeps.
use restore_safe.Flow.Speed.{Sample, add, last_done, speed_window, trim}
use restore_safe.Base.{Bool-cases, List, [], arith, inl, inr, leb, ltb, ℕ, ◌++◌, ◌-◌, ◌∷◌, ◌≤◌}

-- The bytes done never go back from one sample to the next.
unfoldable pub IsRising : List Sample → Type 0
IsRising [] = Unit
IsRising (s ∷ []) = Unit
IsRising (s ∷ t ∷ ss) = (s.done ≤ t.done) × IsRising (t ∷ ss)

IsRising-one : (s : Sample) → IsRising (s ∷ [])
unfolding IsRising
IsRising-one s = tt

IsRising-snoc :
    (ss : List Sample) (s : Sample) → IsRising ss → last_done ss ≤ s.done → IsRising (ss ++ s ∷ [])
unfolding IsRising last_done
IsRising-snoc [] s h l = tt
IsRising-snoc (a ∷ []) s h l = (l, tt)
IsRising-snoc (a ∷ b ∷ ss) s (h, hs) l = (h, IsRising-snoc (b ∷ ss) s hs l)

trim-IsRising : (now : ℕ) (ss : List Sample) → IsRising ss → IsRising (trim now ss)
unfolding trim IsRising
trim-IsRising now [] h = h
trim-IsRising now (a ∷ []) h = h
trim-IsRising now (a ∷ b ∷ []) h = h
trim-IsRising now (a ∷ b ∷ c ∷ ss) (h, hs) = elim (Bool-cases (leb speed_window (now - b.at))) [
  | inl e ↦ rw e (trim-IsRising now (b ∷ c ∷ ss) hs)
  | inr e ↦ rw e (h, hs)
]

-- Add keeps the samples rising.
pub add-IsRising : (ss : List Sample) (at done : ℕ) → IsRising ss → IsRising (add ss at done)
unfolding add
add-IsRising ss at done h = elim (Bool-cases (ltb done (last_done ss))) [
  | inl e ↦ rw e (
      trim-IsRising at (record { at = at; done = done } ∷ [])
        (IsRising-one (record { at = at; done = done })))
  | inr e ↦ rw e (
      trim-IsRising at (ss ++ record { at = at; done = done } ∷ [])
        (IsRising-snoc ss (record { at = at; done = done }) h (ground arith)))
]
