-- ===== src/Flow/Speed.antt =====
-- speed.go: Speed with Add. Rate's quotient is a float64: what it divides is `rate_parts`.
use restore_safe.Base.{
  List, Option, [], if◌then◌else◌, leb, ltb, none, some, ℕ, ◌++◌, ◌-◌, ◌==◌, ◌∷◌,
}

-- Times count nanoseconds.
pub record Sample : Type 0 where
  pub at : ℕ
  pub done : ℕ

-- 5 * time.Second
abbrev pub speed_window : ℕ
speed_window = 5000000000

unfoldable pub last_done : List Sample → ℕ
last_done [] = 0
last_done (s ∷ []) = s.done
last_done (s ∷ t ∷ ss) = last_done (t ∷ ss)

unfoldable pub last_at : List Sample → ℕ
last_at [] = 0
last_at (s ∷ []) = s.at
last_at (s ∷ t ∷ ss) = last_at (t ∷ ss)

-- The loop of Add: the oldest samples go while three are left and the second is old enough.
unfoldable pub trim : ℕ → List Sample → List Sample
trim now (a ∷ b ∷ c ∷ ss) =
    let rest = trim now (b ∷ c ∷ ss) in
    if leb speed_window (now - b.at) then rest else a ∷ b ∷ c ∷ ss
trim now ss = ss

-- Add
unfoldable pub add : List Sample → ℕ → ℕ → List Sample
add ss at done =
    let kept : List Sample = if ltb done (last_done ss) then [] else ss in
    trim at (kept ++ record { at = at; done = done } ∷ [])

-- What Rate divides, the bytes and the nanoseconds, where it does not return 0.
unfoldable pub rate_parts : List Sample → Option (ℕ × ℕ)
rate_parts [] = none
rate_parts (s ∷ []) = none
rate_parts (s ∷ t ∷ ss) =
    let span : ℕ = last_at (t ∷ ss) - s.at in
    if span == 0 then none else some (last_done (t ∷ ss) - s.done, span)
