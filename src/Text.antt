-- ===== src/Text.antt =====
-- What the code uses of fmt and strings: decimal numbers, and searches in a text.
-- The digits of `n`, most significant first, in front of `out`. Every round divides by 10, so as many
-- rounds as the number itself, and one, are enough.
use restore_safe.Base.{
  Bool, Bytes, [], false, if◌then◌else◌, ltb, suc, true, zero, ℕ, ◌%◌, ◌&&◌, ◌+◌, ◌/◌, ◌==◌, ◌||◌,
  ◌∷◌,
}

unfoldable pub digits_onto : ℕ → ℕ → Bytes → Bytes
digits_onto zero n out = out
digits_onto (suc fuel) n out =
    let out' = (n % 10 + b'0') ∷ out in
    let rest = digits_onto fuel (n / 10) out' in if ltb n 10 then out' else rest

-- %d
unfoldable pub decimal : ℕ → Bytes
unfolding digits_onto
decimal n = digits_onto (suc n) n []

-- %03d
unfoldable pub decimal3 : ℕ → Bytes
unfolding decimal
decimal3 n =
    if ltb n 1000 then (n / 100 + b'0') ∷ (n / 10 % 10 + b'0') ∷ (n % 10 + b'0') ∷ [] else decimal n

-- strings.IndexByte(set, c) >= 0.
unfoldable pub contains : Bytes → ℕ → Bool
contains [] c = false
contains (x ∷ xs) c = x == c || contains xs c

-- strings.ContainsAny(s, set), for a set of ASCII characters.
unfoldable pub contains_any : Bytes → Bytes → Bool
unfolding contains
contains_any [] set = false
contains_any (c ∷ cs) set = contains set c || contains_any cs set

unfoldable pub all_bytes : (ℕ → Bool) → Bytes → Bool
all_bytes p [] = true
all_bytes p (c ∷ cs) = p c && all_bytes p cs

-- `<` of Go's strings.
unfoldable pub text_less : Bytes → Bytes → Bool
text_less _ [] = false
text_less [] (y ∷ ys) = true
text_less (x ∷ xs) (y ∷ ys) = let rest = text_less xs ys in if x == y then rest else ltb x y
