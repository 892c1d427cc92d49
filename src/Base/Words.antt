-- ===== src/Base/Words.antt =====
-- Text and raw data as lists of bytes, and big-endian words (encoding/binary).
use Prim.Native.Char.{code}
use Prim.Native.String.{String}
use mathlib.Core.Path.{refl, ◌≡◌}
use mathlib.Core.Logic.{◌↔◌}
use mathlib.Core.Bool.{Bool, false, true, ◌&&◌}
use mathlib.Core.List.{List, [], ◌++◌, ◌∷◌}
use native.Mathlib.Omega.{arith}
use restore_safe.Base.Tests.{◌==◌}
use restore_safe.Base.Lists.{drop, length, length-drop, length-take, take, take-append-drop}
use Prim.Native.Nat.{zero, suc, ℕ, ◌+◌, ◌*◌, ◌/◌, ◌%◌, ◌^◌, ◌<◌}

abbrev pub Bytes : Type 0
Bytes = List ℕ

-- The bytes of a text that is ASCII.
abbrev pub codes : String → Bytes
codes String.[] = []
codes (String.◌∷◌ c s) = code c ∷ codes s

-- `==` of strings, bytes.Equal.
unfoldable pub text_eq : Bytes → Bytes → Bool
text_eq [] [] = true
text_eq (x ∷ xs) (y ∷ ys) = x == y && text_eq xs ys
text_eq _ _ = false

pub text_eq_iff : (a b : Bytes) → (text_eq a b ≡ true) ↔ (a ≡ b)
unfolding text_eq
text_eq_iff (x ∷ a) (y ∷ b) = ground (arith, text_eq_iff a b)
text_eq_iff _ _ = ground arith

-- binary.BigEndian.AppendUint32 and Uint32.
unfoldable pub be32 : ℕ → Bytes
be32 n = n / 2 ^ 24 % 256 ∷ n / 2 ^ 16 % 256 ∷ n / 2 ^ 8 % 256 ∷ n % 256 ∷ []

unfoldable pub from_be32 : Bytes → ℕ
from_be32 (a ∷ b ∷ c ∷ d ∷ []) = a * 2 ^ 24 + b * 2 ^ 16 + c * 2 ^ 8 + d
from_be32 _ = 0

-- binary.BigEndian.AppendUint64 and Uint64.
unfoldable pub be64 : ℕ → Bytes
be64 n = be32 (n / 2 ^ 32) ++ be32 (n % 2 ^ 32)

unfoldable pub from_be64 : Bytes → ℕ
from_be64 bs = from_be32 (take 4 bs) * 2 ^ 32 + from_be32 (drop 4 bs)

pub length-be32 : (n : ℕ) → length (be32 n) ≡ 4
unfolding be32
length-be32 n = refl

pub length-be64 : (n : ℕ) → length (be64 n) ≡ 8
unfolding be64 be32
length-be64 n = refl

pub from_be32-be32 : (n : ℕ) → n < 2 ^ 32 → from_be32 (be32 n) ≡ n
unfolding be32 from_be32
from_be32-be32 n h = omega arith

pub from_be64-be64 : (n : ℕ) → n < 2 ^ 64 → from_be64 (be64 n) ≡ n
unfolding be64 from_be64 be32 from_be32
from_be64-be64 n h = omega arith

-- Every element is a byte.
abbrev pub AreBytes : Bytes → Type 0
AreBytes [] = Unit
AreBytes (b ∷ bs) = (b < 256) × AreBytes bs

pub AreBytes-append : (xs ys : Bytes) → AreBytes (xs ++ ys) → AreBytes xs × AreBytes ys
AreBytes-append [] ys h = (tt, h)
AreBytes-append (x ∷ xs) ys h = let r = AreBytes-append xs ys h.1 in ((h.0, r.0), r.1)

pub AreBytes-take : (n : ℕ) (xs : Bytes) → AreBytes xs → AreBytes (take n xs)
AreBytes-take zero xs h = tt
AreBytes-take (suc n) [] h = tt
AreBytes-take (suc n) (x ∷ xs) h = (h.0, AreBytes-take n xs h.1)

pub AreBytes-drop : (n : ℕ) (xs : Bytes) → AreBytes xs → AreBytes (drop n xs)
AreBytes-drop zero xs h = h
AreBytes-drop (suc n) [] h = tt
AreBytes-drop (suc n) (x ∷ xs) h = AreBytes-drop n xs h.1

from_be32-lt : (bs : Bytes) → AreBytes bs → from_be32 bs < 2 ^ 32
unfolding from_be32
from_be32-lt (a ∷ b ∷ c ∷ d ∷ []) h = omega arith
from_be32-lt _ h = omega arith

pub be32-from_be32 : (bs : Bytes) → length bs ≡ 4 → AreBytes bs → be32 (from_be32 bs) ≡ bs
unfolding be32 from_be32
be32-from_be32 (a ∷ b ∷ c ∷ d ∷ []) h k = ground arith
be32-from_be32 _ h k = absurd (omega arith)

pub be64-from_be64 : (bs : Bytes) → length bs ≡ 8 → AreBytes bs → be64 (from_be64 bs) ≡ bs
unfolding be64 from_be64
be64-from_be64 bs h k =
    let hi = take 4 bs in
    let lo = drop 4 bs in
    let small : from_be32 lo < 2 ^ 32 = from_be32-lt lo (AreBytes-drop 4 bs k) in
    let e1 : (from_be32 hi * 2 ^ 32 + from_be32 lo) / 2 ^ 32 ≡ from_be32 hi = omega arith in
    let e2 : (from_be32 hi * 2 ^ 32 + from_be32 lo) % 2 ^ 32 ≡ from_be32 lo = omega arith in
    let f1 : be32 (from_be32 hi) ≡ hi =
      be32-from_be32 hi (omega (arith, length-take 4 bs)) (AreBytes-take 4 bs k) in
    let f2 : be32 (from_be32 lo) ≡ lo =
      be32-from_be32 lo (omega (arith, length-drop 4 bs)) (AreBytes-drop 4 bs k) in
    rw (e1, e2, f1, f2) (take-append-drop 4 bs)
