-- ===== src/Recovery/Generate.antt =====
-- recovery.go: the codes that Generate makes.
use restore_safe.Recovery.Defs.{
  alphabet, char_at, checksum, checksum_symbols, data_chars, display, generate, ok, parse, spread,
  symbol, take_symbols,
}
use restore_safe.Text.{all_bytes, contains}
use restore_safe.Recovery.RoundTrip.{IsValidCode, all_bytes-append, parse-display}
use restore_safe.Base.{
  Bool, Bool-cases, Bytes, [], arith, codes, from_be32, inl, inr, leb, length, ltb, refl, suc, true,
  zero, ℕ, ◌%◌, ◌&&◌, ◌*◌, ◌++◌, ◌+◌, ◌-◌, ◌/◌, ◌<◌, ◌==◌, ◌^◌, ◌||◌, ◌∙◌, ◌∷◌, ◌≡◌, ◌≤◌,
}

Bool-or-true : (a : Bool) → (a || true) ≡ true
Bool-or-true a = ground arith

contains-char_at : (xs : Bytes) (i : ℕ) → i < length xs → contains xs (char_at xs i) ≡ true
unfolding contains char_at
contains-char_at [] i h = absurd (omega arith)
contains-char_at (x ∷ xs) zero h = ground arith
contains-char_at (x ∷ xs) (suc i) h =
    let q = contains-char_at xs i (omega arith) in rw (q, Bool-or-true (x == char_at xs i)) refl

all_bytes-nil : all_bytes (contains alphabet) [] ≡ true
unfolding all_bytes
all_bytes-nil = refl

symbol-alphabet : (bits : ℕ) → contains alphabet (symbol bits) ≡ true
symbol-alphabet bits = contains-char_at alphabet (bits % 32) (omega arith)

checksum_symbols-alphabet :
    (bs : Bytes) → all_bytes (contains alphabet) (checksum_symbols bs) ≡ true
unfolding all_bytes checksum_symbols
checksum_symbols-alphabet (a ∷ b ∷ c ∷ d ∷ bs) =
    let acc = from_be32 (a ∷ b ∷ c ∷ d ∷ []) in
    rw
      (
        symbol-alphabet (acc / 2 ^ 27),
        symbol-alphabet (acc / 2 ^ 22),
        symbol-alphabet (acc / 2 ^ 17),
        symbol-alphabet (acc / 2 ^ 12),
        symbol-alphabet (acc / 2 ^ 7),
      )
      refl
checksum_symbols-alphabet (a ∷ b ∷ c ∷ []) = refl
checksum_symbols-alphabet (a ∷ b ∷ []) = refl
checksum_symbols-alphabet (a ∷ []) = refl
checksum_symbols-alphabet [] = refl

length-checksum_symbols : (bs : Bytes) → 4 ≤ length bs → length (checksum_symbols bs) ≡ 5
unfolding checksum_symbols
length-checksum_symbols (a ∷ b ∷ c ∷ d ∷ bs) h = refl
length-checksum_symbols (a ∷ b ∷ c ∷ []) h = absurd (omega arith)
length-checksum_symbols (a ∷ b ∷ []) h = absurd (omega arith)
length-checksum_symbols (a ∷ []) h = absurd (omega arith)
length-checksum_symbols [] h = absurd (omega arith)

module _ (sha256 : Bytes → Bytes) where
  take_symbols-alphabet :
      (fuel acc bits : ℕ) (out : Bytes)
      → all_bytes (contains alphabet) out ≡ true
      → all_bytes (contains alphabet) (take_symbols sha256 fuel acc bits out).1 ≡ true
  unfolding take_symbols all_bytes
  take_symbols-alphabet zero acc bits out h = h
  take_symbols-alphabet (suc fuel) acc bits out h =
      let s = symbol (acc / 2 ^ (bits - 5)) in
      let more : all_bytes (contains alphabet) (out ++ s ∷ []) ≡ true =
        all_bytes-append (contains alphabet) out (s ∷ [])
        ∙ rw (h, all_bytes, symbol-alphabet (acc / 2 ^ (bits - 5))) refl in
      elim (Bool-cases (leb 5 bits && ltb (length out) data_chars)) [
        | inl e ↦ rw e (take_symbols-alphabet fuel acc (bits - 5) (out ++ s ∷ []) more)
        | inr e ↦ rw e h
      ]

  spread-alphabet :
      (acc bits : ℕ) (out raw : Bytes)
      → all_bytes (contains alphabet) out ≡ true
      → all_bytes (contains alphabet) (spread sha256 acc bits out raw) ≡ true
  unfolding spread
  spread-alphabet acc bits out [] h = h
  spread-alphabet acc bits out (b ∷ raw) h =
      let acc' = (acc * 256 + b) % 2 ^ 64 in
      let r = take_symbols sha256 (bits + 8) acc' (bits + 8) out in
      spread-alphabet acc' r.0 r.1 raw (take_symbols-alphabet (bits + 8) acc' (bits + 8) out h)

  length-spread :
      (b0 b1 b2 b3 b4 b5 b6 b7 b8 b9 b10 b11 b12 b13 b14 b15 : ℕ)
      → length (
          spread sha256 0 0 [] (
            b0 ∷ b1 ∷ b2 ∷ b3 ∷ b4 ∷ b5 ∷ b6 ∷ b7 ∷ b8 ∷ b9 ∷ b10 ∷ b11 ∷ b12 ∷ b13 ∷ b14 ∷ b15
            ∷ []))
        ≡ 25
  unfolding spread take_symbols
  length-spread b0 b1 b2 b3 b4 b5 b6 b7 b8 b9 b10 b11 b12 b13 b14 b15 = refl

  sixteen : (raw : Bytes) → length raw ≡ 16 → length (spread sha256 0 0 [] raw) ≡ 25
  sixteen (b0 ∷ b1 ∷ b2 ∷ b3 ∷ b4 ∷ b5 ∷ b6 ∷ b7 ∷ b8 ∷ b9 ∷ b10 ∷ b11 ∷ b12 ∷ b13 ∷ b14 ∷ b15 ∷ [])
        h =
      length-spread b0 b1 b2 b3 b4 b5 b6 b7 b8 b9 b10 b11 b12 b13 b14 b15
  sixteen _ h = absurd (omega arith)

  generate-IsValidCode :
      (raw : Bytes)
      → length raw ≡ 16
      → ((b : Bytes) → length (sha256 b) ≡ 32)
      → IsValidCode sha256 (generate sha256 raw)
  unfolding IsValidCode generate checksum
  generate-IsValidCode raw h s =
      let symbols = spread sha256 0 0 [] raw in
      let sum = sha256 (codes "RestoreSafe recovery code|" ++ symbols) in
      (
        sixteen raw h,
        length-checksum_symbols sum
            (omega (arith, s (codes "RestoreSafe recovery code|" ++ symbols))),
        spread-alphabet 0 0 [] raw all_bytes-nil,
        checksum_symbols-alphabet sum,
        refl,
      )

  -- From 16 random bytes Generate makes a valid code, and that code is read from the text that shows it.
  pub parse-display-generate :
      (raw : Bytes)
      → length raw ≡ 16
      → ((b : Bytes) → length (sha256 b) ≡ 32)
      → IsValidCode sha256 (generate sha256 raw)
        × (parse sha256 (display (generate sha256 raw)) ≡ ok (generate sha256 raw))
  parse-display-generate raw h s =
      let valid = generate-IsValidCode raw h s in
      (valid, parse-display sha256 (generate sha256 raw) valid)
