-- ===== src/Recovery/Defs.antt =====
-- recovery.go: Code with Display, Generate, Parse, ValidCheck and recoveryChecksum.
use restore_safe.Text.{all_bytes, contains}
use restore_safe.Base.{
  Bool, Bytes, [], codes, drop, from_be32, if◌then◌else◌, inl, inr, leb, length, ltb, not, suc,
  take, text_eq, zero, ℕ, ◌%◌, ◌&&◌, ◌*◌, ◌++◌, ◌+◌, ◌-◌, ◌/◌, ◌==◌, ◌^◌, ◌||◌, ◌∷◌, ◌⊎◌,
}

abbrev pub alphabet : Bytes
alphabet = codes "0123456789ABCDEFGHJKMNPQRSTVWXYZ"

abbrev pub data_chars : ℕ
data_chars = 25

abbrev pub check_chars : ℕ
check_chars = 5

abbrev pub group_size : ℕ
group_size = 5

pub record Code : Type 0 where
  pub data_part : Bytes
  pub check : Bytes

pub data ParseError : Type 0 where
  invalid_character : ℕ → ParseError
  wrong_length : ℕ → ParseError
  checksum_mismatch : ParseError

pub data Parsed : Type 0 where
  ok : Code → Parsed
  err : ParseError → Parsed

-- `recoveryAlphabet[i]`, for i below 32.
unfoldable pub char_at : Bytes → ℕ → ℕ
char_at [] i = 0
char_at (c ∷ cs) zero = c
char_at (c ∷ cs) (suc i) = char_at cs i

abbrev pub symbol : ℕ → ℕ
symbol bits = char_at alphabet (bits % 32)

-- Display: a dash in front of every group but the first.
unfoldable pub display_from : ℕ → Bytes → Bytes
display_from i [] = []
display_from i (c ∷ cs) =
    let rest = display_from (i + 1) cs in
    if ltb 0 i && i % group_size == 0 then b'-' ∷ c ∷ rest else c ∷ rest

unfoldable pub display : Code → Bytes
unfolding display_from
display code = display_from 0 (code.data_part ++ code.check)

-- The characters of a code as they are read: letters in upper case, I and L as 1, O as 0.
unfoldable pub normalize : ℕ → ℕ
normalize c =
    let r : ℕ = if leb b'a' c && leb c b'z' then c - 32 else c in
    if r == b'I' || r == b'L' then b'1' else if r == b'O' then b'0' else r

abbrev pub is_ignored : ℕ → Bool
is_ignored c = c == b' ' || c == b'-' || c == b'\t'

-- recoveryChecksum
unfoldable pub checksum_symbols : Bytes → Bytes
checksum_symbols (a ∷ b ∷ c ∷ d ∷ _) =
    let acc : ℕ = from_be32 (a ∷ b ∷ c ∷ d ∷ []) in
    symbol (acc / 2 ^ 27)
    ∷ symbol (acc / 2 ^ 22)
    ∷ symbol (acc / 2 ^ 17)
    ∷ symbol (acc / 2 ^ 12)
    ∷ symbol (acc / 2 ^ 7)
    ∷ []
checksum_symbols _ = []

-- ValidCheck
unfoldable pub valid_check : Bytes → Bool
unfolding all_bytes contains
valid_check s = length s == check_chars && all_bytes (contains alphabet) s

module _ (sha256 : Bytes → Bytes) where
  unfoldable pub checksum : Bytes → Bytes
  unfolding checksum_symbols
  checksum bs = checksum_symbols (sha256 (codes "RestoreSafe recovery code|" ++ bs))

  -- The loop of Parse: `all` holds at most 30 characters, `n` counts them all. A byte of a character
  -- beyond ASCII is refused as that character is.
  unfoldable pub read_symbols : Bytes → ℕ → Bytes → (Bytes × ℕ) ⊎ ParseError
  read_symbols all n [] = inl (all, n)
  read_symbols all n (c ∷ cs) =
      let r = normalize c in
      let skipped = read_symbols all n cs in
      let taken =
        read_symbols (if ltb (length all) (data_chars + check_chars) then all ++ r ∷ [] else all)
          (n + 1) cs in
      if is_ignored r
      then skipped
      else if not (contains alphabet r)
      then inr (invalid_character r)
      else taken

  unfoldable pub check_symbols : Bytes → ℕ → Parsed
  check_symbols all n =
      if not (n == data_chars + check_chars)
      then err (wrong_length n)
      else if not (text_eq (checksum (take data_chars all)) (drop data_chars all))
      then err checksum_mismatch
      else ok (record { data_part = take data_chars all; check = drop data_chars all })

  unfoldable pub parse : Bytes → Parsed
  unfolding read_symbols check_symbols
  parse input = elim (read_symbols [] 0 input) [
    | inl (all, n) ↦ check_symbols all n
    | inr e ↦ err e
  ]

  -- The inner loop of Generate: `bits` falls by 5 in each round, so it bounds the rounds.
  unfoldable pub take_symbols : ℕ → ℕ → ℕ → Bytes → ℕ × Bytes
  take_symbols zero acc bits out = (bits, out)
  take_symbols (suc fuel) acc bits out =
      let again = take_symbols fuel acc (bits - 5) (out ++ symbol (acc / 2 ^ (bits - 5)) ∷ []) in
      if leb 5 bits && ltb (length out) data_chars then again else (bits, out)

  -- Its outer loop, over the random bytes; `acc` is a uint64.
  unfoldable pub spread : ℕ → ℕ → Bytes → Bytes → Bytes
  spread acc bits out [] = out
  spread acc bits out (b ∷ raw) =
      let acc' = (acc * 256 + b) % 2 ^ 64 in
      let (bits', out') = take_symbols (bits + 8) acc' (bits + 8) out in spread acc' bits' out' raw

  -- Generate, from the 16 random bytes that it draws.
  unfoldable pub generate : Bytes → Code
  unfolding spread take_symbols checksum
  generate raw =
      let data_part = spread 0 0 [] raw in
      record { data_part = data_part; check = checksum data_part }
