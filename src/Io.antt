-- ===== src/Io.antt =====
-- What the code uses of Go's io package: a reader with the content that is to come, and io.ReadFull.
use restore_safe.Base.{
  Bool, Bytes, [], arith, drop, drop-append, false, if◌then◌else◌, inl, inr, leb, length,
  length-append, length-take, refl, suc, take, take-append, take-append-drop, ℕ, ◌++◌, ◌<◌, ◌==◌,
  ◌∷◌, ◌≡◌, ◌≤◌, ◌⊎◌,
}

-- `broken`: after the content comes a read error in place of io.EOF.
pub record Source : Type 0 where
  pub content : Bytes
  pub broken : Bool

pub data Read : Type 0 where
  got : Bytes → Source → Read
  eof : Read
  unexpected_eof : Read
  failed : Read

-- io.ReadFull of `n` bytes.
unfoldable pub read_full : ℕ → Source → Read
read_full n s =
    if leb n (length s.content)
    then got (take n s.content) (record s { content = drop n s.content })
    else if s.broken
    then failed
    else if length s.content == 0
    then eof
    else unexpected_eof

abbrev pub whole : Bytes → Source
whole bs = record { content = bs; broken = false }

-- What stands in front of the content is read by its length.
pub read_full-append :
    (xs ys : Bytes) → read_full (length xs) (whole (xs ++ ys)) ≡ got xs (whole ys)
unfolding read_full
read_full-append xs ys = ground (arith, length-append xs ys, take-append xs ys, drop-append xs ys)

pub read_full-enough :
    (n : ℕ) (src : Source)
    → n ≤ length src.content
    → read_full n src ≡ got (take n src.content) (record src { content = drop n src.content })
unfolding read_full
read_full-enough n src h = ground arith

-- Fewer bytes than asked for, and no read error: io.EOF or io.ErrUnexpectedEOF.
pub read_full-nil : (n : ℕ) → 0 < n → read_full n (whole []) ≡ eof
unfolding read_full
read_full-nil n h = ground arith

pub read_full_short :
    (n b : ℕ) (xs : Bytes) → suc (length xs) < n → read_full n (whole (b ∷ xs)) ≡ unexpected_eof
unfolding read_full
read_full_short n b xs h = ground arith

-- What io.ReadFull returns is the front of the content, of the length asked for.
pub read_full-got :
    (n : ℕ) (src rest : Source) (xs : Bytes)
    → read_full n src ≡ got xs rest
    → (src.content ≡ xs ++ rest.content) × (length xs ≡ n) × (rest.broken ≡ src.broken)
unfolding read_full
read_full-got n src rest xs h =
    ground (arith, take-append-drop n src.content, length-take n src.content)

pub Read-cases :
    (r : Read)
    → ((xs : Bytes) × (rest : Source) × (r ≡ got xs rest))
      ⊎ ((r ≡ eof) ⊎ (r ≡ unexpected_eof) ⊎ (r ≡ failed))
Read-cases (got xs rest) = inl (xs, rest, refl)
Read-cases eof = inr (inl refl)
Read-cases unexpected_eof = inr (inr (inl refl))
Read-cases failed = inr (inr (inr refl))

pub length-nil : (xs : Bytes) → length xs ≡ 0 → xs ≡ []
length-nil [] h = refl
length-nil (x ∷ xs) h = absurd (omega arith)

pub read_full-eof : (n : ℕ) (src : Source) → read_full n src ≡ eof → src.content ≡ []
unfolding read_full
read_full-eof n src h = length-nil src.content (ground arith)
