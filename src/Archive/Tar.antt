-- ===== src/Archive/Tar.antt =====
-- What the code uses of Go's archive/tar: the entries that a tar.Reader finds.
use restore_safe.Base.{Bool, Bytes, List, [], if◌then◌else◌, ltb, ℕ, ◌%◌, ◌+◌, ◌-◌, ◌/◌, ◌∷◌}

-- A header and the content that is read behind it; `content_broken`: reading ends with an error.
pub record TarEntry : Type 0 where
  pub name : Bytes
  pub is_regular : Bool
  pub size : ℕ
  pub content : Bytes
  pub content_broken : Bool

-- `broken`: in place of io.EOF, Next gives an error.
pub record TarStream : Type 0 where
  pub entries : List TarEntry
  pub broken : Bool

-- hex.EncodeToString
abbrev hex_digit : ℕ → ℕ
hex_digit n = if ltb n 10 then b'0' + n else b'a' + (n - 10)

unfoldable pub hex_encode : Bytes → Bytes
hex_encode [] = []
hex_encode (b ∷ bs) = hex_digit (b / 16) ∷ hex_digit (b % 16) ∷ hex_encode bs
