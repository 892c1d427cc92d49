-- ===== src/Naming/Validate.antt =====
-- naming.go: ValidateBackupEntryName.
use restore_safe.Base.{
  Bool, Bytes, List, Option, [], codes, false, if◌then◌else◌, leb, length, none, some, text_eq, ℕ,
  ◌&&◌, ◌-◌, ◌==◌, ◌||◌, ◌∷◌,
}
use restore_safe.Text.{contains_any}

pub data NameError : Type 0 where
  empty_name relative_element separator_or_drive trailing_dot_or_space reserved_device : NameError

-- strings.ToUpper on ASCII letters; no other character has a reserved name's letter as its upper case.
abbrev pub to_upper : ℕ → ℕ
to_upper c = if leb b'a' c && leb c b'z' then c - 32 else c

unfoldable pub upper : Bytes → Bytes
upper [] = []
upper (c ∷ cs) = to_upper c ∷ upper cs

abbrev pub reserved_windows_names : List Bytes
reserved_windows_names =
    codes "CON"
    ∷ codes "PRN"
    ∷ codes "AUX"
    ∷ codes "NUL"
    ∷ codes "COM1"
    ∷ codes "COM2"
    ∷ codes "COM3"
    ∷ codes "COM4"
    ∷ codes "COM5"
    ∷ codes "COM6"
    ∷ codes "COM7"
    ∷ codes "COM8"
    ∷ codes "COM9"
    ∷ codes "LPT1"
    ∷ codes "LPT2"
    ∷ codes "LPT3"
    ∷ codes "LPT4"
    ∷ codes "LPT5"
    ∷ codes "LPT6"
    ∷ codes "LPT7"
    ∷ codes "LPT8"
    ∷ codes "LPT9"
    ∷ []

unfoldable pub is_one_of : Bytes → List Bytes → Bool
is_one_of x [] = false
is_one_of x (y ∷ ys) = text_eq x y || is_one_of x ys

-- The text in front of the first dot.
unfoldable pub before_dot : Bytes → Bytes
before_dot [] = []
before_dot (c ∷ cs) = let rest = before_dot cs in if c == b'.' then [] else c ∷ rest

-- The last character, or 0.
unfoldable pub last_char : Bytes → ℕ
last_char [] = 0
last_char (c ∷ []) = c
last_char (c ∷ d ∷ cs) = last_char (d ∷ cs)

-- ValidateBackupEntryName
unfoldable pub validate_backup_entry_name : Bytes → Option NameError
unfolding contains_any last_char is_one_of upper before_dot
validate_backup_entry_name name =
    if length name == 0
    then some empty_name
    else if text_eq name (codes ".") || text_eq name (codes "..")
    then some relative_element
    else if contains_any name (codes "/\\:")
    then some separator_or_drive
    else if last_char name == b'.' || last_char name == b' '
    then some trailing_dot_or_space
    else if is_one_of (upper (before_dot name)) reserved_windows_names
    then some reserved_device
    else none
