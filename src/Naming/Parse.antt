-- ===== src/Naming/Parse.antt =====
-- naming.go: the patterns, and the functions that read names. A pattern is read from left to right;
-- what is behind the lazy `(.+?)` is tried at every position, the leftmost first.
use restore_safe.Text.{contains_any}
use restore_safe.Naming.Entry.{BackupEntry}
use restore_safe.Base.{
  Bool, Bytes, Option, [], codes, false, if◌then◌else◌, leb, length, ltb, none, not, some, suc,
  true, zero, ℕ, ◌&&◌, ◌*◌, ◌++◌, ◌+◌, ◌-◌, ◌==◌, ◌||◌, ◌∷◌,
}

-- A value read from the front of a text, and the rest.
abbrev Read : Type 0 → Type 0
Read A = Option (A × Bytes)

infixl 5 ◌>>=◌ ◌>>◌
abbrev ◌>>=◌ : {A B : Type 0} → Option A → (A → Option B) → Option B
none >>= f = none
some a >>= f = f a

abbrev ◌>>◌ : {B : Type 0} → Option (Unit {0}) → Option B → Option B
m >> k = m >>= λ _. k

abbrev require : Bool → Option (Unit {0})
require true = some tt
require false = none

abbrev pub is_digit : ℕ → Bool
is_digit c = leb b'0' c && leb c b'9'

-- [A-Z0-9]
abbrev pub is_id_char : ℕ → Bool
is_id_char c = (leb b'A' c && leb c b'Z') || is_digit c

-- A fixed text.
unfoldable pub read_text : Bytes → Bytes → Option Bytes
read_text [] rest = some rest
read_text (x ∷ xs) [] = none
read_text (x ∷ xs) (c ∷ cs) = if x == c then read_text xs cs else none

-- `n` characters of a class.
unfoldable pub read_class : (ℕ → Bool) → ℕ → Bytes → Read Bytes
read_class p zero rest = some ([], rest)
read_class p (suc n) [] = none
read_class p (suc n) (c ∷ cs) =
    let more = read_class p n cs in
    if p c then elim more [ none ↦ none | some (xs, rest) ↦ some (c ∷ xs, rest) ] else none

-- \d{4}-\d{2}-\d{2}
unfoldable pub read_date : Bytes → Read Bytes
unfolding read_class read_text
read_date s = do
  (y, s1) ← read_class is_digit 4 s
  s2 ← read_text (b'-' ∷ []) s1
  (m, s3) ← read_class is_digit 2 s2
  s4 ← read_text (b'-' ∷ []) s3
  (d, s5) ← read_class is_digit 2 s4
  some (y ++ (b'-' ∷ (m ++ (b'-' ∷ d))), s5)

-- strconv.Atoi of three digits.
unfoldable pub number3 : Bytes → ℕ
number3 (a ∷ b ∷ c ∷ []) = (a - b'0') * 100 + (b - b'0') * 10 + (c - b'0')
number3 _ = 0

-- FULL|DIFF(\d{3}); a full backup has no digits.
unfoldable pub read_type : Bytes → Read (Option Bytes)
unfolding read_class read_text
read_type s = elim (read_text (codes "FULL") s) [
  | some rest ↦ some (none, rest)
  | none ↦ (do
    s1 ← read_text (codes "DIFF") s
    (digits, s2) ← read_class is_digit 3 s1
    some (some digits, s2))
]

-- (\.tmp)?$
unfoldable pub read_temp_end : Bytes → Option Bool
unfolding read_text
read_temp_end [] = some false
read_temp_end (c ∷ cs) = elim (read_text (codes ".tmp") (c ∷ cs)) [ some [] ↦ some true | _ ↦ none ]

-- The groups behind the directory name.
pub record Tail : Type 0 where
  pub chain_id : Bytes
  pub date : Bytes
  pub diff_digits : Option Bytes
  pub seq_digits : Bytes
  pub temp : Bool

-- \]_([A-Z0-9]{6})_(\d{4}-\d{2}-\d{2})_(FULL|DIFF(\d{3}))-(\d{3})\.enc(\.tmp)?$
unfoldable pub read_tail : Bytes → Option Tail
unfolding read_date read_type read_temp_end read_class read_text
read_tail s = do
  s1 ← read_text (codes "]_") s
  (id, s2) ← read_class is_id_char 6 s1
  s3 ← read_text (b'_' ∷ []) s2
  (date, s4) ← read_date s3
  s5 ← read_text (b'_' ∷ []) s4
  (kind, s6) ← read_type s5
  s7 ← read_text (b'-' ∷ []) s6
  (digits, s8) ← read_class is_digit 3 s7
  s9 ← read_text (codes ".enc") s8
  temp ← read_temp_end s9
  some (record { chain_id = id; date = date; diff_digits = kind; seq_digits = digits; temp = temp })

-- (.+?) and the tail: `name` was read, and holds a character at least.
unfoldable pub read_name : Bytes → Bytes → Option (Bytes × Tail)
unfolding read_tail
read_name name [] = none
read_name name (c ∷ cs) =
    let longer = read_name (name ++ c ∷ []) cs in
    elim (read_tail (c ∷ cs)) [
      | some t ↦ some (name, t)
      | none ↦ if c == b'\n' then none else longer
    ]

-- partFilePattern
unfoldable pub match_part_file : Bytes → Option (Bytes × Tail)
unfolding read_name
match_part_file [] = none
match_part_file (b ∷ []) = none
match_part_file (b ∷ c ∷ cs) = if b == b'[' && not (c == b'\n') then read_name (c ∷ []) cs else none

abbrev separators : Bytes
separators = b'/' ∷ b'\\' ∷ []

-- The entry of the groups; a differential's number is 1 at least.
unfoldable pub entry_of : Bytes → Tail → Option BackupEntry
unfolding number3
entry_of name t = elim t.diff_digits [
  | none ↦
      some (record { directory_name = name; chain_id = t.chain_id; date = t.date; diff_number = 0 })
  | some digits ↦
      if ltb (number3 digits) 1
      then none
      else some (record {
        directory_name = name;
        chain_id = t.chain_id;
        date = t.date;
        diff_number = number3 digits;
      })
]

-- parsePartFileName: the entry, the part's number, and whether the name is temporary.
unfoldable pub parse_name : Bytes → Option (BackupEntry × ℕ × Bool)
unfolding match_part_file entry_of number3 contains_any
parse_name basename = if contains_any basename separators then none else (do
  (name, t) ← match_part_file basename
  require (not (ltb (number3 t.seq_digits) 1))
  e ← entry_of name t
  some (e, number3 t.seq_digits, t.temp))

-- ParsePartFileName
unfoldable pub parse_part_file_name : Bytes → Option (BackupEntry × ℕ)
unfolding parse_name
parse_part_file_name basename = do
  (e, seq, temp) ← parse_name basename
  require (not temp)
  some (e, seq)

-- ParseTempPartFileName
unfoldable pub parse_temp_part_file_name : Bytes → Option (BackupEntry × ℕ)
unfolding parse_name
parse_temp_part_file_name basename = do
  (e, seq, temp) ← parse_name basename
  require temp
  some (e, seq)

-- logFilePattern and ParseLogFileName
unfoldable pub parse_log_file_name : Bytes → Option (Bytes × Bytes)
unfolding read_date read_class read_text
parse_log_file_name basename = do
  (date, s1) ← read_date basename
  s2 ← read_text (b'_' ∷ []) s1
  (run_id, s3) ← read_class is_id_char 6 s2
  s4 ← read_text (codes ".log") s3
  require (length s4 == 0)
  some (date, run_id)

-- legacyFilePattern behind the directory name:
-- \]_(\d{4}-\d{2}-\d{2})_([A-Z0-9]{6})(-\d{3}\.enc|\.challenge)$
unfoldable pub read_legacy_tail : Bytes → Option (Bytes × Bytes)
unfolding read_date read_class read_text
read_legacy_tail s = do
  s1 ← read_text (codes "]_") s
  (date, s2) ← read_date s1
  s3 ← read_text (b'_' ∷ []) s2
  (id, s4) ← read_class is_id_char 6 s3
  require (elim (read_text (b'-' ∷ []) s4) [
    | some s5 ↦ elim (read_class is_digit 3 s5) [
      | some (_, s6) ↦ elim (read_text (codes ".enc") s6) [ some [] ↦ true | _ ↦ false ]
      | none ↦ false
    ]
    | none ↦ elim (read_text (codes ".challenge") s4) [ some [] ↦ true | _ ↦ false ]
  ])
  some (date, id)

unfoldable pub read_legacy_name : Bytes → Option (Bytes × Bytes)
unfolding read_legacy_tail
read_legacy_name [] = none
read_legacy_name (c ∷ cs) =
    let longer = read_legacy_name cs in
    elim (read_legacy_tail (c ∷ cs)) [
      | some groups ↦ some groups
      | none ↦ if c == b'\n' then none else longer
    ]

unfoldable pub match_legacy_file : Bytes → Option (Bytes × Bytes)
unfolding read_legacy_name
match_legacy_file [] = none
match_legacy_file (b ∷ []) = none
match_legacy_file (b ∷ c ∷ cs) = if b == b'[' && not (c == b'\n') then read_legacy_name cs else none

-- IsLegacyBackupFileName
unfoldable pub is_legacy_backup_file_name : Bytes → Bool
unfolding match_legacy_file
is_legacy_backup_file_name basename = elim (match_legacy_file basename) [
  | none ↦ false
  | some _ ↦ true
]

-- LegacyLogFileName
unfoldable pub legacy_log_file_name : Bytes → Option Bytes
unfolding match_legacy_file
legacy_log_file_name basename = do
  (date, id) ← match_legacy_file basename
  some (date ++ (b'_' ∷ (id ++ codes ".log")))
