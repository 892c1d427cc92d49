-- ===== src/Naming/Entry.antt =====
-- naming.go: BackupEntry and the names that are written.
use restore_safe.Base.{Bool, Bytes, codes, if◌then◌else◌, ltb, text_eq, ℕ, ◌&&◌, ◌++◌, ◌==◌, ◌∷◌}
use restore_safe.Text.{decimal3}

abbrev pub max_part_sequence : ℕ
max_part_sequence = 999

abbrev pub max_diff_number : ℕ
max_diff_number = 999

abbrev pub temp_suffix : Bytes
temp_suffix = codes ".tmp"

pub record BackupEntry : Type 0 where
  pub directory_name : Bytes
  pub chain_id : Bytes
  pub date : Bytes
  -- 0 for a full backup.
  pub diff_number : ℕ

-- BackupEntry.IsDiff
abbrev pub is_diff : BackupEntry → Bool
is_diff e = ltb 0 e.diff_number

-- `==` of entries, as a map's keys are compared.
unfoldable pub entry_eq : BackupEntry → BackupEntry → Bool
entry_eq a b =
    text_eq a.directory_name b.directory_name
    && text_eq a.chain_id b.chain_id
    && text_eq a.date b.date
    && a.diff_number == b.diff_number

-- TypeLabel
unfoldable pub type_label : BackupEntry → Bytes
type_label e = if is_diff e then codes "DIFF" ++ decimal3 e.diff_number else codes "FULL"

-- String
unfoldable pub entry_string : BackupEntry → Bytes
unfolding type_label
entry_string e =
    e.directory_name ++ (b'_' ∷ (e.chain_id ++ (b'_' ∷ (e.date ++ (b'_' ∷ type_label e)))))

-- ChainKey
abbrev pub chain_key : BackupEntry → Bytes
chain_key e = e.directory_name ++ (b'|' ∷ e.chain_id)

-- What follows the directory name in a part's name, up to the extension's end.
unfoldable pub part_tail : BackupEntry → ℕ → Bytes
part_tail e seq =
    codes "]_"
    ++ (e.chain_id
        ++ (b'_' ∷ (e.date ++ (b'_' ∷ (type_label e ++ (b'-' ∷ (decimal3 seq ++ codes ".enc")))))))

-- The base name of PartFileName.
unfoldable pub part_base_name : BackupEntry → ℕ → Bytes
unfolding part_tail
part_base_name e seq = b'[' ∷ (e.directory_name ++ part_tail e seq)

-- The base name of LogFileName.
unfoldable pub log_base_name : Bytes → Bytes → Bytes
log_base_name date run_id = date ++ (b'_' ∷ (run_id ++ codes ".log"))
