-- ===== src/Catalog/Defs.antt =====
-- inventory.go: SetInfo, the check for gaps, the classes of errors, the order of the inventory and
-- what is looked up in it. selection.go of the job package: SelectSets.
use restore_safe.Base.{
  Bool, Bytes, List, Option, [], false, if◌then◌else◌, inl, inr, length, ltb, map, none, not, some,
  sort_by, suc, text_eq, true, zero, ℕ, ◌&&◌, ◌++◌, ◌+◌, ◌-◌, ◌==◌, ◌||◌, ◌∷◌, ◌⊎◌,
}
use restore_safe.Container.KeySet.Validate.{bool_eq}
use restore_safe.Text.{text_less}
use restore_safe.Cryptox.Platform.{Platform}
use restore_safe.Naming.{BackupEntry, entry_eq, entry_string, is_diff, parse_part_file_name}
use restore_safe.Container.Header.{Header, header_is_diff}
use restore_safe.Container.KeySet.{KeySet, has_slot_type, slot_recovery}

-- The errors that FaultOf tells apart, with the missing parts.
pub data SetError : Type 0 where
  incomplete renamed path_error other_error no_parts : SetError
  missing_parts : List ℕ → SetError

pub record SetInfo : Type 0 where
  pub entry : BackupEntry
  pub parts : List Bytes
  pub size_bytes : ℕ
  pub header : Option Header
  -- Trailer.DataLength, which is not negative; 0 without a trailer.
  pub data_length : ℕ
  pub failure : Option SetError

pub data Fault : Type 0 where
  fault_none fault_incomplete fault_missing_parts fault_renamed fault_unreadable fault_damaged :
      Fault

-- IsIncomplete
unfoldable pub is_incomplete : SetError → Bool
is_incomplete incomplete = true
is_incomplete renamed = false
is_incomplete path_error = false
is_incomplete other_error = false
is_incomplete no_parts = false
is_incomplete (missing_parts _) = false

-- FaultOf
unfoldable pub fault_of : Option SetError → Fault
fault_of none = fault_none
fault_of (some incomplete) = fault_incomplete
fault_of (some (missing_parts _)) = fault_missing_parts
fault_of (some renamed) = fault_renamed
fault_of (some path_error) = fault_unreadable
fault_of (some other_error) = fault_damaged
fault_of (some no_parts) = fault_damaged

-- SetInfo.Complete
unfoldable pub complete : SetInfo → Bool
complete info = elim info.failure [
  | some _ ↦ false
  | none ↦ elim info.header [ some _ ↦ true | none ↦ false ]
]

-- The part numbers from `next` on, `n` of them.
unfoldable pub numbers_from : ℕ → ℕ → List ℕ
numbers_from next zero = []
numbers_from next (suc n) = next ∷ numbers_from (next + 1) n

-- The loop of checkContinuity, over the parts' numbers.
unfoldable pub missing_from : ℕ → List ℕ → List ℕ
unfolding numbers_from
missing_from next [] = []
missing_from next (seq ∷ seqs) = numbers_from next (seq - next) ++ missing_from (seq + 1) seqs

-- The number in a part's name, 0 for another name.
unfoldable pub part_number : Bytes → ℕ
part_number name = elim (parse_part_file_name name) [ none ↦ 0 | some (_, seq) ↦ seq ]

-- checkContinuity, for the names of the part files.
unfoldable pub check_continuity : List Bytes → Option SetError
unfolding missing_from part_number
check_continuity [] = some no_parts
check_continuity (p ∷ ps) = elim (missing_from 1 (map part_number (p ∷ ps))) [
  | [] ↦ none
  | m ∷ ms ↦ some (missing_parts (m ∷ ms))
]

-- checkNameMatchesHeader
unfoldable pub name_matches_header : BackupEntry → Header → Option SetError
name_matches_header e h =
    if text_eq h.directory_name e.directory_name
      && text_eq h.chain_id e.chain_id
      && text_eq h.date e.date
      && h.diff_number == e.diff_number
      && bool_eq (header_is_diff h) (is_diff e)
    then none
    else some renamed

-- CurrentKeySet
unfoldable pub current_key_set : List SetInfo → Option KeySet
unfolding complete
current_key_set [] = none
current_key_set (info ∷ infos) =
    let rest = current_key_set infos in
    if complete info then elim info.header [ none ↦ none | some h ↦ some h.key_set ] else rest

pub data BaseError : Type 0 where
  base_incomplete base_missing : BaseError

-- BaseOf
unfoldable pub base_of : List SetInfo → BackupEntry → SetInfo ⊎ BaseError
unfolding complete
base_of [] diff = inr base_missing
base_of (info ∷ infos) diff =
    let rest = base_of infos diff in
    if is_diff info.entry
      || not (text_eq info.entry.directory_name diff.directory_name)
      || not (text_eq info.entry.chain_id diff.chain_id)
    then rest
    else if complete info
    then inl info
    else inr base_incomplete

-- What KeySetMismatch reports. A mode that uses a YubiKey is one that the configuration says so of.
pub data Mismatch : Type 0 where
  mode_changed recovery_enabled recovery_disabled : Mismatch

unfoldable pub key_set_mismatch : ℕ → Bool → Bool → KeySet → Option Mismatch
key_set_mismatch mode use_yubikey recovery_code ks =
    let has_recovery = has_slot_type ks slot_recovery in
    if not (ks.auth_mode == mode)
    then some mode_changed
    else if use_yubikey
    then none
    else if recovery_code && not has_recovery
    then some recovery_enabled
    else if not recovery_code && has_recovery
    then some recovery_disabled
    else none

-- The map that SelectSets builds: the last entry counts.
unfoldable pub find_entry : List SetInfo → BackupEntry → Option SetInfo
find_entry [] e = none
find_entry (info ∷ infos) e = elim (find_entry infos e) [
  | some found ↦ some found
  | none ↦ if entry_eq info.entry e then some info else none
]

pub data SelectError : Type 0 where
  no_backup_chosen : SelectError
  gone unusable : BackupEntry → SelectError

unfoldable pub select_each : List SetInfo → List BackupEntry → List SetInfo ⊎ SelectError
unfolding complete find_entry
select_each infos [] = inl []
select_each infos (e ∷ es) = elim (find_entry infos e) [
  | none ↦ inr (gone e)
  | some info ↦ elim (complete info) [
    | false ↦ inr (unusable e)
    | true ↦ elim (select_each infos es) [ inl out ↦ inl (info ∷ out) | inr x ↦ inr x ]
  ]
]

-- SelectSets
unfoldable pub select_sets : List SetInfo → List BackupEntry → List SetInfo ⊎ SelectError
unfolding select_each
select_sets infos requested =
    if length requested == 0 then inr no_backup_chosen else select_each infos requested

module _ (platform : Platform) where
  -- SetInfo.Created: 0 is the zero time, which comes also of a text that is no time.
  unfoldable pub created : SetInfo → ℕ
  created info = elim info.header [
    | none ↦ 0
    | some h ↦ elim (platform.parse_time h.created_utc) [ none ↦ 0 | some t ↦ t ]
  ]

  -- The less function of sortNewestFirst.
  unfoldable pub newer : SetInfo → SetInfo → Bool
  unfolding created
  newer a b =
      if not (created a == created b)
      then ltb (created b) (created a)
      else if not (text_eq a.entry.date b.entry.date)
      then text_less b.entry.date a.entry.date
      else text_less (entry_string a.entry) (entry_string b.entry)

  -- sortNewestFirst
  abbrev pub sort_newest_first : List SetInfo → List SetInfo
  sort_newest_first infos = sort_by newer infos
