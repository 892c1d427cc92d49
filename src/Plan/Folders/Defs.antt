-- ===== src/Plan/Folders/Defs.antt =====
-- keys.go: KeysFor. folders.go: planFolder, Folder and AnyDifferential. config.go: the accessors of
-- the settings of differential backups.
use restore_safe.Naming.{is_diff, max_diff_number}
use restore_safe.Catalog.{Mismatch, SetInfo, complete, created, current_key_set, key_set_mismatch}
use restore_safe.Container.KeySet.{KeySet}
use restore_safe.Container.Header.{Header}
use restore_safe.Base.{
  Bool, Bytes, List, Option, [], false, if◌then◌else◌, leb, ltb, none, not, some, text_eq, true, ℕ,
  ◌%◌, ◌&&◌, ◌*◌, ◌+◌, ◌-◌, ◌/◌, ◌==◌, ◌^◌, ◌||◌, ◌∷◌,
}

-- Differential; an int that is not positive stands as 0.
pub record Differential : Type 0 where
  pub enabled : Option Bool
  pub full_backup_interval_days : ℕ
  pub max_size_percent : ℕ

-- IsEnabled
abbrev pub is_enabled : Differential → Bool
is_enabled d = elim d.enabled [ none ↦ true | some b ↦ b ]

-- IntervalDays
abbrev pub interval_days : Differential → ℕ
interval_days d = if d.full_backup_interval_days == 0 then 30 else d.full_backup_interval_days

-- SizePercent
abbrev pub size_percent : Differential → ℕ
size_percent d = if d.max_size_percent == 0 then 50 else d.max_size_percent

-- Keys
pub data Keys : Type 0 where
  existing : KeySet → Keys
  no_keys_found : Keys
  keys_mismatch : Mismatch → Keys
  keys_requested : Keys

-- KeysFor, for a configured authentication mode and recovery code.
unfoldable pub keys_for : ℕ → Bool → Bool → List SetInfo → Keys
keys_for mode use_yubikey recovery_code infos = elim (current_key_set infos) [
  | none ↦ no_keys_found
  | some ks ↦ elim (key_set_mismatch mode use_yubikey recovery_code ks) [
    | some why ↦ keys_mismatch why
    | none ↦ existing ks
  ]
]

pub data Reason : Type 0 where
  full_requested new_keys disabled no_full older_keys : Reason
  -- The age and the limit.
  too_old : ℕ → ℕ → Reason
  -- The chain's ID.
  chain_exhausted : Bytes → Reason
  -- The size and the limit in percent.
  too_large : ℕ → ℕ → Reason
  -- The age of the base.
  based_on : ℕ → Reason

-- Folder
pub record Folder : Type 0 where
  pub base : Option SetInfo
  pub diff_number : ℕ
  pub reason : Reason

abbrev pub full_because : Reason → Folder
full_because reason = record { base = none; diff_number = 0; reason = reason }

-- Folder.IsDiff
abbrev pub folder_is_diff : Folder → Bool
folder_is_diff f = elim f.base [ none ↦ false | some _ ↦ true ]

-- The first complete full backup of a directory, with its header.
unfoldable pub find_base : Bytes → List SetInfo → Option (SetInfo × Header)
find_base directory [] = none
find_base directory (info ∷ infos) =
    let rest = find_base directory infos in
    if text_eq info.entry.directory_name directory && not (is_diff info.entry) && complete info
    then elim info.header [ none ↦ rest | some h ↦ some (info, h) ]
    else rest

-- int(now.Sub(created).Hours() / 24), but for the rounding of float64; a negative age counts as 0.
abbrev pub age_in_days : ℕ → ℕ → ℕ
age_in_days now created = (now - created) / (24 * 3600 * 10 ^ 9)

-- Whether a set is a differential of the chain.
abbrev pub is_chained : Bytes → Bytes → SetInfo → Bool
is_chained directory chain info =
    text_eq info.entry.directory_name directory
    && text_eq info.entry.chain_id chain
    && is_diff info.entry

-- The loop over the differentials of the chain: the largest number so far, and the first complete
-- differential.
unfoldable pub scan_chain : Bytes → Bytes → ℕ → Option SetInfo → List SetInfo → ℕ × Option SetInfo
scan_chain directory chain largest newest [] = (largest, newest)
scan_chain directory chain largest newest (info ∷ infos) =
    let skip = scan_chain directory chain largest newest infos in
    let more = if ltb largest info.entry.diff_number then info.entry.diff_number else largest in
    let seen : Option SetInfo = elim newest [
      | some n ↦ some n
      | none ↦ if complete info then some info else none
    ] in
    let count = scan_chain directory chain more seen infos in
    if is_chained directory chain info then count else skip

-- int(a * 100 / b) of int64s that are not negative; where the product wraps round to a negative
-- number, the percentage is not positive, and stands as 0.
abbrev pub percent_of : ℕ → ℕ → ℕ
percent_of a b = let p = (a * 100) % 2 ^ 64 in if ltb p (2 ^ 63) then p / b else 0

-- planFolder from the check of the newest differential on.
unfoldable pub plan_on_base : Differential → SetInfo → ℕ → ℕ → Option SetInfo → Folder
plan_on_base settings base age largest newest =
    let next : Folder = record {
      base = some base;
      diff_number = largest + 1;
      reason = based_on age;
    } in
    elim newest [
      | none ↦ next
      | some n ↦
          let percent = percent_of n.data_length base.data_length in
          if ltb 0 base.data_length && leb (size_percent settings) percent
          then full_because (too_large percent (size_percent settings))
          else next
    ]

-- planFolder from the search of the base on. `created` is the header's creation time.
unfoldable pub plan_with_keys :
    Differential → (Header → ℕ) → List SetInfo → Bytes → KeySet → ℕ → Folder
unfolding find_base scan_chain plan_on_base
plan_with_keys settings created infos directory keys now = elim (find_base directory infos) [
  | none ↦ full_because no_full
  | some (base, h) ↦
      let age = age_in_days now (created h) in
      let (largest, newest) = scan_chain directory base.entry.chain_id 0 none infos in
      if not (text_eq h.key_set.id keys.id)
      then full_because older_keys
      else if leb (interval_days settings) age
      then full_because (too_old age (interval_days settings))
      else if leb max_diff_number largest
      then full_because (chain_exhausted base.entry.chain_id)
      else plan_on_base settings base age largest newest
]

-- planFolder
unfoldable pub plan_folder :
    Differential → (Header → ℕ) → List SetInfo → Bytes → Keys → Bool → ℕ → Folder
unfolding plan_with_keys
plan_folder settings created infos directory keys force_full now =
    if force_full then full_because full_requested else elim keys [
      | no_keys_found ↦ full_because new_keys
      | keys_mismatch _ ↦ full_because new_keys
      | keys_requested ↦ full_because new_keys
      | existing ks ↦
          if not (is_enabled settings)
          then full_because disabled
          else plan_with_keys settings created infos directory ks now
    ]

-- AnyDifferential, over the folders of the map.
unfoldable pub any_differential : List (Bytes × Folder) → Bool
any_differential [] = false
any_differential ((name, f) ∷ fs) = folder_is_diff f || any_differential fs
