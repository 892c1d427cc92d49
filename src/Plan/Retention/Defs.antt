-- ===== src/Plan/Retention/Defs.antt =====
-- retention.go: Retention with retentionCandidates and surplusDifferentials. Counts are not negative: 0
-- stands for every count that `<= 0` takes.
use Prim.Native.Nat.{max}
use restore_safe.Base.{
  Bool, Bytes, List, Option, [], drop, false, filter, if◌then◌else◌, leb, length, ltb, none, not,
  some, sort_by, take, text_eq, true, ℕ, ◌&&◌, ◌++◌, ◌==◌, ◌||◌, ◌∷◌,
}
use restore_safe.Text.{text_less}
use restore_safe.Cryptox.Platform.{Platform}
use restore_safe.Naming.{is_diff}
use restore_safe.Catalog.{SetInfo, complete, created, is_incomplete}

-- The part of a plan's Source that retention reads.
pub record Source : Type 0 where
  pub backup_name : Bytes
  pub failed : Bool

-- The map of chains is kept in the order in which their keys were added.
pub record Chain : Type 0 where
  pub id : Bytes
  pub full_created : ℕ
  pub has_full : Bool
  pub sets : List SetInfo

-- What one set does to the chain that has its ID.
unfoldable pub join_chain : ℕ → SetInfo → Chain → Chain
join_chain time info ch =
    let joined = record ch { sets = ch.sets ++ info ∷ [] } in
    if is_diff info.entry then joined else record joined { has_full = true; full_created = time }

unfoldable pub has_chain : Bytes → List Chain → Bool
has_chain id [] = false
has_chain id (ch ∷ chs) = text_eq ch.id id || has_chain id chs

unfoldable pub join_matching : ℕ → SetInfo → List Chain → List Chain
unfolding join_chain
join_matching time info [] = []
join_matching time info (ch ∷ chs) =
    let rest = join_matching time info chs in
    if text_eq ch.id info.entry.chain_id then join_chain time info ch ∷ rest else ch ∷ rest

abbrev pub new_chain : SetInfo → Chain
new_chain info = record { id = info.entry.chain_id; full_created = 0; has_full = false; sets = [] }

-- A round of retentionCandidates over a complete set: the chain of its ID, added where there is none.
unfoldable pub add_to_chains : ℕ → SetInfo → List Chain → List Chain
unfolding has_chain join_matching
add_to_chains time info chs =
    if has_chain info.entry.chain_id chs
    then join_matching time info chs
    else chs ++ join_chain time info (new_chain info) ∷ []

-- The less function of the chains: the newest full backup first.
unfoldable pub newer_chain : Chain → Chain → Bool
newer_chain a b =
    if not (a.full_created == b.full_created)
    then ltb b.full_created a.full_created
    else text_less b.id a.id

-- newestPartModTime, where `mod_time` is what os.Stat finds.
unfoldable pub newest_part : (Bytes → Option ℕ) → List Bytes → ℕ
newest_part mod_time [] = 0
newest_part mod_time (p ∷ ps) = elim (mod_time p) [
  | none ↦ newest_part mod_time ps
  | some t ↦ max t (newest_part mod_time ps)
]

unfoldable pub all_sets : List Chain → List SetInfo
all_sets [] = []
all_sets (ch ∷ chs) = ch.sets ++ all_sets chs

-- The sets to remove of each directory, or the UnreadableSetError.
pub data Removals : Type 0 where
  unreadable_set : SetInfo → Removals
  removals : List (Bytes × List SetInfo) → Removals

module _ (platform : Platform) (mod_time : Bytes → Option ℕ) where
  -- The chains of the complete sets of a directory.
  unfoldable pub chains_of : List Chain → List SetInfo → List Chain
  unfolding add_to_chains
  chains_of chs [] = chs
  chains_of chs (info ∷ infos) = chains_of (add_to_chains (created platform info) info chs) infos

  -- newestComplete
  unfoldable pub newest_created : List SetInfo → ℕ
  newest_created [] = 0
  newest_created (info ∷ infos) = max (created platform info) (newest_created infos)

  -- The less function of the differentials: the highest number first, then the newest.
  unfoldable pub newer_differential : SetInfo → SetInfo → Bool
  newer_differential a b =
      if not (a.entry.diff_number == b.entry.diff_number)
      then ltb b.entry.diff_number a.entry.diff_number
      else ltb (created platform b) (created platform a)

  -- surplusDifferentials: nothing is left to drop where there are `keep` or fewer.
  unfoldable pub surplus_differentials : ℕ → Chain → List SetInfo
  surplus_differentials keep ch =
      let diffs = filter (λ s. is_diff s.entry) ch.sets in
      if leb (length diffs) keep then [] else drop keep (sort_by newer_differential diffs)

  unfoldable pub all_surplus : ℕ → List Chain → List SetInfo
  unfolding surplus_differentials
  all_surplus keep [] = []
  all_surplus keep (ch ∷ chs) = surplus_differentials keep ch ++ all_surplus keep chs

  -- Whether an incomplete set is older than the newest complete one.
  unfoldable pub is_outdated : ℕ → SetInfo → Bool
  unfolding newest_part
  is_outdated newest info = not (newest == 0) && ltb (newest_part mod_time info.parts) newest

  abbrev pub in_directory : Bytes → SetInfo → Bool
  in_directory directory info = text_eq info.entry.directory_name directory

  -- The chains that take part, the newest first.
  unfoldable pub ordered_chains : List SetInfo → List Chain
  unfolding chains_of
  ordered_chains sets = sort_by newer_chain (filter (λ ch. ch.has_full) (chains_of [] sets))

  -- What the code calls `ordered[retentionKeep:]` and `kept`.
  unfoldable pub dropped_chains : ℕ → List Chain → List Chain
  dropped_chains keep ordered =
      if ltb 0 keep && ltb keep (length ordered) then drop keep ordered else []

  unfoldable pub kept_chains : ℕ → List Chain → List Chain
  kept_chains keep ordered =
      if ltb 0 keep && ltb keep (length ordered) then take keep ordered else ordered

  -- retentionCandidates
  unfoldable pub retention_candidates : Bytes → List SetInfo → ℕ → ℕ → List SetInfo
  unfolding ordered_chains dropped_chains kept_chains
  retention_candidates directory infos keep keep_diffs =
      let own = filter (in_directory directory) infos in
      let sets = filter complete own in
      let ordered = ordered_chains sets in
      all_sets (dropped_chains keep ordered)
      ++ ((if ltb 0 keep_diffs then all_surplus keep_diffs (kept_chains keep ordered) else [])
          ++ filter (is_outdated (newest_created sets)) (filter (λ info. not (complete info)) own))

  unfoldable pub has_name : Bytes → List Bytes → Bool
  has_name x [] = false
  has_name x (y ∷ ys) = text_eq x y || has_name x ys

  -- The directories that take part, each once.
  unfoldable pub directories : List Source → List Bytes
  unfolding has_name
  directories [] = []
  directories (s ∷ ss) =
      let rest = directories ss in
      if s.failed || has_name s.backup_name rest then rest else s.backup_name ∷ rest

  -- The set that stops retention.
  unfoldable pub find_unreadable : List Bytes → List SetInfo → Option SetInfo
  find_unreadable names [] = none
  find_unreadable names (info ∷ infos) =
      let rest = find_unreadable names infos in
      let unreadable : Bool = elim info.failure [ none ↦ false | some e ↦ not (is_incomplete e) ] in
      if has_name info.entry.directory_name names && unreadable then some info else rest

  unfoldable pub removals_of : List Bytes → List SetInfo → ℕ → ℕ → List (Bytes × List SetInfo)
  removals_of [] infos keep keep_diffs = []
  removals_of (d ∷ ds) infos keep keep_diffs =
      let rest = removals_of ds infos keep keep_diffs in
      let sets = retention_candidates d infos keep keep_diffs in
      if length sets == 0 then rest else (d, sets) ∷ rest

  -- Retention
  unfoldable pub retention : List Source → List SetInfo → ℕ → ℕ → Removals
  unfolding directories find_unreadable removals_of
  retention sources infos keep keep_diffs =
      if keep == 0 && keep_diffs == 0
      then removals []
      else elim (find_unreadable (directories sources) infos) [
        | some info ↦ unreadable_set info
        | none ↦ removals (removals_of (directories sources) infos keep keep_diffs)
      ]
