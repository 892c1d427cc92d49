-- ===== src/Plan/Retention/Safe.antt =====
-- retention.go: retentionCandidates.
use restore_safe.Base.{
  Bool-cases, Bytes, List, Mem, Mem-append, Mem-append_left, Mem-append_right, Mem-drop, Mem-filter,
  Mem-filter_in, Mem-sort_by, Option, [], arith, drop, false, filter, if◌then◌else◌, inl, inr, leb,
  length, ltb, not, refl, sort_by, subst, sym, text_eq_iff, true, ℕ, ◌&&◌, ◌++◌, ◌∙◌, ◌∷◌, ◌≡◌,
}
use restore_safe.Catalog.{SetInfo, complete}
use restore_safe.Naming.{is_diff}
use restore_safe.Cryptox.Platform.{Platform}
use restore_safe.Plan.Retention.Defs.{
  Chain, all_sets, all_surplus, chains_of, dropped_chains, in_directory, is_outdated, kept_chains,
  newer_chain, newer_differential, newest_created, ordered_chains, retention_candidates,
  surplus_differentials,
}
use restore_safe.Plan.Retention.Joined.{AreOwn, AreOwn-Mem, HaveSet-Mem}
use restore_safe.Plan.Retention.Chains.{chains_of-AreOwn, chains_of-HaveSet}

Mem-all_sets :
    (s : SetInfo) (chs : List Chain)
    → Mem s (all_sets chs)
    → (ch : Chain) × Mem ch chs × Mem s ch.sets
unfolding all_sets Mem
Mem-all_sets s [] m = absurd m
Mem-all_sets s (ch ∷ chs) m = elim (Mem-append s ch.sets (all_sets chs) m) [
  | inl a ↦ (ch, inl refl, a)
  | inr b ↦ (let (c, h, k) = Mem-all_sets s chs b in (c, inr h, k))
]

Mem-all_sets_in :
    (s : SetInfo) (ch : Chain) (chs : List Chain)
    → Mem ch chs
    → Mem s ch.sets
    → Mem s (all_sets chs)
unfolding all_sets Mem
Mem-all_sets_in s ch [] h k = absurd h
Mem-all_sets_in s ch (c ∷ chs) (inl q) k =
    Mem-append_left s c.sets (all_sets chs) (subst (λ x. Mem s x.sets) q k)
Mem-all_sets_in s ch (c ∷ chs) (inr h) k =
    Mem-append_right s c.sets (all_sets chs) (Mem-all_sets_in s ch chs h k)

module _ (platform : Platform) (mod_time : Bytes → Option ℕ) where
  Mem-dropped_chains :
      (keep : ℕ) (ch : Chain) (chs : List Chain)
      → Mem ch (dropped_chains platform mod_time keep chs)
      → Mem ch chs
  unfolding dropped_chains Mem
  Mem-dropped_chains keep ch chs m = elim (Bool-cases (ltb 0 keep && ltb keep (length chs))) [
    | inl e ↦ Mem-drop keep ch chs (subst (λ b. Mem ch (if b then drop keep chs else [])) e m)
    | inr e ↦ absurd (subst (λ b. Mem ch (if b then drop keep chs else [])) e m)
  ]

  -- A set in a dropped chain takes all complete sets of the directory with its chain's ID along.
  dropped-together :
      (keep : ℕ) (sets : List SetInfo) (f d : SetInfo)
      → Mem f
          (all_sets (dropped_chains platform mod_time keep (ordered_chains platform mod_time sets)))
      → Mem d sets
      → f.entry.chain_id ≡ d.entry.chain_id
      → Mem d
          (all_sets (dropped_chains platform mod_time keep (ordered_chains platform mod_time sets)))
  unfolding ordered_chains AreOwn
  dropped-together keep sets f d m md e =
      let ordered = ordered_chains platform mod_time sets in
      let chs = chains_of platform mod_time [] sets in
      let (ch, h, k) = Mem-all_sets f (dropped_chains platform mod_time keep ordered) m in
      let (c, full) =
        Mem-filter (λ x. x.has_full) ch chs
          (Mem-sort_by newer_chain ch (filter (λ x. x.has_full) chs)
            (Mem-dropped_chains keep ch ordered h)) in
      let own = AreOwn-Mem chs ch f (chains_of-AreOwn platform mod_time [] sets tt) c k in
      let has =
        HaveSet-Mem chs ch d (chains_of-HaveSet platform mod_time d [] sets md) c (sym own ∙ e) in
      Mem-all_sets_in d ch (dropped_chains platform mod_time keep ordered) h has

  Mem-surplus_differentials :
      (keep : ℕ) (ch : Chain) (s : SetInfo)
      → Mem s (surplus_differentials platform mod_time keep ch)
      → is_diff s.entry ≡ true
  unfolding surplus_differentials Mem
  Mem-surplus_differentials keep ch s m =
      let diffs = filter (λ x. is_diff x.entry) ch.sets in
      let sorted = sort_by (newer_differential platform mod_time) diffs in
      elim (Bool-cases (leb (length diffs) keep)) [
        | inl e ↦ absurd (subst (λ b. Mem s (if b then [] else drop keep sorted)) e m)
        | inr e ↦
            (Mem-filter (λ x. is_diff x.entry) s ch.sets
              (Mem-sort_by (newer_differential platform mod_time) s diffs (
                Mem-drop keep s sorted
                  (subst (λ b. Mem s (if b then [] else drop keep sorted)) e m)))).1
      ]

  Mem-all_surplus :
      (keep : ℕ) (chs : List Chain) (s : SetInfo)
      → Mem s (all_surplus platform mod_time keep chs)
      → is_diff s.entry ≡ true
  unfolding all_surplus Mem
  Mem-all_surplus keep [] s m = absurd m
  Mem-all_surplus keep (ch ∷ chs) s m =
      elim (Mem-append s (surplus_differentials platform mod_time keep ch)
        (all_surplus platform mod_time keep chs) m) [
          | inl a ↦ Mem-surplus_differentials keep ch s a
          | inr b ↦ Mem-all_surplus keep chs s b
        ]

  Mem-surplus_part :
      (keep_diffs : ℕ) (chs : List Chain) (s : SetInfo)
      → Mem s (if ltb 0 keep_diffs then all_surplus platform mod_time keep_diffs chs else [])
      → is_diff s.entry ≡ true
  unfolding Mem
  Mem-surplus_part keep_diffs chs s m = elim (Bool-cases (ltb 0 keep_diffs)) [
    | inl e ↦
        Mem-all_surplus keep_diffs chs s
          (subst (λ b. Mem s (if b then all_surplus platform mod_time keep_diffs chs else [])) e m)
    | inr e ↦
        absurd
          (subst (λ b. Mem s (if b then all_surplus platform mod_time keep_diffs chs else [])) e m)
  ]

  -- Where retention removes a complete full backup of a directory, it removes every complete backup of
  -- the directory that has its chain ID: none that depends on it is kept.
  pub retention_candidates-together :
      (directory : Bytes) (infos : List SetInfo) (keep keep_diffs : ℕ) (f d : SetInfo)
      → Mem f (retention_candidates platform mod_time directory infos keep keep_diffs)
      → complete f ≡ true
      → is_diff f.entry ≡ false
      → Mem d infos
      → d.entry.directory_name ≡ directory
      → complete d ≡ true
      → d.entry.chain_id ≡ f.entry.chain_id
      → Mem d (retention_candidates platform mod_time directory infos keep keep_diffs)
  unfolding retention_candidates
  retention_candidates-together directory infos keep keep_diffs f d m cf full md dir cd e =
      let own = filter (in_directory platform mod_time directory) infos in
      let sets = filter complete own in
      let ordered = ordered_chains platform mod_time sets in
      let gone = all_sets (dropped_chains platform mod_time keep ordered) in
      let surplus : List SetInfo =
        if ltb 0 keep_diffs
        then all_surplus platform mod_time keep_diffs (kept_chains platform mod_time keep ordered)
        else [] in
      let broken = filter (λ info. not (complete info)) own in
      let newest = newest_created platform mod_time sets in
      let outdated = filter (is_outdated platform mod_time newest) broken in
      let md' =
        Mem-filter_in complete d own
          (Mem-filter_in (in_directory platform mod_time directory) d infos md
            ((text_eq_iff _ _).1 dir))
          cd in
      elim (Mem-append f gone (surplus ++ outdated) m) [
        | inl a ↦
            Mem-append_left d gone (surplus ++ outdated)
              (dropped-together keep sets f d a md' (sym e))
        | inr b ↦ elim (Mem-append f surplus outdated b) [
          | inl s ↦ absurd (
              cc (
                full,
                Mem-surplus_part keep_diffs (kept_chains platform mod_time keep ordered) f s,
              ))
          | inr o ↦
              (let (x, y) = Mem-filter (is_outdated platform mod_time newest) f broken o in
                let (x', y') = Mem-filter (λ info. not (complete info)) f own x in
                absurd (ground arith))
        ]
      ]
