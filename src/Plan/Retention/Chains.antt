-- ===== src/Plan/Retention/Chains.antt =====
-- retention.go: the chains that retentionCandidates groups the sets into.
use restore_safe.Plan.Retention.Joined.{
  AreOwn, HaveSet, HaveSet-snoc, add_to_chains-AreOwn, add_to_chains-new, join_chain-id,
  join_matching-HaveSet,
}
use restore_safe.Catalog.{SetInfo, created}
use restore_safe.Base.{
  Bool-cases, Bytes, List, Mem, Option, [], ap, arith, inl, inr, refl, subst, sym, text_eq,
  text_eq_iff, true, ℕ, ◌++◌, ◌||◌, ◌∙◌, ◌∷◌, ◌≡◌,
}
use restore_safe.Cryptox.Platform.{Platform}
use restore_safe.Plan.Retention.Defs.{
  Chain, add_to_chains, chains_of, has_chain, join_chain, join_matching, new_chain,
}

has_chain-snoc :
    (id : Bytes) (chs : List Chain) (ch : Chain)
    → has_chain id (chs ++ ch ∷ []) ≡ (has_chain id chs || text_eq ch.id id)
unfolding has_chain
has_chain-snoc id [] ch = ground arith
has_chain-snoc id (c ∷ chs) ch = ground (arith, has_chain-snoc id chs ch)

has_chain-join_matching :
    (time : ℕ) (info : SetInfo) (id : Bytes) (chs : List Chain)
    → has_chain id (join_matching time info chs) ≡ has_chain id chs
unfolding has_chain join_matching
has_chain-join_matching time info id [] = refl
has_chain-join_matching time info id (ch ∷ chs) =
    elim (Bool-cases (text_eq ch.id info.entry.chain_id)) [
      | inl e ↦ rw (e, join_chain-id time info ch, has_chain-join_matching time info id chs) refl
      | inr e ↦ rw (e, has_chain-join_matching time info id chs) refl
    ]

add_to_chains-seen :
    (time : ℕ) (info : SetInfo) (id : Bytes) (chs : List Chain)
    → has_chain id chs ≡ true
    → has_chain id (add_to_chains time info chs) ≡ true
unfolding add_to_chains
add_to_chains-seen time info id chs h = elim (Bool-cases (has_chain info.entry.chain_id chs)) [
  | inl e ↦ rw (e, has_chain-join_matching time info id chs) h
  | inr e ↦ rw (e, has_chain-snoc id chs (join_chain time info (new_chain info)), h) refl
]

add_to_chains-sees :
    (time : ℕ) (info : SetInfo) (chs : List Chain)
    → has_chain info.entry.chain_id (add_to_chains time info chs) ≡ true
unfolding add_to_chains
add_to_chains-sees time info chs = elim (Bool-cases (has_chain info.entry.chain_id chs)) [
  | inl e ↦ rw (e, has_chain-join_matching time info info.entry.chain_id chs, e) refl
  | inr e ↦
      rw
        (
          e,
          has_chain-snoc info.entry.chain_id chs (join_chain time info (new_chain info)),
          e,
          join_chain-id time info (new_chain info),
        )
        ((text_eq_iff _ _).1 refl)
]

add_to_chains-HaveSet :
    (time : ℕ) (info d : SetInfo) (chs : List Chain)
    → HaveSet d chs
    → has_chain d.entry.chain_id chs ≡ true
    → HaveSet d (add_to_chains time info chs)
unfolding add_to_chains
add_to_chains-HaveSet time info d chs h s = elim (Bool-cases (has_chain info.entry.chain_id chs)) [
  | inl e ↦ rw e (join_matching-HaveSet time info d chs h)
  | inr e ↦ rw e (
      HaveSet-snoc d chs (join_chain time info (new_chain info)) h
        (λ q. absurd (cc (e, s, sym (join_chain-id time info (new_chain info)) ∙ q))))
]

module _ (platform : Platform) (mod_time : Bytes → Option ℕ) where
  chains_of-kept :
      (d : SetInfo) (chs : List Chain) (infos : List SetInfo)
      → HaveSet d chs
      → has_chain d.entry.chain_id chs ≡ true
      → HaveSet d (chains_of platform mod_time chs infos)
  unfolding chains_of
  chains_of-kept d chs [] h s = h
  chains_of-kept d chs (info ∷ infos) h s =
      let t = created platform info in
      chains_of-kept d (add_to_chains t info chs) infos (add_to_chains-HaveSet t info d chs h s)
        (add_to_chains-seen t info d.entry.chain_id chs s)

  -- Every chain that is built has every set of its ID.
  pub chains_of-HaveSet :
      (d : SetInfo) (chs : List Chain) (infos : List SetInfo)
      → Mem d infos
      → HaveSet d (chains_of platform mod_time chs infos)
  unfolding chains_of Mem
  chains_of-HaveSet d chs [] m = absurd m
  chains_of-HaveSet d chs (info ∷ infos) (inl q) =
      let t = created platform info in
      chains_of-kept d (add_to_chains t info chs) infos
        (subst (λ x. HaveSet x (add_to_chains t info chs)) (sym q) (add_to_chains-new t info chs))
        (ap (λ x. has_chain x.entry.chain_id (add_to_chains t info chs)) q
          ∙ add_to_chains-sees t info chs)
  chains_of-HaveSet d chs (info ∷ infos) (inr m) =
      chains_of-HaveSet d (add_to_chains (created platform info) info chs) infos m

  pub chains_of-AreOwn :
      (chs : List Chain) (infos : List SetInfo)
      → AreOwn chs
      → AreOwn (chains_of platform mod_time chs infos)
  unfolding chains_of
  chains_of-AreOwn chs [] h = h
  chains_of-AreOwn chs (info ∷ infos) h =
      let t = created platform info in
      chains_of-AreOwn (add_to_chains t info chs) infos (add_to_chains-AreOwn t info chs h)
