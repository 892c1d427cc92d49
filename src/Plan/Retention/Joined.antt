-- ===== src/Plan/Retention/Joined.antt =====
-- retention.go: what joins a chain, and which sets a chain has.
use restore_safe.Catalog.{SetInfo}
use restore_safe.Base.{
  Bool, Bool-cases, Bytes, List, Mem, Mem-append, Mem-append_left, Mem-append_right, Mem-here, [],
  ap, arith, false, inl, inr, refl, subst, sym, text_eq, text_eq_iff, ℕ, ◌++◌, ◌||◌, ◌∙◌, ◌∷◌, ◌≡◌,
}
use restore_safe.Plan.Retention.Defs.{
  Chain, add_to_chains, has_chain, join_chain, join_matching, new_chain,
}

-- Every set stands in a chain of its ID.
unfoldable pub AreOwn : List Chain → Type 0
AreOwn [] = Unit
AreOwn (ch ∷ chs) = ((s : SetInfo) → Mem s ch.sets → s.entry.chain_id ≡ ch.id) × AreOwn chs

-- Every chain of the set's ID has the set.
unfoldable pub HaveSet : SetInfo → List Chain → Type 0
HaveSet d [] = Unit
HaveSet d (ch ∷ chs) = (ch.id ≡ d.entry.chain_id → Mem d ch.sets) × HaveSet d chs

pub AreOwn-Mem :
    (chs : List Chain) (ch : Chain) (s : SetInfo)
    → AreOwn chs
    → Mem ch chs
    → Mem s ch.sets
    → s.entry.chain_id ≡ ch.id
unfolding AreOwn Mem
AreOwn-Mem (c ∷ chs) ch s (h, hs) (inl q) m =
    h s (subst (λ x. Mem s x.sets) q m) ∙ sym (ap (λ x. x.id) q)
AreOwn-Mem (c ∷ chs) ch s (h, hs) (inr q) m = AreOwn-Mem chs ch s hs q m
AreOwn-Mem [] ch s h q m = absurd q

pub HaveSet-Mem :
    (chs : List Chain) (ch : Chain) (d : SetInfo)
    → HaveSet d chs
    → Mem ch chs
    → ch.id ≡ d.entry.chain_id
    → Mem d ch.sets
unfolding HaveSet Mem
HaveSet-Mem (c ∷ chs) ch d (h, hs) (inl q) e =
    subst (λ x. Mem d x.sets) (sym q) (h (sym (ap (λ x. x.id) q) ∙ e))
HaveSet-Mem (c ∷ chs) ch d (h, hs) (inr q) e = HaveSet-Mem chs ch d hs q e
HaveSet-Mem [] ch d h q e = absurd q

pub join_chain-id : (time : ℕ) (info : SetInfo) (ch : Chain) → (join_chain time info ch).id ≡ ch.id
unfolding join_chain
join_chain-id time info ch = ground arith

join_chain-sets :
    (time : ℕ) (info : SetInfo) (ch : Chain) → (join_chain time info ch).sets ≡ ch.sets ++ info ∷ []
unfolding join_chain
join_chain-sets time info ch = ground arith

join_chain-Own :
    (time : ℕ) (info : SetInfo) (ch : Chain)
    → ch.id ≡ info.entry.chain_id
    → ((s : SetInfo) → Mem s ch.sets → s.entry.chain_id ≡ ch.id)
    → (s : SetInfo) → Mem s (join_chain time info ch).sets
    → s.entry.chain_id ≡ (join_chain time info ch).id
unfolding Mem
join_chain-Own time info ch e h s m =
    elim (Mem-append s ch.sets (info ∷ [])
      (subst (λ x. Mem s x) (join_chain-sets time info ch) m)) [
        | inl a ↦ h s a ∙ sym (join_chain-id time info ch)
        | inr (inl q) ↦ ap (λ x. x.entry.chain_id) q ∙ sym e ∙ sym (join_chain-id time info ch)
        | inr (inr x) ↦ absurd x
      ]

join_matching-AreOwn :
    (time : ℕ) (info : SetInfo) (chs : List Chain)
    → AreOwn chs
    → AreOwn (join_matching time info chs)
unfolding join_matching AreOwn
join_matching-AreOwn time info [] h = h
join_matching-AreOwn time info (ch ∷ chs) (h, hs) =
    let rest = join_matching-AreOwn time info chs hs in
    elim (Bool-cases (text_eq ch.id info.entry.chain_id)) [
      | inl e ↦ rw e (join_chain-Own time info ch ((text_eq_iff _ _).0 e) h, rest)
      | inr e ↦ rw e (h, rest)
    ]

AreOwn-snoc :
    (chs : List Chain) (ch : Chain)
    → AreOwn chs
    → ((s : SetInfo) → Mem s ch.sets → s.entry.chain_id ≡ ch.id)
    → AreOwn (chs ++ ch ∷ [])
unfolding AreOwn
AreOwn-snoc [] ch h k = (k, tt)
AreOwn-snoc (c ∷ chs) ch (h, hs) k = (h, AreOwn-snoc chs ch hs k)

pub add_to_chains-AreOwn :
    (time : ℕ) (info : SetInfo) (chs : List Chain)
    → AreOwn chs
    → AreOwn (add_to_chains time info chs)
unfolding add_to_chains Mem
add_to_chains-AreOwn time info chs h = elim (Bool-cases (has_chain info.entry.chain_id chs)) [
  | inl e ↦ rw e (join_matching-AreOwn time info chs h)
  | inr e ↦ rw e (
      AreOwn-snoc chs (join_chain time info (new_chain info)) h
        (join_chain-Own time info (new_chain info) refl (λ s m. absurd m)))
]

pub join_matching-HaveSet :
    (time : ℕ) (info d : SetInfo) (chs : List Chain)
    → HaveSet d chs
    → HaveSet d (join_matching time info chs)
unfolding join_matching HaveSet
join_matching-HaveSet time info d [] h = h
join_matching-HaveSet time info d (ch ∷ chs) (h, hs) =
    let rest = join_matching-HaveSet time info d chs hs in
    elim (Bool-cases (text_eq ch.id info.entry.chain_id)) [
      | inl e ↦ rw e (
        λ q.
            subst (λ x. Mem d x) (sym (join_chain-sets time info ch))
              (Mem-append_left d ch.sets (info ∷ []) (h (sym (join_chain-id time info ch) ∙ q))),
        rest,
      )
      | inr e ↦ rw e (h, rest)
    ]

join_chain-HaveSet :
    (time : ℕ) (info : SetInfo) (ch : Chain) → Mem info (join_chain time info ch).sets
join_chain-HaveSet time info ch =
    subst (λ x. Mem info x) (sym (join_chain-sets time info ch))
      (Mem-append_right info ch.sets (info ∷ []) (Mem-here info []))

join_matching-new :
    (time : ℕ) (info : SetInfo) (chs : List Chain) → HaveSet info (join_matching time info chs)
unfolding join_matching HaveSet
join_matching-new time info [] = tt
join_matching-new time info (ch ∷ chs) =
    let rest = join_matching-new time info chs in
    elim (Bool-cases (text_eq ch.id info.entry.chain_id)) [
      | inl e ↦ rw e (λ q. join_chain-HaveSet time info ch, rest)
      | inr e ↦ rw e (λ q. absurd (cc (e, (text_eq_iff ch.id info.entry.chain_id).1 q)), rest)
    ]

Bool-or-left : (a b : Bool) → (a || b) ≡ false → a ≡ false
Bool-or-left a b h = ground arith

no_chain :
    (id : Bytes) (d : SetInfo) (chs : List Chain)
    → has_chain id chs ≡ false
    → id ≡ d.entry.chain_id
    → HaveSet d chs
unfolding has_chain HaveSet
no_chain id d [] n e = tt
no_chain id d (ch ∷ chs) n e = (
  λ q. absurd (
      cc (
        Bool-or-left (text_eq ch.id id) (has_chain id chs) n,
        (text_eq_iff ch.id id).1 (q ∙ sym e),
      )),
  no_chain id d chs (ground arith) e,
)

pub HaveSet-snoc :
    (d : SetInfo) (chs : List Chain) (ch : Chain)
    → HaveSet d chs
    → (ch.id ≡ d.entry.chain_id → Mem d ch.sets)
    → HaveSet d (chs ++ ch ∷ [])
unfolding HaveSet
HaveSet-snoc d [] ch h k = (k, tt)
HaveSet-snoc d (c ∷ chs) ch (h, hs) k = (h, HaveSet-snoc d chs ch hs k)

pub add_to_chains-new :
    (time : ℕ) (info : SetInfo) (chs : List Chain) → HaveSet info (add_to_chains time info chs)
unfolding add_to_chains
add_to_chains-new time info chs = elim (Bool-cases (has_chain info.entry.chain_id chs)) [
  | inl e ↦ rw e (join_matching-new time info chs)
  | inr e ↦ rw e (
      HaveSet-snoc info chs (join_chain time info (new_chain info))
        (no_chain info.entry.chain_id info chs e refl)
        (λ q. join_chain-HaveSet time info (new_chain info)))
]
