-- ===== src/Archive/Build/Paths.antt =====
-- manifest.go and restore.go: the paths of a manifest, and the look-up of one.
use restore_safe.Archive.Restore.{entry_at}
use restore_safe.Base.{
  Bool-cases, Bytes, List, Mem, [], ap, inl, inr, none, refl, some, subst, sym, text_eq,
  text_eq_iff, ◌++◌, ◌∷◌, ◌≡◌, ◌≢◌,
}
use restore_safe.Manifest.Accepted.{validate_manifest-IsPlaced}
use restore_safe.Manifest.Validate.{validate_manifest}
use restore_safe.Naming.{is_diff}
use restore_safe.Manifest.{Entry, Manifest}

-- No path stands twice in a list.
abbrev pub Distinct : List Entry → Type 0
Distinct [] = Unit
Distinct (e ∷ es) = ((x : Entry) → Mem x es → x.path ≢ e.path) × Distinct es

entry_at-none :
    (p : Bytes) (es : List Entry) → ((x : Entry) → Mem x es → x.path ≢ p) → entry_at p es ≡ none
unfolding entry_at Mem
entry_at-none p [] h = refl
entry_at-none p (e ∷ es) h =
    let rest = entry_at-none p es (λ x m. h x (inr m)) in
    elim (Bool-cases (text_eq e.path p)) [
      | inl y ↦ absurd (h e (inl refl) ((text_eq_iff e.path p).0 y))
      | inr n ↦ rw (rest, n, entry_at) refl
    ]

pub entry_at-Distinct :
    (e : Entry) (es : List Entry) → Distinct es → Mem e es → entry_at e.path es ≡ some e
unfolding entry_at Mem
entry_at-Distinct e [] d m = absurd m
entry_at-Distinct e (x ∷ xs) (other, d) (inl q) =
    let gone = entry_at-none x.path xs other in
    let here : entry_at x.path (x ∷ xs) ≡ some x =
      rw (gone, (text_eq_iff x.path x.path).1 refl, entry_at) refl in
    subst (λ z. entry_at z.path (x ∷ xs) ≡ some z) (sym q) here
entry_at-Distinct e (x ∷ xs) (other, d) (inr m) = rw (entry_at-Distinct e xs d m, entry_at) refl

Mem-split :
    (e : Entry) (es : List Entry)
    → Mem e es
    → (pre : List Entry) × (post : List Entry) × (es ≡ pre ++ e ∷ post)
unfolding Mem
Mem-split e [] m = absurd m
Mem-split e (x ∷ xs) (inl q) = ([], xs, ap (λ z. z ∷ xs) (sym q))
Mem-split e (x ∷ xs) (inr m) =
    let (pre, post, q) = Mem-split e xs m in (x ∷ pre, post, ap (◌∷◌ x) q)

-- Where no entry has the path of one before it, the paths are distinct.
Distinct-split :
    (es : List Entry)
    → ((pre : List Entry) (e : Entry) (post : List Entry)
        → es ≡ pre ++ e ∷ post
        → (x : Entry) → Mem x pre
        → x.path ≢ e.path)
    → Distinct es
unfolding Mem
Distinct-split [] h = tt
Distinct-split (e ∷ es) h = (
  λ x m same.
      (let (pre, post, q) = Mem-split x es m in
        h (e ∷ pre) x post (ap (◌∷◌ e) q) e (inl refl) (sym same)),
  Distinct-split es (λ pre x post q y m. h (e ∷ pre) x post (ap (◌∷◌ e) q) y (inr m)),
)

pub validate_manifest-Distinct :
    (to_lower : Bytes → Bytes) (m : Manifest)
    → validate_manifest to_lower m ≡ none
    → Distinct m.entries
validate_manifest-Distinct to_lower m h = Distinct-split m.entries (λ pre e post q x n same.
    (let (is_diff, placed) = validate_manifest-IsPlaced to_lower m pre e post h q in
      placed.path_new x n (ap to_lower same)))
