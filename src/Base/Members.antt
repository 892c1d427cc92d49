-- ===== src/Base/Members.antt =====
-- Membership in a list, and the sorting that the code takes from Go's sort package.
use Prim.Native.Nat.{suc, zero, ℕ}
use mathlib.Core.Path.{ap, refl, subst, sym, ◌∙◌, ◌≡◌}
use mathlib.Core.Logic.{inl, inr, ◌⊎◌}
use mathlib.Core.Bool.{Bool, true}
use mathlib.Core.List.{List, [], ◌++◌, ◌∷◌}
use restore_safe.Base.Tests.{Bool-cases, if◌then◌else◌}
use restore_safe.Base.Lists.{drop}

module _ {A : Type 0} where
  unfoldable pub Mem : A → List A → Type 0
  Mem x [] = ⊥
  Mem x (y ∷ ys) = (x ≡ y) ⊎ Mem x ys

  unfoldable pub filter : (A → Bool) → List A → List A
  filter p [] = []
  filter p (x ∷ xs) = let rest = filter p xs in if p x then x ∷ rest else rest

  -- sort.Slice: `before x y` is its less function. Elements that it does not order stay as they stand.
  unfoldable pub insert : (A → A → Bool) → A → List A → List A
  insert before x [] = x ∷ []
  insert before x (y ∷ ys) =
      let rest = insert before x ys in if before y x then y ∷ rest else x ∷ y ∷ ys

  unfoldable pub sort_by : (A → A → Bool) → List A → List A
  unfolding insert
  sort_by before [] = []
  sort_by before (x ∷ xs) = insert before x (sort_by before xs)

  pub Mem-here : (x : A) (xs : List A) → Mem x (x ∷ xs)
  unfolding Mem
  Mem-here x xs = inl refl

  pub Mem-append : (x : A) (xs ys : List A) → Mem x (xs ++ ys) → Mem x xs ⊎ Mem x ys
  unfolding Mem
  Mem-append x [] ys h = inr h
  Mem-append x (z ∷ xs) ys (inl e) = inl (inl e)
  Mem-append x (z ∷ xs) ys (inr h) = elim (Mem-append x xs ys h) [
    | inl a ↦ inl (inr a)
    | inr b ↦ inr b
  ]

  pub Mem-append_left : (x : A) (xs ys : List A) → Mem x xs → Mem x (xs ++ ys)
  unfolding Mem
  Mem-append_left x [] ys h = absurd h
  Mem-append_left x (z ∷ xs) ys (inl e) = inl e
  Mem-append_left x (z ∷ xs) ys (inr h) = inr (Mem-append_left x xs ys h)

  pub Mem-append_right : (x : A) (xs ys : List A) → Mem x ys → Mem x (xs ++ ys)
  unfolding Mem
  Mem-append_right x [] ys h = h
  Mem-append_right x (z ∷ xs) ys h = inr (Mem-append_right x xs ys h)

  pub Mem-filter :
      (p : A → Bool) (x : A) (xs : List A) → Mem x (filter p xs) → Mem x xs × (p x ≡ true)
  unfolding Mem filter
  Mem-filter p x [] h = absurd h
  Mem-filter p x (y ∷ ys) h = elim (Bool-cases (p y)) [
    | inl e ↦ elim (subst (λ b. Mem x (if b then y ∷ filter p ys else filter p ys)) e h) [
      | inl q ↦ (inl q, ap p q ∙ e)
      | inr m ↦ (let (a, b) = Mem-filter p x ys m in (inr a, b))
    ]
    | inr e ↦
        (let (a, b) =
            Mem-filter p x ys
              (subst (λ b. Mem x (if b then y ∷ filter p ys else filter p ys)) e h) in
          (inr a, b))
  ]

  pub Mem-filter_in :
      (p : A → Bool) (x : A) (xs : List A) → Mem x xs → p x ≡ true → Mem x (filter p xs)
  unfolding Mem filter
  Mem-filter_in p x [] h e = h
  Mem-filter_in p x (y ∷ ys) (inl q) e = rw (sym (ap p q) ∙ e) (inl q)
  Mem-filter_in p x (y ∷ ys) (inr m) e = elim (Bool-cases (p y)) [
    | inl q ↦ rw q (inr (Mem-filter_in p x ys m e))
    | inr q ↦ rw q (Mem-filter_in p x ys m e)
  ]

  pub Mem-drop : (n : ℕ) (x : A) (xs : List A) → Mem x (drop n xs) → Mem x xs
  unfolding Mem
  Mem-drop zero x xs h = h
  Mem-drop (suc n) x [] h = h
  Mem-drop (suc n) x (y ∷ ys) h = inr (Mem-drop n x ys h)

  pub Mem-insert :
      (before : A → A → Bool) (x y : A) (xs : List A) → Mem x (insert before y xs) → Mem x (y ∷ xs)
  unfolding Mem insert
  Mem-insert before x y [] h = h
  Mem-insert before x y (z ∷ zs) h = elim (Bool-cases (before z y)) [
    | inl e ↦ elim (subst (λ b. Mem x (if b then z ∷ insert before y zs else y ∷ z ∷ zs)) e h) [
      | inl q ↦ inr (inl q)
      | inr m ↦ elim (Mem-insert before x y zs m) [ inl q ↦ inl q | inr m' ↦ inr (inr m') ]
    ]
    | inr e ↦ subst (λ b. Mem x (if b then z ∷ insert before y zs else y ∷ z ∷ zs)) e h
  ]

  pub Mem-sort_by :
      (before : A → A → Bool) (x : A) (xs : List A) → Mem x (sort_by before xs) → Mem x xs
  unfolding Mem sort_by
  Mem-sort_by before x [] h = h
  Mem-sort_by before x (y ∷ ys) h = elim (Mem-insert before x y (sort_by before ys) h) [
    | inl e ↦ inl e
    | inr h' ↦ inr (Mem-sort_by before x ys h')
  ]
