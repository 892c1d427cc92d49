-- ===== src/Recovery/RoundTrip.antt =====
-- recovery.go: Parse behind Display.
use restore_safe.Recovery.Defs.{
  Code, ParseError, alphabet, check_chars, check_symbols, checksum, data_chars, display,
  display_from, group_size, is_ignored, normalize, ok, parse, read_symbols,
}
use restore_safe.Text.{all_bytes, contains}
use restore_safe.Base.{
  Bool, Bool-cases, Bytes, [], append-nil, append_assoc, arith, drop, drop-append, false, inl, inr,
  length, length-append, ltb, not, refl, subst, suc, take, take-append, text_eq_iff, true, ℕ, ◌%◌,
  ◌&&◌, ◌++◌, ◌+◌, ◌<◌, ◌==◌, ◌∙◌, ◌∷◌, ◌≡◌, ◌≤◌, ◌⊎◌,
}

-- The texts have their lengths, of the alphabet's characters, and the check is the data's checksum.
unfoldable pub IsValidCode : (Bytes → Bytes) → Code → Type 0
IsValidCode sha256 c =
    (length c.data_part ≡ data_chars)
    × (length c.check ≡ check_chars)
    × (all_bytes (contains alphabet) c.data_part ≡ true)
    × (all_bytes (contains alphabet) c.check ≡ true)
    × (checksum sha256 c.data_part ≡ c.check)

contains-all_bytes :
    (p : ℕ → Bool) (xs : Bytes) (c : ℕ) → contains xs c ≡ true → all_bytes p xs ≡ true → p c ≡ true
unfolding contains all_bytes
contains-all_bytes p [] c h k = absurd (cc h)
contains-all_bytes p (x ∷ xs) c h k = elim (Bool-cases (x == c)) [
  | inl e ↦ (let q : x ≡ c = ground arith in subst (λ z. p z ≡ true) q (ground arith))
  | inr e ↦ contains-all_bytes p xs c (ground arith) (ground arith)
]

add_zero : (n : ℕ) → n ≡ n + 0
add_zero n = omega arith

add_suc : (n k : ℕ) → (n + 1) + k ≡ n + suc k
add_suc n k = omega arith

plain : ℕ → Bool
unfolding normalize
plain c = normalize c == c && not (is_ignored c)

plain-parts : (c : ℕ) → plain c ≡ true → (normalize c ≡ c) × (is_ignored c ≡ false)
unfolding plain
plain-parts c h = ground arith

alphabet-plain : all_bytes plain alphabet ≡ true
unfolding all_bytes plain normalize
alphabet-plain = refl

pub all_bytes-append :
    (p : ℕ → Bool) (xs ys : Bytes) → all_bytes p (xs ++ ys) ≡ (all_bytes p xs && all_bytes p ys)
unfolding all_bytes
all_bytes-append p [] ys = refl
all_bytes-append p (x ∷ xs) ys = ground (arith, all_bytes-append p xs ys)

module _ (sha256 : Bytes → Bytes) where
  read_symbols-char :
      (all : Bytes) (n c : ℕ) (cs : Bytes)
      → contains alphabet c ≡ true
      → length all < 30
      → read_symbols sha256 all n (c ∷ cs) ≡ read_symbols sha256 (all ++ c ∷ []) (n + 1) cs
  unfolding read_symbols
  read_symbols-char all n c cs h l =
      (let q = contains-all_bytes plain alphabet c h alphabet-plain in
        let (a, b) = plain-parts c q in
        let l' : ltb (length all) 30 ≡ true = ground arith in rw (a, b, h, l') refl)

  reach :
      (all cs : Bytes) (c n : ℕ)
      → Path
          ((Bytes × ℕ) ⊎ ParseError)
          (inl ((all ++ c ∷ []) ++ cs, (n + 1) + length cs))
          (inl (all ++ c ∷ cs, n + length (c ∷ cs)))
  reach all cs c n = cc (append_assoc all (c ∷ []) cs, add_suc n (length cs))

  read_symbols-nil : (all : Bytes) (n : ℕ) → read_symbols sha256 all n [] ≡ inl (all, n)
  unfolding read_symbols
  read_symbols-nil all n = refl

  read_symbols-dash :
      (all : Bytes) (n : ℕ) (cs : Bytes)
      → read_symbols sha256 all n (b'-' ∷ cs) ≡ read_symbols sha256 all n cs
  unfolding read_symbols normalize
  read_symbols-dash all n cs = refl

  read_symbols-display_from :
      (i : ℕ) (all : Bytes) (n : ℕ) (cs : Bytes)
      → all_bytes (contains alphabet) cs ≡ true
      → length all + length cs ≤ 30
      → read_symbols sha256 all n (display_from i cs) ≡ inl (all ++ cs, n + length cs)
  unfolding display_from all_bytes
  read_symbols-display_from i all n [] h l =
      read_symbols-nil all n ∙ cc (append-nil all, add_zero n)
  read_symbols-display_from i all n (c ∷ cs) h l =
      let dash = c ∷ display_from (i + 1) cs in
      let rest =
        read_symbols-char all n c (display_from (i + 1) cs) (ground arith) (ground arith)
        ∙ read_symbols-display_from (i + 1) (all ++ c ∷ []) (n + 1) cs (ground arith)
            (ground (arith, length-append all (c ∷ []))) in
      let end = reach all cs c n in
      elim (Bool-cases (ltb 0 i && i % group_size == 0)) [
        | inl e ↦ rw e (read_symbols-dash all n dash ∙ rest ∙ end)
        | inr e ↦ rw e (rest ∙ end)
      ]

  -- A valid code is read from the text that shows it.
  pub parse-display :
      (code : Code) → IsValidCode sha256 code → parse sha256 (display code) ≡ ok code
  unfolding parse display IsValidCode check_symbols
  parse-display code (l1, l2, a1, a2, sum) =
      let all = code.data_part ++ code.check in
      let read =
        read_symbols-display_from 0 [] 0 all
          (all_bytes-append (contains alphabet) code.data_part code.check ∙ rw (a1, a2) refl)
          (omega (arith, length-append code.data_part code.check)) in
      let n : length all ≡ 30 = omega (arith, length-append code.data_part code.check) in
      let t : take 25 all ≡ code.data_part =
        subst (λ k. take k all ≡ code.data_part) l1 (take-append code.data_part code.check) in
      let d : drop 25 all ≡ code.check =
        subst (λ k. drop k all ≡ code.check) l1 (drop-append code.data_part code.check) in
      rw (parse, read, n, t, d, (text_eq_iff (checksum sha256 code.data_part) code.check).1 sum)
        refl
