-- ===== src/Examples/Platforms.antt =====
-- Concrete functions that stand for the platform, the cipher and the file system.
use restore_safe.Base.{
  Bool-cases, Bytes, Option, [], ap, arith, if◌then◌else◌, inl, inr, length, length-append,
  length-take, none, some, suc, sym, take, take-append, text_eq, text_eq_iff, true, zero, ℕ, ◌++◌,
  ◌-◌, ◌∙◌, ◌∷◌, ◌≡◌,
}
use restore_safe.Cryptox.Platform.{Platform}
use restore_safe.Cryptox.Gcm.{Aead}
use restore_safe.Container.Split.{Disk}

abbrev pub zeros : ℕ → Bytes
zeros zero = []
zeros (suc n) = 0 ∷ zeros n

abbrev pub zeros32 : Bytes
zeros32 = zeros 32

-- A hash of 32 bytes: the text's first bytes, filled up.
abbrev pub first_bytes : Bytes → Bytes
first_bytes b = take 32 (b ++ zeros32)

pub length-first_bytes : (b : Bytes) → length (first_bytes b) ≡ 32
length-first_bytes b = omega (arith, length-take 32 (b ++ zeros32), length-append b zeros32)

abbrev pub plain_platform : Platform
plain_platform = record {
  sha256 = first_bytes;
  length-sha256 = length-first_bytes;
  argon2_id_key = λ secret salt time memory threads. first_bytes secret;
  length-argon2_id_key = λ secret salt time memory threads. length-first_bytes secret;
  hkdf_key = λ master salt info. first_bytes info;
  length-hkdf_key = λ master salt info. length-first_bytes info;
  base64_decode = λ b. some b;
  base64_encode = λ b. b;
  parse_time = λ b. some (length b);
}

-- A tag that depends on all that is authenticated besides the plaintext.
abbrev pub plain_tag : Bytes → Bytes → Bytes → Bytes
plain_tag k n a = take 16 (take 6 k ++ (n ++ (a ++ zeros 16)))

pub length-plain_tag : (k n a : Bytes) → length (plain_tag k n a) ≡ 16
length-plain_tag k n a = omega (
  arith,
  length-take 16 (take 6 k ++ (n ++ (a ++ zeros 16))),
  length-append (take 6 k) (n ++ (a ++ zeros 16)),
  length-append n (a ++ zeros 16),
  length-append a (zeros 16),
)

unfoldable pub plain_open : Bytes → Bytes → Bytes → Bytes → Option Bytes
plain_open k n c a =
    let p = take (length c - 16) c in if text_eq c (p ++ plain_tag k n a) then some p else none

pub plain_open-seal : (k n p a : Bytes) → plain_open k n (p ++ plain_tag k n a) a ≡ some p
unfolding plain_open
plain_open-seal k n p a =
    let t = plain_tag k n a in
    let l : length (p ++ t) - 16 ≡ length p =
      omega (arith, length-append p t, length-plain_tag k n a) in
    let e : take (length (p ++ t) - 16) (p ++ t) ≡ p =
      ap (λ x. take x (p ++ t)) l ∙ take-append p t in
    let same : text_eq (p ++ t) (take (length (p ++ t) - 16) (p ++ t) ++ t) ≡ true =
      (text_eq_iff _ _).1 (sym (ap (λ x. x ++ t) e)) in
    rw same (ap some e)

some_eq : {x y : Bytes} → some x ≡ some y → x ≡ y
some_eq h = cc h

pub plain_open_authentic :
    (k n c a p : Bytes) → plain_open k n c a ≡ some p → c ≡ p ++ plain_tag k n a
unfolding plain_open
plain_open_authentic k n c a p h =
    elim (Bool-cases (text_eq c (take (length c - 16) c ++ plain_tag k n a))) [
      | inl e ↦
          (let q = (text_eq_iff c (take (length c - 16) c ++ plain_tag k n a)).0 e in
            let r : some (take (length c - 16) c) ≡ some p = rw e at h in
            q ∙ ap (λ x. x ++ plain_tag k n a) ((some_eq r)))
      | inr e ↦ absurd (cc (rw e at h))
    ]

abbrev pub plain_cipher : Aead
plain_cipher = record {
  seal = λ k n p a. p ++ plain_tag k n a;
  open_sealed = plain_open;
  length-seal = λ k n p a. omega (arith, length-append p (plain_tag k n a), length-plain_tag k n a);
  open-seal = plain_open-seal;
  open_authentic = plain_open_authentic;
}

-- A file system that does all that is asked.
abbrev pub good_disk : Disk
good_disk = record {
  clean = λ p. p;
  directory_ok = λ path. true;
  create_ok = λ path. true;
  accepts = λ path offset n. n;
  accepts-le = λ path offset n. omega arith;
  sync_ok = λ path. true;
  close_ok = λ path. true;
}
