-- ===== src/Archive/Build/Logged.antt =====
-- build.go: which TAR entry belongs to which entry of the manifest.
use restore_safe.Manifest.{Entry, has_content_in_set, is_type, skip_last, skipped_entry, type_dir}
use restore_safe.Base.{
  Bool-cases, Bytes, List, Option, [], ap, append-nil, arith, false, inl, inr, none, not, refl,
  some, sym, text_eq, true, ◌++◌, ◌||◌, ◌∙◌, ◌∷◌, ◌≡◌, ◌⊎◌,
}
use restore_safe.Archive.Restore.{check_hash}
use restore_safe.Archive.Tar.{TarEntry}
use restore_safe.Archive.Build.Data.{TarBuilder}
use restore_safe.Cryptox.Platform.{Platform}

abbrev pub Log : Type 0
Log = List (Entry × Option TarEntry)

unfoldable pub entries_of : Log → List Entry
entries_of [] = []
entries_of ((e, t) ∷ ls) = e ∷ entries_of ls

unfoldable pub tars_of : Log → List TarEntry
tars_of [] = []
tars_of ((e, none) ∷ ls) = tars_of ls
tars_of ((e, some t) ∷ ls) = t ∷ tars_of ls

entries_of-append : (ls ks : Log) → entries_of (ls ++ ks) ≡ entries_of ls ++ entries_of ks
unfolding entries_of
entries_of-append [] ks = refl
entries_of-append ((e, t) ∷ ls) ks = ap (◌∷◌ e) (entries_of-append ls ks)

tars_of-append : (ls ks : Log) → tars_of (ls ++ ks) ≡ tars_of ls ++ tars_of ks
unfolding tars_of
tars_of-append [] ks = refl
tars_of-append ((e, none) ∷ ls) ks = tars_of-append ls ks
tars_of-append ((e, some t) ∷ ls) ks = ap (◌∷◌ t) (tars_of-append ls ks)

-- What ties a TAR entry to its entry of the manifest: it has the content, or the entry is void.
pub record IsPair (platform : Platform) (e : Entry) (t : TarEntry) : Type 0 where
  pub same_path : t.name ≡ e.path
  pub is_whole : (t.is_regular ≡ true) × (t.content_broken ≡ false)
  pub no_directory : is_type type_dir e ≡ false
  pub stored_or_void :
      ((has_content_in_set e ≡ true) × (t.size ≡ e.size) × (check_hash platform e t.content ≡ none))
      ⊎ ((has_content_in_set e ≡ false) × (e.void ≡ true))

module _ (platform : Platform) where
  abbrev pub ArePairs : Log → Type 0
  ArePairs [] = Unit
  ArePairs ((e, none) ∷ ls) = (has_content_in_set e ≡ false) × ArePairs ls
  ArePairs ((e, some t) ∷ ls) = IsPair platform e t × ArePairs ls

  ArePairs-append : (ls ks : Log) → ArePairs ls → ArePairs ks → ArePairs (ls ++ ks)
  ArePairs-append [] ks a b = b
  ArePairs-append ((e, none) ∷ ls) ks (x, a) b = (x, ArePairs-append ls ks a b)
  ArePairs-append ((e, some t) ∷ ls) ks (x, a) b = (x, ArePairs-append ls ks a b)

  -- The entries and the TAR entries written so far are those of a log of pairs.
  abbrev pub IsLogged : TarBuilder → Type 0
  IsLogged b = (ls : Log) × (b.listed ≡ entries_of ls) × (b.tar ≡ tars_of ls) × ArePairs ls

  -- Adding an entry without a TAR entry.
  pub IsLogged-listed :
      (b b' : TarBuilder) (e : Entry)
      → IsLogged b
      → has_content_in_set e ≡ false
      → b'.listed ≡ b.listed ++ e ∷ []
      → b'.tar ≡ b.tar
      → IsLogged b'
  unfolding entries_of tars_of
  IsLogged-listed b b' e (ls, a, c, ok) empty x y = (
    ls ++ (e, none) ∷ [],
    x ∙ (ap (λ z. z ++ e ∷ []) a ∙ sym (entries_of-append ls ((e, none) ∷ []))),
    y ∙ (c ∙ (sym (append-nil (tars_of ls)) ∙ sym (tars_of-append ls ((e, none) ∷ [])))),
    ArePairs-append ls ((e, none) ∷ []) ok (empty, tt),
  )

  -- Adding an entry with its TAR entry.
  pub IsLogged-stored :
      (b b' : TarBuilder) (e : Entry) (t : TarEntry)
      → IsLogged b
      → IsPair platform e t
      → b'.listed ≡ b.listed ++ e ∷ []
      → b'.tar ≡ b.tar ++ t ∷ []
      → IsLogged b'
  unfolding entries_of tars_of
  IsLogged-stored b b' e t (ls, a, c, ok) pair x y = (
    ls ++ (e, some t) ∷ [],
    x ∙ (ap (λ z. z ++ e ∷ []) a ∙ sym (entries_of-append ls ((e, some t) ∷ []))),
    y ∙ (ap (λ z. z ++ t ∷ []) c ∙ sym (tars_of-append ls ((e, some t) ∷ []))),
    ArePairs-append ls ((e, some t) ∷ []) ok (pair, tt),
  )

  pub IsLogged-same :
      (b b' : TarBuilder) → IsLogged b → b'.listed ≡ b.listed → b'.tar ≡ b.tar → IsLogged b'
  IsLogged-same b b' (ls, a, c, ok) x y = (ls, x ∙ a, y ∙ c, ok)

  -- Turning the last directory into a skipped entry.
  pub skip_last-log :
      (ls : Log) (p reason : Bytes)
      → ArePairs ls
      → (ks : Log) × ((skip_last (entries_of ls) p reason).0 ≡ entries_of ks)
        × (tars_of ls ≡ tars_of ks)
        × ArePairs ks
  unfolding skip_last entries_of tars_of has_content_in_set text_eq
  skip_last-log [] p reason ok = ([], refl, refl, tt)
  skip_last-log ((e, none) ∷ []) p reason ok =
      elim (Bool-cases (not (text_eq e.path p) || not (is_type type_dir e))) [
        | inl q ↦ ((e, none) ∷ [], rw (q, skip_last) refl, refl, ok)
        | inr q ↦ ((skipped_entry p reason, none) ∷ [], rw (q, skip_last) refl, refl, (refl, tt))
      ]
  skip_last-log ((e, some t) ∷ []) p reason (x, ok) =
      let q : (not (text_eq e.path p) || not (is_type type_dir e)) ≡ true =
        ground (arith, x.no_directory) in
      ((e, some t) ∷ [], rw (q, skip_last) refl, refl, (x, ok))
  skip_last-log ((e, none) ∷ (d, u) ∷ ls) p reason (x, ok) =
      let (ks, a, c, ok') = skip_last-log ((d, u) ∷ ls) p reason ok in
      ((e, none) ∷ ks, ap (◌∷◌ e) a, c, (x, ok'))
  skip_last-log ((e, some t) ∷ (d, u) ∷ ls) p reason (x, ok) =
      let (ks, a, c, ok') = skip_last-log ((d, u) ∷ ls) p reason ok in
      ((e, some t) ∷ ks, ap (◌∷◌ e) a, ap (◌∷◌ t) c, (x, ok'))
