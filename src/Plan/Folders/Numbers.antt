-- ===== src/Plan/Folders/Numbers.antt =====
-- folders.go: the base and the number of a new differential.
use restore_safe.Io.{whole}
use restore_safe.Naming.{is_diff, max_diff_number}
use restore_safe.Plan.Folders.Defs.{
  Differential, Folder, Keys, age_in_days, existing, find_base, interval_days, is_chained,
  is_enabled, keys_mismatch, keys_requested, no_keys_found, percent_of, plan_folder, plan_on_base,
  plan_with_keys, scan_chain, size_percent,
}
use restore_safe.Container.KeySet.{KeySet}
use restore_safe.Base.{
  Bool, Bool-cases, Bytes, List, Mem, Option, Option-cases, [], and-true, ap, arith, false,
  if◌then◌else◌, inl, inr, leb, ltb, none, not, not-false, not-true, refl, some, subst, sym,
  text_eq, text_eq_iff, true, ℕ, ◌&&◌, ◌+◌, ◌<◌, ◌∙◌, ◌∷◌, ◌≡◌, ◌≤◌,
}
use restore_safe.Catalog.{SetInfo, complete}
use restore_safe.Container.Header.{Header}

find_base-IsBase :
    (directory : Bytes) (infos : List SetInfo) (base : SetInfo) (h : Header)
    → find_base directory infos ≡ some (base, h)
    → Mem base infos
      × (base.entry.directory_name ≡ directory)
      × (is_diff base.entry ≡ false)
      × (complete base ≡ true)
      × (base.header ≡ some h)
unfolding find_base Mem
find_base-IsBase directory [] base h q = absurd (cc q)
find_base-IsBase directory (i ∷ is) base h q =
    elim (Bool-cases
      (text_eq i.entry.directory_name directory && not (is_diff i.entry) && complete i)) [
        | inr n ↦
            let (m, a, b, c, k) = find_base-IsBase directory is base h (rw (n, find_base) at q) in
            (inr m, a, b, c, k)
        | inl y ↦ elim (Option-cases i.header) [
          | inl e ↦
              let (m, a, b, c, k) =
                find_base-IsBase directory is base h (rw (y, e, find_base) at q) in
              (inr m, a, b, c, k)
          | inr (x, e) ↦
              let same : some (i, x) ≡ some (base, h) = rw (y, e, find_base) at q in
              let here : i ≡ base = cc same in
              let head : x ≡ h = cc same in
              let (ab, c) =
                and-true (text_eq i.entry.directory_name directory && not (is_diff i.entry))
                  (complete i) y in
              let (a, b) =
                and-true (text_eq i.entry.directory_name directory) (not (is_diff i.entry)) ab in
              subst
                (λ z.
                  Mem z (i ∷ is)
                  × (z.entry.directory_name ≡ directory)
                  × (is_diff z.entry ≡ false)
                  × (complete z ≡ true)
                  × (z.header ≡ some h))
                here
                (
                  inl refl,
                  (text_eq_iff i.entry.directory_name directory).0 a,
                  not-true (is_diff i.entry) b,
                  c,
                  e ∙ ap some head,
                )
        ]
      ]

-- No number of the chain is above the largest one.
scan_chain-largest :
    (directory chain : Bytes) (largest : ℕ) (newest : Option SetInfo) (infos : List SetInfo)
    → (largest ≤ (scan_chain directory chain largest newest infos).0)
      × ((i : SetInfo)
          → Mem i infos
          → is_chained directory chain i ≡ true
          → i.entry.diff_number ≤ (scan_chain directory chain largest newest infos).0)
unfolding scan_chain Mem
scan_chain-largest directory chain largest newest [] = (omega arith, λ i m. absurd m)
scan_chain-largest directory chain largest newest (x ∷ xs) =
    let more = if ltb largest x.entry.diff_number then x.entry.diff_number else largest in
    let seen : Option SetInfo = elim newest [
      | some n ↦ some n
      | none ↦ if complete x then some x else none
    ] in
    elim (Bool-cases (is_chained directory chain x)) [
      | inl y ↦
          let (a, b) = scan_chain-largest directory chain more seen xs in
          rw (y, scan_chain)
            (
              ground (arith, a),
              λ i m c. elim m [ inl e ↦ rw e (ground (arith, a)) | inr m' ↦ b i m' c ],
            )
      | inr n ↦
          let (a, b) = scan_chain-largest directory chain largest newest xs in
          rw (n, scan_chain)
            (
              a,
              λ i m c. elim m [
                | inl e ↦ absurd (cc (n, ap (is_chained directory chain) (sym e), c))
                | inr m' ↦ b i m' c
              ],
            )
    ]

-- The base and the number of a differential, for the sets of a backup directory.
pub record IsNext (settings : Differential) (created : Header → ℕ) (infos : List SetInfo)
    (directory : Bytes) (keys : Keys) (now : ℕ) (f : Folder) (base : SetInfo) : Type 0 where
  pub known : Mem base infos
  pub same_directory : base.entry.directory_name ≡ directory
  pub is_full : is_diff base.entry ≡ false
  pub is_complete : complete base ≡ true
  pub positive : 1 ≤ f.diff_number
  pub bounded : f.diff_number ≤ 999
  pub unused :
      (i : SetInfo)
      → Mem i infos
      → is_chained directory base.entry.chain_id i ≡ true
      → i.entry.diff_number < f.diff_number
  pub header : Header
  pub has_header : base.header ≡ some header
  pub key_set : KeySet
  pub run_keys : keys ≡ existing key_set
  pub same_keys : header.key_set.id ≡ key_set.id
  pub young : age_in_days now (created header) < interval_days settings

plan_on_base-some :
    (settings : Differential) (base found : SetInfo) (age largest : ℕ) (newest : Option SetInfo)
    → (plan_on_base settings base age largest newest).base ≡ some found
    → (base ≡ found) × ((plan_on_base settings base age largest newest).diff_number ≡ largest + 1)
unfolding plan_on_base
plan_on_base-some settings base found age largest none h = (cc h, refl)
plan_on_base-some settings base found age largest (some n) h =
    elim (Bool-cases (
      ltb 0 base.data_length
      && leb (size_percent settings) (percent_of n.data_length base.data_length))) [
        | inl y ↦ absurd (cc (rw (y, plan_on_base) at h))
        | inr z ↦ (cc (rw (z, plan_on_base) at h), rw (z, plan_on_base) refl)
      ]

plan_with_keys-IsNext :
    (settings : Differential) (created : Header → ℕ) (infos : List SetInfo) (directory : Bytes)
    (ks : KeySet) (now : ℕ) (base : SetInfo)
    → (plan_with_keys settings created infos directory ks now).base ≡ some base
    → IsNext settings created infos directory
        (existing ks)
        now
        (plan_with_keys settings created infos directory ks now)
        base
unfolding plan_with_keys
plan_with_keys-IsNext settings created infos directory ks now base h =
    elim (Option-cases (find_base directory infos)) [
      | inl q ↦ absurd (cc (rw (q, plan_with_keys) at h))
      | inr ((b, head), q) ↦
          let age = age_in_days now (created head) in
          let scan = scan_chain directory b.entry.chain_id 0 none infos in
          elim (Bool-cases (not (text_eq head.key_set.id ks.id))) [
            | inl k ↦ absurd (cc (rw (q, k, plan_with_keys) at h))
            | inr k ↦ elim (Bool-cases (leb (interval_days settings) age)) [
              | inl a ↦ absurd (cc (rw (q, k, a, plan_with_keys) at h))
              | inr a ↦ elim (Bool-cases (leb max_diff_number scan.0)) [
                | inl l ↦ absurd (cc (rw (q, k, a, l, plan_with_keys) at h))
                | inr l ↦
                    let good : plan_with_keys settings created infos directory ks now
                        ≡ plan_on_base settings b age scan.0 scan.1 =
                      rw (q, k, a, l, plan_with_keys) refl in
                    let (same, number) =
                      plan_on_base-some settings b base age scan.0 scan.1
                        (subst (λ z. z.base ≡ some base) good h) in
                    let (m, dir, full, whole, has) = find_base-IsBase directory infos b head q in
                    let (up, above) = scan_chain-largest directory b.entry.chain_id 0 none infos in
                    subst (λ z. IsNext settings created infos directory (existing ks) now z base)
                      (sym good)
                      (subst
                        (λ z.
                          IsNext settings created infos directory (existing ks) now
                            (plan_on_base settings b age scan.0 scan.1) z)
                        same
                        (record {
                          known = m;
                          same_directory = dir;
                          is_full = full;
                          is_complete = whole;
                          positive = omega (arith, number);
                          bounded = ground (arith, number, l);
                          unused = λ i x c. omega (arith, number, above i x c);
                          header = head;
                          has_header = has;
                          key_set = ks;
                          run_keys = refl;
                          same_keys =
                              (text_eq_iff head.key_set.id ks.id).0
                                (not-false (text_eq head.key_set.id ks.id) k);
                          young = ground (arith, a);
                        }))
              ]
            ]
          ]
    ]

-- Where planFolder plans a differential, its base is a complete full backup of the directory, of less
-- than the allowed age, made with the key set of the run. The differential's number is from 1 to 999
-- and above that of every differential of the chain in the backup directory, complete or not.
pub plan_folder-IsNext :
    (settings : Differential) (created : Header → ℕ) (infos : List SetInfo) (directory : Bytes)
    (keys : Keys) (force_full : Bool) (now : ℕ) (base : SetInfo)
    → (plan_folder settings created infos directory keys force_full now).base ≡ some base
    → IsNext settings created infos directory keys now
        (plan_folder settings created infos directory keys force_full now)
        base
unfolding plan_folder
plan_folder-IsNext settings created infos directory no_keys_found force_full now base h =
    absurd (ground arith)
plan_folder-IsNext settings created infos directory (keys_mismatch why) force_full now base h =
    absurd (ground arith)
plan_folder-IsNext settings created infos directory keys_requested force_full now base h =
    absurd (ground arith)
plan_folder-IsNext settings created infos directory (existing ks) force_full now base h =
    elim (Bool-cases force_full) [
      | inl f ↦ absurd (cc (rw (f, plan_folder) at h))
      | inr f ↦ elim (Bool-cases (is_enabled settings)) [
        | inr e ↦ absurd (cc (rw (f, e, plan_folder) at h))
        | inl e ↦
            rw (f, e, plan_folder)
              (plan_with_keys-IsNext settings created infos directory ks now base
                (rw (f, e, plan_folder) at h))
      ]
    ]
