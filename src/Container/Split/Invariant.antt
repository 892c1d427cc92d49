-- ===== src/Container/Split/Invariant.antt =====
-- split.go: the rounds of Write, with any operating system.
use restore_safe.Base.{
  Bool-cases, Bytes, List, Option, Option-cases, [], ap, append-nil, append_assoc, arith, inl, inr,
  leb, length, length-append, length-take, ltb, none, refl, some, subst, sym, take, text_eq,
  text_eq_iff, ℕ, ◌++◌, ◌+◌, ◌-◌, ◌<◌, ◌∙◌, ◌∷◌, ◌≡◌, ◌≤◌,
}
use Prim.Native.Nat.{min}
use restore_safe.Container.Split.Defs.{
  Disk, Part, WriteError, Writer, close_current, ensure_open, open_next, part_path, without,
  write_open, write_part, write_round,
}

-- The bytes of the parts, in order.
abbrev pub contents : List Part → Bytes
contents [] = []
contents (p ∷ ps) = p.content ++ contents ps

abbrev pub current_content : Option Part → Bytes
current_content none = []
current_content (some p) = p.content

-- All bytes that the writer has put on disk.
abbrev pub stream : Writer → Bytes
stream w = contents w.closed ++ current_content w.current

abbrev pub AreFull : ℕ → List Part → Type 0
AreFull m [] = Unit
AreFull m (p ∷ ps) = (length p.content ≡ m) × AreFull m ps

abbrev pub CurrentFits : ℕ → ℕ → Option Part → Type 0
CurrentFits m written none = Unit
CurrentFits m written (some p) = (length p.content ≡ written) × (written < m)

-- The paths of parts, in order.
abbrev pub part_paths : List Part → List Bytes
part_paths [] = []
part_paths (p ∷ ps) = p.path ∷ part_paths ps

abbrev pub current_path : Option Part → List Bytes
current_path none = []
current_path (some p) = p.path ∷ []

-- The paths belong to numbers up to `n`.
abbrev pub AreNamed : (ℕ → Bytes) → ℕ → List Bytes → Type 0
AreNamed path_of n [] = Unit
AreNamed path_of n (p ∷ ps) = ((k : ℕ) × (k ≤ n) × (p ≡ path_of k)) × AreNamed path_of n ps

-- No two numbers have the same path.
abbrev pub AreDistinct : (ℕ → Bytes) → Type 0
AreDistinct path_of = (i j : ℕ) → path_of i ≡ path_of j → i ≡ j

-- The files on disk are those that Paths lists, at paths of numbers that were used. Every closed part
-- is full, and the open part is shorter and of the recorded length.
pub record IsWriting (path_of : ℕ → Bytes) (w : Writer) : Type 0 where
  pub size_positive : 0 < w.max_bytes
  pub closed_full : AreFull w.max_bytes w.closed
  pub current_fits : CurrentFits w.max_bytes w.written w.current
  pub listed : part_paths w.closed ++ current_path w.current ≡ w.paths
  pub named : AreNamed path_of w.seq w.paths

pub contents-append : (ps qs : List Part) → contents (ps ++ qs) ≡ contents ps ++ contents qs
contents-append [] qs = refl
contents-append (p ∷ ps) qs =
    ap (λ x. p.content ++ x) (contents-append ps qs) ∙ sym (append_assoc p.content _ _)

pub part_paths-append : (ps qs : List Part) → part_paths (ps ++ qs) ≡ part_paths ps ++ part_paths qs
part_paths-append [] qs = refl
part_paths-append (p ∷ ps) qs = ap (λ x. p.path ∷ x) (part_paths-append ps qs)

AreNamed-next :
    (path_of : ℕ → Bytes) (n : ℕ) (ps : List Bytes)
    → AreNamed path_of n ps
    → AreNamed path_of (n + 1) ps
AreNamed-next path_of n [] h = tt
AreNamed-next path_of n (p ∷ ps) ((k, le, e), h) =
    ((k, omega (arith, le), e), AreNamed-next path_of n ps h)

AreNamed-append :
    (path_of : ℕ → Bytes) (n : ℕ) (ps : List Bytes)
    → AreNamed path_of n ps
    → AreNamed path_of (n + 1) (ps ++ path_of (n + 1) ∷ [])
AreNamed-append path_of n [] h = ((n + 1, omega arith, refl), tt)
AreNamed-append path_of n (p ∷ ps) ((k, le, e), h) =
    ((k, omega (arith, le), e), AreNamed-append path_of n ps h)

-- A file is opened at a path where none stands.
without-next :
    (path_of : ℕ → Bytes) (n : ℕ) (ps : List Part)
    → AreDistinct path_of
    → AreNamed path_of n (part_paths ps)
    → without (path_of (n + 1)) ps ≡ ps
unfolding without
without-next path_of n [] distinct h = refl
without-next path_of n (p ∷ ps) distinct ((k, le, e), h) =
    elim (Bool-cases (text_eq p.path (path_of (n + 1)))) [
      | inl y ↦
          let same : k ≡ n + 1 =
            distinct k (n + 1) (sym e ∙ (text_eq_iff p.path (path_of (n + 1))).0 y) in
          absurd (omega (arith, le, same))
      | inr y ↦ rw (y, without) (ap (λ x. p ∷ x) (without-next path_of n ps distinct h))
    ]

AreFull-append :
    (m : ℕ) (ps : List Part) (p : Part)
    → AreFull m ps
    → length p.content ≡ m
    → AreFull m (ps ++ p ∷ [])
AreFull-append m [] p h e = (e, tt)
AreFull-append m (q ∷ ps) p h e = (h.0, AreFull-append m ps p h.1 e)

-- What one call has done: it has put the first `k` bytes of `p` behind what was there.
pub record Appends (path_of : ℕ → Bytes) (w : Writer) (p : Bytes) (w' : Writer) (k : ℕ)
    : Type 0 where
  pub writing : IsWriting path_of w'
  pub size_kept : w'.max_bytes ≡ w.max_bytes
  pub appended : stream w' ≡ stream w ++ take k p
  pub taken : k ≤ length p

module _ (disk : Disk) (name_func : ℕ → Bytes)
    (distinct : AreDistinct (part_path disk name_func)) where
  abbrev path_of : ℕ → Bytes
  path_of = part_path disk name_func

  -- Closing a full part keeps the stream.
  pub close_current_full :
      (w : Writer) (part : Part)
      → 0 < w.max_bytes
      → AreFull w.max_bytes w.closed
      → w.current ≡ some part
      → length part.content ≡ w.max_bytes
      → part_paths w.closed ++ part.path ∷ [] ≡ w.paths
      → AreNamed path_of w.seq w.paths
      → let w' = (close_current disk name_func w).0 in
        IsWriting path_of w' × (w'.max_bytes ≡ w.max_bytes) × (stream w' ≡ stream w)
  unfolding close_current
  close_current_full w part pos h e l listed named =
      rw (e, close_current)
        (
          record {
            size_positive = pos;
            closed_full = AreFull-append _ _ part h l;
            current_fits = tt;
            listed = append-nil _ ∙ part_paths-append w.closed (part ∷ []) ∙ listed;
            named = named;
          },
          refl,
          append-nil _
              ∙ contents-append w.closed (part ∷ [])
              ∙ ap (λ x. contents w.closed ++ x) (append-nil _),
        )

  write_part-Appends :
      (w : Writer) (part : Part) (p : Bytes)
      → IsWriting path_of w
      → w.current ≡ some part
      → let r = write_part disk name_func w part p in
        Appends path_of w p r.0 r.1 × (r.2 ≡ none → 0 < length p → 0 < r.1)
  unfolding write_part
  write_part-Appends w part p v e =
      let n = min (length p) (w.max_bytes - w.written) in
      let k = disk.accepts part.path w.written n in
      let part' : Part = record part { content = part.content ++ take k p } in
      let w' : Writer = record w {
        current = some part';
        written = w.written + k;
        file_write_calls = w.file_write_calls + 1;
        file_write_bytes = w.file_write_bytes + k;
      } in
      let le = disk.accepts-le part.path w.written n in
      let fits : (length part.content ≡ w.written) × (w.written < w.max_bytes) =
        rw e at v.current_fits in
      let listed : part_paths w.closed ++ part.path ∷ [] ≡ w.paths = rw e at v.listed in
      let size : length (part.content ++ take k p) ≡ w.written + k =
        omega (arith, length-append part.content (take k p), length-take k p) in
      let joined : stream w' ≡ stream w ++ take k p =
        rw e (sym (append_assoc (contents w.closed) part.content (take k p))) in
      elim (Bool-cases (ltb k n)) [
        | inl short ↦ rw short (
          record {
            writing = record {
              size_positive = v.size_positive;
              closed_full = v.closed_full;
              current_fits = (size, ground arith);
              listed = listed;
              named = v.named;
            };
            size_kept = refl;
            appended = joined;
            taken = omega arith;
          },
          λ x. cc,
        )
        | inr whole ↦ elim (Bool-cases (leb w.max_bytes (w.written + k))) [
          | inl full ↦
              let closed =
                close_current_full w' part' v.size_positive v.closed_full refl (ground arith) listed
                  v.named in
              rw (whole, full)
                (
                  record {
                    writing = closed.0;
                    size_kept = closed.1;
                    appended = closed.2 ∙ joined;
                    taken = omega arith;
                  },
                  λ _ h. ground arith,
                )
          | inr room ↦
              rw (whole, room)
                (
                  record {
                    writing = record {
                      size_positive = v.size_positive;
                      closed_full = v.closed_full;
                      current_fits = (size, ground arith);
                      listed = listed;
                      named = v.named;
                    };
                    size_kept = refl;
                    appended = joined;
                    taken = omega arith;
                  },
                  λ _ h. ground arith,
                )
        ]
      ]

  -- Opening a part, when none is open, changes no byte of the stream.
  open_next-IsWriting :
      (w : Writer)
      → IsWriting path_of w
      → w.current ≡ none
      → let r = open_next disk name_func w in
        IsWriting path_of r.0
        × (r.0.max_bytes ≡ w.max_bytes)
        × (stream r.0 ≡ stream w)
        × (r.1 ≡ none → (part : Part) × (r.0.current ≡ some part))
  unfolding open_next
  open_next-IsWriting w v e =
      let numbered : IsWriting path_of (record w { seq = w.seq + 1 }) = record {
        size_positive = v.size_positive;
        closed_full = v.closed_full;
        current_fits = v.current_fits;
        listed = v.listed;
        named = AreNamed-next path_of w.seq w.paths v.named;
      } in
      let all : part_paths w.closed ≡ w.paths = sym (append-nil _) ∙ rw e at v.listed in
      let kept : without (path_of (w.seq + 1)) w.closed ≡ w.closed =
        without-next path_of w.seq w.closed distinct
          (subst (λ x. AreNamed path_of w.seq x) (sym all) v.named) in
      elim (Bool-cases (disk.directory_ok (path_of (w.seq + 1)))) [
        | inr no_directory ↦ rw no_directory (numbered, refl, refl, λ x. cc)
        | inl directory ↦ elim (Bool-cases (disk.create_ok (path_of (w.seq + 1)))) [
          | inr not_created ↦ rw (directory, not_created) (numbered, refl, refl, λ x. cc)
          | inl created ↦
              rw (directory, created, kept)
                (
                  record {
                    size_positive = v.size_positive;
                    closed_full = v.closed_full;
                    current_fits = (refl, v.size_positive);
                    listed = ap (λ x. x ++ path_of (w.seq + 1) ∷ []) all;
                    named = AreNamed-append path_of w.seq w.paths v.named;
                  },
                  refl,
                  ap (λ x. contents w.closed ++ current_content x) (sym e),
                  λ x. (_, refl),
                )
        ]
      ]

  ensure_open-none :
      (w : Writer) → w.current ≡ none → ensure_open disk name_func w ≡ open_next disk name_func w
  unfolding ensure_open
  ensure_open-none w e = simp (e, ensure_open)

  ensure_open-some :
      (w : Writer) (part : Part) → w.current ≡ some part → ensure_open disk name_func w ≡ (w, none)
  unfolding ensure_open
  ensure_open-some w part e = simp (e, ensure_open)

  pub ensure_open-IsWriting :
      (w : Writer)
      → IsWriting path_of w
      → let r = ensure_open disk name_func w in
        IsWriting path_of r.0
        × (r.0.max_bytes ≡ w.max_bytes)
        × (stream r.0 ≡ stream w)
        × (r.1 ≡ none → (part : Part) × (r.0.current ≡ some part))
  ensure_open-IsWriting w v = elim (Option-cases w.current) [
    | inr (part, e) ↦ rw (ensure_open-some w part e) (v, refl, refl, λ _. (part, e))
    | inl e ↦ rw (ensure_open-none w e) (open_next-IsWriting w v e)
  ]

  pub write_round-failed :
      (w : Writer) (p : Bytes) (e : WriteError)
      → (ensure_open disk name_func w).1 ≡ some e
      → write_round disk name_func w p ≡ ((ensure_open disk name_func w).0, 0, some e)
  unfolding write_round
  write_round-failed w p e h = rw (h, write_round)

  pub write_round-opened :
      (w : Writer) (p : Bytes) (part : Part)
      → (ensure_open disk name_func w).1 ≡ none
      → (ensure_open disk name_func w).0.current ≡ some part
      → write_round disk name_func w p
        ≡ write_part disk name_func (ensure_open disk name_func w).0 part p
  unfolding write_round write_open
  write_round-opened w p part h k = rw (h, write_round) (rw (k, write_open))

  pub write_round-Appends :
      (w : Writer) (p : Bytes)
      → IsWriting path_of w
      → let r = write_round disk name_func w p in
        Appends path_of w p r.0 r.1 × (r.2 ≡ none → 0 < length p → 0 < r.1)
  write_round-Appends w p v =
      let (v', size, same, opens) = ensure_open-IsWriting w v in
      let w' = (ensure_open disk name_func w).0 in
      elim (Option-cases (ensure_open disk name_func w).1) [
        | inr (e, h) ↦ rw (write_round-failed w p e h) (
          record {
            writing = v';
            size_kept = size;
            appended = same ∙ sym (append-nil _);
            taken = omega arith;
          },
          λ x. cc,
        )
        | inl h ↦
            let (part, k) = opens h in
            let (a, progress) = write_part-Appends w' part p v' k in
            rw (write_round-opened w p part h k) (
              record {
                writing = a.writing;
                size_kept = a.size_kept ∙ size;
                appended =
                    a.appended ∙ ap (λ x. x ++ take (write_part disk name_func w' part p).1 p) same;
                taken = a.taken;
              },
              progress,
            )
      ]
