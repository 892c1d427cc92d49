-- ===== src/Container/Split/Count.antt =====
-- split.go: the parts that a stream takes, and their number in the trailer of set.go.
use restore_safe.Container.Split.Defs.{
  Disk, Part, WriteError, Writer, close, close_current, new_writer, part_path, write,
}
use native.Mathlib.Nat.{div-eq_of_lt-le}
use restore_safe.Container.Set.{part_count}
use restore_safe.Container.Set.Parts.{part_count-parts_needed, parts_needed}
use restore_safe.Container.Split.Invariant.{
  AreDistinct, AreFull, IsWriting, contents, contents-append, part_paths, part_paths-append, stream,
}
use restore_safe.Container.Split.Loop.{write-Appends, write-all}
use restore_safe.Container.Split.Nonempty.{CurrentNonempty, write-nonempty}
use restore_safe.Base.{
  Bytes, List, Option, Option-cases, [], ap, append-nil, append_assoc, arith, inl, inr, length,
  length-append, none, refl, some, subst, sym, take-length, ℕ, ◌*◌, ◌++◌, ◌+◌, ◌-◌, ◌/◌, ◌<◌, ◌^◌,
  ◌∙◌, ◌∷◌, ◌≡◌, ◌≤◌,
}

abbrev pub concat : List Bytes → Bytes
concat [] = []
concat (p ∷ ps) = p ++ concat ps

-- No part is longer than the part size.
abbrev pub AreWithin : ℕ → List Part → Type 0
AreWithin m [] = Unit
AreWithin m (p ∷ ps) = (length p.content ≤ m) × AreWithin m ps

AreWithin-append :
    (m : ℕ) (ps : List Part) (p : Part)
    → AreFull m ps
    → length p.content ≤ m
    → AreWithin m (ps ++ p ∷ [])
AreWithin-append m [] p h e = (e, tt)
AreWithin-append m (q ∷ ps) p h e = (omega (arith, h.0), AreWithin-append m ps p h.1 e)

AreFull-AreWithin : (m : ℕ) (ps : List Part) → AreFull m ps → AreWithin m ps
AreFull-AreWithin m [] h = tt
AreFull-AreWithin m (p ∷ ps) h = (omega (arith, h.0), AreFull-AreWithin m ps h.1)

length-contents : (m : ℕ) (ps : List Part) → AreFull m ps → length (contents ps) ≡ length ps * m
length-contents m [] h = omega arith
length-contents m (p ∷ ps) h =
    omega (arith, length-append p.content (contents ps), length-contents m ps h.1, h.0)

parts_needed_exact : (c m : ℕ) → 0 < m → parts_needed (c * m) m ≡ c
unfolding parts_needed
parts_needed_exact c m h =
    let e : (c * m + m - 1) / m ≡ c = div-eq_of_lt-le {k = c} m (omega arith) (omega arith) in
    ground arith

parts_needed_partial : (c r m : ℕ) → 0 < r → r < m → parts_needed (c * m + r) m ≡ c + 1
unfolding parts_needed
parts_needed_partial c r m h k =
    let e : (c * m + r + m - 1) / m ≡ c + 1 =
      div-eq_of_lt-le {k = c + 1} m (omega arith) (omega arith) in
    ground arith

-- The files of a set that was written and closed, and their paths in order.
pub record Parted (m : ℕ) (content : Bytes) (parts : List Part) (paths : List Bytes) : Type 0 where
  pub joined : contents parts ≡ content
  pub listed : part_paths parts ≡ paths
  pub within : AreWithin m parts
  pub counted : length parts ≡ part_count (length content) m

module _ (disk : Disk) (name_func : ℕ → Bytes) where
  -- A sequence of calls of Write, up to the first error.
  unfoldable pub write_all : Writer → List Bytes → Writer × Option WriteError
  write_all w [] = (w, none)
  write_all w (p ∷ ps) =
      let (w', _, failure) = write disk name_func w p in
      elim failure [ some e ↦ (w', some e) | none ↦ write_all w' ps ]

module _ (disk : Disk) (name_func : ℕ → Bytes)
    (distinct : AreDistinct (part_path disk name_func)) where
  close-Parted :
      (w : Writer)
      → IsWriting (part_path disk name_func) w
      → CurrentNonempty w
      → length (stream w) + w.max_bytes ≤ 2 ^ 63
      → let w' = (close disk name_func w).0 in Parted w.max_bytes (stream w) w'.closed w'.paths
  unfolding close_current
  close-Parted w v h sizes = elim (Option-cases w.current) [
    | inl e ↦
        let total : length (contents w.closed ++ []) ≡ length w.closed * w.max_bytes = omega (
          arith,
          length-append (contents w.closed) [],
          length-contents w.max_bytes w.closed v.closed_full,
        ) in
        rw (e, close_current)
          (record {
            joined = sym (append-nil _);
            listed = sym (append-nil _) ∙ rw e at v.listed;
            within = AreFull-AreWithin w.max_bytes w.closed v.closed_full;
            counted = sym (
                part_count-parts_needed (length (contents w.closed ++ [])) w.max_bytes
                  (rw e at sizes)
                ∙ ap (λ t. parts_needed t w.max_bytes) total
                ∙ parts_needed_exact _ w.max_bytes v.size_positive);
          })
    | inr (part, e) ↦
        let fits : (length part.content ≡ w.written) × (w.written < w.max_bytes) =
          rw e at v.current_fits in
        let total : length (contents w.closed ++ part.content)
            ≡ length w.closed * w.max_bytes + w.written =
          omega (
            arith,
            length-append (contents w.closed) part.content,
            length-contents w.max_bytes w.closed v.closed_full,
            fits,
          ) in
        let nonempty : 0 < w.written = ground arith in
        rw (e, close_current)
          (record {
            joined =
                contents-append w.closed (part ∷ [])
                ∙ ap (λ x. contents w.closed ++ x) (append-nil _);
            listed = part_paths-append w.closed (part ∷ []) ∙ rw e at v.listed;
            within = AreWithin-append w.max_bytes w.closed part v.closed_full (omega arith);
            counted =
                length-append w.closed (part ∷ [])
                ∙ sym (
                    part_count-parts_needed (length (contents w.closed ++ part.content)) w.max_bytes
                      (rw e at sizes)
                    ∙ ap (λ t. parts_needed t w.max_bytes) total
                    ∙ parts_needed_partial (length w.closed) w.written w.max_bytes nonempty fits.1);
          })
  ]

  write_all_lem :
      (w : Writer) (ps : List Bytes)
      → IsWriting (part_path disk name_func) w
      → CurrentNonempty w
      → (write_all disk name_func w ps).1 ≡ none
      → let w' = (write_all disk name_func w ps).0 in
        IsWriting (part_path disk name_func) w'
        × CurrentNonempty w'
        × (w'.max_bytes ≡ w.max_bytes)
        × (stream w' ≡ stream w ++ concat ps)
  unfolding write_all
  write_all_lem w [] v h s = (v, h, refl, sym (append-nil _))
  write_all_lem w (p ∷ ps) v h s =
      let (w', k, failure) = write disk name_func w p in
      let (a, _) = write-Appends disk name_func distinct w p v in
      let all = write-all disk name_func distinct w p v in
      elim (Option-cases failure) [
        | inr (e, q) ↦ absurd (cc (rw (q, write_all) at s))
        | inl q ↦
            let (v', h', size, joined) =
              write_all_lem w' ps a.writing (write-nonempty disk name_func distinct w p v h q)
                (rw (q, write_all) at s) in
            let grown : stream w' ≡ stream w ++ p =
              a.appended
              ∙ ap (λ x. stream w ++ x) (rw (all q) (take-length (length p) p (omega arith))) in
            rw (q, write_all)
              (
                v',
                h',
                size ∙ a.size_kept,
                joined ∙ ap (λ x. x ++ concat ps) grown ∙ append_assoc (stream w) p (concat ps),
              )
      ]

  -- A new writer with a positive part size `m` takes any calls of Write, all without an error, and is
  -- closed, no two numbers have the same path, and `m` and the number of bytes add up without leaving
  -- the int64s. Then the files that stand on disk are those at the paths of Paths, their contents, in
  -- that order one behind the other, are the bytes written, none is longer than `m`, and there are as
  -- many as container.Write records for so many bytes.
  pub write_all-close :
      (m : ℕ) (ps : List Bytes)
      → 0 < m
      → length (concat ps) + m ≤ 2 ^ 63
      → (write_all disk name_func (new_writer m) ps).1 ≡ none
      → let w = (close disk name_func (write_all disk name_func (new_writer m) ps).0).0 in
        Parted m (concat ps) w.closed w.paths
  unfolding new_writer
  write_all-close m ps pos sizes s =
      let fresh : IsWriting (part_path disk name_func) (new_writer m) = record {
        size_positive = pos;
        closed_full = tt;
        current_fits = tt;
        listed = refl;
        named = tt;
      } in
      let (v, h, size, joined) = write_all_lem (new_writer m) ps fresh (inl refl) s in
      let last = (write_all disk name_func (new_writer m) ps).0 in
      let closed = (close disk name_func last).0 in
      let room : length (stream last) + last.max_bytes ≤ 2 ^ 63 =
        omega (arith, ap length joined, size, sizes) in
      subst (λ x. Parted m x closed.closed closed.paths) joined
        (subst (λ x. Parted x (stream last) closed.closed closed.paths) size
          (close-Parted last v h room))
