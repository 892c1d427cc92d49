-- ===== src/Container/Split/Defs.antt =====
-- split.go: Writer with NewWriter, Write, Close, openNext and closeCurrent. The part files are kept
-- in the order in which they were opened, with their content. There is one file for each path, and
-- opening it again takes its content away.
use restore_safe.Base.{
  Bool, Bytes, List, Option, [], drop, false, if◌then◌else◌, leb, length, ltb, none, not, some, suc,
  take, text_eq, true, zero, ℕ, ◌&&◌, ◌++◌, ◌+◌, ◌-◌, ◌==◌, ◌||◌, ◌∷◌, ◌≤◌,
}
use Prim.Native.Nat.{min}

pub record Part : Type 0 where
  pub path : Bytes
  pub content : Bytes

pub data WriteError : Type 0 where
  invalid_part_size create_directory_failed create_part_failed write_failed out_of_fuel : WriteError
  -- Whether Sync failed, and whether Close failed.
  finalize_failed : Bool → Bool → WriteError

-- filepath.Clean, and what the operating system does with the part files. `accepts path at n` is how
-- many of the `n` bytes given to File.Write at offset `at` are written; File.Write fails exactly if it
-- is less than n.
pub record Disk : Type 0 where
  pub clean : Bytes → Bytes
  pub directory_ok : Bytes → Bool
  pub create_ok : Bytes → Bool
  pub accepts : Bytes → ℕ → ℕ → ℕ
  pub accepts-le : (path : Bytes) (offset n : ℕ) → accepts path offset n ≤ n
  pub sync_ok : Bytes → Bool
  pub close_ok : Bytes → Bool

-- Sizes are not negative; the part size 0 stands for every size that `maxBytes <= 0` refuses.
pub record Writer : Type 0 where
  pub max_bytes : ℕ
  pub seq : ℕ
  pub written : ℕ
  pub current : Option Part
  -- The part files that were closed, as they stand on disk.
  pub closed : List Part
  pub paths : List Bytes
  -- The calls made of the hook, where there is one.
  pub has_hook : Bool
  pub hook_calls : List (ℕ × Bytes)
  pub sync_on_close : Bool
  pub file_write_calls : ℕ
  pub file_write_bytes : ℕ
  pub parts_opened : ℕ
  pub parts_closed : ℕ

unfoldable pub new_writer : ℕ → Writer
new_writer max_bytes = record {
  max_bytes = max_bytes;
  seq = 0;
  written = 0;
  current = none;
  closed = [];
  paths = [];
  has_hook = false;
  hook_calls = [];
  sync_on_close = true;
  file_write_calls = 0;
  file_write_bytes = 0;
  parts_opened = 0;
  parts_closed = 0;
}

abbrev pub set_part_opened_hook : Writer → Writer
set_part_opened_hook w = record w { has_hook = true }

abbrev pub set_sync_on_close : Writer → Bool → Writer
set_sync_on_close w enabled = record w { sync_on_close = enabled }

-- The files but the one at a path.
unfoldable pub without : Bytes → List Part → List Part
without path [] = []
without path (p ∷ ps) = let rest = without path ps in if text_eq p.path path then rest else p ∷ rest

module _ (disk : Disk) (name_func : ℕ → Bytes) where
  open disk use {clean, directory_ok, create_ok, accepts, sync_ok, close_ok}

  -- `filepath.Clean(s.nameFunc(seq))`.
  abbrev pub part_path : ℕ → Bytes
  part_path seq = clean (name_func seq)

  -- MkdirAll of the path's directory, and OpenFile with O_CREATE and O_TRUNC: a file that stands at the
  -- path is the one that is opened, and is empty.
  unfoldable pub open_next : Writer → Writer × Option WriteError
  unfolding without
  open_next w =
      let seq' = w.seq + 1 in
      let path = part_path seq' in
      let numbered = record w { seq = seq' } in
      if not (directory_ok path)
      then (numbered, some create_directory_failed)
      else if not (create_ok path)
      then (numbered, some create_part_failed)
      else (
        record numbered {
          current = some (record { path = path; content = [] });
          closed = without path w.closed;
          written = 0;
          paths = w.paths ++ path ∷ [];
          parts_opened = w.parts_opened + 1;
          hook_calls = if w.has_hook then w.hook_calls ++ (seq', path) ∷ [] else w.hook_calls;
        },
        none,
      )

  unfoldable pub close_current : Writer → Writer × Option WriteError
  close_current w = elim w.current [
    | none ↦ (w, none)
    | some part ↦
        let sync_failed = w.sync_on_close && not (sync_ok part.path) in
        let close_failed = not (close_ok part.path) in
        (
          record w {
            current = none;
            closed = w.closed ++ part ∷ [];
            parts_closed = w.parts_closed + 1;
          },
          if sync_failed || close_failed
              then some (finalize_failed sync_failed close_failed)
              else none,
        )
  ]

  -- The part of a round of Write that writes to the open part: how many bytes it took.
  unfoldable pub write_part : Writer → Part → Bytes → Writer × ℕ × Option WriteError
  write_part w part p =
      let n = min (length p) (w.max_bytes - w.written) in
      let k = accepts part.path w.written n in
      let w' = record w {
        current = some (record part { content = part.content ++ take k p });
        written = w.written + k;
        file_write_calls = w.file_write_calls + 1;
        file_write_bytes = w.file_write_bytes + k;
      } in
      if ltb k n
      then (w', k, some write_failed)
      else if leb w'.max_bytes w'.written
      then (let (w'', e) = close_current w' in (w'', k, e))
      else (w', k, none)

  -- `if s.current == nil { s.openNext() }`.
  unfoldable pub ensure_open : Writer → Writer × Option WriteError
  ensure_open w = elim w.current [ some _ ↦ (w, none) | none ↦ open_next w ]

  -- The rest of the round, with a part open (`open_next` leaves one open where it succeeds).
  unfoldable pub write_open : Writer → Bytes → Writer × ℕ × Option WriteError
  write_open w p = elim w.current [ none ↦ (w, 0, none) | some part ↦ write_part w part p ]

  unfoldable pub write_round : Writer → Bytes → Writer × ℕ × Option WriteError
  write_round w p =
      let (w', failure) = ensure_open w in
      elim failure [ some e ↦ (w', 0, some e) | none ↦ write_open w' p ]

  -- The loop of Write; `total` counts the bytes written.
  unfoldable pub write_rounds : ℕ → Writer → Bytes → ℕ → Writer × ℕ × Option WriteError
  write_rounds zero w p total = (w, total, some out_of_fuel)
  write_rounds (suc fuel) w [] total = (w, total, none)
  write_rounds (suc fuel) w (b ∷ bs) total =
      let (w', k, failure) = write_round w (b ∷ bs) in
      elim failure [
        | some e ↦ (w', total + k, some e)
        | none ↦ write_rounds fuel w' (drop k (b ∷ bs)) (total + k)
      ]

  -- Write. A round that goes on has taken a byte at least.
  unfoldable pub write : Writer → Bytes → Writer × ℕ × Option WriteError
  unfolding write_rounds write_round ensure_open write_open write_part open_next close_current
  write w p =
      if w.max_bytes == 0
      then (w, 0, some invalid_part_size)
      else write_rounds (suc (length p)) w p 0

  abbrev pub close : Writer → Writer × Option WriteError
  close w = close_current w
