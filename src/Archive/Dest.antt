-- ===== src/Archive/Dest.antt =====
-- The destination of a restore, which the operating system changes; it may refuse any call. What
-- winfile.go asks of Windows is setTimes, setAttributes and checkNotReparsePoint.
use restore_safe.Base.{
  Bool, Bytes, List, Option, [], false, if◌then◌else◌, none, some, suc, text_eq, true, zero, ℕ, ◌%◌,
  ◌==◌, ◌||◌, ◌∷◌,
}

-- The directories and files made so far, the last one first, and the metadata set.
pub record Dest : Type 0 where
  pub dirs : List Bytes
  pub files : List (Bytes × Bytes)
  -- Path, creation time and last-write time, where they were set.
  pub times : List (Bytes × (Option ℕ × Option ℕ))
  pub attributes : List (Bytes × ℕ)

-- The functions of the packages path/filepath and os, and of Windows. `accepts d path` is how many
-- bytes can be written to a new file.
pub record Volume : Type 0 where
  -- filepath.Join of a directory and filepath.FromSlash of a path
  pub join_slash : Bytes → Bytes → Bytes
  -- filepath.Clean and filepath.Dir
  pub clean : Bytes → Bytes
  pub dir_of : Bytes → Bytes
  pub not_reparse : Dest → Bytes → Bool
  pub mkdir_ok : Dest → Bytes → Bool
  pub create_ok : Dest → Bytes → Bool
  pub accepts : Dest → Bytes → ℕ
  pub close_ok : Dest → Bytes → Bool
  pub times_ok : Dest → Bytes → Bool
  pub attributes_ok : Dest → Bytes → Bool

unfoldable pub has_path : Bytes → List Bytes → Bool
has_path p [] = false
has_path p (q ∷ qs) = text_eq q p || has_path p qs

abbrev pub file_paths : List (Bytes × Bytes) → List Bytes
file_paths [] = []
file_paths ((p, c) ∷ fs) = p ∷ file_paths fs

-- Whether something stands at a path: os.Mkdir and os.OpenFile with O_EXCL fail there.
unfoldable pub is_taken : Dest → Bytes → Bool
unfolding has_path
is_taken d p = has_path p d.dirs || has_path p (file_paths d.files)

abbrev unless_zero : ℕ → Option ℕ
unless_zero zero = none
unless_zero (suc n) = some (suc n)

-- setTimes: whether it succeeds, and the destination then.
unfoldable pub set_times : Volume → Dest → Bytes → ℕ → ℕ → Bool × Dest
set_times vol d p creation mod_time =
    if vol.times_ok d p
    then (true, record d { times = (p, (unless_zero creation, unless_zero mod_time)) ∷ d.times })
    else (false, d)

-- setAttributes, where the bits of manifest.AttrMask are the three lowest.
unfoldable pub set_attributes : Volume → Dest → Bytes → ℕ → Bool × Dest
set_attributes vol d p attrs =
    if attrs % 8 == 0
    then (true, d)
    else if vol.attributes_ok d p
    then (true, record d { attributes = (p, attrs % 8) ∷ d.attributes })
    else (false, d)
