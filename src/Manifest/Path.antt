-- ===== src/Manifest/Path.antt =====
-- manifest.go: ValidatePath, with what it uses of the packages path and strings.
use restore_safe.Base.{
  Bool, Bytes, List, Option, [], false, if◌then◌else◌, length, ltb, none, not, some, text_eq, ℕ,
  ◌++◌, ◌==◌, ◌||◌, ◌∷◌,
}
use restore_safe.Text.{contains_any}
use restore_safe.Naming.Validate.{is_one_of}

-- strings.Split on a byte; the text before the first one is `cur`.
unfoldable pub split_on : ℕ → Bytes → Bytes → List Bytes
split_on sep cur [] = cur ∷ []
split_on sep cur (c ∷ cs) =
    let here = split_on sep (cur ++ c ∷ []) cs in
    let after = split_on sep [] cs in if c == sep then cur ∷ after else here

abbrev pub dot : Bytes
dot = b'.' ∷ []

abbrev pub dot_dot : Bytes
dot_dot = b'.' ∷ b'.' ∷ []

-- path.Clean on the segments: `kept` are those that stay, the last one first.
unfoldable pub clean_segments : Bool → List Bytes → List Bytes → List Bytes
clean_segments rooted kept [] = kept
clean_segments rooted kept (seg ∷ segs) =
    let skip = clean_segments rooted kept segs in
    let push = clean_segments rooted (seg ∷ kept) segs in
    if length seg == 0 || text_eq seg dot
    then skip
    else if not (text_eq seg dot_dot)
    then push
    else elim kept [
      | [] ↦ if rooted then skip else push
      | k ∷ ks ↦ if text_eq k dot_dot then push else clean_segments rooted ks segs
    ]

-- strings.Join with slashes of the segments, the last one first, in front of `behind`.
unfoldable pub join_back : List Bytes → Bytes → Bytes
join_back [] behind = behind
join_back (k ∷ []) behind = k ++ behind
join_back (k ∷ l ∷ ks) behind = join_back (l ∷ ks) (b'/' ∷ (k ++ behind))

unfoldable pub is_rooted : Bytes → Bool
is_rooted [] = false
is_rooted (c ∷ cs) = c == b'/'

-- path.Clean
unfoldable pub path_clean : Bytes → Bytes
unfolding is_rooted clean_segments join_back split_on
path_clean p =
    let rooted = is_rooted p in
    let body = join_back (clean_segments rooted [] (split_on b'/' [] p)) [] in
    if rooted then b'/' ∷ body else if length body == 0 then dot else body

-- The text up to the last slash, that one included; `dir` is what was passed up to it.
unfoldable pub through_slash : Bytes → Bytes → Bytes → Bytes
through_slash dir cur [] = dir
through_slash dir cur (c ∷ cs) =
    let next = cur ++ c ∷ [] in
    let at_slash = through_slash next next cs in
    let later = through_slash dir next cs in if c == b'/' then at_slash else later

-- path.Dir
unfoldable pub path_dir : Bytes → Bytes
unfolding path_clean through_slash
path_dir p = path_clean (through_slash [] [] p)

-- The characters that unicode.IsSpace accepts, in UTF-8.
abbrev pub spaces : List Bytes
spaces =
    (9 ∷ [])
    ∷ (10 ∷ [])
    ∷ (11 ∷ [])
    ∷ (12 ∷ [])
    ∷ (13 ∷ [])
    ∷ (32 ∷ [])
    ∷ (194 ∷ 133 ∷ [])
    ∷ (194 ∷ 160 ∷ [])
    ∷ (225 ∷ 154 ∷ 128 ∷ [])
    ∷ (226 ∷ 128 ∷ 128 ∷ [])
    ∷ (226 ∷ 128 ∷ 129 ∷ [])
    ∷ (226 ∷ 128 ∷ 130 ∷ [])
    ∷ (226 ∷ 128 ∷ 131 ∷ [])
    ∷ (226 ∷ 128 ∷ 132 ∷ [])
    ∷ (226 ∷ 128 ∷ 133 ∷ [])
    ∷ (226 ∷ 128 ∷ 134 ∷ [])
    ∷ (226 ∷ 128 ∷ 135 ∷ [])
    ∷ (226 ∷ 128 ∷ 136 ∷ [])
    ∷ (226 ∷ 128 ∷ 137 ∷ [])
    ∷ (226 ∷ 128 ∷ 138 ∷ [])
    ∷ (226 ∷ 128 ∷ 168 ∷ [])
    ∷ (226 ∷ 128 ∷ 169 ∷ [])
    ∷ (226 ∷ 128 ∷ 175 ∷ [])
    ∷ (226 ∷ 129 ∷ 159 ∷ [])
    ∷ (227 ∷ 128 ∷ 128 ∷ [])
    ∷ []

-- strings.TrimSpace(s) == "": `cur` is the start of a character.
unfoldable pub is_blank_from : Bytes → Bytes → Bool
unfolding is_one_of
is_blank_from cur [] = length cur == 0
is_blank_from cur (c ∷ cs) =
    let next = cur ++ c ∷ [] in
    let done = is_blank_from [] cs in
    let more = is_blank_from next cs in
    if is_one_of next spaces then done else if ltb (length next) 3 then more else false

pub data PathError : Type 0 where
  empty_path forbidden_character absolute_path not_clean traversal : PathError

-- ValidatePath
unfoldable pub validate_path : Bytes → Option PathError
unfolding is_blank_from contains_any is_rooted path_clean is_one_of split_on
validate_path p =
    if is_blank_from [] p
    then some empty_path
    else if contains_any p (b'\\' ∷ b':' ∷ 0 ∷ [])
    then some forbidden_character
    else if is_rooted p
    then some absolute_path
    else if not (text_eq (path_clean p) p)
    then some not_clean
    else if is_one_of dot (split_on b'/' [] p) || is_one_of dot_dot (split_on b'/' [] p)
    then some traversal
    else none
