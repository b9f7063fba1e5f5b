-- ===== src/Playlist/Paths.antt =====
-- The file references of internal/playlist/playlist.go, over the code points of a text. `split` and
-- `join` are strings.Split and its inverse for one separator, and `clean` is path.Clean for a path
-- that does not start with the separator.
use portapixel.Prelude.{
  ℕ, Bool, false, not, ◌&&◌, ◌||◌, Option, none, some, List, [], ◌∷◌, ◌++◌, ◌==◌, is_empty,
  if◌then◌else◌, Bytes, bytes, bytes_eq,
}
use mathlib.Core.List.{reverse}

abbrev pub slash : ℕ
slash = b'/'

-- One more character in front of the first part.
abbrev pub onto_part : ℕ → List Bytes → List Bytes
onto_part c [] = (c ∷ []) ∷ []
onto_part c (part ∷ parts) = (c ∷ part) ∷ parts

unfoldable pub split : Bytes → List Bytes
split [] = [] ∷ []
split (c ∷ cs) = let rest = split cs in if c == slash then [] ∷ rest else onto_part c rest

unfoldable pub join : List Bytes → Bytes
join [] = []
join (part ∷ []) = part
join (part ∷ other ∷ parts) = part ++ slash ∷ join (other ∷ parts)

abbrev pub dot : Bytes
dot = b'.' ∷ []

abbrev pub dotdot : Bytes
dotdot = b'.' ∷ b'.' ∷ []

-- A step up takes the last part away, unless that is a step up itself or there is none.
abbrev pub step_up : List Bytes → List Bytes
step_up [] = dotdot ∷ []
step_up (last ∷ before) = if bytes_eq last dotdot then dotdot ∷ last ∷ before else before

-- One part onto those before it, the last one first.
unfoldable pub clean_part : List Bytes → Bytes → List Bytes
clean_part stack part =
    if is_empty part || bytes_eq part dot
    then stack
    else if bytes_eq part dotdot
    then step_up stack
    else part ∷ stack

unfoldable pub clean_onto : List Bytes → List Bytes → List Bytes
clean_onto stack [] = stack
clean_onto stack (part ∷ parts) = clean_onto (clean_part stack part) parts

abbrev pub or_dot : List Bytes → Bytes
or_dot [] = dot
or_dot (part ∷ parts) = join (reverse (part ∷ parts))

unfoldable pub clean : Bytes → Bytes
clean file = or_dot (clean_onto [] (split file))

unfoldable pub has_char : ℕ → Bytes → Bool
has_char c [] = false
has_char c (x ∷ xs) = x == c || has_char c xs

abbrev pub starts_with_slash : Bytes → Bool
starts_with_slash [] = false
starts_with_slash (c ∷ cs) = c == slash

unfoldable pub has_part : Bytes → List Bytes → Bool
has_part part [] = false
has_part part (p ∷ parts) = bytes_eq p part || has_part part parts

unfoldable pub has_parent_step : Bytes → Bool
has_parent_step file = has_part dotdot (split file)

abbrev pub fleet_ref_prefix : Bytes
fleet_ref_prefix = bytes "../media/"

abbrev pub fleet_ref : Bytes → Bytes
fleet_ref object_name = fleet_ref_prefix ++ object_name

abbrev pub fleet_parts : List Bytes → Bool
fleet_parts (up ∷ store ∷ name ∷ []) =
    bytes_eq (up ++ slash ∷ (store ++ slash ∷ [])) fleet_ref_prefix
    && not (is_empty name)
    && not (bytes_eq name dotdot)
fleet_parts parts = false

unfoldable pub is_fleet_ref : Bytes → Bool
is_fleet_ref file = fleet_parts (split file)

pub data PathError : Type 0 where
  wrong_slash not_relative not_clean goes_outside : PathError

-- `badFilePath`
unfoldable pub bad_file_path : Bool → Bytes → Option PathError
bad_file_path allow_fleet_refs file =
    if has_char b'\\' file
    then some wrong_slash
    else if starts_with_slash file || has_char b':' file
    then some not_relative
    else if not (bytes_eq (clean file) file)
    then some not_clean
    else if has_parent_step file
    then (if allow_fleet_refs && is_fleet_ref file then none else some goes_outside)
    else none
