-- ===== src/Updater/Version.antt =====
-- internal/updater/version.go and internal/version/version.go: the names of releases. A name is the
-- code points of a valid UTF-8 text: their order is that of the bytes, and every test of the code on
-- a byte is one on an ASCII character. A result below zero is `lt`, zero `eq`, above zero `gt`.
pub mod Order
pub mod Newer
pub mod Names
mod Tests
use portapixel.Prelude.{
  ℕ, zero, suc, ◌+◌, ◌-◌, ◌*◌, ◌^◌, Bool, true, false, not, ◌&&◌, ◌||◌, Option, none, some, List,
  [], ◌∷◌, ltb, leb, ◌==◌, length, is_empty, is_digit, Bytes, bytes_eq, if◌then◌else◌,
}
use Prim.Native.Nat.{compare, Ordering}
use portapixel.Manifest.Name.{trim_space}

-- The first comparison that is not `eq`.
abbrev pub and_then : Ordering → Ordering → Ordering
and_then Ordering.lt o = Ordering.lt
and_then Ordering.eq o = o
and_then Ordering.gt o = Ordering.gt

-- The order of the first items that differ; of two lists with none, the shorter is less.
module _ {ℓ} {A : Type ℓ} where
  compare_lists : (A → A → Ordering) → List A → List A → Ordering
  compare_lists order [] [] = Ordering.eq
  compare_lists order [] (y ∷ ys) = Ordering.lt
  compare_lists order (x ∷ xs) [] = Ordering.gt
  compare_lists order (x ∷ xs) (y ∷ ys) = and_then (order x y) (compare_lists order xs ys)

-- strings.Compare
pub compare_text : Bytes → Bytes → Ordering
compare_text a b = compare_lists compare a b

-- strings.TrimPrefix with a text of one character.
abbrev pub trim_prefix : ℕ → Bytes → Bytes
trim_prefix p [] = []
trim_prefix p (c ∷ cs) = if c == p then cs else c ∷ cs

-- strings.Split at the full stops.
abbrev pub onto_first : ℕ → List Bytes → List Bytes
onto_first c [] = (c ∷ []) ∷ []
onto_first c (field ∷ fields) = (c ∷ field) ∷ fields

unfoldable pub split_dots : Bytes → List Bytes
split_dots [] = [] ∷ []
split_dots (c ∷ cs) = let rest = split_dots cs in if c == b'.' then [] ∷ rest else onto_first c rest

-- The number that decimal digits write, in front of which `n` was read.
unfoldable pub decimal_onto : ℕ → Bytes → Option ℕ
decimal_onto n [] = some n
decimal_onto n (c ∷ cs) =
    let rest = decimal_onto (n * 10 + (c - b'0')) cs in if is_digit c then rest else none

abbrev pub below : ℕ → Option ℕ → Option ℕ
below limit none = none
below limit (some n) = if ltb n limit then some n else none

-- strconv.ParseUint with 64 bits and, with `2 ^ 63`, strconv.Atoi of a text with no sign.
unfoldable pub parse_number : ℕ → Bytes → Option ℕ
parse_number limit [] = none
parse_number limit (c ∷ cs) = below limit (decimal_onto 0 (c ∷ cs))

compare_as : Option ℕ → Option ℕ → Ordering → Ordering
compare_as (some x) (some y) words = compare x y
compare_as (some x) none words = Ordering.lt
compare_as none (some y) words = Ordering.gt
compare_as none none words = words

pub compare_identifier : Bytes → Bytes → Ordering
unfolding compare_as
compare_identifier a b =
    compare_as (parse_number (2 ^ 64) a) (parse_number (2 ^ 64) b) (compare_text a b)

pub compare_prerelease : Bytes → Bytes → Ordering
compare_prerelease a b =
    compare_lists compare_identifier (split_dots (trim_prefix b'-' a))
      (split_dots (trim_prefix b'-' b))

-- `text[:end]` and `text[end:]`: the digits and full stops in front, and the rest.
unfoldable pub split_numbers : Bytes → Bytes × Bytes
split_numbers [] = ([], [])
split_numbers (c ∷ cs) =
    let (front, rest) = split_numbers cs in
    if is_digit c || c == b'.' then (c ∷ front, rest) else ([], c ∷ cs)

onto_numbers : Option ℕ → Option (List ℕ) → Option (List ℕ)
onto_numbers (some n) (some ns) = some (n ∷ ns)
onto_numbers (some n) none = none
onto_numbers none ns = none

-- The loop over the fields.
unfoldable pub parse_fields : List Bytes → Option (List ℕ)
unfolding onto_numbers
parse_fields [] = some []
parse_fields (field ∷ fields) =
    let rest = parse_fields fields in
    if is_empty field then rest else onto_numbers (parse_number (2 ^ 63) field) rest

with_rest : Option (List ℕ) → Bytes → Option (List ℕ × Bytes)
with_rest none rest = none
with_rest (some []) rest = none
with_rest (some (n ∷ ns)) rest = some (n ∷ ns, rest)

unfoldable pub starts_with_digit : Bytes → Bool
starts_with_digit [] = false
starts_with_digit (c ∷ cs) = is_digit c

parse_text : Bytes → Option (List ℕ × Bytes)
unfolding with_rest
parse_text text =
    let (front, rest) = split_numbers text in
    if starts_with_digit text then with_rest (parse_fields (split_dots front)) rest else none

unfoldable pub parse_version : Bytes → Option (List ℕ × Bytes)
unfolding parse_text
parse_version name = parse_text (trim_prefix b'v' (trim_space name))

-- The loop over the numbers: a number that is not there is 0.
pub compare_numbers : List ℕ → List ℕ → Ordering
compare_numbers [] [] = Ordering.eq
compare_numbers [] (y ∷ ys) = and_then (compare 0 y) (compare_numbers [] ys)
compare_numbers (x ∷ xs) [] = and_then (compare x 0) (compare_numbers xs [])
compare_numbers (x ∷ xs) (y ∷ ys) = and_then (compare x y) (compare_numbers xs ys)

compare_rests : Bytes → Bytes → Ordering
compare_rests a b =
    if bytes_eq a b
    then Ordering.eq
    else if is_empty a
    then Ordering.gt
    else if is_empty b
    then Ordering.lt
    else compare_prerelease a b

compare_parsed : Option (List ℕ × Bytes) → Option (List ℕ × Bytes) → Ordering → Ordering
unfolding compare_numbers compare_rests
compare_parsed none none texts = texts
compare_parsed none (some y) texts = Ordering.lt
compare_parsed (some x) none texts = Ordering.gt
compare_parsed (some (xs, a)) (some (ys, b)) texts =
    and_then (compare_numbers xs ys) (compare_rests a b)

pub compare_versions : Bytes → Bytes → Ordering
unfolding compare_parsed
compare_versions a b = compare_parsed (parse_version a) (parse_version b) (compare_text a b)

trim_letter : Bytes → Bytes
trim_letter (c ∷ d ∷ cs) = if (c == b'v' || c == b'V') && is_digit d then d ∷ cs else c ∷ d ∷ cs
trim_letter text = text

unfoldable pub normalize : Bytes → Bytes
unfolding trim_letter
normalize name = trim_letter (trim_space name)

unfoldable pub allowed_in_version : ℕ → Bool
allowed_in_version c =
    (leb b'0' c && leb c b'9')
    || (leb b'a' c && leb c b'z')
    || (leb b'A' c && leb c b'Z')
    || c == b'.'
    || c == b'-'
    || c == b'_'
    || c == b'+'

unfoldable pub all_allowed : Bytes → Bool
all_allowed [] = true
all_allowed (c ∷ cs) = allowed_in_version c && all_allowed cs

abbrev pub starts_with_dot : Bytes → Bool
starts_with_dot [] = false
starts_with_dot (c ∷ cs) = c == b'.'

unfoldable pub valid_version : Bytes → Bool
valid_version name =
    not (
      is_empty name
      || ltb 64 (length name)
      || bytes_eq name (b'.' ∷ [])
      || bytes_eq name (b'.' ∷ b'.' ∷ []))
    && all_allowed name
    && not (starts_with_dot name)
