-- ===== src/Store.antt =====
-- internal/store/store.go: the names of the objects on the card, over the code points of a valid
-- text. HashFile is I/O.
pub mod Bounds
pub mod Fleet
pub mod Runs
mod Tests
use portapixel.Prelude.{
  ℕ, zero, suc, ◌+◌, ◌-◌, Bool, true, false, not, ◌&&◌, ◌||◌, Option, none, some, List, [], ◌∷◌,
  ◌++◌, map, ltb, leb, ◌==◌, is_empty, is_digit, length, take, if◌then◌else◌, Bytes, bytes,
}
use mathlib.Core.List.{reverse}
use portapixel.Playlist.{ext_from}

abbrev pub max_name_len : ℕ
max_name_len = 64

abbrev pub is_hex : ℕ → Bool
is_hex c = is_digit c || (leb b'a' c && leb c b'f')

unfoldable pub all_hex : Bytes → Bool
all_hex [] = true
all_hex (c ∷ cs) = is_hex c && all_hex cs

-- `IsSHA256`
unfoldable pub is_sha256 : Bytes → Bool
is_sha256 sha = length sha == 64 && all_hex sha

abbrev pub is_safe : ℕ → Bool
is_safe c =
    (leb b'a' c && leb c b'z')
    || (leb b'A' c && leb c b'Z')
    || is_digit c
    || c == b'.'
    || c == b'-'
    || c == b'_'

unfoldable pub safe_char : ℕ → ℕ
safe_char c = if is_safe c then c else b'-'

unfoldable pub has_double : Bytes → Bool
has_double [] = false
has_double (a ∷ []) = false
has_double (a ∷ b ∷ rest) = (a == b'-' && b == b'-') || has_double (b ∷ rest)

-- One ReplaceAll of two hyphens by one.
unfoldable pub join_once : Bytes → Bytes
join_once [] = []
join_once (a ∷ []) = a ∷ []
join_once (a ∷ b ∷ rest) =
    let behind = join_once rest in
    let later = join_once (b ∷ rest) in if a == b'-' && b == b'-' then b'-' ∷ behind else a ∷ later

-- The loop, for as many turns as there are characters.
unfoldable pub join_runs : ℕ → Bytes → Bytes
join_runs zero out = out
join_runs (suc n) out =
    let next = join_runs n (join_once out) in if has_double out then next else out

abbrev pub is_edge : ℕ → Bool
is_edge c = c == b'-' || c == b'.'

unfoldable pub drop_edge : Bytes → Bytes
drop_edge [] = []
drop_edge (c ∷ cs) = let rest = drop_edge cs in if is_edge c then rest else c ∷ cs

-- strings.Trim with hyphens and full stops.
unfoldable pub trim_edges : Bytes → Bytes
trim_edges s = reverse (drop_edge (reverse (drop_edge s)))

-- `keepSafe`
unfoldable pub keep_safe : Bytes → Bytes
keep_safe s = let out = map safe_char s in trim_edges (join_runs (length out) out)

abbrev pub is_separator : ℕ → Bool
is_separator c = c == b'/' || c == b'\\'

unfoldable pub has_separator : Bytes → Bool
has_separator [] = false
has_separator (c ∷ cs) = is_separator c || has_separator cs

-- What follows the last separator.
unfoldable pub last_element : Bytes → Bytes
last_element [] = []
last_element (c ∷ cs) =
    let rest = last_element cs in
    if has_separator cs then rest else if is_separator c then cs else c ∷ cs

-- How many bytes a character has in UTF-8.
abbrev pub width : ℕ → ℕ
width c = if ltb c 0x80 then 1 else if ltb c 0x800 then 2 else if ltb c 0x10000 then 3 else 4

unfoldable pub byte_length : Bytes → ℕ
byte_length [] = 0
byte_length (c ∷ cs) = width c + byte_length cs

abbrev pub or_object : Bytes → Bytes
or_object [] = bytes "object"
or_object (c ∷ cs) = c ∷ cs

abbrev pub with_dot : Bytes → Bytes
with_dot [] = []
with_dot (c ∷ cs) = b'.' ∷ c ∷ cs

-- The extension with its full stop, made safe.
abbrev pub safe_ext : Bytes → Bytes
safe_ext [] = []
safe_ext (c ∷ ext) = with_dot (keep_safe ext)

-- The stem, cut to the room that the extension leaves.
unfoldable pub cut : ℕ → Bytes → Bytes
cut room stem = if ltb room (length stem) then or_object (trim_edges (take room stem)) else stem

unfoldable pub name_of : Bytes → Bytes → Bytes
name_of stem ext =
    let kept = safe_ext ext in cut (max_name_len - length kept) (or_object (keep_safe stem)) ++ kept

-- `SafeName`
unfoldable pub safe_name : Bytes → Bytes
safe_name orig =
    let base = last_element orig in
    let found = ext_from (reverse base) [] in
    let ext = if ltb 10 (byte_length found) then [] else found in
    name_of (take (length base - length ext) base) ext

-- `ObjectName`
unfoldable pub object_name : Bytes → Bytes → Option Bytes
object_name sha orig = if is_sha256 sha then some (take 8 sha ++ b'-' ∷ safe_name orig) else none
