-- ===== src/Playlist.antt =====
-- internal/playlist: the rules of a playlist file (playlist.go), what an item is (kind.go) and the
-- media types (mime.go). A text is its code points; a word that is only compared is a String. The
-- TOML decoder is a library, so Parse is Validate here.
pub mod Cleaned
pub mod Inside
pub mod Parts
pub mod Paths
pub mod Quote
pub mod Valid
mod Tests
use portapixel.Prelude.{
  ℕ, suc, String, Bool, true, false, not, ◌&&◌, ◌||◌, Option, none, some, List, [], ◌∷◌, ◌++◌, map,
  ltb, leb, ◌==◌, ◌+◌, is_empty, if◌then◌else◌, Bytes, bytes, bytes_eq, str_eq, str_contains, ℤ,
  is_negative,
}
use mathlib.Core.List.{reverse}
use portapixel.Playlist.Paths.{PathError, bad_file_path}

pub record Meta : Type 0 where
  pub name : List ℕ
  pub shuffle : Option Bool
  pub transition : String
  pub ken_burns : Bool

pub record Item : Type 0 where
  pub file : Bytes
  pub duration : ℤ
  pub mute : Bool
  pub max_duration : ℤ
  pub transition : String
  pub transition_ms : ℤ

pub record Playlist : Type 0 where
  pub meta : Meta
  pub items : List Item

abbrev pub transitions : List String
transitions =
    "cut" ∷ "fade" ∷ "fade-white" ∷ "crossfade" ∷ "wipe-left" ∷ "wipe-right" ∷ "wipe-up"
    ∷ "wipe-down" ∷ "push-left" ∷ "push-right" ∷ "push-up" ∷ "push-down" ∷ "slide-in-left"
    ∷ "slide-in-right" ∷ "slide-in-up" ∷ "slide-in-down" ∷ "slide-out-left" ∷ "slide-out-right"
    ∷ "slide-out-up" ∷ "slide-out-down" ∷ "zoom-out" ∷ "split" ∷ []

unfoldable pub is_transition : String → Bool
is_transition name = str_contains transitions name

-- A field and what is wrong with it; the number is that of the item.
pub data FieldError : Type 0 where
  bad_transition no_items : FieldError
  no_file bad_duration bad_max_duration bad_item_transition bad_transition_ms : ℕ → FieldError
  bad_file : ℕ → PathError → FieldError

abbrev pub add_if : Bool → FieldError → List FieldError
add_if true e = e ∷ []
add_if false e = []

abbrev pub path_error : ℕ → Option PathError → List FieldError
path_error i none = []
path_error i (some e) = bad_file i e ∷ []

unfoldable pub file_errors : Bool → ℕ → Item → List FieldError
file_errors fleet i it =
    if is_empty it.file then no_file i ∷ [] else path_error i (bad_file_path fleet it.file)

abbrev pub unknown_transition : String → Bool
unknown_transition name = not (str_eq name "") && not (is_transition name)

unfoldable pub item_errors : Bool → ℕ → Item → List FieldError
item_errors fleet i it =
    let longest = add_if (is_negative it.max_duration) (bad_max_duration i) in
    let word = add_if (unknown_transition it.transition) (bad_item_transition i) in
    let length = add_if (is_negative it.transition_ms) (bad_transition_ms i) in
    file_errors fleet i it
    ++ (add_if (is_negative it.duration) (bad_duration i) ++ (longest ++ (word ++ length)))

unfoldable pub items_errors : Bool → ℕ → List Item → List FieldError
items_errors fleet i [] = []
items_errors fleet i (it ∷ items) = item_errors fleet i it ++ items_errors fleet (suc i) items

-- `Validate`
unfoldable pub validate : Bool → Playlist → List FieldError
validate fleet p =
    add_if (unknown_transition p.meta.transition) bad_transition
    ++ (add_if (is_empty p.items) no_items ++ items_errors fleet 0 p.items)

-- The characters of unicode.ToLower that are ASCII afterwards; the others stay, and no word that a
-- result is compared with has one.
unfoldable pub lower_char : ℕ → ℕ
lower_char c =
    if leb b'A' c && leb c b'Z'
    then c + 32
    else if c == 0x130
    then b'i'
    else if c == 0x212a
    then b'k'
    else c

-- `path.Ext`, from the end of the path: what follows the last dot of the last part, with the dot.
abbrev pub ext_from : Bytes → Bytes → Bytes
ext_from [] behind = []
ext_from (c ∷ before) behind =
    let more = ext_from before (c ∷ behind) in
    if c == b'/' then [] else if c == b'.' then c ∷ behind else more

unfoldable pub lower_ext : Bytes → Bytes
lower_ext file = map lower_char (ext_from (reverse file) [])

pub data Kind : Type 0 where
  image video unknown : Kind

unfoldable pub has_ext : List Bytes → Bytes → Bool
has_ext [] ext = false
has_ext (e ∷ exts) ext = bytes_eq e ext || has_ext exts ext

abbrev pub image_exts : List Bytes
image_exts =
    bytes ".jpg"
    ∷ bytes ".jpeg"
    ∷ bytes ".png"
    ∷ bytes ".gif"
    ∷ bytes ".webp"
    ∷ bytes ".avif"
    ∷ bytes ".bmp"
    ∷ []

abbrev pub video_exts : List Bytes
video_exts =
    bytes ".mp4" ∷ bytes ".m4v" ∷ bytes ".mov" ∷ bytes ".webm" ∷ bytes ".mkv" ∷ bytes ".ogv" ∷ []

unfoldable pub kind_of_ext : Bytes → Kind
kind_of_ext ext =
    if has_ext image_exts ext then image else if has_ext video_exts ext then video else unknown

-- `Kind`
unfoldable pub kind : Item → Kind
kind it = kind_of_ext (lower_ext it.file)

abbrev pub media_types : List (Bytes × String)
media_types =
    (bytes ".jpg", "image/jpeg")
    ∷ (bytes ".jpeg", "image/jpeg")
    ∷ (bytes ".png", "image/png")
    ∷ (bytes ".gif", "image/gif")
    ∷ (bytes ".webp", "image/webp")
    ∷ (bytes ".avif", "image/avif")
    ∷ (bytes ".bmp", "image/bmp")
    ∷ (bytes ".mp4", "video/mp4")
    ∷ (bytes ".m4v", "video/mp4")
    ∷ (bytes ".mov", "video/quicktime")
    ∷ (bytes ".webm", "video/webm")
    ∷ (bytes ".mkv", "video/x-matroska")
    ∷ (bytes ".ogv", "video/ogg")
    ∷ []

unfoldable pub type_of : List (Bytes × String) → Bytes → String
type_of [] ext = ""
type_of ((e, word) ∷ types) ext =
    let later = type_of types ext in if bytes_eq e ext then word else later

-- `MediaType`
unfoldable pub media_type : Bytes → String
media_type ext = type_of media_types ext
