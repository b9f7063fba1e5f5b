-- ===== src/Playlist/Tests.antt =====
-- Two playlists and some references.
use portapixel.Prelude.{
  AllIn, ◌≡◌, refl, ◌↔◌, ◌⊎◌, true, false, none, some, [], ◌∷◌, ◌++◌, bytes, bytes_eq, pos,
}
use portapixel.Playlist.Paths.{
  goes_outside, bad_file_path, clean, clean_onto, clean_part, split, join, has_char, has_part,
  has_parent_step, is_fleet_ref,
}
use portapixel.Playlist.{Playlist, unknown_transition, validate}
use portapixel.Playlist.Inside.{Below, InStore, bad_file_path-Below}
use portapixel.Playlist.Valid.{GoodItem, validate_iff}
use portapixel.Playlist.Quote.{quote, read, read-quote}

bad_file_path-Below_example :
    Below (bytes "../media/a.jpg") ⊎ ((true ≡ true) × InStore (bytes "../media/a.jpg"))
unfolding bad_file_path clean clean_onto clean_part split join has_char has_part has_parent_step
    is_fleet_ref bytes_eq
bad_file_path-Below_example = bad_file_path-Below true (bytes "../media/a.jpg") refl

abbrev list_of_one : Playlist
list_of_one = record {
  meta = record { name = []; shuffle = none; transition = "fade"; ken_burns = false };
  items =
      record {
        file = bytes "media/a.jpg";
        duration = pos 10;
        mute = false;
        max_duration = pos 0;
        transition = "";
        transition_ms = pos 0;
      }
      ∷ [];
}

validate_iff_example : (validate false list_of_one ≡ []) ↔ (
    (unknown_transition "fade" ≡ false)
    × (false ≡ false)
    × AllIn (GoodItem false) list_of_one.items)
validate_iff_example = validate_iff false list_of_one

read-quote_example : read (quote (bytes "a\"b") ++ bytes " #") ≡ some (bytes "a\"b", bytes " #")
read-quote_example = read-quote (bytes "a\"b") (bytes " #")

outside_test : bad_file_path true (bytes "../../etc/passwd") ≡ some goes_outside
unfolding bad_file_path clean clean_onto clean_part split join has_char has_part has_parent_step
    is_fleet_ref bytes_eq
outside_test = refl
