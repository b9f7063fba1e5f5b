-- ===== src/Store/Tests.antt =====
-- One object of the store.
use portapixel.Prelude.{◌≡◌, refl, true, none, some, ◌++◌, replicate, Bytes, bytes}
use portapixel.Playlist.Paths.{fleet_ref, bad_file_path}
use portapixel.Store.{
  is_sha256, all_hex, safe_char, has_double, join_once, join_runs, drop_edge, trim_edges, keep_safe,
  has_separator, last_element, byte_length, cut, name_of, safe_name, object_name,
}
use portapixel.Store.Bounds.{Within}
use portapixel.Store.Fleet.{object_name-accepted}

abbrev sha : Bytes
sha = bytes "0123abcd" ++ replicate 56 b'f'

abbrev stored : Bytes
stored = bytes "0123abcd-My-clip-1.mp4"

named : object_name sha (bytes "up/My  clip #1.mp4") ≡ some stored
unfolding object_name is_sha256 all_hex safe_name name_of cut byte_length last_element has_separator
    keep_safe trim_edges drop_edge join_runs join_once has_double safe_char
named = refl

object_name-accepted_example : Within 73 stored × (bad_file_path true (fleet_ref stored) ≡ none)
object_name-accepted_example = object_name-accepted sha (bytes "up/My  clip #1.mp4") stored named
