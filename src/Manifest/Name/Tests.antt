-- ===== src/Manifest/Name/Tests.antt =====
-- A name with spaces round it, and one that hides a character.
use portapixel.Prelude.{ℕ, ◌≡◌, refl, some, none, List, [], ◌∷◌, bytes}
use portapixel.Manifest.Name.{clean_name, trim_space, is_space, any_hidden, hidden_in_name}

abbrev lobby : List ℕ
lobby = bytes "Lobby 2"

trims : clean_name (bytes " Lobby 2  ") ≡ some lobby
unfolding clean_name trim_space is_space any_hidden hidden_in_name
trims = refl

refuses_hidden : clean_name (b'a' ∷ 0x200b ∷ []) ≡ none
unfolding clean_name trim_space is_space any_hidden hidden_in_name
refuses_hidden = refl
