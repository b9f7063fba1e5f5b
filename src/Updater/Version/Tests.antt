-- ===== src/Updater/Version/Tests.antt =====
-- Some release names.
use portapixel.Prelude.{◌≡◌, refl, Bytes, bytes}
use portapixel.Manifest.Name.{trim_space, trim_left, is_space}
use portapixel.Updater.Version.{normalize, trim_letter}

abbrev release : Bytes
release = bytes "v1.5.0"

abbrev candidate : Bytes
candidate = bytes "v1.5.0-rc.1"

normalize_test : normalize release ≡ bytes "1.5.0"
unfolding normalize trim_letter trim_space trim_left is_space
normalize_test = refl
