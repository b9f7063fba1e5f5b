-- ===== src/Updater/Apply/Tests.antt =====
-- An update from 1.5.0 to 1.6.0.
use portapixel.Prelude.{true, false, none, some, [], ◌∷◌, Bytes, bytes}
use portapixel.Updater.Install.{Disk, Outside, begin}
use portapixel.Updater.Apply.{Options, Release, Staged, Manager, idle, apply, fleet}
use portapixel.Updater.Apply.Newest.{on_disk, StaysOrAllowed, apply_allowed}

abbrev running : Bytes
running = bytes "1.5.0"

abbrev next : Bytes
next = bytes "1.6.0"

abbrev options : Options
options = record {
  has_key = true;
  source_kind = some fleet;
  is_bad = λ v. false;
  running = running;
  free = none;
  binary_name = "portapixeld";
  arch = "arm64";
  has_restart = true;
}

abbrev staged : Staged
staged = record {
  fetched = true;
  has_binary = true;
  signed = true;
  has_sums = true;
  named = true;
  same_sum = true;
  mode_set = true;
  info = some (record { name = "portapixeld"; version = next; arch = "arm64" });
}

abbrev disk : Disk
disk = record { releases = running ∷ []; current = running; previous = []; pending = [] }

abbrev works : Outside
works ops = true

abbrev manager : Manager
manager = record {
  run = begin disk;
  status = idle;
  error = none;
  offer = [];
  source = none;
  is_busy = false;
}

abbrev offered : Release
offered = record { version = next; source = fleet; size = 0 }

apply_allowed_example :
    StaysOrAllowed options staged disk
      (apply options staged works offered (on_disk disk manager)).0.run.disk.current
apply_allowed_example = apply_allowed options staged works offered disk manager
