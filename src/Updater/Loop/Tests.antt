-- ===== src/Updater/Loop/Tests.antt =====
-- Two passes on a day, in the minute of the check and in that of the nightly restart.
use portapixel.Prelude.{ℕ, ◌≤◌, refl, true, false, none, some, List, [], ◌∷◌, Bytes, bytes, Option}
use portapixel.Updater.Install.{Outside, begin}
use portapixel.Updater.Apply.{Options, Staged, idle, fleet}
use portapixel.Updater.Offers.{no_reply, Updates}
use portapixel.Updater.Loop.{Pass, passes}
use portapixel.Updater.Loop.Days.{count_checks, count_installs, passes_once_a_day}
use portapixel.Updater.Loop.Offered.{GoodOffered, GoodOffered-passes}

abbrev options : Options
options = record {
  has_key = true;
  source_kind = some fleet;
  is_bad = λ v. false;
  running = bytes "1.5.0";
  free = none;
  binary_name = "portapixeld";
  arch = "arm64";
  has_restart = true;
}

abbrev staged : Staged
staged = record {
  fetched = true;
  has_binary = true;
  signed = true;
  has_sums = true;
  named = true;
  same_sum = true;
  mode_set = true;
  info = some (record { name = "portapixeld"; version = bytes "1.6.0"; arch = "arm64" });
}

abbrev works : Outside
works ops = true

abbrev resolve : Bytes → Bytes → Option Bytes
resolve server address = some address

abbrev night : ℕ → Pass
night minute = record {
  card = record { has_dir = false; is_free = true; has_bundle = false; staged = staged };
  auto = true;
  day = "2026-03-01";
  minute = minute;
  apply_minute = some 240;
  source = record {
    has_repo = false;
    base_url = bytes "https://signage.example.com/api/v1/releases/1.6.0";
    server_url = bytes "https://signage.example.com";
    version = bytes "v1.6.0";
  };
  reply = no_reply;
  staged = staged;
}

abbrev start : Updates
start = record {
  manager = record {
    run = begin (record {
      releases = bytes "1.5.0" ∷ [];
      current = bytes "1.5.0";
      previous = [];
      pending = [];
    });
    status = idle;
    error = none;
    offer = [];
    source = none;
    is_busy = false;
  };
  offered = none;
  check_minute = 100;
  last_check_day = "";
  last_apply_day = "";
}

abbrev nights : List Pass
nights = night 100 ∷ night 240 ∷ night 241 ∷ []

passes_once_a_day_example :
    (count_checks (passes options works resolve nights start).1 ≤ 1)
    × (count_installs (passes options works resolve nights start).1 ≤ 1)
passes_once_a_day_example =
    passes_once_a_day options works resolve "2026-03-01" nights start (refl, (refl, (refl, tt)))

GoodOffered-passes_example :
    GoodOffered options (passes options works resolve nights start).0.offered
GoodOffered-passes_example = GoodOffered-passes options works resolve nights start tt
