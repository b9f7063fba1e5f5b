-- ===== src/Server/Heartbeat/Tests.antt =====
-- A card in another box, and a second box that answers.
use portapixel.Prelude.{
  ℕ, ◌≡◌, refl, arith, String, true, false, none, some, List, [], ◌∷◌, bytes, bytes_eq,
}
use portapixel.Server.Table.{find_where}
use portapixel.Server.Rows.{DeviceRow, Tables, find_device}
use portapixel.Server.Commands.{Queue, empty_queue}
use portapixel.Server.Heartbeat.Beats.{Beat, run_beats}
use portapixel.Server.Heartbeat.Machines.{run_beats-hardware, run_beats-OneMachine, run_beats_turns}

abbrev screen : DeviceRow
screen = record {
  id = bytes "px-11";
  name = [];
  group = 0;
  token_hash = "htoken";
  hardware_id = "box-a";
  ever_paired = true;
  needs_confirm = false;
  pending_hardware_id = "";
  pending_hardware_at = none;
  conflict = false;
  conflict_hardware_id = "";
  version = "1.0";
  status = "";
  sync_error = "";
  last_ip = "10.0.0.7";
  created_at = 20;
  paired_at = some 30;
  last_seen = some 30;
}

abbrev start : Tables × Queue
start = (record { devices = screen ∷ []; pendings = []; tokens = []; groups = [] }, empty_queue)

abbrev beat : ℕ → String → Beat
beat now hardware_id = record {
  now = now;
  ip = "10.0.0.7";
  report = record {
    hardware_id = hardware_id;
    name = [];
    version = "1.0";
    status = "";
    sync_error = "";
    acks = [];
  };
}

abbrev repaired : List Beat
repaired = beat 100 "box-b" ∷ beat 160 "box-b" ∷ []

run_beats-hardware_example :
    (r' : DeviceRow) × (find_device (bytes "px-11") (run_beats (bytes "px-11") repaired start).0
      ≡ some r')
    × (r'.hardware_id ≡ "box-a")
    × (false ≡ true → (r'.conflict ≡ true) × (r'.name ≡ []))
unfolding find_device find_where bytes_eq
run_beats-hardware_example = run_beats-hardware (bytes "px-11") repaired start screen refl refl

run_beats-OneMachine_example :
    (r' : DeviceRow) × (find_device (bytes "px-11") (run_beats (bytes "px-11") repaired start).0
      ≡ some r')
    × (r'.conflict ≡ false)
unfolding find_device find_where bytes_eq
run_beats-OneMachine_example =
    run_beats-OneMachine "box-b" (bytes "px-11") repaired start screen (refl, (refl, tt)) refl refl
      refl

run_beats_turns_example :
    (r' : DeviceRow) × (find_device
        (bytes "px-11")
        (run_beats (bytes "px-11") (beat 100 "box-b" ∷ beat 160 "box-a" ∷ []) start).0
      ≡ some r')
    × (r'.conflict ≡ true)
    × (r'.hardware_id ≡ "box-a")
unfolding find_device find_where bytes_eq
run_beats_turns_example =
    run_beats_turns (bytes "px-11") (beat 100 "box-b") (beat 160 "box-a") start screen refl refl
      refl refl refl refl refl refl (omega arith)
