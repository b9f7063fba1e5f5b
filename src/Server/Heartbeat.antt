-- ===== src/Server/Heartbeat.antt =====
-- internal/server/db/heartbeat.go: the report of a device and the identity rules D21. The status is
-- the text of its JSON.
pub mod Beats
pub mod Machines
mod Tests
use portapixel.Prelude.{
  ℕ, ◌+◌, ◌*◌, String, Bool, true, false, not, ◌&&◌, ◌||◌, Option, none, some, List, length, leb,
  ltb, if◌then◌else◌, Bytes, str_eq,
}
use portapixel.Manifest.Name.{clean_name}
use portapixel.Server.Table.{update_where}
use portapixel.Server.Rows.{
  DeviceRow, Tables, not_found, too_many_acks, Result, refused, done, is_device, find_device,
}
use portapixel.Server.Commands.{Queue, ack_commands}

abbrev pub max_acks : ℕ
max_acks = 100

abbrev pub clone_window : ℕ
clone_window = 10 * 60

-- The report, as the device sends it.
pub record Report : Type 0 where
  pub hardware_id : String
  pub name : List ℕ
  pub version : String
  pub status : String
  pub sync_error : String
  pub acks : List ℕ

-- The machine that the row knows.
unfoldable pub known_machine : String → DeviceRow → Bool
known_machine reported r =
    not (str_eq reported "") && (str_eq r.hardware_id "" || str_eq reported r.hardware_id)

abbrev pub name_or : List ℕ → Option (List ℕ) → List ℕ
name_or name none = name
name_or name (some reported) = reported

unfoldable pub reported_name : Report → DeviceRow → List ℕ
reported_name hb r =
    if known_machine hb.hardware_id r && not r.conflict
    then name_or r.name (clean_name hb.name)
    else r.name

-- The update of the hot path, with the name that was chosen.
unfoldable pub take_report : ℕ → String → Report → List ℕ → DeviceRow → DeviceRow
take_report now ip hb name r = record r {
  last_seen = some now;
  status = hb.status;
  version = hb.version;
  sync_error = hb.sync_error;
  last_ip = ip;
  name = name;
}

-- One ID waits since a moment ago.
abbrev pub just_now : ℕ → Option ℕ → Bool
just_now now none = false
just_now now (some t) = ltb now (t + clone_window)

abbrev pub set_hardware : String → DeviceRow → DeviceRow
set_hardware reported r = record r { hardware_id = reported }

abbrev pub set_conflict : String → DeviceRow → DeviceRow
set_conflict other r = record r { conflict = true; conflict_hardware_id = other }

abbrev pub drop_change : DeviceRow → DeviceRow
drop_change r = record r {
  needs_confirm = false;
  pending_hardware_id = "";
  pending_hardware_at = none;
}

abbrev pub set_change : ℕ → String → DeviceRow → DeviceRow
set_change now reported r = record r {
  needs_confirm = true;
  pending_hardware_id = reported;
  pending_hardware_at = some now;
}

-- `hardwareRules`: what it writes, by the row that was read.
unfoldable pub hardware_rules : ℕ → String → DeviceRow → DeviceRow → DeviceRow
hardware_rules now reported r =
    if str_eq reported ""
    then (λ x. x)
    else if str_eq r.hardware_id ""
    then set_hardware reported
    else if not (str_eq r.pending_hardware_id "")
        && not (str_eq r.pending_hardware_id reported)
        && just_now now r.pending_hardware_at
    then set_conflict (if str_eq reported r.hardware_id then r.pending_hardware_id else reported)
    else if str_eq reported r.hardware_id
    then (if str_eq r.pending_hardware_id "" then (λ x. x) else drop_change)
    else set_change now reported

-- The tables and the queue of commands after a heartbeat, and the name that the row holds.
unfoldable pub beat_found :
    ℕ
    → String
    → Bytes
    → Report
    → Tables
    → Queue
    → Option DeviceRow
    → Result (Tables × Queue × List ℕ)
beat_found now ip id hb d q none = refused not_found
beat_found now ip id hb d q (some r) =
    let name = reported_name hb r in
    let told = update_where (is_device id) (take_report now ip hb name) d.devices in
    let ruled = update_where (is_device id) (hardware_rules now hb.hardware_id r) told in
    done (record d { devices = ruled }, ack_commands now id hb.acks q, name)

-- `Heartbeat`
unfoldable pub heartbeat :
    ℕ → String → Bytes → Report → Tables → Queue → Result (Tables × Queue × List ℕ)
heartbeat now ip id hb d q =
    if ltb max_acks (length hb.acks)
    then refused too_many_acks
    else beat_found now ip id hb d q (find_device id d)

-- `TouchSeen`
unfoldable pub touch_seen : ℕ → String → Bytes → Tables → Tables
touch_seen now ip id d = record d {
  devices =
      update_where (is_device id) (λ r. record r { last_seen = some now; last_ip = ip }) d.devices;
}
