-- ===== src/Server/Heartbeat/Beats.antt =====
-- The heartbeats of a device, one after the other, and what they make of its row.
use portapixel.Prelude.{
  AllIn, ℕ, ◌≡◌, refl, ap, arith, inl, inr, String, true, false, some, List, [], ◌∷◌, length, ltb,
  if◌then◌else◌, Bool-cases, Bytes, bytes_eq, str_eq,
}
use portapixel.Server.Table.{update_where, find-update_hit}
use portapixel.Server.Table.Keys.{find-passes}
use portapixel.Server.Rows.{DeviceRow, Tables, Result, refused, done, is_device, find_device}
use portapixel.Server.Commands.{Queue}
use portapixel.Server.Heartbeat.{
  max_acks, Report, reported_name, take_report, hardware_rules, beat_found, heartbeat,
}

-- A heartbeat: when it comes, from where, and the report.
pub record Beat : Type 0 where
  pub now : ℕ
  pub ip : String
  pub report : Report

abbrev pub settle_beat : Tables × Queue → Result (Tables × Queue × List ℕ) → Tables × Queue
settle_beat s (refused e) = s
settle_beat s (done (d, q, name)) = (d, q)

-- The heartbeats of one device, one after the other.
unfoldable pub run_beats : Bytes → List Beat → Tables × Queue → Tables × Queue
run_beats id [] s = s
run_beats id (b ∷ beats) s =
    run_beats id beats (settle_beat s (heartbeat b.now b.ip id b.report s.0 s.1))

-- What a heartbeat makes of the row of its device.
unfoldable pub beat_row : Beat → DeviceRow → DeviceRow
beat_row b r =
    let told = take_report b.now b.ip b.report (reported_name b.report r) r in
    if ltb max_acks (length b.report.acks)
    then r
    else hardware_rules b.now b.report.hardware_id r told

hardware_rules-id :
    (now : ℕ) (reported : String) (r x : DeviceRow) → (hardware_rules now reported r x).id ≡ x.id
unfolding hardware_rules
hardware_rules-id now reported r x = ground arith

pub find-heartbeat :
    (id : Bytes) (b : Beat) (s : Tables × Queue) (r : DeviceRow)
    → find_device id s.0 ≡ some r
    → find_device id (settle_beat s (heartbeat b.now b.ip id b.report s.0 s.1)).0
      ≡ some (beat_row b r)
unfolding heartbeat beat_row beat_found find_device take_report
find-heartbeat id b s r found = elim (Bool-cases (ltb max_acks (length b.report.acks))) [
  | inl e ↦ rw e found
  | inr e ↦
      let name = reported_name b.report r in
      let own = find-passes (is_device id) s.0.devices r found in
      let told =
        find-update_hit (is_device id) r (is_device id) (take_report b.now b.ip b.report name)
          s.0.devices (λ x. refl) own found in
      let rules = hardware_rules b.now b.report.hardware_id r in
      rw (e, found)
        (find-update_hit (is_device id) (take_report b.now b.ip b.report name r) (is_device id)
          rules (update_where (is_device id) (take_report b.now b.ip b.report name) s.0.devices)
          (λ x. ap (λ i. bytes_eq i id) (hardware_rules-id b.now b.report.hardware_id r x)) own
          told)
]

-- A property that no such heartbeat of the device takes from its row.
pub run_beats_row :
    (P : DeviceRow → Type 0) (Q : Beat → Type 0) (id : Bytes) (beats : List Beat)
    (s : Tables × Queue) (r : DeviceRow)
    → ((b : Beat) (x : DeviceRow) → Q b → P x → P (beat_row b x))
    → AllIn Q beats
    → find_device id s.0 ≡ some r
    → P r
    → (r' : DeviceRow) × (find_device id (run_beats id beats s).0 ≡ some r') × P r'
unfolding run_beats
run_beats_row P Q id [] s r keeps all found p = (r, found, p)
run_beats_row P Q id (b ∷ beats) s r keeps all found p =
    run_beats_row P Q id beats (settle_beat s (heartbeat b.now b.ip id b.report s.0 s.1))
      (beat_row b r) keeps all.1 (find-heartbeat id b s r found) (keeps b r all.0 p)

-- The rule never moves a hardware ID that is there.
pub beat_row-hardware :
    (b : Beat) (r : DeviceRow)
    → str_eq r.hardware_id "" ≡ false
    → (beat_row b r).hardware_id ≡ r.hardware_id
unfolding beat_row hardware_rules take_report
beat_row-hardware b r set = ground (arith, set)

pub beat_row-conflict :
    (b : Beat) (r : DeviceRow)
    → r.conflict ≡ true
    → ((beat_row b r).conflict ≡ true) × ((beat_row b r).name ≡ r.name)
unfolding beat_row hardware_rules take_report reported_name
beat_row-conflict b r h = (ground (arith, h), ground (arith, h))
