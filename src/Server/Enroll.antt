-- ===== src/Server/Enroll.antt =====
-- internal/server/db/enroll.go: the pairing rules. The hash of a secret is an argument (SHA-256 in
-- the source), and what the system's random source gives for a request comes with the request. A
-- text of an encoded name is its code points; device IDs and pairing codes are their bytes.
pub mod Invariant
pub mod Kept
pub mod Rules
pub mod Soundness
pub mod Untouched
pub mod Waiting
pub mod Warned
use portapixel.Prelude.{
  ℕ, zero, suc, ◌+◌, ◌%◌, String, Bool, true, false, not, ◌&&◌, ◌||◌, Option, none, some, List, [],
  ◌∷◌, ◌++◌, map, leb, ltb, ◌==◌, length, get_or, is_empty, is_digit, if◌then◌else◌, Bytes, bytes,
  bytes_eq, str_eq,
}
use portapixel.Manifest.Name.{clean_name}
use portapixel.Server.Table.{update_where, select_where, find_where, has_where, count_where}
use portapixel.Server.Rows.{
  pending_life, approved_life, max_pending, DeviceRow, PendingRow, Mode, auto, manual, TokenRow,
  Tables, DbError, bad_token, bad_device_id, too_many_pending, queue_limited, no_free_code,
  no_device_row, constraint, Result, refused, done, ◌>>=◌, is_set, is_device, find_device,
  is_waiting, last_pending,
}

abbrev pub code_alphabet : Bytes
code_alphabet = bytes "23456789ABCDEFGHJKLMNPQRSTUVWXYZ"

abbrev pub max_tries : ℕ
max_tries = 20

-- The request, as the device sends it.
pub record Request : Type 0 where
  pub token : String
  pub device_id : Bytes
  pub hardware_id : String
  pub name : List ℕ
  pub version : String

-- When and from where a request comes, whether its address may still queue, the secret that
-- `rnd.Hex` gives for it and the random bytes for each try of a pairing code.
pub record Visit : Type 0 where
  pub now : ℕ
  pub ip : String
  pub may_queue : Bool
  pub secret : String
  pub draws : ℕ → Bytes

pub data Reply : Type 0 where
  paired : String → Reply
  waiting : Bytes → String → Reply

pub record Answer : Type 0 where
  pub tables : Tables
  pub reply : Reply
  pub created : Bool

unfoldable pub allowed_in_id : Bytes → Bool
allowed_in_id [] = true
allowed_in_id (c ∷ cs) = ((leb b'a' c && leb c b'z') || is_digit c || c == b'-') && allowed_in_id cs

unfoldable pub valid_device_id : Bytes → Bool
valid_device_id id = not (is_empty id) && leb (length id) 64 && allowed_in_id id

unfoldable pub new_pairing_code : Bytes → Bytes
new_pairing_code drawn = map (λ v. get_or code_alphabet (v % length code_alphabet) 0) drawn

abbrev or_empty : Option (List ℕ) → List ℕ
or_empty none = []
or_empty (some name) = name

unfoldable pub enroll_name : List ℕ → List ℕ
enroll_name raw = or_empty (clean_name raw)

abbrev pub has_code : Bytes → PendingRow → Bool
has_code code p = bytes_eq p.pairing_code code

-- `freeCode`, with the number of tries that are left.
unfoldable pub free_code : ℕ → (ℕ → Bytes) → List PendingRow → Option Bytes
free_code zero draws rows = none
free_code (suc tries) draws rows =
    let code = new_pairing_code (draws 0) in
    let later = free_code tries (λ k. draws (suc k)) rows in
    if has_where (has_code code) rows then later else some code

-- A request that nobody answered any more.
unfoldable pub is_stale : ℕ → PendingRow → Bool
is_stale now p = elim p.approved_at [
  | none ↦ ltb (p.created_at + pending_life) now
  | some t ↦ ltb (t + approved_life) now
]

unfoldable pub sweep_pending : ℕ → Tables → Tables
sweep_pending now d = record d { pendings = select_where (λ p. not (is_stale now p)) d.pendings }

-- The change of `touchEnrolled`.
unfoldable pub touch : Request → Visit → DeviceRow → DeviceRow
touch req v r = record r {
  version = req.version;
  last_ip = v.ip;
  last_seen = some v.now;
  hardware_id = if str_eq r.hardware_id "" then req.hardware_id else r.hardware_id;
}

unfoldable pub touch_enrolled : Request → Visit → Tables → Tables
touch_enrolled req v d = record d {
  devices = update_where (is_device req.device_id) (touch req v) d.devices;
}

-- The change of `pairRow`.
unfoldable pub pair_with : ℕ → String → DeviceRow → DeviceRow
pair_with now token_hash r = record r {
  token_hash = token_hash;
  ever_paired = true;
  paired_at = some now;
  needs_confirm = false;
  pending_hardware_id = "";
  pending_hardware_at = none;
  conflict = false;
  conflict_hardware_id = "";
}

abbrev pub of_device : Bytes → PendingRow → Bool
of_device id p = bytes_eq p.device_id id

unfoldable pub pair_row : Request → Visit → String → Tables → Result Tables
pair_row req v token_hash d =
    let touched = touch_enrolled req v d in
    let all = update_where (is_device req.device_id) (pair_with v.now token_hash) touched.devices in
    let others = select_where (λ p. not (of_device req.device_id p)) d.pendings in
    if has_where (is_device req.device_id) touched.devices
    then done (record touched { devices = all; pendings = others })
    else refused no_device_row

-- The report of a request, written to a row that was never paired.
unfoldable pub report : Request → String → DeviceRow → DeviceRow
report req ip r = record r {
  hardware_id = req.hardware_id;
  version = req.version;
  last_ip = ip;
  name = if is_empty r.name then enroll_name req.name else r.name;
}

abbrev pub is_new : Bytes → DeviceRow → Bool
is_new id r = is_device id r && not r.ever_paired

abbrev pub in_group : ℕ → DeviceRow → DeviceRow
in_group group r = record r { group = group }

unfoldable pub new_device : Request → String → ℕ → ℕ → DeviceRow
new_device req ip now group = record {
  id = req.device_id;
  name = enroll_name req.name;
  group = group;
  token_hash = "";
  hardware_id = req.hardware_id;
  ever_paired = false;
  needs_confirm = false;
  pending_hardware_id = "";
  pending_hardware_at = none;
  conflict = false;
  conflict_hardware_id = "";
  version = req.version;
  status = "";
  sync_error = "";
  last_ip = ip;
  created_at = now;
  paired_at = none;
  last_seen = none;
}

unfoldable pub upsert_device : Request → String → ℕ → ℕ → Bool → Tables → Tables
upsert_device req ip now group take_group d =
    let reported = update_where (is_new req.device_id) (report req ip) d.devices in
    let grouped =
      if take_group && not (group == 0)
      then update_where (is_new req.device_id) (in_group group) reported
      else reported in
    if has_where (is_new req.device_id) d.devices
    then record d { devices = grouped }
    else if has_where (is_device req.device_id) d.devices
    then d
    else record d { devices = d.devices ++ new_device req ip now group ∷ [] }
