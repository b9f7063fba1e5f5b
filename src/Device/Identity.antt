-- ===== src/Device/Identity.antt =====
-- internal/device/identity/state.go: what a device remembers across a boot. The manifest that it
-- keeps for the fleet client is left out: no operation here reads or writes it. A command ID is a
-- number that is only compared, and a time a number of nanoseconds.
pub mod Remembered
pub mod Reboots
pub mod Repair
mod Tests
use portapixel.Prelude.{
  ℕ, suc, ◌+◌, ◌-◌, ◌*◌, String, Bool, true, false, not, ◌&&◌, ◌||◌, Option, none, some, List, [],
  ◌∷◌, ◌++◌, ltb, leb, ◌==◌, str_eq, str_contains, length, drop, if◌then◌else◌,
}

pub record State : Type 0 where
  pub device_id : String
  pub hardware_id : String
  pub hardware_source : String
  pub hardware_changed : Bool
  pub device_token : String
  pub claim_secret : String
  pub pairing_code : String
  pub pending_since : ℕ
  pub server_url : String
  pub commands : List ℕ
  pub bad_releases : List String
  pub reboots : List ℕ

abbrev pub empty_state : State
empty_state = record {
  device_id = "";
  hardware_id = "";
  hardware_source = "";
  hardware_changed = false;
  device_token = "";
  claim_secret = "";
  pairing_code = "";
  pending_since = 0;
  server_url = "";
  commands = [];
  bad_releases = [];
  reboots = [];
}

abbrev pub max_reboots : ℕ
max_reboots = 3

abbrev pub reboot_window : ℕ
reboot_window = 3600 * 1000000000

abbrev pub max_reboot_log : ℕ
max_reboot_log = 10

abbrev pub max_commands : ℕ
max_commands = 100

-- `if len(s) > n { s = s[len(s)-n:] }`
module _ {ℓ} {A : Type ℓ} where
  unfoldable pub keep_newest : ℕ → List A → List A
  keep_newest n xs = if ltb n (length xs) then drop (length xs - n) xs else xs

pub mark_reboot : ℕ → State → State
mark_reboot now s = record s { reboots = keep_newest max_reboot_log (s.reboots ++ now ∷ []) }

-- How many times lie inside the window. The test `t.After(now - window)` is `now < t + window`.
unfoldable pub count_recent : ℕ → List ℕ → ℕ
count_recent now [] = 0
count_recent now (t ∷ ts) =
    let rest = count_recent now ts in if ltb now (t + reboot_window) then suc rest else rest

pub reboot_loop : ℕ → State → ℕ × Bool
reboot_loop now s = let n = count_recent now s.reboots in (n, leb max_reboots n)

unfoldable pub contains_id : List ℕ → ℕ → Bool
contains_id [] id = false
contains_id (x ∷ xs) id = x == id || contains_id xs id

unfoldable pub mark_command : ℕ → State → State
mark_command id s =
    if contains_id s.commands id
    then s
    else record s { commands = keep_newest max_commands (s.commands ++ id ∷ []) }

unfoldable pub ran_command : ℕ → State → Bool
ran_command id s = contains_id s.commands id

unfoldable pub paired : State → Bool
paired s = not (str_eq s.device_token "")

pub mark_bad_release : String → State → State
mark_bad_release version s =
    if not (str_eq version "") && not (str_contains s.bad_releases version)
    then record s { bad_releases = s.bad_releases ++ version ∷ [] }
    else s

-- What `LoadState` finds: no file, a file that it cannot read or decode, or a state.
pub data File : Type 0 where
  missing : File
  damaged : File
  holds : State → File

-- The state, and whether there was an error.
pub load_state : File → State × Bool
load_state missing = (empty_state, false)
load_state damaged = (empty_state, true)
load_state (holds s) = (s, false)

pub record Identity : Type 0 where
  pub device : String
  pub hardware : String
  pub source : String

pub data Line : Type 0 where
  state_bad : Line
  identity_new : String → String → Line
  identity_repair : String → String → String → Line

-- The new state, the line of the ops log and whether the file is written.
abbrev pub Resolved : Type 0
Resolved = State × List Line × Bool

adopt : Identity → State → State
adopt id s = record s {
  device_id = id.device;
  hardware_id = id.hardware;
  hardware_source = id.source;
}

pub resolve_state : Identity → State → Resolved
unfolding adopt
resolve_state id s =
    if str_eq s.hardware_id ""
    then (adopt id s, identity_new id.device id.source ∷ [], true)
    else if str_eq s.hardware_id id.hardware
    then (if str_eq s.hardware_source id.source
        then (s, [], false)
        else (record s { hardware_source = id.source }, [], true))
    else (
      record (adopt id s) { hardware_changed = true },
      identity_repair s.device_id id.device id.source ∷ [],
      true,
    )

-- `Resolve`: the state in memory, the lines, and the file after it. The write is atomic, and one
-- that fails leaves the file as it was.
pub resolve : Bool → Identity → File → State × List Line × File
resolve write_ok id file =
    let (loaded, bad) = load_state file in
    let (s, lines, write) = resolve_state id loaded in
    (s, (if bad then state_bad ∷ lines else lines), (if write && write_ok then holds s else file))
