-- ===== src/Device/Commands.antt =====
-- internal/device/syncer/commands.go: the commands of the fleet server. What the code does to the
-- world outside is a list of events, oldest first, and each answer of that world may depend on all
-- events before it.
pub mod Delivery
pub mod Kept
pub mod Order
pub mod Recorded
mod Tests
use portapixel.Prelude.{
  ℕ, String, Bool, true, false, Option, none, some, List, [], ◌∷◌, ◌++◌, ◌||◌, take, if◌then◌else◌,
}
use portapixel.Manifest.Name.{clean_name}
use portapixel.Device.Identity.{State, mark_command, ran_command}

abbrev pub max_acks : ℕ
max_acks = 100

-- The type of a command; `unknown` is any other word.
pub data Kind : Type 0 where
  reboot restart_player screen_on screen_off rescan update rename : Kind
  unknown : String → Kind

-- A command with its argument `name`, as code points.
pub record Command : Type 0 where
  pub id : ℕ
  pub kind : Kind
  pub name : List ℕ

pub data Line : Type 0 where
  ack_fail command_fail command : Kind → Line
  update_fail rename_refused rename_fail state_write_fail : Line
  command_unknown : String → Line
  renamed : List ℕ → Line

pub data Event : Type 0 where
  heartbeat : List ℕ → Event
  local : Kind → Event
  updated : Event
  name_saved : List ℕ → Event
  state_saved : ℕ → Event
  log : Line → Event

-- The functions of Options: whether the three that may be nil are there, and whether a call that
-- has just been made succeeds.
pub record Outside : Type 0 where
  pub has_command : Bool
  pub has_update : Bool
  pub has_save_name : Bool
  pub succeeds : List Event → Bool

-- The state of the device and the events so far.
pub record Round : Type 0 where
  pub state : State
  pub events : List Event

unfoldable pub emit : Event → Round → Round
emit e r = record r { events = r.events ++ e ∷ [] }

-- A call, and a line in the log when it fails.
unfoldable pub attempt : Outside → Event → Line → Round → Round
unfolding emit
attempt out e line r =
    let r' = emit e r in if out.succeeds r'.events then r' else emit (log line) r'

unfoldable pub run_local : Outside → Kind → Round → Round
run_local out kind r = if out.has_command then attempt out (local kind) (command_fail kind) r else r

-- SaveState changes the state in memory first and then writes the file.
unfoldable pub mark_ran : Outside → ℕ → Round → Round
mark_ran out id r =
    attempt out (state_saved id) state_write_fail (record r { state = mark_command id r.state })

save_name : Outside → List ℕ → Round → Round
unfolding emit
save_name out name r =
    let r' = emit (name_saved name) r in
    if out.succeeds r'.events then emit (log (renamed name)) r' else emit (log rename_fail) r'

rename_to : Outside → Option (List ℕ) → Round → Round
unfolding save_name
rename_to out none r = emit (log rename_refused) r
rename_to out (some name) r = if out.has_save_name then save_name out name r else r

unfoldable pub rename_device : Outside → List ℕ → Round → Round
unfolding rename_to
rename_device out raw r = rename_to out (clean_name raw) r

run_update : Outside → Round → Round
run_update out r = if out.has_update then attempt out updated update_fail r else r

logged_local : Outside → Kind → Round → Round
logged_local out kind r = run_local out kind (emit (log (command kind)) r)

execute_kind : Outside → Kind → List ℕ → Round → Round
unfolding logged_local run_update
execute_kind out restart_player name r = logged_local out restart_player r
execute_kind out screen_on name r = logged_local out screen_on r
execute_kind out screen_off name r = logged_local out screen_off r
execute_kind out rescan name r = logged_local out rescan r
execute_kind out update name r = run_update out (emit (log (command update)) r)
execute_kind out rename name r = rename_device out name r
execute_kind out reboot name r = emit (log (command_unknown "reboot")) r
execute_kind out (unknown word) name r = emit (log (command_unknown word)) r

unfoldable pub execute : Outside → Command → Round → Round
unfolding execute_kind
execute out c r = execute_kind out c.kind c.name r

-- The heartbeat of syncer/poll.go, which carries the first `max_acks` acknowledgements.
unfoldable pub send_heartbeat : Outside → Kind → List ℕ → Round → Round
send_heartbeat out kind acks r = attempt out (heartbeat (take max_acks acks)) (ack_fail kind) r

unfoldable pub ends_the_process : Kind → Bool
ends_the_process reboot = true
ends_the_process update = true
ends_the_process kind = false

-- What follows the early acknowledgement, and whether the round stops.
finish : Outside → Command → Kind → Round → Round × Bool
finish out c reboot r = (run_local out reboot (emit (log (command reboot)) r), true)
finish out c kind r = (execute out c r, false)

-- One turn of the loop of `runCommands`: the round, the acknowledgements and `rebooting`.
pub run_command : Outside → Command → List ℕ → Round → Round × List ℕ × Bool
unfolding finish
run_command out c acks r =
    let acks' = acks ++ c.id ∷ [] in
    let (ended, stop) =
      finish out c c.kind (send_heartbeat out c.kind acks' (mark_ran out c.id r)) in
    if ran_command c.id r.state
    then (r, acks', false)
    else if ends_the_process c.kind
    then (ended, acks', stop)
    else (mark_ran out c.id (execute out c r), acks', false)

pub run_commands : Outside → List Command → List ℕ → Round → Round × List ℕ × Bool
run_commands out [] acks r = (r, acks, false)
run_commands out (c ∷ cs) acks r =
    let (r', acks', stop) = run_command out c acks r in
    let rest = run_commands out cs acks' r' in if stop then (r', acks', true) else rest
