-- ===== src/Device/Syncer.antt =====
-- The fleet client of internal/device/syncer (syncer.go, client.go): what it remembers, what it
-- asks, and its waits. What it does to the world outside is a list of events, the newest first, and
-- each answer of that world may depend on all events before it. Durations are nanoseconds, and the
-- zero time is 0. CheckServerURL and applyManifest are arguments; the release that a manifest
-- names and the keys of the applied manifest are left out.
pub mod Ending
pub mod Enrolling
pub mod Ended
pub mod Rounds
pub mod Secrets
pub mod Waits
mod Tests
use portapixel.Prelude.{
  ℕ, suc, ◌+◌, ◌*◌, ◌%◌, ◌^◌, ◌-◌, String, Bool, true, false, not, ◌&&◌, ◌||◌, Option, none, some,
  List, [], ◌∷◌, ltb, leb, ◌==◌, str_eq, if◌then◌else◌,
}
use portapixel.Device.Identity.{State}
use portapixel.Device.Commands.{Command, Event as CommandEvent, Outside as CommandsOutside}

abbrev pub second : ℕ
second = 1000000000

abbrev pub min_poll : ℕ
min_poll = 10 * second

abbrev pub max_poll : ℕ
max_poll = 3600 * second

abbrev pub claim_poll : ℕ
claim_poll = 10 * second

abbrev pub claim_slow : ℕ
claim_slow = 60 * second

abbrev pub claim_patience : ℕ
claim_patience = 600 * second

abbrev pub standalone_wait : ℕ
standalone_wait = 30 * second

abbrev pub re_enroll_gap : ℕ
re_enroll_gap = 300 * second

abbrev pub first_backoff : ℕ
first_backoff = 10 * second

abbrev pub fault_repeat : ℕ
fault_repeat = 3600 * second

abbrev pub max_immediate : ℕ
max_immediate = 3

-- An answer that is not the one that was asked for: one of HTTP, with its status and its code, or
-- another fault.
pub data CallError : Type 0 where
  api_error : ℕ → String → String → CallError
  other_error : String → CallError

abbrev pub text_of : CallError → String
text_of (api_error status code text) = text
text_of (other_error text) = text

-- `Revoked`
unfoldable pub is_revoked : CallError → Bool
is_revoked (api_error status code text) = status == 401 && str_eq code "token-revoked"
is_revoked (other_error text) = false

pub data Called {ℓ} (A : Type ℓ) : Type ℓ where
  fails : CallError → Called A
  answers : A → Called A

pub record EnrollResponse : Type 0 where
  pub status : String
  pub device_token : String
  pub pairing_code : String
  pub claim_secret : String

-- An enrollment answer that the client takes.
pub data Granted : Type 0 where
  paired : String → Granted
  pending : String → String → Granted

-- The checks of `enroll`.
unfoldable pub granted : EnrollResponse → Called Granted
granted res =
    if str_eq res.status "paired"
    then (if str_eq res.device_token ""
        then fails (other_error "no device token")
        else answers (paired res.device_token))
    else if str_eq res.status "pending"
    then (if str_eq res.claim_secret ""
        then fails (other_error "no claim secret")
        else answers (pending res.pairing_code res.claim_secret))
    else fails (other_error "bad status")

abbrev pub checked : Called EnrollResponse → Called Granted
checked (fails e) = fails e
checked (answers res) = granted res

-- The part of a manifest that the client itself reads.
pub record Manifest : Type 0 where
  pub server_name : String
  pub poll_seconds : ℕ
  pub commands : List Command

pub data Event : Type 0 where
  -- What goes to an address with a token that a person gave, with the claim secret or with the
  -- device token.
  enrolls claims fetches applies beats : String → String → Event
  commands_ran : String → String → List CommandEvent → Event
  -- The device token or the claim secret that the server at an address gave.
  gave_token gave_claim : String → String → Event
  state_saved : Event
  server_saved : String → String → Event
  rules_cleared rescanned update_reset : Event
  logged : String → String → Event

-- The [server] table of portapixel.toml. A number below zero acts as zero.
pub record ServerConfig : Type 0 where
  pub url : String
  pub token : String
  pub poll_seconds : ℕ

-- The functions of Options, and the answers of the server.
pub record World : Type 0 where
  pub now : List Event → ℕ
  pub config : List Event → ServerConfig
  pub check_url : String → Option String
  pub enroll : List Event → Called EnrollResponse
  pub manifest : List Event → Called Manifest
  pub apply_error : List Event → Option String
  pub beat_error : List Event → Option CallError
  pub writes : List Event → Bool
  pub saves_server : Option (List Event → Bool)
  pub commands : List Event → CommandsOutside
  pub jitter : List Event → ℕ → ℕ

pub data LastResult : Type 0 where
  never ok failure : LastResult

-- The fields of `Syncer`.
pub record Memory : Type 0 where
  pub last_sync : ℕ
  pub last_result : LastResult
  pub sync_error : String
  pub server_name : String
  pub poll_seconds : ℕ
  pub generation : ℕ
  pub fault_event : String
  pub fault_text : String
  pub fault_at : ℕ
  pub backoff : ℕ
  pub revoked : Bool
  pub revoked_token : String
  pub next_enroll : ℕ

pub record Client : Type 0 where
  pub state : State
  pub memory : Memory
  pub events : List Event

unfoldable pub emit : Event → Client → Client
emit e c = record c { events = e ∷ c.events }

unfoldable pub remember : (Memory → Memory) → Client → Client
remember change c = record c { memory = change c.memory }

-- `SaveState`: the change stays when the write fails.
unfoldable pub save_state : World → (State → State) → Client → Client × Bool
save_state w change c =
    let after = state_saved ∷ c.events in
    (record c { state = change c.state; events = after }, w.writes after)

-- `noteFault`: whether the fault goes into the log, and what is kept of it.
unfoldable pub is_noted : ℕ → String → String → Memory → Bool
is_noted now event text m =
    str_eq m.fault_event event && str_eq m.fault_text text && ltb now (m.fault_at + fault_repeat)

unfoldable pub note_fault : ℕ → String → String → Memory → Memory
note_fault now event text m = record m { fault_event = event; fault_text = text; fault_at = now }

abbrev pub set_error : String → Memory → Memory
set_error text m = record m { sync_error = text; last_result = failure }

-- The interval before the jitter. A Duration is a signed number of 64 bits, and one below zero is
-- below the lower limit.
unfoldable pub clamped : ℕ → ℕ
clamped seconds =
    let out = (seconds * second) % 2 ^ 64 in
    if ltb out min_poll || leb (2 ^ 63) out
    then min_poll
    else if ltb max_poll out
    then max_poll
    else out

-- `interval`
unfoldable pub interval : World → Client → ℕ
interval w c =
    let asked =
      if c.memory.poll_seconds == 0
      then (w.config c.events).poll_seconds
      else c.memory.poll_seconds in
    w.jitter c.events (clamped asked)

-- The next wait after a fault.
unfoldable pub next_backoff : ℕ → ℕ → ℕ
next_backoff limit backoff =
    let longer = if backoff == 0 then first_backoff else backoff * 2 in
    if ltb limit longer then limit else longer

-- `failed`
unfoldable pub failed : World → String → String → Client → Client × ℕ
failed w event text c =
    let now = w.now c.events in
    let noted : Client =
      if is_noted now event text c.memory
      then c
      else emit (logged event text) (remember (note_fault now event text) c) in
    let told = remember (set_error text) noted in
    let backoff = next_backoff (interval w told) told.memory.backoff in
    (remember (λ m. record m { backoff = backoff }) told, backoff)

unfoldable pub set_ok : World → Client → Client
set_ok w c =
    let now = w.now c.events in
    let good : Memory → Memory = λ m. record m {
      fault_text = "";
      fault_event = "";
      fault_at = 0;
      last_sync = now;
      last_result = ok;
      sync_error = "";
      backoff = 0;
    } in
    let told = remember good c in
    if str_eq c.memory.fault_text "" then told else emit (logged "sync.ok" "") told

-- `clearFleet`
unfoldable pub clear_fleet : Client → Client
clear_fleet c = emit update_reset (
    remember
      (λ m. record m {
        generation = suc m.generation;
        server_name = "";
        poll_seconds = 0;
        sync_error = "";
        last_result = never;
        last_sync = 0;
        backoff = 0;
        revoked = false;
        revoked_token = "";
        next_enroll = 0;
      })
      c)
