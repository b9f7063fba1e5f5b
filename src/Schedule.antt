-- ===== src/Schedule.antt =====
-- internal/device/scheduler/scheduler.go: which playlist plays now, and whether the screen is on.
pub mod Window
pub mod Screen
pub mod Chosen
pub mod Subscribers
pub mod Evaluations
mod Tests
use portapixel.Prelude.{
  ℕ, zero, suc, ◌+◌, ◌*◌, ◌%◌, ◌≤◌, ◌<◌, ◌≡◌, refl, String, Bool, true, false, not, ◌&&◌, ◌||◌,
  Option, none, some, List, [], ◌∷◌, ◌++◌, str_eq, is_empty, bytes, Bytes, ltb, leb, ◌==◌,
  if◌then◌else◌, get_or, str_contains,
}
use portapixel.Config.{Rule, ScreenRule, Config}
use portapixel.Config.Clock.{parse_clock}

-- A time as the code reads it, `now.In(Location(...))`: 0 is Sunday.
pub record WallClock : Type 0 where
  pub weekday : ℕ
  pub hour : ℕ
  pub minute : ℕ

unfoldable pub minute_of_day : WallClock → ℕ
minute_of_day t = t.hour * 60 + t.minute

abbrev pub day_names : List String
day_names = "sun" ∷ "mon" ∷ "tue" ∷ "wed" ∷ "thu" ∷ "fri" ∷ "sat" ∷ []

unfoldable pub day_permitted : List String → ℕ → Bool
day_permitted days day = if is_empty days then true else str_contains days (get_or day_names day "")

unfoldable pub previous_day : ℕ → ℕ
previous_day day = (day + 6) % 7

-- `inWindow` after the two times are read. The argument `minute` is the minute of the day.
in_window_minutes : ℕ → ℕ → ℕ → WallClock → List String → Bool
in_window_minutes s e minute now days =
    if s == e
    then false
    else if ltb s e
    then leb s minute && ltb minute e && day_permitted days now.weekday
    else if leb s minute
    then day_permitted days now.weekday
    else if ltb minute e
    then day_permitted days (previous_day now.weekday)
    else false

in_window_parsed : Option ℕ → Option ℕ → WallClock → List String → Bool
in_window_parsed none end now days = false
in_window_parsed (some s) none now days = false
in_window_parsed (some s) (some e) now days = in_window_minutes s e (minute_of_day now) now days

pub in_window : Bytes → Bytes → WallClock → List String → Bool
unfolding in_window_parsed
in_window start end now days =
    if is_empty start && is_empty end
    then day_permitted days now.weekday
    else in_window_parsed (parse_clock start) (parse_clock end) now days

pub rule_matches : WallClock → Rule → Bool
rule_matches now r = in_window r.start r.end now r.days

-- The loop of `match`; "" when no rule matches.
first_match : List Rule → WallClock → String
first_match [] now = ""
first_match (r ∷ rules) now = if rule_matches now r then r.playlist else first_match rules now

-- A channel of capacity 1 is `none` when it is empty. `subs` is the map of the open channels.
pub record Scheduler : Type 0 where
  pub active : String
  pub gated : Bool
  pub fleet : Bool
  pub fleet_default : String
  pub fleet_rules : List Rule
  pub fleet_screen : Option ScreenRule
  pub subs : List (ℕ × Option String)
  pub next_id : ℕ

abbrev pub new : Scheduler
new = record {
  active = "";
  gated = false;
  fleet = false;
  fleet_default = "";
  fleet_rules = [];
  fleet_screen = none;
  subs = [];
  next_id = 0;
}

pub match_rule : Scheduler → Config → WallClock → String
match_rule s cfg now =
    if s.fleet then first_match s.fleet_rules now else first_match cfg.schedule now

pub default_playlist : Scheduler → Config → String
default_playlist s cfg = if s.fleet then s.fleet_default else cfg.default_playlist

abbrev pub playlist_text : String → String
playlist_text name = if str_eq name "" then "no playlist: the fleet server names none" else name

-- The name that `Evaluate` finds, before it writes any state.
pub wanted : Scheduler → Config → WallClock → Bool → String
wanted s cfg now synced =
    let rule = match_rule s cfg now in
    if synced && not (str_eq rule "") then rule else default_playlist s cfg

-- `select { case ch <- name: default: }`
try_send : String → Option String → Option String
try_send name none = some name
try_send name (some old) = some old

-- The nested selects: a full channel is drained first.
pub send_newest : String → Option String → Option String
unfolding try_send
send_newest name none = try_send name none
send_newest name (some old) = try_send name none

tell : String → List (ℕ × Option String) → List (ℕ × Option String)
tell name [] = []
tell name ((id, ch) ∷ subs) = (id, send_newest name ch) ∷ tell name subs

pub data Line : Type 0 where
  clock_wait : String → Line
  clock_ok : Line
  playlist : String → Line

gate_lines : Bool → Bool → String → List Line
gate_lines false false name = clock_wait (playlist_text name) ∷ []
gate_lines true true name = clock_ok ∷ []
gate_lines synced gated name = []

-- The state after the switch over the clock gate.
gate_next : Bool → Bool → Bool
gate_next false gated = true
gate_next true gated = false

-- The locked part of `Evaluate`, from the switch over the clock gate on: the new state, and the
-- lines of the ops log in their order.
pub publish : String → Bool → Scheduler → Scheduler × List Line
unfolding gate_lines gate_next
publish name synced s =
    let lines = gate_lines synced s.gated name in
    let s' = record s { gated = gate_next synced s.gated; active = name } in
    if str_eq name s.active
    then (s', lines)
    else (record s' { subs = tell name s.subs }, lines ++ playlist (playlist_text name) ∷ [])

-- `Evaluate`, with the readings of the configuration, of the clock and of `Synced`. The answer is
-- the name and the lines of the ops log.
pub evaluate : Config → WallClock → Bool → Scheduler → Scheduler × String × List Line
evaluate cfg now synced s =
    let name = wanted s cfg now synced in
    let (s', lines) = publish name synced s in (s', name, lines)

pub install_fleet_rules : String → List Rule → Option ScreenRule → Scheduler → Scheduler
install_fleet_rules def rules screen s = record s {
  fleet = true;
  fleet_default = def;
  fleet_rules = rules;
  fleet_screen = screen;
}

pub set_fleet_rules :
    Config
    → WallClock
    → Bool
    → String
    → List Rule
    → Option ScreenRule
    → Scheduler
    → Scheduler × String × List Line
unfolding install_fleet_rules
set_fleet_rules cfg now synced def rules screen s =
    evaluate cfg now synced (install_fleet_rules def rules screen s)

pub clear_fleet_rules : Config → WallClock → Bool → Scheduler → Scheduler × String × List Line
clear_fleet_rules cfg now synced s =
    evaluate cfg now synced
      (record s { fleet = false; fleet_default = ""; fleet_rules = []; fleet_screen = none })

-- The new channel has the id that is returned.
pub subscribe : Scheduler → Scheduler × ℕ
subscribe s = (record s { next_id = s.next_id + 1; subs = (s.next_id, none) ∷ s.subs }, s.next_id)

delete_sub : ℕ → List (ℕ × Option String) → List (ℕ × Option String)
delete_sub id [] = []
delete_sub id ((j, ch) ∷ subs) =
    let rest = delete_sub id subs in if j == id then rest else (j, ch) ∷ rest

-- The second answer of `Subscribe`.
pub unsubscribe : ℕ → Scheduler → Scheduler
unsubscribe id s = record s { subs = delete_sub id s.subs }

live_rule : ScreenRule → Option ScreenRule
live_rule r = if is_empty r.on_time || is_empty r.off_time then none else some r

screen_choice : Bool → Option ScreenRule → ScreenRule → Option ScreenRule
unfolding live_rule
screen_choice true (some r) display = live_rule r
screen_choice fleet rule display = live_rule display

pub screen_rule : Scheduler → Config → Option ScreenRule
unfolding screen_choice
screen_rule s cfg = screen_choice s.fleet s.fleet_screen cfg.display

screen_on : Option ScreenRule → WallClock → Bool
screen_on none t = true
screen_on (some r) t = in_window r.on_time r.off_time t r.days

pub screen_should_be_on : Scheduler → Config → WallClock → Bool
unfolding screen_on
screen_should_be_on s cfg t = screen_on (screen_rule s cfg) t

pub has_screen_schedule : Scheduler → Config → Bool
has_screen_schedule s cfg = elim (screen_rule s cfg) [ none ↦ false | some r ↦ true ]

pub screen_off_covers : Scheduler → Config → WallClock → Bool
screen_off_covers s cfg t =
    if has_screen_schedule s cfg then not (screen_should_be_on s cfg t) else false
