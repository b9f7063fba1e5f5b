-- ===== src/Schedule/Tests.antt =====
-- A bar with a party on Friday night, paired and standalone.
use portapixel.Prelude.{
  ◌≡◌, refl, true, false, some, List, [], ◌∷◌, bytes, arith, eq_iff, str_contains,
}
use portapixel.Config.{Rule, ScreenRule, Config}
use portapixel.Config.Clock.{parse_clock, two_digits}
use portapixel.Schedule.{
  WallClock, Scheduler, minute_of_day, day_permitted, previous_day, in_window, in_window_minutes,
  new, evaluate, subscribe, rule_matches,
}
use portapixel.Schedule.Window.{in_window-eq_arc}
use portapixel.Schedule.Chosen.{evaluate_first_rule}
use portapixel.Schedule.Subscribers.{start, next, subscribed, evaluated, AllHold, Reach-AllHold}
use portapixel.Schedule.Evaluations.{Reading}

abbrev saturday_one : WallClock
saturday_one = record { weekday = 6; hour = 1; minute = 0 }

abbrev friday_noon : WallClock
friday_noon = record { weekday = 5; hour = 12; minute = 0 }

abbrev party : Rule
party = record { playlist = "party"; days = "fri" ∷ []; start = bytes "22:00"; end = bytes "02:00" }

abbrev daytime : ScreenRule
daytime = record { on_time = bytes "08:00"; off_time = bytes "20:00"; days = [] }

abbrev bar : Config
bar = record { display = daytime; default_playlist = "menu"; schedule = party ∷ [] }

abbrev shop : Config
shop = record {
  display = record { on_time = []; off_time = []; days = [] };
  default_playlist = "goods";
  schedule = [];
}

abbrev paired : Scheduler
paired = record new { fleet = true; fleet_default = "hq"; fleet_screen = some daytime }

in_window-eq_arc_example :
    in_window (bytes "22:00") (bytes "02:00") saturday_one ("fri" ∷ []) ≡ true
unfolding parse_clock two_digits minute_of_day day_permitted previous_day str_contains
in_window-eq_arc_example =
    in_window-eq_arc (bytes "22:00") (bytes "02:00") 1320 120 saturday_one ("fri" ∷ []) refl refl
      (omega arith)

evaluate_first_rule_example :
    ((evaluate bar saturday_one true new).1 ≡ "party")
    × ((evaluate bar saturday_one true new).0.active ≡ "party")
unfolding rule_matches in_window in_window_minutes parse_clock two_digits minute_of_day
    day_permitted previous_day str_contains
evaluate_first_rule_example =
    evaluate_first_rule bar saturday_one new [] [] party refl tt refl
      (ground (arith, eq_iff "party" ""))

abbrev listening : Scheduler
listening = (subscribe new).0

Reach-AllHold_example :
    AllHold
      (evaluate bar friday_noon true listening).0.active
      (evaluate bar friday_noon true listening).0.subs
Reach-AllHold_example =
    Reach-AllHold (next (next start subscribed) (evaluated bar friday_noon true))

abbrev readings : List Reading
readings =
    record { cfg = bar; now = friday_noon; synced = false }
    ∷ record { cfg = bar; now = friday_noon; synced = true }
    ∷ []
