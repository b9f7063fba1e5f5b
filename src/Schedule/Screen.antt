-- ===== src/Schedule/Screen.antt =====
-- The screen schedule of internal/device/scheduler/scheduler.go.
use portapixel.Prelude.{ℕ, ◌+◌, ◌-◌, ◌%◌, ◌<◌, ◌≡◌, not, ◌&&◌, some, ltb}
use portapixel.Config.{Config, ScreenRule}
use portapixel.Config.Clock.{parse_clock}
use portapixel.Schedule.{
  WallClock, Scheduler, minute_of_day, day_permitted, screen_rule, screen_should_be_on,
  screen_off_covers, has_screen_schedule,
}
use portapixel.Schedule.Window.{elapsed, opening_day, in_window-eq_arc}

-- With a screen schedule of two readable times, the screen is off, and the nightly restart is
-- covered, at exactly the minutes outside the arc from the on time to the off time.
screen_off_covers-eq_arc :
    (s : Scheduler) (cfg : Config) (t : WallClock) (r : ScreenRule) (a b : ℕ)
    → screen_rule s cfg ≡ some r
    → parse_clock r.on_time ≡ some a
    → parse_clock r.off_time ≡ some b
    → minute_of_day t < 1440
    → screen_off_covers s cfg t
      ≡ not (
          ltb (elapsed a (minute_of_day t)) ((b + 1440 - a) % 1440)
          && day_permitted r.days (opening_day a (minute_of_day t) t.weekday))
unfolding screen_off_covers has_screen_schedule screen_should_be_on
screen_off_covers-eq_arc s cfg t r a b e pa pb ht =
    rw (e, has_screen_schedule) (rw (in_window-eq_arc r.on_time r.off_time a b t r.days pa pb ht))
