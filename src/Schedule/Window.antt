-- ===== src/Schedule/Window.antt =====
-- inWindow of internal/device/scheduler/scheduler.go, against the week as a circle of minutes.
use portapixel.Prelude.{
  ℕ, ◌+◌, ◌-◌, ◌%◌, ◌<◌, ◌≡◌, ◌≢◌, ◌&&◌, some, List, [], ◌∷◌, String, arith, Bytes, ltb,
  if◌then◌else◌,
}
use portapixel.Config.Clock.{parse_clock, print_clock-parse_clock}
use portapixel.Schedule.{
  WallClock, minute_of_day, day_permitted, previous_day, in_window, in_window_minutes,
}

-- The minutes since the window last opened, on a clock face of 1440 minutes.
abbrev pub elapsed : ℕ → ℕ → ℕ
elapsed s minute = (minute + 1440 - s) % 1440

-- The day on which the window last opened.
abbrev pub opening_day : ℕ → ℕ → ℕ → ℕ
opening_day s minute day = if ltb minute s then previous_day day else day

in_window_minutes-eq :
    (s e : ℕ) (t : WallClock) (days : List String)
    → s < 1440
    → e < 1440
    → minute_of_day t < 1440
    → in_window_minutes s e (minute_of_day t) t days ≡ (
        ltb (elapsed s (minute_of_day t)) ((e + 1440 - s) % 1440)
        && day_permitted days (opening_day s (minute_of_day t) t.weekday))
unfolding in_window_minutes
in_window_minutes-eq s e t days hs he ht = ground arith

no_empty : (m : ℕ) → parse_clock [] ≢ some m
unfolding parse_clock
no_empty m h = cc

-- A window with two readable times is the arc of (end - start) mod 1440 minutes that opens at
-- `start`: a time is inside it exactly when fewer minutes have gone by since the window last
-- opened, and the day on which it opened is permitted. Equal times give an empty arc.
pub in_window-eq_arc :
    (start end : Bytes) (s e : ℕ) (t : WallClock) (days : List String)
    → parse_clock start ≡ some s
    → parse_clock end ≡ some e
    → minute_of_day t < 1440
    → in_window start end t days ≡ (
        ltb (elapsed s (minute_of_day t)) ((e + 1440 - s) % 1440)
        && day_permitted days (opening_day s (minute_of_day t) t.weekday))
unfolding in_window
in_window-eq_arc [] end s e t days ps pe ht = absurd (no_empty s ps)
in_window-eq_arc (c ∷ start) end s e t days ps pe ht =
    rw (ps, pe)
      (in_window_minutes-eq s e t days (print_clock-parse_clock (c ∷ start) s ps).0
        (print_clock-parse_clock end e pe).0 ht)
