-- ===== src/Config/Tests.antt =====
-- Clock times, good and bad.
use portapixel.Prelude.{◌≡◌, ◌<◌, refl, none, some, bytes}
use portapixel.Config.Clock.{parse_clock, two_digits, print_clock, print_clock-parse_clock}

reads_clock : parse_clock (bytes "23:59") ≡ some 1439
unfolding parse_clock two_digits
reads_clock = refl

refuses_short : parse_clock (bytes "9:5") ≡ none
unfolding parse_clock
refuses_short = refl

refuses_hour : parse_clock (bytes "24:00") ≡ none
unfolding parse_clock two_digits
refuses_hour = refl

print_clock-parse_clock_example : (1439 < 1440) × (bytes "23:59" ≡ print_clock 1439)
unfolding parse_clock two_digits
print_clock-parse_clock_example = print_clock-parse_clock (bytes "23:59") 1439 refl
