-- ===== src/Config/Clock.antt =====
-- internal/config/validate.go: the one clock format, HH:MM.
use portapixel.Prelude.{
  ℕ, ◌+◌, ◌-◌, ◌*◌, ◌/◌, ◌%◌, ◌<◌, ◌≡◌, Bool, true, false, ◌||◌, Option, none, some, [], ◌∷◌, arith,
  Bytes, ltb, ◌==◌, if◌then◌else◌,
}

-- `s[0]` and `s[1]` of a text of two bytes.
unfoldable pub two_digits : ℕ → ℕ → Option ℕ
two_digits a b =
    if ltb a b'0' || ltb b'9' a || ltb b b'0' || ltb b'9' b
    then none
    else some ((a - b'0') * 10 + (b - b'0'))

clock_minutes : Option ℕ → Option ℕ → Option ℕ
clock_minutes none _ = none
clock_minutes (some h) none = none
clock_minutes (some h) (some m) =
    if ltb 23 h then none else if ltb 59 m then none else some (h * 60 + m)

-- Minutes after midnight.
unfoldable pub parse_clock : Bytes → Option ℕ
unfolding clock_minutes
parse_clock (a ∷ b ∷ c ∷ d ∷ e ∷ []) =
    if c == b':' then clock_minutes (two_digits a b) (two_digits d e) else none
parse_clock _ = none

abbrev pub is_some {ℓ} : {A : Type ℓ} → Option A → Bool
is_some none = false
is_some (some a) = true

unfoldable pub is_clock_time : Bytes → Bool
is_clock_time value = is_some (parse_clock value)

-- The text that the renderer writes for a minute of the day.
abbrev pub digits2 : ℕ → Bytes → Bytes
digits2 n rest = (b'0' + n / 10) ∷ (b'0' + n % 10) ∷ rest

abbrev pub print_clock : ℕ → Bytes
print_clock m = digits2 (m / 60) (b':' ∷ digits2 (m % 60) [])

two_digits-eq-some :
    (a b n : ℕ) → two_digits a b ≡ some n → (n < 100) × (a ≡ b'0' + n / 10) × (b ≡ b'0' + n % 10)
unfolding two_digits
two_digits-eq-some a b n h = ground arith

two_digits-print : (n : ℕ) → n < 100 → two_digits (b'0' + n / 10) (b'0' + n % 10) ≡ some n
unfolding two_digits
two_digits-print n h = ground arith

clock_minutes-eq-some :
    (x y : Option ℕ) (m : ℕ)
    → clock_minutes x y ≡ some m
    → (m < 1440) × (x ≡ some (m / 60)) × (y ≡ some (m % 60))
unfolding clock_minutes
clock_minutes-eq-some none y m h = ground arith
clock_minutes-eq-some (some a) none m h = ground arith
clock_minutes-eq-some (some a) (some b) m h = ground arith

clock_minutes-some : (m : ℕ) → m < 1440 → clock_minutes (some (m / 60)) (some (m % 60)) ≡ some m
unfolding clock_minutes
clock_minutes-some m h = ground arith

-- Every minute of a day is read back from its text.
parse_clock-print_clock : (m : ℕ) → m < 1440 → parse_clock (print_clock m) ≡ some m
unfolding parse_clock
parse_clock-print_clock m h =
    rw (two_digits-print (m / 60) (omega arith), two_digits-print (m % 60) (omega arith))
      (clock_minutes-some m h)

-- A text that is read is the text of the minute that it gives, and that minute is inside a day.
pub print_clock-parse_clock :
    (v : Bytes) (m : ℕ) → parse_clock v ≡ some m → (m < 1440) × (v ≡ print_clock m)
unfolding parse_clock
print_clock-parse_clock (a ∷ b ∷ c ∷ d ∷ e ∷ []) m h =
    let x = two_digits a b in
    let y = two_digits d e in
    ground (
      arith,
      clock_minutes-eq-some x y m,
      two_digits-eq-some a b (m / 60),
      two_digits-eq-some d e (m % 60),
    )
print_clock-parse_clock _ m h = cc
