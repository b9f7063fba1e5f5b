-- ===== src/Guard/Sessions/Tests.antt =====
-- Two browsers.
use portapixel.Prelude.{ℕ, ◌≡◌, some, [], ◌∷◌, arith, eq_iff}
use portapixel.Guard.Sessions.{Session, Sessions, cookie_refresh, use_session, login}
use portapixel.Guard.Sessions.Sweeping.{use_session-login}

abbrev laptop : Session
laptop = record { expires = 1000; issued = 0 }

abbrev store : Sessions
store = ("laptop", laptop) ∷ ("phone", record { expires = 5; issued = 0 }) ∷ []

abbrev hour_later : ℕ
hour_later = cookie_refresh

use_session-login_example :
    (use_session (some "tablet") 20 (login "tablet" 10 store)).1 ≡ some "tablet"
use_session-login_example =
    use_session-login "tablet" "tablet" 10 20 store (λ e. ground (arith, eq_iff "tablet" "", e))
      (omega arith)
