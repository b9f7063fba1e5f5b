-- ===== src/Guard/Sessions.antt =====
-- internal/httpguard/sessions.go: the logged-in browsers. A time is a number of nanoseconds, and a
-- new token is an argument. A cookie that is not there and a cookie with no value are one case.
pub mod Life
pub mod Sweeping
mod Tests
use portapixel.Prelude.{
  ℕ, ◌+◌, ◌-◌, ◌*◌, String, Bool, true, false, not, Option, none, some, List, [], ◌∷◌, ltb, str_eq,
  if◌then◌else◌,
}
use portapixel.Prelude.Assoc.{lookup, insert, remove}

abbrev pub second : ℕ
second = 1000000000

abbrev pub session_life : ℕ
session_life = 7 * 24 * 3600 * second

abbrev pub cookie_refresh : ℕ
cookie_refresh = 3600 * second

pub record Session : Type 0 where
  pub expires : ℕ
  pub issued : ℕ

abbrev pub Sessions : Type 0
Sessions = List (String × Session)

-- `now.After(sess.expires)`
abbrev pub is_dead : ℕ → Session → Bool
is_dead now sess = ltb sess.expires now

abbrev pub tokens : Sessions → List String
tokens [] = []
tokens ((token, sess) ∷ m) = token ∷ tokens m

drop_if_dead : ℕ → String → Sessions → Sessions
drop_if_dead now token m = elim (lookup token m) [
  | none ↦ m
  | some sess ↦ if is_dead now sess then remove token m else m
]

-- The loop of `dropExpired`, over the tokens of the map.
drop_expired_tokens : ℕ → List String → Sessions → Sessions
unfolding drop_if_dead
drop_expired_tokens now [] m = m
drop_expired_tokens now (token ∷ ts) m = drop_expired_tokens now ts (drop_if_dead now token m)

pub drop_expired : ℕ → Sessions → Sessions
drop_expired now m = drop_expired_tokens now (tokens m) m

-- The part of `Login` under the lock.
pub login : String → ℕ → Sessions → Sessions
login token now m =
    drop_expired now (insert token (record { expires = now + session_life; issued = now }) m)

pub logout : Option String → Sessions → Sessions
logout none m = m
logout (some token) m = remove token m

drop_unless : String → List String → Sessions → Sessions
drop_unless keep [] m = m
drop_unless keep (token ∷ ts) m =
    drop_unless keep ts (if str_eq token keep then m else remove token m)

pub drop_all_except : String → Sessions → Sessions
unfolding drop_unless
drop_all_except keep m = drop_unless keep (tokens m) m

use_token : String → ℕ → Sessions → Sessions × Option String
use_token token now m = elim (lookup token m) [
  | none ↦ (m, none)
  | some sess ↦
      if is_dead now sess
      then (remove token m, none)
      else (insert token (record sess { expires = now + session_life }) m, some token)
]

-- `use`, on the value of the cookie.
pub use_session : Option String → ℕ → Sessions → Sessions × Option String
unfolding use_token
use_session none now m = (m, none)
use_session (some token) now m = if str_eq token "" then (m, none) else use_token token now m

abbrev pub is_some {ℓ} : {A : Type ℓ} → Option A → Bool
is_some none = false
is_some (some a) = true

pub valid : Option String → ℕ → Sessions → Sessions × Bool
valid cookie now m = let (m', token) = use_session cookie now m in (m', is_some token)

pub cookie_is_old : String → ℕ → Sessions → Sessions × Bool
cookie_is_old token now m = elim (lookup token m) [
  | none ↦ (m, false)
  | some sess ↦
      if ltb (now - sess.issued) cookie_refresh
      then (m, false)
      else (insert token (record sess { issued = now }) m, true)
]

-- What `Require` does with a request: it denies it, or it serves it with or without a new cookie.
pub data Reply : Type 0 where
  denied : Reply
  served : Bool → Reply

require_token : Option String → ℕ → Sessions → Sessions × Reply
require_token none now m = (m, denied)
require_token (some token) now m = let (m', old) = cookie_is_old token now m in (m', served old)

pub require : Option String → ℕ → Sessions → Sessions × Reply
unfolding require_token
require cookie now m = let (m', token) = use_session cookie now m in require_token token now m'
