-- ===== src/Guard/Sessions/Sweeping.antt =====
-- The pass of `Login` over the dead sessions is invisible.
use portapixel.Prelude.{
  ℕ, ◌+◌, ◌≤◌, ◌≡◌, ◌≢◌, refl, ◌∙◌, String, Option, none, some, List, [], ◌∷◌, arith, ltb, str_eq,
  eq_iff, if◌then◌else◌,
}
use portapixel.Prelude.Assoc.{lookup, insert, lookup-insert, lookup-remove}
use portapixel.Guard.Sessions.{
  Session, Sessions, is_dead, session_life, use_session, login, drop_expired, drop_expired_tokens,
  drop_if_dead, tokens,
}

-- The session of a token, if it can still be used at this time.
abbrev pub usable : ℕ → Option Session → Option Session
usable now none = none
usable now (some sess) = if is_dead now sess then none else some sess

usable-drop_if_dead :
    (now later : ℕ) (t j : String) (m : Sessions)
    → now ≤ later
    → usable later (lookup j (drop_if_dead now t m)) ≡ usable later (lookup j m)
unfolding drop_if_dead
usable-drop_if_dead now later t j m h = ground (arith, lookup-remove t j m, eq_iff t j)

usable-drop_expired_tokens :
    (now later : ℕ) (ts : List String) (j : String) (m : Sessions)
    → now ≤ later
    → usable later (lookup j (drop_expired_tokens now ts m)) ≡ usable later (lookup j m)
unfolding drop_expired_tokens
usable-drop_expired_tokens now later [] j m h = refl
usable-drop_expired_tokens now later (t ∷ ts) j m h =
    usable-drop_expired_tokens now later ts j (drop_if_dead now t m) h
    ∙ usable-drop_if_dead now later t j m h

use_session-usable :
    (j : String) (later : ℕ) (m m' : Sessions)
    → usable later (lookup j m) ≡ usable later (lookup j m')
    → (use_session (some j) later m).1 ≡ (use_session (some j) later m').1
unfolding use_session
use_session-usable j later m m' h = ground arith

use_session-insert :
    (token j : String) (later : ℕ) (sess : Session) (m : Sessions)
    → j ≢ ""
    → (use_session (some j) later (insert token sess m)).1 ≡ (
        if str_eq token j
        then (if is_dead later sess then none else some j)
        else (use_session (some j) later m).1)
unfolding use_session
use_session-insert token j later sess m named =
    ground (arith, lookup-insert token j sess m, eq_iff j "")

-- A login lets the requests of its own token in for `session_life`, and changes the answer to no
-- request of another token, although it drops the dead sessions.
pub use_session-login :
    (token j : String) (now later : ℕ) (m : Sessions)
    → j ≢ ""
    → now ≤ later
    → (use_session (some j) later (login token now m)).1 ≡ (
        if str_eq token j
        then (if ltb (now + session_life) later then none else some j)
        else (use_session (some j) later m).1)
unfolding login drop_expired
use_session-login token j now later m named h =
    let fresh : Session = record { expires = now + session_life; issued = now } in
    let m' = insert token fresh m in
    use_session-usable j later _ m' (usable-drop_expired_tokens now later (tokens m') j m' h)
    ∙ use_session-insert token j later fresh m named
