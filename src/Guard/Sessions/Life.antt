-- ===== src/Guard/Sessions/Life.antt =====
-- How long a session lives, and who ends it.
use portapixel.Prelude.{
  ℕ, ◌+◌, ◌≤◌, ◌<◌, ◌≡◌, ◌≢◌, refl, inl, inr, String, true, false, Option, none, some, List, [],
  ◌∷◌, arith, ltb, str_eq, eq_iff, eq_refl, str_contains, if◌then◌else◌, Option-cases, Bool-cases,
}
use portapixel.Prelude.Assoc.{lookup, insert, remove, lookup-insert, lookup-remove}
use portapixel.Guard.Sessions.{
  Session, Sessions, is_dead, session_life, cookie_refresh, use_session, use_token, cookie_is_old,
  drop_all_except, drop_unless, tokens,
}

-- The token names a session that is alive at this time.
abbrev pub IsLive : ℕ → String → Sessions → Type 0
IsLive now token m = (sess : Session) × (lookup token m ≡ some sess) × (now ≤ sess.expires)

-- A request at `now` with a live session makes it live for `session_life` more: a request at any
-- time up to then is let in, and a later one is not and takes the session away.
use_session_slides :
    (token : String) (now later : ℕ) (m : Sessions)
    → token ≢ ""
    → IsLive now token m
    → ((use_session (some token) now m).1 ≡ some token)
      × ((use_session (some token) later (use_session (some token) now m).0).1
          ≡ (if ltb (now + session_life) later then none else some token))
      × (now + session_life < later
          → lookup token (use_session (some token) later (use_session (some token) now m).0).0
            ≡ none)
unfolding use_session
use_session_slides token now later m named (sess, found, alive) =
    let next : Session = record sess { expires = now + session_life } in
    let e : (use_session (some token) now m) ≡ (insert token next m, some token) =
      ground (arith, eq_iff token "") in
    let f : lookup token (insert token next m) ≡ some next = rw (lookup-insert, eq_refl) in
    let m' = insert token next m in
    rw e (
      refl,
      ground (arith, eq_iff token ""),
      λ late. ground (arith, eq_iff token "", lookup-remove token token m', eq_refl token),
    )

lookup-drop_unless :
    (keep j : String) (ts : List String) (m : Sessions)
    → lookup j (drop_unless keep ts m)
      ≡ (if str_eq j keep then lookup j m else if str_contains ts j then none else lookup j m)
unfolding drop_unless str_contains
lookup-drop_unless keep j [] m = ground arith
lookup-drop_unless keep j (t ∷ ts) m = ground (
  arith,
  eq_iff t keep,
  eq_iff t j,
  eq_iff j keep,
  lookup-remove t j m,
  lookup-drop_unless keep j ts m,
  lookup-drop_unless keep j ts (remove t m),
)

lookup-none : (j : String) (m : Sessions) → str_contains (tokens m) j ≡ false → lookup j m ≡ none
unfolding lookup str_contains
lookup-none j [] h = refl
lookup-none j ((t, sess) ∷ m) h = ground (arith, eq_iff t j, eq_iff j t, lookup-none j m)

-- After the password changes, the session that is kept is as it was, and no other token names one.
lookup-drop_all_except :
    (keep j : String) (m : Sessions)
    → lookup j (drop_all_except keep m) ≡ (if str_eq j keep then lookup j m else none)
unfolding drop_all_except
lookup-drop_all_except keep j m =
    ground (arith, lookup-drop_unless keep j (tokens m) m, lookup-none j m)

abbrev IssuedAt : ℕ → Option Session → Type 0
IssuedAt now none = Unit
IssuedAt now (some sess) = sess.issued ≡ now

IssuedAt-cookie_is_old :
    (token : String) (now : ℕ) (m : Sessions)
    → (cookie_is_old token now m).1 ≡ true
    → IssuedAt now (lookup token (cookie_is_old token now m).0)
unfolding cookie_is_old
IssuedAt-cookie_is_old token now m old = elim (Option-cases (lookup token m)) [
  | inl e ↦ absurd (ground arith)
  | inr (sess, e) ↦
      let given : Session = record sess { issued = now } in
      let given' : cookie_is_old token now m ≡ (insert token given m, true) = ground arith in
      rw given' (rw (lookup-insert, eq_refl) refl)
]

-- What a use makes of the session of a token.
refreshed : ℕ → Option Session → Option Session
refreshed now none = none
refreshed now (some sess) =
    if is_dead now sess then none else some (record sess { expires = now + session_life })

lookup-use_token :
    (token : String) (now : ℕ) (m : Sessions)
    → lookup token (use_token token now m).0 ≡ refreshed now (lookup token m)
unfolding use_token refreshed
lookup-use_token token now m = elim (Option-cases (lookup token m)) [
  | inl e ↦ ground (arith, e)
  | inr (sess, e) ↦
      let next : Session = record sess { expires = now + session_life } in
      ground (arith, lookup-remove token token m, lookup-insert token token next m, eq_refl token)
]

IssuedAt-refreshed :
    (now between : ℕ) (o : Option Session) → IssuedAt now o → IssuedAt now (refreshed between o)
unfolding refreshed
IssuedAt-refreshed now between none h = tt
IssuedAt-refreshed now between (some sess) h = elim (Bool-cases (is_dead between sess)) [
  | inl e ↦ rw e tt
  | inr e ↦ rw e h
]

IssuedAt-use_session :
    (token : String) (now between : ℕ) (m : Sessions)
    → IssuedAt now (lookup token m)
    → IssuedAt now (lookup token (use_session (some token) between m).0)
unfolding use_session
IssuedAt-use_session token now between m h = elim (Bool-cases (str_eq token "")) [
  | inl e ↦ rw e h
  | inr e ↦
      rw e
        (rw (lookup-use_token token between m) (IssuedAt-refreshed now between (lookup token m) h))
]

cookie_is_old-IssuedAt :
    (token : String) (now later : ℕ) (m : Sessions)
    → IssuedAt now (lookup token m)
    → later < now + cookie_refresh
    → (cookie_is_old token later m).1 ≡ false
unfolding cookie_is_old
cookie_is_old-IssuedAt token now later m h soon = ground arith

-- A request that took the new cookie away is the last one to get it for `cookie_refresh`: until
-- then no request gets it, also when the session is used in between.
cookie_is_old_once :
    (token : String) (now between later : ℕ) (m : Sessions)
    → (cookie_is_old token now m).1 ≡ true
    → later < now + cookie_refresh
    → (cookie_is_old token later
        (use_session (some token) between (cookie_is_old token now m).0).0).1
      ≡ false
cookie_is_old_once token now between later m old soon =
    cookie_is_old-IssuedAt token now later _
      (IssuedAt-use_session token now between _ (IssuedAt-cookie_is_old token now m old)) soon
