-- ===== src/Guard/Limiter/Refinement.antt =====
-- The limiter against a limiter that keeps every time for ever and stores no map.
use portapixel.Prelude.{
  ℕ, ◌+◌, ◌≤◌, ◌≡◌, refl, sym, ◌∙◌, ap, inl, inr, String, Bool, true, false, ◌&&◌, Option, none,
  some, List, [], ◌∷◌, ◌++◌, arith, ltb, leb, length, if◌then◌else◌, str_eq, eq_iff, Bool-cases,
}
use mathlib.Core.Path.{ap₂}
use portapixel.Prelude.Assoc.{remove, insert, lookup}
use portapixel.Guard.Limiter.{
  Limiter, Records, max_writes, max_keys, times_of, live, recent, sweep_keys, keys, sweep, end_open,
  allow, fail, done, reset, new_limiter_with,
}
use portapixel.Guard.Limiter.Times.{
  later_times, live-live, live-append, times_of-insert, times_of-remove, recent-eq_live,
  times_of-end_open, live-recent, live-sweep_keys,
}

-- The whole history of each key: the failures, and the attempts that nothing ended.
pub record History : Type 0 where
  pub failed : String → List ℕ
  pub opened : String → List ℕ

abbrev pub no_history : History
no_history = record { failed = λ k. []; opened = λ k. [] }

abbrev pub put : String → List ℕ → (String → List ℕ) → String → List ℕ
put k ts f j = if str_eq k j then ts else f j

pub data Op : Type 0 where
  allowed : Op
  failed : Op
  ended : Op
  proved : Op

-- One call at one time for one key: `Allow`, `Fail`, `Done` or `Reset`. The answer of a call that
-- answers nothing is `none`.
abbrev pub step : Op → String → ℕ → Limiter → Limiter × Option Bool
step allowed k n l = let (l', ok) = allow k n l in (l', some ok)
step failed k n l = (fail k n l, none)
step ended k n l = (done k n l, none)
step proved k n l = (reset k l, none)

-- The attempts that are left when the oldest one inside the window has ended.
abbrev pub end_oldest : ℕ → ℕ → String → (String → List ℕ) → String → List ℕ
end_oldest w n k f = put k (later_times (live w n (f k))) f

abbrev pub spec_step : ℕ → ℕ → Op → String → ℕ → History → History × Option Bool
spec_step w max allowed k n h =
    if leb max (length (live w n (h.failed k)) + length (live w n (h.opened k)))
    then (h, some false)
    else (record h { opened = put k (h.opened k ++ n ∷ []) h.opened }, some true)
spec_step w max failed k n h = (
  record { failed = put k (h.failed k ++ n ∷ []) h.failed; opened = end_oldest w n k h.opened },
  none,
)
spec_step w max ended k n h = (record h { opened = end_oldest w n k h.opened }, none)
spec_step w max proved k n h =
    (record { failed = put k [] h.failed; opened = put k [] h.opened }, none)

-- From the time `n` on, the map and the history count the same times for every key.
abbrev pub Same : ℕ → ℕ → Records → (String → List ℕ) → Type 0
Same w n m f = (n' : ℕ) → n ≤ n' → (j : String) → live w n' (times_of j m) ≡ live w n' (f j)

pub record Sim (n : ℕ) (l : Limiter) (h : History) : Type 0 where
  pub failures : Same l.window n l.failures h.failed
  pub open_attempts : Same l.window n l.open_attempts h.opened

module _ (w n : ℕ) (k : String) (m : Records) (f : String → List ℕ) (same : Same w n m f) where
  Same-recent : Same w n (recent w n k m).1 f
  Same-recent n' le j = live-recent w n n' k j m le ∙ same n' le j

  Same-insert :
      (ts us : List ℕ)
      → ((n' : ℕ) → n ≤ n' → live w n' ts ≡ live w n' us)
      → Same w n (insert k ts m) (put k us f)
  Same-insert ts us h n' le j = ground (arith, times_of-insert k j ts m, h n', same n' le j)

  Same-remove : Same w n (remove k m) (put k [] f)
  Same-remove n' le j = ground (arith, times_of-remove k j m, same n' le j)

  Same-end_open : Same w n (end_open w n k m) (end_oldest w n k f)
  Same-end_open n' le j =
      ground (arith, times_of-end_open w n k j m, same n' le j, same n (omega arith) k, eq_iff k j)

  recent-eq_history : (recent w n k m).0 ≡ live w n (f k)
  recent-eq_history = recent-eq_live w n k m ∙ same n (omega arith) k

  live-recent_append :
      (n' : ℕ) → n ≤ n' → live w n' ((recent w n k m).0 ++ n ∷ []) ≡ live w n' (f k ++ n ∷ [])
  live-recent_append n' le =
      rw (recent-eq_history, live-append, live-append, live-live w n n' (f k) le)

  live-times_append :
      (n' : ℕ)
      → n ≤ n'
      → live w n' (times_of k (recent w n k m).1 ++ n ∷ []) ≡ live w n' (f k ++ n ∷ [])
  live-times_append n' le =
      live-append w n' _ (n ∷ [])
      ∙ ap (λ ts. ts ++ live w n' (n ∷ [])) (Same-recent n' le k)
      ∙ sym (live-append w n' (f k) (n ∷ []))

  Same-sweep_keys : (ks : List String) → Same w n (sweep_keys w n ks m) f
  Same-sweep_keys ks n' le j = live-sweep_keys w n n' ks j m le ∙ same n' le j

Sim-sweep : (n : ℕ) (l : Limiter) (h : History) → Sim n l h → Sim n (sweep n l) h
unfolding sweep
Sim-sweep n l h s =
    elim (Bool-cases (
      ltb (l.writes + 1) max_writes && ltb (length l.failures + length l.open_attempts) max_keys)) [
        | inl e ↦ rw e (record { failures = s.failures; open_attempts = s.open_attempts })
        | inr e ↦ rw e (record {
          failures = Same-sweep_keys l.window n "" l.failures h.failed s.failures (keys l.failures);
          open_attempts =
              Same-sweep_keys l.window n "" l.open_attempts h.opened s.open_attempts
                (keys l.open_attempts);
        })
      ]

-- The numbers that a step leaves alone.
abbrev pub SameLimits : Limiter → Limiter → Type 0
SameLimits l l' = (l'.max ≡ l.max) × (l'.window ≡ l.window)

pub SameLimits-step : (o : Op) (k : String) (n : ℕ) (l : Limiter) → SameLimits l (step o k n l).0
unfolding allow fail done reset sweep
SameLimits-step allowed k n l = ground arith
SameLimits-step failed k n l = ground arith
SameLimits-step ended k n l = (refl, refl)
SameLimits-step proved k n l = (refl, refl)

abbrev pub Agrees : ℕ → Limiter × Option Bool → History × Option Bool → Type 0
Agrees n a b = Sim n a.0 b.0 × (a.1 ≡ b.1)

allow-Agrees :
    (k : String) (n : ℕ) (l : Limiter) (h : History)
    → Sim n l h
    → Agrees n (step allowed k n l) (spec_step l.window l.max allowed k n h)
unfolding allow
allow-Agrees k n l h s =
    let w = l.window in
    let fs = (recent w n k l.failures).1 in
    let os = (recent w n k l.open_attempts).1 in
    let sf : Same w n fs h.failed = Same-recent w n k l.failures h.failed s.failures in
    let so : Same w n os h.opened = Same-recent w n k l.open_attempts h.opened s.open_attempts in
    let ef = recent-eq_history w n k l.failures h.failed s.failures in
    let eo = recent-eq_history w n k l.open_attempts h.opened s.open_attempts in
    rw (ef, eo)
      (elim (Bool-cases
        (leb l.max (length (live w n (h.failed k)) + length (live w n (h.opened k))))) [
          | inl e ↦ rw e (record { failures = sf; open_attempts = so }, refl)
          | inr e ↦ rw e (
            Sim-sweep n _ _ (record {
              failures = sf;
              open_attempts =
                  Same-insert w n k os h.opened so _ _
                    (live-times_append w n k l.open_attempts h.opened s.open_attempts);
            }),
            refl,
          )
        ])

pub step-Agrees :
    (o : Op) (k : String) (n : ℕ) (l : Limiter) (h : History)
    → Sim n l h
    → Agrees n (step o k n l) (spec_step l.window l.max o k n h)
unfolding fail done reset
step-Agrees allowed k n l h s = allow-Agrees k n l h s
step-Agrees failed k n l h s = (
  Sim-sweep n _ _ (record {
    failures =
        Same-insert l.window n k _ h.failed
          (Same-recent l.window n k l.failures h.failed s.failures) _ _
          (live-recent_append l.window n k l.failures h.failed s.failures);
    open_attempts = Same-end_open l.window n k l.open_attempts h.opened s.open_attempts;
  }),
  refl,
)
step-Agrees ended k n l h s = (
  record {
    failures = s.failures;
    open_attempts = Same-end_open l.window n k l.open_attempts h.opened s.open_attempts;
  },
  refl,
)
step-Agrees proved k n l h s = (
  record {
    failures = Same-remove l.window n k l.failures h.failed s.failures;
    open_attempts = Same-remove l.window n k l.open_attempts h.opened s.open_attempts;
  },
  refl,
)

abbrev pub Call : Type 0
Call = Op × String × ℕ

unfoldable pub answers : List Call → Limiter → List (Option Bool)
answers [] l = []
answers ((o, k, n) ∷ calls) l = let (l', a) = step o k n l in a ∷ answers calls l'

pub spec_answers : ℕ → ℕ → List Call → History → List (Option Bool)
spec_answers w max [] h = []
spec_answers w max ((o, k, n) ∷ calls) h =
    let (h', a) = spec_step w max o k n h in a ∷ spec_answers w max calls h'

-- The clock does not go back, from the time `n` on.
abbrev pub Forward : ℕ → List Call → Type 0
Forward n [] = Unit
Forward n ((o, k, n') ∷ calls) = (n ≤ n') × Forward n' calls

Sim-later : (n n' : ℕ) (l : Limiter) (h : History) → n ≤ n' → Sim n l h → Sim n' l h
Sim-later n n' l h le s = record {
  failures = λ m lm. s.failures m (omega arith);
  open_attempts = λ m lm. s.open_attempts m (omega arith);
}

answers_agree :
    (n : ℕ) (calls : List Call) (l : Limiter) (h : History)
    → Forward n calls
    → Sim n l h
    → answers calls l ≡ spec_answers l.window l.max calls h
unfolding answers spec_answers
answers_agree n [] l h f s = refl
answers_agree n ((o, k, n') ∷ calls) l h f s =
    let (s', a) = step-Agrees o k n' l h (Sim-later n n' l h f.0 s) in
    let (m, w) = SameLimits-step o k n' l in
    let l' = (step o k n' l).0 in
    let h' = (spec_step l.window l.max o k n' h).0 in
    cc (a, ap₂ (λ w' m'. spec_answers w' m' calls h') w m, answers_agree n' calls l' h' f.1 s')

-- What the limiter stores and what it drops is invisible: for any calls in the order of a clock,
-- the answers of a new limiter are those of the one that keeps each whole history and counts only
-- the times inside the window.
pub answers-new_limiter_with :
    (max window : ℕ) (calls : List Call)
    → Forward 0 calls
    → answers calls (new_limiter_with max window) ≡ spec_answers window max calls no_history
unfolding new_limiter_with times_of lookup
answers-new_limiter_with max window calls f =
    answers_agree 0 calls (new_limiter_with max window) no_history f
      (record { failures = λ n le j. refl; open_attempts = λ n le j. refl })
