-- ===== src/Guard/Limiter/Counts.antt =====
-- How many attempts of one address count, and how many are permitted.
use portapixel.Prelude.{
  ℕ, zero, suc, ◌+◌, ◌-◌, ◌<◌, min, ◌≡◌, refl, ◌∙◌, ap, inl, inr, String, Bool, true, false, some,
  List, [], ◌∷◌, ◌++◌, arith, ltb, length, length-append, eq_refl, Bool-cases,
}
use mathlib.Core.Path.{ap₂}
use portapixel.Guard.Limiter.{Limiter, times_of, live, allow}
use portapixel.Guard.Limiter.Times.{live-append}
use portapixel.Guard.Limiter.Refinement.{
  History, Sim, Op, allowed, step, spec_step, step-Agrees, SameLimits-step,
}

-- The failures and the open attempts of a key that count at a time.
abbrev pub failures_at : String → ℕ → Limiter → ℕ
failures_at k n l = length (live l.window n (times_of k l.failures))

abbrev pub open_at : String → ℕ → Limiter → ℕ
open_at k n l = length (live l.window n (times_of k l.open_attempts))

abbrev pub total_at : String → ℕ → Limiter → ℕ
total_at k n l = failures_at k n l + open_at k n l

abbrev history_of : Limiter → History
history_of l = record {
  failed = λ k. times_of k l.failures;
  opened = λ k. times_of k l.open_attempts;
}

Sim-history_of : (n : ℕ) (l : Limiter) → Sim n l (history_of l)
Sim-history_of n l = record { failures = λ m le j. refl; open_attempts = λ m le j. refl }

abbrev counted : ℕ → String → ℕ → History → ℕ
counted w k n h = length (live w n (h.failed k)) + length (live w n (h.opened k))

-- The counts of a limiter after a step, in terms of the history that goes with it.
total_at-step :
    (o : Op) (k : String) (n : ℕ) (l : Limiter)
    → total_at k n (step o k n l).0
      ≡ counted l.window k n (spec_step l.window l.max o k n (history_of l)).0
total_at-step o k n l =
    let s = (step-Agrees o k n l (history_of l) (Sim-history_of n l)).0 in
    let h' = (spec_step l.window l.max o k n (history_of l)).0 in
    ap₂ (λ (a b : ℕ). a + b) (ap length (s.failures n (omega arith) k))
      (ap length (s.open_attempts n (omega arith) k))
    ∙ ap (λ w. counted w k n h') (SameLimits-step o k n l).1

abbrev pub bit : Bool → ℕ
bit false = 0
bit true = 1

length-live_now :
    (w n : ℕ) (ts : List ℕ) → 0 < w → length (live w n (ts ++ n ∷ [])) ≡ length (live w n ts) + 1
length-live_now w n ts h = rw (live-append, length-append) (unfold live in ground arith)

some_eq : {a b : Bool} → some a ≡ some b → a ≡ b
some_eq h = cc

spec_allow_total :
    (w max : ℕ) (k : String) (n : ℕ) (h : History)
    → 0 < w
    → ((spec_step w max allowed k n h).1 ≡ some (ltb (counted w k n h) max))
      × (counted w k n (spec_step w max allowed k n h).0
          ≡ counted w k n h + bit (ltb (counted w k n h) max))
spec_allow_total w max k n h pos = ground (arith, length-live_now w n (h.opened k) pos, eq_refl k)

-- An attempt is permitted exactly while fewer than `max` failures and open attempts of its address
-- count, and a permitted attempt counts from then on.
allow_total :
    (k : String) (n : ℕ) (l : Limiter)
    → 0 < l.window
    → ((allow k n l).1 ≡ ltb (total_at k n l) l.max)
      × (total_at k n (allow k n l).0 ≡ total_at k n l + bit (ltb (total_at k n l) l.max))
allow_total k n l pos =
    let (answer, total) = spec_allow_total l.window l.max k n (history_of l) pos in
    (
      some_eq ((step-Agrees allowed k n l (history_of l) (Sim-history_of n l)).1 ∙ answer),
      total_at-step allowed k n l ∙ total,
    )

-- Attempts that arrive together, with no report between them: how many are permitted.
pub burst : String → ℕ → ℕ → Limiter → ℕ
burst k n zero l = 0
burst k n (suc m) l = let (l', ok) = allow k n l in bit ok + burst k n m l'

-- Of `m` attempts that one address makes at one time, as many are permitted as there is room for
-- under the limit, and no more.
pub burst_lem :
    (k : String) (n m : ℕ) (l : Limiter)
    → 0 < l.window
    → burst k n m l ≡ min m (l.max - total_at k n l)
unfolding burst
burst_lem k n zero l pos = omega arith
burst_lem k n (suc m) l pos =
    let (ok, total) = allow_total k n l pos in
    let l' = (allow k n l).0 in
    let (same_max, same_window) = SameLimits-step allowed k n l in
    let rest = burst_lem k n m l' (rw same_window pos) in
    elim (Bool-cases (ltb (total_at k n l) l.max)) [
      | inl e ↦ ground (arith, rest)
      | inr e ↦ ground (arith, rest)
    ]
