-- ===== src/Schedule/Evaluations.antt =====
-- Evaluations one after another: the second of two equal ones does nothing, and the ops log says
-- each turn of the clock gate once.
use portapixel.Prelude.{
  ℕ, suc, ◌+◌, ◌≡◌, String, Bool, true, false, List, [], ◌∷◌, ◌++◌, arith, str_eq, eq_iff, eq_refl,
  Bool-cases, inl, inr,
}
use portapixel.Config.{Config}
use portapixel.Schedule.{
  WallClock, Scheduler, Line, clock_wait, clock_ok, playlist, wanted, publish, evaluate, match_rule,
  default_playlist,
}

wanted-publish :
    (cfg : Config) (now : WallClock) (synced : Bool) (name : String) (s : Scheduler)
    → wanted (publish name synced s).0 cfg now synced ≡ wanted s cfg now synced
unfolding wanted match_rule default_playlist publish
wanted-publish cfg now synced name s = elim (Bool-cases (str_eq name s.active)) [
  | inl e ↦ rw e
  | inr e ↦ rw e
]

publish_idem :
    (name : String) (synced : Bool) (s : Scheduler)
    → publish name synced (publish name synced s).0 ≡ ((publish name synced s).0, [])
unfolding publish
publish_idem name true s = ground (arith, eq_iff name s.active, eq_refl name)
publish_idem name false s = ground (arith, eq_iff name s.active, eq_refl name)

-- Evaluated again with the same readings, the scheduler keeps its state and its name, and the ops
-- log gets no line.
evaluate_idem :
    (cfg : Config) (now : WallClock) (synced : Bool) (s : Scheduler)
    → evaluate cfg now synced (evaluate cfg now synced s).0
      ≡ ((evaluate cfg now synced s).0, (evaluate cfg now synced s).1, [])
unfolding evaluate
evaluate_idem cfg now synced s =
    let name = wanted s cfg now synced in
    rw (wanted-publish cfg now synced name s) (rw (publish_idem name synced s))

-- The readings of one evaluation.
pub record Reading : Type 0 where
  pub cfg : Config
  pub now : WallClock
  pub synced : Bool

-- The ops log of evaluations one after another.
pub log_of : List Reading → Scheduler → List Line
log_of [] s = []
log_of (r ∷ rs) s = let (s', name, lines) = evaluate r.cfg r.now r.synced s in lines ++ log_of rs s'

pub final : List Reading → Scheduler → Scheduler
final [] s = s
final (r ∷ rs) s = final rs (evaluate r.cfg r.now r.synced s).0

-- How many lines say that the clock is waited for, and how many that it is good.
abbrev pub waits : List Line → ℕ
waits [] = 0
waits (clock_wait name ∷ ls) = suc (waits ls)
waits (clock_ok ∷ ls) = waits ls
waits (playlist name ∷ ls) = waits ls

abbrev pub oks : List Line → ℕ
oks [] = 0
oks (clock_ok ∷ ls) = suc (oks ls)
oks (clock_wait name ∷ ls) = oks ls
oks (playlist name ∷ ls) = oks ls

abbrev pub bit : Bool → ℕ
bit false = 0
bit true = 1

waits-append : (xs ys : List Line) → waits (xs ++ ys) ≡ waits xs + waits ys
waits-append [] ys = omega arith
waits-append (clock_wait name ∷ xs) ys = omega (arith, waits-append xs ys)
waits-append (clock_ok ∷ xs) ys = omega (arith, waits-append xs ys)
waits-append (playlist name ∷ xs) ys = omega (arith, waits-append xs ys)

oks-append : (xs ys : List Line) → oks (xs ++ ys) ≡ oks xs + oks ys
oks-append [] ys = omega arith
oks-append (clock_wait name ∷ xs) ys = omega (arith, oks-append xs ys)
oks-append (clock_ok ∷ xs) ys = omega (arith, oks-append xs ys)
oks-append (playlist name ∷ xs) ys = omega (arith, oks-append xs ys)

publish_gate :
    (name : String) (synced : Bool) (s : Scheduler)
    → bit s.gated + waits (publish name synced s).1
      ≡ oks (publish name synced s).1 + bit (publish name synced s).0.gated
unfolding publish
publish_gate name true s = ground arith
publish_gate name false s = ground arith

-- Over any evaluations, the lines of the ops log that say that the clock is waited for, plus one if
-- the gate was closed at the start, are as many as the lines that say that the clock is good, plus
-- one if the gate is closed at the end.
log_of_gate :
    (rs : List Reading) (s : Scheduler)
    → bit s.gated + waits (log_of rs s) ≡ oks (log_of rs s) + bit (final rs s).gated
unfolding log_of final evaluate
log_of_gate [] s = omega arith
log_of_gate (r ∷ rs) s =
    let name = wanted s r.cfg r.now r.synced in
    let p = publish name r.synced s in
    omega (
      arith,
      publish_gate name r.synced s,
      log_of_gate rs p.0,
      waits-append p.1 (log_of rs p.0),
      oks-append p.1 (log_of rs p.0),
    )
