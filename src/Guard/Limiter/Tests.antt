-- ===== src/Guard/Limiter/Tests.antt =====
-- Two addresses at the login limiter.
use portapixel.Prelude.{◌+◌, ◌≡◌, refl, true, none, some, List, [], ◌∷◌, arith}
use portapixel.Prelude.Assoc.{lookup, insert, remove}
use portapixel.Guard.Limiter.{
  Limiter, new_limiter, new_limiter_with, fail_window, times_of, live, recent, sweep, end_open,
  allow, fail, done,
}
use portapixel.Guard.Limiter.Refinement.{
  Call, allowed, failed, ended, answers, spec_answers, no_history, answers-new_limiter_with,
}
use portapixel.Guard.Limiter.Counts.{burst, burst_lem}

abbrev calls : List Call
calls =
    (allowed, "10.0.0.7", 0)
    ∷ (failed, "10.0.0.7", 1)
    ∷ (allowed, "10.0.0.9", 2)
    ∷ (allowed, "10.0.0.7", fail_window + 2)
    ∷ (ended, "10.0.0.7", fail_window + 3)
    ∷ []

answers-new_limiter_with_example :
    answers calls (new_limiter_with 1 fail_window) ≡ spec_answers fail_window 1 calls no_history
answers-new_limiter_with_example = answers-new_limiter_with 1 fail_window calls (omega arith)

answers_run :
    answers calls (new_limiter_with 1 fail_window)
    ≡ some true ∷ none ∷ some true ∷ some true ∷ none ∷ []
unfolding answers new_limiter_with allow fail done sweep recent times_of live lookup insert remove
    end_open
answers_run = refl

abbrev busy : Limiter
busy = (allow "10.0.0.7" 5 new_limiter).0

burst_lem_example : burst "10.0.0.7" 5 9 new_limiter ≡ 5
unfolding new_limiter times_of live lookup
burst_lem_example = burst_lem "10.0.0.7" 5 9 new_limiter (omega arith)
