-- ===== src/Guard/Limiter.antt =====
-- internal/httpguard/limiter.go: failed and open attempts for each address.
-- A time is a number of nanoseconds. An operation reads the clock once.
pub mod Times
pub mod Counts
pub mod Refinement
mod Tests
use portapixel.Prelude.{
  ℕ, suc, ◌+◌, ◌*◌, String, Bool, true, false, ◌&&◌, Option, none, some, List, [], ◌∷◌, ◌++◌, ltb,
  leb, length, is_empty, if◌then◌else◌, map,
}
use portapixel.Prelude.Assoc.{lookup, insert, remove}

abbrev pub second : ℕ
second = 1000000000

abbrev pub max_failures : ℕ
max_failures = 5

abbrev pub fail_window : ℕ
fail_window = 60 * second

abbrev pub max_pending : ℕ
max_pending = 5

abbrev pub pending_window : ℕ
pending_window = 3600 * second

abbrev pub max_writes : ℕ
max_writes = 1024

abbrev pub max_keys : ℕ
max_keys = 20000

abbrev pub Records : Type 0
Records = List (String × List ℕ)

pub record Limiter : Type 0 where
  pub max : ℕ
  pub window : ℕ
  pub failures : Records
  pub open_attempts : Records
  pub writes : ℕ

unfoldable pub new_limiter_with : ℕ → ℕ → Limiter
new_limiter_with max window = record {
  max = max;
  window = window;
  failures = [];
  open_attempts = [];
  writes = 0;
}

unfoldable pub new_limiter : Limiter
unfolding new_limiter_with
new_limiter = new_limiter_with max_failures fail_window

unfoldable pub new_pending_limiter : Limiter
unfolding new_limiter_with
new_pending_limiter = new_limiter_with max_pending pending_window

-- `m[key]`, with the nil slice for a key that is missing.
unfoldable pub times_of : String → Records → List ℕ
times_of key m = elim (lookup key m) [ none ↦ [] | some ts ↦ ts ]

-- The loop of `recent`. The test `t.After(now - window)` is `now < t + window`.
unfoldable pub live : ℕ → ℕ → List ℕ → List ℕ
live window now [] = []
live window now (t ∷ ts) =
    let rest = live window now ts in if ltb now (t + window) then t ∷ rest else rest

-- `recent`: the times that count, and the map without the others.
pub recent : ℕ → ℕ → String → Records → List ℕ × Records
recent window now key m =
    let kept = live window now (times_of key m) in
    if is_empty kept then ([], remove key m) else (kept, insert key kept m)

abbrev pub keys : Records → List String
keys [] = []
keys ((key, ts) ∷ m) = key ∷ keys m

-- The inner loop of `sweep`, over the keys of one map.
pub sweep_keys : ℕ → ℕ → List String → Records → Records
sweep_keys window now [] m = m
sweep_keys window now (key ∷ ks) m = sweep_keys window now ks (recent window now key m).1

pub sweep : ℕ → Limiter → Limiter
sweep now l =
    let writes = l.writes + 1 in
    if ltb writes max_writes && ltb (length l.failures + length l.open_attempts) max_keys
    then record l { writes = writes }
    else record l {
      writes = 0;
      failures = sweep_keys l.window now (keys l.failures) l.failures;
      open_attempts = sweep_keys l.window now (keys l.open_attempts) l.open_attempts;
    }

pub allow : String → ℕ → Limiter → Limiter × Bool
allow key now l =
    let (failed, fs) = recent l.window now key l.failures in
    let (opened, os) = recent l.window now key l.open_attempts in
    if leb l.max (length failed + length opened)
    then (record l { failures = fs; open_attempts = os }, false)
    else (
      sweep now
          (record l { failures = fs; open_attempts = insert key (times_of key os ++ now ∷ []) os }),
      true,
    )

drop_oldest : String → List ℕ → Records → Records
drop_oldest key [] m = m
drop_oldest key (t ∷ []) m = remove key m
drop_oldest key (t ∷ u ∷ ts) m = insert key (u ∷ ts) m

-- `endOpen`, on the map of the open attempts.
pub end_open : ℕ → ℕ → String → Records → Records
unfolding drop_oldest
end_open window now key m = let (kept, m') = recent window now key m in drop_oldest key kept m'

pub fail : String → ℕ → Limiter → Limiter
fail key now l =
    let (failed, fs) = recent l.window now key l.failures in
    sweep now (record l {
      open_attempts = end_open l.window now key l.open_attempts;
      failures = insert key (failed ++ now ∷ []) fs;
    })

pub done : String → ℕ → Limiter → Limiter
done key now l = record l { open_attempts = end_open l.window now key l.open_attempts }

pub reset : String → Limiter → Limiter
reset key l = record l {
  failures = remove key l.failures;
  open_attempts = remove key l.open_attempts;
}
