-- ===== src/Guard/Limiter/Times.antt =====
-- The times that each map of the limiter holds for a key, after each change of a map.
use portapixel.Prelude.{
  ℕ, ◌≤◌, ◌≡◌, refl, ◌∙◌, String, List, [], ◌∷◌, ◌++◌, arith, if◌then◌else◌, str_eq, eq_iff,
  eq_refl,
}
use portapixel.Prelude.Assoc.{insert, remove, lookup-insert, lookup-remove}
use portapixel.Guard.Limiter.{Records, times_of, live, recent, sweep_keys, end_open, drop_oldest}

-- All but the oldest time.
abbrev pub later_times : List ℕ → List ℕ
later_times [] = []
later_times (t ∷ ts) = ts

pub live-live : (w n n' : ℕ) (ts : List ℕ) → n ≤ n' → live w n' (live w n ts) ≡ live w n' ts
unfolding live
live-live w n n' [] h = refl
live-live w n n' (t ∷ ts) h = ground (arith, live-live w n n' ts h)

pub live-append : (w n : ℕ) (xs ys : List ℕ) → live w n (xs ++ ys) ≡ live w n xs ++ live w n ys
unfolding live
live-append w n [] ys = refl
live-append w n (x ∷ xs) ys = ground (arith, live-append w n xs ys)

pub times_of-insert :
    (k j : String) (ts : List ℕ) (m : Records)
    → times_of j (insert k ts m) ≡ (if str_eq k j then ts else times_of j m)
unfolding times_of
times_of-insert k j ts m = ground (arith, lookup-insert k j ts m)

pub times_of-remove :
    (k j : String) (m : Records)
    → times_of j (remove k m) ≡ (if str_eq k j then [] else times_of j m)
unfolding times_of
times_of-remove k j m = ground (arith, lookup-remove k j m)

pub recent-eq_live :
    (w n : ℕ) (k : String) (m : Records) → (recent w n k m).0 ≡ live w n (times_of k m)
unfolding recent
recent-eq_live w n k m = ground arith

pub times_of-recent :
    (w n : ℕ) (k j : String) (m : Records)
    → times_of j (recent w n k m).1 ≡ (if str_eq k j then live w n (times_of j m) else times_of j m)
unfolding recent
times_of-recent w n k j m =
    let kept = live w n (times_of k m) in
    ground (arith, times_of-remove k j m, times_of-insert k j kept m, eq_iff k j)

pub live-recent :
    (w n n' : ℕ) (k j : String) (m : Records)
    → n ≤ n'
    → live w n' (times_of j (recent w n k m).1) ≡ live w n' (times_of j m)
live-recent w n n' k j m h =
    ground (arith, times_of-recent w n k j m, live-live w n n' (times_of j m) h)

times_of-drop_oldest :
    (k j : String) (ts : List ℕ) (m : Records)
    → times_of k m ≡ ts
    → times_of j (drop_oldest k ts m)
      ≡ (if str_eq k j then later_times (times_of j m) else times_of j m)
unfolding drop_oldest
times_of-drop_oldest k j [] m h = ground (arith, eq_iff k j)
times_of-drop_oldest k j (t ∷ []) m h = ground (arith, eq_iff k j, times_of-remove k j m)
times_of-drop_oldest k j (t ∷ u ∷ ts) m h =
    ground (arith, eq_iff k j, times_of-insert k j (u ∷ ts) m)

pub times_of-end_open :
    (w n : ℕ) (k j : String) (m : Records)
    → times_of j (end_open w n k m)
      ≡ (if str_eq k j then later_times (live w n (times_of j m)) else times_of j m)
unfolding end_open
times_of-end_open w n k j m =
    let (kept, m') = recent w n k m in
    ground (
      arith,
      times_of-recent w n k j m,
      times_of-recent w n k k m,
      recent-eq_live w n k m,
      times_of-drop_oldest k j kept m',
      eq_refl k,
    )

-- A sweep of a map is invisible: at no later time does a key count another time.
pub live-sweep_keys :
    (w n n' : ℕ) (ks : List String) (j : String) (m : Records)
    → n ≤ n'
    → live w n' (times_of j (sweep_keys w n ks m)) ≡ live w n' (times_of j m)
unfolding sweep_keys
live-sweep_keys w n n' [] j m h = refl
live-sweep_keys w n n' (k ∷ ks) j m h =
    live-sweep_keys w n n' ks j (recent w n k m).1 h ∙ live-recent w n n' k j m h
