-- ===== src/Device/Identity/Remembered.antt =====
-- The memory of the commands that ran, and of the releases that failed.
use portapixel.Prelude.{
  ℕ, zero, suc, ◌+◌, ◌-◌, ◌≤◌, ◌<◌, ◌≡◌, refl, ap, ◌∙◌, ◌⊎◌, inl, inr, true, false, ◌||◌, List, [],
  ◌∷◌, ◌++◌, arith, ltb, ◌==◌, length, drop, length-append, drop-append_left, Bool-cases,
}
use mathlib.Core.List.{append_assoc}
use native.Mathlib.Nat.{add-zero}
use portapixel.Device.Identity.{
  State, max_commands, keep_newest, contains_id, mark_command, ran_command,
}

-- The ID is among the `k` newest of the list.
pub record Within (k : ℕ) (id : ℕ) (cs : List ℕ) : Type 0 where
  pub older : List ℕ
  pub newer : List ℕ
  pub split : cs ≡ older ++ id ∷ newer
  pub few : length newer < k

contains_id-append :
    (xs ys : List ℕ) (id : ℕ) → contains_id (xs ++ ys) id ≡ (contains_id xs id || contains_id ys id)
unfolding contains_id
contains_id-append [] ys id = refl
contains_id-append (x ∷ xs) ys id = ground (arith, contains_id-append xs ys id)

contains_id-Within : (k id : ℕ) (cs : List ℕ) → Within k id cs → contains_id cs id ≡ true
contains_id-Within k id cs w = rw (w.split, contains_id-append) (unfold contains_id in ground arith)

Within-keep_newest :
    (n k id : ℕ) (cs : List ℕ) → k ≤ n → Within k id cs → Within k id (keep_newest n cs)
unfolding keep_newest
Within-keep_newest n k id cs h w = elim (Bool-cases (ltb n (length cs))) [
  | inl e ↦ rw e (record {
    older = drop (length cs - n) w.older;
    newer = w.newer;
    split =
        ap (drop (length cs - n)) w.split
        ∙ drop-append_left (length cs - n) w.older (id ∷ w.newer)
            (omega (arith, ap length w.split, length-append w.older (id ∷ w.newer)));
    few = w.few;
  })
  | inr e ↦ rw e w
]

Within-append : (k id x : ℕ) (cs : List ℕ) → Within k id cs → Within (suc k) id (cs ++ x ∷ [])
Within-append k id x cs w = record {
  older = w.older;
  newer = w.newer ++ x ∷ [];
  split = rw w.split (append_assoc w.older (id ∷ w.newer) (x ∷ []));
  few = omega (arith, length-append w.newer (x ∷ []));
}

Within-weaken : (k id : ℕ) (cs : List ℕ) → Within k id cs → Within (suc k) id cs
Within-weaken k id cs w = record {
  older = w.older;
  newer = w.newer;
  split = w.split;
  few = omega arith;
}

Within-mark_command :
    (k id x : ℕ) (s : State)
    → suc k ≤ max_commands
    → Within k id s.commands
    → Within (suc k) id (mark_command x s).commands
unfolding mark_command
Within-mark_command k id x s h w = elim (Bool-cases (contains_id s.commands x)) [
  | inl e ↦ rw e (Within-weaken k id s.commands w)
  | inr e ↦
      rw e (Within-keep_newest max_commands (suc k) id _ h (Within-append k id x s.commands w))
]

unfoldable pub mark_commands : List ℕ → State → State
mark_commands [] s = s
mark_commands (id ∷ ids) s = mark_commands ids (mark_command id s)

contains_id-drop :
    (d id : ℕ) (cs : List ℕ) → contains_id cs id ≡ false → contains_id (drop d cs) id ≡ false
contains_id-drop zero id cs h = h
contains_id-drop (suc d) id [] h = h
contains_id-drop (suc d) id (c ∷ cs) h =
    contains_id-drop d id cs (unfold contains_id in ground arith)

contains_id-keep_newest :
    (n id : ℕ) (cs : List ℕ) → contains_id cs id ≡ false → contains_id (keep_newest n cs) id ≡ false
unfolding keep_newest
contains_id-keep_newest n id cs h = ground (arith, contains_id-drop (length cs - n) id cs h)

-- An ID that is new to the memory, or among the `k` newest.
abbrev pub Kept : ℕ → ℕ → State → Type 0
Kept k id s = (ran_command id s ≡ false) ⊎ Within k id s.commands

Within-mark_command_self :
    (k id : ℕ) (s : State)
    → suc k ≤ max_commands
    → Kept k id s
    → Within (suc k) id (mark_command id s).commands
unfolding mark_command ran_command
Within-mark_command_self k id s h (inl new) = rw new (
    Within-keep_newest max_commands (suc k) id (s.commands ++ id ∷ []) h
      (record { older = s.commands; newer = []; split = refl; few = omega arith }))
Within-mark_command_self k id s h (inr w) = Within-mark_command k id id s h w

-- A command that is recorded is remembered, whatever the memory held before.
pub ran_command-mark_command : (id : ℕ) (s : State) → ran_command id (mark_command id s) ≡ true
unfolding ran_command mark_command
ran_command-mark_command id s = elim (Bool-cases (contains_id s.commands id)) [
  | inl e ↦ rw e e
  | inr e ↦
      contains_id-Within 1 id (mark_command id s).commands
        (Within-mark_command_self 0 id s (omega arith) (inl e))
]

still_new :
    (id x : ℕ) (s : State)
    → ran_command id s ≡ false
    → (x == id) ≡ false
    → ran_command id (mark_command x s) ≡ false
unfolding mark_command ran_command
still_new id x s new e =
    let cs = s.commands ++ x ∷ [] in
    let f : contains_id cs id ≡ false = rw (contains_id-append, new) (unfold contains_id in rw e) in
    ground (arith, contains_id-keep_newest max_commands id cs f)

Kept-mark_command :
    (k id x : ℕ) (s : State)
    → suc k ≤ max_commands
    → Kept k id s
    → Kept (suc k) id (mark_command x s)
Kept-mark_command k id x s h (inr w) = inr (Within-mark_command k id x s h w)
Kept-mark_command k id x s h (inl new) = elim (Bool-cases (x == id)) [
  | inl e ↦
      let same : x ≡ id = ground arith in
      rw same (inr (Within-mark_command_self k id s h (inl new)))
  | inr e ↦ inl (still_new id x s new e)
]

abbrev pub AllKept : ℕ → List ℕ → State → Type 0
AllKept k [] s = Unit
AllKept k (id ∷ ids) s = Kept k id s × AllKept k ids s

AllKept-mark_command :
    (k x : ℕ) (ids : List ℕ) (s : State)
    → suc k ≤ max_commands
    → AllKept k ids s
    → AllKept (suc k) ids (mark_command x s)
AllKept-mark_command k x [] s h a = tt
AllKept-mark_command k x (id ∷ ids) s h a =
    (Kept-mark_command k id x s h a.0, AllKept-mark_command k x ids s h a.1)

Within-mark_commands :
    (k id : ℕ) (ids : List ℕ) (s : State)
    → k + length ids ≤ max_commands
    → Within k id s.commands
    → Within (k + length ids) id (mark_commands ids s).commands
unfolding mark_commands
Within-mark_commands k id [] s h w = rw add-zero w
Within-mark_commands k id (x ∷ ids) s h w =
    let e : k + suc (length ids) ≡ suc k + length ids = omega arith in
    rw e (
      Within-mark_commands (suc k) id ids (mark_command x s) (omega arith)
        (Within-mark_command k id x s (omega arith) w))

pub mark_commands-append :
    (xs ys : List ℕ) (s : State)
    → mark_commands (xs ++ ys) s ≡ mark_commands ys (mark_commands xs s)
unfolding mark_commands
mark_commands-append [] ys s = refl
mark_commands-append (x ∷ xs) ys s = mark_commands-append xs ys (mark_command x s)

-- A new command is remembered until 100 others were recorded after it.
pub ran_command-later :
    (id : ℕ) (later : List ℕ) (s : State)
    → ran_command id s ≡ false
    → length later < max_commands
    → ran_command id (mark_commands (id ∷ later) s) ≡ true
unfolding mark_commands ran_command
ran_command-later id later s new few = contains_id-Within _ id _ (
    Within-mark_commands 1 id later (mark_command id s) (omega (arith, few))
      (Within-mark_command_self 0 id s (omega arith) (inl new)))

abbrev pub AllRan : List ℕ → State → Type 0
AllRan [] s = Unit
AllRan (id ∷ ids) s = (ran_command id s ≡ true) × AllRan ids s

AllKept-AllRan :
    (k : ℕ) (ids : List ℕ) (s : State)
    → k + length ids ≤ max_commands
    → AllKept k ids s
    → AllRan ids (mark_commands ids s)
unfolding mark_commands ran_command
AllKept-AllRan k [] s h a = tt
AllKept-AllRan k (id ∷ ids) s h a = (
  contains_id-Within _ id _ (
      Within-mark_commands (suc k) id ids (mark_command id s) (omega arith)
        (Within-mark_command_self k id s (omega arith) a.0)),
  AllKept-AllRan (suc k) ids (mark_command id s) (omega arith)
      (AllKept-mark_command k id ids s (omega arith) a.1),
)

abbrev pub AllNew : List ℕ → State → Type 0
AllNew [] s = Unit
AllNew (id ∷ ids) s = (ran_command id s ≡ false) × AllNew ids s

AllKept-AllNew : (ids : List ℕ) (s : State) → AllNew ids s → AllKept 0 ids s
AllKept-AllNew [] s a = tt
AllKept-AllNew (id ∷ ids) s a = (inl a.0, AllKept-AllNew ids s a.1)

-- Commands that are new to the device, 100 at most, are all remembered after they ran, whatever
-- the memory held before.
pub ran_command-mark_commands :
    (ids : List ℕ) (s : State)
    → AllNew ids s
    → length ids ≤ max_commands
    → AllRan ids (mark_commands ids s)
ran_command-mark_commands ids s new few =
    AllKept-AllRan 0 ids s (omega arith) (AllKept-AllNew ids s new)
