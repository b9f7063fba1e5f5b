-- ===== src/Schedule/Subscribers.antt =====
-- The channels of the subscribers, over any sequence of steps.
use portapixel.Prelude.{
  ℕ, ◌≡◌, refl, ap, ◌≢◌, ◌⊎◌, inl, inr, String, Bool, List, [], ◌∷◌, arith, str_eq, eq_iff,
  if◌then◌else◌, Option, none, some, ◌==◌, Bool-cases,
}
use portapixel.Config.{Rule, ScreenRule, Config}
use portapixel.Schedule.{
  WallClock, Scheduler, new, wanted, tell, publish, send_newest, evaluate, set_fleet_rules,
  clear_fleet_rules, subscribe, unsubscribe, delete_sub,
}

-- A reader takes the name out of its channel.
receive_subs : ℕ → List (ℕ × Option String) → List (ℕ × Option String)
receive_subs id [] = []
receive_subs id ((j, ch) ∷ subs) = (j, if j == id then none else ch) ∷ receive_subs id subs

pub receive : ℕ → Scheduler → Scheduler
receive id s = record s { subs = receive_subs id s.subs }

-- One call of the scheduler, or one read by a subscriber.
pub data Step (s : Scheduler) : Scheduler → Type 0 where
  evaluated :
      (cfg : Config) (now : WallClock) (synced : Bool) → Step s (evaluate cfg now synced s).0
  paired :
      (cfg : Config) (now : WallClock) (synced : Bool) (def : String) (rules : List Rule)
      (screen : Option ScreenRule)
      → Step s (set_fleet_rules cfg now synced def rules screen s).0
  unpaired :
      (cfg : Config) (now : WallClock) (synced : Bool)
      → Step s (clear_fleet_rules cfg now synced s).0
  subscribed : Step s (subscribe s).0
  unsubscribed : (id : ℕ) → Step s (unsubscribe id s)
  received : (id : ℕ) → Step s (receive id s)

pub data Reach : Scheduler → Type 0 where
  start : Reach new
  next : {s t : Scheduler} → Reach s → Step s t → Reach t

-- A channel is empty, or it holds this name.
abbrev pub Holds : String → Option String → Type 0
Holds name ch = (ch ≡ none) ⊎ (ch ≡ some name)

abbrev pub AllHold : String → List (ℕ × Option String) → Type 0
AllHold name [] = Unit
AllHold name ((id, ch) ∷ subs) = Holds name ch × AllHold name subs

abbrev pub AllTold : String → List (ℕ × Option String) → Type 0
AllTold name [] = Unit
AllTold name ((id, ch) ∷ subs) = (ch ≡ some name) × AllTold name subs

AllTold-tell : (name : String) (subs : List (ℕ × Option String)) → AllTold name (tell name subs)
unfolding tell send_newest
AllTold-tell name [] = tt
AllTold-tell name ((id, none) ∷ subs) = (refl, AllTold-tell name subs)
AllTold-tell name ((id, some x) ∷ subs) = (refl, AllTold-tell name subs)

AllHold-AllTold :
    (name : String) (subs : List (ℕ × Option String)) → AllTold name subs → AllHold name subs
AllHold-AllTold name [] h = tt
AllHold-AllTold name ((id, ch) ∷ subs) h = (inr h.0, AllHold-AllTold name subs h.1)

AllHold-delete_sub :
    (name : String) (id : ℕ) (subs : List (ℕ × Option String))
    → AllHold name subs
    → AllHold name (delete_sub id subs)
unfolding delete_sub
AllHold-delete_sub name id [] h = tt
AllHold-delete_sub name id ((j, ch) ∷ subs) h = elim (Bool-cases (j == id)) [
  | inl e ↦ rw e (AllHold-delete_sub name id subs h.1)
  | inr e ↦ rw e (h.0, AllHold-delete_sub name id subs h.1)
]

AllHold-receive_subs :
    (name : String) (id : ℕ) (subs : List (ℕ × Option String))
    → AllHold name subs
    → AllHold name (receive_subs id subs)
unfolding receive_subs
AllHold-receive_subs name id [] h = tt
AllHold-receive_subs name id ((j, ch) ∷ subs) h =
    (ground arith, AllHold-receive_subs name id subs h.1)

AllHold-publish :
    (name : String) (synced : Bool) (s : Scheduler)
    → AllHold s.active s.subs
    → AllHold (publish name synced s).0.active (publish name synced s).0.subs
unfolding publish
AllHold-publish name synced s h = elim (Bool-cases (str_eq name s.active)) [
  | inl e ↦ rw (e, (eq_iff name s.active).0 e) h
  | inr e ↦ rw e (AllHold-AllTold name (tell name s.subs) (AllTold-tell name s.subs))
]

Step-AllHold : {s t : Scheduler} → Step s t → AllHold s.active s.subs → AllHold t.active t.subs
unfolding evaluate set_fleet_rules clear_fleet_rules subscribe unsubscribe receive
Step-AllHold {s} (evaluated cfg now synced) h = AllHold-publish _ synced s h
Step-AllHold (paired cfg now synced def rules screen) h = AllHold-publish _ synced _ h
Step-AllHold (unpaired cfg now synced) h = AllHold-publish _ synced _ h
Step-AllHold subscribed h = (inl refl, h)
Step-AllHold {s} (unsubscribed id) h = AllHold-delete_sub s.active id s.subs h
Step-AllHold {s} (received id) h = AllHold-receive_subs s.active id s.subs h

-- In every state that calls and reads can reach, a channel is empty or holds the active name: no
-- subscriber ever reads an old name.
pub Reach-AllHold : {s : Scheduler} → Reach s → AllHold s.active s.subs
Reach-AllHold start = tt
Reach-AllHold (next r st) = Step-AllHold st (Reach-AllHold r)

abbrev pub ids : List (ℕ × Option String) → List ℕ
ids [] = []
ids ((id, ch) ∷ subs) = id ∷ ids subs

ids-tell : (name : String) (subs : List (ℕ × Option String)) → ids (tell name subs) ≡ ids subs
unfolding tell
ids-tell name [] = refl
ids-tell name ((id, ch) ∷ subs) = ap (λ l. id ∷ l) (ids-tell name subs)

-- An evaluation that changes the active name puts the new name into the channel of every
-- subscriber, a full one included, and takes no subscriber away.
evaluate_tells_all :
    (cfg : Config) (now : WallClock) (synced : Bool) (s : Scheduler)
    → (evaluate cfg now synced s).1 ≢ s.active
    → AllTold (evaluate cfg now synced s).1 (evaluate cfg now synced s).0.subs
      × (ids (evaluate cfg now synced s).0.subs ≡ ids s.subs)
unfolding evaluate publish
evaluate_tells_all cfg now synced s h =
    let name = wanted s cfg now synced in
    elim (Bool-cases (str_eq name s.active)) [
      | inl e ↦ absurd (h ((eq_iff name s.active).0 e))
      | inr e ↦ rw e (AllTold-tell name s.subs, ids-tell name s.subs)
    ]
