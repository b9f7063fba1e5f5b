-- ===== src/Schedule/Chosen.antt =====
-- Which name `Evaluate` chooses.
use portapixel.Prelude.{
  ◌≡◌, refl, ◌≢◌, ◌⊎◌, inl, inr, ◌∙◌, String, Bool, true, false, List, [], ◌∷◌, ◌++◌, arith, eq_iff,
  if◌then◌else◌,
}
use portapixel.Config.{Rule, Config}
use portapixel.Schedule.{
  WallClock, Scheduler, rule_matches, first_match, match_rule, default_playlist, wanted, publish,
  evaluate,
}

abbrev pub NoneMatches : WallClock → List Rule → Type 0
NoneMatches now [] = Unit
NoneMatches now (r ∷ rules) = (rule_matches now r ≡ false) × NoneMatches now rules

-- The rules in force.
abbrev pub rules_of : Scheduler → Config → List Rule
rules_of s cfg = if s.fleet then s.fleet_rules else cfg.schedule

first_match-append :
    (now : WallClock) (before after : List Rule) (r : Rule)
    → NoneMatches now before
    → rule_matches now r ≡ true
    → first_match (before ++ r ∷ after) now ≡ r.playlist
unfolding first_match
first_match-append now [] after r h m = rw m
first_match-append now (x ∷ before) after r h m =
    rw h.0 (first_match-append now before after r h.1 m)

first_match-NoneMatches :
    (now : WallClock) (rules : List Rule) → NoneMatches now rules → first_match rules now ≡ ""
unfolding first_match
first_match-NoneMatches now [] h = refl
first_match-NoneMatches now (r ∷ rules) h = rw h.0 (first_match-NoneMatches now rules h.1)

match_rule-eq :
    (s : Scheduler) (cfg : Config) (now : WallClock)
    → match_rule s cfg now ≡ first_match (rules_of s cfg) now
unfolding match_rule
match_rule-eq s cfg now = ground arith

active-publish :
    (name : String) (synced : Bool) (s : Scheduler) → (publish name synced s).0.active ≡ name
unfolding publish
active-publish name synced s = ground arith

fleet-publish :
    (name : String) (synced : Bool) (s : Scheduler) → (publish name synced s).0.fleet ≡ s.fleet
unfolding publish
fleet-publish name synced s = ground arith

-- With a true clock, the first rule in force that matches and names a playlist decides: no rule
-- behind it counts, and its playlist is both the answer and the new active name.
pub evaluate_first_rule :
    (cfg : Config) (now : WallClock) (s : Scheduler) (before after : List Rule) (r : Rule)
    → rules_of s cfg ≡ before ++ r ∷ after
    → NoneMatches now before
    → rule_matches now r ≡ true
    → r.playlist ≢ ""
    → ((evaluate cfg now true s).1 ≡ r.playlist) × ((evaluate cfg now true s).0.active ≡ r.playlist)
unfolding evaluate wanted
evaluate_first_rule cfg now s before after r e h m named =
    let found : match_rule s cfg now ≡ r.playlist =
      match_rule-eq s cfg now ∙ (rw e (first_match-append now before after r h m)) in
    let name : wanted s cfg now true ≡ r.playlist = ground (arith, eq_iff r.playlist "") in
    (name, active-publish _ true s ∙ name)

-- With a clock that is not synchronised, or with no rule in force that matches, the default
-- playlist in force is the answer and the new active name.
evaluate_default :
    (cfg : Config) (now : WallClock) (synced : Bool) (s : Scheduler)
    → (synced ≡ false) ⊎ NoneMatches now (rules_of s cfg)
    → ((evaluate cfg now synced s).1 ≡ default_playlist s cfg)
      × ((evaluate cfg now synced s).0.active ≡ default_playlist s cfg)
unfolding evaluate wanted
evaluate_default cfg now synced s (inl e) =
    let name : wanted s cfg now synced ≡ default_playlist s cfg = rw e in
    (name, active-publish _ synced s ∙ name)
evaluate_default cfg now synced s (inr h) =
    let found : match_rule s cfg now ≡ "" =
      match_rule-eq s cfg now ∙ first_match-NoneMatches now (rules_of s cfg) h in
    let name : wanted s cfg now synced ≡ default_playlist s cfg =
      ground (arith, eq_iff (match_rule s cfg now) "") in
    (name, active-publish _ synced s ∙ name)

-- While the device is paired, the configuration file decides nothing: two configurations give the
-- same state, name and log lines.
evaluate_fleet_only :
    (cfg cfg' : Config) (now : WallClock) (synced : Bool) (s : Scheduler)
    → s.fleet ≡ true
    → evaluate cfg now synced s ≡ evaluate cfg' now synced s
unfolding evaluate wanted match_rule default_playlist
evaluate_fleet_only cfg cfg' now synced s h = rw h
