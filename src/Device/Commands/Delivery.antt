-- ===== src/Device/Commands/Delivery.antt =====
-- What a batch of commands does to the memory, and what a second delivery does.
use portapixel.Prelude.{
  ℕ, ◌<◌, ◌≤◌, ◌≡◌, refl, ap, ◌∙◌, ◌⊎◌, inl, inr, true, false, List, [], ◌∷◌, ◌++◌, arith, length,
  Bool-cases,
}
use mathlib.Core.List.{append_assoc, append-nil}
use portapixel.Device.Identity.{State, max_commands, ran_command}
use portapixel.Device.Identity.Remembered.{
  mark_commands, AllRan, AllNew, ran_command-mark_command, mark_commands-append, ran_command-later,
  ran_command-mark_commands,
}
use portapixel.Device.Commands.{Outside, Command, Round, run_command, run_commands, reboot}
use portapixel.Device.Commands.Recorded.{
  ids, run_command_keeps, run_command_old, run_command_stops, run_commands_recorded,
}

-- Commands that the device remembers are acknowledged, and nothing is done.
pub run_commands_old :
    (out : Outside) (cs : List Command) (acks : List ℕ) (r : Round)
    → AllRan (ids cs) r.state
    → run_commands out cs acks r ≡ (r, acks ++ ids cs, false)
unfolding run_commands
run_commands_old out [] acks r h = rw append-nil
run_commands_old out (c ∷ cs) acks r h = rw (run_command_old out c acks r h.0) (
    run_commands_old out cs (acks ++ c.id ∷ []) r h.1
    ∙ ap (λ l. (r, l, false)) (append_assoc acks (c.id ∷ []) (ids cs)))

-- A batch of up to 100 new commands that the device went through, sent again: there is no event and
-- no change of the state, and every command is acknowledged.
pub run_commands_again :
    (out out' : Outside) (cs : List Command) (r : Round)
    → AllNew (ids cs) r.state
    → length (ids cs) ≤ max_commands
    → (run_commands out cs [] r).2 ≡ false
    → run_commands out' cs [] (run_commands out cs [] r).0
      ≡ ((run_commands out cs [] r).0, ids cs, false)
run_commands_again out out' cs r new few through =
    run_commands_old out' cs [] (run_commands out cs [] r).0 (
      rw (run_commands_recorded out cs [] r through).0
        (ran_command-mark_commands (ids cs) r.state new few))

ids-append : (xs ys : List Command) → ids (xs ++ ys) ≡ ids xs ++ ids ys
ids-append [] ys = refl
ids-append (x ∷ xs) ys = ap (λ l. x.id ∷ l) (ids-append xs ys)

-- A round that goes through a batch goes through its first part.
first_part :
    (out : Outside) (xs ys : List Command) (acks : List ℕ) (r : Round)
    → (run_commands out (xs ++ ys) acks r).2 ≡ false
    → (run_commands out xs acks r).2 ≡ false
unfolding run_commands
first_part out [] ys acks r h = refl
first_part out (x ∷ xs) ys acks r h =
    let (r', acks', stop) = run_command out x acks r in
    elim (Bool-cases stop) [
      | inl e ↦ absurd (ground arith)
      | inr e ↦ rw e (first_part out xs ys acks' r' (ground arith))
    ]

-- For each command of a batch that the round goes through and that has fewer than 100 behind it:
-- the device remembered it when its turn came, or remembers it at the end. All commands are
-- acknowledged, in order, and the memory is the one from before with their IDs recorded in order,
-- where an ID that is there already adds nothing and an ID beyond the hundredth takes the oldest one
-- out.
pub run_commands_through :
    (out : Outside) (before : List Command) (c : Command) (after : List Command) (acks : List ℕ)
    (r : Round)
    → (run_commands out (before ++ c ∷ after) acks r).2 ≡ false
    → length (ids after) < max_commands
    → ((ran_command c.id (run_commands out before acks r).0.state ≡ true)
        ⊎ (ran_command c.id (run_commands out (before ++ c ∷ after) acks r).0.state ≡ true))
      × ((run_commands out (before ++ c ∷ after) acks r).1 ≡ acks ++ ids (before ++ c ∷ after))
      × ((run_commands out (before ++ c ∷ after) acks r).0.state
          ≡ mark_commands (ids (before ++ c ∷ after)) r.state)
run_commands_through out before c after acks r h few =
    let all = run_commands_recorded out (before ++ c ∷ after) acks r h in
    let first =
      run_commands_recorded out before acks r (first_part out before (c ∷ after) acks r h) in
    let s : State = mark_commands (ids before) r.state in
    (
      elim (Bool-cases (ran_command c.id s)) [
        | inl e ↦ inl (rw first.0 e)
        | inr e ↦ inr (
            rw
              (
                all.0,
                ids-append before (c ∷ after),
                mark_commands-append (ids before) (c.id ∷ ids after) r.state,
              )
              (ran_command-later c.id (ids after) s e few))
      ],
      all.1,
      all.0,
    )

-- Up to the reboot at which a round stops.
pub record StopsAt (out : Outside) (cs : List Command) (acks : List ℕ) (r : Round) : Type 0 where
  pub before : List Command
  pub last : Command
  pub after : List Command
  pub split : cs ≡ before ++ last ∷ after
  pub is_reboot : last.kind ≡ reboot
  pub remembered : ran_command last.id (run_commands out cs acks r).0.state ≡ true
  pub recorded :
      (run_commands out cs acks r).0.state ≡ mark_commands (ids before ++ last.id ∷ []) r.state
  pub acknowledged : (run_commands out cs acks r).1 ≡ acks ++ (ids before ++ last.id ∷ [])

-- A round that stops has met a reboot, which is remembered at its end. The commands up to that one
-- are acknowledged, in order, and none behind it; the memory is the one from before with the IDs of
-- these commands recorded in order, where an ID that is there already adds nothing and an ID beyond
-- the hundredth takes the oldest one out.
pub run_commands_stops :
    (out : Outside) (cs : List Command) (acks : List ℕ) (r : Round)
    → (run_commands out cs acks r).2 ≡ true
    → StopsAt out cs acks r
unfolding run_commands mark_commands
run_commands_stops out [] acks r h = absurd (ground arith)
run_commands_stops out (c ∷ cs) acks r h =
    let (r', acks', stop) = run_command out c acks r in
    let (state, acked) = run_command_keeps out c acks r in
    elim (Bool-cases stop) [
      | inl e ↦ record {
        before = [];
        last = c;
        after = cs;
        split = refl;
        is_reboot = run_command_stops out c acks r e;
        remembered = rw (e, state) (ran_command-mark_command c.id r.state);
        recorded = rw e state;
        acknowledged = rw e acked;
      }
      | inr e ↦
          let w = run_commands_stops out cs acks' r' (ground arith) in
          record {
            before = c ∷ w.before;
            last = w.last;
            after = w.after;
            split = ap (λ l. c ∷ l) w.split;
            is_reboot = w.is_reboot;
            remembered = rw e w.remembered;
            recorded =
                rw e (w.recorded ∙ ap (mark_commands (ids w.before ++ w.last.id ∷ [])) state);
            acknowledged = rw e (
                w.acknowledged
                ∙ ap (λ l. l ++ (ids w.before ++ w.last.id ∷ [])) acked
                ∙ append_assoc acks (c.id ∷ []) (ids w.before ++ w.last.id ∷ []));
          }
    ]
