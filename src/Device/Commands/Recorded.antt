-- ===== src/Device/Commands/Recorded.antt =====
-- What a command and a batch leave in the memory of the device.
use portapixel.Prelude.{
  ℕ, ◌≡◌, refl, sym, ap, ◌∙◌, inl, inr, true, false, List, [], ◌∷◌, ◌++◌, arith, Bool-cases,
}
use mathlib.Core.List.{append_assoc, append-nil}
use portapixel.Device.Identity.{State, mark_command, ran_command}
use portapixel.Device.Identity.Remembered.{mark_commands}
use portapixel.Device.Commands.{
  Outside, Command, Kind, Round, Event, Line, emit, attempt, local, command_fail, run_local,
  mark_ran, execute, send_heartbeat, finish, run_command, run_commands, reboot, execute_kind,
  ends_the_process, rename_device,
}

abbrev pub ids : List Command → List ℕ
ids [] = []
ids (c ∷ cs) = c.id ∷ ids cs

state-attempt :
    (out : Outside) (e : Event) (l : Line) (r : Round) → (attempt out e l r).state ≡ r.state
unfolding attempt
state-attempt out e l r = ground arith

state-run_local : (out : Outside) (k : Kind) (r : Round) → (run_local out k r).state ≡ r.state
unfolding run_local
state-run_local out k r = ground (arith, state-attempt out (local k) (command_fail k) r)

state-mark_ran :
    (out : Outside) (id : ℕ) (r : Round) → (mark_ran out id r).state ≡ mark_command id r.state
unfolding mark_ran
state-mark_ran out id r = state-attempt out _ _ _

state-execute_kind :
    (out : Outside) (k : Kind) (name : List ℕ) (r : Round)
    → (execute_kind out k name r).state ≡ r.state
unfolding execute_kind run_local rename_device emit attempt
state-execute_kind out reboot name r = refl
state-execute_kind out _ name r = ground arith

state-execute : (out : Outside) (c : Command) (r : Round) → (execute out c r).state ≡ r.state
unfolding execute
state-execute out c r = state-execute_kind out c.kind c.name r

state-finish :
    (out : Outside) (c : Command) (k : Kind) (r : Round) → (finish out c k r).0.state ≡ r.state
unfolding finish
state-finish out c reboot r = state-run_local out reboot _ ∙ unfold emit in refl
state-finish out c _ r = state-execute out c r

state-send_heartbeat :
    (out : Outside) (k : Kind) (acks : List ℕ) (r : Round)
    → (send_heartbeat out k acks r).state ≡ r.state
unfolding send_heartbeat
state-send_heartbeat out k acks r = state-attempt out _ _ r

mark_command_ran : (id : ℕ) (s : State) → ran_command id s ≡ true → mark_command id s ≡ s
unfolding mark_command ran_command
mark_command_ran id s h = rw h

-- One command: its ID is remembered and acknowledged, whether it runs or not.
pub run_command_keeps :
    (out : Outside) (c : Command) (acks : List ℕ) (r : Round)
    → ((run_command out c acks r).0.state ≡ mark_command c.id r.state)
      × ((run_command out c acks r).1 ≡ acks ++ c.id ∷ [])
unfolding run_command
run_command_keeps out c acks r = elim (Bool-cases (ran_command c.id r.state)) [
  | inl old ↦ rw old (sym (mark_command_ran c.id r.state old), refl)
  | inr new ↦ rw new (elim (Bool-cases (ends_the_process c.kind)) [
    | inl e ↦ rw e (
      state-finish out c c.kind _ ∙ state-send_heartbeat out c.kind _ _ ∙ state-mark_ran out c.id r,
      refl,
    )
    | inr e ↦
        rw e (state-mark_ran out c.id _ ∙ ap (mark_command c.id) (state-execute out c r), refl)
  ])
]

pub run_command_old :
    (out : Outside) (c : Command) (acks : List ℕ) (r : Round)
    → ran_command c.id r.state ≡ true
    → run_command out c acks r ≡ (r, acks ++ c.id ∷ [], false)
unfolding run_command
run_command_old out c acks r old = rw old

-- Only a reboot stops the round.
finish_stops :
    (out : Outside) (c : Command) (k : Kind) (r : Round) → (finish out c k r).1 ≡ true → k ≡ reboot
unfolding finish
finish_stops out c reboot r h = refl
finish_stops out c _ r h = cc

pub run_command_stops :
    (out : Outside) (c : Command) (acks : List ℕ) (r : Round)
    → (run_command out c acks r).2 ≡ true
    → c.kind ≡ reboot
unfolding run_command
run_command_stops out c acks r h = elim (Bool-cases (ran_command c.id r.state)) [
  | inl old ↦ absurd (ground arith)
  | inr new ↦ elim (Bool-cases (ends_the_process c.kind)) [
    | inl e ↦
        finish_stops out c c.kind
          (send_heartbeat out c.kind (acks ++ c.id ∷ []) (mark_ran out c.id r)) (ground arith)
    | inr e ↦ absurd (ground arith)
  ]
]

-- What a batch that the round goes through leaves: its IDs are recorded and acknowledged, in order.
pub run_commands_recorded :
    (out : Outside) (cs : List Command) (acks : List ℕ) (r : Round)
    → (run_commands out cs acks r).2 ≡ false
    → ((run_commands out cs acks r).0.state ≡ mark_commands (ids cs) r.state)
      × ((run_commands out cs acks r).1 ≡ acks ++ ids cs)
unfolding run_commands mark_commands
run_commands_recorded out [] acks r h = (refl, sym (append-nil acks))
run_commands_recorded out (c ∷ cs) acks r h =
    let (r', acks', stop) = run_command out c acks r in
    elim (Bool-cases stop) [
      | inl e ↦ absurd (ground arith)
      | inr e ↦
          let (state, acked) = run_command_keeps out c acks r in
          let (states, ackeds) = run_commands_recorded out cs acks' r' (ground arith) in
          rw e (
            states ∙ ap (mark_commands (ids cs)) state,
            ackeds ∙ ap (λ l. l ++ ids cs) acked ∙ append_assoc acks (c.id ∷ []) (ids cs),
          )
    ]
