-- ===== src/Device/Commands/Tests.antt =====
-- A batch with a repeat, and a batch with a reboot.
use portapixel.Prelude.{◌≡◌, ◌⊎◌, refl, true, false, List, [], ◌∷◌, arith}
use portapixel.Device.Identity.{empty_state, mark_command, ran_command, contains_id, keep_newest}
use portapixel.Device.Identity.Remembered.{mark_commands}
use portapixel.Device.Commands.{
  Outside, Command, Round, rescan, reboot, update, emit, attempt, run_local, mark_ran, execute,
  send_heartbeat, ends_the_process, run_command, run_commands,
}
use portapixel.Device.Commands.Delivery.{
  run_commands_through, run_commands_again, StopsAt, run_commands_stops,
}
use portapixel.Device.Commands.Order.{AckedFirst, run_command_acks_first}

abbrev daemon : Outside
daemon = record {
  has_command = true;
  has_update = true;
  has_save_name = true;
  succeeds = λ es. true;
}

abbrev fresh : Round
fresh = record { state = empty_state; events = [] }

abbrev scan : Command
scan = record { id = 7; kind = rescan; name = [] }

abbrev upgrade : Command
upgrade = record { id = 8; kind = update; name = [] }

abbrev restart : Command
restart = record { id = 9; kind = reboot; name = [] }

abbrev batch : List Command
batch = scan ∷ upgrade ∷ scan ∷ []

goes_through : (run_commands daemon batch [] fresh).2 ≡ false
unfolding run_commands run_command mark_ran execute send_heartbeat attempt emit mark_command
    keep_newest ran_command contains_id ends_the_process run_local
goes_through = refl

run_commands_again_example :
    run_commands daemon batch [] (run_commands daemon batch [] fresh).0
    ≡ ((run_commands daemon batch [] fresh).0, 7 ∷ 8 ∷ 7 ∷ [], false)
unfolding ran_command contains_id
run_commands_again_example =
    run_commands_again daemon daemon batch fresh (refl, (refl, (refl, tt))) (omega arith)
      goes_through

run_commands_through_example :
    ((ran_command 8 (run_commands daemon (scan ∷ []) [] fresh).0.state ≡ true)
      ⊎ (ran_command 8 (run_commands daemon batch [] fresh).0.state ≡ true))
    × ((run_commands daemon batch [] fresh).1 ≡ 7 ∷ 8 ∷ 7 ∷ [])
    × ((run_commands daemon batch [] fresh).0.state ≡ mark_commands (7 ∷ 8 ∷ 7 ∷ []) empty_state)
run_commands_through_example =
    run_commands_through daemon (scan ∷ []) upgrade (scan ∷ []) [] fresh goes_through (omega arith)

stops : (run_commands daemon (scan ∷ restart ∷ upgrade ∷ []) [] fresh).2 ≡ true
unfolding run_commands run_command mark_ran execute send_heartbeat attempt emit mark_command
    keep_newest ran_command contains_id ends_the_process run_local
stops = refl

run_commands_stops_example : StopsAt daemon (scan ∷ restart ∷ upgrade ∷ []) [] fresh
run_commands_stops_example =
    run_commands_stops daemon (scan ∷ restart ∷ upgrade ∷ []) [] fresh stops

run_command_acks_first_example :
    AckedFirst daemon restart (7 ∷ []) [] (run_command daemon restart (7 ∷ []) fresh).0.events
unfolding ends_the_process ran_command contains_id
run_command_acks_first_example = run_command_acks_first daemon restart (7 ∷ []) fresh refl refl
