-- ===== src/Server/Commands/Tests.antt =====
-- A reboot that the screen never acknowledges.
use portapixel.Prelude.{ℕ, ◌≤◌, ◌≡◌, refl, true, List, [], ◌∷◌, Bytes, bytes, bytes_eq}
use portapixel.Device.Commands.{reboot}
use portapixel.Device.Identity.{contains_id}
use portapixel.Server.Commands.{
  max_deliveries, empty_queue, Call, queue, take_of, run_call, run_calls, queue_command,
  queue_valid, valid_command, is_rename, insert_row, take_commands, is_due, is_open, is_stale,
  older_than, expire, deliver, ids_of, ack_commands, Queue,
}
use portapixel.Server.Table.{update_where, select_where}
use portapixel.Server.Commands.Fresh.{take_commands-ack_commands}
use portapixel.Server.Commands.Deliveries.{count}
use portapixel.Server.Commands.Deliveries.Calls.{run_calls_bound}

abbrev device : Bytes
device = bytes "px-11"

abbrev calls : List (ℕ × Call)
calls =
    (0, queue true device reboot [])
    ∷ (5, take_of device)
    ∷ (300, take_of device)
    ∷ (700, take_of device)
    ∷ (1400, take_of device)
    ∷ (2100, take_of device)
    ∷ []

run_calls_bound_example : count 1 (run_calls calls empty_queue).1 ≤ max_deliveries
run_calls_bound_example = run_calls_bound 1 calls

abbrev waiting : Queue
waiting = (queue_command 0 true device reboot [] empty_queue).0

take_commands-ack_commands_example :
    count 1 (ids_of (take_commands 700 device (ack_commands 90 device (1 ∷ []) waiting)).1) ≡ 0
unfolding contains_id bytes_eq
take_commands-ack_commands_example =
    take_commands-ack_commands 90 700 1 device (1 ∷ []) waiting refl

run_calls_test : (run_calls calls empty_queue).1 ≡ 1 ∷ 1 ∷ 1 ∷ []
unfolding run_calls run_call queue_command queue_valid valid_command is_rename insert_row
    take_commands update_where select_where is_due is_open is_stale older_than expire deliver ids_of
    contains_id bytes_eq
run_calls_test = refl
