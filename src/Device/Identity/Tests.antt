-- ===== src/Device/Identity/Tests.antt =====
-- A card that moves to another board, and a device in a reboot loop.
use portapixel.Prelude.{◌≡◌, refl, true, false, not, ◌&&◌, ◌||◌, [], ◌∷◌, arith, str_eq}
use portapixel.Device.Identity.{
  State, empty_state, Identity, holds, ran_command, contains_id, reboot_loop, count_recent, resolve,
}
use portapixel.Device.Identity.Remembered.{AllRan, mark_commands, ran_command-mark_commands}
use portapixel.Device.Identity.Reboots.{mark_reboots, reboot_loop-mark_reboots}
use portapixel.Device.Identity.Repair.{SamePairing, resolve_repairs}

ran_command-mark_commands_example :
    AllRan (7 ∷ 8 ∷ 7 ∷ []) (mark_commands (7 ∷ 8 ∷ 7 ∷ []) empty_state)
unfolding ran_command contains_id
ran_command-mark_commands_example =
    ran_command-mark_commands (7 ∷ 8 ∷ 7 ∷ []) empty_state (refl, (refl, (refl, tt))) (omega arith)

reboot_loop-mark_reboots_example :
    (reboot_loop 9 (mark_reboots (1 ∷ 4 ∷ 8 ∷ []) empty_state)).1 ≡ true
unfolding count_recent
reboot_loop-mark_reboots_example = reboot_loop-mark_reboots 9 (1 ∷ 4 ∷ 8 ∷ []) (omega arith)

abbrev board : Identity
board = record { device = "px-22"; hardware = "hw-2"; source = "serial" }

abbrev card : State
card = record empty_state {
  device_id = "px-11";
  hardware_id = "hw-1";
  hardware_source = "serial";
  device_token = "t";
}

resolve_repairs_example :
    let t = (resolve false board (holds card)).0 in
    (t.hardware_id ≡ "hw-2")
    × SamePairing card t
    × (t.hardware_changed ≡ (false || (not (str_eq "hw-1" "") && not (str_eq "hw-1" "hw-2"))))
resolve_repairs_example = resolve_repairs false board card
