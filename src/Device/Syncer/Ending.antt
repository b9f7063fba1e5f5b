-- ===== src/Device/Syncer/Ending.antt =====
-- internal/device/syncer/pair.go: the end of a pairing (Unpair, dropToken, refuseToken). ClearFleetRules and
-- Rescan of Options are there.
use portapixel.Prelude.{
  ℕ, ◌+◌, String, Bool, true, false, not, ◌&&◌, Option, none, some, List, [], str_eq, if◌then◌else◌,
}
use portapixel.Device.Identity.{State, paired as is_paired}
use portapixel.Device.Syncer.{
  re_enroll_gap, Event, server_saved, rules_cleared, rescanned, logged, World, Memory, Client, emit,
  remember, save_state, clear_fleet, failure,
}

abbrev pub unpaired_state : State → State
unpaired_state st = record st {
  device_token = "";
  claim_secret = "";
  pairing_code = "";
  pending_since = 0;
  server_url = "";
  commands = [];
}

-- What `Unpair` does after its write: whether it worked.
abbrev pub unpair_saved : Client × Bool → Client × Bool
unpair_saved (c, false) = (c, false)
unpair_saved (c, true) =
    (emit (logged "sync.unpair" "") (emit rescanned (emit rules_cleared (clear_fleet c))), true)

unfoldable pub unpair_with : World → Option (List Event → Bool) → Client → Client × Bool
unpair_with w none c = unpair_saved (save_state w unpaired_state c)
unpair_with w (some saves) c =
    let c' = emit (server_saved "" "") c in
    let ended = unpair_saved (save_state w unpaired_state c') in
    if saves c'.events then ended else (emit (logged "sync.unpair.config.fail" "") c', false)

-- `Unpair`
unfoldable pub unpair : World → Client → Client × Bool
unpair w c =
    let ended = unpair_with w w.saves_server c in
    if not (is_paired c.state)
      && str_eq c.state.claim_secret ""
      && str_eq (w.config c.events).url ""
    then (c, true)
    else ended

-- What a 401 takes from the state; the time since when it waited stays.
abbrev pub refused_state : State → State
refused_state st = record st {
  device_token = "";
  claim_secret = "";
  pairing_code = "";
  server_url = "";
  commands = [];
}

abbrev pub revoked_text : String
revoked_text = "the fleet server refused the device token"

-- No attempt before a time; a token that a person types ends that.
abbrev pub hold_back : String → ℕ → Memory → Memory
hold_back token until m = record m {
  revoked = true;
  revoked_token = token;
  next_enroll = until;
  sync_error = revoked_text;
  last_result = failure;
}

-- One line for a run of refusals.
abbrev pub tell_refusal : Bool → Client → Client
tell_refusal true c = c
tell_refusal false c = emit (logged "sync.token.revoked" "") c

-- `refuseToken`
unfoldable pub refuse_token : World → Client → Client × ℕ
refuse_token w c =
    let token = (w.config c.events).token in
    let cleared = clear_fleet c in
    let until = w.now cleared.events + re_enroll_gap in
    (tell_refusal c.memory.revoked (remember (hold_back token until) cleared), re_enroll_gap)

abbrev pub dropped : Client × Bool → Client
dropped (c, true) = c
dropped (c, false) = emit (logged "sync.state.write.fail" "") c

-- `dropToken`
unfoldable pub drop_token : World → Client → Client × ℕ
drop_token w c =
    refuse_token w (emit rescanned (emit rules_cleared (dropped (save_state w refused_state c))))
