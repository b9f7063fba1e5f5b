-- ===== src/Device/Syncer/Rounds.antt =====
-- The passes of the fleet client: pollRound of internal/device/syncer/poll.go, Once and nextWait of
-- internal/device/syncer/syncer.go. A pass is one step; that an unpairing lands inside a round is
-- not modelled.
use portapixel.Prelude.{
  ℕ, suc, ◌-◌, String, Bool, true, false, not, ◌&&◌, Option, none, some, List, [], ◌∷◌, ltb, str_eq,
  if◌then◌else◌,
}
use portapixel.Device.Identity.{paired as is_paired}
use portapixel.Device.Commands.{Command, run_commands}
use portapixel.Device.Syncer.{
  standalone_wait, claim_poll, min_poll, max_immediate, CallError, text_of, is_revoked, Called,
  fails, answers, Manifest, fetches, applies, beats, commands_ran, logged, ServerConfig, World,
  Memory, Client, emit, remember, set_error, interval, failed, set_ok,
}
use portapixel.Device.Syncer.Enrolling.{PairError, refused, pair, claim_round}
use portapixel.Device.Syncer.Ending.{unpair, refuse_token, drop_token}

-- What a pass takes from the answer.
abbrev pub learn : Manifest → Memory → Memory
learn m mem = record mem { server_name = m.server_name; poll_seconds = m.poll_seconds }

abbrev pub applied : World → Option String → Client → Client
applied w none c = set_ok w c
applied w (some text) c = remember (set_error text) (emit (logged "sync.apply.fail" text) c)

unfoldable pub apply_step : World → String → Manifest → Client → Client
apply_step w base m c =
    let c' = emit (applies base c.state.device_token) (remember (learn m) c) in
    applied w (w.apply_error c'.events) c'

-- The commands with their own heartbeats, and whether the device reboots.
unfoldable pub commands_step : World → String → String → List Command → Client → Client × Bool
commands_step w base token cs c =
    let (r, acks, stop) =
      run_commands (w.commands c.events) cs [] (record { state = c.state; events = [] }) in
    (record c { state = r.state; events = commands_ran base token r.events ∷ c.events }, stop)

abbrev pub beat_answered : World → Option CallError → Client → Client × ℕ
beat_answered w none c = (c, interval w c)
beat_answered w (some e) c = failed w "sync.heartbeat.fail" (text_of e) c

unfoldable pub beat_step : World → String → String → Client → Client × ℕ
beat_step w base token c =
    let c' = emit (beats base token) c in beat_answered w (w.beat_error c'.events) c'

abbrev pub commands_done : World → String → String → Client × Bool → Client × ℕ
commands_done w base token (c, true) = (c, interval w c)
commands_done w base token (c, false) = beat_step w base token c

unfoldable pub take_manifest : World → String → Manifest → Client → Client × ℕ
take_manifest w base m c =
    let token = c.state.device_token in
    commands_done w base token (commands_step w base token m.commands (apply_step w base m c))

abbrev pub fetched : World → String → Called Manifest → Client → Client × ℕ
fetched w base (fails e) c =
    let refused = drop_token w c in
    if is_revoked e then refused else failed w "sync.poll.fail" (text_of e) c
fetched w base (answers m) c = take_manifest w base m c

unfoldable pub fetch_step : World → String → Client → Client × ℕ
fetch_step w base c =
    let c' = emit (fetches base c.state.device_token) c in fetched w base (w.manifest c'.events) c'

abbrev pub no_address : String
no_address = "this device is paired and knows no server address"

-- `pollRound`
unfoldable pub poll_round : World → String → Client → Client × ℕ
poll_round w toml_base c =
    let base = if str_eq c.state.server_url "" then toml_base else c.state.server_url in
    let round = fetch_step w base c in
    if str_eq base "" then (remember (set_error no_address) c, standalone_wait) else round

abbrev pub or_empty : Option String → String
or_empty none = ""
or_empty (some base) = base

abbrev pub is_revoked_pair : PairError → Bool
is_revoked_pair (refused e) = is_revoked e
is_revoked_pair e = false

-- A fault of a pairing that is no answer of the server, in one sentence.
abbrev pub pair_text : PairError → String
pair_text (refused e) = text_of e
pair_text e = "this device did not pair"

abbrev pub first_answered : World → Client × Option PairError → Client × ℕ
first_answered w (c, none) = (c, if is_paired c.state then 0 else claim_poll)
first_answered w (c, some e) =
    let held = refuse_token w c in
    if is_revoked_pair e then held else failed w "sync.enroll.fail" (pair_text e) c

-- The attempt with the address and the token of the configuration.
abbrev pub first_round : World → ServerConfig → Option String → Client → Client × ℕ
first_round w cfg none c =
    (remember (set_error "the server address is not usable") c, standalone_wait)
first_round w cfg (some base) c =
    let now = w.now c.events in
    let attempt = first_answered w (pair w base cfg.token false c) in
    if c.memory.revoked && str_eq cfg.token ""
    then (c, standalone_wait)
    else if ltb now c.memory.next_enroll
    then (c, c.memory.next_enroll - now)
    else attempt

-- A token that a person typed ends the refusal of the old one.
unfoldable pub forget_old_token : String → Memory → Memory
forget_old_token token m =
    if m.revoked && not (str_eq m.revoked_token token)
    then record m { revoked = false; next_enroll = 0 }
    else m

-- `Once`
unfoldable pub once : World → Client → Client × ℕ
once w before =
    let cfg = w.config before.events in
    let c = remember (forget_old_token cfg.token) before in
    let base = w.check_url cfg.url in
    let polled = poll_round w (or_empty base) c in
    let waited = claim_round w c in
    let started = first_round w cfg base c in
    if is_paired c.state
    then polled
    else if not (str_eq c.state.claim_secret "")
    then (if str_eq c.state.server_url "" then (c, standalone_wait) else waited)
    else if str_eq cfg.url ""
    then (c, standalone_wait)
    else started

-- The wait after a pass, and the passes without a wait so far; whether the guard stepped in shows
-- in the wait.
unfoldable pub next_wait : ℕ → ℕ → ℕ × ℕ
next_wait asked immediate =
    if ltb 0 asked
    then (asked, 0)
    else if ltb max_immediate (suc immediate)
    then (min_poll, 0)
    else (asked, suc immediate)

-- What can happen to a client.
pub data Call : Type 0 where
  pass unpairing : Call
  pairing : String → String → Call

unfoldable pub run_call : World → Call → Client → Client
run_call w pass c = (once w c).0
run_call w unpairing c = (unpair w c).0
run_call w (pairing url token) c = (pair w url token true c).0

-- Any calls, the last one first.
unfoldable pub run_calls : World → List Call → Client → Client
run_calls w [] c = c
run_calls w (call ∷ earlier) c = run_call w call (run_calls w earlier c)

-- The turns of `Run`: the waits, from the waits that the passes ask for.
unfoldable pub waits : List ℕ → ℕ → List ℕ
waits [] immediate = []
waits (asked ∷ later) immediate = let (wait, n) = next_wait asked immediate in wait ∷ waits later n
