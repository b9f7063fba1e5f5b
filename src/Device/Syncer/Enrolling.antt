-- ===== src/Device/Syncer/Enrolling.antt =====
-- internal/device/syncer/pair.go: the three flows of an enrollment and the wait for an approval. A
-- flow is one step, as pairMu holds it.
use portapixel.Prelude.{
  ℕ, ◌+◌, String, Bool, true, false, not, ◌&&◌, ◌||◌, Option, none, some, List, [], ltb, ◌==◌,
  str_eq, if◌then◌else◌,
}
use portapixel.Device.Identity.{State, paired as is_paired}
use portapixel.Device.Syncer.{
  claim_patience, claim_slow, claim_poll, CallError, text_of, is_revoked, Called, fails, answers,
  Granted, paired, pending, checked, Event, enrolls, claims, gave_token, gave_claim, server_saved,
  logged, World, Memory, Client, emit, remember, save_state, failed, clear_fleet,
}

abbrev pub mask : String
mask = "********"

-- One text for each fault of the write.
abbrev pub write_text : String
write_text = "the state file is not written"

-- `enroll`, where `wire` is the request.
abbrev pub received : String → Called Granted → Client → Client × Called Granted
received base (fails e) c = (c, fails e)
received base (answers (paired token)) c = (emit (gave_token base token) c, answers (paired token))
received base (answers (pending code secret)) c =
    (emit (gave_claim base secret) c, answers (pending code secret))

unfoldable pub ask : World → String → Event → Client → Client × Called Granted
ask w base wire c = let c' = emit wire c in received base (checked (w.enroll c'.events)) c'

abbrev pub paired_state : String → String → State → State
paired_state base token st = record st {
  server_url = base;
  device_token = token;
  claim_secret = "";
  pairing_code = "";
  pending_since = 0;
  commands = [];
}

abbrev pub pending_state : String → ℕ → String → String → State → State
pending_state base now code secret st = record st {
  server_url = base;
  claim_secret = secret;
  pairing_code = code;
  pending_since =
      (if not (str_eq st.server_url base) || st.pending_since == 0 then now else st.pending_since);
}

-- An answer that says what the state holds.
unfoldable pub same_answer : String → String → String → State → Bool
same_answer base code secret st =
    str_eq st.server_url base
    && str_eq st.claim_secret secret
    && str_eq st.pairing_code code
    && not (st.pending_since == 0)

abbrev pub on_paired : String → Client × Bool → Client × Bool
on_paired base (c, false) = (c, false)
on_paired base (c, true) = (emit (logged "sync.paired" base) (clear_fleet c), true)

abbrev pub on_pending : Bool → String → Client × Bool → Client × Bool
on_pending tells code (c, false) = (c, false)
on_pending tells code (c, true) = (if tells then emit (logged "sync.pending" code) c else c, true)

-- `takeEnrollment`: whether the state was written.
unfoldable pub take_enrollment : World → String → Granted → Client → Client × Bool
take_enrollment w base (paired token) c = on_paired base (save_state w (paired_state base token) c)
take_enrollment w base (pending code secret) c =
    let tells = not (str_eq c.state.pairing_code code) || not (str_eq c.state.server_url base) in
    let saved = save_state w (pending_state base (w.now c.events) code secret) c in
    if same_answer base code secret c.state then (c, true) else on_pending tells code saved

pub data PairError : Type 0 where
  bad_url already_paired no_config state_not_written config_not_written : PairError
  refused : CallError → PairError

abbrev pub forget_refusal : Memory → Memory
forget_refusal m = record m { revoked = false; next_enroll = 0 }

-- The save of the address and the token that a person typed.
unfoldable pub keep_server :
    (List Event → Bool) → String → String → Client → Client × Option PairError
keep_server saves base token c =
    let c' = emit (server_saved base token) c in
    if saves c'.events
    then (remember forget_refusal c', none)
    else (emit (logged "sync.pair.config.fail" "") c', some config_not_written)

abbrev pub keep :
    Option (List Event → Bool) → String → String → Client × Bool → Client × Option PairError
keep saves base token (c, false) = (c, some state_not_written)
keep none base token (c, true) = (c, none)
keep (some saves) base token (c, true) = keep_server saves base token c

abbrev pub pair_answered :
    World
    → Option (List Event → Bool)
    → String
    → String
    → Client × Called Granted
    → Client × Option PairError
pair_answered w saves base token (c, fails e) = (c, some (refused e))
pair_answered w saves base token (c, answers g) = keep saves base token (take_enrollment w base g c)

-- The request of `Pair`: a device that waits on this server asks with its claim secret.
unfoldable pub request : String → String → State → Event
request base token st =
    if str_eq token "" && not (str_eq st.claim_secret "") && str_eq st.server_url base
    then claims base st.claim_secret
    else enrolls base token

unfoldable pub pair_from :
    World → Option (List Event → Bool) → String → String → Client → Client × Option PairError
pair_from w saves base token c =
    pair_answered w saves base token (ask w base (request base token c.state) c)

-- The token behind the mask of the admin UI.
abbrev pub unmasked : World → String → Client → String
unmasked w token c = if str_eq token mask then (w.config c.events).token else token

abbrev pub pair_saving :
    World → Option (List Event → Bool) → String → String → Client → Client × Option PairError
pair_saving w none base token c = (c, some no_config)
pair_saving w (some saves) base token c = pair_from w (some saves) base (unmasked w token c) c

abbrev pub pair_with : World → Bool → Option String → String → Client → Client × Option PairError
pair_with w save none token c = (c, some bad_url)
pair_with w true (some base) token c =
    let done = pair_saving w w.saves_server base token c in
    if is_paired c.state then (c, some already_paired) else done
pair_with w false (some base) token c =
    let done = pair_from w none base (unmasked w token c) c in
    if is_paired c.state then (c, some already_paired) else done

-- `Pair`
unfoldable pub pair : World → String → String → Bool → Client → Client × Option PairError
pair w url token save c = pair_with w save (w.check_url url) token c

abbrev pub claim_gone : State → State
claim_gone st = record st { claim_secret = ""; pairing_code = ""; pending_since = 0 }

unfoldable pub claim_wait : World → ℕ → Client → ℕ
claim_wait w since c =
    if not (since == 0) && ltb (since + claim_patience) (w.now c.events)
    then claim_slow
    else claim_poll

abbrev pub claim_taken : World → ℕ → Granted → Client × Bool → Client × ℕ
claim_taken w since g (c, false) = failed w "sync.state.write.fail" write_text c
claim_taken w since (paired token) (c, true) = (c, 0)
claim_taken w since (pending code secret) (c, true) = (c, claim_wait w since c)

abbrev pub claim_answered : World → State → Client × Called Granted → Client × ℕ
claim_answered w st (c, fails e) =
    let gone = save_state w claim_gone (emit (logged "sync.pending.gone" "") c) in
    if is_revoked e then (gone.0, claim_poll) else failed w "sync.pending.fail" (text_of e) c
claim_answered w st (c, answers g) =
    claim_taken w st.pending_since g (take_enrollment w st.server_url g c)

-- `claimRound`
unfoldable pub claim_round : World → Client → Client × ℕ
claim_round w c =
    claim_answered w c.state
      (ask w c.state.server_url (claims c.state.server_url c.state.claim_secret) c)
