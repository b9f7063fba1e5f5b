-- ===== src/Device/Syncer/Ended.antt =====
-- What ends a pairing during a pass.
use portapixel.Prelude.{
  ℕ, ◌==◌, ◌≡◌, refl, ap, ◌∙◌, inl, inr, String, Bool, true, false, ◌&&◌, Option, none, some, List,
  [], ◌∷◌, str_eq, if-case, Bool-cases, if◌then◌else◌,
}
use portapixel.Device.Identity.{State, mark_command, contains_id, paired as is_paired}
use portapixel.Device.Commands.{Command}
use portapixel.Device.Commands.Kept.{run_commands-Kept}
use portapixel.Device.Syncer.{
  CallError, api_error, other_error, text_of, is_revoked, Called, fails, answers, Manifest, Event,
  fetches, beats, World, Client, emit, remember, save_state, is_noted, failed, set_ok, clear_fleet,
}
use portapixel.Device.Syncer.Ending.{refused_state, tell_refusal, refuse_token, dropped, drop_token}
use portapixel.Device.Syncer.Rounds.{
  applied, apply_step, commands_step, beat_answered, beat_step, commands_done, take_manifest,
  fetched, fetch_step, poll_round, or_empty, forget_old_token, once,
}

failed-state :
    (w : World) (event text : String) (c : Client) → (failed w event text c).0.state ≡ c.state
unfolding failed remember emit
failed-state w event text c =
    if-case (λ (k : Client). k.state ≡ c.state) (is_noted (w.now c.events) event text c.memory) _ _
      (λ s. refl) (λ s. refl)

set_ok-state : (w : World) (c : Client) → (set_ok w c).state ≡ c.state
unfolding set_ok remember emit
set_ok-state w c =
    if-case (λ (k : Client). k.state ≡ c.state) (str_eq c.memory.fault_text "") _ _ (λ s. refl)
      (λ s. refl)

applied-state : (w : World) (o : Option String) (c : Client) → (applied w o c).state ≡ c.state
unfolding remember emit
applied-state w none c = set_ok-state w c
applied-state w (some text) c = refl

tell_refusal-state : (told : Bool) (c : Client) → (tell_refusal told c).state ≡ c.state
unfolding emit
tell_refusal-state true c = refl
tell_refusal-state false c = refl

dropped-state : (r : Client × Bool) → (dropped r).state ≡ r.0.state
unfolding emit
dropped-state (c, true) = refl
dropped-state (c, false) = refl

drop_token-state : (w : World) (c : Client) → (drop_token w c).0.state ≡ refused_state c.state
unfolding drop_token refuse_token remember emit clear_fleet save_state
drop_token-state w c = tell_refusal-state _ _ ∙ dropped-state (save_state w refused_state c)

-- The token and the address of the server.
abbrev Same : State → State → Type 0
Same s t = (t.device_token ≡ s.device_token) × (t.server_url ≡ s.server_url)

Same-eq : (s t : State) → t ≡ s → Same s t
Same-eq s t e = (ap (λ (k : State). k.device_token) e, ap (λ (k : State). k.server_url) e)

Same-mark_command : (s : State) (id : ℕ) (t : State) → Same s t → Same s (mark_command id t)
unfolding mark_command
Same-mark_command s id t h = if-case (Same s) (contains_id t.commands id) _ _ (λ e. h) (λ e. h)

commands_step-Same :
    (w : World) (base token : String) (cs : List Command) (c : Client)
    → Same c.state (commands_step w base token cs c).0.state
unfolding commands_step
commands_step-Same w base token cs c =
    run_commands-Kept {P = Same c.state} (Same-mark_command c.state) (w.commands c.events) cs []
      (record { state = c.state; events = [] }) (refl, refl)

beat_answered-state :
    (w : World) (o : Option CallError) (c : Client) → (beat_answered w o c).0.state ≡ c.state
beat_answered-state w none c = refl
beat_answered-state w (some e) c = failed-state w "sync.heartbeat.fail" (text_of e) c

commands_done-state :
    (w : World) (base token : String) (r : Client × Bool)
    → (commands_done w base token r).0.state ≡ r.0.state
unfolding beat_step emit
commands_done-state w base token (c, true) = refl
commands_done-state w base token (c, false) =
    beat_answered-state w (w.beat_error (beats base token ∷ c.events))
      (record c { events = beats base token ∷ c.events })

take_manifest-Same :
    (w : World) (base : String) (m : Manifest) (c : Client)
    → Same c.state (take_manifest w base m c).0.state
unfolding take_manifest apply_step remember emit
take_manifest-Same w base m c =
    let token = c.state.device_token in
    let after = apply_step w base m c in
    let ran = commands_step w base token m.commands after in
    let still : Same c.state after.state = Same-eq c.state after.state (applied-state w _ _) in
    let kept : Same after.state ran.0.state = commands_step-Same w base token m.commands after in
    let last : Same ran.0.state (commands_done w base token ran).0.state =
      Same-eq _ _ (commands_done-state w base token ran) in
    (last.0 ∙ (kept.0 ∙ still.0), last.1 ∙ (kept.1 ∙ still.1))

abbrev pub is_refusal_error : CallError → Bool
is_refusal_error (api_error status code text) = status == 401 && str_eq code "token-revoked"
is_refusal_error (other_error text) = false

-- The answer 401 with the code of a token that is gone.
abbrev pub is_refusal : Called Manifest → Bool
is_refusal (fails e) = is_refusal_error e
is_refusal (answers m) = false

is_revoked-eq : (e : CallError) → is_revoked e ≡ is_refusal_error e
unfolding is_revoked
is_revoked-eq (api_error status code text) = refl
is_revoked-eq (other_error text) = refl

abbrev Ended : State → Called Manifest → State → Type 0
Ended s r t =
    (t.device_token ≡ (if is_refusal r then "" else s.device_token))
    × (t.server_url ≡ (if is_refusal r then "" else s.server_url))

fetched-Ended :
    (w : World) (base : String) (r : Called Manifest) (c : Client)
    → Ended c.state r (fetched w base r c).0.state
fetched-Ended w base (fails e) c = elim (Bool-cases (is_refusal_error e)) [
  | inl q ↦
      rw (is_revoked-eq e, q)
        (Same-eq (refused_state c.state) (drop_token w c).0.state (drop_token-state w c))
  | inr q ↦
      rw (is_revoked-eq e, q)
        (Same-eq c.state (failed w "sync.poll.fail" (text_of e) c).0.state
          (failed-state w "sync.poll.fail" (text_of e) c))
]
fetched-Ended w base (answers m) c = take_manifest-Same w base m c

-- The request for the manifest of a client.
abbrev pub fetch_of : Client → List Event
fetch_of c = fetches c.state.server_url c.state.device_token ∷ c.events

once_from-Ended :
    (w : World) (c : Client) (toml : String) (rest : Client × ℕ)
    → is_paired c.state ≡ true
    → str_eq c.state.server_url "" ≡ false
    → Ended c.state
        (w.manifest (fetch_of c))
        (if is_paired c.state then poll_round w toml c else rest).0.state
unfolding poll_round fetch_step emit
once_from-Ended w c toml rest p full =
    rw (p, full)
      (rw full (
        fetched-Ended w c.state.server_url (w.manifest (fetch_of c))
          (record c { events = fetch_of c })))

-- A pass of a paired client that knows the address of its server ends the pairing exactly when the
-- server answers the request for the manifest with 401 and the code token-revoked: then the token
-- and the address are empty afterwards, and else both are as before, whatever else fails.
pub once_ends :
    (w : World) (c : Client)
    → is_paired c.state ≡ true
    → str_eq c.state.server_url "" ≡ false
    → ((once w c).0.state.device_token
        ≡ (if is_refusal (w.manifest (fetch_of c)) then "" else c.state.device_token))
      × ((once w c).0.state.server_url
          ≡ (if is_refusal (w.manifest (fetch_of c)) then "" else c.state.server_url))
unfolding once remember
once_ends w c p full =
    let cfg = w.config c.events in
    once_from-Ended w (remember (forget_old_token cfg.token) c) (or_empty (w.check_url cfg.url)) _ p
      full
