-- ===== src/Device/Syncer/Secrets/Rounds.antt =====
-- The passes of the fleet client keep its secrets with their server.
use portapixel.Prelude.{
  ℕ, ◌≡◌, refl, sym, ◌∙◌, subst, inl, inr, arith, String, Bool, true, false, Option, none, some,
  List, [], ◌∷◌, str_eq, eq_iff, if-case,
}
use portapixel.Device.Identity.{State, mark_command, contains_id}
use portapixel.Device.Commands.{Command, Round, run_commands}
use portapixel.Device.Commands.Kept.{run_commands-Kept}
use portapixel.Device.Syncer.{
  CallError, text_of, is_revoked, Called, fails, answers, Manifest, Event, fetches, applies, beats,
  commands_ran, gave_token, World, Client, emit, remember, set_ok,
}
use portapixel.Device.Syncer.Rounds.{
  learn, applied, apply_step, commands_step, beat_answered, beat_step, commands_done, take_manifest,
  fetched, fetch_step, poll_round,
}
use portapixel.Device.Syncer.Secrets.{Had, Known, Safe, Safe-event, failed-Safe}
use portapixel.Device.Syncer.Secrets.Flows.{drop_token-Safe}

-- A client with this token of the server at this address.
abbrev Live : String → String → Client → Type 0
Live base token c =
    (c.state.device_token ≡ token)
    × (c.state.server_url ≡ base)
    × (str_eq token "" ≡ false)
    × Safe c

Live-Had :
    (base token : String) (c : Client) → Live base token c → Had (gave_token base token) c.events
Live-Had base token c (t, u, full, (b, inl none_held, s)) =
    absurd (ground (arith, full, (eq_iff token "").1 (sym t ∙ none_held)))
Live-Had base token c (t, u, full, (b, inr (url, had), s)) =
    subst (λ a. Had (gave_token a token) c.events) u
      (subst (λ k. Had (gave_token c.state.server_url k) c.events) t had)

Live-event :
    (base token : String) (e : Event) (c : Client)
    → Known c.events e
    → Live base token c
    → Live base token (emit e c)
unfolding emit
Live-event base token e c k (t, u, full, h) = (t, u, full, Safe-event e c k h)

set_ok-Live :
    (base token : String) (w : World) (c : Client)
    → Live base token c
    → Live base token (set_ok w c)
unfolding set_ok remember emit
set_ok-Live base token w c h =
    if-case (Live base token) (str_eq c.memory.fault_text "") _ _ (λ s. h)
      (λ s. Live-event base token _ c tt h)

applied-Live :
    (base token : String) (w : World) (o : Option String) (c : Client)
    → Live base token c
    → Live base token (applied w o c)
unfolding remember
applied-Live base token w none c h = set_ok-Live base token w c h
applied-Live base token w (some text) c h = Live-event base token _ c tt h

apply_step-Live :
    (base : String) (w : World) (m : Manifest) (c : Client)
    → Live base c.state.device_token c
    → Live base c.state.device_token (apply_step w base m c)
unfolding apply_step remember
apply_step-Live base w m c h =
    let token = c.state.device_token in
    applied-Live base token w _ _ (
      Live-event base token (applies base token) (remember (learn m) c) (Live-Had base token c h) h)

Live-mark_command :
    (base token : String) (c : Client) (id : ℕ) (s : State)
    → Live base token (record c { state = s })
    → Live base token (record c { state = mark_command id s })
unfolding mark_command
Live-mark_command base token c id s h =
    if-case (λ (k : State). Live base token (record c { state = k })) (contains_id s.commands id) _
      _ (λ e. h) (λ e. h)

-- The commands change the memory of commands only.
commands_step-Live :
    (base token : String) (w : World) (cs : List Command) (c : Client)
    → Live base token c
    → Live base token (commands_step w base token cs c).0
unfolding commands_step emit
commands_step-Live base token w cs c h =
    let r : Round × List ℕ × Bool =
      run_commands (w.commands c.events) cs [] (record { state = c.state; events = [] }) in
    let kept : Live base token (record c { state = r.0.state }) =
      run_commands-Kept {P = λ (s : State). Live base token (record c { state = s })}
        (Live-mark_command base token c) (w.commands c.events) cs []
        (record { state = c.state; events = [] }) h in
    Live-event base token (commands_ran base token r.0.events) (record c { state = r.0.state })
      (Live-Had base token c h) kept

beat_answered-Safe :
    (w : World) (o : Option CallError) (c : Client) → Safe c → Safe (beat_answered w o c).0
beat_answered-Safe w none c h = h
beat_answered-Safe w (some e) c h = failed-Safe w "sync.heartbeat.fail" (text_of e) c h

beat_step-Safe :
    (base token : String) (w : World) (c : Client)
    → Live base token c
    → Safe (beat_step w base token c).0
unfolding beat_step
beat_step-Safe base token w c h =
    beat_answered-Safe w _ _ (Safe-event (beats base token) c (Live-Had base token c h) h.3)

commands_done-Safe :
    (base token : String) (w : World) (r : Client × Bool)
    → Live base token r.0
    → Safe (commands_done w base token r).0
commands_done-Safe base token w (c, true) h = h.3
commands_done-Safe base token w (c, false) h = beat_step-Safe base token w c h

fetched-Safe :
    (base : String) (w : World) (r : Called Manifest) (c : Client)
    → Live base c.state.device_token c
    → Safe (fetched w base r c).0
unfolding take_manifest
fetched-Safe base w (fails e) c h =
    if-case (λ (k : Client × ℕ). Safe k.0) (is_revoked e) _ _ (λ s. drop_token-Safe w c h.3)
      (λ s. failed-Safe w "sync.poll.fail" (text_of e) c h.3)
fetched-Safe base w (answers m) c h =
    let token = c.state.device_token in
    commands_done-Safe base token w _ (
      commands_step-Live base token w m.commands (apply_step w base m c)
        (apply_step-Live base w m c h))

fetch_step-Safe :
    (base : String) (w : World) (c : Client)
    → Live base c.state.device_token c
    → Safe (fetch_step w base c).0
unfolding fetch_step emit
fetch_step-Safe base w c h =
    let token = c.state.device_token in
    let asked : Client = record c { events = fetches base token ∷ c.events } in
    fetched-Safe base w (w.manifest asked.events) asked
      (Live-event base token (fetches base token) c (Live-Had base token c h) h)

-- A paired client asks the server that it names.
pub poll_round-Safe :
    (w : World) (toml : String) (c : Client)
    → str_eq c.state.device_token "" ≡ false
    → Safe c
    → Safe (poll_round w toml c).0
unfolding poll_round remember
poll_round-Safe w toml c held (b, inl none_held, s) =
    absurd (ground (arith, held, (eq_iff c.state.device_token "").1 none_held))
poll_round-Safe w toml c held (b, inr (url, had), s) = rw url (
    if-case (λ (r : Client × ℕ). Safe r.0) (str_eq c.state.server_url "") _ _
      (λ e. (b, inr (url, had), s))
      (λ e. fetch_step-Safe c.state.server_url w c (refl, refl, held, (b, inr (url, had), s))))
