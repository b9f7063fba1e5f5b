-- ===== src/Device/Syncer/Secrets.antt =====
-- Where the secrets of the fleet client go.
pub mod Calls
pub mod Flows
pub mod Rounds
use portapixel.Prelude.{
  ℕ, ◌≡◌, refl, sym, ap, subst, ◌⊎◌, inl, inr, arith, String, Bool, true, false, not, ◌&&◌, Option,
  none, some, List, [], ◌∷◌, str_eq, eq_iff, if-case, if◌then◌else◌,
}
use portapixel.Device.Identity.{State, paired as is_paired}
use portapixel.Device.Syncer.{
  Called, fails, answers, Granted, paired, pending, checked, Event, enrolls, claims, fetches,
  applies, beats, commands_ran, gave_token, gave_claim, World, Memory, Client, emit, remember,
  save_state, is_noted, failed, set_ok, clear_fleet,
}
use portapixel.Device.Syncer.Enrolling.{
  received, ask, paired_state, pending_state, same_answer, on_paired, on_pending, take_enrollment,
}

abbrev pub Had : Event → List Event → Type 0
Had e [] = ⊥
Had e (x ∷ xs) = (x ≡ e) ⊎ Had e xs

-- What a request with a secret needs among the events before it.
abbrev pub Known : List Event → Event → Type 0
Known es (claims base secret) = Had (gave_claim base secret) es
Known es (fetches base token) = Had (gave_token base token) es
Known es (applies base token) = Had (gave_token base token) es
Known es (beats base token) = Had (gave_token base token) es
Known es (commands_ran base token events) = Had (gave_token base token) es
Known es e = Unit

abbrev pub Backed : List Event → Type 0
Backed [] = Unit
Backed (e ∷ es) = Known es e × Backed es

-- The state names the server that gave its secrets.
abbrev pub TokenFrom : State → List Event → Type 0
TokenFrom st es =
    (st.device_token ≡ "")
    ⊎ ((str_eq st.server_url "" ≡ false) × Had (gave_token st.server_url st.device_token) es)

abbrev pub ClaimFrom : State → List Event → Type 0
ClaimFrom st es = (st.claim_secret ≡ "") ⊎ Had (gave_claim st.server_url st.claim_secret) es

abbrev pub Holds : State → List Event → Type 0
Holds st es = Backed es × TokenFrom st es × ClaimFrom st es

abbrev pub Safe : Client → Type 0
Safe c = Holds c.state c.events

pub Holds-event :
    (e : Event) (st : State) (es : List Event) → Known es e → Holds st es → Holds st (e ∷ es)
Holds-event e st es k (b, inl t, inl s) = ((k, b), inl t, inl s)
Holds-event e st es k (b, inl t, inr s) = ((k, b), inl t, inr (inr s))
Holds-event e st es k (b, inr (u, t), inl s) = ((k, b), inr (u, inr t), inl s)
Holds-event e st es k (b, inr (u, t), inr s) = ((k, b), inr (u, inr t), inr (inr s))

pub Safe-event : (e : Event) (c : Client) → Known c.events e → Safe c → Safe (emit e c)
unfolding emit
Safe-event e c k h = Holds-event e c.state c.events k h

pub failed-Safe :
    (w : World) (event text : String) (c : Client) → Safe c → Safe (failed w event text c).0
unfolding failed remember emit
failed-Safe w event text c h =
    if-case Safe (is_noted (w.now c.events) event text c.memory) _ _ (λ s. h)
      (λ s. Safe-event _ c tt h)

pub set_ok-Safe : (w : World) (c : Client) → Safe c → Safe (set_ok w c)
unfolding set_ok remember emit
set_ok-Safe w c h =
    if-case Safe (str_eq c.memory.fault_text "") _ _ (λ s. h) (λ s. Safe-event _ c tt h)

pub clear_fleet-Safe : (c : Client) → Safe c → Safe (clear_fleet c)
unfolding clear_fleet remember emit
clear_fleet-Safe c h = Safe-event _ c tt h

pub save_state-Safe :
    (w : World) (change : State → State) (c : Client)
    → Holds (change c.state) c.events
    → Safe (save_state w change c).0
unfolding save_state
save_state-Safe w change c h = Holds-event _ (change c.state) c.events tt h

-- The server at an address gave what an answer holds.
abbrev pub Gave : String → Granted → List Event → Type 0
Gave base (paired token) es = Had (gave_token base token) es
Gave base (pending code secret) es = Had (gave_claim base secret) es

-- A client without a token that has an answer of a server.
abbrev pub Heard : String → Client × Called Granted → Type 0
Heard base (c, fails e) = Safe c × (c.state.device_token ≡ "")
Heard base (c, answers g) = Safe c × (c.state.device_token ≡ "") × Gave base g c.events

received-Heard :
    (base : String) (r : Called Granted) (c : Client)
    → Safe c
    → c.state.device_token ≡ ""
    → Heard base (received base r c)
unfolding emit
received-Heard base (fails e) c h n = (h, n)
received-Heard base (answers (paired token)) c h n = (Safe-event _ c tt h, n, inl refl)
received-Heard base (answers (pending code secret)) c h n = (Safe-event _ c tt h, n, inl refl)

pub ask-Heard :
    (w : World) (base : String) (wire : Event) (c : Client)
    → Safe c
    → Known c.events wire
    → c.state.device_token ≡ ""
    → Heard base (ask w base wire c)
unfolding ask emit
ask-Heard w base wire c h k n =
    received-Heard base (checked (w.enroll (wire ∷ c.events)))
      (record c { events = wire ∷ c.events }) (Safe-event _ c k h) n

on_paired-Safe : (base : String) (r : Client × Bool) → Safe r.0 → Safe (on_paired base r).0
unfolding emit
on_paired-Safe base (c, false) h = h
on_paired-Safe base (c, true) h = Safe-event _ (clear_fleet c) tt (clear_fleet-Safe c h)

on_pending-Safe :
    (tells : Bool) (code : String) (r : Client × Bool) → Safe r.0 → Safe (on_pending tells code r).0
unfolding emit
on_pending-Safe tells code (c, false) h = h
on_pending-Safe true code (c, true) h = Safe-event _ c tt h
on_pending-Safe false code (c, true) h = h

-- An answer is taken with the address that it came from.
pub take_enrollment-Safe :
    (w : World) (base : String) (g : Granted) (c : Client)
    → str_eq base "" ≡ false
    → Heard base (c, answers g)
    → Safe (take_enrollment w base g c).0
unfolding take_enrollment
take_enrollment-Safe w base (paired token) c full (h, n, gave) =
    on_paired-Safe base (save_state w (paired_state base token) c)
      (save_state-Safe w (paired_state base token) c (h.0, inr (full, gave), inl refl))
take_enrollment-Safe w base (pending code secret) c full (h, n, gave) =
    let change = pending_state base (w.now c.events) code secret in
    if-case (λ (r : Client × Bool). Safe r.0) (same_answer base code secret c.state) _ _ (λ s. h)
      (λ s.
        on_pending-Safe _ code (save_state w change c)
          (save_state-Safe w change c (h.0, inl n, inr gave)))
