-- ===== src/Device/Syncer/Secrets/Flows.antt =====
-- The flows of the fleet client keep its secrets with their server.
use portapixel.Prelude.{
  ℕ, ◌≡◌, refl, subst, inl, inr, arith, String, Bool, true, false, not, ◌&&◌, Option, none, some,
  List, ◌∷◌, str_eq, eq_iff, if-case,
}
use portapixel.Device.Identity.{State, paired as is_paired}
use portapixel.Device.Syncer.{
  text_of, is_revoked, Called, fails, answers, Granted, paired, pending, Event, claims, World,
  Client, server_saved, rules_cleared, rescanned, logged, emit, remember, save_state, clear_fleet,
}
use portapixel.Device.Syncer.Enrolling.{
  write_text, take_enrollment, PairError, keep_server, keep, pair_answered, request, pair_from,
  unmasked, pair_saving, pair_with, pair, claim_gone, claim_taken, claim_answered, claim_round,
}
use portapixel.Device.Syncer.Ending.{
  unpaired_state, unpair_saved, unpair_with, unpair, refused_state, tell_refusal, refuse_token,
  dropped, drop_token,
}
use portapixel.Device.Syncer.Secrets.{
  Known, Safe, Safe-event, Heard, failed-Safe, clear_fleet-Safe, save_state-Safe, ask-Heard,
  take_enrollment-Safe,
}

keep_server-Safe :
    (saves : List Event → Bool) (base token : String) (c : Client)
    → Safe c
    → Safe (keep_server saves base token c).0
unfolding keep_server remember emit
keep_server-Safe saves base token c h =
    let saved : Safe (emit (server_saved base token) c) = Safe-event _ c tt h in
    if-case (λ (r : Client × Option PairError). Safe r.0)
      (saves (server_saved base token ∷ c.events)) _ _ (λ s. saved)
      (λ s. Safe-event _ (emit (server_saved base token) c) tt saved)

keep-Safe :
    (saves : Option (List Event → Bool)) (base token : String) (r : Client × Bool)
    → Safe r.0
    → Safe (keep saves base token r).0
keep-Safe saves base token (c, false) h = h
keep-Safe none base token (c, true) h = h
keep-Safe (some saves) base token (c, true) h = keep_server-Safe saves base token c h

pair_answered-Safe :
    (w : World) (saves : Option (List Event → Bool)) (base token : String)
    (r : Client × Called Granted)
    → str_eq base "" ≡ false
    → Heard base r
    → Safe (pair_answered w saves base token r).0
pair_answered-Safe w saves base token (c, fails e) full h = h.0
pair_answered-Safe w saves base token (c, answers g) full h =
    keep-Safe saves base token (take_enrollment w base g c) (take_enrollment-Safe w base g c full h)

-- The claim secret goes to the server that gave it.
request-Known :
    (base token : String) (c : Client) → Safe c → Known c.events (request base token c.state)
unfolding request
request-Known base token c (b, t, inl none_held) =
    if-case (Known c.events)
      (str_eq token "" && not (str_eq c.state.claim_secret "") && str_eq c.state.server_url base) _
      _ (λ e. absurd (ground (arith, e, (eq_iff c.state.claim_secret "").1 none_held))) (λ e. tt)
request-Known base token c (b, t, inr gave) =
    if-case (Known c.events)
      (str_eq token "" && not (str_eq c.state.claim_secret "") && str_eq c.state.server_url base) _
      _
      (λ e.
        let same : c.state.server_url ≡ base =
          (eq_iff c.state.server_url base).0 (ground (arith, e)) in
        subst (λ u. Known c.events (claims u c.state.claim_secret)) same gave)
      (λ e. tt)

pair_from-Safe :
    (w : World) (saves : Option (List Event → Bool)) (base token : String) (c : Client)
    → str_eq base "" ≡ false
    → c.state.device_token ≡ ""
    → Safe c
    → Safe (pair_from w saves base token c).0
unfolding pair_from
pair_from-Safe w saves base token c full n h =
    pair_answered-Safe w saves base token _ full
      (ask-Heard w base (request base token c.state) c h (request-Known base token c h) n)

pair_saving-Safe :
    (w : World) (saves : Option (List Event → Bool)) (base token : String) (c : Client)
    → str_eq base "" ≡ false
    → c.state.device_token ≡ ""
    → Safe c
    → Safe (pair_saving w saves base token c).0
pair_saving-Safe w none base token c full n h = h
pair_saving-Safe w (some saves) base token c full n h =
    pair_from-Safe w (some saves) base (unmasked w token c) c full n h

pub no_token : (st : State) → is_paired st ≡ false → st.device_token ≡ ""
unfolding is_paired
no_token st h = (eq_iff st.device_token "").0 (ground (arith, h))

pair_with-Safe :
    (w : World) (save : Bool) (o : Option String) (token : String) (c : Client)
    → ((base : String) → o ≡ some base → str_eq base "" ≡ false)
    → Safe c
    → Safe (pair_with w save o token c).0
pair_with-Safe w save none token c full h = h
pair_with-Safe w true (some base) token c full h =
    if-case (λ (r : Client × Option PairError). Safe r.0) (is_paired c.state) _ _ (λ e. h)
      (λ e. pair_saving-Safe w w.saves_server base token c (full base refl) (no_token c.state e) h)
pair_with-Safe w false (some base) token c full h =
    if-case (λ (r : Client × Option PairError). Safe r.0) (is_paired c.state) _ _ (λ e. h)
      (λ e.
        pair_from-Safe w none base (unmasked w token c) c (full base refl) (no_token c.state e) h)

-- No address that the check of addresses lets through is empty.
abbrev pub Checked : World → Type 0
Checked w = (url base : String) → w.check_url url ≡ some base → str_eq base "" ≡ false

pub pair-Safe :
    (w : World) (url token : String) (save : Bool) (c : Client)
    → Checked w
    → Safe c
    → Safe (pair w url token save c).0
unfolding pair
pair-Safe w url token save c full h = pair_with-Safe w save (w.check_url url) token c (full url) h

claim_taken-Safe :
    (w : World) (since : ℕ) (g : Granted) (r : Client × Bool)
    → Safe r.0
    → Safe (claim_taken w since g r).0
claim_taken-Safe w since g (c, false) h = failed-Safe w "sync.state.write.fail" write_text c h
claim_taken-Safe w since (paired token) (c, true) h = h
claim_taken-Safe w since (pending code secret) (c, true) h = h

claim_answered-Safe :
    (w : World) (st : State) (r : Client × Called Granted)
    → str_eq st.server_url "" ≡ false
    → Heard st.server_url r
    → Safe (claim_answered w st r).0
unfolding emit
claim_answered-Safe w st (c, fails e) full (h, n) =
    let told : Safe (emit (logged "sync.pending.gone" "") c) = Safe-event _ c tt h in
    if-case (λ (r : Client × ℕ). Safe r.0) (is_revoked e) _ _
      (λ s.
        save_state-Safe w claim_gone (emit (logged "sync.pending.gone" "") c)
          (told.0, inl n, inl refl))
      (λ s. failed-Safe w "sync.pending.fail" (text_of e) c h)
claim_answered-Safe w st (c, answers g) full h =
    claim_taken-Safe w st.pending_since g _ (take_enrollment-Safe w st.server_url g c full h)

pub claim_round-Safe :
    (w : World) (c : Client)
    → str_eq c.state.server_url "" ≡ false
    → str_eq c.state.claim_secret "" ≡ false
    → c.state.device_token ≡ ""
    → Safe c
    → Safe (claim_round w c).0
unfolding claim_round
claim_round-Safe w c full held n (b, t, inl none_held) =
    absurd (ground (arith, held, (eq_iff c.state.claim_secret "").1 none_held))
claim_round-Safe w c full held n (b, t, inr gave) = claim_answered-Safe w c.state _ full (
    ask-Heard w c.state.server_url (claims c.state.server_url c.state.claim_secret) c
      (b, t, inr gave) gave n)

unpair_saved-Safe : (r : Client × Bool) → Safe r.0 → Safe (unpair_saved r).0
unpair_saved-Safe (c, false) h = h
unpair_saved-Safe (c, true) h =
    let cleared = clear_fleet c in
    let ruled = emit rules_cleared cleared in
    Safe-event _ (emit rescanned ruled) tt
      (Safe-event _ ruled tt (Safe-event _ cleared tt (clear_fleet-Safe c h)))

unpair_with-Safe :
    (w : World) (saves : Option (List Event → Bool)) (c : Client)
    → Safe c
    → Safe (unpair_with w saves c).0
unfolding unpair_with
unpair_with-Safe w none c h =
    unpair_saved-Safe _ (save_state-Safe w unpaired_state c (h.0, inl refl, inl refl))
unpair_with-Safe w (some saves) c h =
    let saved : Safe (emit (server_saved "" "") c) = Safe-event _ c tt h in
    if-case (λ (r : Client × Bool). Safe r.0) (saves (emit (server_saved "" "") c).events) _ _
      (λ s. unpair_saved-Safe _ (
        save_state-Safe w unpaired_state (emit (server_saved "" "") c)
          (saved.0, inl refl, inl refl)))
      (λ s. Safe-event _ (emit (server_saved "" "") c) tt saved)

pub unpair-Safe : (w : World) (c : Client) → Safe c → Safe (unpair w c).0
unfolding unpair
unpair-Safe w c h =
    if-case (λ (r : Client × Bool). Safe r.0)
      (not (is_paired c.state)
        && str_eq c.state.claim_secret ""
        && str_eq (w.config c.events).url "")
      _ _ (λ s. h) (λ s. unpair_with-Safe w w.saves_server c h)

tell_refusal-Safe : (told : Bool) (c : Client) → Safe c → Safe (tell_refusal told c)
tell_refusal-Safe true c h = h
tell_refusal-Safe false c h = Safe-event _ c tt h

pub refuse_token-Safe : (w : World) (c : Client) → Safe c → Safe (refuse_token w c).0
unfolding refuse_token remember
refuse_token-Safe w c h = tell_refusal-Safe c.memory.revoked _ (clear_fleet-Safe c h)

dropped-Safe : (r : Client × Bool) → Safe r.0 → Safe (dropped r)
dropped-Safe (c, true) h = h
dropped-Safe (c, false) h = Safe-event _ c tt h

pub drop_token-Safe : (w : World) (c : Client) → Safe c → Safe (drop_token w c).0
unfolding drop_token
drop_token-Safe w c h =
    let saved =
      dropped-Safe (save_state w refused_state c)
        (save_state-Safe w refused_state c (h.0, inl refl, inl refl)) in
    let gone = dropped (save_state w refused_state c) in
    refuse_token-Safe w _ (Safe-event _ (emit rules_cleared gone) tt (Safe-event _ gone tt saved))
