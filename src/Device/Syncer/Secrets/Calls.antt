-- ===== src/Device/Syncer/Secrets/Calls.antt =====
-- Any calls of the fleet client keep its secrets with their server.
use portapixel.Prelude.{
  ℕ, ◌≡◌, arith, inl, String, true, false, not, ◌&&◌, Option, none, some, List, [], ◌∷◌, ltb,
  str_eq, if-case, if◌then◌else◌,
}
use portapixel.Device.Identity.{State, paired as is_paired}
use portapixel.Device.Syncer.{ServerConfig, World, Memory, Client, standalone_wait, remember}
use portapixel.Device.Syncer.Enrolling.{PairError, claim_round}
use portapixel.Device.Syncer.Rounds.{
  poll_round, or_empty, is_revoked_pair, pair_text, first_answered, first_round, forget_old_token,
  once, Call, pass, unpairing, pairing, run_call, run_calls,
}
use portapixel.Device.Syncer.Secrets.{Backed, Safe, failed-Safe}
use portapixel.Device.Syncer.Secrets.Flows.{
  no_token, Checked, pair-Safe, claim_round-Safe, unpair-Safe, refuse_token-Safe,
}
use portapixel.Device.Syncer.Secrets.Rounds.{poll_round-Safe}

first_answered-Safe :
    (w : World) (r : Client × Option PairError) → Safe r.0 → Safe (first_answered w r).0
first_answered-Safe w (c, none) h = h
first_answered-Safe w (c, some e) h =
    if-case (λ (r : Client × ℕ). Safe r.0) (is_revoked_pair e) _ _ (λ s. refuse_token-Safe w c h)
      (λ s. failed-Safe w "sync.enroll.fail" (pair_text e) c h)

first_round-Safe :
    (w : World) (cfg : ServerConfig) (o : Option String) (c : Client)
    → Checked w
    → Safe c
    → Safe (first_round w cfg o c).0
unfolding remember
first_round-Safe w cfg none c full h = h
first_round-Safe w cfg (some base) c full h =
    let Q : Client × ℕ → Type 0 = λ r. Safe r.0 in
    if-case Q (c.memory.revoked && str_eq cfg.token "") _ _ (λ s. h)
      (λ s.
        if-case Q (ltb (w.now c.events) c.memory.next_enroll) _ _ (λ t. h)
          (λ t. first_answered-Safe w _ (pair-Safe w base cfg.token false c full h)))

once_from-Safe :
    (w : World) (cfg : ServerConfig) (c : Client)
    → Checked w
    → Safe c
    → Safe
        (if is_paired c.state
          then poll_round w (or_empty (w.check_url cfg.url)) c
          else if not (str_eq c.state.claim_secret "")
          then (if str_eq c.state.server_url "" then (c, standalone_wait) else claim_round w c)
          else if str_eq cfg.url ""
          then (c, standalone_wait)
          else first_round w cfg (w.check_url cfg.url) c).0
unfolding is_paired
once_from-Safe w cfg c full h =
    let Q : Client × ℕ → Type 0 = λ r. Safe r.0 in
    if-case Q (not (str_eq c.state.device_token "")) _ _
      (λ p. poll_round-Safe w (or_empty (w.check_url cfg.url)) c (ground (arith, p)) h)
      (λ p.
        if-case Q (not (str_eq c.state.claim_secret "")) _ _
          (λ q.
            if-case Q (str_eq c.state.server_url "") _ _ (λ u. h)
              (λ u. claim_round-Safe w c u (ground (arith, q)) (no_token c.state p) h))
          (λ q.
            if-case Q (str_eq cfg.url "") _ _ (λ u. h)
              (λ u. first_round-Safe w cfg (w.check_url cfg.url) c full h)))

once-Safe : (w : World) (c : Client) → Checked w → Safe c → Safe (once w c).0
unfolding once remember
once-Safe w c full h =
    let cfg = w.config c.events in
    once_from-Safe w cfg (remember (forget_old_token cfg.token) c) full h

run_call-Safe :
    (w : World) (call : Call) (c : Client) → Checked w → Safe c → Safe (run_call w call c)
unfolding run_call
run_call-Safe w pass c full h = once-Safe w c full h
run_call-Safe w unpairing c full h = unpair-Safe w c h
run_call-Safe w (pairing url token) c full h = pair-Safe w url token true c full h

run_calls-Safe :
    (w : World) (calls : List Call) (c : Client) → Checked w → Safe c → Safe (run_calls w calls c)
unfolding run_calls
run_calls-Safe w [] c full h = h
run_calls-Safe w (call ∷ earlier) c full h =
    run_call-Safe w call (run_calls w earlier c) full (run_calls-Safe w earlier c full h)

-- Over any passes, pairings and unpairings of a client that starts without secrets, whatever the
-- servers answer and whichever writes fail: a request with a device token goes only to the address
-- whose server gave this token before, and a request with a claim secret only to the address whose
-- server gave this secret before. The check of addresses has to let no empty address through.
pub run_calls-Backed :
    (w : World) (calls : List Call) (state : State) (memory : Memory)
    → Checked w
    → state.device_token ≡ ""
    → state.claim_secret ≡ ""
    → Backed (run_calls w calls (record { state = state; memory = memory; events = [] })).events
run_calls-Backed w calls state memory full t s =
    (run_calls-Safe w calls (record { state = state; memory = memory; events = [] }) full
      (tt, inl t, inl s)).0
