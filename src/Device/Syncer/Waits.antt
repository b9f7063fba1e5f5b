-- ===== src/Device/Syncer/Waits.antt =====
-- The waits of the fleet client, and what a wait for an approval costs.
use portapixel.Prelude.{
  subst, ℕ, zero, suc, ◌≡◌, ◌≤◌, refl, sym, arith, inl, inr, true, false, List, [], ◌∷◌, max, ltb,
  ◌==◌, Bool-cases, if◌then◌else◌,
}
use text.Mathlib.TextPositions.{eq_refl}
use portapixel.Device.Identity.{State}
use portapixel.Device.Syncer.{
  max_immediate, answers, pending, checked, Event, claims, gave_claim, state_saved, logged, World,
  Client, emit,
}
use portapixel.Device.Syncer.Enrolling.{same_answer, take_enrollment, ask, claim_round}
use portapixel.Device.Syncer.Rounds.{next_wait, waits}

-- The longest run of zeros of a list, where some stand before it.
abbrev pub longest_run : ℕ → List ℕ → ℕ
longest_run before [] = before
longest_run before (x ∷ xs) =
    let on = longest_run (suc before) xs in
    let anew = longest_run 0 xs in if x == 0 then on else max before anew

longest_run-waits :
    (asked : List ℕ) (n : ℕ) → n ≤ max_immediate → longest_run n (waits asked n) ≤ max_immediate
unfolding waits next_wait
longest_run-waits [] n h = h
longest_run-waits (a ∷ asked) n h =
    let anew = longest_run-waits asked 0 (omega arith) in
    let on : suc n ≤ max_immediate → longest_run (suc n) (waits asked (suc n)) ≤ max_immediate =
      longest_run-waits asked (suc n) in
    elim (Bool-cases (ltb 0 a)) [
      | inl e ↦ rw e (ground (arith, h, anew, e))
      | inr e ↦ elim (Bool-cases (ltb max_immediate (suc n))) [
        | inl f ↦ rw (e, f) (ground (arith, h, anew))
        | inr f ↦ rw (e, f) (ground (arith, h, e, on (ground (arith, f))))
      ]
    ]

-- Whatever waits the passes ask for, no more than three passes in a row run without a wait.
pub waits-longest_run : (asked : List ℕ) → longest_run 0 (waits asked 0) ≤ max_immediate
waits-longest_run asked = longest_run-waits asked 0 (omega arith)

-- Rounds of a client that waits.
abbrev pub claim_rounds : World → ℕ → Client → Client
claim_rounds w zero c = c
claim_rounds w (suc n) c = (claim_round w (claim_rounds w n c)).0

-- How often the state file and the log are written.
abbrev pub writes_of : List Event → ℕ
writes_of [] = 0
writes_of (state_saved ∷ es) = suc (writes_of es)
writes_of (logged event text ∷ es) = suc (writes_of es)
writes_of (e ∷ es) = writes_of es

-- What the server says is what the client holds.
same_answer_refl :
    (st : State)
    → (st.pending_since == 0) ≡ false
    → same_answer st.server_url st.pairing_code st.claim_secret st ≡ true
unfolding same_answer
same_answer_refl st h =
    rw (eq_refl st.server_url, eq_refl st.claim_secret, eq_refl st.pairing_code, h) refl

claim_round-same :
    (w : World) (c : Client)
    → (c.state.pending_since == 0) ≡ false
    → checked (w.enroll (claims c.state.server_url c.state.claim_secret ∷ c.events))
      ≡ answers (pending c.state.pairing_code c.state.claim_secret)
    → (claim_round w c).0 ≡ (record c {
      events =
          gave_claim c.state.server_url c.state.claim_secret
          ∷ claims c.state.server_url c.state.claim_secret
          ∷ c.events;
    })
unfolding claim_round ask take_enrollment emit
claim_round-same w c since said = rw (said, same_answer_refl c.state since) refl

abbrev Still : Client → Client → Type 0
Still c d = (d.state ≡ c.state) × (d.memory ≡ c.memory) × (writes_of d.events ≡ writes_of c.events)

Still-step :
    (w : World) (c d : Client)
    → (c.state.pending_since == 0) ≡ false
    → ((es : List Event)
        → checked (w.enroll es) ≡ answers (pending c.state.pairing_code c.state.claim_secret))
    → Still c d
    → Still c (claim_round w d).0
Still-step w c d since said (s, m, n) =
    let step =
      claim_round-same w d (subst (λ (k : State). (k.pending_since == 0) ≡ false) (sym s) since) (
        subst
          (λ (k : State).
            checked (w.enroll (claims d.state.server_url d.state.claim_secret ∷ d.events))
            ≡ answers (pending k.pairing_code k.claim_secret))
          (sym s) (said _)) in
    subst (Still c) (sym step) (s, m, n)

-- A screen that waits for its approval, while the server gives the code and the secret that it
-- holds, writes neither its state nor the log, and nothing of what it remembers changes, however
-- often it asks. It has to know since when it waits.
pub claim_rounds-Still :
    (w : World) (n : ℕ) (c : Client)
    → (c.state.pending_since == 0) ≡ false
    → ((es : List Event)
        → checked (w.enroll es) ≡ answers (pending c.state.pairing_code c.state.claim_secret))
    → ((claim_rounds w n c).state ≡ c.state)
      × ((claim_rounds w n c).memory ≡ c.memory)
      × (writes_of (claim_rounds w n c).events ≡ writes_of c.events)
claim_rounds-Still w zero c since said = (refl, refl, refl)
claim_rounds-Still w (suc n) c since said =
    Still-step w c (claim_rounds w n c) since said (claim_rounds-Still w n c since said)
