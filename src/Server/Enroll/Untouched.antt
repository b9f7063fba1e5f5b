-- ===== src/Server/Enroll/Untouched.antt =====
-- The rule R1: which requests can change a screen that was ever paired.
use portapixel.Prelude.{
  if-case, ℕ, String, true, false, not, ◌&&◌, Option, none, some, [], ◌≡◌, refl, sym, ◌∙◌, subst,
  ◌⊎◌, inl, inr, arith, Bool-cases, Bytes, bytes_eq, bytes_eq_iff, str_eq, leb, ◌==◌,
}
use portapixel.Server.Table.{update_where, find_where, has_where, count_where, find-update_where}
use portapixel.Server.Rows.{
  max_pending, DeviceRow, PendingRow, TokenRow, Tables, Result, refused, done, Ensures,
  Ensures-bind, is_device, find_device, is_waiting,
}
use portapixel.Server.Enroll.{
  max_tries, Request, Visit, Answer, paired, valid_device_id, free_code, sweep_pending, touch,
  touch_enrolled, pair_with, pair_row, upsert_device,
}
use portapixel.Server.Enroll.Kept.{Kept, Kept-upsert_device}
use portapixel.Server.Enroll.Rules.{
  was_paired, same_hardware, is_auto, usable, count_use, holds_claim, insert_pending, pending_of,
  make_pending, issue, enroll_no_token, enroll_counted, enroll_with_enrollment_token, answer_claim,
  enroll_with_token, holds_token, enroll_swept, may_create, enroll,
}

-- What lets a request change the row of a screen: the token of the row with its ID, the secret of a
-- request of this screen that the admin approved, or an automatic enrollment token together with the
-- hardware ID.
abbrev pub Entitled : (String → String) → Request → Visit → Tables → DeviceRow → Type 0
Entitled hash req v d r =
    ((s : DeviceRow) × (find_where (holds_token hash req) d.devices ≡ some s) × (s.id ≡ r.id))
    ⊎ ((p : PendingRow) × (find_where (λ q. str_eq q.claim_hash (hash req.token)) d.pendings
          ≡ some p)
        × (p.device_id ≡ r.id)
        × (is_waiting p ≡ false))
    ⊎ ((t : TokenRow) × (find_where (λ s. str_eq s.token_hash (hash req.token)) d.tokens ≡ some t)
        × (has_where (usable v.now t.id) d.tokens ≡ true)
        × (is_auto t.mode ≡ true)
        × (same_hardware req (some r) ≡ true))

module _ (hash : String → String) (req : Request) (v : Visit) (r : DeviceRow) where
  Kept-touch_enrolled :
      (d : Tables)
      → bytes_eq r.id req.device_id ≡ false
      → Kept r d
      → Kept r (touch_enrolled req v d)
  unfolding find_device touch_enrolled touch
  Kept-touch_enrolled d other h =
      find-update_where (is_device r.id) r (is_device req.device_id) (touch req v) d.devices
        (λ x. refl) other h

  Kept-pair_row :
      (token_hash : String) (d : Tables)
      → bytes_eq r.id req.device_id ≡ false
      → Kept r d
      → Ensures (Kept r) (pair_row req v token_hash d)
  unfolding find_device pair_row pair_with
  Kept-pair_row token_hash d other h =
      let touched = touch_enrolled req v d in
      if-case (Ensures (Kept r)) (has_where (is_device req.device_id) touched.devices) _ _
        (λ e.
          find-update_where (is_device r.id) r (is_device req.device_id)
            (pair_with v.now token_hash) touched.devices (λ x. refl) other
            (Kept-touch_enrolled d other h))
        (λ e. tt)

  Kept-issue :
      (d : Tables)
      → bytes_eq r.id req.device_id ≡ false
      → Kept r d
      → Ensures (λ a. Kept r a.tables) (issue hash req v d)
  unfolding issue
  Kept-issue d other h =
      Ensures-bind (Kept r) (λ (a : Answer). Kept r a.tables) (pair_row req v (hash v.secret) d) _
        (Kept-pair_row (hash v.secret) d other h) (λ d' k. k)

  Kept-insert_pending :
      (token_id : ℕ) (collides : Bytes) (d : Tables) (code : Option Bytes)
      → Kept r d
      → Ensures (λ a. Kept r a.tables) (insert_pending hash req v token_id collides d code)
  unfolding find_device insert_pending
  Kept-insert_pending token_id collides d none h = tt
  Kept-insert_pending token_id collides d (some code) h =
      if-case (Ensures (λ (a : Answer). Kept r a.tables))
        (has_where (holds_claim hash v) d.pendings) _ _ (λ e. tt) (λ e. h)

  Kept-pending_of :
      (token_id : ℕ) (collides : Bytes) (d : Tables) (found : Option PendingRow)
      → Kept r d
      → Ensures (λ a. Kept r a.tables) (pending_of hash req v token_id collides d found)
  unfolding find_device pending_of
  Kept-pending_of token_id collides d none h =
      if-case (Ensures (λ (a : Answer). Kept r a.tables))
        (leb max_pending (count_where is_waiting d.pendings)) _ _ (λ e. tt)
        (λ e. Kept-insert_pending token_id collides d (free_code max_tries v.draws d.pendings) h)
  Kept-pending_of token_id collides d (some p) h =
      if-case (Ensures (λ (a : Answer). Kept r a.tables))
        (has_where (λ q. not (q.id == p.id) && holds_claim hash v q) d.pendings) _ _ (λ e. tt)
        (λ e. h)

  Kept-make_pending :
      (token_id : ℕ) (collides : Bytes) (d : Tables)
      → Kept r d
      → Ensures (λ a. Kept r a.tables) (make_pending hash req v token_id collides d)
  unfolding make_pending
  Kept-make_pending token_id collides d h = Kept-pending_of token_id collides d _ h

  -- Either the row is as it was, or the request is entitled to the row of its device.
  abbrev Fate : Tables → Answer → Type 0
  Fate d a = Kept r a.tables ⊎ ((bytes_eq r.id req.device_id ≡ true) × Entitled hash req v d r)

  Fate-Kept :
      (d : Tables) (m : Result Answer) → Ensures (λ a. Kept r a.tables) m → Ensures (Fate d) m
  Fate-Kept d (refused e) h = tt
  Fate-Kept d (done a) h = inl h

  -- A row of the device itself is entitled, another one is left alone.
  Fate-own :
      (d : Tables) (m : Result Answer)
      → (bytes_eq r.id req.device_id ≡ true → Entitled hash req v d r)
      → (bytes_eq r.id req.device_id ≡ false → Ensures (λ a. Kept r a.tables) m)
      → Ensures (Fate d) m
  Fate-own d (refused e) own other = tt
  Fate-own d (done a) own other = elim (Bool-cases (bytes_eq r.id req.device_id)) [
    | inl e ↦ inr (e, own e)
    | inr e ↦ inl (other e)
  ]

  same_row :
      (d : Tables)
      → bytes_eq r.id req.device_id ≡ true
      → Kept r d
      → find_device req.device_id d ≡ some r
  same_row d e h = subst (λ id. find_device id d ≡ some r) ((bytes_eq_iff r.id req.device_id).0 e) h

  -- What belongs to the device of the request belongs to its row.
  same_id :
      (id : Bytes)
      → bytes_eq id req.device_id ≡ true
      → bytes_eq r.id req.device_id ≡ true
      → id ≡ r.id
  same_id id e own =
      (bytes_eq_iff id req.device_id).0 e ∙ sym ((bytes_eq_iff r.id req.device_id).0 own)

  Fate-enroll_counted :
      (t : TokenRow) (before d : Tables)
      → r.ever_paired ≡ true
      → find_where (λ s. str_eq s.token_hash (hash req.token)) before.tokens ≡ some t
      → has_where (usable v.now t.id) before.tokens ≡ true
      → Kept r d
      → Ensures (Fate before) (enroll_counted hash req v t d)
  unfolding enroll_counted
  Fate-enroll_counted t before d was token uses h =
      let row = find_device req.device_id d in
      let E : Result Answer → Type 0 = Ensures (Fate before) in
      if-case E (was_paired row && is_auto t.mode && same_hardware req row) _ _
        (λ c.
          Fate-own before (issue hash req v d)
            (λ own.
              let c' : (was_paired (some r) && is_auto t.mode && same_hardware req (some r))
                  ≡ true =
                rw (same_row d own h) at c in
              inr (inr (t, token, uses, ground (arith, c'), ground (arith, c'))))
            (λ other. Kept-issue d other h))
        (λ c.
          if-case E (was_paired row) _ _
            (λ k. Fate-Kept before _ (Kept-make_pending t.id req.device_id d h))
            (λ k.
              if-case E (is_auto t.mode) _ _
                (λ m.
                  let known = upsert_device req v.ip v.now t.group true d in
                  Fate-own before (issue hash req v known)
                    (λ own. absurd (
                      let k' : r.ever_paired ≡ false = rw (same_row d own h) at k in
                      ground (arith, was, k')))
                    (λ other.
                      Kept-issue known other
                        (Kept-upsert_device req r v.ip v.now t.group true d was h)))
                (λ m. Fate-Kept before _ (Kept-make_pending t.id [] d h))))

  Fate-enroll_with_enrollment_token :
      (d : Tables) (found : Option TokenRow)
      → r.ever_paired ≡ true
      → find_where (λ s. str_eq s.token_hash (hash req.token)) d.tokens ≡ found
      → Kept r d
      → Ensures (Fate d) (enroll_with_enrollment_token hash req v d found)
  unfolding enroll_with_enrollment_token find_device
  Fate-enroll_with_enrollment_token d none was token h = tt
  Fate-enroll_with_enrollment_token d (some t) was token h =
      let counted = update_where (usable v.now t.id) count_use d.tokens in
      if-case (Ensures (Fate d)) (has_where (usable v.now t.id) d.tokens) _ _
        (λ e. Fate-enroll_counted t d (record d { tokens = counted }) was token e h) (λ e. tt)

  Fate-answer_claim :
      (d : Tables) (found : Option PendingRow) (otherwise : Result Answer)
      → find_where (λ q. str_eq q.claim_hash (hash req.token)) d.pendings ≡ found
      → Kept r d
      → Ensures (Fate d) otherwise
      → Ensures (Fate d) (answer_claim hash req v d found otherwise)
  unfolding answer_claim find_device
  Fate-answer_claim d none otherwise claim h rest = rest
  Fate-answer_claim d (some p) otherwise claim h rest =
      let E : Result Answer → Type 0 = Ensures (Fate d) in
      if-case E (not (bytes_eq p.device_id req.device_id)) _ _ (λ e. tt)
        (λ e.
          if-case E (is_waiting p) _ _ (λ w. inl h)
            (λ w.
              Fate-own d (issue hash req v d)
                (λ own. inr (inl (p, claim, same_id p.device_id (ground (arith, e)) own, w)))
                (λ other. Kept-issue d other h)))

  Fate-enroll_with_token :
      (d : Tables) (found : Option DeviceRow)
      → r.ever_paired ≡ true
      → find_where (holds_token hash req) d.devices ≡ found
      → Kept r d
      → Ensures (Fate d) (enroll_with_token hash req v d found)
  unfolding enroll_with_token
  Fate-enroll_with_token d none was token h =
      Fate-answer_claim d _ _ refl h (Fate-enroll_with_enrollment_token d _ was refl h)
  Fate-enroll_with_token d (some s) was token h =
      if-case (Ensures (Fate d)) (bytes_eq s.id req.device_id) _ _
        (λ e.
          Fate-own d
            (done (record {
              tables = touch_enrolled req v d;
              reply = paired req.token;
              created = false;
            }))
            (λ own. inl (s, token, same_id s.id e own)) (λ other. Kept-touch_enrolled d other h))
        (λ e. tt)

  Fate-enroll_swept :
      (d : Tables) → r.ever_paired ≡ true → Kept r d → Ensures (Fate d) (enroll_swept hash req v d)
  unfolding enroll_swept enroll_no_token
  Fate-enroll_swept d was h =
      if-case (Ensures (Fate d)) (str_eq req.token "") _ _
        (λ e. Fate-Kept d _ (Kept-make_pending 0 _ d h))
        (λ e. Fate-enroll_with_token d _ was refl h)

-- An enrolment changes the row of a screen that was ever paired only for a request that names this
-- screen and that carries the device token of a row with the ID of this screen, the secret of a
-- request of this screen that the admin approved and that is not too old, or a usable automatic
-- enrollment token together with the hardware ID of the row.
pub enroll-Entitled :
    (hash : String → String) (req : Request) (v : Visit) (d : Tables) (r : DeviceRow)
    → r.ever_paired ≡ true
    → find_device r.id d ≡ some r
    → Ensures
        (λ a.
          (find_device r.id a.tables ≡ some r)
          ⊎ ((bytes_eq r.id req.device_id ≡ true) × Entitled hash req v (sweep_pending v.now d) r))
        (enroll hash req v d)
unfolding enroll sweep_pending find_device
enroll-Entitled hash req v d r was h =
    let swept = sweep_pending v.now d in
    let F : Answer → Type 0 = Fate hash req v r swept in
    if-case (Ensures F) (not (valid_device_id req.device_id)) _ _ (λ e. tt)
      (λ e.
        Ensures-bind F F (enroll_swept hash req v swept) (may_create v)
          (Fate-enroll_swept hash req v r swept was h)
          (λ a f. if-case (Ensures F) (a.created && not v.may_queue) _ _ (λ c. tt) (λ c. f)))
