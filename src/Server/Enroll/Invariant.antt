-- ===== src/Server/Enroll/Invariant.antt =====
-- An invariant of the statements of an enrolment is one of the whole transaction.
use portapixel.Prelude.{
  if-case, ℕ, ◌≡◌, arith, inl, inr, String, true, false, not, ◌&&◌, Option, none, some, [], ◌==◌,
  is_empty, Bool-cases, Option-cases, Bytes, bytes_eq, str_eq,
}
use portapixel.Server.Table.{update_where, find_where, has_where}
use portapixel.Server.Rows.{
  PendingRow, TokenRow, Tables, Result, Ensures, Ensures-bind, find_device, is_waiting,
}
use portapixel.Server.Enroll.{
  Request, Visit, Answer, sweep_pending, touch_enrolled, pair_row, upsert_device, valid_device_id,
}
use portapixel.Server.Enroll.Rules.{
  was_paired, same_hardware, is_auto, usable, count_use, make_pending, issue, enroll_no_token,
  enroll_counted, enroll_with_enrollment_token, poll, answer_claim, enroll_with_token, holds_token,
  enroll_swept, may_create, enroll,
}

-- Without a warning, the row of the device was never paired.
abbrev pub Fits : Request → Bytes → Tables → Type 0
Fits req collides d = is_empty collides ≡ true → was_paired (find_device req.device_id d) ≡ false

-- What an enrolment asks of an invariant.
pub record Stable (hash : String → String) (req : Request) (v : Visit) (P : Tables → Type 0)
    : Type 0 where
  pub sweep : (d : Tables) → P d → P (sweep_pending v.now d)
  pub touch : (d : Tables) → P d → P (touch_enrolled req v d)
  pub pair : (token_hash : String) (d : Tables) → P d → Ensures P (pair_row req v token_hash d)
  pub upsert : (group : ℕ) (d : Tables) → P d → P (upsert_device req v.ip v.now group true d)
  pub count :
      (id : ℕ) (d : Tables)
      → P d
      → P (record d { tokens = update_where (usable v.now id) count_use d.tokens })
  pub asks :
      (id : ℕ) (d : Tables)
      → P d
      → P (record d { pendings = update_where (λ q. q.id == id) (poll req v) d.pendings })
  pub queues :
      (token_id : ℕ) (collides : Bytes) (d : Tables)
      → Fits req collides d
      → P d
      → Ensures (λ a. P a.tables) (make_pending hash req v token_id collides d)

module _ (hash : String → String) (req : Request) (v : Visit) (P : Tables → Type 0)
    (w : Stable hash req v P) where
  abbrev Good : Result Answer → Type 0
  Good m = Ensures (λ a. P a.tables) m

  Good-issue : (d : Tables) → P d → Good (issue hash req v d)
  unfolding issue
  Good-issue d p =
      Ensures-bind P (λ (a : Answer). P a.tables) (pair_row req v (hash v.secret) d) _
        (w.pair (hash v.secret) d p) (λ d' p'. p')

  Good-enroll_counted :
      (t : TokenRow) (d : Tables)
      → is_empty req.device_id ≡ false
      → P d
      → Good (enroll_counted hash req v t d)
  unfolding enroll_counted
  Good-enroll_counted t d full p =
      let row = find_device req.device_id d in
      if-case Good (was_paired row && is_auto t.mode && same_hardware req row) _ _
        (λ c. Good-issue d p)
        (λ c.
          if-case Good (was_paired row) _ _
            (λ k. w.queues t.id req.device_id d (λ e. absurd (ground (arith, e, full))) p)
            (λ k.
              if-case Good (is_auto t.mode) _ _ (λ m. Good-issue _ (w.upsert t.group d p))
                (λ m. w.queues t.id [] d (λ e. k) p)))

  Good-enroll_with_enrollment_token :
      (d : Tables) (found : Option TokenRow)
      → is_empty req.device_id ≡ false
      → P d
      → Good (enroll_with_enrollment_token hash req v d found)
  unfolding enroll_with_enrollment_token
  Good-enroll_with_enrollment_token d none full p = tt
  Good-enroll_with_enrollment_token d (some t) full p =
      if-case Good (has_where (usable v.now t.id) d.tokens) _ _
        (λ e. Good-enroll_counted t _ full (w.count t.id d p)) (λ e. tt)

  Good-answer_claim :
      (d : Tables) (found : Option PendingRow) (otherwise : Result Answer)
      → P d
      → Good otherwise
      → Good (answer_claim hash req v d found otherwise)
  unfolding answer_claim
  Good-answer_claim d none otherwise p rest = rest
  Good-answer_claim d (some q) otherwise p rest =
      if-case Good (not (bytes_eq q.device_id req.device_id)) _ _ (λ e. tt)
        (λ e. if-case Good (is_waiting q) _ _ (λ k. w.asks q.id d p) (λ k. Good-issue d p))

  Good-enroll_no_token :
      (d : Tables) → is_empty req.device_id ≡ false → P d → Good (enroll_no_token hash req v d)
  unfolding enroll_no_token
  Good-enroll_no_token d full p = elim (Bool-cases (was_paired (find_device req.device_id d))) [
    | inl e ↦ rw e (w.queues 0 req.device_id d (λ k. absurd (ground (arith, k, full))) p)
    | inr e ↦ rw e (w.queues 0 [] d (λ k. e) p)
  ]

  Good-enroll_swept :
      (d : Tables) → is_empty req.device_id ≡ false → P d → Good (enroll_swept hash req v d)
  unfolding enroll_swept enroll_with_token
  Good-enroll_swept d full p =
      if-case Good (str_eq req.token "") _ _ (λ e. Good-enroll_no_token d full p)
        (λ e. elim (Option-cases (find_where (holds_token hash req) d.devices)) [
          | inl h ↦ rw h (Good-answer_claim d _ _ p (Good-enroll_with_enrollment_token d _ full p))
          | inr (r, h) ↦
              rw h (if-case Good (bytes_eq r.id req.device_id) _ _ (λ k. w.touch d p) (λ k. tt))
        ])

  pub Stable-enroll : (d : Tables) → P d → Ensures (λ a. P a.tables) (enroll hash req v d)
  unfolding enroll valid_device_id
  Stable-enroll d p =
      if-case Good (not (valid_device_id req.device_id)) _ _ (λ e. tt)
        (λ e.
          Ensures-bind (λ (a : Answer). P a.tables) (λ (a : Answer). P a.tables)
            (enroll_swept hash req v (sweep_pending v.now d)) (may_create v)
            (Good-enroll_swept (sweep_pending v.now d) (ground (arith, e)) (w.sweep d p))
            (λ a g. if-case Good (a.created && not v.may_queue) _ _ (λ c. tt) (λ c. g)))
