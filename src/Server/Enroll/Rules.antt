-- ===== src/Server/Enroll/Rules.antt =====
-- `Enroll` of internal/server/db/enroll.go with the rules R1 to R5 that it calls.
use portapixel.Prelude.{
  ℕ, suc, String, Bool, true, false, not, ◌&&◌, ◌||◌, Option, none, some, [], ◌∷◌, ◌++◌, leb, ltb,
  ◌==◌, if◌then◌else◌, Bytes, bytes_eq, str_eq,
}
use portapixel.Server.Table.{update_where, find_where, has_where, count_where}
use portapixel.Server.Rows.{
  max_pending, DeviceRow, PendingRow, Mode, auto, manual, TokenRow, Tables, bad_token,
  bad_device_id, too_many_pending, queue_limited, no_free_code, constraint, Result, refused, done,
  ◌>>=◌, find_device, is_waiting, last_pending,
}
use portapixel.Server.Enroll.{
  max_tries, Request, Visit, paired, waiting, Answer, valid_device_id, enroll_name, free_code,
  sweep_pending, touch_enrolled, pair_row, upsert_device,
}

abbrev pub was_paired : Option DeviceRow → Bool
was_paired none = false
was_paired (some r) = r.ever_paired

-- The hardware ID of the row is the one of the request, and there is one.
abbrev pub same_hardware : Request → Option DeviceRow → Bool
same_hardware req none = false
same_hardware req (some r) = not (str_eq req.hardware_id "") && str_eq r.hardware_id req.hardware_id

abbrev pub is_auto : Mode → Bool
is_auto auto = true
is_auto manual = false

abbrev pub in_time : ℕ → Option ℕ → Bool
in_time now none = true
in_time now (some e) = ltb now e

-- The statement that counts a use of a token has the limits of the token in its test.
unfoldable pub usable : ℕ → ℕ → TokenRow → Bool
usable now id t =
    t.id == id
    && not t.revoked
    && (t.max_uses == 0 || ltb t.uses t.max_uses)
    && in_time now t.expires_at

unfoldable pub count_use : TokenRow → TokenRow
count_use t = record t { uses = suc t.uses }

abbrev pub same_machine : Request → PendingRow → Bool
same_machine req p =
    bytes_eq p.device_id req.device_id && str_eq p.hardware_id req.hardware_id && is_waiting p

-- The poll of a request that still waits.
unfoldable pub poll : Request → Visit → PendingRow → PendingRow
poll req v p = record p { ip = v.ip; version = req.version; last_poll_at = v.now }

-- A request whose address made too many may not make a row.
abbrev pub may_create : Visit → Answer → Result Answer
may_create v a = if a.created && not v.may_queue then refused queue_limited else done a

module _ (hash : String → String) where
  -- `UNIQUE (claim_hash)`: another row that holds the hash of this secret.
  abbrev pub holds_claim : Visit → PendingRow → Bool
  holds_claim v p = str_eq p.claim_hash (hash v.secret)

  unfoldable pub ask_again : Request → Visit → ℕ → Bytes → PendingRow → PendingRow
  ask_again req v token_id collides p = record p {
    claim_hash = hash v.secret;
    hardware_id = req.hardware_id;
    name = enroll_name req.name;
    version = req.version;
    ip = v.ip;
    token_id = token_id;
    collides_with = collides;
    last_poll_at = v.now;
  }

  unfoldable pub new_pending : Request → Visit → ℕ → Bytes → Bytes → ℕ → PendingRow
  new_pending req v token_id collides code id = record {
    id = id;
    claim_hash = hash v.secret;
    pairing_code = code;
    device_id = req.device_id;
    hardware_id = req.hardware_id;
    name = enroll_name req.name;
    version = req.version;
    ip = v.ip;
    token_id = token_id;
    collides_with = collides;
    created_at = v.now;
    last_poll_at = v.now;
    approved_at = none;
  }

  unfoldable pub insert_pending :
      Request → Visit → ℕ → Bytes → Tables → Option Bytes → Result Answer
  insert_pending req v token_id collides d none = refused no_free_code
  insert_pending req v token_id collides d (some code) =
      let row = new_pending req v token_id collides code (suc (last_pending d.pendings)) in
      if has_where (holds_claim v) d.pendings
      then refused constraint
      else done (record {
        tables = record d { pendings = d.pendings ++ row ∷ [] };
        reply = waiting code v.secret;
        created = true;
      })

  -- `makePending`, with the row of the same machine that it found.
  unfoldable pub pending_of :
      Request → Visit → ℕ → Bytes → Tables → Option PendingRow → Result Answer
  pending_of req v token_id collides d none =
      if leb max_pending (count_where is_waiting d.pendings)
      then refused too_many_pending
      else insert_pending req v token_id collides d (free_code max_tries v.draws d.pendings)
  pending_of req v token_id collides d (some p) =
      let asked = update_where (λ q. q.id == p.id) (ask_again req v token_id collides) d.pendings in
      if has_where (λ q. not (q.id == p.id) && holds_claim v q) d.pendings
      then refused constraint
      else done (record {
        tables = record d { pendings = asked };
        reply = waiting p.pairing_code v.secret;
        created = false;
      })

  unfoldable pub make_pending : Request → Visit → ℕ → Bytes → Tables → Result Answer
  make_pending req v token_id collides d =
      pending_of req v token_id collides d (find_where (same_machine req) d.pendings)

  -- A new device token, and the row that it pairs.
  unfoldable pub issue : Request → Visit → Tables → Result Answer
  issue req v d = do
    d' ← pair_row req v (hash v.secret) d
    done (record { tables = d'; reply = paired v.secret; created = false })

  unfoldable pub enroll_no_token : Request → Visit → Tables → Result Answer
  enroll_no_token req v d =
      let collides = if was_paired (find_device req.device_id d) then req.device_id else [] in
      make_pending req v 0 collides d

  -- The rules R2 and R3, after the use is counted.
  unfoldable pub enroll_counted : Request → Visit → TokenRow → Tables → Result Answer
  enroll_counted req v t d =
      let row = find_device req.device_id d in
      if was_paired row && is_auto t.mode && same_hardware req row
      then issue req v d
      else if was_paired row
      then make_pending req v t.id req.device_id d
      else if is_auto t.mode
      then issue req v (upsert_device req v.ip v.now t.group true d)
      else make_pending req v t.id [] d

  unfoldable pub enroll_with_enrollment_token :
      Request → Visit → Tables → Option TokenRow → Result Answer
  enroll_with_enrollment_token req v d none = refused bad_token
  enroll_with_enrollment_token req v d (some t) =
      let counted = update_where (usable v.now t.id) count_use d.tokens in
      if has_where (usable v.now t.id) d.tokens
      then enroll_counted req v t (record d { tokens = counted })
      else refused bad_token

  -- `answerClaim`, with the row of the claim, and the answer where no row has it.
  unfoldable pub answer_claim :
      Request → Visit → Tables → Option PendingRow → Result Answer → Result Answer
  answer_claim req v d none otherwise = otherwise
  answer_claim req v d (some p) otherwise =
      let polled = update_where (λ q. q.id == p.id) (poll req v) d.pendings in
      if not (bytes_eq p.device_id req.device_id)
      then refused bad_token
      else if is_waiting p
      then done (record {
        tables = record d { pendings = polled };
        reply = waiting p.pairing_code req.token;
        created = false;
      })
      else issue req v d

  -- `enrollWithToken`, with the row of the device token.
  unfoldable pub enroll_with_token : Request → Visit → Tables → Option DeviceRow → Result Answer
  enroll_with_token req v d (some r) =
      if bytes_eq r.id req.device_id
      then done
          (record { tables = touch_enrolled req v d; reply = paired req.token; created = false })
      else refused bad_token
  enroll_with_token req v d none =
      let by_token = find_where (λ t. str_eq t.token_hash (hash req.token)) d.tokens in
      let by_claim = find_where (λ p. str_eq p.claim_hash (hash req.token)) d.pendings in
      answer_claim req v d by_claim (enroll_with_enrollment_token req v d by_token)

  abbrev pub holds_token : Request → DeviceRow → Bool
  holds_token req r = str_eq r.token_hash (hash req.token) && not (str_eq r.token_hash "")

  unfoldable pub enroll_swept : Request → Visit → Tables → Result Answer
  enroll_swept req v d =
      if str_eq req.token ""
      then enroll_no_token req v d
      else enroll_with_token req v d (find_where (holds_token req) d.devices)

  -- `Enroll`: the transaction, which an error rolls back.
  unfoldable pub enroll : Request → Visit → Tables → Result Answer
  enroll req v d =
      if not (valid_device_id req.device_id)
      then refused bad_device_id
      else enroll_swept req v (sweep_pending v.now d) >>= may_create v
