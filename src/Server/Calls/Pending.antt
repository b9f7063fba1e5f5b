-- ===== src/Server/Calls/Pending.antt =====
-- The list of requests over any calls of the server.
use portapixel.Prelude.{
  if-case, ℕ, ◌≤◌, refl, arith, String, not, ◌&&◌, ◌||◌, Option, none, some, List, ◌==◌, Bytes,
  is_empty, str_eq,
}
use portapixel.Server.Table.{has_where, count_where}
use portapixel.Server.Table.Keys.{Distinct}
use portapixel.Server.Rows.{
  max_pending, DeviceRow, PendingRow, Mode, Tables, Result, Ensures, Ensures-bind, is_device,
  find_device, is_waiting,
}
use portapixel.Server.Enroll.{upsert_device, sweep_pending}
use portapixel.Server.Enroll.Rules.{enroll, was_paired}
use portapixel.Server.Enroll.Waiting.{
  same_code, Fine, Fine-update_where, Fine-select_where, Fine-upsert_device, Fine-enroll,
}
use portapixel.Server.Admin.{
  has_id, request_of, group_of, move, move_if_set, replace_if_collides, approve_at, approve_found,
  approve_pending, reject_found, reject_pending, insert_token, create_enroll_token, is_past,
  revoke_enroll_token, forget_token, delete_enroll_token, change_device, move_device, delete_device,
  confirm_hardware, resolve_conflict,
}
use portapixel.Server.Calls.{
  new_tables, Call, enroll_of, sweep_at, approve_of, reject_of, create_of, revoke_of,
  delete_token_of, move_of, delete_of, confirm_of, resolve_of, transaction, run_calls,
  run_calls-Ensures,
}

abbrev FineTables : Tables → Type 0
FineTables d = Fine d.pendings

Fine-move :
    (id : Bytes) (group : ℕ) (d : Tables) → Fine d.pendings → Ensures FineTables (move id group d)
unfolding move
Fine-move id group d f =
    if-case (Ensures FineTables)
      (has_where (is_device id) d.devices
        && not (group == 0)
        && not (has_where (λ g. g == group) d.groups))
      _ _ (λ e. tt) (λ e. f)

Fine-replace_if_collides :
    (p : PendingRow) (d : Tables) → Fine d.pendings → Fine (replace_if_collides p d).pendings
unfolding replace_if_collides
Fine-replace_if_collides p d f = if-case FineTables (is_empty p.collides_with) _ _ (λ e. f) (λ e. f)

Fine-approve_found :
    (now group : ℕ) (d : Tables) (found : Option PendingRow)
    → Fine d.pendings
    → Ensures FineTables (approve_found now group d found)
unfolding approve_found
Fine-approve_found now group d none f = tt
Fine-approve_found now group d (some p) f =
    let known =
      upsert_device (request_of p) p.ip now (group_of p.token_id d)
        (not (was_paired (find_device p.device_id d))) d in
    let g : Fine known.pendings = Fine-upsert_device (request_of p) p.ip now _ _ d f in
    Ensures-bind FineTables FineTables (move_if_set p.device_id group known) _
      (if-case (Ensures FineTables) (group == 0) _ _ (λ e. g)
        (λ e. Fine-move p.device_id group known g))
      (λ d' h.
        Fine-update_where (has_id p.id) (approve_at now) (replace_if_collides p d').pendings
          (record { code = λ q. refl; waits = λ q w. absurd (cc) })
          (Fine-replace_if_collides p d' h))

Fine-reject_found :
    (d : Tables) (found : Option PendingRow)
    → Fine d.pendings
    → Ensures FineTables (reject_found d found)
unfolding reject_found
Fine-reject_found d none f = tt
Fine-reject_found d (some p) f = Fine-select_where _ d.pendings f

Fine-create :
    (now : ℕ) (name : List ℕ) (mode : Option Mode) (group : ℕ) (expires limit : Option ℕ)
    (token : String) (d : Tables)
    → Fine d.pendings
    → Ensures FineTables (create_enroll_token now name mode group expires limit token d)
unfolding create_enroll_token insert_token
Fine-create now name none group expires limit token d f = tt
Fine-create now name (some mode) group expires none token d f = tt
Fine-create now name (some mode) group expires (some limit) token d f =
    let E : Result Tables → Type 0 = Ensures FineTables in
    if-case E (is_past now expires) _ _ (λ e. tt)
      (λ e.
        if-case E
          (has_where (λ t. str_eq t.token_hash token) d.tokens
            || (not (group == 0) && not (has_where (λ g. g == group) d.groups)))
          _ _ (λ k. tt) (λ k. f))

Fine-change_device :
    (change : DeviceRow → DeviceRow) (id : Bytes) (d : Tables)
    → Fine d.pendings
    → Ensures FineTables (change_device change id d)
unfolding change_device
Fine-change_device change id d f =
    if-case (Ensures FineTables) (has_where (is_device id) d.devices) _ _ (λ e. f) (λ e. tt)

module _ (hash : String → String) where
  Fine-transaction :
      (call : Call) (d : Tables) → Fine d.pendings → Ensures FineTables (transaction hash call d)
  unfolding transaction sweep_pending approve_pending reject_pending revoke_enroll_token
      delete_enroll_token move_device delete_device confirm_hardware resolve_conflict
  Fine-transaction (enroll_of req v) d f =
      Ensures-bind (λ a. Fine a.tables.pendings) FineTables (enroll hash req v d) _
        (Fine-enroll hash req v d f) (λ a g. g)
  Fine-transaction (sweep_at now) d f = Fine-select_where _ d.pendings f
  Fine-transaction (approve_of now id group) d f = Fine-approve_found now group d _ f
  Fine-transaction (reject_of id) d f = Fine-reject_found d _ f
  Fine-transaction (create_of now name mode group expires limit token) d f =
      Fine-create now name mode group expires limit (hash token) d f
  Fine-transaction (revoke_of id) d f =
      if-case (Ensures FineTables) (has_where (λ t. t.id == id) d.tokens) _ _ (λ e. f) (λ e. tt)
  Fine-transaction (delete_token_of id) d f =
      if-case (Ensures FineTables) (has_where (λ t. t.id == id) d.tokens) _ _
        (λ e.
          Fine-update_where _ forget_token d.pendings
            (record { code = λ q. refl; waits = λ q w. w }) f)
        (λ e. tt)
  Fine-transaction (move_of id group) d f =
      if-case (Ensures FineTables) (has_where (is_device id) d.devices) _ _
        (λ e. Fine-move id group d f) (λ e. tt)
  Fine-transaction (delete_of id) d f =
      if-case (Ensures FineTables) (has_where (is_device id) d.devices) _ _
        (λ e. Fine-select_where _ d.pendings f) (λ e. tt)
  Fine-transaction (confirm_of id) d f = Fine-change_device _ id d f
  Fine-transaction (resolve_of id) d f = Fine-change_device _ id d f

-- Over any calls of the server, at most 200 requests wait, and no two requests show one code.
pub run_calls-Fine :
    (hash : String → String) (calls : List Call) (groups : List ℕ)
    → (count_where is_waiting (run_calls hash calls (new_tables groups)).pendings ≤ max_pending)
      × Distinct same_code (run_calls hash calls (new_tables groups)).pendings
unfolding count_where
run_calls-Fine hash calls groups =
    let f =
      run_calls-Ensures hash FineTables calls (new_tables groups) (Fine-transaction hash)
        (record { few = omega arith; apart = tt }) in
    (f.few, f.apart)
