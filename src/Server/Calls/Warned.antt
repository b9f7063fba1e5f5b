-- ===== src/Server/Calls/Warned.antt =====
-- The warnings of the list of requests over any calls of the server.
use portapixel.Prelude.{
  AllIn, if-case, ℕ, ◌≡◌, refl, arith, String, true, false, not, ◌&&◌, ◌||◌, Option, none, some,
  List, ◌==◌, Bool-cases, bytes_eq, inl, inr, Bytes, is_empty, str_eq,
}
use portapixel.Server.Table.{select_where, find_where, has_where, All-find_where, find-update_where}
use portapixel.Server.Table.Keys.{Distinct, has-found}
use portapixel.Server.Rows.{
  DeviceRow, PendingRow, TokenRow, Mode, Tables, Result, Ensures, Ensures-bind, is_device,
  find_device, is_waiting,
}
use portapixel.Server.Enroll.{upsert_device, sweep_pending, in_group, of_device}
use portapixel.Server.Enroll.Rules.{enroll, was_paired}
use portapixel.Server.Admin.{
  has_id, request_of, group_of, move, move_if_set, replace_if_collides, approve_at, replace_machine,
  clear_flags, confirm, resolve, approve_found, approve_pending, reject_found, reject_pending,
  insert_token, create_enroll_token, is_past, revoke_enroll_token, forget_token,
  delete_enroll_token, change_device, move_device, delete_device, confirm_hardware,
  resolve_conflict,
}
use portapixel.Server.Calls.{
  new_tables, Call, enroll_of, sweep_at, approve_of, reject_of, create_of, revoke_of,
  delete_token_of, move_of, delete_of, confirm_of, resolve_of, transaction, run_calls,
  run_calls-Ensures,
}
use portapixel.Server.Enroll.Kept.{Kept, Kept-upsert_device}
use portapixel.Server.Enroll.Warned.{
  same_id, is_screen, Warned, Sound, Mild, Sound-devices, Sound-drop_devices, Sound-drop_pendings,
  Sound-pendings,
}
use portapixel.Server.Enroll.Soundness.Rules.{Sound-upsert_device, Sound-enroll}

Mild-in_group : (group : ℕ) → Mild (in_group group)
Mild-in_group group = record { id = λ r. refl; ever = λ r. refl }

Sound-move : (id : Bytes) (group : ℕ) (d : Tables) → Sound d → Ensures Sound (move id group d)
unfolding move
Sound-move id group d s =
    if-case (Ensures Sound)
      (has_where (is_device id) d.devices
        && not (group == 0)
        && not (has_where (λ g. g == group) d.groups))
      _ _ (λ e. tt) (λ e. Sound-devices _ (in_group group) d (Mild-in_group group) s)

Sound-replace_if_collides :
    (p : PendingRow) (d : Tables) → Sound d → Sound (replace_if_collides p d)
unfolding replace_if_collides replace_machine clear_flags
Sound-replace_if_collides p d s =
    if-case Sound (is_empty p.collides_with) _ _ (λ e. s)
      (λ e.
        Sound-devices (is_device p.device_id) (replace_machine p.hardware_id) d
          (record { id = λ r. refl; ever = λ r. refl }) s)

Sound-approve_found :
    (now group : ℕ) (d : Tables) (found : Option PendingRow)
    → Sound d
    → Ensures Sound (approve_found now group d found)
unfolding approve_found
Sound-approve_found now group d none s = tt
Sound-approve_found now group d (some p) s =
    let known =
      upsert_device (request_of p) p.ip now (group_of p.token_id d)
        (not (was_paired (find_device p.device_id d))) d in
    let g : Sound known = Sound-upsert_device (request_of p) p.ip now _ _ d s in
    Ensures-bind Sound Sound (move_if_set p.device_id group known) _
      (if-case (Ensures Sound) (group == 0) _ _ (λ e. g)
        (λ e. Sound-move p.device_id group known g))
      (λ d' h.
        Sound-pendings (has_id p.id) (approve_at now) (replace_if_collides p d')
          (record { key = λ q. refl; device = λ q. refl; warning = λ q. refl })
          (Sound-replace_if_collides p d' h))

Sound-reject_found :
    (d : Tables) (found : Option PendingRow) → Sound d → Ensures Sound (reject_found d found)
unfolding reject_found
Sound-reject_found d none s = tt
Sound-reject_found d (some p) s =
    let rest = select_where (λ q. not (has_id p.id q)) d.pendings in
    Sound-drop_devices _ (record d { pendings = rest }) (Sound-drop_pendings _ d s)

Sound-tokens :
    (tokens : List TokenRow) (d : Tables) → Sound d → Sound (record d { tokens = tokens })
Sound-tokens tokens d s = record { ids = s.ids; keys = s.keys; warned = s.warned }

Sound-create :
    (now : ℕ) (name : List ℕ) (mode : Option Mode) (group : ℕ) (expires limit : Option ℕ)
    (token : String) (d : Tables)
    → Sound d
    → Ensures Sound (create_enroll_token now name mode group expires limit token d)
unfolding create_enroll_token insert_token
Sound-create now name none group expires limit token d s = tt
Sound-create now name (some mode) group expires none token d s = tt
Sound-create now name (some mode) group expires (some limit) token d s =
    let E : Result Tables → Type 0 = Ensures Sound in
    if-case E (is_past now expires) _ _ (λ e. tt)
      (λ e.
        if-case E
          (has_where (λ t. str_eq t.token_hash token) d.tokens
            || (not (group == 0) && not (has_where (λ g. g == group) d.groups)))
          _ _ (λ k. tt) (λ k. Sound-tokens _ d s))

Sound-change_device :
    (change : DeviceRow → DeviceRow) (id : Bytes) (d : Tables)
    → Mild change
    → Sound d
    → Ensures Sound (change_device change id d)
unfolding change_device
Sound-change_device change id d w s =
    if-case (Ensures Sound) (has_where (is_device id) d.devices) _ _
      (λ e. Sound-devices (is_device id) change d w s) (λ e. tt)

module _ (hash : String → String) where
  Sound-transaction : (call : Call) (d : Tables) → Sound d → Ensures Sound (transaction hash call d)
  unfolding transaction sweep_pending approve_pending reject_pending revoke_enroll_token
      delete_enroll_token move_device delete_device confirm_hardware resolve_conflict confirm
      resolve clear_flags
  Sound-transaction (enroll_of req v) d s =
      Ensures-bind (λ a. Sound a.tables) Sound (enroll hash req v d) _ (Sound-enroll hash req v d s)
        (λ a g. g)
  Sound-transaction (sweep_at now) d s = Sound-drop_pendings _ d s
  Sound-transaction (approve_of now id group) d s = Sound-approve_found now group d _ s
  Sound-transaction (reject_of id) d s = Sound-reject_found d _ s
  Sound-transaction (create_of now name mode group expires limit token) d s =
      Sound-create now name mode group expires limit (hash token) d s
  Sound-transaction (revoke_of id) d s =
      if-case (Ensures Sound) (has_where (λ t. t.id == id) d.tokens) _ _ (λ e. Sound-tokens _ d s)
        (λ e. tt)
  Sound-transaction (delete_token_of id) d s =
      let kept = select_where (λ t. not (t.id == id)) d.tokens in
      if-case (Ensures Sound) (has_where (λ t. t.id == id) d.tokens) _ _
        (λ e.
          Sound-pendings _ forget_token (record d { tokens = kept })
            (record { key = λ q. refl; device = λ q. refl; warning = λ q. refl })
            (Sound-tokens kept d s))
        (λ e. tt)
  Sound-transaction (move_of id group) d s =
      if-case (Ensures Sound) (has_where (is_device id) d.devices) _ _
        (λ e. Sound-move id group d s) (λ e. tt)
  Sound-transaction (delete_of id) d s =
      let rest = select_where (λ p. not (of_device id p)) d.pendings in
      if-case (Ensures Sound) (has_where (is_device id) d.devices) _ _
        (λ e. Sound-drop_devices _ (record d { pendings = rest }) (Sound-drop_pendings _ d s))
        (λ e. tt)
  Sound-transaction (confirm_of id) d s =
      Sound-change_device _ id d (record { id = λ r. refl; ever = λ r. refl }) s
  Sound-transaction (resolve_of id) d s =
      Sound-change_device _ id d (record { id = λ r. refl; ever = λ r. refl }) s

-- Over any calls of the server, each request in the list that asks to be a screen that was ever
-- paired carries the warning, and no two rows have the ID of one device.
pub run_calls-Warned :
    (hash : String → String) (calls : List Call) (groups : List ℕ)
    → AllIn
        (Warned (run_calls hash calls (new_tables groups)).devices)
        (run_calls hash calls (new_tables groups)).pendings
      × Distinct same_id (run_calls hash calls (new_tables groups)).devices
run_calls-Warned hash calls groups =
    let s =
      run_calls-Ensures hash Sound calls (new_tables groups) (Sound-transaction hash)
        (record { ids = tt; keys = tt; warned = tt }) in
    (s.warned, s.ids)

Kept-approve_found :
    (now group : ℕ) (d : Tables) (p : PendingRow) (r : DeviceRow)
    → r.ever_paired ≡ true
    → bytes_eq r.id p.device_id ≡ false
    → is_empty p.collides_with ≡ true
    → Kept r d
    → Ensures (Kept r) (approve_found now group d (some p))
unfolding approve_found move replace_if_collides find_device
Kept-approve_found now group d p r was other unwarned h =
    let never = not (was_paired (find_where (is_device p.device_id) d.devices)) in
    let known = upsert_device (request_of p) p.ip now (group_of p.token_id d) never d in
    let k : Kept r known =
      Kept-upsert_device (request_of p) r p.ip now (group_of p.token_id d) never d was h in
    Ensures-bind (Kept r) (Kept r) (move_if_set p.device_id group known) _
      (if-case (Ensures (Kept r)) (group == 0) _ _ (λ e. k)
        (λ e.
          if-case (Ensures (Kept r))
            (has_where (is_device p.device_id) known.devices
              && not (group == 0)
              && not (has_where (λ g. g == group) known.groups))
            _ _ (λ e. tt)
            (λ e.
              find-update_where (is_device r.id) r (is_device p.device_id) (in_group group)
                known.devices (λ x. refl) other k)))
      (λ d' g. rw unwarned g)

-- After any calls of the server, the approval of a request without the warning leaves the row of
-- each screen that was ever paired as it is.
pub approve_pending-Warned :
    (hash : String → String) (calls : List Call) (groups : List ℕ) (now id group : ℕ)
    (p : PendingRow) (r : DeviceRow)
    → find_where
        (λ q. has_id id q && is_waiting q)
        (run_calls hash calls (new_tables groups)).pendings
      ≡ some p
    → is_empty p.collides_with ≡ true
    → r.ever_paired ≡ true
    → find_device r.id (run_calls hash calls (new_tables groups)) ≡ some r
    → Ensures
        (λ d. find_device r.id d ≡ some r)
        (approve_pending now id group (run_calls hash calls (new_tables groups)))
unfolding approve_pending find_device
approve_pending-Warned hash calls groups now id group p r found unwarned was h =
    let d = run_calls hash calls (new_tables groups) in
    let (warned, ids) = run_calls-Warned hash calls groups in
    let none_paired : has_where (is_screen p.device_id) d.devices ≡ false =
      (All-find_where (Warned d.devices) _ d.pendings p warned found).1 unwarned in
    let other : bytes_eq r.id p.device_id ≡ false = elim (Bool-cases (bytes_eq r.id p.device_id)) [
      | inl e ↦ absurd (
          ground (
            arith,
            has-found (is_screen p.device_id) (is_device r.id) d.devices r (ground (arith, e, was))
                h,
            none_paired,
          ))
      | inr e ↦ e
    ] in
    rw found (Kept-approve_found now group d p r was other unwarned h)
