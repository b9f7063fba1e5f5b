-- ===== src/Server/Admin.antt =====
-- What the admin does to screens and to their requests: ApprovePending and RejectPending of
-- internal/server/db/enroll.go, the statements of tokens.go and those of devices.go.
use portapixel.Prelude.{
  ℕ, suc, String, Bool, true, false, not, ◌&&◌, ◌||◌, Option, none, some, List, [], ◌∷◌, ◌++◌, ltb,
  ◌==◌, is_empty, if◌then◌else◌, Bytes, str_eq,
}
use portapixel.Manifest.Name.{trim_space}
use portapixel.Server.Table.{update_where, select_where, find_where, has_where, count_where}
use portapixel.Server.Rows.{
  DeviceRow, PendingRow, Mode, TokenRow, Tables, not_pending, not_found, bad_mode, bad_max_uses,
  in_the_past, constraint, Result, refused, done, ◌>>=◌, is_device, find_device, is_waiting,
  last_token,
}
use portapixel.Server.Enroll.{Request, upsert_device, of_device, in_group}
use portapixel.Server.Enroll.Rules.{was_paired}

abbrev pub has_id : ℕ → PendingRow → Bool
has_id id p = p.id == id

abbrev token_group : Option TokenRow → ℕ
token_group none = 0
token_group (some t) = t.group

-- The group of the token of a request, 0 for a request without one.
unfoldable pub group_of : ℕ → Tables → ℕ
group_of token_id d =
    if token_id == 0 then 0 else token_group (find_where (λ t. t.id == token_id) d.tokens)

-- The request that a row of the pending list holds.
unfoldable pub request_of : PendingRow → Request
request_of p = record {
  token = "";
  device_id = p.device_id;
  hardware_id = p.hardware_id;
  name = p.name;
  version = p.version;
}

-- The group that the admin sends. A group that is not there breaks the foreign key.
unfoldable pub move : Bytes → ℕ → Tables → Result Tables
move id group d =
    if has_where (is_device id) d.devices
      && not (group == 0)
      && not (has_where (λ g. g == group) d.groups)
    then refused constraint
    else done (record d { devices = update_where (is_device id) (in_group group) d.devices })

abbrev pub move_if_set : Bytes → ℕ → Tables → Result Tables
move_if_set id group d = if group == 0 then done d else move id group d

-- The flags of the rules D21, taken back.
unfoldable pub clear_flags : DeviceRow → DeviceRow
clear_flags r = record r {
  needs_confirm = false;
  pending_hardware_id = "";
  pending_hardware_at = none;
  conflict = false;
  conflict_hardware_id = "";
}

-- The machine of a screen changed.
unfoldable pub replace_machine : String → DeviceRow → DeviceRow
replace_machine hardware_id r =
    clear_flags (record r { token_hash = ""; hardware_id = hardware_id })

unfoldable pub replace_if_collides : PendingRow → Tables → Tables
replace_if_collides p d =
    let replaced = update_where (is_device p.device_id) (replace_machine p.hardware_id) d.devices in
    if is_empty p.collides_with then d else record d { devices = replaced }

abbrev pub approve_at : ℕ → PendingRow → PendingRow
approve_at now p = record p { approved_at = some now }

-- `ApprovePending`, with the row that waits.
unfoldable pub approve_found : ℕ → ℕ → Tables → Option PendingRow → Result Tables
approve_found now group d none = refused not_pending
approve_found now group d (some p) = do
  let never = not (was_paired (find_device p.device_id d))
  let known = upsert_device (request_of p) p.ip now (group_of p.token_id d) never d
  d' ← move_if_set p.device_id group known
  let d'' = replace_if_collides p d'
  done (record d'' { pendings = update_where (has_id p.id) (approve_at now) d''.pendings })

unfoldable pub approve_pending : ℕ → ℕ → ℕ → Tables → Result Tables
approve_pending now id group d =
    approve_found now group d (find_where (λ p. has_id id p && is_waiting p) d.pendings)

-- `RejectPending`, with the row of the request.
unfoldable pub reject_found : Tables → Option PendingRow → Result Tables
reject_found d none = refused not_pending
reject_found d (some p) =
    let rest = select_where (λ q. not (has_id p.id q)) d.pendings in
    let gone : DeviceRow → Bool = λ r.
      is_device p.device_id r
      && not r.ever_paired
      && not (has_where (of_device p.device_id) rest) in
    done (record d { pendings = rest; devices = select_where (λ r. not (gone r)) d.devices })

unfoldable pub reject_pending : ℕ → Tables → Result Tables
reject_pending id d = reject_found d (find_where (has_id id) d.pendings)

-- `CountPending`
unfoldable pub count_pending : Tables → ℕ
count_pending d = count_where is_waiting d.pendings

abbrev pub is_past : ℕ → Option ℕ → Bool
is_past now none = false
is_past now (some t) = ltb t now

unfoldable pub insert_token : ℕ → List ℕ → Mode → ℕ → Option ℕ → ℕ → String → Tables → Result Tables
insert_token now name mode group expires max_uses token_hash d =
    let row : TokenRow = record {
      id = suc (last_token d.tokens);
      name = trim_space name;
      token_hash = token_hash;
      mode = mode;
      group = group;
      expires_at = expires;
      max_uses = max_uses;
      uses = 0;
      revoked = false;
      created_at = now;
    } in
    if has_where (λ t. str_eq t.token_hash token_hash) d.tokens
      || (not (group == 0) && not (has_where (λ g. g == group) d.groups))
    then refused constraint
    else done (record d { tokens = d.tokens ++ row ∷ [] })

-- `CreateEnrollToken`: the mode is `none` for another word, the limit for a negative number.
unfoldable pub create_enroll_token :
    ℕ → List ℕ → Option Mode → ℕ → Option ℕ → Option ℕ → String → Tables → Result Tables
create_enroll_token now name none group expires limit token_hash d = refused bad_mode
create_enroll_token now name (some mode) group expires none token_hash d = refused bad_max_uses
create_enroll_token now name (some mode) group expires (some limit) token_hash d =
    if is_past now expires
    then refused in_the_past
    else insert_token now name mode group expires limit token_hash d

abbrev pub revoke : TokenRow → TokenRow
revoke t = record t { revoked = true }

-- `RevokeEnrollToken`
unfoldable pub revoke_enroll_token : ℕ → Tables → Result Tables
revoke_enroll_token id d =
    if has_where (λ t. t.id == id) d.tokens
    then done (record d { tokens = update_where (λ t. t.id == id) revoke d.tokens })
    else refused not_found

abbrev pub forget_token : PendingRow → PendingRow
forget_token p = record p { token_id = 0 }

-- `DeleteEnrollToken`. A request of the token keeps its row: `ON DELETE SET NULL`.
unfoldable pub delete_enroll_token : ℕ → Tables → Result Tables
delete_enroll_token id d =
    if has_where (λ t. t.id == id) d.tokens
    then done (record d {
      tokens = select_where (λ t. not (t.id == id)) d.tokens;
      pendings = update_where (λ p. p.token_id == id) forget_token d.pendings;
    })
    else refused not_found

-- An update of devices that must change a row (`affectOne`).
unfoldable pub change_device : (DeviceRow → DeviceRow) → Bytes → Tables → Result Tables
change_device change id d =
    if has_where (is_device id) d.devices
    then done (record d { devices = update_where (is_device id) change d.devices })
    else refused not_found

-- `MoveDevice`
unfoldable pub move_device : Bytes → ℕ → Tables → Result Tables
move_device id group d =
    if has_where (is_device id) d.devices then move id group d else refused not_found

-- `DeleteDevice`
unfoldable pub delete_device : Bytes → Tables → Result Tables
delete_device id d =
    if has_where (is_device id) d.devices
    then done (record d {
      pendings = select_where (λ p. not (of_device id p)) d.pendings;
      devices = select_where (λ r. not (is_device id r)) d.devices;
    })
    else refused not_found

unfoldable pub confirm : DeviceRow → DeviceRow
confirm r = record r {
  hardware_id = if str_eq r.pending_hardware_id "" then r.hardware_id else r.pending_hardware_id;
  needs_confirm = false;
  pending_hardware_id = "";
  pending_hardware_at = none;
}

-- `ConfirmHardware`
unfoldable pub confirm_hardware : Bytes → Tables → Result Tables
confirm_hardware id d = change_device confirm id d

unfoldable pub resolve : DeviceRow → DeviceRow
resolve r = clear_flags (record r { token_hash = "" })

-- `ResolveConflict`
unfoldable pub resolve_conflict : Bytes → Tables → Result Tables
resolve_conflict id d = change_device resolve id d
