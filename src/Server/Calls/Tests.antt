-- ===== src/Server/Calls/Tests.antt =====
-- A screen that pairs, and another machine that asks to be it.
use portapixel.Prelude.{
  AllIn, ℕ, ◌≤◌, ◌≡◌, refl, ◌⊎◌, arith, String, true, false, none, some, List, [], ◌∷◌, bytes,
  bytes_eq,
}
use portapixel.Manifest.Name.{clean_name, trim_space}
use portapixel.Server.Table.{find_where, has_where, count_where, update_where, select_where}
use portapixel.Server.Table.Keys.{Distinct}
use portapixel.Server.Rows.{
  max_pending, DeviceRow, PendingRow, auto, Tables, ◌>>=◌, Ensures, find_device, is_waiting,
  last_pending,
}
use portapixel.Server.Enroll.{
  Request, Visit, sweep_pending, valid_device_id, allowed_in_id, is_stale, free_code,
  new_pairing_code, enroll_name, touch_enrolled, touch, pair_row, pair_with, upsert_device, report,
  new_device,
}
use portapixel.Server.Enroll.Rules.{
  enroll, enroll_swept, enroll_no_token, enroll_with_token, enroll_with_enrollment_token,
  enroll_counted, answer_claim, issue, make_pending, pending_of, insert_pending, new_pending,
}
use portapixel.Server.Enroll.Untouched.{Entitled, enroll-Entitled}
use portapixel.Server.Enroll.Waiting.{same_code}
use portapixel.Server.Enroll.Warned.{same_id, Warned}
use portapixel.Server.Admin.{
  approve_pending, approve_found, request_of, group_of, replace_if_collides,
}
use portapixel.Server.Calls.{
  new_tables, Call, enroll_of, approve_of, create_of, run_calls, transaction,
}
use portapixel.Server.Calls.Pending.{run_calls-Fine}
use portapixel.Server.Calls.Warned.{run_calls-Warned, approve_pending-Warned}
use portapixel.Server.Calls.Claims.{Collects, enroll-approve_pending}

abbrev hash : String → String
hash secret = String.◌∷◌ "h" secret

abbrev ask : String → String → Request
ask token hardware_id = record {
  token = token;
  device_id = bytes "px-11";
  hardware_id = hardware_id;
  name = [];
  version = "1.0";
}

abbrev at : ℕ → String → ℕ → Visit
at now secret drawn = record {
  now = now;
  ip = "10.0.0.7";
  may_queue = true;
  secret = secret;
  draws = λ k. drawn ∷ drawn ∷ drawn ∷ drawn ∷ drawn ∷ drawn ∷ [];
}

-- The screen asks, the admin approves, the screen collects its token, another machine asks.
abbrev calls : List Call
calls =
    enroll_of (ask "" "box-a") (at 10 "claim-a" 3)
    ∷ approve_of 20 1 0
    ∷ enroll_of (ask "claim-a" "box-a") (at 30 "token-a" 4)
    ∷ enroll_of (ask "" "box-b") (at 40 "claim-b" 5)
    ∷ []

abbrev tokens_made : List Call
tokens_made =
    create_of 5 [] (some auto) 0 none (some 1) "fleet"
    ∷ enroll_of (ask "fleet" "box-a") (at 10 "token-a" 3)
    ∷ enroll_of (ask "fleet" "box-b") (at 20 "token-b" 3)
    ∷ []

abbrev screen : DeviceRow
screen = record {
  id = bytes "px-11";
  name = [];
  group = 0;
  token_hash = "htoken-a";
  hardware_id = "box-a";
  ever_paired = true;
  needs_confirm = false;
  pending_hardware_id = "";
  pending_hardware_at = none;
  conflict = false;
  conflict_hardware_id = "";
  version = "1.0";
  status = "";
  sync_error = "";
  last_ip = "10.0.0.7";
  created_at = 20;
  paired_at = some 30;
  last_seen = some 30;
}

run_calls-Fine_example :
    (count_where is_waiting (run_calls hash calls (new_tables [])).pendings ≤ max_pending)
    × Distinct same_code (run_calls hash calls (new_tables [])).pendings
run_calls-Fine_example = run_calls-Fine hash calls []

run_calls-Warned_example :
    AllIn
      (Warned (run_calls hash calls (new_tables [])).devices)
      (run_calls hash calls (new_tables [])).pendings
    × Distinct same_id (run_calls hash calls (new_tables [])).devices
run_calls-Warned_example = run_calls-Warned hash calls []

abbrev screens : Tables
screens = record { devices = screen ∷ []; pendings = []; tokens = []; groups = [] }

enroll-Entitled_example :
    Ensures
      (λ a.
        (find_device (bytes "px-11") a.tables ≡ some screen)
        ⊎ ((bytes_eq (bytes "px-11") (bytes "px-11") ≡ true)
            × Entitled hash
                (ask "token-a" "box-a")
                (at 40 "claim-b" 5)
                (sweep_pending 40 screens)
                screen))
      (enroll hash (ask "token-a" "box-a") (at 40 "claim-b" 5) screens)
unfolding find_device find_where bytes_eq
enroll-Entitled_example =
    enroll-Entitled hash (ask "token-a" "box-a") (at 40 "claim-b" 5) screens screen refl refl

abbrev request : PendingRow
request = record {
  id = 1;
  claim_hash = "hclaim-a";
  pairing_code = bytes "555555";
  device_id = bytes "px-11";
  hardware_id = "box-a";
  name = [];
  version = "1.0";
  ip = "10.0.0.7";
  token_id = 0;
  collides_with = [];
  created_at = 10;
  last_poll_at = 10;
  approved_at = none;
}

abbrev waiting_tables : Tables
waiting_tables = record { devices = []; pendings = request ∷ []; tokens = []; groups = [] }

enroll-approve_pending_example : Collects hash (ask "claim-a" "box-a") (at 30 "token-a" 4) (
    approve_pending 20 1 0 waiting_tables
    >>= enroll hash (ask "claim-a" "box-a") (at 30 "token-a" 4))
unfolding valid_device_id allowed_in_id has_where find_where
enroll-approve_pending_example =
    enroll-approve_pending hash (ask "claim-a" "box-a") (at 30 "token-a" 4) 20 1 0 waiting_tables
      request refl refl refl refl refl refl refl (omega arith)

abbrev second : Request
second = record {
  token = "";
  device_id = bytes "px-22";
  hardware_id = "box-c";
  name = [];
  version = "1.0";
}

abbrev more_calls : List Call
more_calls =
    enroll_of (ask "" "box-a") (at 10 "claim-a" 3)
    ∷ approve_of 20 1 0
    ∷ enroll_of (ask "claim-a" "box-a") (at 30 "token-a" 4)
    ∷ enroll_of second (at 40 "claim-c" 5)
    ∷ []

abbrev second_request : PendingRow
second_request = record {
  id = 1;
  claim_hash = "hclaim-c";
  pairing_code = bytes "777777";
  device_id = bytes "px-22";
  hardware_id = "box-c";
  name = [];
  version = "1.0";
  ip = "10.0.0.7";
  token_id = 0;
  collides_with = [];
  created_at = 40;
  last_poll_at = 40;
  approved_at = none;
}

approve_pending-Warned_example :
    Ensures
      (λ d. find_device (bytes "px-11") d ≡ some screen)
      (approve_pending 50 1 0 (run_calls hash more_calls (new_tables [])))
unfolding run_calls transaction enroll enroll_swept enroll_no_token enroll_with_token
    enroll_with_enrollment_token enroll_counted answer_claim issue make_pending pending_of
    insert_pending new_pending sweep_pending valid_device_id allowed_in_id is_stale free_code
    new_pairing_code enroll_name touch_enrolled touch pair_row pair_with upsert_device report
    new_device approve_pending approve_found request_of group_of replace_if_collides last_pending
    find_device find_where has_where count_where update_where select_where bytes_eq clean_name
    trim_space
approve_pending-Warned_example =
    approve_pending-Warned hash more_calls [] 50 1 0 second_request screen refl refl refl refl
