-- ===== src/Device/Syncer/Tests.antt =====
-- A world with one server, and a screen that pairs with it.
use portapixel.Prelude.{
  ◌≡◌, ◌≤◌, refl, ap, subst, String, Bool, true, false, none, some, [], ◌∷◌, str_eq, if◌then◌else◌,
}
use portapixel.Device.Identity.{State, empty_state, paired}
use portapixel.Device.Syncer.{
  max_immediate, Called, fails, answers, api_error, EnrollResponse, granted, Manifest, World,
  Memory, Client, never, emit, remember, save_state, clear_fleet,
}
use portapixel.Device.Syncer.Enrolling.{ask, request, take_enrollment, pair_from, keep_server, pair}
use portapixel.Device.Syncer.Rounds.{waits, once, pass, pairing, or_empty, run_calls}
use portapixel.Device.Syncer.Secrets.{Backed}
use portapixel.Device.Syncer.Secrets.Calls.{run_calls-Backed}
use portapixel.Device.Syncer.Secrets.Flows.{Checked}
use portapixel.Device.Syncer.Ended.{once_ends}
use portapixel.Device.Syncer.Waits.{
  longest_run, waits-longest_run, claim_rounds, writes_of, claim_rounds-Still,
}

abbrev fleet : String
fleet = "http://fleet"

-- A server that pairs a screen at once or lets it wait, and that takes its token or not.
abbrev world : EnrollResponse → Called Manifest → World
world res manifest = record {
  now = λ es. 1000;
  config = λ es. record { url = ""; token = ""; poll_seconds = 60 };
  check_url = λ url. if str_eq url "" then none else some fleet;
  enroll = λ es. answers res;
  manifest = λ es. manifest;
  apply_error = λ es. none;
  beat_error = λ es. none;
  writes = λ es. true;
  saves_server = some (λ es. true);
  commands = λ es. record {
    has_command = true;
    has_update = true;
    has_save_name = true;
    succeeds = λ done. true;
  };
  jitter = λ es n. n;
}

abbrev pairs_it : EnrollResponse
pairs_it = record { status = "paired"; device_token = "t1"; pairing_code = ""; claim_secret = "" }

abbrev waits_it : EnrollResponse
waits_it = record {
  status = "pending";
  device_token = "";
  pairing_code = "ABC234";
  claim_secret = "s1";
}

abbrev nothing_new : Called Manifest
nothing_new = answers (record { server_name = "Lobby"; poll_seconds = 60; commands = [] })

abbrev gone : Called Manifest
gone = fails (api_error 401 "token-revoked" "gone")

abbrev new_memory : Memory
new_memory = record {
  last_sync = 0;
  last_result = never;
  sync_error = "";
  server_name = "";
  poll_seconds = 0;
  generation = 0;
  fault_event = "";
  fault_text = "";
  fault_at = 0;
  backoff = 0;
  revoked = false;
  revoked_token = "";
  next_enroll = 0;
}

abbrev with_state : State → Client
with_state st = record { state = st; memory = new_memory; events = [] }

fleet-eq_some :
    (b : Bool) (base : String)
    → (if b then none else some fleet) ≡ some base
    → str_eq base "" ≡ false
fleet-eq_some true base e = absurd (cc)
fleet-eq_some false base e = subst (λ k. str_eq k "" ≡ false) (ap or_empty e) refl

world-Checked : (res : EnrollResponse) (m : Called Manifest) → Checked (world res m)
world-Checked res m url base e = fleet-eq_some (str_eq url "") base e

run_calls-Backed_example :
    Backed
      (run_calls
        (world pairs_it nothing_new)
        (pass ∷ pairing fleet "card" ∷ [])
        (with_state empty_state)).events
run_calls-Backed_example =
    run_calls-Backed (world pairs_it nothing_new) (pass ∷ pairing fleet "card" ∷ []) empty_state
      new_memory (world-Checked pairs_it nothing_new) refl refl

abbrev paired_one : Client
paired_one = with_state (record empty_state { device_token = "t1"; server_url = "http://fleet" })

once_ends_example :
    ((once (world pairs_it gone) paired_one).0.state.device_token ≡ "")
    × ((once (world pairs_it gone) paired_one).0.state.server_url ≡ "")
unfolding paired
once_ends_example = once_ends (world pairs_it gone) paired_one refl refl

abbrev waiting_one : Client
waiting_one = with_state (record empty_state {
  claim_secret = "s1";
  pairing_code = "ABC234";
  pending_since = 7;
  server_url = "http://fleet";
})

claim_rounds-Still_example :
    ((claim_rounds (world waits_it gone) 8640 waiting_one).state ≡ waiting_one.state)
    × ((claim_rounds (world waits_it gone) 8640 waiting_one).memory ≡ new_memory)
    × (writes_of (claim_rounds (world waits_it gone) 8640 waiting_one).events ≡ 0)
unfolding granted
claim_rounds-Still_example =
    claim_rounds-Still (world waits_it gone) 8640 waiting_one refl (λ es. refl)

waits-longest_run_example : longest_run 0 (waits (0 ∷ 0 ∷ 0 ∷ 0 ∷ 0 ∷ 7 ∷ 0 ∷ []) 0) ≤ max_immediate
waits-longest_run_example = waits-longest_run (0 ∷ 0 ∷ 0 ∷ 0 ∷ 0 ∷ 7 ∷ 0 ∷ [])

-- The screen pairs and asks for its manifest with the token that it got.
paired_test :
    (pair
      (world pairs_it nothing_new)
      fleet
      "card"
      true
      (with_state empty_state)).0.state.device_token
    ≡ "t1"
unfolding pair pair_from request ask granted take_enrollment save_state keep_server remember emit
    clear_fleet paired
paired_test = refl
