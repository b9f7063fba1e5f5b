-- ===== src/Server/Calls.antt =====
-- The calls of the server that reach the tables of enrolment, each one a transaction.
pub mod Claims
pub mod Limits
pub mod Pending
pub mod Warned
mod Tests
use portapixel.Prelude.{ℕ, String, Option, List, [], ◌∷◌, Bytes}
use portapixel.Server.Rows.{Mode, Tables, Result, refused, done, ◌>>=◌, Ensures}
use portapixel.Server.Enroll.{Request, Visit, Answer, sweep_pending}
use portapixel.Server.Enroll.Rules.{enroll}
use portapixel.Server.Admin.{
  approve_pending, reject_pending, create_enroll_token, revoke_enroll_token, delete_enroll_token,
  move_device, delete_device, confirm_hardware, resolve_conflict,
}

-- The tables of a new server that has these groups.
abbrev pub new_tables : List ℕ → Tables
new_tables groups = record { devices = []; pendings = []; tokens = []; groups = groups }

pub data Call : Type 0 where
  enroll_of : Request → Visit → Call
  sweep_at : ℕ → Call
  approve_of : ℕ → ℕ → ℕ → Call
  reject_of : ℕ → Call
  create_of : ℕ → List ℕ → Option Mode → ℕ → Option ℕ → Option ℕ → String → Call
  revoke_of delete_token_of : ℕ → Call
  move_of : Bytes → ℕ → Call
  delete_of confirm_of resolve_of : Bytes → Call

module _ (hash : String → String) where
  unfoldable pub transaction : Call → Tables → Result Tables
  transaction (enroll_of req v) d = enroll hash req v d >>= (λ a. done a.tables)
  transaction (sweep_at now) d = done (sweep_pending now d)
  transaction (approve_of now id group) d = approve_pending now id group d
  transaction (reject_of id) d = reject_pending id d
  transaction (create_of now name mode group expires limit token) d =
      create_enroll_token now name mode group expires limit (hash token) d
  transaction (revoke_of id) d = revoke_enroll_token id d
  transaction (delete_token_of id) d = delete_enroll_token id d
  transaction (move_of id group) d = move_device id group d
  transaction (delete_of id) d = delete_device id d
  transaction (confirm_of id) d = confirm_hardware id d
  transaction (resolve_of id) d = resolve_conflict id d

-- The tables after a transaction: an error rolls it back.
abbrev pub settle : Tables → Result Tables → Tables
settle d (refused e) = d
settle d (done d') = d'

unfoldable pub run_calls : (String → String) → List Call → Tables → Tables
run_calls hash [] d = d
run_calls hash (call ∷ calls) d = run_calls hash calls (settle d (transaction hash call d))

settle-Ensures :
    (P : Tables → Type 0) (d : Tables) (m : Result Tables) → P d → Ensures P m → P (settle d m)
settle-Ensures P d (refused e) p h = p
settle-Ensures P d (done d') p h = h

-- An invariant of the transactions is one of the server.
pub run_calls-Ensures :
    (hash : String → String) (P : Tables → Type 0) (calls : List Call) (d : Tables)
    → ((call : Call) (t : Tables) → P t → Ensures P (transaction hash call t))
    → P d
    → P (run_calls hash calls d)
unfolding run_calls
run_calls-Ensures hash P [] d keeps p = p
run_calls-Ensures hash P (call ∷ calls) d keeps p =
    run_calls-Ensures hash P calls _ keeps (settle-Ensures P d _ p (keeps call d p))
