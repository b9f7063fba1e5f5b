-- ===== src/Server/Commands.antt =====
-- internal/server/db/commands.go, with the acknowledgements of internal/server/db/heartbeat.go: the
-- queue of commands. A table is the list of its rows in the order of their IDs, a statement a
-- function on it, and a time a number of seconds, as the tables hold it; a transaction is one step.
pub mod Deliveries
pub mod Fresh
mod Tests
use portapixel.Prelude.{
  ℕ, suc, ◌+◌, ◌*◌, Bytes, Bool, true, false, not, ◌&&◌, ◌||◌, Option, none, some, List, [], ◌∷◌,
  ◌++◌, map, ltb, leb, bytes_eq, if◌then◌else◌,
}
use portapixel.Manifest.Name.{clean_name}
use portapixel.Device.Identity.{contains_id}
use portapixel.Server.Table.{update_where, select_where}
use portapixel.Device.Commands.{Kind, rename, unknown}

abbrev pub redeliver_after : ℕ
redeliver_after = 10 * 60

abbrev pub max_deliveries : ℕ
max_deliveries = 3

abbrev pub command_life : ℕ
command_life = 24 * 3600

abbrev pub command_keep : ℕ
command_keep = 30 * 24 * 3600

-- A row; a time is `none` where the table holds the empty text.
pub record Row : Type 0 where
  pub id : ℕ
  pub device : Bytes
  pub kind : Kind
  pub name : List ℕ
  pub queued_at : ℕ
  pub delivered_at : Option ℕ
  pub acked_at : Option ℕ
  pub deliveries : ℕ
  pub expired : Bool

-- The table, and the next ID, which no deletion takes back.
pub record Queue : Type 0 where
  pub rows : List Row
  pub next_id : ℕ

abbrev pub empty_queue : Queue
empty_queue = record { rows = []; next_id = 1 }

pub data QueueError : Type 0 where
  bad_type bad_command_name no_device group_rename : QueueError

unfoldable pub valid_command : Kind → Bool
valid_command (unknown word) = false
valid_command kind = true

unfoldable pub is_rename : Kind → Bool
is_rename rename = true
is_rename kind = false

abbrev pub is_set : Option ℕ → Bool
is_set none = false
is_set (some t) = true

-- `acked_at = '' AND expired = 0`
unfoldable pub is_open : Row → Bool
is_open r = not (is_set r.acked_at) && not r.expired

unfoldable pub expire : Row → Row
expire r = record r { expired = true }

unfoldable pub insert_row : ℕ → Bytes → Kind → List ℕ → Queue → Queue
insert_row now device kind name q = record {
  rows =
      q.rows
      ++ record {
        id = q.next_id;
        device = device;
        kind = kind;
        name = name;
        queued_at = now;
        delivered_at = none;
        acked_at = none;
        deliveries = 0;
        expired = false;
      }
        ∷ [];
  next_id = suc q.next_id;
}

-- The transaction of `QueueCommand`. It changes nothing for a device that is not in the table of
-- devices: the insertion fails and takes the older update back.
unfoldable pub queue_valid : ℕ → Bool → Bytes → Kind → List ℕ → Queue → Queue × Option QueueError
queue_valid now known device kind name q =
    let older : Row → Bool = λ r. bytes_eq r.device device && is_rename r.kind && is_open r in
    let cleared : Queue =
      if is_rename kind then record q { rows = update_where older expire q.rows } else q in
    if known then (insert_row now device kind name cleared, none) else (q, some no_device)

unfoldable pub queue_rename : ℕ → Bool → Bytes → Option (List ℕ) → Queue → Queue × Option QueueError
queue_rename now known device none q = (q, some bad_command_name)
queue_rename now known device (some name) q = queue_valid now known device rename name q

-- `QueueCommand`
unfoldable pub queue_command : ℕ → Bool → Bytes → Kind → List ℕ → Queue → Queue × Option QueueError
queue_command now known device kind name q =
    if not (valid_command kind)
    then (q, some bad_type)
    else if is_rename kind
    then queue_rename now known device (clean_name name) q
    else queue_valid now known device kind name q

-- The insertion for each device of a group.
unfoldable pub insert_each : ℕ → List Bytes → Kind → List ℕ → Queue → Queue
insert_each now [] kind name q = q
insert_each now (device ∷ devices) kind name q =
    insert_each now devices kind name (insert_row now device kind name q)

-- `QueueGroupCommand`, with the devices of the group.
unfoldable pub queue_group_command :
    ℕ → List Bytes → Kind → List ℕ → Queue → Queue × Option QueueError
queue_group_command now devices kind name q =
    if not (valid_command kind)
    then (q, some bad_type)
    else if is_rename kind
    then (q, some group_rename)
    else (insert_each now devices kind name q, none)

-- A time of the table that lies more than `age` before now.
unfoldable pub older_than : ℕ → ℕ → Option ℕ → Bool
older_than now age none = false
older_than now age (some t) = ltb (t + age) now

-- A row that used up its tries or waited too long.
unfoldable pub is_stale : ℕ → Row → Bool
is_stale now r =
    is_open r
    && ((leb max_deliveries r.deliveries && older_than now redeliver_after r.delivered_at)
        || ltb (r.queued_at + command_life) now)

-- A row that goes out.
unfoldable pub is_due : ℕ → Bytes → Row → Bool
is_due now device r =
    bytes_eq r.device device
    && is_open r
    && (not (is_set r.delivered_at)
        || (ltb r.deliveries max_deliveries && older_than now redeliver_after r.delivered_at))

unfoldable pub deliver : ℕ → Row → Row
deliver now r = record r { delivered_at = some now; deliveries = suc r.deliveries }

unfoldable pub ids_of : List Row → List ℕ
ids_of rows = map (λ (r : Row). r.id) rows

-- `TakeCommands`: the queue, and the commands that go out.
unfoldable pub take_commands : ℕ → Bytes → Queue → Queue × List Row
take_commands now device q =
    let swept = update_where (λ r. bytes_eq r.device device && is_stale now r) expire q.rows in
    let out = select_where (is_due now device) swept in
    let marked =
      update_where (λ r. contains_id (ids_of out) r.id && bytes_eq r.device device) (deliver now)
        swept in
    (record q { rows = marked }, out)

-- `SweepCommands`
unfoldable pub sweep_commands : ℕ → Queue → Queue
sweep_commands now q =
    let swept = update_where (is_stale now) expire q.rows in
    record q {
      rows =
          select_where
            (λ r. not ((is_set r.acked_at || r.expired) && ltb (r.queued_at + command_keep) now))
            swept;
    }

unfoldable pub acknowledge : ℕ → Row → Row
acknowledge now r = record r { acked_at = some now }

-- The acknowledgements of a heartbeat.
unfoldable pub ack_commands : ℕ → Bytes → List ℕ → Queue → Queue
ack_commands now device acks q = record q {
  rows =
      update_where
        (λ r. contains_id acks r.id && bytes_eq r.device device && not (is_set r.acked_at))
        (acknowledge now) q.rows;
}

-- A call of the server, at a time.
pub data Call : Type 0 where
  queue : Bool → Bytes → Kind → List ℕ → Call
  queue_group : List Bytes → Kind → List ℕ → Call
  take_of : Bytes → Call
  ack_of : Bytes → List ℕ → Call
  sweep_all : Call

-- The queue after a call, and the IDs that went out.
unfoldable pub run_call : ℕ → Call → Queue → Queue × List ℕ
run_call now (queue known device kind name) q = ((queue_command now known device kind name q).0, [])
run_call now (queue_group devices kind name) q =
    ((queue_group_command now devices kind name q).0, [])
run_call now (take_of device) q = let (q', out) = take_commands now device q in (q', ids_of out)
run_call now (ack_of device acks) q = (ack_commands now device acks q, [])
run_call now sweep_all q = (sweep_commands now q, [])

unfoldable pub run_calls : List (ℕ × Call) → Queue → Queue × List ℕ
run_calls [] q = (q, [])
run_calls ((now, call) ∷ calls) q =
    let (q', sent) = run_call now call q in
    let (q'', more) = run_calls calls q' in (q'', sent ++ more)
