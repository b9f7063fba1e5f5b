-- ===== src/Server/Commands/Deliveries/Calls.antt =====
-- The calls of the server, one after the other.
use portapixel.Prelude.{
  AllIn, if-case, ℕ, ◌+◌, ◌≤◌, ◌≡◌, refl, Bytes, Bool, false, not, ◌&&◌, Option, none, some, List,
  [], ◌∷◌, ◌++◌, arith, bytes_eq, if◌then◌else◌,
}
use portapixel.Manifest.Name.{clean_name}
use portapixel.Device.Commands.{Kind, rename}
use portapixel.Server.Commands.{
  max_deliveries, Row, Queue, empty_queue, QueueError, bad_type, group_rename, no_device, is_rename,
  valid_command, is_open, expire, insert_row, queue_valid, queue_rename, queue_command, insert_each,
  queue_group_command, is_stale, sweep_commands, acknowledge, ack_commands, Call, queue,
  queue_group, take_of, ack_of, sweep_all, run_call, run_calls,
}
use portapixel.Server.Table.{
  update_where, select_where, All-update_where, All-select_where, All-snoc,
}
use portapixel.Server.Commands.Deliveries.{
  Sound, row_left, rows_left, count, total_left, Keeps, Keeps-expire, Keeps-acknowledge,
  rows_left-update_where, rows_left-select_where, Takes, Takes-take,
}

rows_left-snoc :
    (i : ℕ) (rows : List Row) (r : Row)
    → rows_left i (rows ++ r ∷ []) ≡ rows_left i rows + row_left i r
rows_left-snoc i [] r = omega arith
rows_left-snoc i (x ∷ rows) r = omega (arith, rows_left-snoc i rows r)

-- A step after which no ID may go out more often.
record Calm (i : ℕ) (q q' : Queue) : Type 0 where
  pub less : total_left i q' ≤ total_left i q
  pub sound : AllIn Sound q.rows → AllIn Sound q'.rows

Calm-same : (i : ℕ) (q : Queue) → Calm i q q
Calm-same i q = record { less = omega arith; sound = λ a. a }

Calm-then : (i : ℕ) (a b c : Queue) → Calm i a b → Calm i b c → Calm i a c
Calm-then i a b c x y = record {
  less = omega (arith, x.less, y.less);
  sound = λ s. y.sound (x.sound s);
}

Calm-update_where :
    (i : ℕ) (q : Queue) (test : Row → Bool) (change : Row → Row)
    → Keeps change
    → Calm i q (record q { rows = update_where test change q.rows })
Calm-update_where i q test change w = record {
  less = omega (arith, rows_left-update_where i test change q.rows w);
  sound = All-update_where Sound test change q.rows (λ r e. w.sound r);
}

Calm-select_where :
    (i : ℕ) (q : Queue) (test : Row → Bool)
    → Calm i q (record q { rows = select_where test q.rows })
Calm-select_where i q test = record {
  less = omega (arith, rows_left-select_where i test q.rows);
  sound = All-select_where Sound test q.rows;
}

Calm-insert_row :
    (i now : ℕ) (device : Bytes) (kind : Kind) (name : List ℕ) (q : Queue)
    → Calm i q (insert_row now device kind name q)
unfolding insert_row
Calm-insert_row i now device kind name q =
    let r : Row = record {
      id = q.next_id;
      device = device;
      kind = kind;
      name = name;
      queued_at = now;
      delivered_at = none;
      acked_at = none;
      deliveries = 0;
      expired = false;
    } in
    record {
      less = ground (arith, rows_left-snoc i q.rows r);
      sound = λ a. All-snoc Sound q.rows r a (λ h. refl);
    }

Calm-insert_each :
    (i now : ℕ) (devices : List Bytes) (kind : Kind) (name : List ℕ) (q : Queue)
    → Calm i q (insert_each now devices kind name q)
unfolding insert_each
Calm-insert_each i now [] kind name q = Calm-same i q
Calm-insert_each i now (device ∷ devices) kind name q =
    Calm-then i q _ _ (Calm-insert_row i now device kind name q)
      (Calm-insert_each i now devices kind name (insert_row now device kind name q))

Calm-queue_valid :
    (i now : ℕ) (known : Bool) (device : Bytes) (kind : Kind) (name : List ℕ) (q : Queue)
    → Calm i q (queue_valid now known device kind name q).0
unfolding queue_valid
Calm-queue_valid i now known device kind name q =
    let older : Row → Bool = λ r. bytes_eq r.device device && is_rename r.kind && is_open r in
    let cleared : Queue = record q { rows = update_where older expire q.rows } in
    let start : Queue = if is_rename kind then cleared else q in
    let calm : Calm i q start =
      if-case (Calm i q) (is_rename kind) cleared q
        (λ e. Calm-update_where i q older expire Keeps-expire) (λ e. Calm-same i q) in
    if-case (λ (a : Queue × Option QueueError). Calm i q a.0) known
      (insert_row now device kind name start, none) (q, some no_device)
      (λ e. Calm-then i q start _ calm (Calm-insert_row i now device kind name start))
      (λ e. Calm-same i q)

Calm-queue_rename :
    (i now : ℕ) (known : Bool) (device : Bytes) (name : Option (List ℕ)) (q : Queue)
    → Calm i q (queue_rename now known device name q).0
unfolding queue_rename
Calm-queue_rename i now known device none q = Calm-same i q
Calm-queue_rename i now known device (some name) q =
    Calm-queue_valid i now known device rename name q

Calm-queue_command :
    (i now : ℕ) (known : Bool) (device : Bytes) (kind : Kind) (name : List ℕ) (q : Queue)
    → Calm i q (queue_command now known device kind name q).0
unfolding queue_command
Calm-queue_command i now known device kind name q =
    let P : Queue × Option QueueError → Type 0 = λ a. Calm i q a.0 in
    let renamed = queue_rename now known device (clean_name name) q in
    let plain = queue_valid now known device kind name q in
    if-case P (not (valid_command kind)) (q, some bad_type)
      (if is_rename kind then renamed else plain) (λ e. Calm-same i q)
      (λ e.
        if-case P (is_rename kind) renamed plain
          (λ k. Calm-queue_rename i now known device (clean_name name) q)
          (λ k. Calm-queue_valid i now known device kind name q))

Calm-queue_group_command :
    (i now : ℕ) (devices : List Bytes) (kind : Kind) (name : List ℕ) (q : Queue)
    → Calm i q (queue_group_command now devices kind name q).0
unfolding queue_group_command
Calm-queue_group_command i now devices kind name q =
    let P : Queue × Option QueueError → Type 0 = λ a. Calm i q a.0 in
    let all = insert_each now devices kind name q in
    if-case P (not (valid_command kind)) (q, some bad_type)
      (if is_rename kind then (q, some group_rename) else (all, none)) (λ e. Calm-same i q)
      (λ e.
        if-case P (is_rename kind) (q, some group_rename) (all, none) (λ k. Calm-same i q)
          (λ k. Calm-insert_each i now devices kind name q))

Calm-sweep_commands : (i now : ℕ) (q : Queue) → Calm i q (sweep_commands now q)
unfolding sweep_commands
Calm-sweep_commands i now q =
    Calm-then i q _ _ (Calm-update_where i q (is_stale now) expire Keeps-expire)
      (Calm-select_where i (record q { rows = update_where (is_stale now) expire q.rows }) _)

Takes-Calm : (i : ℕ) (q q' : Queue) → Calm i q q' → Takes i q (q', [])
Takes-Calm i q q' w = record { spent = omega (arith, w.less); sound = w.sound }

Takes-run_call :
    (i now : ℕ) (call : Call) (q : Queue) → AllIn Sound q.rows → Takes i q (run_call now call q)
unfolding run_call ack_commands
Takes-run_call i now (queue known device kind name) q s =
    Takes-Calm i q _ (Calm-queue_command i now known device kind name q)
Takes-run_call i now (queue_group devices kind name) q s =
    Takes-Calm i q _ (Calm-queue_group_command i now devices kind name q)
Takes-run_call i now (take_of device) q s = Takes-take i now device q s
Takes-run_call i now (ack_of device acks) q s =
    Takes-Calm i q _ (Calm-update_where i q _ (acknowledge now) (Keeps-acknowledge now))
Takes-run_call i now sweep_all q s = Takes-Calm i q _ (Calm-sweep_commands i now q)

count-append : (i : ℕ) (xs ys : List ℕ) → count i (xs ++ ys) ≡ count i xs + count i ys
count-append i [] ys = omega arith
count-append i (x ∷ xs) ys = ground (arith, count-append i xs ys)

spent-run_calls :
    (i : ℕ) (calls : List (ℕ × Call)) (q : Queue)
    → AllIn Sound q.rows
    → count i (run_calls calls q).1 ≤ total_left i q
unfolding run_calls
spent-run_calls i [] q s = omega arith
spent-run_calls i ((now, call) ∷ calls) q s =
    let (q', sent) = run_call now call q in
    let w = Takes-run_call i now call q s in
    let rest = spent-run_calls i calls q' (w.sound s) in
    omega (arith, rest, w.spent, count-append i sent (run_calls calls q').1)

-- Over any calls of the server at any times, no command goes out more than three times.
pub run_calls_bound :
    (i : ℕ) (calls : List (ℕ × Call)) → count i (run_calls calls empty_queue).1 ≤ max_deliveries
run_calls_bound i calls = ground (arith, spent-run_calls i calls empty_queue tt)
