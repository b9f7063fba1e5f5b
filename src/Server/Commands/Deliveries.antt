-- ===== src/Server/Commands/Deliveries.antt =====
-- A command goes out three times at most.
pub mod Calls
use portapixel.Prelude.{
  AllIn, if-case, ℕ, suc, ◌+◌, ◌-◌, ◌≤◌, ◌≡◌, refl, ◌∙◌, ap, inl, inr, Bytes, Bool, true, false,
  not, ◌&&◌, ◌||◌, Option, none, some, List, [], ◌∷◌, ◌++◌, map, arith, ◌==◌, ltb, leb, bytes_eq,
  Bool-cases, if◌then◌else◌,
}
use portapixel.Manifest.Name.{clean_name}
use portapixel.Device.Identity.{contains_id}
use portapixel.Device.Commands.{Kind, rename}
use portapixel.Server.Commands.{
  max_deliveries, Row, Queue, empty_queue, QueueError, bad_type, group_rename, no_device, is_rename,
  valid_command, is_set, is_open, expire, insert_row, queue_valid, queue_rename, queue_command,
  insert_each, queue_group_command, older_than, is_stale, is_due, deliver, ids_of, take_commands,
  sweep_commands, acknowledge, ack_commands, Call, queue, queue_group, take_of, ack_of, sweep_all,
  run_call, run_calls, redeliver_after,
}
use portapixel.Server.Table.{update_where, select_where, All-update_where}

-- A row that never went out has no deliveries.
abbrev Sound : Row → Type 0
Sound r = is_set r.delivered_at ≡ false → r.deliveries ≡ 0

-- How often a row may still go out.
abbrev row_left : ℕ → Row → ℕ
row_left i r = if r.id == i then max_deliveries - r.deliveries else 0

abbrev rows_left : ℕ → List Row → ℕ
rows_left i [] = 0
rows_left i (r ∷ rows) = row_left i r + rows_left i rows

abbrev pub count : ℕ → List ℕ → ℕ
count i [] = 0
count i (x ∷ xs) = let rest = count i xs in if x == i then suc rest else rest

-- An ID that is not given yet may go out as often as a command can.
abbrev total_left : ℕ → Queue → ℕ
total_left i q = rows_left i q.rows + (if ltb i q.next_id then 0 else max_deliveries)

-- A change that makes no row go out more often.
record Keeps (change : Row → Row) : Type 0 where
  pub same : (r : Row) → (change r).id ≡ r.id
  pub more : (r : Row) → r.deliveries ≤ (change r).deliveries
  pub sound : (r : Row) → Sound r → Sound (change r)

Keeps-expire : Keeps expire
unfolding expire
Keeps-expire = record { same = λ r. refl; more = λ r. omega arith; sound = λ r s. s }

Keeps-acknowledge : (now : ℕ) → Keeps (acknowledge now)
unfolding acknowledge
Keeps-acknowledge now = record { same = λ r. refl; more = λ r. omega arith; sound = λ r s. s }

Keeps-deliver : (now : ℕ) → Keeps (deliver now)
unfolding deliver
Keeps-deliver now = record {
  same = λ r. refl;
  more = λ r. omega arith;
  sound = λ r s h. absurd (ground arith);
}

row_left-Keeps :
    (i : ℕ) (change : Row → Row) (r : Row) → Keeps change → row_left i (change r) ≤ row_left i r
row_left-Keeps i change r w = ground (arith, w.same r, w.more r)

rows_left-update_where :
    (i : ℕ) (test : Row → Bool) (change : Row → Row) (rows : List Row)
    → Keeps change
    → rows_left i (update_where test change rows) ≤ rows_left i rows
unfolding update_where
rows_left-update_where i test change [] w = omega arith
rows_left-update_where i test change (r ∷ rows) w =
    ground (arith, row_left-Keeps i change r w, rows_left-update_where i test change rows w)

rows_left-select_where :
    (i : ℕ) (test : Row → Bool) (rows : List Row)
    → rows_left i (select_where test rows) ≤ rows_left i rows
unfolding select_where
rows_left-select_where i test [] = omega arith
rows_left-select_where i test (r ∷ rows) = ground (arith, rows_left-select_where i test rows)

-- The row is among these IDs.
abbrev Listed : List ℕ → Row → Type 0
Listed ids r = contains_id ids r.id ≡ true

Listed-more :
    (id : ℕ) (ids : List ℕ) (rows : List Row)
    → AllIn (Listed ids) rows
    → AllIn (Listed (id ∷ ids)) rows
unfolding contains_id
Listed-more id ids [] a = tt
Listed-more id ids (r ∷ rows) a = (ground (arith, a.0), Listed-more id ids rows a.1)

Listed-ids_of : (rows : List Row) → AllIn (Listed (ids_of rows)) rows
unfolding ids_of contains_id
Listed-ids_of [] = tt
Listed-ids_of (r ∷ rows) = (ground arith, Listed-more r.id (ids_of rows) rows (Listed-ids_of rows))

due-device :
    (now : ℕ) (device : Bytes) (r : Row)
    → is_due now device r ≡ true
    → bytes_eq r.device device ≡ true
unfolding is_due
due-device now device r h = ground arith

due-deliveries :
    (now : ℕ) (device : Bytes) (r : Row) → is_due now device r ≡ true → Sound r → r.deliveries ≤ 2
unfolding is_due
due-deliveries now device r h s = elim (Bool-cases (is_set r.delivered_at)) [
  | inl e ↦ ground arith
  | inr e ↦ ground (arith, s e)
]

row_left-deliver :
    (i now : ℕ) (r : Row)
    → r.deliveries ≤ 2
    → (if r.id == i then 1 else 0) + row_left i (deliver now r) ≤ row_left i r
unfolding deliver
row_left-deliver i now r h = ground arith

-- What goes out is taken from what is left.
rows_left-deliver :
    (i now : ℕ) (device : Bytes) (ids : List ℕ) (rows : List Row)
    → AllIn Sound rows
    → AllIn (Listed ids) (select_where (is_due now device) rows)
    → count i (ids_of (select_where (is_due now device) rows))
        + rows_left i (
            update_where (λ r. contains_id ids r.id && bytes_eq r.device device) (deliver now) rows)
      ≤ rows_left i rows
unfolding select_where update_where ids_of
rows_left-deliver i now device ids [] s a = omega arith
rows_left-deliver i now device ids (r ∷ rows) s a = elim (Bool-cases (is_due now device r)) [
  | inl e ↦
      let (listed, others) : Listed ids r
          × AllIn (Listed ids) (select_where (is_due now device) rows) =
        rw e at a in
      rw (e, listed, due-device now device r e)
        (ground (
          arith,
          rows_left-deliver i now device ids rows s.1 others,
          row_left-deliver i now r (due-deliveries now device r e s.0),
        ))
  | inr e ↦
      let rest = rows_left-deliver i now device ids rows s.1 (rw e at a) in
      rw e (ground (arith, rest, row_left-Keeps i (deliver now) r (Keeps-deliver now)))
]

-- What a step does to the number of times that an ID may go out.
record Takes (i : ℕ) (q : Queue) (after : Queue × List ℕ) : Type 0 where
  pub spent : count i after.1 + total_left i after.0 ≤ total_left i q
  pub sound : AllIn Sound q.rows → AllIn Sound after.0.rows

Takes-take :
    (i now : ℕ) (device : Bytes) (q : Queue)
    → AllIn Sound q.rows
    → Takes i q (run_call now (take_of device) q)
unfolding run_call take_commands
Takes-take i now device q s =
    let swept = update_where (λ r. bytes_eq r.device device && is_stale now r) expire q.rows in
    let out = select_where (is_due now device) swept in
    let sound = All-update_where Sound _ expire q.rows (λ r e. Keeps-expire.sound r) s in
    record {
      spent = ground (
        arith,
        rows_left-deliver i now device (ids_of out) swept sound (Listed-ids_of out),
        rows_left-update_where i (λ r. bytes_eq r.device device && is_stale now r) expire q.rows
            Keeps-expire,
      );
      sound = λ a.
          All-update_where Sound _ (deliver now) swept (λ r e. (Keeps-deliver now).sound r) sound;
    }
