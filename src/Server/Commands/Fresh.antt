-- ===== src/Server/Commands/Fresh.antt =====
-- Which commands go out.
use portapixel.Prelude.{
  if-case, ℕ, ◌+◌, ◌≤◌, ◌≡◌, refl, ◌∙◌, ap, inl, inr, Bytes, Bool, true, false, not, ◌&&◌, List, [],
  ◌∷◌, arith, ◌==◌, bytes_eq, Bool-cases,
}
use portapixel.Device.Identity.{contains_id}
use portapixel.Server.Commands.{
  command_life, Row, Queue, is_set, is_open, expire, is_stale, is_due, ids_of, take_commands,
  acknowledge, ack_commands,
}
use portapixel.Server.Table.{update_where, select_where}
use portapixel.Server.Commands.Deliveries.{count}

-- A row that this device has acknowledged, if it is one of these.
abbrev Answered : Bytes → List ℕ → Row → Type 0
Answered device acks r =
    (contains_id acks r.id && bytes_eq r.device device) ≡ true → is_set r.acked_at ≡ true

abbrev AllAnswered : Bytes → List ℕ → List Row → Type 0
AllAnswered device acks [] = Unit
AllAnswered device acks (r ∷ rows) = Answered device acks r × AllAnswered device acks rows

AllAnswered-acknowledge :
    (now : ℕ) (device : Bytes) (acks : List ℕ) (rows : List Row)
    → AllAnswered device acks (
        update_where
          (λ r. contains_id acks r.id && bytes_eq r.device device && not (is_set r.acked_at))
          (acknowledge now)
          rows)
unfolding update_where acknowledge
AllAnswered-acknowledge now device acks [] = tt
AllAnswered-acknowledge now device acks (r ∷ rows) =
    let rest = AllAnswered-acknowledge now device acks rows in
    if-case (AllAnswered device acks)
      (contains_id acks r.id && bytes_eq r.device device && not (is_set r.acked_at)) _ _
      (λ e. (λ h. refl, rest)) (λ e. (λ h. ground arith, rest))

AllAnswered-expire :
    (device : Bytes) (acks : List ℕ) (test : Row → Bool) (rows : List Row)
    → AllAnswered device acks rows
    → AllAnswered device acks (update_where test expire rows)
unfolding update_where expire
AllAnswered-expire device acks test [] a = tt
AllAnswered-expire device acks test (r ∷ rows) a =
    let rest = AllAnswered-expire device acks test rows a.1 in
    if-case (AllAnswered device acks) (test r) _ _ (λ e. (a.0, rest)) (λ e. (a.0, rest))

due-unanswered :
    (now i : ℕ) (device : Bytes) (acks : List ℕ) (r : Row)
    → contains_id acks i ≡ true
    → Answered device acks r
    → is_due now device r ≡ true
    → (r.id == i) ≡ false
unfolding is_due is_open
due-unanswered now i device acks r member w due = elim (Bool-cases (r.id == i)) [
  | inl e ↦
      let same : r.id ≡ i = ground arith in
      let set = w (rw (ap (contains_id acks) same ∙ member) (ground arith)) in
      absurd (ground (arith, set))
  | inr e ↦ e
]

count-due :
    (now i : ℕ) (device : Bytes) (acks : List ℕ) (rows : List Row)
    → contains_id acks i ≡ true
    → AllAnswered device acks rows
    → count i (ids_of (select_where (is_due now device) rows)) ≡ 0
unfolding select_where ids_of
count-due now i device acks [] member a = refl
count-due now i device acks (r ∷ rows) member a =
    let rest = count-due now i device acks rows member a.1 in
    if-case (λ (rs : List Row). count i (ids_of rs) ≡ 0) (is_due now device r) _ _
      (λ e. rw (due-unanswered now i device acks r member a.0 e) rest) (λ e. rest)

-- A command that the screen has acknowledged does not go out to it again at its next poll.
pub take_commands-ack_commands :
    (now later i : ℕ) (device : Bytes) (acks : List ℕ) (q : Queue)
    → contains_id acks i ≡ true
    → count i (ids_of (take_commands later device (ack_commands now device acks q)).1) ≡ 0
unfolding take_commands ack_commands
take_commands-ack_commands now later i device acks q member =
    count-due later i device acks _ member
      (AllAnswered-expire device acks _ _ (AllAnswered-acknowledge now device acks q.rows))

-- Commands of this screen that were queued in the last day.
abbrev pub AllInTime : ℕ → Bytes → List Row → Type 0
AllInTime now device [] = Unit
AllInTime now device (r ∷ rows) =
    (bytes_eq r.device device ≡ true)
    × (now ≤ r.queued_at + command_life)
    × AllInTime now device rows

due-expired : (now : ℕ) (device : Bytes) (r : Row) → is_due now device (expire r) ≡ false
unfolding is_due is_open expire
due-expired now device r = ground arith

due-in_time :
    (now : ℕ) (device : Bytes) (r : Row)
    → (bytes_eq r.device device && is_stale now r) ≡ false
    → is_due now device r ≡ true
    → (bytes_eq r.device device ≡ true) × (now ≤ r.queued_at + command_life)
unfolding is_due is_stale
due-in_time now device r fresh due = (ground arith, ground arith)

AllInTime-rows :
    (now : ℕ) (device : Bytes) (rows : List Row)
    → AllInTime now device (
        select_where
          (is_due now device)
          (update_where (λ r. bytes_eq r.device device && is_stale now r) expire rows))
unfolding select_where update_where
AllInTime-rows now device [] = tt
AllInTime-rows now device (r ∷ rows) =
    let rest = AllInTime-rows now device rows in
    elim (Bool-cases (bytes_eq r.device device && is_stale now r)) [
      | inl e ↦ rw (e, due-expired now device r) rest
      | inr e ↦ elim (Bool-cases (is_due now device r)) [
        | inl d ↦
            let (own, in_time) = due-in_time now device r e d in rw (e, d) (own, in_time, rest)
        | inr d ↦ rw (e, d) rest
      ]
    ]

-- Whatever the queue holds, a poll takes only commands of its own screen that were queued in the
-- last day.
take_commands-AllInTime :
    (now : ℕ) (device : Bytes) (q : Queue) → AllInTime now device (take_commands now device q).1
unfolding take_commands
take_commands-AllInTime now device q = AllInTime-rows now device q.rows
