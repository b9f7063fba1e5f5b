-- ===== src/Server/Enroll/Soundness.antt =====
-- The statements of an enrolment keep the warnings of the pending list right.
pub mod Rules
use portapixel.Prelude.{
  AllIn, if-case, ℕ, zero, suc, max, ◌+◌, ◌≤◌, ◌<◌, ◌≡◌, refl, sym, ap, ◌∙◌, subst, arith, inl, inr,
  String, Bool, true, false, not, ◌&&◌, ◌||◌, Option, none, some, List, [], ◌∷◌, ◌++◌, leb, ltb,
  ◌==◌, length, is_empty, if◌then◌else◌, Bool-cases, Option-cases, Bytes, bytes_eq, bytes_eq_iff,
  str_eq,
}
use portapixel.Server.Table.{
  update_where, select_where, find_where, has_where, count_where, All-update_with, All-selected,
  All-map, All-snoc, All-find_where, has-find_where,
}
use portapixel.Server.Table.Keys.{
  has-update_where, has-weaken, Distinct, Distinct-select_where, Distinct-snoc, Distinct-found,
}
use portapixel.Server.Rows.{
  max_pending, DeviceRow, PendingRow, TokenRow, Tables, Result, refused, done, Ensures,
  Ensures-bind, is_device, find_device, is_waiting, last_pending,
}
use portapixel.Server.Enroll.{
  max_tries, Request, Visit, Answer, paired, free_code, sweep_pending, touch, touch_enrolled,
  pair_with, pair_row, of_device, report, is_new, in_group, new_device, upsert_device,
  valid_device_id, allowed_in_id,
}
use portapixel.Server.Enroll.Rules.{
  was_paired, same_hardware, is_auto, usable, count_use, same_machine, holds_claim, ask_again,
  new_pending, insert_pending, pending_of, make_pending, issue, enroll_no_token, enroll_counted,
  enroll_with_enrollment_token, poll, answer_claim, enroll_with_token, holds_token, enroll_swept,
  may_create, enroll,
}
use portapixel.Server.Enroll.Waiting.{bytes_eq-swap}
use portapixel.Server.Enroll.Warned.{
  same_id, same_key, is_screen, Warned, Sound, Mild, Sound-devices, Sound-drop_pendings,
  Sound-pendings, Sound-add_device, Distinct-keys, Distinct-ids,
}

-- The ID of a new row is above the others.
has-above :
    (n : ℕ) (rows : List PendingRow)
    → last_pending rows < n
    → has_where (λ q. q.id == n) rows ≡ false
unfolding has_where last_pending
has-above n [] h = refl
has-above n (q ∷ rows) h = ground (arith, has-above n rows (omega (arith, h)), h)

-- What the code reads of one row holds of all rows with that ID.
has-unpaired :
    (id : Bytes) (rows : List DeviceRow)
    → Distinct same_id rows
    → was_paired (find_where (is_device id) rows) ≡ false
    → has_where (is_screen id) rows ≡ false
unfolding find_where has_where
has-unpaired id [] s h = refl
has-unpaired id (x ∷ rows) s h = elim (Bool-cases (bytes_eq x.id id)) [
  | inl e ↦
      let new : x.ever_paired ≡ false = rw e at h in
      let others : has_where (is_device id) rows ≡ false =
        subst (λ i. has_where (is_device i) rows ≡ false) ((bytes_eq_iff x.id id).0 e) s.0 in
      let rest = has-weaken (is_screen id) (is_device id) rows (λ y k. ground (arith, k)) others in
      ground (arith, new, rest)
  | inr e ↦ ground (arith, e, has-unpaired id rows s.1 (rw e at h))
]

-- A row of the device of the request is no row of another device.
another :
    (id other device : Bytes) (ever : Bool)
    → bytes_eq id device ≡ true
    → bytes_eq other device ≡ false
    → (bytes_eq id other && true) ≡ (bytes_eq id other && ever)
another id other device ever own apart = elim (Bool-cases (bytes_eq id other)) [
  | inl e ↦
      let same : id ≡ other = (bytes_eq_iff id other).0 e in
      let own' : bytes_eq other device ≡ true = subst (λ i. bytes_eq i device ≡ true) same own in
      absurd (ground (arith, own', apart))
  | inr e ↦ ground (arith, e)
]

module _ (hash : String → String) (req : Request) (v : Visit) where
  abbrev SoundAnswer : Answer → Type 0
  SoundAnswer a = Sound a.tables

  -- The warning that the code chose fits the device of the request.
  abbrev Clear : Bytes → Tables → Type 0
  Clear collides d =
      is_empty collides ≡ true → has_where (is_screen req.device_id) d.devices ≡ false

  Sound-insert_pending :
      (token_id : ℕ) (collides : Bytes) (d : Tables) (code : Option Bytes)
      → Clear collides d
      → Sound d
      → Ensures SoundAnswer (insert_pending hash req v token_id collides d code)
  unfolding insert_pending new_pending
  Sound-insert_pending token_id collides d none fits s = tt
  Sound-insert_pending token_id collides d (some code) fits s =
      let row = new_pending hash req v token_id collides code (suc (last_pending d.pendings)) in
      if-case (Ensures SoundAnswer) (has_where (holds_claim hash v) d.pendings) _ _ (λ e. tt)
        (λ e. record {
          ids = s.ids;
          keys =
              Distinct-snoc same_key d.pendings row (λ x y. ground arith)
                (has-above (suc (last_pending d.pendings)) d.pendings (omega arith)) s.keys;
          warned = All-snoc (Warned d.devices) d.pendings row s.warned fits;
        })

  Sound-ask_again :
      (token_id : ℕ) (collides : Bytes) (d : Tables) (p : PendingRow)
      → find_where (same_machine req) d.pendings ≡ some p
      → Clear collides d
      → Sound d
      → Sound (record d {
        pendings =
            update_where (λ q. q.id == p.id) (ask_again hash req v token_id collides) d.pendings;
      })
  unfolding ask_again
  Sound-ask_again token_id collides d p found fits s =
      let own : bytes_eq p.device_id req.device_id ≡ true =
        ground (arith, (All-find_where _ (same_machine req) d.pendings p s.warned found).0) in
      record {
        ids = s.ids;
        keys =
            Distinct-keys _ (ask_again hash req v token_id collides) d.pendings (λ q. refl) s.keys;
        warned =
            All-update_with (Warned d.devices) (λ q. same_key p q ≡ true → q ≡ p) _
              (ask_again hash req v token_id collides) d.pendings
              (λ q t only w e.
                subst (λ i. has_where (is_screen i) d.devices ≡ false)
                  (sym (
                    ap (λ (x : PendingRow). x.device_id) (only t)
                    ∙ (bytes_eq_iff p.device_id req.device_id).0 own))
                  (fits e))
              (Distinct-found same_key (same_machine req) d.pendings p (λ x y. ground arith) found
                s.keys)
              s.warned;
      }

  Sound-make_pending :
      (token_id : ℕ) (collides : Bytes) (d : Tables)
      → Clear collides d
      → Sound d
      → Ensures SoundAnswer (make_pending hash req v token_id collides d)
  unfolding make_pending pending_of
  Sound-make_pending token_id collides d fits s =
      elim (Option-cases (find_where (same_machine req) d.pendings)) [
        | inl h ↦ rw h (
            if-case (Ensures SoundAnswer) (leb max_pending (count_where is_waiting d.pendings)) _ _
              (λ e. tt) (λ e. Sound-insert_pending token_id collides d _ fits s))
        | inr (p, h) ↦ rw h (
            if-case (Ensures SoundAnswer)
              (has_where (λ q. not (q.id == p.id) && holds_claim hash v q) d.pendings) _ _ (λ e. tt)
              (λ e. Sound-ask_again token_id collides d p h fits s))
      ]

  Mild-touch : Mild (touch req v)
  unfolding touch
  Mild-touch = record { id = λ r. refl; ever = λ r. refl }

  Sound-touch_enrolled : (d : Tables) → Sound d → Sound (touch_enrolled req v d)
  unfolding touch_enrolled
  Sound-touch_enrolled d s = Sound-devices _ (touch req v) d Mild-touch s

  -- The row that is paired loses its requests; those of other devices stay as they are.
  Sound-pair_row :
      (token_hash : String) (d : Tables) → Sound d → Ensures Sound (pair_row req v token_hash d)
  unfolding pair_row pair_with touch_enrolled
  Sound-pair_row token_hash d before =
      let t = touch_enrolled req v d in
      let s = Sound-touch_enrolled d before in
      let all = update_where (is_device req.device_id) (pair_with v.now token_hash) t.devices in
      if-case (Ensures Sound) (has_where (is_device req.device_id) t.devices) _ _
        (λ e. record {
          ids =
              Distinct-ids (is_device req.device_id) (pair_with v.now token_hash) t.devices
                (λ r. refl) s.ids;
          keys = Distinct-select_where same_key _ t.pendings s.keys;
          warned =
              All-selected (Warned t.devices) (Warned all) (λ p. not (of_device req.device_id p))
                t.pendings
                (λ p other w none_warned.
                  rw
                    (has-update_where (is_screen p.device_id) (is_device req.device_id)
                      (pair_with v.now token_hash) t.devices
                      (λ x own.
                        another x.id p.device_id req.device_id x.ever_paired own
                          (ground (arith, other))))
                    (w none_warned))
                s.warned;
        })
        (λ e. tt)
