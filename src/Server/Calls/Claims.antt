-- ===== src/Server/Calls/Claims.antt =====
-- A request that the admin approves, and the poll that collects the token.
use portapixel.Prelude.{
  if-case, ℕ, ◌+◌, ◌≤◌, ◌≡◌, refl, sym, ap, ◌∙◌, subst, arith, inl, inr, String, Bool, true, false,
  not, ◌&&◌, ◌||◌, some, List, [], ◌∷◌, ◌++◌, ◌==◌, is_empty, Bool-cases, bytes_eq, bytes_eq_iff,
  str_eq,
}
use portapixel.Server.Table.{
  update_where, select_where, find_where, has_where, find-update_hit, find-select_where,
}
use portapixel.Server.Table.Keys.{
  has-update_where, has-update_less, has-snoc, has-weaken, find-has, find-none, find-passes,
  has-taken_out,
}
use portapixel.Server.Rows.{
  approved_life, DeviceRow, PendingRow, Tables, Result, done, ◌>>=◌, is_device, find_device,
  is_waiting,
}
use portapixel.Server.Enroll.{
  Request, Visit, Answer, paired, touch, touch_enrolled, pair_with, pair_row, of_device, report,
  is_new, in_group, new_device, upsert_device, is_stale, sweep_pending, valid_device_id,
}
use portapixel.Server.Enroll.Rules.{
  was_paired, issue, answer_claim, enroll_with_token, holds_token, enroll_swept, enroll,
}
use portapixel.Server.Admin.{
  has_id, request_of, group_of, move, move_if_set, clear_flags, replace_machine,
  replace_if_collides, approve_at, approve_found, approve_pending,
}

module _ (hash : String → String) (req : Request) where
  abbrev pub claim : PendingRow → Bool
  claim q = str_eq q.claim_hash (hash req.token)

  -- The device has a row, and no row holds the secret as its token.
  record Ready (d d' : Tables) : Type 0 where
    pub free : has_where (holds_token hash req) d'.devices ≡ false
    pub there : has_where (is_device req.device_id) d'.devices ≡ true
    pub same : d'.pendings ≡ d.pendings
    pub groups : d'.groups ≡ d.groups

  -- A change that keeps the ID and gives no new token.
  record Harmless (change : DeviceRow → DeviceRow) : Type 0 where
    pub id : (r : DeviceRow) → (change r).id ≡ r.id
    pub token :
        (r : DeviceRow) → holds_token hash req (change r) ≡ true → holds_token hash req r ≡ true

  Ready-update :
      (test : DeviceRow → Bool) (change : DeviceRow → DeviceRow) (d d' : Tables)
      → Harmless change
      → Ready d d'
      → Ready d (record d' { devices = update_where test change d'.devices })
  Ready-update test change d d' w y = record {
    free = has-update_less (holds_token hash req) test change d'.devices w.token y.free;
    there =
        has-update_where (is_device req.device_id) test change d'.devices
          (λ x e. ap (λ i. bytes_eq i req.device_id) (w.id x))
        ∙ y.there;
    same = y.same;
    groups = y.groups;
  }

  Ready-move_if_set :
      (group : ℕ) (d d' : Tables)
      → (group == 0 || has_where (λ g. g == group) d.groups) ≡ true
      → Ready d d'
      → (t : Tables) × (move_if_set req.device_id group d' ≡ done t) × Ready d t
  unfolding move
  Ready-move_if_set group d d' known y = elim (Bool-cases (group == 0)) [
    | inl e ↦ (d', rw e refl, y)
    | inr e ↦
        let here : has_where (λ g. g == group) d'.groups ≡ true =
          rw y.groups (ground (arith, e, known)) in
        let w : Harmless (in_group group) = record { id = λ r. refl; token = λ r h. h } in
        let moved = update_where (is_device req.device_id) (in_group group) d'.devices in
        (
          record d' { devices = moved },
          rw (e, here, y.there) refl,
          Ready-update _ (in_group group) d d' w y,
        )
  ]

  Ready-same :
      (d : Tables)
      → has_where (holds_token hash req) d.devices ≡ false
      → has_where (is_device req.device_id) d.devices ≡ true
      → Ready d d
  Ready-same d free there = record { free = free; there = there; same = refl; groups = refl }

  Ready-add :
      (row : DeviceRow) (d : Tables)
      → has_where (holds_token hash req) d.devices ≡ false
      → holds_token hash req row ≡ false
      → row.id ≡ req.device_id
      → Ready d (record d { devices = d.devices ++ row ∷ [] })
  Ready-add row d free none_held own = record {
    free = rw (has-snoc (holds_token hash req) d.devices row) (ground (arith, free, none_held));
    there =
        rw (has-snoc (is_device req.device_id) d.devices row)
          (ground (arith, (bytes_eq_iff row.id req.device_id).1 own));
    same = refl;
    groups = refl;
  }

  -- The row that an approval makes or takes for the device.
  Ready-upsert_device :
      (asked : Request) (ip : String) (now group : ℕ) (take_group : Bool) (d : Tables)
      → asked.device_id ≡ req.device_id
      → has_where (holds_token hash req) d.devices ≡ false
      → Ready d (upsert_device asked ip now group take_group d)
  unfolding upsert_device new_device report
  Ready-upsert_device asked ip now group take_group d own free =
      let fresh = is_new asked.device_id in
      let reported = update_where fresh (report asked ip) d.devices in
      let moved = update_where fresh (in_group group) reported in
      let R : Tables → Type 0 = Ready d in
      elim (Bool-cases (has_where (is_device asked.device_id) d.devices)) [
        | inl e ↦
            let there : has_where (is_device req.device_id) d.devices ≡ true =
              subst (λ i. has_where (is_device i) d.devices ≡ true) own e in
            let same = Ready-same d free there in
            let first =
              Ready-update fresh (report asked ip) d d (record { id = λ r. refl; token = λ r h. h })
                same in
            let grouped =
              if-case (λ (rows : List DeviceRow). Ready d (record d { devices = rows }))
                (take_group && not (group == 0)) moved reported
                (λ k.
                  Ready-update fresh (in_group group) d (record d { devices = reported })
                    (record { id = λ r. refl; token = λ r h. h }) first)
                (λ k. first) in
            if-case R (has_where fresh d.devices) _ _ (λ k. grouped) (λ k. rw e same)
        | inr e ↦
            rw
              (
                has-weaken fresh (is_device asked.device_id) d.devices (λ x k. ground (arith, k)) e,
                e,
              )
              (Ready-add (new_device asked ip now group) d free (ground arith) own)
      ]

  Ready-replace_if_collides :
      (p : PendingRow) (d d' : Tables) → Ready d d' → Ready d (replace_if_collides p d')
  unfolding replace_if_collides replace_machine clear_flags
  Ready-replace_if_collides p d d' y =
      if-case (Ready d) (is_empty p.collides_with) _ _ (λ e. y)
        (λ e.
          Ready-update (is_device p.device_id) (replace_machine p.hardware_id) d d'
            (record { id = λ r. refl; token = λ r h. absurd (ground (arith, h)) }) y)

  -- A request that gets the token of its device.
  abbrev pub Collects : Visit → Result Answer → Type 0
  Collects v m =
      (d : Tables) × (r : DeviceRow) × (m
        ≡ done (record { tables = d; reply = paired v.secret; created = false }))
      × (find_device req.device_id d ≡ some r)
      × (r.token_hash ≡ hash v.secret)
      × (r.ever_paired ≡ true)
      × (has_where (of_device req.device_id) d.pendings ≡ false)

  Collects-issue :
      (v : Visit) (d : Tables)
      → has_where (is_device req.device_id) d.devices ≡ true
      → Collects v (issue hash req v d)
  unfolding issue pair_row touch_enrolled touch pair_with find_device
  Collects-issue v d there =
      let own = is_device req.device_id in
      let touched = update_where own (touch req v) d.devices in
      let here : has_where own touched ≡ true =
        has-update_where own own (touch req v) d.devices (λ x e. refl) ∙ there in
      let (r, found) = find-has own touched here in
      (
        record d {
          devices = update_where own (pair_with v.now (hash v.secret)) touched;
          pendings = select_where (λ p. not (of_device req.device_id p)) d.pendings;
        },
        pair_with v.now (hash v.secret) r,
        rw here refl,
        find-update_hit own r own (pair_with v.now (hash v.secret)) touched (λ x. refl)
            (find-passes own touched r found) found,
        refl,
        refl,
        has-taken_out (of_device req.device_id) d.pendings,
      )

  Collects-enroll :
      (v : Visit) (d : Tables) (p : PendingRow)
      → valid_device_id req.device_id ≡ true
      → str_eq req.token "" ≡ false
      → has_where (holds_token hash req) d.devices ≡ false
      → has_where (is_device req.device_id) d.devices ≡ true
      → find_where claim (sweep_pending v.now d).pendings ≡ some p
      → p.device_id ≡ req.device_id
      → is_waiting p ≡ false
      → Collects v (enroll hash req v d)
  unfolding enroll enroll_swept enroll_with_token answer_claim sweep_pending
  Collects-enroll v d p valid some_token free there found own approved =
      let swept = sweep_pending v.now d in
      let (d', r, answer, row, token, ever, gone) = Collects-issue v swept there in
      (
        d',
        r,
        rw
            (
              valid,
              some_token,
              find-none (holds_token hash req) d.devices free,
              found,
              (bytes_eq_iff p.device_id req.device_id).1 own,
              approved,
              answer,
            )
            refl,
        row,
        token,
        ever,
        gone,
      )

  -- The sweep of the poll leaves the request that was approved.
  Collects-found :
      (v : Visit) (now : ℕ) (d d' : Tables) (p : PendingRow)
      → find_where claim d.pendings ≡ some p
      → v.now ≤ now + approved_life
      → Ready d d'
      → find_where claim
          (sweep_pending v.now (record d' {
            pendings = update_where (has_id p.id) (approve_at now) d'.pendings;
          })).pendings
        ≡ some (approve_at now p)
  unfolding sweep_pending is_stale
  Collects-found v now d d' p found in_time y =
      find-select_where claim (approve_at now p) (λ q. not (is_stale v.now q)) _
        (ground (arith, in_time))
        (find-update_hit claim p (has_id p.id) (approve_at now) d'.pendings (λ q. refl)
          (ground arith) (rw y.same found))

  -- A request whose secret is no device token, once the admin approved it, gets the device token at
  -- the first poll within 30 days: whatever the tables hold otherwise, the poll is answered with a
  -- fresh token, the row of the device holds its hash and is paired, and no request of the device
  -- is left. The group that the admin chose has to be one of the groups.
  pub enroll-approve_pending :
      (v : Visit) (now id group : ℕ) (d : Tables) (p : PendingRow)
      → valid_device_id req.device_id ≡ true
      → str_eq req.token "" ≡ false
      → has_where (holds_token hash req) d.devices ≡ false
      → find_where (λ q. has_id id q && is_waiting q) d.pendings ≡ some p
      → find_where claim d.pendings ≡ some p
      → p.device_id ≡ req.device_id
      → (group == 0 || has_where (λ g. g == group) d.groups) ≡ true
      → v.now ≤ now + approved_life
      → Collects v (approve_pending now id group d >>= enroll hash req v)
  unfolding approve_pending approve_found request_of
  enroll-approve_pending v now id group d p valid some_token free asked found own known in_time =
      let take_group = not (was_paired (find_device p.device_id d)) in
      let d1 = upsert_device (request_of p) p.ip now (group_of p.token_id d) take_group d in
      let y1 : Ready d d1 =
        Ready-upsert_device (request_of p) p.ip now (group_of p.token_id d) take_group d own free in
      let (d2, moved, y2) : (t : Tables) × (move_if_set p.device_id group d1 ≡ done t) × Ready d t =
        subst (λ i. (t : Tables) × (move_if_set i group d1 ≡ done t) × Ready d t) (sym own)
          (Ready-move_if_set group d d1 known y1) in
      let y3 = Ready-replace_if_collides p d d2 y2 in
      let d3 = replace_if_collides p d2 in
      let approved = update_where (has_id p.id) (approve_at now) d3.pendings in
      rw (asked, moved)
        (Collects-enroll v (record d3 { pendings = approved }) (approve_at now p) valid some_token
          y3.free y3.there (Collects-found v now d d3 p found in_time y3) own refl)
