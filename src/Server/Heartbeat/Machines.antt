-- ===== src/Server/Heartbeat/Machines.antt =====
-- The rules D21 over many heartbeats: which machine a row knows, and when two machines conflict.
use portapixel.Prelude.{
  AllIn, if-case, ℕ, ◌+◌, ◌<◌, ◌≡◌, refl, sym, ◌∙◌, subst, arith, ◌⊎◌, inl, inr, String, true,
  false, not, ◌&&◌, ◌||◌, some, List, [], ◌∷◌, length, ltb, lt→ltb, if◌then◌else◌, Bool-cases,
  Bytes, str_eq, eq_refl,
}
use portapixel.Server.Rows.{DeviceRow, Tables, find_device}
use portapixel.Server.Commands.{Queue}
use portapixel.Server.Heartbeat.{
  max_acks, clone_window, reported_name, take_report, just_now, set_conflict, drop_change,
  hardware_rules,
}
use portapixel.Server.Heartbeat.Beats.{
  Beat, run_beats, beat_row, find-heartbeat, run_beats_row, beat_row-hardware, beat_row-conflict,
}

-- Every beat is one of these.
AllIn-Unit : (beats : List Beat) → AllIn (λ b. Unit {0}) beats
AllIn-Unit [] = tt
AllIn-Unit (b ∷ beats) = (tt, AllIn-Unit beats)

-- Whatever the heartbeats of a device report, its row keeps the hardware ID that it has, and while
-- it is in conflict the row stays so and keeps its name.
pub run_beats-hardware :
    (id : Bytes) (beats : List Beat) (s : Tables × Queue) (r : DeviceRow)
    → find_device id s.0 ≡ some r
    → str_eq r.hardware_id "" ≡ false
    → (r' : DeviceRow) × (find_device id (run_beats id beats s).0 ≡ some r')
      × (r'.hardware_id ≡ r.hardware_id)
      × (r.conflict ≡ true → (r'.conflict ≡ true) × (r'.name ≡ r.name))
run_beats-hardware id beats s r found set =
    let Same : DeviceRow → Type 0 = λ x.
      (x.hardware_id ≡ r.hardware_id)
      × (r.conflict ≡ true → (x.conflict ≡ true) × (x.name ≡ r.name)) in
    let (r', found', kept) =
      run_beats_row Same (λ b. Unit) id beats s r
        (λ b x q k. (
          beat_row-hardware b x (subst (λ h. str_eq h "" ≡ false) (sym k.0) set) ∙ k.0,
          λ c. let (still, name) = beat_row-conflict b x (k.1 c).0 in (still, name ∙ (k.1 c).1),
        ))
        (AllIn-Unit beats) found (refl, λ c. (c, refl)) in
    (r', found', kept.0, kept.1)

-- The only machine that reports is the one that the row waits for, or the row waits for none.
abbrev pub OneMachine : String → DeviceRow → Type 0
OneMachine hardware_id r =
    (r.conflict ≡ false)
    × ((str_eq r.pending_hardware_id "" || str_eq r.pending_hardware_id hardware_id) ≡ true)

-- The ID that waits after the rules.
abbrev Waits : String → DeviceRow → DeviceRow → Type 0
Waits reported r x =
    (x.pending_hardware_id ≡ r.pending_hardware_id)
    ⊎ (x.pending_hardware_id ≡ "")
    ⊎ (x.pending_hardware_id ≡ reported)

hardware_rules-Waits :
    (now : ℕ) (reported : String) (r x : DeviceRow)
    → x.pending_hardware_id ≡ r.pending_hardware_id
    → Waits reported r (hardware_rules now reported r x)
unfolding hardware_rules
hardware_rules-Waits now reported r x same =
    let W : (DeviceRow → DeviceRow) → Type 0 = λ f. Waits reported r (f x) in
    let other = if str_eq reported r.hardware_id then r.pending_hardware_id else reported in
    if-case W (str_eq reported "") _ _ (λ e. inl same)
      (λ e.
        if-case W (str_eq r.hardware_id "") _ _ (λ k. inl same)
          (λ k.
            if-case W
              (not (str_eq r.pending_hardware_id "")
                && not (str_eq r.pending_hardware_id reported)
                && just_now now r.pending_hardware_at)
              (set_conflict other) _ (λ c. inl same)
              (λ c.
                if-case W (str_eq reported r.hardware_id) _ _
                  (λ m.
                    if-case W (str_eq r.pending_hardware_id "") (λ y. y) drop_change (λ w. inl same)
                      (λ w. inr (inl refl)))
                  (λ m. inr (inr refl)))))

-- One machine alone makes no conflict.
calm_rules :
    (h : String) (b : Beat) (r : DeviceRow)
    → b.report.hardware_id ≡ h
    → r.conflict ≡ false
    → (str_eq r.pending_hardware_id "" || str_eq r.pending_hardware_id h) ≡ true
    → (beat_row b r).conflict ≡ false
unfolding beat_row hardware_rules take_report
calm_rules h b r own calm waits = ground (arith, own, calm, waits)

beat_row-OneMachine :
    (h : String) (b : Beat) (r : DeviceRow)
    → b.report.hardware_id ≡ h
    → OneMachine h r
    → OneMachine h (beat_row b r)
unfolding beat_row take_report
beat_row-OneMachine h b r own (calm, waits) =
    elim (Bool-cases (ltb max_acks (length b.report.acks))) [
      | inl e ↦ rw e (calm, waits)
      | inr e ↦
          let told = take_report b.now b.ip b.report (reported_name b.report r) r in
          (
            calm_rules h b r own calm waits,
            rw e (elim (hardware_rules-Waits b.now b.report.hardware_id r told refl) [
              | inl k ↦ rw k waits
              | inr (inl k) ↦ rw k refl
              | inr (inr k) ↦ rw (k, own, eq_refl h) (ground arith)
            ]),
          )
    ]

-- A machine that reports alone is no conflict, however often and however soon: a row that is in
-- none, and for which no other machine waits, stays out of it.
pub run_beats-OneMachine :
    (hardware_id : String) (id : Bytes) (beats : List Beat) (s : Tables × Queue) (r : DeviceRow)
    → AllIn (λ b. b.report.hardware_id ≡ hardware_id) beats
    → find_device id s.0 ≡ some r
    → r.conflict ≡ false
    → (str_eq r.pending_hardware_id "" || str_eq r.pending_hardware_id hardware_id) ≡ true
    → (r' : DeviceRow) × (find_device id (run_beats id beats s).0 ≡ some r') × (r'.conflict ≡ false)
run_beats-OneMachine hardware_id id beats s r all found calm waits =
    let (r', found', kept) =
      run_beats_row (OneMachine hardware_id) (λ b. b.report.hardware_id ≡ hardware_id) id beats s r
        (beat_row-OneMachine hardware_id) all found (calm, waits) in
    (r', found', kept.0)

-- A machine that the row does not know waits after its report, if it makes no conflict at once.
beat_row-waits :
    (b : Beat) (r : DeviceRow)
    → ltb max_acks (length b.report.acks) ≡ false
    → str_eq b.report.hardware_id "" ≡ false
    → str_eq r.hardware_id "" ≡ false
    → str_eq b.report.hardware_id r.hardware_id ≡ false
    → ((beat_row b r).conflict ≡ true)
      ⊎ (((beat_row b r).pending_hardware_id ≡ b.report.hardware_id)
          × ((beat_row b r).pending_hardware_at ≡ some b.now))
unfolding beat_row hardware_rules take_report
beat_row-waits b r few full known other =
    elim (Bool-cases (
      not (str_eq r.pending_hardware_id "")
      && not (str_eq r.pending_hardware_id b.report.hardware_id)
      && just_now b.now r.pending_hardware_at)) [
        | inl e ↦ inl (rw (few, full, known, e) refl)
        | inr e ↦ inr (rw (few, full, known, e, other) (refl, refl))
      ]

-- The next machine, if it is another one and comes soon.
beat_row-turn :
    (c : Beat) (r : DeviceRow) (t : ℕ)
    → ltb max_acks (length c.report.acks) ≡ false
    → str_eq c.report.hardware_id "" ≡ false
    → str_eq r.hardware_id "" ≡ false
    → str_eq r.pending_hardware_id "" ≡ false
    → str_eq r.pending_hardware_id c.report.hardware_id ≡ false
    → r.pending_hardware_at ≡ some t
    → c.now < t + clone_window
    → (beat_row c r).conflict ≡ true
unfolding beat_row hardware_rules take_report
beat_row-turn c r t few full known waits turn since soon =
    rw (few, full, known, waits, turn, since, lt→ltb c.now (t + clone_window) soon) refl

-- When a machine that the row does not know reports, and then within ten minutes another one, the
-- row is in conflict, and the hardware ID that it has is the one from before.
pub run_beats_turns :
    (id : Bytes) (b c : Beat) (s : Tables × Queue) (r : DeviceRow)
    → find_device id s.0 ≡ some r
    → ltb max_acks (length b.report.acks) ≡ false
    → ltb max_acks (length c.report.acks) ≡ false
    → str_eq r.hardware_id "" ≡ false
    → str_eq b.report.hardware_id "" ≡ false
    → str_eq c.report.hardware_id "" ≡ false
    → str_eq b.report.hardware_id r.hardware_id ≡ false
    → str_eq b.report.hardware_id c.report.hardware_id ≡ false
    → c.now < b.now + clone_window
    → (r' : DeviceRow) × (find_device id (run_beats id (b ∷ c ∷ []) s).0 ≡ some r')
      × (r'.conflict ≡ true)
      × (r'.hardware_id ≡ r.hardware_id)
unfolding run_beats
run_beats_turns id b c s r found few few' known full full' other turn soon =
    let x = beat_row b r in
    let same : x.hardware_id ≡ r.hardware_id = beat_row-hardware b r known in
    let known' : str_eq x.hardware_id "" ≡ false =
      subst (λ h. str_eq h "" ≡ false) (sym same) known in
    (
      beat_row c x,
      find-heartbeat id c _ x (find-heartbeat id b s r found),
      elim (beat_row-waits b r few full known other) [
        | inl e ↦ (beat_row-conflict c x e).0
        | inr (waits, since) ↦
            beat_row-turn c x b.now few' full' known'
              (subst (λ h. str_eq h "" ≡ false) (sym waits) full)
              (subst (λ h. str_eq h c.report.hardware_id ≡ false) (sym waits) turn) since soon
      ],
      beat_row-hardware c x known' ∙ same,
    )
