-- ===== src/Server/Enroll/Soundness/Rules.antt =====
-- The rules of an enrolment keep the warnings of the pending list right.
use portapixel.Prelude.{
  if-case, ℕ, refl, inl, inr, String, Bool, true, not, ◌&&◌, List, ◌==◌, if◌then◌else◌, Bool-cases,
}
use portapixel.Server.Table.{update_where, has_where}
use portapixel.Server.Rows.{DeviceRow, Tables, Ensures, is_device, find_device}
use portapixel.Server.Enroll.{
  Request, Visit, sweep_pending, report, is_new, in_group, new_device, upsert_device,
}
use portapixel.Server.Enroll.Invariant.{Stable-enroll}
use portapixel.Server.Enroll.Rules.{poll, enroll}
use portapixel.Server.Enroll.Warned.{
  Sound, Mild, Sound-devices, Sound-drop_pendings, Sound-pendings, Sound-add_device,
}
use portapixel.Server.Enroll.Soundness.{
  has-unpaired, Sound-make_pending, Sound-touch_enrolled, Sound-pair_row,
}

module _ (req : Request) where
  Mild-report : (ip : String) → Mild (report req ip)
  unfolding report
  Mild-report ip = record { id = λ r. refl; ever = λ r. refl }

  pub Sound-upsert_device :
      (ip : String) (now group : ℕ) (take_group : Bool) (d : Tables)
      → Sound d
      → Sound (upsert_device req ip now group take_group d)
  unfolding upsert_device new_device
  Sound-upsert_device ip now group take_group d s =
      let fresh = is_new req.device_id in
      let reported = update_where fresh (report req ip) d.devices in
      let first = Sound-devices fresh (report req ip) d (Mild-report ip) s in
      let moved = update_where fresh (in_group group) reported in
      let grouped : List DeviceRow = if take_group && not (group == 0) then moved else reported in
      let second : Sound (record d { devices = grouped }) =
        if-case (λ (rows : List DeviceRow). Sound (record d { devices = rows }))
          (take_group && not (group == 0)) moved reported
          (λ e.
            Sound-devices fresh (in_group group) (record d { devices = reported })
              (record { id = λ r. refl; ever = λ r. refl }) first)
          (λ e. first) in
      let row = new_device req ip now group in
      if-case Sound (has_where fresh d.devices) _ _ (λ e. second)
        (λ e. elim (Bool-cases (has_where (is_device req.device_id) d.devices)) [
          | inl k ↦ rw k s
          | inr k ↦ rw k (Sound-add_device row d refl k s)
        ])

module _ (hash : String → String) (req : Request) (v : Visit) where
  pub Sound-enroll : (d : Tables) → Sound d → Ensures (λ a. Sound a.tables) (enroll hash req v d)
  unfolding sweep_pending poll find_device
  Sound-enroll d s =
      Stable-enroll hash req v Sound
        (record {
          sweep = λ t g. Sound-drop_pendings _ t g;
          touch = Sound-touch_enrolled hash req v;
          pair = Sound-pair_row hash req v;
          upsert = λ group t g. Sound-upsert_device req v.ip v.now group true t g;
          count = λ id t g. record { ids = g.ids; keys = g.keys; warned = g.warned };
          asks = λ id t g.
              Sound-pendings _ (poll req v) t
                (record { key = λ q. refl; device = λ q. refl; warning = λ q. refl }) g;
          queues = λ id collides t fits g.
              Sound-make_pending hash req v id collides t
                (λ e. has-unpaired req.device_id t.devices g.ids (fits e)) g;
        })
        d s
