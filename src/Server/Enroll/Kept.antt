-- ===== src/Server/Enroll/Kept.antt =====
-- The row of a screen that a statement leaves alone.
use portapixel.Prelude.{
  if-case, ℕ, String, Bool, true, false, not, ◌&&◌, some, List, ◌≡◌, refl, arith, ◌==◌,
}
use portapixel.Server.Table.{update_where, find_where, has_where, find-update_where, find-snoc}
use portapixel.Server.Rows.{DeviceRow, Tables, is_device, find_device}
use portapixel.Server.Enroll.{Request, report, is_new, in_group, upsert_device}

-- The row of a screen is as it was.
abbrev pub Kept : DeviceRow → Tables → Type 0
Kept r d = find_device r.id d ≡ some r

module _ (req : Request) (r : DeviceRow) where
  -- No rule writes to a row that was paired when it takes a row in.
  pub Kept-upsert_device :
      (ip : String) (now group : ℕ) (take_group : Bool) (d : Tables)
      → r.ever_paired ≡ true
      → Kept r d
      → Kept r (upsert_device req ip now group take_group d)
  unfolding find_device upsert_device report
  Kept-upsert_device ip now group take_group d was h =
      let K : Tables → Type 0 = Kept r in
      let out : is_new req.device_id r ≡ false = ground (arith, was) in
      let reported = update_where (is_new req.device_id) (report req ip) d.devices in
      let first =
        find-update_where (is_device r.id) r (is_new req.device_id) (report req ip) d.devices
          (λ x. refl) out h in
      let grouped =
        if-case (λ (rows : List DeviceRow). find_where (is_device r.id) rows ≡ some r)
          (take_group && not (group == 0)) _ _
          (λ e.
            find-update_where (is_device r.id) r (is_new req.device_id) (in_group group) reported
              (λ x. refl) out first)
          (λ e. first) in
      if-case K (has_where (is_new req.device_id) d.devices) _ _ (λ e. grouped)
        (λ e.
          if-case K (has_where (is_device req.device_id) d.devices) _ _ (λ k. h)
            (λ k. find-snoc (is_device r.id) r d.devices _ h))
