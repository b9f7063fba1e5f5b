-- ===== src/Server/Enroll/Warned.antt =====
-- The warning of a request that asks to be a screen that works.
use portapixel.Prelude.{
  AllIn, ◌≡◌, ap, arith, Bool, true, false, ◌&&◌, List, [], ◌∷◌, ◌++◌, ◌==◌, is_empty, Bytes,
  bytes_eq,
}
use portapixel.Server.Table.{
  update_where, select_where, has_where, All-update_where, All-select_where, All-map,
}
use portapixel.Server.Table.Keys.{
  has-update_where, has-select_where, has-snoc, Distinct, Distinct-update_where,
  Distinct-select_where, Distinct-snoc,
}
use portapixel.Server.Rows.{DeviceRow, PendingRow, Tables, is_device}
use portapixel.Server.Enroll.Waiting.{bytes_eq-swap}

abbrev pub same_id : DeviceRow → DeviceRow → Bool
same_id r x = is_device r.id x

abbrev pub same_key : PendingRow → PendingRow → Bool
same_key p q = q.id == p.id

-- A row of this device that was ever paired.
abbrev pub is_screen : Bytes → DeviceRow → Bool
is_screen id r = is_device id r && r.ever_paired

-- A request without the warning does not ask to be a screen that was ever paired.
abbrev pub Warned : List DeviceRow → PendingRow → Type 0
Warned devices p =
    is_empty p.collides_with ≡ true → has_where (is_screen p.device_id) devices ≡ false

pub record Sound (d : Tables) : Type 0 where
  pub ids : Distinct same_id d.devices
  pub keys : Distinct same_key d.pendings
  pub warned : AllIn (Warned d.devices) d.pendings

-- A change of a device that leaves the ID and the history of pairings alone.
pub record Mild (change : DeviceRow → DeviceRow) : Type 0 where
  pub id : (r : DeviceRow) → (change r).id ≡ r.id
  pub ever : (r : DeviceRow) → (change r).ever_paired ≡ r.ever_paired

-- A change of a request that leaves the key, the device and the warning alone.
pub record Steady (change : PendingRow → PendingRow) : Type 0 where
  pub key : (p : PendingRow) → (change p).id ≡ p.id
  pub device : (p : PendingRow) → (change p).device_id ≡ p.device_id
  pub warning : (p : PendingRow) → (change p).collides_with ≡ p.collides_with

pub Distinct-ids :
    (test : DeviceRow → Bool) (change : DeviceRow → DeviceRow) (rows : List DeviceRow)
    → ((r : DeviceRow) → (change r).id ≡ r.id)
    → Distinct same_id rows
    → Distinct same_id (update_where test change rows)
Distinct-ids test change rows same d =
    Distinct-update_where same_id test change rows (λ x y. ap (λ i. bytes_eq i y.id) (same x))
      (λ x y. ap (λ i. bytes_eq y.id i) (same x)) d

pub Distinct-keys :
    (test : PendingRow → Bool) (change : PendingRow → PendingRow) (rows : List PendingRow)
    → ((p : PendingRow) → (change p).id ≡ p.id)
    → Distinct same_key rows
    → Distinct same_key (update_where test change rows)
Distinct-keys test change rows same d =
    Distinct-update_where same_key test change rows (λ x y. ap (λ i. i == y.id) (same x))
      (λ x y. ap (λ i. y.id == i) (same x)) d

pub Sound-devices :
    (test : DeviceRow → Bool) (change : DeviceRow → DeviceRow) (d : Tables)
    → Mild change
    → Sound d
    → Sound (record d { devices = update_where test change d.devices })
Sound-devices test change d w s = record {
  ids = Distinct-ids test change d.devices w.id s.ids;
  keys = s.keys;
  warned =
      All-map (Warned d.devices) (Warned (update_where test change d.devices)) d.pendings
        (λ p h e.
          rw
            (has-update_where (is_screen p.device_id) test change d.devices
              (λ x t. rw (w.id x, w.ever x)))
            (h e))
        s.warned;
}

pub Sound-drop_devices :
    (test : DeviceRow → Bool) (d : Tables)
    → Sound d
    → Sound (record d { devices = select_where test d.devices })
Sound-drop_devices test d s = record {
  ids = Distinct-select_where same_id test d.devices s.ids;
  keys = s.keys;
  warned =
      All-map (Warned d.devices) (Warned (select_where test d.devices)) d.pendings
        (λ p h e. has-select_where (is_screen p.device_id) test d.devices (h e)) s.warned;
}

pub Sound-drop_pendings :
    (test : PendingRow → Bool) (d : Tables)
    → Sound d
    → Sound (record d { pendings = select_where test d.pendings })
Sound-drop_pendings test d s = record {
  ids = s.ids;
  keys = Distinct-select_where same_key test d.pendings s.keys;
  warned = All-select_where (Warned d.devices) test d.pendings s.warned;
}

pub Sound-pendings :
    (test : PendingRow → Bool) (change : PendingRow → PendingRow) (d : Tables)
    → Steady change
    → Sound d
    → Sound (record d { pendings = update_where test change d.pendings })
Sound-pendings test change d w s = record {
  ids = s.ids;
  keys = Distinct-keys test change d.pendings w.key s.keys;
  warned =
      All-update_where (Warned d.devices) test change d.pendings
        (λ p t h e. rw (w.device p) (h (rw (w.warning p) at e))) s.warned;
}

-- A row that was never paired is added under an ID that no row has.
pub Sound-add_device :
    (r : DeviceRow) (d : Tables)
    → r.ever_paired ≡ false
    → has_where (is_device r.id) d.devices ≡ false
    → Sound d
    → Sound (record d { devices = d.devices ++ r ∷ [] })
Sound-add_device r d fresh new s = record {
  ids = Distinct-snoc same_id d.devices r (λ x y. bytes_eq-swap y.id x.id) new s.ids;
  keys = s.keys;
  warned =
      All-map (Warned d.devices) (Warned (d.devices ++ r ∷ [])) d.pendings
        (λ p h e. ground (arith, has-snoc (is_screen p.device_id) d.devices r, h e, fresh))
        s.warned;
}
