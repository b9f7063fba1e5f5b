-- ===== src/Server/Rows.antt =====
-- The tables of internal/server/db/schema.sql that enrolment reads and writes, and the outcome of a
-- transaction. A device row has no more columns here than those that enroll.go, devices.go and the
-- rules of D21 in heartbeat.go touch, but for the settings of a device; a token row has no prefix.
-- A time is a number of seconds, `none` where a table holds the empty text; a group of 0 is NULL.
use portapixel.Prelude.{
  ℕ, ◌*◌, String, Bool, true, false, not, Option, none, some, List, [], ◌∷◌, max, Bytes, bytes_eq,
}
use portapixel.Server.Table.{find_where}

abbrev pub pending_life : ℕ
pending_life = 24 * 3600

abbrev pub approved_life : ℕ
approved_life = 30 * 24 * 3600

abbrev pub max_pending : ℕ
max_pending = 200

pub record DeviceRow : Type 0 where
  pub id : Bytes
  pub name : List ℕ
  pub group : ℕ
  pub token_hash : String
  pub hardware_id : String
  pub ever_paired : Bool
  pub needs_confirm : Bool
  pub pending_hardware_id : String
  pub pending_hardware_at : Option ℕ
  pub conflict : Bool
  pub conflict_hardware_id : String
  pub version : String
  pub status : String
  pub sync_error : String
  pub last_ip : String
  pub created_at : ℕ
  pub paired_at : Option ℕ
  pub last_seen : Option ℕ

pub record PendingRow : Type 0 where
  pub id : ℕ
  pub claim_hash : String
  pub pairing_code : Bytes
  pub device_id : Bytes
  pub hardware_id : String
  pub name : List ℕ
  pub version : String
  pub ip : String
  pub token_id : ℕ
  pub collides_with : Bytes
  pub created_at : ℕ
  pub last_poll_at : ℕ
  pub approved_at : Option ℕ

pub data Mode : Type 0 where
  auto manual : Mode

pub record TokenRow : Type 0 where
  pub id : ℕ
  pub name : List ℕ
  pub token_hash : String
  pub mode : Mode
  pub group : ℕ
  pub expires_at : Option ℕ
  pub max_uses : ℕ
  pub uses : ℕ
  pub revoked : Bool
  pub created_at : ℕ

pub record Tables : Type 0 where
  pub devices : List DeviceRow
  pub pendings : List PendingRow
  pub tokens : List TokenRow
  pub groups : List ℕ

pub data DbError : Type 0 where
  bad_token bad_device_id too_many_pending queue_limited no_free_code no_device_row : DbError
  not_pending not_found too_many_acks bad_mode bad_max_uses in_the_past constraint : DbError

-- What a transaction comes to. An error takes all its changes back.
pub data Result {ℓ} (A : Type ℓ) : Type ℓ where
  refused : DbError → Result A
  done : A → Result A

infixl 5 ◌>>=◌
abbrev pub ◌>>=◌ {ℓ κ} : {A : Type ℓ} {B : Type κ} → Result A → (A → Result B) → Result B
refused e >>= f = refused e
done a >>= f = f a

-- Whatever the transaction is done with has the property.
abbrev pub Ensures {ℓ κ} : {A : Type ℓ} → (A → Type κ) → Result A → Type κ
Ensures P (refused e) = Unit
Ensures P (done a) = P a

pub Ensures-bind {ℓ κ ℓ' κ'} :
    {A : Type ℓ} {B : Type ℓ'} (P : A → Type κ) (Q : B → Type κ') (m : Result A) (f : A → Result B)
    → Ensures P m
    → ((a : A) → P a → Ensures Q (f a))
    → Ensures Q (m >>= f)
Ensures-bind P Q (refused e) f h k = tt
Ensures-bind P Q (done a) f h k = k a h

abbrev pub is_set : Option ℕ → Bool
is_set none = false
is_set (some t) = true

abbrev pub is_device : Bytes → DeviceRow → Bool
is_device id r = bytes_eq r.id id

unfoldable pub find_device : Bytes → Tables → Option DeviceRow
find_device id d = find_where (is_device id) d.devices

-- `approved_at = ''`
abbrev pub is_waiting : PendingRow → Bool
is_waiting p = not (is_set p.approved_at)

-- The largest number of a key, from which SQLite makes the next one.
unfoldable pub last_pending : List PendingRow → ℕ
last_pending [] = 0
last_pending (p ∷ rows) = max p.id (last_pending rows)

unfoldable pub last_token : List TokenRow → ℕ
last_token [] = 0
last_token (t ∷ rows) = max t.id (last_token rows)
