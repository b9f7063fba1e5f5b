-- ===== src/Store/Fleet.antt =====
-- A reference to an object of the store is one that a playlist of the fleet may have.
use portapixel.Prelude.{
  AllIn, ℕ, zero, suc, ◌≡◌, refl, subst, arith, inl, inr, true, false, none, some, [], ◌∷◌, ◌++◌,
  ◌==◌, ==_iff, take, Bool-cases, if◌then◌else◌, Bytes, bytes, bytes_eq, bytes_eq_iff,
}
use portapixel.Playlist.Paths.{
  slash, split, join, dotdot, clean, clean_onto, clean_part, has_char, has_part, has_parent_step,
  fleet_ref, is_fleet_ref, bad_file_path,
}
use portapixel.Playlist.Cleaned.{split-join}
use portapixel.Store.{is_hex, all_hex, is_sha256, is_safe, safe_name, object_name}
use portapixel.Store.Bounds.{Within, Within-append, Within-safe_name}

abbrev Safe : Bytes → Type 0
Safe s = AllIn (λ c. is_safe c ≡ true) s

has_char-Safe : (k : ℕ) (s : Bytes) → is_safe k ≡ false → Safe s → has_char k s ≡ false
unfolding has_char
has_char-Safe k [] h a = refl
has_char-Safe k (c ∷ s) h a =
    let rest = has_char-Safe k s h a.1 in
    let other : (c == k) ≡ true → ⊥ = λ e.
      let same : c ≡ k = (==_iff c k).0 e in
      absurd (ground (arith, h, subst (λ x. is_safe x ≡ true) same a.0)) in
    ground (arith, rest, other)

split-fleet : (n : Bytes) → Safe n → split (fleet_ref n) ≡ dotdot ∷ bytes "media" ∷ n ∷ []
unfolding join has_char
split-fleet n a =
    split-join dotdot (bytes "media" ∷ n ∷ []) (refl, (refl, (has_char-Safe slash n refl a, tt)))

module _ (h : ℕ) (r : Bytes) (first : (h == b'.') ≡ false) (safe : Safe (h ∷ r)) where
  no_dot : (s : Bytes) → bytes_eq (h ∷ r) (b'.' ∷ s) ≡ false
  unfolding bytes_eq
  no_dot s = rw first refl

  clean-fleet : clean (fleet_ref (h ∷ r)) ≡ fleet_ref (h ∷ r)
  unfolding clean clean_onto clean_part join bytes_eq
  clean-fleet = rw (split-fleet (h ∷ r) safe, first) refl

  is_fleet_ref-fleet : is_fleet_ref (fleet_ref (h ∷ r)) ≡ true
  unfolding is_fleet_ref bytes_eq
  is_fleet_ref-fleet = rw (split-fleet (h ∷ r) safe, first) refl

  has_parent_step-fleet : has_parent_step (fleet_ref (h ∷ r)) ≡ true
  unfolding has_parent_step has_part bytes_eq
  has_parent_step-fleet = rw (split-fleet (h ∷ r) safe) refl

  no_backslash : has_char b'\\' (fleet_ref (h ∷ r)) ≡ false
  unfolding has_char
  no_backslash = has_char-Safe b'\\' (h ∷ r) refl safe

  no_colon : has_char b':' (fleet_ref (h ∷ r)) ≡ false
  unfolding has_char
  no_colon = has_char-Safe b':' (h ∷ r) refl safe

  bad_file_path-fleet : bad_file_path true (fleet_ref (h ∷ r)) ≡ none
  unfolding bad_file_path
  bad_file_path-fleet =
      let same = (bytes_eq_iff (clean (fleet_ref (h ∷ r))) (fleet_ref (h ∷ r))).1 clean-fleet in
      rw (no_backslash, no_colon, same, has_parent_step-fleet, is_fleet_ref-fleet) refl

hex-safe : (c : ℕ) → is_hex c ≡ true → is_safe c ≡ true
hex-safe c h = ground (arith, h)

Within-hex : (n : ℕ) (s : Bytes) → all_hex s ≡ true → Within n (take n s)
unfolding all_hex
Within-hex zero s h = (tt, omega arith)
Within-hex (suc n) [] h = (tt, omega arith)
Within-hex (suc n) (c ∷ s) h =
    let rest = Within-hex n s (ground (arith, h)) in
    ((hex-safe c (ground (arith, h)), rest.0), omega (arith, rest.1))

Within-object :
    (sha orig : Bytes) → all_hex sha ≡ true → Within 73 (take 8 sha ++ b'-' ∷ safe_name orig)
Within-object sha orig h =
    let named = Within-safe_name orig in
    Within-append 8 65 (take 8 sha) (b'-' ∷ safe_name orig) (Within-hex 8 sha h)
      ((refl, named.0), omega (arith, named.1))

object-Accepted :
    (sha orig : Bytes)
    → is_sha256 sha ≡ true
    → bad_file_path true (fleet_ref (take 8 sha ++ b'-' ∷ safe_name orig)) ≡ none
unfolding is_sha256 all_hex
object-Accepted [] orig h = absurd (ground (arith, h))
object-Accepted (c ∷ sha) orig h =
    bad_file_path-fleet c (take 7 sha ++ b'-' ∷ safe_name orig) (ground (arith, h))
      (Within-object (c ∷ sha) orig (ground (arith, h))).0

-- The name that the store gives to an object, whatever its hash and its old name are, has 73
-- characters at most, each a letter or a digit of ASCII, a full stop, a hyphen or an underscore; and
-- the reference to it is one that the validation of a fleet playlist accepts.
pub object_name-accepted :
    (sha orig name : Bytes)
    → object_name sha orig ≡ some name
    → Within 73 name × (bad_file_path true (fleet_ref name) ≡ none)
unfolding object_name is_sha256
object_name-accepted sha orig name h = elim (Bool-cases (is_sha256 sha)) [
  | inl e ↦
      some_name (take 8 sha ++ b'-' ∷ safe_name orig) name
        (Within-object sha orig (ground (arith, e)), object-Accepted sha orig e)
        (subst (λ b. (if b then some (take 8 sha ++ b'-' ∷ safe_name orig) else none) ≡ some name) e
          h)
  | inr e ↦ absurd (
      none_name name (
        subst (λ b. (if b then some (take 8 sha ++ b'-' ∷ safe_name orig) else none) ≡ some name) e
          h))
]
  where
    none_name : (name : Bytes) → none ≡ some name → ⊥
    none_name name e = absurd (cc)

    some_name :
        (made name : Bytes)
        → Within 73 made × (bad_file_path true (fleet_ref made) ≡ none)
        → some made ≡ some name
        → Within 73 name × (bad_file_path true (fleet_ref name) ≡ none)
    some_name made name ok e =
        subst (λ k. Within 73 k × (bad_file_path true (fleet_ref k) ≡ none)) (cc) ok
