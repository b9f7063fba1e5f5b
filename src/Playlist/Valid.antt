-- ===== src/Playlist/Valid.antt =====
-- What the validation of a playlist says.
use portapixel.Prelude.{
  AllIn, ℕ, suc, ◌≡◌, refl, ◌↔◌, arith, inl, inr, String, Bool, true, false, not, Option, none,
  some, List, [], ◌∷◌, ◌++◌, map, is_empty, Bool-cases, Bytes, bytes_eq, str_eq, is_negative,
}
use portapixel.Playlist.Paths.{PathError, bad_file_path}
use portapixel.Playlist.{
  Item, Playlist, FieldError, add_if, path_error, file_errors, unknown_transition, item_errors,
  items_errors, validate, unknown, has_ext, kind_of_ext, media_types, type_of, media_type,
}

-- What an item has to be.
pub record GoodItem (fleet : Bool) (it : Item) : Type 0 where
  pub named : is_empty it.file ≡ false
  pub file : bad_file_path fleet it.file ≡ none
  pub duration : is_negative it.duration ≡ false
  pub max_duration : is_negative it.max_duration ≡ false
  pub transition : unknown_transition it.transition ≡ false
  pub transition_ms : is_negative it.transition_ms ≡ false

append-nil : (xs ys : List FieldError) → ((xs ++ ys) ≡ []) ↔ ((xs ≡ []) × (ys ≡ []))
append-nil [] ys = (λ e. (refl, e), λ p. p.1)
append-nil (x ∷ xs) ys = (λ e. absurd (cc), λ p. absurd (let e = p.0 in cc))

add_if-nil : (b : Bool) (e : FieldError) → (add_if b e ≡ []) ↔ (b ≡ false)
add_if-nil true e = (λ h. absurd (cc), λ h. absurd (cc))
add_if-nil false e = (λ h. refl, λ h. refl)

path_error-nil : (i : ℕ) (o : Option PathError) → (path_error i o ≡ []) ↔ (o ≡ none)
path_error-nil i none = (λ h. refl, λ h. refl)
path_error-nil i (some e) = (λ h. absurd (cc), λ h. absurd (cc))

file_errors-nil :
    (fleet : Bool) (i : ℕ) (it : Item)
    → (file_errors fleet i it ≡ [])
      ↔ ((is_empty it.file ≡ false) × (bad_file_path fleet it.file ≡ none))
unfolding file_errors
file_errors-nil fleet i it = elim (Bool-cases (is_empty it.file)) [
  | inl e ↦ (λ h. absurd (let k = rw e at h in cc), λ p. absurd (let f = p.0 in cc))
  | inr e ↦ (
    λ h. (e, (path_error-nil i (bad_file_path fleet it.file)).0 (rw e at h)),
    λ p. rw e ((path_error-nil i (bad_file_path fleet it.file)).1 p.1),
  )
]

item_errors-nil :
    (fleet : Bool) (i : ℕ) (it : Item) → (item_errors fleet i it ≡ []) ↔ GoodItem fleet it
unfolding item_errors
item_errors-nil fleet i it =
    let files = file_errors fleet i it in
    (
      λ h.
          let (f, h1) = (append-nil files _).0 h in
          let (d, h2) = (append-nil (add_if (is_negative it.duration) _) _).0 h1 in
          let (m, h3) = (append-nil (add_if (is_negative it.max_duration) _) _).0 h2 in
          let (t, s) = (append-nil (add_if (unknown_transition it.transition) _) _).0 h3 in
          record {
            named = ((file_errors-nil fleet i it).0 f).0;
            file = ((file_errors-nil fleet i it).0 f).1;
            duration = (add_if-nil (is_negative it.duration) _).0 d;
            max_duration = (add_if-nil (is_negative it.max_duration) _).0 m;
            transition = (add_if-nil (unknown_transition it.transition) _).0 t;
            transition_ms = (add_if-nil (is_negative it.transition_ms) _).0 s;
          },
      λ g.
          rw
            (
              (file_errors-nil fleet i it).1 (g.named, g.file),
              g.duration,
              g.max_duration,
              g.transition,
              g.transition_ms,
            )
            refl,
    )

items_errors-nil :
    (fleet : Bool) (i : ℕ) (items : List Item)
    → (items_errors fleet i items ≡ []) ↔ AllIn (GoodItem fleet) items
unfolding items_errors
items_errors-nil fleet i [] = (λ h. tt, λ a. refl)
items_errors-nil fleet i (it ∷ items) =
    let rest = items_errors-nil fleet (suc i) items in
    (
      λ h.
          let (own, others) = (append-nil (item_errors fleet i it) _).0 h in
          ((item_errors-nil fleet i it).0 own, rest.0 others),
      λ a.
          (append-nil (item_errors fleet i it) _).1
            ((item_errors-nil fleet i it).1 a.0, rest.1 a.1),
    )

-- The validation finds nothing exactly for a playlist that has an item, a known transition or none,
-- and whose items each have a file reference that is permitted, a known transition or none, and no
-- number below zero.
pub validate_iff :
    (fleet : Bool) (p : Playlist)
    → (validate fleet p ≡ []) ↔ (
        (unknown_transition p.meta.transition ≡ false)
        × (is_empty p.items ≡ false)
        × AllIn (GoodItem fleet) p.items)
unfolding validate
validate_iff fleet p =
    let rest = items_errors-nil fleet 0 p.items in
    (
      λ h.
          let (t, h1) = (append-nil (add_if (unknown_transition p.meta.transition) _) _).0 h in
          let (n, items) = (append-nil (add_if (is_empty p.items) _) _).0 h1 in
          (
            (add_if-nil (unknown_transition p.meta.transition) _).0 t,
            (add_if-nil (is_empty p.items) _).0 n,
            rest.0 items,
          ),
      λ (t, n, a). rw (t, n) (rest.1 a),
    )

type_of-has_ext :
    (types : List (Bytes × String)) (ext : Bytes)
    → AllIn (λ t. str_eq t.1 "" ≡ false) types
    → str_eq (type_of types ext) "" ≡ not (has_ext (map (λ t. t.0) types) ext)
unfolding type_of has_ext
type_of-has_ext [] ext a = refl
type_of-has_ext ((e, word) ∷ types) ext a = elim (Bool-cases (bytes_eq e ext)) [
  | inl own ↦ rw own a.0
  | inr other ↦ rw other (type_of-has_ext types ext a.1)
]

-- Each extension that Kind knows has a media type, and no other has one.
media_type-kind_of_ext :
    (ext : Bytes) → (str_eq (media_type ext) "" ≡ true) ↔ (kind_of_ext ext ≡ unknown)
unfolding media_type kind_of_ext has_ext
media_type-kind_of_ext ext = ground (
  arith,
  type_of-has_ext media_types ext (
    refl,
    (
      refl,
      (refl, (refl, (refl, (refl, (refl, (refl, (refl, (refl, (refl, (refl, (refl, tt))))))))))),
    ),
  ),
)
