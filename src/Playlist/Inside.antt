-- ===== src/Playlist/Inside.antt =====
-- Where an accepted file reference leads.
use portapixel.Prelude.{
  AllIn, ◌≡◌, refl, sym, ap, ◌∙◌, subst, ◌⊎◌, arith, inl, inr, Bool, true, false, ◌||◌, none, List,
  [], ◌∷◌, ◌++◌, is_empty, get_or, if◌then◌else◌, Bool-cases, Bytes, bytes, bytes_eq, bytes_eq_iff,
}
use mathlib.Core.List.{reverse, reverse-cons, reverse-reverse, append_assoc}
use portapixel.Playlist.Paths.{
  slash, split, dot, dotdot, clean_onto, clean, has_part, has_parent_step, fleet_ref_prefix,
  fleet_parts, is_fleet_ref, bad_file_path,
}
use portapixel.Playlist.Cleaned.{
  NoSlash, Plain, split-NoSlash, split-append, AllIn-reverse, Cleaned, Cleaned-clean_onto,
}
use portapixel.Playlist.Parts.{split-or_dot, has_part-reverse, Plain-Cleaned}

abbrev up : List Bytes → List Bytes
up [] = []
up (name ∷ dir) = dir

abbrev step_into : List Bytes → Bytes → List Bytes
step_into dir part =
    if is_empty part || bytes_eq part dot
    then dir
    else if bytes_eq part dotdot
    then up dir
    else part ∷ dir

-- The file that a path names from a directory, as a path from the root with its last name first.
unfoldable pub walk : List Bytes → List Bytes → List Bytes
walk dir [] = dir
walk dir (part ∷ parts) = walk (step_into dir part) parts

step_into-Plain : (dir : List Bytes) (part : Bytes) → Plain part → step_into dir part ≡ part ∷ dir
step_into-Plain dir part (full, other, name, whole) = rw (full, other, name) refl

walk-Plain : (dir parts : List Bytes) → AllIn Plain parts → walk dir parts ≡ reverse parts ++ dir
unfolding walk
walk-Plain dir [] a = refl
walk-Plain dir (part ∷ parts) a = rw (step_into-Plain dir part a.0) (
    walk-Plain (part ∷ dir) parts a.1
    ∙ (rw (reverse-cons part parts) (sym (append_assoc (reverse parts) (part ∷ []) dir))))

-- Below the directory, or the directory itself.
abbrev pub Below : Bytes → Type 0
Below file =
    (names : List Bytes) × AllIn Plain names
    × ((dir : List Bytes) → walk dir (split file) ≡ names ++ dir)

-- An object of the store beside the directory.
abbrev pub InStore : Bytes → Type 0
InStore file =
    (name : Bytes) × Plain name
    × ((top : Bytes) (dir : List Bytes)
        → walk (top ∷ dir) (split file) ≡ name ∷ bytes "media" ∷ dir)

Below-parts :
    (file : Bytes) (stack : List Bytes)
    → split file ≡ reverse stack
    → AllIn Plain stack
    → Below file
Below-parts file stack parts plain = (
  stack,
  plain,
  λ dir. rw parts (
      walk-Plain dir (reverse stack) (AllIn-reverse Plain stack plain)
      ∙ ap (λ l. l ++ dir) (reverse-reverse stack)),
)

Below-dot : (file : Bytes) → split file ≡ dot ∷ [] → Below file
unfolding walk bytes_eq
Below-dot file parts = ([], tt, λ dir. rw parts refl)

-- The parts in front of the name of a fleet reference.
prefix_parts :
    (store_up store : Bytes)
    → NoSlash store_up
    → NoSlash store
    → bytes_eq (store_up ++ slash ∷ (store ++ slash ∷ [])) fleet_ref_prefix ≡ true
    → (store_up ≡ dotdot) × (store ≡ bytes "media")
unfolding split
prefix_parts store_up store whole whole' h =
    let text = store_up ++ slash ∷ (store ++ slash ∷ []) in
    let apart : split text ≡ store_up ∷ store ∷ [] ∷ [] =
      split-append store_up (store ++ slash ∷ []) whole
      ∙ ap (λ l. store_up ∷ l) (split-append store [] whole') in
    let same : store_up ∷ store ∷ [] ∷ [] ≡ dotdot ∷ bytes "media" ∷ [] ∷ [] =
      sym apart ∙ ap split ((bytes_eq_iff text fleet_ref_prefix).0 h) in
    (ap (λ l. get_or l 0 []) same, ap (λ l. get_or l 1 []) same)

fleet_parts-eq :
    (parts : List Bytes)
    → AllIn NoSlash parts
    → fleet_parts parts ≡ true
    → (name : Bytes) × (parts ≡ dotdot ∷ bytes "media" ∷ name ∷ []) × (bytes_eq name dotdot ≡ false)
fleet_parts-eq [] a h = absurd (cc)
fleet_parts-eq (x ∷ []) a h = absurd (cc)
fleet_parts-eq (x ∷ y ∷ []) a h = absurd (cc)
fleet_parts-eq (x ∷ y ∷ name ∷ []) a h =
    let (first, second) = prefix_parts x y a.0 a.1.0 (ground (arith, h)) in
    (
      name,
      ap (λ l. l ∷ y ∷ name ∷ []) first ∙ ap (λ l. dotdot ∷ l ∷ name ∷ []) second,
      ground (arith, h),
    )
fleet_parts-eq (x ∷ y ∷ name ∷ z ∷ parts) a h = absurd (cc)

-- In a clean path, what is no step up at the end is a plain name.
Plain-top :
    (name : Bytes) (stack : List Bytes)
    → Cleaned (name ∷ stack)
    → bytes_eq name dotdot ≡ false
    → Plain name
Plain-top name stack (inl (plain, rest)) h = plain
Plain-top name stack (inr (same, steps)) h =
    absurd (ground (arith, h, (bytes_eq_iff name dotdot).1 same))

InStore-parts :
    (file : Bytes) (stack : List Bytes)
    → Cleaned stack
    → split file ≡ reverse stack
    → fleet_parts (split file) ≡ true
    → InStore file
unfolding walk bytes_eq
InStore-parts file stack c parts h =
    let (name, same, no_step) = fleet_parts-eq (split file) (split-NoSlash file) h in
    let turned : stack ≡ name ∷ bytes "media" ∷ dotdot ∷ [] =
      sym (reverse-reverse stack) ∙ ap reverse (sym parts ∙ same) in
    let (full, other, no_step', whole) =
      Plain-top name (bytes "media" ∷ dotdot ∷ []) (subst Cleaned turned c) no_step in
    (name, (full, other, no_step', whole), λ top dir. rw (same, full, other, no_step') refl)

-- What an accepted reference passed.
bad_file_path-none :
    (fleet : Bool) (file : Bytes)
    → bad_file_path fleet file ≡ none
    → (clean file ≡ file)
      × (has_part dotdot (split file) ≡ true → (fleet ≡ true) × (fleet_parts (split file) ≡ true))
unfolding bad_file_path has_parent_step is_fleet_ref
bad_file_path-none fleet file h = (
  (bytes_eq_iff (clean file) file).0 (ground (arith, h)),
  λ above. (ground (arith, h, above), ground (arith, h, above)),
)

-- A file reference that the validation of a playlist accepts names a file below the directory of
-- the playlist, by plain names only, or the directory itself; or, where fleet references are
-- permitted, one file of the directory media beside it.
pub bad_file_path-Below :
    (fleet : Bool) (file : Bytes)
    → bad_file_path fleet file ≡ none
    → Below file ⊎ ((fleet ≡ true) × InStore file)
unfolding clean
bad_file_path-Below fleet file h =
    let stack = clean_onto [] (split file) in
    let c : Cleaned stack = Cleaned-clean_onto [] (split file) (split-NoSlash file) tt in
    let (whole, steps) = bad_file_path-none fleet file h in
    elim (split-or_dot file stack c whole) [
      | inl e ↦ inl (Below-dot file e)
      | inr e ↦ elim (Bool-cases (has_part dotdot (split file))) [
        | inl above ↦
            let (permitted, ref) = steps above in inr (permitted, InStore-parts file stack c e ref)
        | inr down ↦
            let plain : has_part dotdot stack ≡ false =
              sym (has_part-reverse dotdot stack) ∙ ap (has_part dotdot) (sym e) ∙ down in
            inl (Below-parts file stack e (Plain-Cleaned stack c plain))
      ]
    ]
