-- ===== src/Updater/Version/Names.antt =====
-- What the comparison says of a prerelease, and the names that become files.
use portapixel.Prelude.{
  ℕ, ◌≡◌, ◌≢◌, ◌≤◌, ◌<◌, refl, ◌∙◌, ap, inl, inr, true, false, ◌||◌, ◌&&◌, Option, none, some, List,
  [], ◌∷◌, ◌++◌, arith, Bytes, bytes_eq, is_digit, ◌==◌, length, Bool-cases,
}
use mathlib.Core.List.{reverse, reverse-append}
use Prim.Native.Nat.{Ordering}
use portapixel.Manifest.Name.{
  trim_space, trim_space_fix, NoLeadingSpace, NoLeadingSpace-init, trim_space-NoLeadingSpace,
  NoLeadingSpace-reverse-trim_space, is_space,
}
use portapixel.Updater.Version.{
  trim_prefix, split_numbers, parse_fields, split_dots, with_rest, parse_text, starts_with_digit,
  compare_rests, compare_parsed, compare_versions, parse_version, trim_letter, normalize,
  allowed_in_version, all_allowed, starts_with_dot, valid_version,
}
use portapixel.Updater.Version.Newer.{same-compare_numbers}

split_numbers-append :
    (xs cs : Bytes) (c : ℕ)
    → (is_digit c || c == b'.') ≡ false
    → (split_numbers xs).1 ≡ []
    → split_numbers (xs ++ c ∷ cs) ≡ ((split_numbers xs).0, c ∷ cs)
unfolding split_numbers
split_numbers-append [] cs c stop h = rw stop
split_numbers-append (x ∷ xs) cs c stop h = elim (Bool-cases (is_digit x || x == b'.')) [
  | inl e ↦ rw (e, split_numbers-append xs cs c stop (rw e at h))
  | inr e ↦ absurd (ground arith)
]

with_rest-some :
    (o : Option (List ℕ)) (rest rest' : Bytes) (ns : List ℕ)
    → with_rest o rest ≡ some (ns, rest')
    → (rest ≡ rest') × ((cs : Bytes) → with_rest o cs ≡ some (ns, cs))
unfolding with_rest
with_rest-some none rest rest' ns h = absurd (ground arith)
with_rest-some (some []) rest rest' ns h = absurd (ground arith)
with_rest-some (some (m ∷ ms)) rest rest' ns h = (ground arith, λ cs. ground arith)

parse_text-append :
    (text cs : Bytes) (c : ℕ) (ns : List ℕ)
    → (is_digit c || c == b'.') ≡ false
    → parse_text text ≡ some (ns, [])
    → parse_text (text ++ c ∷ cs) ≡ some (ns, c ∷ cs)
unfolding parse_text starts_with_digit
parse_text-append [] cs c ns stop h = absurd (ground arith)
parse_text-append (x ∷ xs) cs c ns stop h = elim (Bool-cases (is_digit x)) [
  | inl e ↦
      let (front, rest) = split_numbers (x ∷ xs) in
      let (none_left, found) =
        with_rest-some (parse_fields (split_dots front)) rest [] ns (rw e at h) in
      rw (e, split_numbers-append (x ∷ xs) cs c stop none_left) (found (c ∷ cs))
  | inr e ↦ absurd (ground arith)
]

parse_text-empty : (ns : List ℕ) → parse_text [] ≢ some (ns, [])
unfolding parse_text starts_with_digit
parse_text-empty ns h = ground arith

trim_prefix-append :
    (p x : ℕ) (xs cs : Bytes) → trim_prefix p (x ∷ xs ++ cs) ≡ trim_prefix p (x ∷ xs) ++ cs
trim_prefix-append p x xs cs = ground arith

parse_version-append :
    (name cs : Bytes) (c : ℕ) (ns : List ℕ)
    → trim_space name ≡ name
    → trim_space (name ++ c ∷ cs) ≡ name ++ c ∷ cs
    → (is_digit c || c == b'.') ≡ false
    → parse_version name ≡ some (ns, [])
    → parse_version (name ++ c ∷ cs) ≡ some (ns, c ∷ cs)
unfolding parse_version
parse_version-append [] cs c ns plain whole stop h = absurd (parse_text-empty ns (rw plain at h))
parse_version-append (x ∷ xs) cs c ns plain whole stop h =
    rw (whole, trim_prefix-append b'v' x xs (c ∷ cs))
      (parse_text-append (trim_prefix b'v' (x ∷ xs)) cs c ns stop (rw plain at h))

-- A name of numbers only is newer than the same name with a suffix behind it.
compare_versions-suffix :
    (name cs : Bytes) (c : ℕ) (ns : List ℕ)
    → trim_space name ≡ name
    → trim_space (name ++ c ∷ cs) ≡ name ++ c ∷ cs
    → (is_digit c || c == b'.') ≡ false
    → parse_version name ≡ some (ns, [])
    → compare_versions (name ++ c ∷ cs) name ≡ Ordering.lt
unfolding compare_versions compare_parsed compare_rests bytes_eq
compare_versions-suffix name cs c ns plain whole stop h =
    rw (h, parse_version-append name cs c ns plain whole stop h, same-compare_numbers ns)

trim_letter-trimmed :
    (t : Bytes)
    → NoLeadingSpace t
    → NoLeadingSpace (reverse t)
    → trim_space (trim_letter t) ≡ trim_letter t
unfolding trim_letter is_space
trim_letter-trimmed [] left right = trim_space_fix [] left right
trim_letter-trimmed (c ∷ []) left right = trim_space_fix (c ∷ []) left right
trim_letter-trimmed (c ∷ d ∷ cs) left right =
    elim (Bool-cases ((c == b'v' || c == b'V') && is_digit d)) [
      | inl e ↦ rw e (
          trim_space_fix (d ∷ cs) (ground arith) (
            NoLeadingSpace-init (reverse (d ∷ cs)) c
              (rw (reverse-append (c ∷ []) (d ∷ cs)) at right)))
      | inr e ↦ rw e (trim_space_fix (c ∷ d ∷ cs) left right)
    ]

trim_letter-again : (t : Bytes) → trim_letter (trim_letter t) ≡ trim_letter t
unfolding trim_letter
trim_letter-again [] = refl
trim_letter-again (c ∷ []) = refl
trim_letter-again (c ∷ d ∷ []) = ground arith
trim_letter-again (c ∷ d ∷ e ∷ cs) = ground arith

normalize-trimmed : (name : Bytes) → trim_space (normalize name) ≡ normalize name
unfolding normalize
normalize-trimmed name =
    trim_letter-trimmed (trim_space name) (trim_space-NoLeadingSpace name)
      (NoLeadingSpace-reverse-trim_space name)

-- A text that does not start with a capital V.
abbrev pub NoCapital : Bytes → Type 0
NoCapital [] = Unit
NoCapital (c ∷ cs) = c ≢ b'V'

parse_text-trim_letter :
    (t : Bytes)
    → NoCapital t
    → parse_text (trim_prefix b'v' (trim_letter t)) ≡ parse_text (trim_prefix b'v' t)
unfolding trim_letter
parse_text-trim_letter [] h = refl
parse_text-trim_letter (c ∷ []) h = refl
parse_text-trim_letter (c ∷ d ∷ cs) h = ground arith

-- The normal form of a name is its own normal form, and unless the name starts with a capital V,
-- both are the same version to the comparison.
normalize-parse_version :
    (name : Bytes)
    → (normalize (normalize name) ≡ normalize name)
      × (NoCapital (trim_space name) → parse_version (normalize name) ≡ parse_version name)
unfolding normalize parse_version
normalize-parse_version name = (
  ap trim_letter (normalize-trimmed name) ∙ trim_letter-again (trim_space name),
  λ h.
      ap (λ t. parse_text (trim_prefix b'v' t)) (normalize-trimmed name)
      ∙ parse_text-trim_letter (trim_space name) h,
)

-- A name that a directory is made from.
pub IsPlain : Bytes → Type 0
IsPlain [] = Unit
IsPlain (c ∷ cs) = (c ≢ b'/') × (c ≢ b'\\') × (0x20 < c) × (c < 0x7f) × IsPlain cs

IsPlain-all_allowed : (name : Bytes) → all_allowed name ≡ true → IsPlain name
unfolding all_allowed allowed_in_version IsPlain
IsPlain-all_allowed [] h = tt
IsPlain-all_allowed (c ∷ cs) h =
    let rest = IsPlain-all_allowed cs (ground arith) in
    (ground arith, ground arith, ground arith, ground arith, rest)

-- A valid name has 1 to 64 visible ASCII characters, no separator among them, and the first is not
-- a full stop.
valid_version-IsPlain :
    (name : Bytes)
    → valid_version name ≡ true
    → (0 < length name) × (length name ≤ 64) × (starts_with_dot name ≡ false) × IsPlain name
unfolding valid_version
valid_version-IsPlain [] h = absurd (ground arith)
valid_version-IsPlain (c ∷ cs) h =
    (omega arith, ground arith, ground arith, IsPlain-all_allowed (c ∷ cs) (ground arith))
