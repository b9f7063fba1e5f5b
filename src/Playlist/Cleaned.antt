-- ===== src/Playlist/Cleaned.antt =====
-- The parts of a clean path.
use portapixel.Prelude.{
  AllIn, ℕ, ◌≡◌, refl, ap, ◌∙◌, ◌⊎◌, arith, inl, inr, false, ◌||◌, List, [], ◌∷◌, ◌++◌, ◌==◌,
  is_empty, Bool-cases, Bytes, bytes_eq,
}
use mathlib.Core.List.{reverse, reverse-cons}
use portapixel.Playlist.Paths.{
  slash, onto_part, split, join, dot, dotdot, step_up, clean_part, clean_onto, has_char,
}

abbrev pub NoSlash : Bytes → Type 0
NoSlash part = has_char slash part ≡ false

-- A name of a directory entry.
abbrev pub Plain : Bytes → Type 0
Plain part =
    (is_empty part ≡ false)
    × (bytes_eq part dot ≡ false)
    × (bytes_eq part dotdot ≡ false)
    × NoSlash part

onto_part-NoSlash :
    (c : ℕ) (parts : List Bytes)
    → (c == slash) ≡ false
    → AllIn NoSlash parts
    → AllIn NoSlash (onto_part c parts)
unfolding has_char
onto_part-NoSlash c [] e a = (ground (arith, e), tt)
onto_part-NoSlash c (part ∷ parts) e a = (ground (arith, e, a.0), a.1)

pub split-NoSlash : (cs : Bytes) → AllIn NoSlash (split cs)
unfolding split has_char
split-NoSlash [] = (refl, tt)
split-NoSlash (c ∷ cs) = elim (Bool-cases (c == slash)) [
  | inl e ↦ rw e (refl, split-NoSlash cs)
  | inr e ↦ rw e (onto_part-NoSlash c (split cs) e (split-NoSlash cs))
]

pub split-append : (part cs : Bytes) → NoSlash part → split (part ++ slash ∷ cs) ≡ part ∷ split cs
unfolding split has_char
split-append [] cs h = refl
split-append (c ∷ part) cs h =
    rw (split-append part cs (ground (arith, h)))
      (let out : (c == slash) ≡ false = ground (arith, h) in rw out refl)

split-whole : (part : Bytes) → NoSlash part → split part ≡ part ∷ []
unfolding split has_char
split-whole [] h = refl
split-whole (c ∷ part) h =
    rw (split-whole part (ground (arith, h)))
      (let out : (c == slash) ≡ false = ground (arith, h) in rw out refl)

-- What is joined comes apart again.
pub split-join :
    (part : Bytes) (parts : List Bytes)
    → AllIn NoSlash (part ∷ parts)
    → split (join (part ∷ parts)) ≡ part ∷ parts
unfolding join
split-join part [] a = split-whole part a.0
split-join part (other ∷ parts) a =
    split-append part (join (other ∷ parts)) a.0 ∙ ap (λ l. part ∷ l) (split-join other parts a.1)

AllIn-append :
    (P : Bytes → Type 0) (xs ys : List Bytes) → AllIn P xs → AllIn P ys → AllIn P (xs ++ ys)
AllIn-append P [] ys a b = b
AllIn-append P (x ∷ xs) ys a b = (a.0, AllIn-append P xs ys a.1 b)

pub AllIn-reverse : (P : Bytes → Type 0) (xs : List Bytes) → AllIn P xs → AllIn P (reverse xs)
AllIn-reverse P [] a = tt
AllIn-reverse P (x ∷ xs) a =
    rw (reverse-cons x xs) (AllIn-append P (reverse xs) (x ∷ []) (AllIn-reverse P xs a.1) (a.0, tt))

-- The parts of a clean path, the last one first: plain names, and below them steps up.
abbrev pub Cleaned : List Bytes → Type 0
Cleaned [] = Unit
Cleaned (part ∷ before) =
    (Plain part × Cleaned before) ⊎ ((part ≡ dotdot) × AllIn (λ p. p ≡ dotdot) before)

Cleaned-steps : (stack : List Bytes) → AllIn (λ p. p ≡ dotdot) stack → Cleaned stack
Cleaned-steps [] a = tt
Cleaned-steps (p ∷ stack) a = inr a

Cleaned-step_up : (stack : List Bytes) → Cleaned stack → Cleaned (step_up stack)
Cleaned-step_up [] c = inr (refl, tt)
Cleaned-step_up (last ∷ before) c = elim (Bool-cases (bytes_eq last dotdot)) [
  | inl e ↦ rw e (elim c [
    | inl ((full, other, name, plain), rest) ↦ absurd (ground (arith, e, name))
    | inr (same, steps) ↦ inr (refl, (same, steps))
  ])
  | inr e ↦
      rw e (elim c [ inl (plain, rest) ↦ rest | inr (same, steps) ↦ Cleaned-steps before steps ])
]

Cleaned-clean_part :
    (stack : List Bytes) (part : Bytes)
    → NoSlash part
    → Cleaned stack
    → Cleaned (clean_part stack part)
unfolding clean_part
Cleaned-clean_part stack part whole c = elim (Bool-cases (is_empty part || bytes_eq part dot)) [
  | inl e ↦ rw e c
  | inr e ↦ elim (Bool-cases (bytes_eq part dotdot)) [
    | inl up ↦ rw (e, up) (Cleaned-step_up stack c)
    | inr name ↦ rw (e, name) (inl ((ground (arith, e), ground (arith, e), name, whole), c))
  ]
]

pub Cleaned-clean_onto :
    (stack parts : List Bytes)
    → AllIn NoSlash parts
    → Cleaned stack
    → Cleaned (clean_onto stack parts)
unfolding clean_onto
Cleaned-clean_onto stack [] a c = c
Cleaned-clean_onto stack (part ∷ parts) a c =
    Cleaned-clean_onto (clean_part stack part) parts a.1 (Cleaned-clean_part stack part a.0 c)
