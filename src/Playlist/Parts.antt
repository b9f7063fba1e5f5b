-- ===== src/Playlist/Parts.antt =====
-- The parts of a clean path.
use portapixel.Prelude.{
  AllIn, ◌≡◌, refl, sym, subst, ◌⊎◌, arith, inl, inr, false, ◌||◌, List, [], ◌∷◌, ◌++◌, is_empty,
  Bytes, bytes_eq_iff,
}
use mathlib.Core.List.{reverse, reverse-cons}
use portapixel.Playlist.Paths.{split, join, dot, dotdot, or_dot, has_char, has_part}
use portapixel.Playlist.Cleaned.{NoSlash, Plain, split-join, AllIn-reverse, Cleaned}

NoSlash-dotdot : (p : Bytes) → p ≡ dotdot → NoSlash p
unfolding has_char
NoSlash-dotdot p same = subst NoSlash (sym same) refl

NoSlash-steps : (stack : List Bytes) → AllIn (λ p. p ≡ dotdot) stack → AllIn NoSlash stack
NoSlash-steps [] a = tt
NoSlash-steps (p ∷ stack) a = (NoSlash-dotdot p a.0, NoSlash-steps stack a.1)

is_empty-snoc : (xs : List Bytes) (x : Bytes) → is_empty (xs ++ x ∷ []) ≡ false
is_empty-snoc [] x = refl
is_empty-snoc (y ∷ xs) x = refl

NoSlash-Cleaned : (stack : List Bytes) → Cleaned stack → AllIn NoSlash stack
NoSlash-Cleaned [] c = tt
NoSlash-Cleaned (p ∷ stack) (inl ((full, other, name, whole), rest)) =
    (whole, NoSlash-Cleaned stack rest)
NoSlash-Cleaned (p ∷ stack) (inr (same, steps)) = (NoSlash-dotdot p same, NoSlash-steps stack steps)

split-join_all :
    (parts : List Bytes) → is_empty parts ≡ false → AllIn NoSlash parts → split (join parts) ≡ parts
split-join_all [] h a = absurd (cc)
split-join_all (part ∷ parts) h a = split-join part parts a

is_empty-reverse : (part : Bytes) (parts : List Bytes) → is_empty (reverse (part ∷ parts)) ≡ false
is_empty-reverse part parts = rw (reverse-cons part parts) (is_empty-snoc (reverse parts) part)

-- The parts of a path that is clean.
pub split-or_dot :
    (file : Bytes) (stack : List Bytes)
    → Cleaned stack
    → or_dot stack ≡ file
    → (split file ≡ dot ∷ []) ⊎ (split file ≡ reverse stack)
unfolding split
split-or_dot file [] c h = inl (subst (λ f. split f ≡ dot ∷ []) h refl)
split-or_dot file (p ∷ stack) c h = inr (
    subst (λ f. split f ≡ reverse (p ∷ stack)) h
      (split-join_all (reverse (p ∷ stack)) (is_empty-reverse p stack)
        (AllIn-reverse NoSlash (p ∷ stack) (NoSlash-Cleaned (p ∷ stack) c))))

has_part-append :
    (part : Bytes) (xs ys : List Bytes)
    → has_part part (xs ++ ys) ≡ (has_part part xs || has_part part ys)
unfolding has_part
has_part-append part [] ys = refl
has_part-append part (x ∷ xs) ys = ground (arith, has_part-append part xs ys)

pub has_part-reverse :
    (part : Bytes) (xs : List Bytes) → has_part part (reverse xs) ≡ has_part part xs
unfolding has_part
has_part-reverse part [] = refl
has_part-reverse part (x ∷ xs) =
    rw (reverse-cons x xs)
      (ground (arith, has_part-append part (reverse xs) (x ∷ []), has_part-reverse part xs))

-- A clean path without a step up has plain names only.
pub Plain-Cleaned :
    (stack : List Bytes) → Cleaned stack → has_part dotdot stack ≡ false → AllIn Plain stack
unfolding has_part
Plain-Cleaned [] c h = tt
Plain-Cleaned (p ∷ stack) (inl (plain, rest)) h =
    (plain, Plain-Cleaned stack rest (ground (arith, h)))
Plain-Cleaned (p ∷ stack) (inr (same, steps)) h =
    absurd (ground (arith, h, (bytes_eq_iff p dotdot).1 same))
