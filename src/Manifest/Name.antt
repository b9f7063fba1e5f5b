-- ===== src/Manifest/Name.antt =====
-- CleanName of internal/manifest/manifest.go, over the code points of a valid UTF-8 text.
mod Tests
use portapixel.Prelude.{
  ℕ, zero, suc, ◌+◌, ◌≤◌, ◌<◌, ◌≡◌, refl, ◌∙◌, ap, Bool, true, false, ◌&&◌, ◌||◌, Option, none,
  some, List, [], ◌∷◌, ◌++◌, arith, ltb, leb, ◌==◌, length, is_empty, if◌then◌else◌, Bool-cases,
  inl, inr,
}
use mathlib.Core.List.{reverse, reverse-reverse, reverse-append}

abbrev pub max_name_length : ℕ
max_name_length = 63

-- unicode.IsSpace
unfoldable pub is_space : ℕ → Bool
is_space c =
    (leb 0x09 c && leb c 0x0d)
    || c == 0x20
    || c == 0x85
    || c == 0xa0
    || c == 0x1680
    || (leb 0x2000 c && leb c 0x200a)
    || c == 0x2028
    || c == 0x2029
    || c == 0x202f
    || c == 0x205f
    || c == 0x3000

-- `unicode.IsControl`, or a member of Zl or Zp, or one of the listed invisible characters.
unfoldable pub hidden_in_name : ℕ → Bool
hidden_in_name c =
    ltb c 0x20
    || (leb 0x7f c && leb c 0x9f)
    || c == 0x2028
    || c == 0x2029
    || c == 0x200e
    || c == 0x200f
    || (leb 0x202a c && leb c 0x202e)
    || (leb 0x2066 c && leb c 0x2069)
    || c == 0x200b
    || c == 0x2060
    || c == 0xfeff
    || c == 0x00ad

unfoldable pub trim_left : List ℕ → List ℕ
trim_left [] = []
trim_left (c ∷ cs) = let rest = trim_left cs in if is_space c then rest else c ∷ cs

-- strings.TrimSpace
unfoldable pub trim_space : List ℕ → List ℕ
unfolding trim_left
trim_space raw = reverse (trim_left (reverse (trim_left raw)))

unfoldable pub any_hidden : List ℕ → Bool
any_hidden [] = false
any_hidden (c ∷ cs) = hidden_in_name c || any_hidden cs

unfoldable pub clean_name : List ℕ → Option (List ℕ)
clean_name raw =
    let name = trim_space raw in
    if is_empty name || ltb max_name_length (length name)
    then none
    else if any_hidden name
    then none
    else some name

-- A text with no space at its left end.
abbrev pub NoLeadingSpace : List ℕ → Type 0
NoLeadingSpace [] = Unit
NoLeadingSpace (c ∷ cs) = is_space c ≡ false

trim_left-NoLeadingSpace : (cs : List ℕ) → NoLeadingSpace (trim_left cs)
unfolding trim_left
trim_left-NoLeadingSpace [] = tt
trim_left-NoLeadingSpace (c ∷ cs) = elim (Bool-cases (is_space c)) [
  | inl e ↦ rw e (trim_left-NoLeadingSpace cs)
  | inr e ↦ rw e e
]

trim_left_fix : (cs : List ℕ) → NoLeadingSpace cs → trim_left cs ≡ cs
unfolding trim_left
trim_left_fix [] h = refl
trim_left_fix (c ∷ cs) h = rw h

pub NoLeadingSpace-init : (ys : List ℕ) (c : ℕ) → NoLeadingSpace (ys ++ c ∷ []) → NoLeadingSpace ys
NoLeadingSpace-init [] c h = tt
NoLeadingSpace-init (y ∷ ys) c h = h

-- To trim the right end brings no space to the left end.
NoLeadingSpace-reverse :
    (xs : List ℕ) → NoLeadingSpace (reverse xs) → NoLeadingSpace (reverse (trim_left xs))
unfolding trim_left
NoLeadingSpace-reverse [] h = tt
NoLeadingSpace-reverse (c ∷ cs) h = elim (Bool-cases (is_space c)) [
  | inl e ↦ rw e (
      NoLeadingSpace-reverse cs
        (NoLeadingSpace-init (reverse cs) c (rw (reverse-append (c ∷ []) cs) at h)))
  | inr e ↦ rw e h
]

pub trim_space-NoLeadingSpace : (raw : List ℕ) → NoLeadingSpace (trim_space raw)
unfolding trim_space
trim_space-NoLeadingSpace raw =
    NoLeadingSpace-reverse (reverse (trim_left raw))
      (rw reverse-reverse (trim_left-NoLeadingSpace raw))

pub NoLeadingSpace-reverse-trim_space : (raw : List ℕ) → NoLeadingSpace (reverse (trim_space raw))
unfolding trim_space
NoLeadingSpace-reverse-trim_space raw =
    rw reverse-reverse (trim_left-NoLeadingSpace (reverse (trim_left raw)))

pub trim_space_fix :
    (name : List ℕ) → NoLeadingSpace name → NoLeadingSpace (reverse name) → trim_space name ≡ name
unfolding trim_space
trim_space_fix name left right =
    ap (λ t. reverse (trim_left (reverse t))) (trim_left_fix name left)
    ∙ ap reverse (trim_left_fix (reverse name) right)
    ∙ reverse-reverse name

length-pos : (name : List ℕ) → is_empty name ≡ false → 0 < length name
length-pos [] h = cc
length-pos (c ∷ cs) h = omega arith

accepted :
    (raw name : List ℕ)
    → clean_name raw ≡ some name
    → (trim_space raw ≡ name)
      × (is_empty name ≡ false)
      × (length name ≤ max_name_length)
      × (any_hidden name ≡ false)
unfolding clean_name
accepted raw name h = ground arith

clean_name_fix :
    (name : List ℕ)
    → trim_space name ≡ name
    → is_empty name ≡ false
    → length name ≤ max_name_length
    → any_hidden name ≡ false
    → clean_name name ≡ some name
unfolding clean_name
clean_name_fix name t e n v = rw t (ground arith)

-- A name that is accepted has 1 to 63 characters, none of them hidden and none of them a space at
-- an end, and it is accepted again as it is.
clean_name-eq_some :
    (raw name : List ℕ)
    → clean_name raw ≡ some name
    → (0 < length name)
      × (length name ≤ max_name_length)
      × (any_hidden name ≡ false)
      × NoLeadingSpace name
      × NoLeadingSpace (reverse name)
      × (clean_name name ≡ some name)
clean_name-eq_some raw name h =
    let (t, e, n, v) = accepted raw name h in
    let left : NoLeadingSpace name = rw t at (trim_space-NoLeadingSpace raw) in
    let right : NoLeadingSpace (reverse name) = rw t at (NoLeadingSpace-reverse-trim_space raw) in
    (
      length-pos name e,
      n,
      v,
      left,
      right,
      clean_name_fix name (trim_space_fix name left right) e n v,
    )
