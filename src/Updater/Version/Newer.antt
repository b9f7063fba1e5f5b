-- ===== src/Updater/Version/Newer.antt =====
-- The comparison of release names is an order, and what it says of a prerelease and of "dev".
use portapixel.Prelude.{
  ℕ, ◌≡◌, refl, ◌∙◌, ap, sym, inl, inr, Option, none, some, List, [], ◌∷◌, Bytes, bytes_eq,
  bytes_eq_iff, Bool-cases,
}
use Prim.Native.Nat.{Ordering}
use portapixel.Updater.Version.{
  compare_prerelease, compare_numbers, compare_rests, compare_parsed, compare_versions,
  parse_version,
}
use portapixel.Updater.Version.Order.{
  opposite, Chained, IsOrder, opposite-and_then, Chained-lt_right, Chained-gt_right,
  Chained-lt_left, Chained-gt_left, Chained-and_then, compare-IsOrder, compare_text-IsOrder,
  compare_prerelease-IsOrder,
}

pub same-compare_numbers : (xs : List ℕ) → compare_numbers xs xs ≡ Ordering.eq
unfolding compare_numbers
same-compare_numbers [] = refl
same-compare_numbers (x ∷ xs) = rw (compare-IsOrder.same x) (same-compare_numbers xs)

turned-compare_numbers : (xs ys : List ℕ) → compare_numbers ys xs ≡ opposite (compare_numbers xs ys)
unfolding compare_numbers
turned-compare_numbers [] [] = refl
turned-compare_numbers [] (y ∷ ys) =
    rw (compare-IsOrder.turned 0 y, turned-compare_numbers [] ys) (sym (opposite-and_then _ _))
turned-compare_numbers (x ∷ xs) [] =
    rw (compare-IsOrder.turned x 0, turned-compare_numbers xs []) (sym (opposite-and_then _ _))
turned-compare_numbers (x ∷ xs) (y ∷ ys) =
    rw (compare-IsOrder.turned x y, turned-compare_numbers xs ys) (sym (opposite-and_then _ _))

Chained-compare_numbers :
    (xs ys zs : List ℕ)
    → Chained (compare_numbers xs ys) (compare_numbers ys zs) (compare_numbers xs zs)
unfolding compare_numbers
Chained-compare_numbers [] [] zs = refl
Chained-compare_numbers [] (y ∷ ys) [] =
    Chained-and_then _ _ _ _ _ _ (compare-IsOrder.chained 0 y 0) (Chained-compare_numbers [] ys [])
Chained-compare_numbers [] (y ∷ ys) (z ∷ zs) =
    Chained-and_then _ _ _ _ _ _ (compare-IsOrder.chained 0 y z) (Chained-compare_numbers [] ys zs)
Chained-compare_numbers (x ∷ xs) [] [] =
    Chained-and_then _ _ _ _ _ _ (compare-IsOrder.chained x 0 0) (Chained-compare_numbers xs [] [])
Chained-compare_numbers (x ∷ xs) [] (z ∷ zs) =
    Chained-and_then _ _ _ _ _ _ (compare-IsOrder.chained x 0 z) (Chained-compare_numbers xs [] zs)
Chained-compare_numbers (x ∷ xs) (y ∷ ys) [] =
    Chained-and_then _ _ _ _ _ _ (compare-IsOrder.chained x y 0) (Chained-compare_numbers xs ys [])
Chained-compare_numbers (x ∷ xs) (y ∷ ys) (z ∷ zs) =
    Chained-and_then _ _ _ _ _ _ (compare-IsOrder.chained x y z) (Chained-compare_numbers xs ys zs)

compare_rests-filled :
    (x y : ℕ) (xs ys : Bytes)
    → compare_rests (x ∷ xs) (y ∷ ys) ≡ compare_prerelease (x ∷ xs) (y ∷ ys)
unfolding compare_rests
compare_rests-filled x y xs ys = elim (Bool-cases (bytes_eq (x ∷ xs) (y ∷ ys))) [
  | inl e ↦
      rw (e, sym ((bytes_eq_iff (x ∷ xs) (y ∷ ys)).0 e))
        (sym (compare_prerelease-IsOrder.same (x ∷ xs)))
  | inr e ↦ rw e
]

same-compare_rests : (a : Bytes) → compare_rests a a ≡ Ordering.eq
unfolding compare_rests bytes_eq
same-compare_rests [] = refl
same-compare_rests (x ∷ xs) =
    compare_rests-filled x x xs xs ∙ compare_prerelease-IsOrder.same (x ∷ xs)

turned-compare_rests : (a b : Bytes) → compare_rests b a ≡ opposite (compare_rests a b)
unfolding compare_rests bytes_eq
turned-compare_rests [] [] = refl
turned-compare_rests [] (y ∷ ys) = refl
turned-compare_rests (x ∷ xs) [] = refl
turned-compare_rests (x ∷ xs) (y ∷ ys) =
    compare_rests-filled y x ys xs
    ∙ compare_prerelease-IsOrder.turned (x ∷ xs) (y ∷ ys)
    ∙ ap opposite (sym (compare_rests-filled x y xs ys))

Chained-compare_rests :
    (a b c : Bytes) → Chained (compare_rests a b) (compare_rests b c) (compare_rests a c)
unfolding compare_rests bytes_eq
Chained-compare_rests [] [] c = refl
Chained-compare_rests [] (y ∷ ys) [] = tt
Chained-compare_rests [] (y ∷ ys) (z ∷ zs) = Chained-gt_left _
Chained-compare_rests (x ∷ xs) [] [] = refl
Chained-compare_rests (x ∷ xs) [] (z ∷ zs) = tt
Chained-compare_rests (x ∷ xs) (y ∷ ys) [] = Chained-lt_right _
Chained-compare_rests (x ∷ xs) (y ∷ ys) (z ∷ zs) =
    rw
      (
        compare_rests-filled x y xs ys,
        compare_rests-filled y z ys zs,
        compare_rests-filled x z xs zs,
      )
      (compare_prerelease-IsOrder.chained (x ∷ xs) (y ∷ ys) (z ∷ zs))

abbrev Parsed : Type 0
Parsed = Option (List ℕ × Bytes)

same-compare_parsed :
    (p : Parsed) (o : Ordering) → o ≡ Ordering.eq → compare_parsed p p o ≡ Ordering.eq
unfolding compare_parsed
same-compare_parsed none o h = h
same-compare_parsed (some (ns, a)) o h = rw (same-compare_numbers ns) (same-compare_rests a)

turned-compare_parsed :
    (p q : Parsed) (o o' : Ordering)
    → o' ≡ opposite o
    → compare_parsed q p o' ≡ opposite (compare_parsed p q o)
unfolding compare_parsed
turned-compare_parsed none none o o' h = h
turned-compare_parsed none (some y) o o' h = refl
turned-compare_parsed (some x) none o o' h = refl
turned-compare_parsed (some (ms, a)) (some (ns, b)) o o' h =
    rw (turned-compare_numbers ms ns, turned-compare_rests a b) (sym (opposite-and_then _ _))

Chained-compare_parsed :
    (p q r : Parsed) (x y z : Ordering)
    → Chained x y z
    → Chained (compare_parsed p q x) (compare_parsed q r y) (compare_parsed p r z)
unfolding compare_parsed
Chained-compare_parsed none none none x y z h = h
Chained-compare_parsed none none (some k) x y z h = Chained-lt_right x
Chained-compare_parsed none (some n) none x y z h = tt
Chained-compare_parsed none (some n) (some k) x y z h = Chained-lt_left _
Chained-compare_parsed (some m) none none x y z h = Chained-gt_left y
Chained-compare_parsed (some m) none (some k) x y z h = tt
Chained-compare_parsed (some m) (some n) none x y z h = Chained-gt_right _
Chained-compare_parsed (some (ms, a)) (some (ns, b)) (some (ks, c)) x y z h =
    Chained-and_then _ _ _ _ _ _ (Chained-compare_numbers ms ns ks) (Chained-compare_rests a b c)

-- The comparison of release names is one order up to ties: a name ties with itself, the comparison
-- with the names exchanged is the opposite one, and comparisons chain.
pub compare_versions-IsOrder : IsOrder compare_versions
unfolding compare_versions
compare_versions-IsOrder =
    let w = compare_text-IsOrder in
    record {
      same = λ a. same-compare_parsed (parse_version a) _ (w.same a);
      turned = λ a b. turned-compare_parsed (parse_version a) (parse_version b) _ _ (w.turned a b);
      chained = λ a b c.
          Chained-compare_parsed (parse_version a) (parse_version b) (parse_version c) _ _ _
            (w.chained a b c);
    }
