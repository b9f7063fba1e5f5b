-- ===== src/Updater/Version/Order.antt =====
-- The order of release names is one order.
use portapixel.Prelude.{ℕ, ◌≡◌, refl, ◌^◌, sym, Option, none, some, List, [], ◌∷◌, arith}
use Prim.Native.Nat.{compare, Ordering}
use portapixel.Updater.Version.{
  and_then, compare_text, compare_as, compare_identifier, compare_lists, compare_prerelease,
  parse_number,
}

abbrev pub opposite : Ordering → Ordering
opposite Ordering.lt = Ordering.gt
opposite Ordering.eq = Ordering.eq
opposite Ordering.gt = Ordering.lt

-- What the comparisons of a with b and of b with c say about that of a with c.
abbrev pub Chained : Ordering → Ordering → Ordering → Type 0
Chained Ordering.eq y z = z ≡ y
Chained Ordering.lt Ordering.gt z = Unit
Chained Ordering.lt Ordering.eq z = z ≡ Ordering.lt
Chained Ordering.lt Ordering.lt z = z ≡ Ordering.lt
Chained Ordering.gt Ordering.lt z = Unit
Chained Ordering.gt Ordering.eq z = z ≡ Ordering.gt
Chained Ordering.gt Ordering.gt z = z ≡ Ordering.gt

module _ {ℓ} {A : Type ℓ} where
  -- A total order up to ties.
  pub record IsOrder (cmp : A → A → Ordering) : Type ℓ where
    pub same : (a : A) → cmp a a ≡ Ordering.eq
    pub turned : (a b : A) → cmp b a ≡ opposite (cmp a b)
    pub chained : (a b c : A) → Chained (cmp a b) (cmp b c) (cmp a c)

pub opposite-and_then :
    (x y : Ordering) → opposite (and_then x y) ≡ and_then (opposite x) (opposite y)
opposite-and_then Ordering.lt y = refl
opposite-and_then Ordering.eq y = refl
opposite-and_then Ordering.gt y = refl

pub Chained-lt_right : (x : Ordering) → Chained x Ordering.lt Ordering.lt
Chained-lt_right Ordering.lt = refl
Chained-lt_right Ordering.eq = refl
Chained-lt_right Ordering.gt = tt

pub Chained-gt_right : (x : Ordering) → Chained x Ordering.gt Ordering.gt
Chained-gt_right Ordering.lt = tt
Chained-gt_right Ordering.eq = refl
Chained-gt_right Ordering.gt = refl

pub Chained-lt_left : (y : Ordering) → Chained Ordering.lt y Ordering.lt
Chained-lt_left Ordering.lt = refl
Chained-lt_left Ordering.eq = refl
Chained-lt_left Ordering.gt = tt

pub Chained-gt_left : (y : Ordering) → Chained Ordering.gt y Ordering.gt
Chained-gt_left Ordering.lt = tt
Chained-gt_left Ordering.eq = refl
Chained-gt_left Ordering.gt = refl

pub Chained-and_then :
    (x y z x' y' z' : Ordering)
    → Chained x y z
    → Chained x' y' z'
    → Chained (and_then x x') (and_then y y') (and_then z z')
Chained-and_then Ordering.eq Ordering.eq z x' y' z' h k = rw h k
Chained-and_then Ordering.eq Ordering.lt z x' y' z' h k = rw h (Chained-lt_right x')
Chained-and_then Ordering.eq Ordering.gt z x' y' z' h k = rw h (Chained-gt_right x')
Chained-and_then Ordering.lt Ordering.gt z x' y' z' h k = tt
Chained-and_then Ordering.lt Ordering.eq z x' y' z' h k = rw h (Chained-lt_left y')
Chained-and_then Ordering.lt Ordering.lt z x' y' z' h k = rw h
Chained-and_then Ordering.gt Ordering.lt z x' y' z' h k = tt
Chained-and_then Ordering.gt Ordering.eq z x' y' z' h k = rw h (Chained-gt_left y')
Chained-and_then Ordering.gt Ordering.gt z x' y' z' h k = rw h

pub compare-IsOrder : IsOrder compare
compare-IsOrder = record {
  same = λ a. ground arith;
  turned = λ a b. ground arith;
  chained = λ a b c. ground arith;
}

module _ {ℓ} {A : Type ℓ} (order : A → A → Ordering) (w : IsOrder order) where
  same-compare_lists : (xs : List A) → compare_lists order xs xs ≡ Ordering.eq
  unfolding compare_lists
  same-compare_lists [] = refl
  same-compare_lists (x ∷ xs) = rw (w.same x) (same-compare_lists xs)

  turned-compare_lists :
      (xs ys : List A) → compare_lists order ys xs ≡ opposite (compare_lists order xs ys)
  unfolding compare_lists
  turned-compare_lists [] [] = refl
  turned-compare_lists [] (y ∷ ys) = refl
  turned-compare_lists (x ∷ xs) [] = refl
  turned-compare_lists (x ∷ xs) (y ∷ ys) =
      rw (w.turned x y, turned-compare_lists xs ys) (sym (opposite-and_then _ _))

  Chained-compare_lists :
      (xs ys zs : List A)
      → Chained (compare_lists order xs ys) (compare_lists order ys zs) (compare_lists order xs zs)
  unfolding compare_lists
  Chained-compare_lists [] [] zs = refl
  Chained-compare_lists [] (y ∷ ys) [] = tt
  Chained-compare_lists [] (y ∷ ys) (z ∷ zs) = Chained-lt_left _
  Chained-compare_lists (x ∷ xs) [] [] = refl
  Chained-compare_lists (x ∷ xs) [] (z ∷ zs) = tt
  Chained-compare_lists (x ∷ xs) (y ∷ ys) [] = Chained-gt_right _
  Chained-compare_lists (x ∷ xs) (y ∷ ys) (z ∷ zs) =
      Chained-and_then _ _ _ _ _ _ (w.chained x y z) (Chained-compare_lists xs ys zs)

  compare_lists-IsOrder : IsOrder (compare_lists order)
  compare_lists-IsOrder = record {
    same = same-compare_lists;
    turned = turned-compare_lists;
    chained = Chained-compare_lists;
  }

pub compare_text-IsOrder : IsOrder compare_text
unfolding compare_text
compare_text-IsOrder = compare_lists-IsOrder compare compare-IsOrder

same-compare_as : (p : Option ℕ) (o : Ordering) → o ≡ Ordering.eq → compare_as p p o ≡ Ordering.eq
unfolding compare_as
same-compare_as none o h = h
same-compare_as (some n) o h = compare-IsOrder.same n

turned-compare_as :
    (p q : Option ℕ) (o o' : Ordering)
    → o' ≡ opposite o
    → compare_as q p o' ≡ opposite (compare_as p q o)
unfolding compare_as
turned-compare_as none none o o' h = h
turned-compare_as none (some n) o o' h = refl
turned-compare_as (some m) none o o' h = refl
turned-compare_as (some m) (some n) o o' h = compare-IsOrder.turned m n

Chained-compare_as :
    (p q r : Option ℕ) (x y z : Ordering)
    → Chained x y z
    → Chained (compare_as p q x) (compare_as q r y) (compare_as p r z)
unfolding compare_as
Chained-compare_as none none none x y z h = h
Chained-compare_as none none (some k) x y z h = Chained-gt_right x
Chained-compare_as none (some n) none x y z h = tt
Chained-compare_as none (some n) (some k) x y z h = Chained-gt_left _
Chained-compare_as (some m) none none x y z h = Chained-lt_left y
Chained-compare_as (some m) none (some k) x y z h = tt
Chained-compare_as (some m) (some n) none x y z h = Chained-lt_right _
Chained-compare_as (some m) (some n) (some k) x y z h = compare-IsOrder.chained m n k

compare_identifier-IsOrder : IsOrder compare_identifier
unfolding compare_identifier
compare_identifier-IsOrder =
    let w = compare_text-IsOrder in
    record {
      same = λ a. same-compare_as _ _ (w.same a);
      turned = λ a b. turned-compare_as _ _ _ _ (w.turned a b);
      chained = λ a b c.
          Chained-compare_as (parse_number (2 ^ 64) a) (parse_number (2 ^ 64) b)
            (parse_number (2 ^ 64) c) _ _ _ (w.chained a b c);
    }

pub compare_prerelease-IsOrder : IsOrder compare_prerelease
unfolding compare_prerelease
compare_prerelease-IsOrder =
    let w = compare_lists-IsOrder compare_identifier compare_identifier-IsOrder in
    record {
      same = λ a. w.same _;
      turned = λ a b. w.turned _ _;
      chained = λ a b c. w.chained _ _ _;
    }
