-- ===== src/Server/Table/Keys.antt =====
-- Keys that no two rows share, and counts, under the statements.
use portapixel.Prelude.{
  AllIn, if-case, suc, ◌≤◌, ◌≡◌, refl, sym, subst, arith, inl, inr, Bool, true, false, not, ◌||◌,
  none, some, List, [], ◌∷◌, ◌++◌, Bool-cases,
}
use mathlib.Core.Option.{some-injective}
use portapixel.Server.Table.{update_where, select_where, find_where, has_where, count_where}

module _ {ℓ} {A : Type ℓ} (key : A → Bool) where
  pub has-update_where :
      (test : A → Bool) (change : A → A) (rows : List A)
      → ((x : A) → test x ≡ true → key (change x) ≡ key x)
      → has_where key (update_where test change rows) ≡ has_where key rows
  unfolding has_where update_where
  has-update_where test change [] same = refl
  has-update_where test change (x ∷ rows) same =
      let rest = has-update_where test change rows same in
      if-case (λ (l : List A). has_where key l ≡ (key x || has_where key rows)) (test x) _ _
        (λ e. rw (same x e, rest)) (λ e. rw rest)

  pub has-select_where :
      (test : A → Bool) (rows : List A)
      → has_where key rows ≡ false
      → has_where key (select_where test rows) ≡ false
  unfolding has_where select_where
  has-select_where test [] h = refl
  has-select_where test (x ∷ rows) h =
      let rest = has-select_where test rows (ground (arith, h)) in
      if-case (λ (l : List A). has_where key l ≡ false) (test x) _ _ (λ e. ground (arith, h, rest))
        (λ e. rest)

  pub has-snoc :
      (rows : List A) (r : A) → has_where key (rows ++ r ∷ []) ≡ (has_where key rows || key r)
  unfolding has_where
  has-snoc [] r = ground arith
  has-snoc (x ∷ rows) r = ground (arith, has-snoc rows r)

  pub count-update_where :
      (test : A → Bool) (change : A → A) (rows : List A)
      → ((x : A) → key (change x) ≡ true → key x ≡ true)
      → count_where key (update_where test change rows) ≤ count_where key rows
  unfolding count_where update_where
  count-update_where test change [] less = omega arith
  count-update_where test change (x ∷ rows) less =
      let rest = count-update_where test change rows less in
      if-case (λ (l : List A). count_where key l ≤ count_where key (x ∷ rows)) (test x) _ _
        (λ e. elim (Bool-cases (key (change x))) [
          | inl k ↦ rw (k, less x k) (omega (arith, rest))
          | inr k ↦ ground (arith, rest, k)
        ])
        (λ e. ground (arith, rest))

  pub count-select_where :
      (test : A → Bool) (rows : List A)
      → count_where key (select_where test rows) ≤ count_where key rows
  unfolding count_where select_where
  count-select_where test [] = omega arith
  count-select_where test (x ∷ rows) = ground (arith, count-select_where test rows)

  pub count-snoc :
      (rows : List A) (r : A) → count_where key (rows ++ r ∷ []) ≤ suc (count_where key rows)
  unfolding count_where
  count-snoc [] r = ground arith
  count-snoc (x ∷ rows) r = ground (arith, count-snoc rows r)

-- A test that no change makes true of a row.
pub has-update_less {ℓ} :
    {A : Type ℓ} (key test : A → Bool) (change : A → A) (rows : List A)
    → ((x : A) → key (change x) ≡ true → key x ≡ true)
    → has_where key rows ≡ false
    → has_where key (update_where test change rows) ≡ false
unfolding has_where update_where
has-update_less key test change [] less h = refl
has-update_less key test change (x ∷ rows) less h =
    let rest = has-update_less key test change rows less (ground (arith, h)) in
    let out : key x ≡ false = ground (arith, h) in
    if-case (λ l. has_where key l ≡ false) (test x) _ _
      (λ e. elim (Bool-cases (key (change x))) [
        | inl k ↦ absurd (ground (arith, less x k, out))
        | inr k ↦ ground (arith, k, rest)
      ])
      (λ e. ground (arith, out, rest))

-- A row that is there is found.
pub find-has {ℓ} :
    {A : Type ℓ} (key : A → Bool) (rows : List A)
    → has_where key rows ≡ true
    → (r : A) × (find_where key rows ≡ some r)
unfolding has_where find_where
find-has key [] h = absurd (cc)
find-has key (x ∷ rows) h = elim (Bool-cases (key x)) [
  | inl e ↦ (x, rw e refl)
  | inr e ↦ let (r, found) = find-has key rows (rw e at h) in (r, rw e found)
]

-- A row that is found passes the test.
pub find-passes {ℓ} :
    {A : Type ℓ} (key : A → Bool) (rows : List A) (r : A)
    → find_where key rows ≡ some r
    → key r ≡ true
unfolding find_where
find-passes key [] r h = absurd (cc)
find-passes key (x ∷ rows) r h = elim (Bool-cases (key x)) [
  | inl e ↦
      let first : some x ≡ some r = rw e at h in
      subst (λ y. key y ≡ true) (some-injective _ _ first) e
  | inr e ↦ find-passes key rows r (rw e at h)
]

pub find-none {ℓ} :
    {A : Type ℓ} (key : A → Bool) (rows : List A)
    → has_where key rows ≡ false
    → find_where key rows ≡ none
unfolding has_where find_where
find-none key [] h = refl
find-none key (x ∷ rows) h = elim (Bool-cases (key x)) [
  | inl e ↦ absurd (ground (arith, e, h))
  | inr e ↦ rw e (find-none key rows (ground (arith, h)))
]

-- No row that was taken out is there.
pub has-taken_out {ℓ} :
    {A : Type ℓ} (key : A → Bool) (rows : List A)
    → has_where key (select_where (λ x. not (key x)) rows) ≡ false
unfolding has_where select_where
has-taken_out key [] = refl
has-taken_out key (x ∷ rows) = elim (Bool-cases (key x)) [
  | inl e ↦ rw e (has-taken_out key rows)
  | inr e ↦ rw e (rw e (has-taken_out key rows))
]

-- A row that a query finds is there.
pub has-found {ℓ} :
    {A : Type ℓ} (key test : A → Bool) (rows : List A) (r : A)
    → key r ≡ true
    → find_where test rows ≡ some r
    → has_where key rows ≡ true
unfolding has_where find_where
has-found key test [] r k h = absurd (cc)
has-found key test (x ∷ rows) r k h = elim (Bool-cases (test x)) [
  | inl e ↦
      let first : some x ≡ some r = rw e at h in
      rw (subst (λ y. key y ≡ true) (sym (some-injective _ _ first)) k) refl
  | inr e ↦ ground (arith, has-found key test rows r k (rw e at h))
]

pub has-weaken {ℓ} :
    {A : Type ℓ} (key key' : A → Bool) (rows : List A)
    → ((x : A) → key x ≡ true → key' x ≡ true)
    → has_where key' rows ≡ false
    → has_where key rows ≡ false
unfolding has_where
has-weaken key key' [] less h = refl
has-weaken key key' (x ∷ rows) less h =
    let rest = has-weaken key key' rows less (ground (arith, h)) in
    elim (Bool-cases (key x)) [
      | inl e ↦ absurd (ground (arith, less x e, h))
      | inr e ↦ ground (arith, e, rest)
    ]

All-apart {ℓ} :
    {A : Type ℓ} (same : A → A → Bool) (rows : List A) (r : A)
    → has_where (same r) rows ≡ false
    → AllIn (λ x. same r x ≡ true → x ≡ r) rows
unfolding has_where
All-apart same [] r h = tt
All-apart same (x ∷ rows) r h =
    (λ k. absurd (ground (arith, k, h)), All-apart same rows r (ground (arith, h)))

-- No two rows are the same, by this test.
abbrev pub Distinct {ℓ} : {A : Type ℓ} → (A → A → Bool) → List A → Type 0
Distinct same [] = Unit
Distinct same (x ∷ rows) = (has_where (same x) rows ≡ false) × Distinct same rows

module _ {ℓ} {A : Type ℓ} (same : A → A → Bool) where
  pub Distinct-update_where :
      (test : A → Bool) (change : A → A) (rows : List A)
      → ((x y : A) → same y (change x) ≡ same y x)
      → ((x y : A) → same (change x) y ≡ same x y)
      → Distinct same rows
      → Distinct same (update_where test change rows)
  unfolding update_where
  Distinct-update_where test change [] right left d = tt
  Distinct-update_where test change (x ∷ rows) right left d =
      let rest = Distinct-update_where test change rows right left d.1 in
      let others = update_where test change rows in
      let apart : has_where (same x) others ≡ false =
        rw (has-update_where (same x) test change rows (λ z e. right z x)) d.0 in
      if-case (Distinct same) (test x) _ _
        (λ e. (subst (λ k. has_where k others ≡ false) (λ i y. sym (left x y) i) apart, rest))
        (λ e. (apart, rest))

  pub Distinct-select_where :
      (test : A → Bool) (rows : List A)
      → Distinct same rows
      → Distinct same (select_where test rows)
  unfolding select_where
  Distinct-select_where test [] d = tt
  Distinct-select_where test (x ∷ rows) d =
      let rest = Distinct-select_where test rows d.1 in
      if-case (Distinct same) (test x) _ _ (λ e. (has-select_where (same x) test rows d.0, rest))
        (λ e. rest)

  pub Distinct-snoc :
      (rows : List A) (r : A)
      → ((x y : A) → same x y ≡ same y x)
      → has_where (same r) rows ≡ false
      → Distinct same rows
      → Distinct same (rows ++ r ∷ [])
  unfolding has_where
  Distinct-snoc [] r swap h d = (refl, tt)
  Distinct-snoc (x ∷ rows) r swap h d = (
    ground (arith, has-snoc (same x) rows r, swap x r, h, d.0),
    Distinct-snoc rows r swap (ground (arith, h)) d.1,
  )

  -- The row that a query finds is the only one with its key.
  pub Distinct-found :
      (test : A → Bool) (rows : List A) (r : A)
      → ((x y : A) → same x y ≡ same y x)
      → find_where test rows ≡ some r
      → Distinct same rows
      → AllIn (λ x. same r x ≡ true → x ≡ r) rows
  unfolding find_where
  Distinct-found test [] r swap h d = tt
  Distinct-found test (x ∷ rows) r swap h d = elim (Bool-cases (test x)) [
    | inl e ↦
        let first : x ≡ r = some-injective _ _ (rw e at h) in
        (λ k. first, All-apart same rows r (subst (λ y. has_where (same y) rows ≡ false) first d.0))
    | inr e ↦
        let later : find_where test rows ≡ some r = rw e at h in
        (
          λ k. absurd (ground (arith, has-found (same x) test rows r (rw (swap x r) k) later, d.0)),
          Distinct-found test rows r swap later d.1,
        )
  ]
