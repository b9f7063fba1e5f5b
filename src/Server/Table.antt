-- ===== src/Server/Table.antt =====
-- The SQL statements of internal/server/db, on a table that is the list of its rows in the order of
-- their IDs.
pub mod Keys
use portapixel.Prelude.{
  AllIn, if-case, ℕ, suc, ◌≡◌, refl, sym, ap, subst, inl, inr, Bool, Bool-cases, true, false, ◌||◌,
  Option, none, some, List, [], ◌∷◌, ◌++◌, if◌then◌else◌,
}
use mathlib.Core.Option.{some-injective}
use mathlib.Core.Option

module _ {ℓ} {A : Type ℓ} where
  -- `UPDATE ... WHERE`
  unfoldable pub update_where : (A → Bool) → (A → A) → List A → List A
  update_where test change [] = []
  update_where test change (r ∷ rows) =
      let rest = update_where test change rows in if test r then change r ∷ rest else r ∷ rest

  -- `SELECT ... WHERE`, and `DELETE` with the opposite test.
  unfoldable pub select_where : (A → Bool) → List A → List A
  select_where test [] = []
  select_where test (r ∷ rows) =
      let rest = select_where test rows in if test r then r ∷ rest else rest

  -- `SELECT ... WHERE ... ORDER BY id LIMIT 1`
  unfoldable pub find_where : (A → Bool) → List A → Option A
  find_where test [] = none
  find_where test (r ∷ rows) = let rest = find_where test rows in if test r then some r else rest

  unfoldable pub has_where : (A → Bool) → List A → Bool
  has_where test [] = false
  has_where test (r ∷ rows) = test r || has_where test rows

  -- `SELECT COUNT(*) ... WHERE`
  unfoldable pub count_where : (A → Bool) → List A → ℕ
  count_where test [] = 0
  count_where test (r ∷ rows) =
      let rest = count_where test rows in if test r then suc rest else rest

module _ {ℓ κ} {A : Type ℓ} (P : A → Type κ) where
  pub All-update_where :
      (test : A → Bool) (change : A → A) (rows : List A)
      → ((r : A) → test r ≡ true → P r → P (change r))
      → AllIn P rows
      → AllIn P (update_where test change rows)
  unfolding update_where
  All-update_where test change [] keeps a = tt
  All-update_where test change (r ∷ rows) keeps a =
      let rest = All-update_where test change rows keeps a.1 in
      if-case (AllIn P) (test r) _ _ (λ e. (keeps r e a.0, rest)) (λ e. (a.0, rest))

  pub All-select_where :
      (test : A → Bool) (rows : List A) → AllIn P rows → AllIn P (select_where test rows)
  unfolding select_where
  All-select_where test [] a = tt
  All-select_where test (r ∷ rows) a =
      let rest = All-select_where test rows a.1 in
      if-case (AllIn P) (test r) _ _ (λ e. (a.0, rest)) (λ e. rest)

  -- An update, with what else is known of the rows.
  pub All-update_with {κ'} :
      (Q : A → Type κ') (test : A → Bool) (change : A → A) (rows : List A)
      → ((r : A) → test r ≡ true → Q r → P r → P (change r))
      → AllIn Q rows
      → AllIn P rows
      → AllIn P (update_where test change rows)
  unfolding update_where
  All-update_with Q test change [] keeps q a = tt
  All-update_with Q test change (r ∷ rows) keeps q a =
      let rest = All-update_with Q test change rows keeps q.1 a.1 in
      if-case (AllIn P) (test r) _ _ (λ e. (keeps r e q.0 a.0, rest)) (λ e. (a.0, rest))

  -- The rows that stay pass the test.
  pub All-selected {κ'} :
      (Q : A → Type κ') (test : A → Bool) (rows : List A)
      → ((r : A) → test r ≡ true → P r → Q r)
      → AllIn P rows
      → AllIn Q (select_where test rows)
  unfolding select_where
  All-selected Q test [] gives a = tt
  All-selected Q test (r ∷ rows) gives a =
      let rest = All-selected Q test rows gives a.1 in
      if-case (AllIn Q) (test r) _ _ (λ e. (gives r e a.0, rest)) (λ e. rest)

  pub All-map {κ'} :
      (Q : A → Type κ') (rows : List A) → ((r : A) → P r → Q r) → AllIn P rows → AllIn Q rows
  All-map Q [] gives a = tt
  All-map Q (r ∷ rows) gives a = (gives r a.0, All-map Q rows gives a.1)

  pub All-snoc : (rows : List A) (r : A) → AllIn P rows → P r → AllIn P (rows ++ r ∷ [])
  All-snoc [] r a p = (p, tt)
  All-snoc (x ∷ rows) r a p = (a.0, All-snoc rows r a.1 p)

  -- What a query finds has the property and passes the test.
  pub All-find_where :
      (test : A → Bool) (rows : List A) (r : A)
      → AllIn P rows
      → find_where test rows ≡ some r
      → (test r ≡ true) × P r
  unfolding find_where
  All-find_where test [] r a h = absurd (cc)
  All-find_where test (x ∷ rows) r a h = elim (Bool-cases (test x)) [
    | inl e ↦
        let same : some x ≡ some r = rw e at h in
        subst (λ y. (test y ≡ true) × P y) (some-injective _ _ same) (e, a.0)
    | inr e ↦ All-find_where test rows r a.1 (rw e at h)
  ]

-- What a query finds, after the table changed.
module _ {ℓ} {A : Type ℓ} (key : A → Bool) (r : A) where
  pub find-update_where :
      (test : A → Bool) (change : A → A) (rows : List A)
      → ((x : A) → key (change x) ≡ key x)
      → test r ≡ false
      → find_where key rows ≡ some r
      → find_where key (update_where test change rows) ≡ some r
  unfolding find_where update_where
  find-update_where test change [] same out h = h
  find-update_where test change (x ∷ rows) same out h = elim (Bool-cases (key x)) [
    | inl e ↦
        let found : some x ≡ some r = rw e at h in
        let kept = subst (λ y. test y ≡ false) (sym (some-injective _ _ found)) out in
        rw (kept, e) found
    | inr e ↦
        let rest = find-update_where test change rows same out (rw e at h) in
        if-case (λ (l : List A). find_where key l ≡ some r) (test x) _ _ (λ t. rw (same x, e) rest)
          (λ t. rw e rest)
  ]

  -- The row that is found takes the change.
  pub find-update_hit :
      (test : A → Bool) (change : A → A) (rows : List A)
      → ((x : A) → key (change x) ≡ key x)
      → test r ≡ true
      → find_where key rows ≡ some r
      → find_where key (update_where test change rows) ≡ some (change r)
  unfolding find_where update_where
  find-update_hit test change [] same hit h = absurd (cc)
  find-update_hit test change (x ∷ rows) same hit h = elim (Bool-cases (key x)) [
    | inl e ↦
        let found : some x ≡ some r = rw e at h in
        let taken = subst (λ y. test y ≡ true) (sym (some-injective _ _ found)) hit in
        rw (taken, same x, e) (ap (Option.map change) found)
    | inr e ↦
        let rest = find-update_hit test change rows same hit (rw e at h) in
        if-case (λ (l : List A). find_where key l ≡ some (change r)) (test x) _ _
          (λ t. rw (same x, e) rest) (λ t. rw e rest)
  ]

  pub find-snoc :
      (rows ys : List A) → find_where key rows ≡ some r → find_where key (rows ++ ys) ≡ some r
  unfolding find_where
  find-snoc [] ys h = absurd (cc)
  find-snoc (x ∷ rows) ys h = elim (Bool-cases (key x)) [
    | inl e ↦ rw e (rw e at h)
    | inr e ↦ rw e (find-snoc rows ys (rw e at h))
  ]

  pub find-select_where :
      (test : A → Bool) (rows : List A)
      → test r ≡ true
      → find_where key rows ≡ some r
      → find_where key (select_where test rows) ≡ some r
  unfolding find_where select_where
  find-select_where test [] hit h = h
  find-select_where test (x ∷ rows) hit h = elim (Bool-cases (key x)) [
    | inl e ↦
        let found : some x ≡ some r = rw e at h in
        let kept = subst (λ y. test y ≡ true) (sym (some-injective _ _ found)) hit in
        rw (kept, e) found
    | inr e ↦
        let rest = find-select_where test rows hit (rw e at h) in
        if-case (λ (l : List A). find_where key l ≡ some r) (test x) _ _ (λ t. rw e rest)
          (λ t. rest)
  ]

  pub has-find_where : (rows : List A) → find_where key rows ≡ some r → has_where key rows ≡ true
  unfolding find_where has_where
  has-find_where [] h = absurd (cc)
  has-find_where (x ∷ rows) h = elim (Bool-cases (key x)) [
    | inl e ↦ rw e refl
    | inr e ↦ rw e (has-find_where rows (rw e at h))
  ]
