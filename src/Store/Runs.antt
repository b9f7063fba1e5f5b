-- ===== src/Store/Runs.antt =====
-- The loop over the runs of hyphens ends.
use portapixel.Prelude.{
  ℕ, zero, suc, ◌≤◌, ◌<◌, ◌≡◌, refl, arith, inl, inr, true, false, ◌&&◌, [], ◌∷◌, ◌==◌, length,
  Bool-cases, Bytes,
}
use portapixel.Store.{has_double, join_once, join_runs}

length-join_once : (s : Bytes) → length (join_once s) ≤ length s
unfolding join_once
length-join_once [] = omega arith
length-join_once (a ∷ []) = omega arith
length-join_once (a ∷ b ∷ rest) =
    let behind = length-join_once rest in
    let later = length-join_once (b ∷ rest) in
    elim (Bool-cases (a == b'-' && b == b'-')) [
      | inl e ↦ rw e (ground (arith, behind))
      | inr e ↦ rw e (ground (arith, later))
    ]

join_once-lt : (s : Bytes) → has_double s ≡ true → length (join_once s) < length s
unfolding join_once has_double
join_once-lt [] h = absurd (cc)
join_once-lt (a ∷ []) h = absurd (cc)
join_once-lt (a ∷ b ∷ rest) h = elim (Bool-cases (a == b'-' && b == b'-')) [
  | inl e ↦ rw e (ground (arith, length-join_once rest))
  | inr e ↦ rw e (ground (arith, join_once-lt (b ∷ rest) (ground (arith, h, e))))
]

-- The loop has enough turns: no run is left.
pub has_double-join_runs : (n : ℕ) (s : Bytes) → length s ≤ n → has_double (join_runs n s) ≡ false
unfolding join_runs has_double
has_double-join_runs zero [] h = refl
has_double-join_runs zero (c ∷ s) h = absurd (omega (arith, h))
has_double-join_runs (suc n) s h = elim (Bool-cases (has_double s)) [
  | inl e ↦ rw e (has_double-join_runs n (join_once s) (ground (arith, h, join_once-lt s e)))
  | inr e ↦ rw (e, e) refl
]
