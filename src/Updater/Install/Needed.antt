-- ===== src/Updater/Install/Needed.antt =====
-- Which directories a prune has to leave.
use portapixel.Prelude.{
  ◌≡◌, refl, sym, ap, ◌∙◌, inl, inr, true, [], ◌∷◌, ◌++◌, ◌-◌, ==_iff, arith, length, length-append,
  take, drop, take-append-drop, Bytes, bytes, bytes_eq, bytes_eq_iff, Bool-cases,
}
use portapixel.Updater.Install.{ends_with, stays}
use portapixel.Updater.Version.{starts_with_dot}

-- What a prune has no business to take away: the release that the install put in, the one that the
-- previous link names, the one that runs, a directory whose name starts with a full stop, and one
-- whose name ends in .staging.
pub data Needed (keep previous running : Bytes) (w : Bytes) : Type 0 where
  is_keep : w ≡ keep → Needed keep previous running w
  is_previous : w ≡ previous → Needed keep previous running w
  is_running : w ≡ running → Needed keep previous running w
  is_hidden : (rest : Bytes) → w ≡ b'.' ∷ rest → Needed keep previous running w
  is_staging : (stem : Bytes) → w ≡ stem ++ bytes ".staging" → Needed keep previous running w

drop-length-append : (xs ys : Bytes) → drop (length xs) (xs ++ ys) ≡ ys
drop-length-append [] ys = refl
drop-length-append (x ∷ xs) ys = drop-length-append xs ys

ends_with-append : (stem suffix : Bytes) → ends_with suffix (stem ++ suffix) ≡ true
unfolding ends_with
ends_with-append stem suffix =
    let rest : length (stem ++ suffix) - length suffix ≡ length stem =
      omega (arith, length-append stem suffix) in
    let tail : drop (length (stem ++ suffix) - length suffix) (stem ++ suffix) ≡ suffix =
      ap (λ n. drop n (stem ++ suffix)) rest ∙ drop-length-append stem suffix in
    ground (arith, length-append stem suffix, (bytes_eq_iff _ suffix).1 tail)

ends_with-stem :
    (suffix name : Bytes)
    → ends_with suffix name ≡ true
    → name ≡ take (length name - length suffix) name ++ suffix
unfolding ends_with
ends_with-stem suffix name h =
    let n = length name - length suffix in
    let tail : drop n name ≡ suffix = (bytes_eq_iff (drop n name) suffix).0 (ground (arith, h)) in
    sym (take-append-drop n name) ∙ ap (λ l. take n name ++ l) tail

hidden : (w : Bytes) → starts_with_dot w ≡ true → (rest : Bytes) × (w ≡ b'.' ∷ rest)
hidden [] h = absurd (cc)
hidden (c ∷ w) h = (w, ap (λ k. k ∷ w) ((==_iff c b'.').0 h))

module _ (keep previous running w : Bytes) where
  pub stays-Needed : stays keep previous running w ≡ true → Needed keep previous running w
  unfolding stays
  stays-Needed h = elim (Bool-cases (bytes_eq w keep)) [
    | inl e ↦ is_keep ((bytes_eq_iff w keep).0 e)
    | inr k ↦ elim (Bool-cases (bytes_eq w previous)) [
      | inl e ↦ is_previous ((bytes_eq_iff w previous).0 e)
      | inr p ↦ elim (Bool-cases (bytes_eq w running)) [
        | inl e ↦ is_running ((bytes_eq_iff w running).0 e)
        | inr r ↦ elim (Bool-cases (starts_with_dot w)) [
          | inl e ↦ let (rest, dotted) = hidden w e in is_hidden rest dotted
          | inr d ↦
              is_staging _ (ends_with-stem (bytes ".staging") w (ground (arith, h, k, p, r, d)))
        ]
      ]
    ]
  ]

  pub Needed-stays : Needed keep previous running w → stays keep previous running w ≡ true
  unfolding stays
  Needed-stays (is_keep e) = ground (arith, (bytes_eq_iff w keep).1 e)
  Needed-stays (is_previous e) = ground (arith, (bytes_eq_iff w previous).1 e)
  Needed-stays (is_running e) = ground (arith, (bytes_eq_iff w running).1 e)
  Needed-stays (is_hidden rest e) =
      let dotted : starts_with_dot w ≡ true = rw e refl in ground (arith, dotted)
  Needed-stays (is_staging stem e) =
      let staged : ends_with (bytes ".staging") w ≡ true =
        rw e (ends_with-append stem (bytes ".staging")) in
      ground (arith, staged)
