-- ===== src/Updater/Loop/Days.antt =====
-- One check and one installation on a day.
use portapixel.Prelude.{
  if-case, subst, ℕ, suc, ◌+◌, ◌≤◌, ◌≡◌, refl, ap, sym, String, Bool, false, not, ◌&&◌, ◌||◌,
  Option, none, some, List, [], ◌∷◌, ◌++◌, arith, str_eq, eq_refl, Bytes, if◌then◌else◌, leb,
}
use portapixel.Updater.Install.{Outside, no_key}
use portapixel.Updater.Apply.{Options, apply, checking, idle}
use portapixel.Updater.Offers.{Offer, Updates, check, record_found, Found, found, not_found, find}
use portapixel.Updater.Loop.{
  is_available, Pass, Action, checks, installs, look, apply_offered, apply_at, apply_when_due,
  check_and_apply, pass, passes,
}

abbrev pub count_checks : List Action → ℕ
count_checks [] = 0
count_checks (checks ∷ as') = suc (count_checks as')
count_checks (installs ∷ as') = count_checks as'

abbrev pub count_installs : List Action → ℕ
count_installs [] = 0
count_installs (checks ∷ as') = count_installs as'
count_installs (installs ∷ as') = suc (count_installs as')

-- How much a day has left: 1 until the thing is done.
abbrev left : String → String → ℕ
left day last = if str_eq last day then 0 else 1

-- What may still happen on a day, before and after.
record Spends (day : String) (u : Updates) (after : Updates × List Action) : Type 0 where
  pub installs_left :
      count_installs after.1 + left day after.0.last_apply_day ≤ left day u.last_apply_day
  pub checks_left :
      count_checks after.1 + left day after.0.last_check_day ≤ left day u.last_check_day

Spends-nothing : (day : String) (u : Updates) → Spends day u (u, [])
Spends-nothing day u = record { installs_left = omega arith; checks_left = omega arith }

Spends-apply_offered :
    (opt : Options) (out : Outside) (p : Pass) (o : Option Offer) (u : Updates)
    → Spends p.day u (apply_offered opt out p o u)
unfolding apply_offered
Spends-apply_offered opt out p none u = Spends-nothing p.day u
Spends-apply_offered opt out p (some o) u =
    let m = (apply opt p.staged out o.release u.manager).0 in
    if-case (Spends p.day u) (is_available u.manager.status && not (str_eq u.last_apply_day p.day))
      (record u { last_apply_day = p.day; manager = m }, installs ∷ []) (u, [])
      (λ e. record { installs_left = ground (arith, eq_refl p.day); checks_left = omega arith })
      (λ e. Spends-nothing p.day u)

Spends-apply_at :
    (opt : Options) (out : Outside) (p : Pass) (t : Option ℕ) (u : Updates)
    → Spends p.day u (apply_at opt out p t u)
unfolding apply_at
Spends-apply_at opt out p none u = Spends-nothing p.day u
Spends-apply_at opt out p (some target) u =
    if-case (Spends p.day u) _ _ _ (λ e. Spends-nothing p.day u)
      (λ e. Spends-apply_offered opt out p u.offered u)

-- The days of the last check and of the last installation.
abbrev days_of : Updates → String × String
days_of u = (u.last_check_day, u.last_apply_day)

days_of-record_found : (f : Found) (u : Updates) → days_of (record_found f u).0 ≡ days_of u
unfolding record_found
days_of-record_found (not_found e) u = refl
days_of-record_found (found o) u = refl

days_of-check :
    (opt : Options) (resolve : Bytes → Bytes → Option Bytes) (p : Pass) (u : Updates)
    → days_of (check opt resolve p.reply p.source u).0 ≡ days_of u
unfolding check
days_of-check opt resolve p u =
    let asked : Updates = record u {
      manager = record u.manager { status = checking; error = none };
    } in
    let keyless : Updates = record u {
      manager = record u.manager { status = idle; error = some no_key };
    } in
    if-case (λ (a : Updates × Bool). days_of a.0 ≡ days_of u) (not opt.has_key) (keyless, false)
      (record_found (find opt resolve p.reply p.source) asked) (λ e. refl)
      (λ e. days_of-record_found (find opt resolve p.reply p.source) asked)

days_of-look :
    (opt : Options) (out : Outside) (p : Pass) (u : Updates)
    → days_of (look opt out p.card u).0 ≡ days_of u
unfolding look
days_of-look opt out p u = ground arith

-- The first check of a day, and what follows it.
Spends-check :
    (day : String) (u checked : Updates) (after : Updates × List Action)
    → str_eq u.last_check_day day ≡ false
    → days_of checked ≡ (day, u.last_apply_day)
    → Spends day checked after
    → Spends day u (after.0, checks ∷ after.1)
Spends-check day u checked after first same w = record {
  installs_left = ground (arith, w.installs_left, ap (λ l. l.1) same);
  checks_left = ground (arith, w.checks_left, ap (λ l. l.0) same, eq_refl day);
}

Spends-check_and_apply :
    (opt : Options) (out : Outside) (resolve : Bytes → Bytes → Option Bytes) (p : Pass)
    (u : Updates)
    → Spends p.day u (check_and_apply opt out resolve p u)
unfolding check_and_apply apply_when_due
Spends-check_and_apply opt out resolve p u =
    let due : Updates = record u { last_check_day = p.day } in
    let (checked, ok) = check opt resolve p.reply p.source due in
    let same : days_of checked ≡ (p.day, u.last_apply_day) = days_of-check opt resolve p due in
    let after = apply_at opt out p p.apply_minute checked in
    if-case (Spends p.day u) (not (str_eq u.last_check_day p.day) && leb u.check_minute p.minute)
      (if ok then (after.0, checks ∷ after.1) else (checked, checks ∷ []))
      (apply_at opt out p p.apply_minute u)
      (λ e.
        if-case (Spends p.day u) ok (after.0, checks ∷ after.1) (checked, checks ∷ [])
          (λ k.
            Spends-check p.day u checked after (ground arith) same
              (Spends-apply_at opt out p p.apply_minute checked))
          (λ k.
            Spends-check p.day u checked (checked, []) (ground arith) same
              (Spends-nothing p.day checked)))
      (λ e. Spends-apply_at opt out p p.apply_minute u)

Spends-same :
    (day : String) (u u' : Updates) (after : Updates × List Action)
    → days_of u' ≡ days_of u
    → Spends day u' after
    → Spends day u after
Spends-same day u u' after same w = record {
  installs_left = rw (sym (ap (λ l. l.1) same)) w.installs_left;
  checks_left = rw (sym (ap (λ l. l.0) same)) w.checks_left;
}

Spends-pass :
    (opt : Options) (out : Outside) (resolve : Bytes → Bytes → Option Bytes) (p : Pass)
    (u : Updates)
    → Spends p.day u (pass opt out resolve p u)
unfolding pass
Spends-pass opt out resolve p u =
    let (looked, err) = look opt out p.card u in
    let same = days_of-look opt out p u in
    if-case (Spends p.day u) (err || not p.auto) (looked, [])
      (check_and_apply opt out resolve p looked)
      (λ e. Spends-same p.day u looked (looked, []) same (Spends-nothing p.day looked))
      (λ e. Spends-same p.day u looked _ same (Spends-check_and_apply opt out resolve p looked))

count_installs-append :
    (xs ys : List Action) → count_installs (xs ++ ys) ≡ count_installs xs + count_installs ys
count_installs-append [] ys = omega arith
count_installs-append (checks ∷ xs) ys = count_installs-append xs ys
count_installs-append (installs ∷ xs) ys = omega (arith, count_installs-append xs ys)

count_checks-append :
    (xs ys : List Action) → count_checks (xs ++ ys) ≡ count_checks xs + count_checks ys
count_checks-append [] ys = omega arith
count_checks-append (checks ∷ xs) ys = omega (arith, count_checks-append xs ys)
count_checks-append (installs ∷ xs) ys = count_checks-append xs ys

abbrev pub AllOn : String → List Pass → Type 0
AllOn day [] = Unit
AllOn day (p ∷ ps) = (p.day ≡ day) × AllOn day ps

Spends-passes :
    (opt : Options) (out : Outside) (resolve : Bytes → Bytes → Option Bytes) (day : String)
    (ps : List Pass) (u : Updates)
    → AllOn day ps
    → Spends day u (passes opt out resolve ps u)
unfolding passes
Spends-passes opt out resolve day [] u on = Spends-nothing day u
Spends-passes opt out resolve day (p ∷ ps) u on =
    let (u', actions) = pass opt out resolve p u in
    let (u'', more) = passes opt out resolve ps u' in
    let w : Spends day u (pass opt out resolve p u) =
      subst (λ d. Spends d u (pass opt out resolve p u)) on.0 (Spends-pass opt out resolve p u) in
    let z = Spends-passes opt out resolve day ps u' on.1 in
    record {
      installs_left =
          omega (arith, w.installs_left, z.installs_left, count_installs-append actions more);
      checks_left = omega (arith, w.checks_left, z.checks_left, count_checks-append actions more);
    }

-- However many passes the loop makes on a day, and whatever they find, it checks at most once on
-- that day and installs an offered release at most once.
pub passes_once_a_day :
    (opt : Options) (out : Outside) (resolve : Bytes → Bytes → Option Bytes) (day : String)
    (ps : List Pass) (u : Updates)
    → AllOn day ps
    → (count_checks (passes opt out resolve ps u).1 ≤ 1)
      × (count_installs (passes opt out resolve ps u).1 ≤ 1)
passes_once_a_day opt out resolve day ps u on =
    let w = Spends-passes opt out resolve day ps u on in
    (ground (arith, w.checks_left), ground (arith, w.installs_left))
