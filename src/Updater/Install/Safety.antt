-- ===== src/Updater/Install/Safety.antt =====
-- A power cut at any point of an install leaves a release that runs.
use portapixel.Prelude.{
  ◌≡◌, refl, ◌∙◌, ap, ◌⊎◌, inl, inr, true, false, none, some, List, [], ◌∷◌, ◌++◌, arith, is_empty,
  Bytes, bytes_eq, bytes_eq_iff, Bool-cases, if◌then◌else◌,
}
use portapixel.Updater.Install.{
  Disk, Op, clear_release, move_release, point_previous, point_current, write_pending, name_binary,
  make_health, clear_pending, has_release, without, effect, Outside, Run, begin, perform, Failure,
  Outcome, step, keep_previous, flip, install, link_fail, pending_fail, health_fail, move_fail,
  name_fail, remove_fail,
}

pub has_release-without :
    (v w : Bytes) (xs : List Bytes)
    → has_release (without v xs) w ≡ (if bytes_eq v w then false else has_release xs w)
unfolding has_release without
has_release-without v w [] = ground arith
has_release-without v w (x ∷ xs) =
    ground (arith, bytes_eq_iff x v, bytes_eq_iff v w, bytes_eq_iff x w, has_release-without v w xs)

abbrev pub AllDisks : (Disk → Type 0) → List Disk → Type 0
AllDisks P [] = Unit
AllDisks P (d ∷ ds) = P d × AllDisks P ds

AllDisks-snoc :
    (P : Disk → Type 0) (ds : List Disk) (d : Disk)
    → AllDisks P ds
    → P d
    → AllDisks P (ds ++ d ∷ [])
AllDisks-snoc P [] d a p = (p, tt)
AllDisks-snoc P (e ∷ ds) d a p = (a.0, AllDisks-snoc P ds d a.1 p)

-- The current link is the old one, and the old release is there if it was there before.
pub record Before (old : Disk) (d : Disk) : Type 0 where
  pub same : d.current ≡ old.current
  pub there :
      has_release old.releases old.current ≡ true → has_release d.releases old.current ≡ true

-- What holds before the current link moves.
pub record Ready (old : Disk) (version : Bytes) (d : Disk) : Type 0 where
  pub there :
      has_release old.releases old.current ≡ true → has_release d.releases old.current ≡ true
  pub installed : has_release d.releases version ≡ true
  pub kept : is_empty old.current ≡ false → d.previous ≡ old.current
  pub waits : d.pending ≡ version

-- The current link names the new release, which is there; the gate waits for it, and can go back to
-- the old release.
pub record After (old : Disk) (version : Bytes) (d : Disk) : Type 0 where
  pub moved : d.current ≡ version
  pub ready : Ready old version d

abbrev pub Safe : Disk → Bytes → Disk → Type 0
Safe old version d = Before old d ⊎ After old version d

abbrev pub Ended : Disk → Bytes → Outcome → Type 0
Ended old version (r, none) = After old version r.disk
Ended old version (r, some e) = Before old r.disk

-- The run after a call that leaves this disk.
abbrev pub advanced : Run → Op → Disk → Run
advanced r op d = record { disk = d; ops = r.ops ++ op ∷ []; seen = r.seen ++ d ∷ [] }

pub perform-true :
    (out : Outside) (op : Op) (r : Run)
    → out (r.ops ++ op ∷ []) ≡ true
    → perform out op r ≡ (advanced r op (effect op r.disk), true)
unfolding perform
perform-true out op r e = rw e

pub perform-false :
    (out : Outside) (op : Op) (r : Run)
    → out (r.ops ++ op ∷ []) ≡ false
    → perform out op r ≡ (advanced r op r.disk, false)
unfolding perform
perform-false out op r e = rw e

module _ (old : Disk) (version : Bytes) (out : Outside) where
  AllSafe : Run → Type 0
  AllSafe r = AllDisks (Safe old version) r.seen

  abbrev Good : Outcome → Type 0
  Good o = AllSafe o.0 × Ended old version o

  -- From a disk with P, the rest of an install is safe and ends well.
  abbrev Goes : (Disk → Type 0) → (Run → Outcome) → Type 0
  Goes P next = (r : Run) → P r.disk → AllSafe r → Good (next r)

  AllSafe-advanced :
      (r : Run) (op : Op) (d : Disk) → Safe old version d → AllSafe r → AllSafe (advanced r op d)
  unfolding AllSafe
  AllSafe-advanced r op d s a = AllDisks-snoc (Safe old version) r.seen d a s

  Goes-step :
      (op : Op) (err : Failure) (next : Run → Outcome) (P Q : Disk → Type 0)
      → ((d : Disk) → P d → Before old d)
      → ((d : Disk) → Q d → Before old d)
      → ((d : Disk) → P d → Q (effect op d))
      → Goes Q next
      → Goes P (step out op err next)
  unfolding step
  Goes-step op err next P Q before after makes goes r p a =
      elim (Bool-cases (out (r.ops ++ op ∷ []))) [
        | inl e ↦
            let d = effect op r.disk in
            let q : Q d = makes r.disk p in
            rw (perform-true out op r e)
              (goes (advanced r op d) q (AllSafe-advanced r op d (inl (after d q)) a))
        | inr e ↦
            let b = before r.disk p in
            rw (perform-false out op r e) (AllSafe-advanced r op r.disk (inl b) a, b)
      ]

  Good-clear_pending :
      (r : Run)
      → Before old r.disk
      → AllSafe r
      → Good ((perform out clear_pending r).0, some link_fail)
  unfolding effect
  Good-clear_pending r b a = elim (Bool-cases (out (r.ops ++ clear_pending ∷ []))) [
    | inl e ↦
        let b' : Before old (effect clear_pending r.disk) = record {
          same = b.same;
          there = b.there;
        } in
        rw (perform-true out clear_pending r e)
          (AllSafe-advanced r clear_pending (effect clear_pending r.disk) (inl b') a, b')
    | inr e ↦
        rw (perform-false out clear_pending r e)
          (AllSafe-advanced r clear_pending r.disk (inl b) a, b)
  ]

  Goes-flip : Goes (λ d. Before old d × Ready old version d) (flip out version)
  unfolding flip effect
  Goes-flip r (b, w) a = elim (Bool-cases (out (r.ops ++ point_current version ∷ []))) [
    | inl e ↦
        let d : Disk = record r.disk { current = version } in
        let after : After old version d = record {
          moved = refl;
          ready = record {
            there = w.there;
            installed = w.installed;
            kept = w.kept;
            waits = w.waits;
          };
        } in
        rw (perform-true out (point_current version) r e)
          (AllSafe-advanced r (point_current version) d (inr after) a, after)
    | inr e ↦
        let stuck = advanced r (point_current version) r.disk in
        rw (perform-false out (point_current version) r e)
          (Good-clear_pending stuck b (AllSafe-advanced r (point_current version) r.disk (inl b) a))
  ]

  -- The release is there.
  abbrev Installed : Disk → Type 0
  Installed d = Before old d × (has_release d.releases version ≡ true)

  -- And the link to the old one is kept.
  abbrev Kept : Disk → Type 0
  Kept d = Installed d × (is_empty old.current ≡ false → d.previous ≡ old.current)

  Goes-write : Goes Kept (step out (write_pending version) pending_fail (flip out version))
  unfolding effect
  Goes-write =
      Goes-step (write_pending version) pending_fail (flip out version) Kept
        (λ d. Before old d × Ready old version d) (λ d p. p.0.0) (λ d p. p.0)
        (λ d p. (
          record { same = p.0.0.same; there = p.0.0.there },
          record { there = p.0.0.there; installed = p.0.1; kept = p.1; waits = refl },
        ))
        Goes-flip

  Goes-health : Goes Kept (
      step out make_health health_fail
        (step out (write_pending version) pending_fail (flip out version)))
  unfolding effect
  Goes-health =
      Goes-step make_health health_fail _ Kept Kept (λ d p. p.0.0) (λ d p. p.0.0) (λ d p. p)
        Goes-write

  Goes-keep_previous :
      (next : Run → Outcome) → Goes Kept next → Goes Installed (keep_previous out next)
  unfolding keep_previous effect
  Goes-keep_previous next goes r p a = elim (Bool-cases (is_empty r.disk.current)) [
    | inl e ↦ rw e (goes r (p, λ h. absurd (ground (arith, ap is_empty p.0.same))) a)
    | inr e ↦ rw e (
        Goes-step (point_previous r.disk.current) link_fail next Installed Kept (λ d q. q.0)
          (λ d q. q.0.0)
          (λ d q. ((record { same = q.0.same; there = q.0.there }, q.1), λ h. p.0.same)) goes r p a)
  ]

  Goes-move : Goes (Before old) (
      step out (move_release version) move_fail (
        keep_previous out (
          step out make_health health_fail
            (step out (write_pending version) pending_fail (flip out version)))))
  unfolding effect has_release
  Goes-move =
      Goes-step (move_release version) move_fail _ (Before old) Installed (λ d b. b) (λ d p. p.0)
        (λ d b. (
          record { same = b.same; there = λ h. ground (arith, b.there h) },
          ground (arith, bytes_eq_iff version version),
        ))
        (Goes-keep_previous _ Goes-health)

  Goes-install :
      bytes_eq old.current version ≡ false
      → (r : Run) → Before old r.disk
      → AllSafe r
      → Good (install out version r)
  unfolding install effect
  Goes-install other r b a = rw (ap (λ c. bytes_eq c version) b.same ∙ other) (
      Goes-step (clear_release version) remove_fail _ (Before old) (Before old) (λ d b'. b')
        (λ d b'. b')
        (λ d b'. record {
          same = b'.same;
          there = λ h. ground (
            arith,
            has_release-without version old.current d.releases,
            bytes_eq_iff version old.current,
            bytes_eq_iff old.current version,
            b'.there h,
          );
        })
        (Goes-step name_binary name_fail _ (Before old) (Before old) (λ d b'. b') (λ d b'. b')
          (λ d b'. b') Goes-move)
        r b a)

-- At every point at which the power can fail in an install, and at its end, the current link is the
-- old one or names the new release, and the old release is there if it was there before. In the
-- latter case the new release is there, the gate waits for its marker, and the previous link names
-- the old release if there was one. An install that gives no error ends in the latter case, one
-- that fails in the former.
pub install-Safe :
    (old : Disk) (version : Bytes) (out : Outside)
    → AllDisks (Safe old version) (install out version (begin old)).0.seen
      × Ended old version (install out version (begin old))
unfolding AllSafe install
install-Safe old version out =
    let start : Before old old = record { same = refl; there = λ h. h } in
    elim (Bool-cases (bytes_eq old.current version)) [
      | inl e ↦ rw e (tt, start)
      | inr e ↦ Goes-install old version out e (begin old) start tt
    ]
