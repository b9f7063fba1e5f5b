-- ===== src/Updater/Install/Done.antt =====
-- An install whose calls succeed.
use portapixel.Prelude.{
  ◌≡◌, refl, sym, ◌∙◌, inl, inr, true, false, none, List, [], ◌∷◌, ◌++◌, is_empty, Bytes, bytes_eq,
  Bool-cases, if◌then◌else◌, subst, if-case,
}
use portapixel.Updater.Install.{
  Disk, Op, clear_release, move_release, point_previous, point_current, write_pending, name_binary,
  make_health, without, effect, Outside, Run, begin, Failure, Outcome, step, keep_previous, flip,
  install, link_fail, pending_fail, health_fail, move_fail, name_fail, remove_fail,
}
use portapixel.Updater.Install.Safety.{advanced, perform-true}

-- The calls of an install, in order.
abbrev pub calls : Disk → Bytes → List Op
calls old version =
    clear_release version
      ∷ name_binary
      ∷ move_release version
      ∷ (if is_empty old.current then [] else point_previous old.current ∷ [])
    ++ (make_health ∷ write_pending version ∷ point_current version ∷ [])

-- The disk with the new release.
abbrev pub installed : Disk → Bytes → Disk
installed old version = record {
  releases = version ∷ without version old.releases;
  current = version;
  previous = if is_empty old.current then old.previous else old.current;
  pending = version;
}

module _ (out : Outside) (works : (ops : List Op) → out ops ≡ true) where
  step-works :
      (op : Op) (err : Failure) (next : Run → Outcome) (r : Run)
      → step out op err next r ≡ next (advanced r op (effect op r.disk))
  unfolding step
  step-works op err next r = rw (perform-true out op r (works (r.ops ++ op ∷ [])))

  flip-works :
      (version : Bytes) (r : Run)
      → flip out version r
        ≡ (advanced r (point_current version) (effect (point_current version) r.disk), none)
  unfolding flip
  flip-works version r =
      rw (perform-true out (point_current version) r (works (r.ops ++ point_current version ∷ [])))

  keep_previous-works :
      (next : Run → Outcome) (r : Run)
      → keep_previous out next r ≡ (
          if is_empty r.disk.current
          then next r
          else next (
              advanced r
                (point_previous r.disk.current)
                (effect (point_previous r.disk.current) r.disk)))
  unfolding keep_previous
  keep_previous-works next r = elim (Bool-cases (is_empty r.disk.current)) [
    | inl e ↦ rw e refl
    | inr e ↦ rw e (step-works (point_previous r.disk.current) link_fail next r)
  ]

abbrev Ends : Disk → Bytes → Outcome → Type 0
Ends old version o =
    (o.1 ≡ none) × (o.0.ops ≡ calls old version) × (o.0.disk ≡ installed old version)

-- From where the binary and the release are in place.
abbrev last_steps : Outside → Bytes → Run → Outcome
last_steps out version =
    step out make_health health_fail
      (step out (write_pending version) pending_fail (flip out version))

last_steps-works :
    (out : Outside) (works : (ops : List Op) → out ops ≡ true) (version : Bytes) (r : Run)
    → last_steps out version r ≡ (
      advanced
          (advanced
            (advanced r make_health r.disk)
            (write_pending version)
            (record r.disk { pending = version }))
          (point_current version)
          (record r.disk { pending = version; current = version }),
      none,
    )
unfolding effect
last_steps-works out works version r =
    step-works out works make_health health_fail _ r
    ∙ step-works out works (write_pending version) pending_fail _ _
    ∙ flip-works out works version _

-- An install whose calls all succeed, over a current link that names another release, gives no
-- error. Its calls are, in this order: the directory of the release is cleared, the binary gets its
-- name, the release moves into place, the previous link is pointed at the old current one if there
-- is one, the directory of the gate is made, the pending marker is written and the current link
-- moves. At the end the releases are those from before and the new one, the current link and the
-- marker name the new one, and the previous link is the old current one, or as before if there was
-- none.
pub install_done :
    (old : Disk) (version : Bytes) (out : Outside)
    → ((ops : List Op) → out ops ≡ true)
    → bytes_eq old.current version ≡ false
    → ((install out version (begin old)).1 ≡ none)
      × ((install out version (begin old)).0.ops ≡ calls old version)
      × ((install out version (begin old)).0.disk ≡ installed old version)
unfolding install effect
install_done old version out works other =
    let next = last_steps out version in
    let placed : Disk = record old { releases = version ∷ without version old.releases } in
    let moved : Run =
      advanced
        (advanced
          (advanced (begin old) (clear_release version)
            (record old { releases = without version old.releases }))
          name_binary (record old { releases = without version old.releases }))
        (move_release version) placed in
    let kept : Run =
      advanced moved (point_previous old.current) (record placed { previous = old.current }) in
    let start =
      step-works out works (clear_release version) remove_fail _ (begin old)
      ∙ step-works out works name_binary name_fail _ _
      ∙ step-works out works (move_release version) move_fail (keep_previous out next) _
      ∙ keep_previous-works out works next moved in
    rw other (
      subst (Ends old version) (sym start) (
        if-case (Ends old version) (is_empty old.current) (next moved) (next kept)
          (λ e.
            subst (Ends old version) (sym (last_steps-works out works version moved))
              (refl, rw e refl, rw e refl))
          (λ e.
            subst (Ends old version) (sym (last_steps-works out works version kept))
              (refl, rw e refl, rw e refl))))
