-- ===== src/Updater/Install/Pruned.antt =====
-- What prune takes away, and what it leaves.
use portapixel.Prelude.{
  ◌≡◌, refl, sym, ◌∙◌, ◌↔◌, inl, inr, true, false, not, ◌&&◌, List, [], ◌∷◌, ◌++◌, arith, Bytes,
  bytes_eq, bytes_eq_iff, Bool-cases, if◌then◌else◌,
}
use portapixel.Updater.Install.{
  Disk, Op, clear_release, has_release, effect, Outside, Run, perform, stays, prune_one, prune_each,
  prune,
}
use portapixel.Updater.Install.Needed.{Needed, stays-Needed, Needed-stays}
use portapixel.Updater.Install.Safety.{has_release-without}

-- After a call that removes a release.
pub has_release-clear :
    (out : Outside) (v w : Bytes) (r : Run)
    → has_release (perform out (clear_release v) r).0.disk.releases w ≡ (
        if out (r.ops ++ clear_release v ∷ []) && bytes_eq v w
        then false
        else has_release r.disk.releases w)
unfolding perform effect
has_release-clear out v w r = ground (arith, has_release-without v w r.disk.releases)

-- The links of the disk.
abbrev pub links : Disk → Bytes × Bytes × Bytes
links d = (d.current, d.previous, d.pending)

module _ (out : Outside) (keep previous running : Bytes) where
  has_release-prune_one :
      (name w : Bytes) (r : Run)
      → has_release (prune_one out keep previous running name r).disk.releases w ≡ (
          if not (stays keep previous running name)
            && out (r.ops ++ clear_release name ∷ [])
            && bytes_eq name w
          then false
          else has_release r.disk.releases w)
  unfolding prune_one
  has_release-prune_one name w r = elim (Bool-cases (stays keep previous running name)) [
    | inl e ↦ rw e
    | inr e ↦ rw e (has_release-clear out name w r)
  ]

  -- What stays is there as before.
  has_release-prune_each :
      (names : List Bytes) (r : Run) (w : Bytes)
      → stays keep previous running w ≡ true
      → has_release (prune_each out keep previous running names r).disk.releases w
        ≡ has_release r.disk.releases w
  unfolding prune_each
  has_release-prune_each [] r w h = refl
  has_release-prune_each (name ∷ names) r w h =
      has_release-prune_each names (prune_one out keep previous running name r) w h
      ∙ has_release-prune_one name w r
      ∙ ground (arith, bytes_eq_iff name w)

  links-prune_one :
      (name : Bytes) (r : Run)
      → links (prune_one out keep previous running name r).disk ≡ links r.disk
  unfolding prune_one perform effect
  links-prune_one name r = ground arith

  pub links-prune_each :
      (names : List Bytes) (r : Run)
      → links (prune_each out keep previous running names r).disk ≡ links r.disk
  unfolding prune_each
  links-prune_each [] r = refl
  links-prune_each (name ∷ names) r =
      links-prune_each names (prune_one out keep previous running name r) ∙ links-prune_one name r

  -- With calls that succeed, a name of the list that does not stay is gone.
  gone-prune_each :
      ((ops : List Op) → out ops ≡ true)
      → (names : List Bytes) (r : Run) (w : Bytes) → stays keep previous running w ≡ false
      → has_release (prune_each out keep previous running names r).disk.releases w
        ≡ not (has_release names w) && has_release r.disk.releases w
  unfolding prune_each has_release
  gone-prune_each works [] r w h = refl
  gone-prune_each works (name ∷ names) r w h =
      gone-prune_each works names (prune_one out keep previous running name r) w h
      ∙ ground (
        arith,
        has_release-prune_one name w r,
        bytes_eq_iff name w,
        works (r.ops ++ clear_release name ∷ []),
      )

-- The links stay as they are, and the release of this install, the previous one, the one that runs
-- and the directories that are no releases are there as before.
pub prune_keeps :
    (out : Outside) (keep running : Bytes) (r : Run)
    → (links (prune out keep running r).disk ≡ links r.disk)
      × ((w : Bytes)
          → stays keep r.disk.previous running w ≡ true
          → has_release (prune out keep running r).disk.releases w ≡ has_release r.disk.releases w)
unfolding prune
prune_keeps out keep running r = (
  links-prune_each out keep r.disk.previous running r.disk.releases r,
  has_release-prune_each out keep r.disk.previous running r.disk.releases r,
)

has_release-prune :
    (out : Outside) (keep running : Bytes) (r : Run) (w : Bytes)
    → ((ops : List Op) → out ops ≡ true)
    → has_release (prune out keep running r).disk.releases w
      ≡ stays keep r.disk.previous running w && has_release r.disk.releases w
unfolding prune
has_release-prune out keep running r w works =
    elim (Bool-cases (stays keep r.disk.previous running w)) [
      | inl e ↦ rw e (has_release-prune_each out keep r.disk.previous running r.disk.releases r w e)
      | inr e ↦ rw e (
          gone-prune_each out keep r.disk.previous running works r.disk.releases r w e
          ∙ ground arith)
    ]

-- With calls that succeed, a directory is there after a prune exactly if it was there before and is
-- needed: it is the release that the install put in, the one that the previous link names, the one
-- that runs, or its name starts with a full stop or ends in .staging. The two links and the pending
-- marker stay as they are.
pub prune_exact :
    (out : Outside) (keep running : Bytes) (r : Run) (w : Bytes)
    → ((ops : List Op) → out ops ≡ true)
    → ((has_release (prune out keep running r).disk.releases w ≡ true)
        ↔ (Needed keep r.disk.previous running w × (has_release r.disk.releases w ≡ true)))
      × (links (prune out keep running r).disk ≡ links r.disk)
prune_exact out keep running r w works =
    let same = has_release-prune out keep running r w works in
    (
      (
        λ h.
            let both : (stays keep r.disk.previous running w && has_release r.disk.releases w)
                ≡ true =
              sym same ∙ h in
            (
              stays-Needed keep r.disk.previous running w (ground (arith, both)),
              ground (arith, both),
            ),
        λ (needed, there).
            same ∙ ground (arith, Needed-stays keep r.disk.previous running w needed, there),
      ),
      (prune_keeps out keep running r).0,
    )
