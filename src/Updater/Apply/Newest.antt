-- ===== src/Updater/Apply/Newest.antt =====
-- Apply moves the current link to a newer, signed release or leaves it.
use portapixel.Prelude.{
  if-case, ◌≡◌, subst, refl, ◌∙◌, ap, sym, ◌⊎◌, inl, inr, true, false, not, ◌&&◌, Option, none,
  some, [], ◌∷◌, arith, is_empty, Bytes, bytes_eq,
}
use Prim.Native.Nat.{Ordering}
use portapixel.Updater.Version.{compare_versions, normalize, valid_version}
use portapixel.Updater.Install.{
  Disk, Outside, Run, begin, perform, effect, install, prune, Failure, Outcome,
}
use portapixel.Updater.Install.Safety.{install-Safe, Ended}
use portapixel.Updater.Install.Pruned.{prune_keeps}
use portapixel.Updater.Apply.{
  Release, Options, BinaryInfo, Staged, Manager, refuse, Verified, verified, refused, verify,
  verify_info, Applied, end_apply, install_release, apply_verified, on_error, on_verified,
  apply_staged, apply_release, released, apply, Source, verifying,
}

-- What a release must be for the current link to move to it.
pub record Allowed (opt : Options) (st : Staged) (old version : Bytes) : Type 0 where
  pub key : opt.has_key ≡ true
  pub named : valid_version version ≡ true
  pub good : opt.is_bad version ≡ false
  pub newer : compare_versions version opt.running ≡ Ordering.gt
  pub newer_than_staged : is_empty old ≡ false → compare_versions version old ≡ Ordering.gt
  pub signed : st.signed ≡ true
  pub same_sum : st.same_sum ≡ true

refuse-none :
    (opt : Options) (old : Bytes) (rel : Release)
    → refuse opt old rel ≡ none
    → is_empty rel.version ≡ false
    → (opt.has_key ≡ true)
      × (valid_version rel.version ≡ true)
      × (opt.is_bad rel.version ≡ false)
      × (compare_versions rel.version opt.running ≡ Ordering.gt)
      × (is_empty old ≡ false → compare_versions rel.version old ≡ Ordering.gt)
unfolding refuse
refuse-none opt old rel h named =
    (ground arith, ground arith, ground arith, ground arith, ground arith)

valid-verify_info :
    (opt : Options) (info : Option BinaryInfo) (version : Bytes)
    → verify_info opt info ≡ verified version
    → valid_version version ≡ true
unfolding verify_info
valid-verify_info opt none version h = absurd (ground arith)
valid-verify_info opt (some info) version h = ground arith

verify-verified :
    (opt : Options) (st : Staged) (version : Bytes)
    → verify opt st ≡ verified version
    → (st.signed ≡ true) × (st.same_sum ≡ true) × (valid_version version ≡ true)
unfolding verify
verify-verified opt st version h =
    (ground arith, ground arith, valid-verify_info opt st.info version (ground arith))

current-end_apply :
    (opt : Options) (out : Outside) (version : Bytes) (source : Source) (m : Manager)
    → (end_apply opt out version source m).0.run.disk.current ≡ m.run.disk.current
unfolding end_apply perform effect
current-end_apply opt out version source m = ground arith

Ended-cases :
    (old : Disk) (version : Bytes) (o : Outcome)
    → Ended old version o
    → ((o.1 ≡ none) × (o.0.disk.current ≡ version))
      ⊎ ((e : Failure) × (o.1 ≡ some e) × (o.0.disk.current ≡ old.current))
Ended-cases old version (run, none) w = inl (refl, w.moved)
Ended-cases old version (run, some e) w = inr (e, refl, w.same)

current-prune :
    (out : Outside) (keep running : Bytes) (r : Run)
    → (prune out keep running r).disk.current ≡ r.disk.current
current-prune out keep running r = ap (λ l. l.0) (prune_keeps out keep running r).0

-- The manager on this disk.
abbrev pub on_disk : Disk → Manager → Manager
on_disk old m = record m { run = begin old }

abbrev current_of : Applied → Bytes
current_of a = a.0.run.disk.current

on_error-case :
    (P : Applied → Type 0) (err : Option Failure) (m : Manager) (done : Applied)
    → ((e : Failure) → err ≡ some e → P (m, some e))
    → (err ≡ none → P done)
    → P (on_error err m done)
unfolding on_error
on_error-case P none m done f g = g refl
on_error-case P (some e) m done f g = f e refl

current-install_release :
    (opt : Options) (out : Outside) (version : Bytes) (source : Source) (old : Disk) (m : Manager)
    → (current_of (install_release opt out version source (on_disk old m)) ≡ old.current)
      ⊎ (current_of (install_release opt out version source (on_disk old m)) ≡ version)
unfolding install_release
current-install_release opt out version source old m =
    let (run, err) = install out version (begin old) in
    let ended =
      Ended-cases old version (install out version (begin old)) (install-Safe old version out).1 in
    on_error-case (λ a. (current_of a ≡ old.current) ⊎ (current_of a ≡ version)) err _ _
      (λ e h. elim ended [ inl (k, moved) ↦ absurd (ground arith) | inr (f, k, same) ↦ inl same ])
      (λ h. elim ended [
        | inl (k, moved) ↦ inr (
            current-end_apply opt out version source _
            ∙ current-prune out version opt.running run
            ∙ moved)
        | inr (f, k, same) ↦ absurd (ground arith)
      ])

Allowed-refuse :
    (opt : Options) (st : Staged) (old : Bytes) (rel : Release) (version : Bytes)
    → verify opt st ≡ verified version
    → refuse opt old rel ≡ none
    → is_empty rel.version ≡ false
    → Allowed opt st old rel.version
Allowed-refuse opt st old rel version v h named =
    let (key, valid, good, newer, staged) = refuse-none opt old rel h named in
    let (signed, same, checked) = verify-verified opt st version v in
    record {
      key = key;
      named = valid;
      good = good;
      newer = newer;
      newer_than_staged = staged;
      signed = signed;
      same_sum = same;
    }

-- The current link stays, or it names a release that may be installed.
abbrev pub StaysOrAllowed : Options → Staged → Disk → Bytes → Type 0
StaysOrAllowed opt st old current = (current ≡ old.current) ⊎ Allowed opt st old.current current

Allowed-install_release :
    (opt : Options) (st : Staged) (out : Outside) (version : Bytes) (source : Source) (old : Disk)
    (m : Manager)
    → Allowed opt st old.current version
    → StaysOrAllowed opt st old
        (current_of (install_release opt out version source (on_disk old m)))
Allowed-install_release opt st out version source old m w =
    elim (current-install_release opt out version source old m) [
      | inl same ↦ inl same
      | inr moved ↦ inr (subst (λ v. Allowed opt st old.current v) (sym moved) w)
    ]

valid-filled : (version : Bytes) → valid_version version ≡ true → is_empty version ≡ false
unfolding valid_version
valid-filled [] h = absurd (ground arith)
valid-filled (c ∷ cs) h = refl

Allowed-apply_verified :
    (opt : Options) (st : Staged) (out : Outside) (version : Bytes) (rel : Release) (old : Disk)
    (m : Manager)
    → verify opt st ≡ verified version
    → refuse opt old.current rel ≡ none
    → StaysOrAllowed opt st old (current_of (apply_verified opt out version rel (on_disk old m)))
unfolding apply_verified
Allowed-apply_verified opt st out version rel old m v h =
    let found : Release = record rel { version = version } in
    let P : Applied → Type 0 = λ a. StaysOrAllowed opt st old (current_of a) in
    if-case P (is_empty rel.version) _ _
      (λ e.
        on_error-case P (refuse opt old.current found) _ _ (λ f k. inl refl)
          (λ k. Allowed-install_release opt st out version rel.source old m (
            Allowed-refuse opt st old.current found version v k
              (valid-filled version (verify-verified opt st version v).2))))
      (λ e.
        if-case P (not (is_empty version) && not (bytes_eq version rel.version)) _ _ (λ k. inl refl)
          (λ k.
            Allowed-install_release opt st out rel.version rel.source old m
              (Allowed-refuse opt st old.current rel version v h e)))

Allowed-on_verified :
    (opt : Options) (st : Staged) (out : Outside) (w : Verified) (rel : Release) (old : Disk)
    (m : Manager)
    → verify opt st ≡ w
    → refuse opt old.current rel ≡ none
    → StaysOrAllowed opt st old (current_of (on_verified opt out w rel (on_disk old m)))
unfolding on_verified
Allowed-on_verified opt st out (refused e) rel old m v h = inl refl
Allowed-on_verified opt st out (verified version) rel old m v h =
    Allowed-apply_verified opt st out version rel old m v h

current-released : (a : Applied) → current_of (released a) ≡ current_of a
unfolding released
current-released (m, none) = refl
current-released (m, some e) = refl

Allowed-apply_release :
    (opt : Options) (st : Staged) (out : Outside) (raw : Release) (old : Disk) (m : Manager)
    → StaysOrAllowed opt st old (current_of (apply_release opt st out raw (on_disk old m)))
unfolding apply_release apply_staged
Allowed-apply_release opt st out raw old m =
    let rel : Release = record raw { version = normalize raw.version } in
    let P : Applied → Type 0 = λ a. StaysOrAllowed opt st old (current_of a) in
    on_error-case P (refuse opt old.current rel) _ _ (λ e h. inl refl)
      (λ h.
        if-case P st.fetched _ _
          (λ e.
            Allowed-on_verified opt st out (verify opt st) rel old
              (record m { status = verifying; error = none }) refl h)
          (λ e. inl refl))

-- However an update ends, the current link stays or names a release that may be installed: the build
-- has a key, the signature and the checksum of the binary were good, the name is a valid one, the
-- release never failed its health gate, and it is newer than the release that runs and than the one
-- that the link named before.
pub apply_allowed :
    (opt : Options) (st : Staged) (out : Outside) (rel : Release) (old : Disk) (m : Manager)
    → StaysOrAllowed opt st old (apply opt st out rel (on_disk old m)).0.run.disk.current
unfolding apply
apply_allowed opt st out rel old m =
    let P : Applied → Type 0 = λ a. StaysOrAllowed opt st old (current_of a) in
    if-case P m.is_busy _ _ (λ e. inl refl)
      (λ e.
        subst (StaysOrAllowed opt st old) (sym (current-released _))
          (Allowed-apply_release opt st out rel old (record m { is_busy = true })))
