-- ===== src/Updater/Loop/Offered.antt =====
-- What is offered is newer than what runs, and has its three files.
use portapixel.Prelude.{
  ℕ, if-case, subst, ◌==◌, ◌≡◌, refl, ◌∙◌, sym, ap, Bool, true, false, not, ◌&&◌, ◌||◌, Option,
  none, some, List, [], ◌∷◌, ◌++◌, arith, is_empty, Bytes, if◌then◌else◌, str_eq, leb,
}
use Prim.Native.Nat.{Ordering}
use portapixel.Manifest.Name.{trim_space}
use portapixel.Updater.Version.{compare_versions, normalize}
use portapixel.Updater.Install.{
  Outside, no_key, no_release, no_binary, no_signature, no_version, no_server, refused_for_now,
  no_page, other_answer,
}
use portapixel.Updater.Apply.{Options, checking, idle, github}
use portapixel.Updater.Offers.{
  Offer, Found, found, not_found, newer, fleet_offer, fleet_release, complete, pick, Asset, Reply,
  no_reply, bad_body, status, document, github_release, find, CheckSource, Updates, record_found,
  check, asset_name, trim_slash,
}
use portapixel.Updater.Loop.{
  Pass, Action, checks, look, apply_offered, apply_at, apply_when_due, check_and_apply, pass,
  passes,
}

pub record GoodOffer (opt : Options) (o : Offer) : Type 0 where
  pub is_newer : compare_versions o.release.version opt.running ≡ Ordering.gt
  pub has_binary : is_empty o.binary_url ≡ false
  pub has_sig : is_empty o.sig_url ≡ false
  pub has_sums : is_empty o.sums_url ≡ false

abbrev pub GoodFound : Options → Found → Type 0
GoodFound opt (found o) = GoodOffer opt o
GoodFound opt (not_found e) = Unit

abbrev pub GoodOffered : Options → Option Offer → Type 0
GoodOffered opt none = Unit
GoodOffered opt (some o) = GoodOffer opt o

newer-gt :
    (opt : Options) (v : Bytes) → newer opt v ≡ true → compare_versions v opt.running ≡ Ordering.gt
unfolding newer
newer-gt opt v h = ground arith

is_empty-append : (xs ys : Bytes) (c : ℕ) → is_empty (xs ++ c ∷ ys) ≡ false
is_empty-append [] ys c = refl
is_empty-append (x ∷ xs) ys c = refl

GoodFound-fleet_offer :
    (opt : Options) (v : Bytes) (address : Option Bytes)
    → newer opt v ≡ true
    → GoodFound opt (fleet_offer opt v address)
unfolding fleet_offer
GoodFound-fleet_offer opt v none h = tt
GoodFound-fleet_offer opt v (some address) h = record {
  is_newer = newer-gt opt v h;
  has_binary = is_empty-append (trim_slash address) _ b'/';
  has_sig = is_empty-append (trim_slash address) _ b'/';
  has_sums = is_empty-append (trim_slash address) _ b'/';
}

GoodFound-fleet_release :
    (opt : Options) (resolve : Bytes → Bytes → Option Bytes) (src : CheckSource)
    → GoodFound opt (fleet_release opt resolve src)
unfolding fleet_release
GoodFound-fleet_release opt resolve src =
    let version = normalize src.version in
    let offer = fleet_offer opt version (resolve src.server_url src.base_url) in
    let served = if is_empty (trim_space src.server_url) then not_found no_server else offer in
    let P : Found → Type 0 = λ f. GoodFound opt f in
    if-case P (is_empty version) (not_found no_version)
      (if not (newer opt version) then not_found no_release else served) (λ e. tt)
      (λ e.
        if-case P (not (newer opt version)) (not_found no_release) served (λ k. tt)
          (λ k.
            if-case P (is_empty (trim_space src.server_url)) (not_found no_server) offer (λ n. tt)
              (λ n.
                GoodFound-fleet_offer opt version (resolve src.server_url src.base_url)
                  (ground arith))))

version-pick :
    (asset : Bytes) (assets : List Asset) (o : Offer)
    → (pick asset assets o).release.version ≡ o.release.version
unfolding pick
version-pick asset [] o = refl
version-pick asset (a ∷ assets) o = version-pick asset assets _ ∙ ground arith

GoodFound-complete :
    (opt : Options) (o : Offer)
    → compare_versions o.release.version opt.running ≡ Ordering.gt
    → GoodFound opt (complete o)
unfolding complete
GoodFound-complete opt o h =
    if-case (GoodFound opt) (is_empty o.binary_url) (not_found no_binary)
      (if is_empty o.sig_url || is_empty o.sums_url then not_found no_signature else found o)
      (λ e. tt)
      (λ e.
        if-case (GoodFound opt) (is_empty o.sig_url || is_empty o.sums_url) (not_found no_signature)
          (found o) (λ k. tt)
          (λ k. record {
            is_newer = h;
            has_binary = e;
            has_sig = ground arith;
            has_sums = ground arith;
          }))

GoodFound-github_release :
    (opt : Options) (reply : Reply) → GoodFound opt (github_release opt reply)
unfolding github_release
GoodFound-github_release opt no_reply = tt
GoodFound-github_release opt bad_body = tt
GoodFound-github_release opt (status n) =
    let P : Found → Type 0 = λ f. GoodFound opt f in
    if-case P (n == 403 || n == 429) (not_found refused_for_now)
      (if n == 404 then not_found no_page else not_found other_answer) (λ e. tt)
      (λ e. if-case P (n == 404) (not_found no_page) (not_found other_answer) (λ k. tt) (λ k. tt))
GoodFound-github_release opt (document doc) =
    let tag = normalize doc.tag in
    let start : Offer = record {
      release = record { version = tag; source = github; size = 0 };
      binary_url = [];
      sig_url = [];
      sums_url = [];
    } in
    let picked = pick (asset_name opt) doc.assets start in
    let P : Found → Type 0 = λ f. GoodFound opt f in
    if-case P (doc.draft || doc.prerelease || is_empty doc.tag) (not_found no_release)
      (if not (newer opt tag) then not_found no_release else complete picked) (λ e. tt)
      (λ e.
        if-case P (not (newer opt tag)) (not_found no_release) (complete picked) (λ k. tt)
          (λ k. GoodFound-complete opt picked (
            ap (λ v. compare_versions v opt.running)
              (version-pick (asset_name opt) doc.assets start)
            ∙ newer-gt opt tag (ground arith))))

-- A release that a source gives is newer than the release that runs, and its three files have an
-- address.
pub GoodFound-find :
    (opt : Options) (resolve : Bytes → Bytes → Option Bytes) (reply : Reply) (src : CheckSource)
    → GoodFound opt (find opt resolve reply src)
unfolding find
GoodFound-find opt resolve reply src =
    let P : Found → Type 0 = λ f. GoodFound opt f in
    if-case P (not (is_empty src.base_url)) (fleet_release opt resolve src)
      (if not src.has_repo then not_found no_release else github_release opt reply)
      (λ e. GoodFound-fleet_release opt resolve src)
      (λ e.
        if-case P (not src.has_repo) (not_found no_release) (github_release opt reply) (λ k. tt)
          (λ k. GoodFound-github_release opt reply))

GoodOffered-record_found :
    (opt : Options) (f : Found) (u : Updates)
    → GoodFound opt f
    → GoodOffered opt (record_found f u).0.offered
unfolding record_found
GoodOffered-record_found opt (not_found e) u w = tt
GoodOffered-record_found opt (found o) u w = w

GoodOffered-check :
    (opt : Options) (resolve : Bytes → Bytes → Option Bytes) (reply : Reply) (src : CheckSource)
    (u : Updates)
    → GoodOffered opt u.offered
    → GoodOffered opt (check opt resolve reply src u).0.offered
unfolding check
GoodOffered-check opt resolve reply src u w =
    let asked : Updates = record u {
      manager = record u.manager { status = checking; error = none };
    } in
    let keyless : Updates = record u {
      manager = record u.manager { status = idle; error = some no_key };
    } in
    if-case (λ (a : Updates × Bool). GoodOffered opt a.0.offered) (not opt.has_key) (keyless, false)
      (record_found (find opt resolve reply src) asked) (λ e. w)
      (λ e.
        GoodOffered-record_found opt (find opt resolve reply src) asked
          (GoodFound-find opt resolve reply src))

offered-look :
    (opt : Options) (out : Outside) (p : Pass) (u : Updates)
    → (look opt out p.card u).0.offered ≡ u.offered
unfolding look
offered-look opt out p u = ground arith

offered-apply_offered :
    (opt : Options) (out : Outside) (p : Pass) (o : Option Offer) (u : Updates)
    → (apply_offered opt out p o u).0.offered ≡ u.offered
unfolding apply_offered
offered-apply_offered opt out p none u = refl
offered-apply_offered opt out p (some o) u = ground arith

offered-apply_at :
    (opt : Options) (out : Outside) (p : Pass) (t : Option ℕ) (u : Updates)
    → (apply_at opt out p t u).0.offered ≡ u.offered
unfolding apply_at
offered-apply_at opt out p none u = refl
offered-apply_at opt out p (some target) u =
    ground (arith, offered-apply_offered opt out p u.offered u)

GoodOffered-check_and_apply :
    (opt : Options) (out : Outside) (resolve : Bytes → Bytes → Option Bytes) (p : Pass)
    (u : Updates)
    → GoodOffered opt u.offered
    → GoodOffered opt (check_and_apply opt out resolve p u).0.offered
unfolding check_and_apply apply_when_due
GoodOffered-check_and_apply opt out resolve p u w =
    let due : Updates = record u { last_check_day = p.day } in
    let (checked, ok) = check opt resolve p.reply p.source due in
    let after = apply_at opt out p p.apply_minute checked in
    let found = GoodOffered-check opt resolve p.reply p.source due w in
    let P : Updates × List Action → Type 0 = λ a. GoodOffered opt a.0.offered in
    if-case P (not (str_eq u.last_check_day p.day) && leb u.check_minute p.minute)
      (if ok then (after.0, checks ∷ after.1) else (checked, checks ∷ []))
      (apply_at opt out p p.apply_minute u)
      (λ e.
        if-case P ok (after.0, checks ∷ after.1) (checked, checks ∷ [])
          (λ k.
            subst (GoodOffered opt) (sym (offered-apply_at opt out p p.apply_minute checked)) found)
          (λ k. found))
      (λ e. subst (GoodOffered opt) (sym (offered-apply_at opt out p p.apply_minute u)) w)

GoodOffered-pass :
    (opt : Options) (out : Outside) (resolve : Bytes → Bytes → Option Bytes) (p : Pass)
    (u : Updates)
    → GoodOffered opt u.offered
    → GoodOffered opt (pass opt out resolve p u).0.offered
unfolding pass
GoodOffered-pass opt out resolve p u w =
    let (looked, err) = look opt out p.card u in
    let kept = subst (GoodOffered opt) (sym (offered-look opt out p u)) w in
    if-case (λ (a : Updates × List Action). GoodOffered opt a.0.offered) (err || not p.auto)
      (looked, []) (check_and_apply opt out resolve p looked) (λ e. kept)
      (λ e. GoodOffered-check_and_apply opt out resolve p looked kept)

-- Whatever the passes of the loop find, a release that is offered after them is newer than the
-- release that runs and its three files have an address, if that holds before them.
pub GoodOffered-passes :
    (opt : Options) (out : Outside) (resolve : Bytes → Bytes → Option Bytes) (ps : List Pass)
    (u : Updates)
    → GoodOffered opt u.offered
    → GoodOffered opt (passes opt out resolve ps u).0.offered
unfolding passes
GoodOffered-passes opt out resolve [] u w = w
GoodOffered-passes opt out resolve (p ∷ ps) u w =
    GoodOffered-passes opt out resolve ps (pass opt out resolve p u).0
      (GoodOffered-pass opt out resolve p u w)
