-- ===== src/Updater/Offers.antt =====
-- internal/updater/check.go and Reset of internal/updater/updater.go: which release is offered. The
-- answer of the network is an argument, as is fleet.ResolveURL.
use portapixel.Prelude.{
  ℕ, String, Bool, true, false, not, ◌||◌, Option, none, some, List, [], ◌∷◌, ◌++◌, ◌==◌, is_empty,
  Bytes, bytes, bytes_eq, if◌then◌else◌,
}
use portapixel.Manifest.Name.{trim_space}
use portapixel.Updater.Version.{compare_versions, normalize}
use portapixel.Updater.Install.{
  Failure, no_key, no_release, no_version, no_server, bad_address, unreachable, refused_for_now,
  no_page, other_answer, bad_document, no_binary, no_signature,
}
use portapixel.Updater.Apply.{
  Options, Release, Manager, idle, checking, available, github, fleet, not_newer,
}

-- A release with its three files.
pub record Offer : Type 0 where
  pub release : Release
  pub binary_url : Bytes
  pub sig_url : Bytes
  pub sums_url : Bytes

pub data Found : Type 0 where
  found : Offer → Found
  not_found : Failure → Found

unfoldable pub asset_name : Options → Bytes
asset_name opt = bytes opt.binary_name ++ b'-' ∷ bytes opt.arch

unfoldable pub newer : Options → Bytes → Bool
newer opt candidate = not (not_newer (compare_versions candidate opt.running))

-- The `Source` of check.go. The names of a repository and of a release note are not read here.
pub record CheckSource : Type 0 where
  pub has_repo : Bool
  pub base_url : Bytes
  pub server_url : Bytes
  pub version : Bytes

-- strings.TrimSuffix with a slash.
unfoldable pub trim_slash : Bytes → Bytes
trim_slash [] = []
trim_slash (c ∷ []) = if c == b'/' then [] else c ∷ []
trim_slash (c ∷ d ∷ cs) = c ∷ trim_slash (d ∷ cs)

unfoldable pub fleet_offer : Options → Bytes → Option Bytes → Found
fleet_offer opt version none = not_found bad_address
fleet_offer opt version (some address) =
    let base = trim_slash address in
    let asset = asset_name opt in
    found (record {
      release = record { version = version; source = fleet; size = 0 };
      binary_url = base ++ b'/' ∷ asset;
      sig_url = base ++ b'/' ∷ (asset ++ bytes ".minisig");
      sums_url = base ++ b'/' ∷ bytes "SHA256SUMS";
    })

unfoldable pub fleet_release : Options → (Bytes → Bytes → Option Bytes) → CheckSource → Found
unfolding fleet_offer
fleet_release opt resolve src =
    let version = normalize src.version in
    if is_empty version
    then not_found no_version
    else if not (newer opt version)
    then not_found no_release
    else if is_empty (trim_space src.server_url)
    then not_found no_server
    else fleet_offer opt version (resolve src.server_url src.base_url)

pub record Asset : Type 0 where
  pub name : Bytes
  pub url : Bytes
  pub size : ℕ

pub record ApiRelease : Type 0 where
  pub tag : Bytes
  pub draft : Bool
  pub prerelease : Bool
  pub assets : List Asset

-- The answer of the release page: no answer, a status, a body that is no document, or a document.
pub data Reply : Type 0 where
  no_reply bad_body : Reply
  status : ℕ → Reply
  document : ApiRelease → Reply

-- The loop over the assets.
unfoldable pub pick : Bytes → List Asset → Offer → Offer
pick asset [] o = o
pick asset (a ∷ assets) o = pick asset assets (
    if bytes_eq a.name asset
    then record o { binary_url = a.url; release = record o.release { size = a.size } }
    else if bytes_eq a.name (asset ++ bytes ".minisig")
    then record o { sig_url = a.url }
    else if bytes_eq a.name (bytes "SHA256SUMS")
    then record o { sums_url = a.url }
    else o)

unfoldable pub complete : Offer → Found
complete o =
    if is_empty o.binary_url
    then not_found no_binary
    else if is_empty o.sig_url || is_empty o.sums_url
    then not_found no_signature
    else found o

unfoldable pub github_release : Options → Reply → Found
unfolding complete
github_release opt no_reply = not_found unreachable
github_release opt bad_body = not_found bad_document
github_release opt (status n) =
    if n == 403 || n == 429
    then not_found refused_for_now
    else if n == 404
    then not_found no_page
    else not_found other_answer
github_release opt (document doc) =
    let tag = normalize doc.tag in
    let start : Offer = record {
      release = record { version = tag; source = github; size = 0 };
      binary_url = [];
      sig_url = [];
      sums_url = [];
    } in
    if doc.draft || doc.prerelease || is_empty doc.tag
    then not_found no_release
    else if not (newer opt tag)
    then not_found no_release
    else complete (pick (asset_name opt) doc.assets start)

unfoldable pub find : Options → (Bytes → Bytes → Option Bytes) → Reply → CheckSource → Found
find opt resolve reply src =
    if not (is_empty src.base_url)
    then fleet_release opt resolve src
    else if not src.has_repo
    then not_found no_release
    else github_release opt reply

-- The manager with the fields that the loop and the checks keep. A day is its text.
pub record Updates : Type 0 where
  pub manager : Manager
  pub offered : Option Offer
  pub check_minute : ℕ
  pub last_check_day : String
  pub last_apply_day : String

unfoldable pub record_found : Found → Updates → Updates × Bool
record_found (not_found e) u = (
  record u {
    manager = record u.manager { status = idle; error = some e; offer = []; source = none };
    offered = none;
  },
  false,
)
record_found (found o) u = (
  record u {
    manager = record u.manager {
      status = available;
      error = none;
      offer = o.release.version;
      source = some o.release.source;
    };
    offered = some o;
  },
  true,
)

-- `Check`, and whether it found a release.
unfoldable pub check :
    Options → (Bytes → Bytes → Option Bytes) → Reply → CheckSource → Updates → Updates × Bool
check opt resolve reply src u =
    let asked =
      record_found (find opt resolve reply src)
        (record u { manager = record u.manager { status = checking; error = none } }) in
    if not opt.has_key
    then (record u { manager = record u.manager { status = idle; error = some no_key } }, false)
    else asked

-- `Reset`
unfoldable pub forget : Updates → Updates
forget u = record u {
  manager = record u.manager { status = idle; error = none; offer = []; source = none };
  offered = none;
  last_check_day = "";
  last_apply_day = "";
}
