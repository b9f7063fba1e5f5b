-- ===== src/Updater/Apply.antt =====
-- Apply, refuse, space and verify of internal/updater/apply.go, on the disk of Updater/Install.antt.
-- What the download, the signature and the staged binary say is one record of answers.
pub mod Newest
mod Tests
use portapixel.Prelude.{
  ℕ, ◌+◌, ◌*◌, ◌^◌, ◌%◌, String, Bool, true, false, not, ◌&&◌, ◌||◌, Option, none, some, List, [],
  ◌∷◌, ltb, str_eq, is_empty, Bytes, bytes_eq, if◌then◌else◌,
}
use Prim.Native.Nat.{Ordering}
use portapixel.Updater.Version.{compare_versions, normalize, valid_version}
use portapixel.Updater.Install.{
  Outside, Run, perform, clear_sideload, restart, install, prune, Failure, busy, no_key,
  other_source, bad_name, bad_release, downgrade, staged_already, no_space, stage_fail, no_asset,
  bad_signature, no_sums, no_sum, sum_differs, mode_fail, no_info, other_program, other_arch,
  other_version, restart_fail,
}

pub data Source : Type 0 where
  github fleet sideload : Source

unfoldable pub same_source : Source → Source → Bool
same_source github github = true
same_source fleet fleet = true
same_source sideload sideload = true
same_source s t = false

pub record Release : Type 0 where
  pub version : Bytes
  pub source : Source
  pub size : ℕ

-- `source_kind` is `none` if there is no such function; `free` is `none` if it is not known.
pub record Options : Type 0 where
  pub has_key : Bool
  pub source_kind : Option Source
  pub is_bad : Bytes → Bool
  pub running : Bytes
  pub free : Option ℕ
  pub binary_name : String
  pub arch : String
  pub has_restart : Bool

-- What `version --json` answers.
pub record BinaryInfo : Type 0 where
  pub name : String
  pub version : Bytes
  pub arch : String

-- The answers about the staged files. `same_sum` is false too if the file cannot be read.
pub record Staged : Type 0 where
  pub fetched : Bool
  pub has_binary : Bool
  pub signed : Bool
  pub has_sums : Bool
  pub named : Bool
  pub same_sum : Bool
  pub mode_set : Bool
  pub info : Option BinaryInfo

pub data Status : Type 0 where
  idle checking available downloading verifying applying restarting failed rolled_back : Status

pub record Manager : Type 0 where
  pub run : Run
  pub status : Status
  pub error : Option Failure
  pub offer : Bytes
  pub source : Option Source
  pub is_busy : Bool

abbrev pub space_reserve : ℕ
space_reserve = 64 * 2 ^ 20

unfoldable pub space : Option ℕ → ℕ → Option Failure
space none size = none
space (some free) size = if ltb free ((size + space_reserve) % 2 ^ 64) then some no_space else none

-- `<= 0`
abbrev pub not_newer : Ordering → Bool
not_newer Ordering.gt = false
not_newer o = true

unfoldable pub other_kind : Option Source → Source → Bool
other_kind none s = false
other_kind (some k) s = not (same_source s sideload) && not (same_source s k)

-- The current link is the second argument.
unfoldable pub refuse : Options → Bytes → Release → Option Failure
refuse opt current rel =
    if not opt.has_key
    then some no_key
    else if other_kind opt.source_kind rel.source
    then some other_source
    else if is_empty rel.version
    then none
    else if not (valid_version rel.version)
    then some bad_name
    else if opt.is_bad rel.version
    then some bad_release
    else if not_newer (compare_versions rel.version opt.running)
    then some downgrade
    else if not (is_empty current) && not_newer (compare_versions rel.version current)
    then some staged_already
    else space opt.free rel.size

pub data Verified : Type 0 where
  verified : Bytes → Verified
  refused : Failure → Verified

unfoldable pub verify_info : Options → Option BinaryInfo → Verified
verify_info opt none = refused no_info
verify_info opt (some info) =
    if not (str_eq info.name opt.binary_name)
    then refused other_program
    else if not (str_eq info.arch opt.arch)
    then refused other_arch
    else if not (valid_version (normalize info.version))
    then refused bad_name
    else verified (normalize info.version)

unfoldable pub verify : Options → Staged → Verified
verify opt st =
    if not st.has_binary
    then refused no_asset
    else if not st.signed
    then refused bad_signature
    else if not st.has_sums
    then refused no_sums
    else if not st.named
    then refused no_sum
    else if not st.same_sum
    then refused sum_differs
    else if not st.mode_set
    then refused mode_fail
    else verify_info opt st.info

abbrev pub Applied : Type 0
Applied = Manager × Option Failure

-- `if err != nil { return err }`, with the manager of that moment.
unfoldable pub on_error : Option Failure → Manager → Applied → Applied
on_error none m done = done
on_error (some e) m done = (m, some e)

-- What follows the removal of the old releases.
unfoldable pub end_apply : Options → Outside → Bytes → Source → Manager → Applied
end_apply opt out version source m =
    let cleared = (perform out clear_sideload m.run).0 in
    let run = if same_source source sideload then cleared else m.run in
    let m' : Manager = record m {
      run = run;
      status = restarting;
      offer = version;
      source = some source;
      error = none;
    } in
    let (asked, ok) = perform out restart run in
    if not opt.has_restart
    then (m', none)
    else (record m' { run = asked }, (if ok then none else some restart_fail))

-- From the installation on, with the version known.
unfoldable pub install_release : Options → Outside → Bytes → Source → Manager → Applied
install_release opt out version source m =
    let (run, err) = install out version m.run in
    let m' : Manager = record m { run = run; status = applying; error = none } in
    let done =
      end_apply opt out version source (record m' { run = prune out version opt.running run }) in
    on_error err m' done

-- With the version of the staged binary.
unfoldable pub apply_verified : Options → Outside → Bytes → Release → Manager → Applied
apply_verified opt out version rel m =
    let named : Release = record rel { version = version } in
    let done = install_release opt out version rel.source m in
    if is_empty rel.version
    then on_error (refuse opt m.run.disk.current named) m done
    else if not (is_empty version) && not (bytes_eq version rel.version)
    then (m, some other_version)
    else install_release opt out rel.version rel.source m

unfoldable pub on_verified : Options → Outside → Verified → Release → Manager → Applied
on_verified opt out (refused e) rel m = (m, some e)
on_verified opt out (verified version) rel m = apply_verified opt out version rel m

unfoldable pub apply_staged : Options → Staged → Outside → Release → Manager → Applied
apply_staged opt st out rel m =
    on_verified opt out (verify opt st) rel (record m { status = verifying; error = none })

-- `apply`
unfoldable pub apply_release : Options → Staged → Outside → Release → Manager → Applied
apply_release opt st out raw m =
    let rel : Release = record raw { version = normalize raw.version } in
    let m' : Manager = record m { status = downloading; error = none } in
    let done = if st.fetched then apply_staged opt st out rel m' else (m', some stage_fail) in
    on_error (refuse opt m.run.disk.current rel) m done

-- The end of `Apply`: the error in the state, and the manager free again.
unfoldable pub released : Applied → Applied
released (m, none) = (record m { is_busy = false }, none)
released (m, some e) = (record m { is_busy = false; status = failed; error = some e }, some e)

unfoldable pub apply : Options → Staged → Outside → Release → Manager → Applied
apply opt st out rel m =
    let done = released (apply_release opt st out rel (record m { is_busy = true })) in
    if m.is_busy then (m, some busy) else done
