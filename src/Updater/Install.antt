-- ===== src/Updater/Install.antt =====
-- install and prune of internal/updater/apply.go: the release root on the disk. A link is the name
-- of the release that it points at, the empty text if it is not there. A release directory is one
-- name: the staging directory is no part of the disk here.
pub mod Safety
pub mod Needed
pub mod Pruned
pub mod Done
mod Tests
use portapixel.Prelude.{
  ℕ, Bool, true, false, not, ◌&&◌, ◌||◌, Option, none, some, List, [], ◌∷◌, ◌++◌, is_empty, Bytes,
  bytes, bytes_eq, if◌then◌else◌, length, ltb, drop, ◌-◌,
}
use portapixel.Updater.Version.{starts_with_dot}

pub record Disk : Type 0 where
  pub releases : List Bytes
  pub current : Bytes
  pub previous : Bytes
  pub pending : Bytes

-- The calls that change the disk, and the restart of the service.
pub data Op : Type 0 where
  clear_release move_release point_previous point_current write_pending : Bytes → Op
  name_binary make_health clear_pending clear_sideload restart : Op

unfoldable pub has_release : List Bytes → Bytes → Bool
has_release [] v = false
has_release (x ∷ xs) v = bytes_eq x v || has_release xs v

unfoldable pub without : Bytes → List Bytes → List Bytes
without v [] = []
without v (x ∷ xs) = let rest = without v xs in if bytes_eq x v then rest else x ∷ rest

-- Each call is one step: a rename, or the removal of a directory that no link of use names.
unfoldable pub effect : Op → Disk → Disk
effect (clear_release v) d = record d { releases = without v d.releases }
effect (move_release v) d = record d { releases = v ∷ d.releases }
effect (point_previous v) d = record d { previous = v }
effect (point_current v) d = record d { current = v }
effect (write_pending v) d = record d { pending = v }
effect clear_pending d = record d { pending = [] }
effect op d = d

-- Whether the last of the calls so far succeeds.
abbrev pub Outside : Type 0
Outside = List Op → Bool

-- The disk, the calls so far, and the disk after each of them: the states in which a power cut can
-- leave the device.
pub record Run : Type 0 where
  pub disk : Disk
  pub ops : List Op
  pub seen : List Disk

abbrev pub begin : Disk → Run
begin d = record { disk = d; ops = []; seen = [] }

unfoldable pub perform : Outside → Op → Run → Run × Bool
perform out op r =
    let ops = r.ops ++ op ∷ [] in
    let disk = if out ops then effect op r.disk else r.disk in
    (record { disk = disk; ops = ops; seen = r.seen ++ disk ∷ [] }, out ops)

-- The errors of Apply and of Check.
pub data Failure : Type 0 where
  busy no_key other_source bad_name bad_release downgrade staged_already no_space : Failure
  stage_fail no_asset bad_signature no_sums no_sum sum_differs mode_fail no_info : Failure
  other_program other_arch other_version : Failure
  current_already remove_fail name_fail move_fail link_fail health_fail pending_fail : Failure
  restart_fail : Failure
  no_release no_version no_server bad_address unreachable refused_for_now no_page : Failure
  other_answer bad_document no_binary no_signature : Failure

abbrev pub Outcome : Type 0
Outcome = Run × Option Failure

-- `if err := ...; err != nil { return ... }`
unfoldable pub step : Outside → Op → Failure → (Run → Outcome) → Run → Outcome
step out op err next r =
    let (r', ok) = perform out op r in let rest = next r' in if ok then rest else (r', some err)

unfoldable pub keep_previous : Outside → (Run → Outcome) → Run → Outcome
keep_previous out next r =
    let kept = step out (point_previous r.disk.current) link_fail next r in
    if is_empty r.disk.current then next r else kept

unfoldable pub flip : Outside → Bytes → Run → Outcome
flip out version r =
    let (r', ok) = perform out (point_current version) r in
    if ok then (r', none) else ((perform out clear_pending r').0, some link_fail)

unfoldable pub install : Outside → Bytes → Run → Outcome
install out version r =
    let done =
      step out (clear_release version) remove_fail
        (step out name_binary name_fail (
          step out (move_release version) move_fail (
            keep_previous out (
              step out make_health health_fail
                (step out (write_pending version) pending_fail (flip out version))))))
        r in
    if bytes_eq r.disk.current version then (r, some current_already) else done

unfoldable pub ends_with : Bytes → Bytes → Bool
ends_with suffix name =
    not (ltb (length name) (length suffix))
    && bytes_eq (drop (length name - length suffix) name) suffix

-- `continue` for a directory that stays.
unfoldable pub stays : Bytes → Bytes → Bytes → Bytes → Bool
stays keep previous running name =
    bytes_eq name keep
    || bytes_eq name previous
    || bytes_eq name running
    || starts_with_dot name
    || ends_with (bytes ".staging") name

unfoldable pub prune_one : Outside → Bytes → Bytes → Bytes → Bytes → Run → Run
prune_one out keep previous running name r =
    if stays keep previous running name then r else (perform out (clear_release name) r).0

-- The loop of `prune`, over the directories that it found: the list itself can be read.
unfoldable pub prune_each : Outside → Bytes → Bytes → Bytes → List Bytes → Run → Run
prune_each out keep previous running [] r = r
prune_each out keep previous running (name ∷ names) r =
    prune_each out keep previous running names (prune_one out keep previous running name r)

unfoldable pub prune : Outside → Bytes → Bytes → Run → Run
prune out keep running r = prune_each out keep r.disk.previous running r.disk.releases r
