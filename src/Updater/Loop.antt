-- ===== src/Updater/Loop.antt =====
-- internal/updater/loop.go and Sideload of internal/updater/sideload.go: when a release is looked
-- for and installed. A pass of the loop takes its readings as arguments; a day is its text.
pub mod Offered
pub mod Days
mod Tests
use portapixel.Prelude.{
  ℕ, ◌+◌, String, Bool, true, false, not, ◌&&◌, ◌||◌, Option, none, some, List, [], ◌∷◌, ◌++◌, ltb,
  leb, str_eq, Bytes, if◌then◌else◌,
}
use portapixel.Updater.Install.{Outside, perform, clear_sideload, Failure, busy}
use portapixel.Updater.Apply.{Options, Release, Staged, Manager, Status, available, sideload, apply}
use portapixel.Updater.Offers.{Offer, CheckSource, Reply, Updates, check}

-- The sideload directory: whether it is set, whether no other look holds it, whether a bundle is in
-- it, and the answers about its files.
pub record Card : Type 0 where
  pub has_dir : Bool
  pub is_free : Bool
  pub has_bundle : Bool
  pub staged : Staged

unfoldable pub is_busy_error : Option Failure → Bool
is_busy_error (some busy) = true
is_busy_error err = false

unfoldable pub has_error : Option Failure → Bool
has_error none = false
has_error (some e) = true

-- `Sideload`: the updates, and whether there was an error.
unfoldable pub look : Options → Outside → Card → Updates → Updates × Bool
look opt out card u =
    let (m, err) =
      apply opt card.staged out (record { version = []; source = sideload; size = 0 }) u.manager in
    let cleared : Manager = record m { run = (perform out clear_sideload m.run).0 } in
    if not (card.has_dir && card.is_free && card.has_bundle)
    then (u, false)
    else if is_busy_error err
    then (record u { manager = m }, true)
    else (record u { manager = cleared }, has_error err)

-- The readings of one pass.
pub record Pass : Type 0 where
  pub card : Card
  pub auto : Bool
  pub day : String
  pub minute : ℕ
  pub apply_minute : Option ℕ
  pub source : CheckSource
  pub reply : Reply
  pub staged : Staged

pub data Action : Type 0 where
  checks installs : Action

abbrev pub is_available : Status → Bool
is_available available = true
is_available s = false

-- The part of `applyWhenDue` behind the window.
unfoldable pub apply_offered :
    Options → Outside → Pass → Option Offer → Updates → Updates × List Action
apply_offered opt out p none u = (u, [])
apply_offered opt out p (some o) u =
    if is_available u.manager.status && not (str_eq u.last_apply_day p.day)
    then (
      record u { last_apply_day = p.day; manager = (apply opt p.staged out o.release u.manager).0 },
      installs ∷ [],
    )
    else (u, [])

unfoldable pub apply_at : Options → Outside → Pass → Option ℕ → Updates → Updates × List Action
apply_at opt out p none u = (u, [])
apply_at opt out p (some target) u =
    if ltb p.minute target || ltb (target + 1) p.minute
    then (u, [])
    else apply_offered opt out p u.offered u

unfoldable pub apply_when_due : Options → Outside → Pass → Updates → Updates × List Action
apply_when_due opt out p u = apply_at opt out p p.apply_minute u

-- What follows the sideload of a pass, with `[updates] auto`.
unfoldable pub check_and_apply :
    Options → Outside → (Bytes → Bytes → Option Bytes) → Pass → Updates → Updates × List Action
check_and_apply opt out resolve p u =
    let (checked, ok) = check opt resolve p.reply p.source (record u { last_check_day = p.day }) in
    let (after, actions) = apply_when_due opt out p checked in
    if not (str_eq u.last_check_day p.day) && leb u.check_minute p.minute
    then (if ok then (after, checks ∷ actions) else (checked, checks ∷ []))
    else apply_when_due opt out p u

-- `step`, with what it did beside the sideload.
unfoldable pub pass :
    Options → Outside → (Bytes → Bytes → Option Bytes) → Pass → Updates → Updates × List Action
pass opt out resolve p u =
    let (looked, err) = look opt out p.card u in
    if err || not p.auto then (looked, []) else check_and_apply opt out resolve p looked

unfoldable pub passes :
    Options → Outside → (Bytes → Bytes → Option Bytes) → List Pass → Updates → Updates × List Action
passes opt out resolve [] u = (u, [])
passes opt out resolve (p ∷ ps) u =
    let (u', actions) = pass opt out resolve p u in
    let (u'', more) = passes opt out resolve ps u' in (u'', actions ++ more)
