-- ===== src/Updater/Install/Tests.antt =====
-- An install over 1.5.0, with 1.4.0 before it and 1.3.0 left over.
use portapixel.Prelude.{◌≡◌, ◌↔◌, refl, none, true, [], ◌∷◌, Bytes, bytes, bytes_eq}
use portapixel.Updater.Install.{
  Disk, Outside, begin, install, prune, has_release, perform, effect, step, keep_previous, flip,
  without,
}
use portapixel.Updater.Install.Safety.{AllDisks, Safe, Ended, install-Safe}
use portapixel.Updater.Install.Done.{calls, installed, install_done}
use portapixel.Updater.Install.Needed.{Needed}
use portapixel.Updater.Install.Pruned.{links, prune_exact}

abbrev before : Bytes
before = bytes "1.4.0"

abbrev running : Bytes
running = bytes "1.5.0"

abbrev next : Bytes
next = bytes "1.6.0"

abbrev disk : Disk
disk = record {
  releases = bytes "1.3.0" ∷ before ∷ running ∷ [];
  current = running;
  previous = before;
  pending = [];
}

abbrev works : Outside
works ops = true

install-Safe_example :
    AllDisks (Safe disk next) (install works next (begin disk)).0.seen
    × Ended disk next (install works next (begin disk))
install-Safe_example = install-Safe disk next works

prune_exact_example :
    ((has_release (prune works next running (begin disk)).disk.releases running ≡ true)
      ↔ (Needed next before running running × (has_release disk.releases running ≡ true)))
    × (links (prune works next running (begin disk)).disk ≡ links disk)
prune_exact_example = prune_exact works next running (begin disk) running (λ ops. refl)

install_done_example :
    ((install works next (begin disk)).1 ≡ none)
    × ((install works next (begin disk)).0.ops ≡ calls disk next)
    × ((install works next (begin disk)).0.disk ≡ installed disk next)
unfolding bytes_eq
install_done_example = install_done disk next works (λ ops. refl) refl

install_test : (install works next (begin disk)).0.disk.current ≡ next
unfolding install step keep_previous flip perform effect without bytes_eq
install_test = refl
