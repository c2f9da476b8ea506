-- ===== src/Tests/Portable.antt =====
-- Concrete inputs for crates/xray-manager-platform/src/portable.rs.
use xrayctl.Common.{none, ℕ, String, true, false, Option, some, List, [], ◌∷◌, ◌≡◌, ◌≢◌, refl, All}
use xrayctl.Common.Assoc.{get, insert, remove}
use xrayctl.Core.Error.{Result, ok, err, io}
use xrayctl.Core.Backends.{Location, ◌/◌}
use xrayctl.Core.Backends.Locations.{same_path}
use xrayctl.Platform.Portable.{WrittenPath, Entry, prune_generations, insert_newest}
use xrayctl.Platform.Portable.Pruned.{prune_generations-spares}
use xrayctl.Platform.Portable.Pointers.{
  Links, Outcome, Faults, read_link, switch_generation, restore_generation, rollback_generation,
}
use xrayctl.Platform.Portable.Pointers.Outcomes.{at}
use xrayctl.Platform.Portable.Pointers.Switched.{
  Switched, current_of, previous_of, switch_generation-Switched,
}
use xrayctl.Platform.Portable.Pointers.Restored.{
  Restored, restore_generation-Restored, RolledBack, rollback_generation-RolledBack,
}

abbrev root : Location
root = "generations" ∷ "var" ∷ []

abbrev written : Location → WrittenPath
written names = record { is_absolute = true; names = names }

abbrev generation : String → ℕ → Entry
generation name modified = record {
  is_dir = true;
  is_symlink = false;
  modified = modified;
  path = written (root / name);
}

abbrev entries : List Entry
entries =
    generation "1" 10
    ∷ generation "4" 40
    ∷ generation "2" 20
    ∷ generation "3" 30
    ∷ generation "5" 50
    ∷ []

abbrev target : String → Result WrittenPath
target name = ok (written (root / name))

abbrev remove_dir_all : WrittenPath → Result (Unit {0})
remove_dir_all path = ok tt

-- With 3 to keep and 2 in use, one more is kept, the newest.
prunes :
    prune_generations remove_dir_all (ok (some entries)) (target "2") (target "1") 3
    ≡ (written (root / "4") ∷ written (root / "3") ∷ [], ok tt)
unfolding prune_generations same_path insert_newest
prunes = refl

-- When `current` cannot be read, its target can be removed.
unread :
    prune_generations remove_dir_all
      (ok (some entries))
      (err (io "Permission denied"))
      (target "1")
      3
    ≡ (written (root / "3") ∷ written (root / "2") ∷ [], ok tt)
unfolding prune_generations same_path insert_newest
unread = refl

prune_generations-spares_example :
    All
      (λ path. (target "2" ≢ ok path) × (target "1" ≢ ok path))
      (prune_generations remove_dir_all (ok (some entries)) (target "2") (target "1") 3).0
prune_generations-spares_example =
    prune_generations-spares remove_dir_all (ok (some entries)) (target "2") (target "1") 3

abbrev directory : Location
directory = "manager" ∷ "var" ∷ []

abbrev links : Links
links = (current_of directory, root / "1") ∷ []

abbrev pointers : Outcome → Option Location × Option Location
pointers (r, links) = (at (current_of directory) links, at (previous_of directory) links)

abbrev no_faults : Faults
no_faults = record { removing = false; linking = false; renaming = false }

abbrev faulty : Faults
faulty = record { removing = false; linking = false; renaming = true }

switches :
    pointers (
      switch_generation false no_faults no_faults false
        (current_of directory)
        (previous_of directory)
        (root / "2")
        links)
    ≡ (some (root / "2"), some (root / "1"))
unfolding switch_generation same_path get insert remove
switches = refl

-- When the second renaming fails, `previous` names the generation that is still current.
half_switched :
    pointers (
      switch_generation false no_faults faulty false
        (current_of directory)
        (previous_of directory)
        (root / "2")
        links)
    ≡ (some (root / "1"), some (root / "1"))
unfolding switch_generation same_path get insert remove
half_switched = refl

switch_generation-Switched_example :
    Switched directory (root / "2") false (read_link false (current_of directory) links) links (
      switch_generation false no_faults no_faults false
        (current_of directory)
        (previous_of directory)
        (root / "2")
        links)
switch_generation-Switched_example =
    switch_generation-Switched false no_faults no_faults false directory (root / "2") links

abbrev both_links : Links
both_links = (current_of directory, root / "2") ∷ (previous_of directory, root / "1") ∷ []

exchanges :
    pointers (
      rollback_generation false false no_faults no_faults false
        (current_of directory)
        (previous_of directory)
        both_links)
    ≡ (some (root / "1"), some (root / "2"))
unfolding rollback_generation same_path get insert remove
exchanges = refl

rollback_generation-RolledBack_example :
    RolledBack directory false
      (read_link false (previous_of directory) both_links)
      (read_link false (current_of directory) both_links)
      both_links
      (rollback_generation false false no_faults no_faults false
        (current_of directory)
        (previous_of directory)
        both_links)
rollback_generation-RolledBack_example =
    rollback_generation-RolledBack false false no_faults no_faults false directory both_links

restore_generation-Restored_example : Restored directory (some (root / "3")) none both_links (
    restore_generation
      (no_faults, false)
      (faulty, false)
      (current_of directory)
      (previous_of directory)
      (some (root / "3"))
      none
      both_links)
restore_generation-Restored_example =
    restore_generation-Restored (no_faults, false) (faulty, false) directory (some (root / "3"))
      none both_links
