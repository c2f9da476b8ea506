-- ===== src/Platform/Portable/Pointers.antt =====
-- The pointers to generations, symbolic links on Unix. What of the calls of the operating system
-- fails beyond the state of the links is an argument.
pub mod Outcomes
pub mod Switched
pub mod Restored
use xrayctl.Common.{
  String, ◌<>◌, Bool, true, false, ◌||◌, Option, none, some, List, [], ◌∷◌, is_some, is_none,
  is_empty_text, rsplit_once, if◌then◌else◌,
}
use xrayctl.Common.Assoc.{get, insert, remove}
use xrayctl.Core.Error.{ManagerError, io, Result, ok, err}
use xrayctl.Core.Backends.{Location}
use xrayctl.Core.Backends.Locations.{same_path}

abbrev pub Links : Type 0
Links = List (Location × Location)

abbrev pub Outcome : Type 0
Outcome = Result (Unit {0}) × Links

abbrev pub and_then : Outcome → (Links → Outcome) → Outcome
and_then (ok _, links) next = next links
and_then (err e, links) next = (err e, links)

-- `path.with_extension(extension)`, of a path whose last component is a name.
unfoldable pub with_extension : Location → String → Location
unfolding rsplit_once
with_extension [] extension = []
with_extension (name ∷ parent) extension = elim (rsplit_once b'.' name) [
  | none ↦ (name <> ("." <> extension)) ∷ parent
  | some (stem, old) ↦
      (if is_empty_text stem then name <> ("." <> extension) else stem <> ("." <> extension))
      ∷ parent
]

unfoldable pub remove_file : Bool → Location → Links → Outcome
remove_file fails path links =
    if fails || is_none (get same_path path links)
    then (err (io "remove"), links)
    else (ok tt, remove same_path path links)

unfoldable pub symlink : Bool → Location → Location → Links → Outcome
symlink fails target path links =
    if fails || is_some (get same_path path links)
    then (err (io "symlink"), links)
    else (ok tt, insert same_path path target links)

abbrev moved : Location → Location → Links → Option Location → Outcome
moved from to links none = (err (io "rename"), links)
moved from to links (some target) =
    (ok tt, insert same_path to target (remove same_path from links))

unfoldable pub rename : Bool → Location → Location → Links → Outcome
rename fails from to links =
    if fails then (err (io "rename"), links) else moved from to links (get same_path from links)

-- Which of the three calls that replace a link fail.
pub record Faults : Type 0 where
  pub removing : Bool
  pub linking : Bool
  pub renaming : Bool

-- A link is made beside the pointer and renamed over it.
unfoldable pub replace_link : Faults → String → Location → Location → Links → Outcome
unfolding with_extension remove_file symlink rename
replace_link f extension pointer target links =
    let beside = with_extension pointer extension in
    and_then (symlink f.linking target beside (remove_file f.removing beside links).1)
      (rename f.renaming beside pointer)

abbrev sync : Bool → Links → Outcome
sync true links = (err (io "sync"), links)
sync false links = (ok tt, links)

-- `fs::read_link`, whose error the code does not look at.
unfoldable pub read_link : Bool → Location → Links → Option Location
read_link fails pointer links = if fails then none else get same_path pointer links

abbrev replace_previous : Faults → Location → Option Location → Links → Outcome
replace_previous f previous none links = (ok tt, links)
replace_previous f previous (some old) links = replace_link f "new" previous old links

-- `switch_generation`; the parent of a pointer is never missing here.
unfoldable pub switch_generation :
    Bool → Faults → Faults → Bool → Location → Location → Location → Links → Outcome
unfolding read_link replace_link
switch_generation reading old new syncing current previous target links =
    and_then (replace_previous old previous (read_link reading current links) links)
      (λ switched. and_then (replace_link new "new" current target switched) (sync syncing))

-- Removing a pointer that is not there is no error.
unfoldable pub remove_pointer : Bool → Location → Links → Outcome
remove_pointer fails pointer links =
    if fails then (err (io "remove"), links) else (ok tt, remove same_path pointer links)

-- `replace_pointer`.
unfoldable pub replace_pointer : Faults → Bool → Location → Option Location → Links → Outcome
unfolding replace_link remove_pointer
replace_pointer f syncing pointer (some target) links =
    and_then (replace_link f "restore" pointer target links) (sync syncing)
replace_pointer f syncing pointer none links =
    and_then (remove_pointer f.removing pointer links) (sync syncing)

-- What of a replacement of one pointer fails.
abbrev pub PointerFaults : Type 0
PointerFaults = Faults × Bool

-- `FileSystem::restore_generation`.
unfoldable pub restore_generation :
    PointerFaults
    → PointerFaults
    → Location
    → Location
    → Option Location
    → Option Location
    → Links
    → Outcome
unfolding replace_pointer
restore_generation (f, fs) (g, gs) current previous current_target previous_target links =
    and_then (replace_pointer f fs current current_target links)
      (replace_pointer g gs previous previous_target)

abbrev pub switch_back : (Location → Outcome) → Option Location → Links → Outcome
switch_back switch none links = (err (io "readlink"), links)
switch_back switch (some target) links = switch target

-- `FileSystem::rollback_generation`.
unfoldable pub rollback_generation :
    Bool → Bool → Faults → Faults → Bool → Location → Location → Links → Outcome
unfolding read_link switch_generation
rollback_generation target_reading reading old new syncing current previous links =
    switch_back (λ target. switch_generation reading old new syncing current previous target links)
      (read_link target_reading previous links) links
