-- ===== src/Platform/Portable/Owned.antt =====
-- crates/xray-manager-platform/src/portable.rs: `absolute_lexical` and `remove_owned`. What the
-- operating system answers is an argument, and the text of the refusal is without the path.
pub mod Inside
use xrayctl.Common.{
  String, Bool, true, false, not, ◌||◌, Option, none, some, List, [], ◌∷◌, ◌++◌, if◌then◌else◌,
}
use xrayctl.Core.Error.{ManagerError, io, Result, ok, err}
use xrayctl.Core.Backends.{Location}
use xrayctl.Core.Backends.Locations.{same_path, starts_with}

-- `std::path::Component` on Unix, where the root of an absolute path is kept beside them.
pub data PathComponent : Type 0 where
  parent_dir cur_dir : PathComponent
  normal : String → PathComponent

pub record PathBuf : Type 0 where
  pub is_absolute : Bool
  pub components : List PathComponent

-- `PathBuf::pop`, which stops at the root.
abbrev pop : Location → Location
pop [] = []
pop (name ∷ parent) = parent

unfoldable pub normalize : Location → List PathComponent → Location
normalize normalized [] = normalized
normalize normalized (parent_dir ∷ cs) = normalize (pop normalized) cs
normalize normalized (cur_dir ∷ cs) = normalize normalized cs
normalize normalized (normal name ∷ cs) = normalize (name ∷ normalized) cs

abbrev join_current : Result (List PathComponent) → List PathComponent → Result Location
join_current (err e) cs = err e
join_current (ok current_dir) cs = ok (normalize [] (current_dir ++ cs))

unfoldable pub absolute_lexical : Result (List PathComponent) → PathBuf → Result Location
unfolding normalize
absolute_lexical current_dir path =
    if path.is_absolute
    then ok (normalize [] path.components)
    else join_current current_dir path.components

-- The paths that are asked to be removed, and how that ended. Of a path, what the operating system
-- answers to the question whether it is a directory, and to its removal.
module _ (metadata : Location → Result (Option Bool))
    (remove : Bool → Location → Result (Unit {0})) where
  abbrev pub remove_found : Location → Result (Option Bool) → List Location × Result (Unit {0})
  remove_found path (ok none) = ([], ok tt)
  remove_found path (ok (some is_dir)) = (path ∷ [], remove is_dir path)
  remove_found path (err e) = ([], err e)

  abbrev pub remove_inside : Result Location → Result Location → List Location × Result (Unit {0})
  remove_inside (err e) root = ([], err e)
  remove_inside (ok path) (err e) = ([], err e)
  remove_inside (ok path) (ok root) =
      if not (starts_with path root) || same_path path root
      then ([], err (io "refusing to remove path outside ownership root"))
      else remove_found path (metadata path)

  unfoldable pub remove_owned :
      Result (List PathComponent) → PathBuf → PathBuf → List Location × Result (Unit {0})
  unfolding absolute_lexical
  remove_owned current_dir path ownership_root =
      remove_inside (absolute_lexical current_dir path)
        (absolute_lexical current_dir ownership_root)
