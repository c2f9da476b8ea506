-- ===== src/Platform/Portable.antt =====
-- crates/xray-manager-platform/src/portable.rs: the generations of the file system, on Unix. What
-- the operating system answers is an argument.
pub mod Pruned
pub mod Pointers
pub mod Owned
use xrayctl.Common.{
  ℕ, ◌+◌, ◌-◌, String, Bool, true, false, not, ◌&&◌, Option, none, some, List, [], ◌∷◌, any, length,
  filter, leb, ltb, if◌then◌else◌,
}
use xrayctl.Core.Error.{Result, ok, err, ManagerError}
use xrayctl.Core.Backends.{Location}
use xrayctl.Core.Backends.Locations.{same_path}

-- A path as it is written: from the root or relative, and its components, the last one first.
pub record WrittenPath : Type 0 where
  pub is_absolute : Bool
  pub names : Location

abbrev pub same_kind : Bool → Bool → Bool
same_kind true b = b
same_kind false b = not b

-- `==` on paths, which are not resolved.
abbrev pub same_written : WrittenPath → WrittenPath → Bool
same_written p q = same_kind p.is_absolute q.is_absolute && same_path p.names q.names

-- A readable entry of the directory: its kind, its time of modification and its path.
pub record Entry : Type 0 where
  pub is_dir : Bool
  pub is_symlink : Bool
  pub modified : ℕ
  pub path : WrittenPath

-- The targets of the two pointers that could be read, `generation_target(…).ok()`, without
-- repetition. Their order, which the code uses to find the repetition, is not kept.
abbrev pub protected_of : Result WrittenPath → Result WrittenPath → List WrittenPath
protected_of (err e) (err f) = []
protected_of (err e) (ok q) = q ∷ []
protected_of (ok c) (err f) = c ∷ []
protected_of (ok c) (ok q) = if same_written c q then c ∷ [] else c ∷ q ∷ []

abbrev pub is_generation : Entry → Bool
is_generation e = e.is_dir && not e.is_symlink

-- `sort_by_key(Reverse(modified))`, a stable sort.
unfoldable pub insert_newest : Entry → List Entry → List Entry
insert_newest e [] = e ∷ []
insert_newest e (x ∷ xs) =
    let rest = insert_newest e xs in if ltb e.modified x.modified then x ∷ rest else e ∷ x ∷ xs

unfoldable pub newest_first : List Entry → List Entry
newest_first [] = []
newest_first (e ∷ es) = insert_newest e (newest_first es)

abbrev pub is_protected : List WrittenPath → Entry → Bool
is_protected protected e = any (λ target. same_written target e.path) protected

-- The loop over the directories; the paths that were asked to be removed, the one that
-- could not be included, and how it ended.
module _ (remove_dir_all : WrittenPath → Result (Unit {0})) (protected : List WrittenPath)
    (limit : ℕ) where
  abbrev pub remove_next :
      WrittenPath
      → Result (Unit {0})
      → List WrittenPath × Result (Unit {0})
      → List WrittenPath × Result (Unit {0})
  remove_next path (ok _) (removed, r) = (path ∷ removed, r)
  remove_next path (err e) rest = (path ∷ [], err e)

  unfoldable pub sweep : ℕ → List Entry → List WrittenPath × Result (Unit {0})
  sweep retained [] = ([], ok tt)
  sweep retained (e ∷ es) =
      let later = sweep retained es in
      let kept = sweep (retained + 1) es in
      if is_protected protected e
      then later
      else if ltb retained limit
      then kept
      else remove_next e.path (remove_dir_all e.path) later

-- `prune_generations`, where `entries` is what can be read of the directory, if it exists.
unfoldable pub prune_generations :
    (WrittenPath → Result (Unit {0}))
    → Result (Option (List Entry))
    → Result WrittenPath
    → Result WrittenPath
    → ℕ
    → List WrittenPath × Result (Unit {0})
unfolding newest_first sweep
prune_generations remove_dir_all (err e) current previous keep = ([], err e)
prune_generations remove_dir_all (ok none) current previous keep = ([], ok tt)
prune_generations remove_dir_all (ok (some entries)) current previous keep =
    let protected = protected_of current previous in
    sweep remove_dir_all protected (keep - length protected) 0
      (newest_first (filter is_generation entries))
