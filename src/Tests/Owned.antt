-- ===== src/Tests/Owned.antt =====
-- Concrete inputs for `remove_owned` of crates/xray-manager-platform/src/portable.rs.
use xrayctl.Common.{Bool, true, false, Option, some, List, [], ◌∷◌, ◌≡◌, refl, All}
use xrayctl.Core.Error.{Result, ok, err, io}
use xrayctl.Core.Backends.{Location}
use xrayctl.Core.Backends.Locations.{starts_with}
use xrayctl.Platform.Portable.Owned.{
  PathComponent, parent_dir, cur_dir, normal, PathBuf, absolute_lexical, remove_owned,
}
use xrayctl.Platform.Portable.Owned.Inside.{IsInside, remove_owned-IsInside}

abbrev current_dir : Result (List PathComponent)
current_dir = ok (normal "var" ∷ [])

abbrev root : PathBuf
root = record { is_absolute = true; components = normal "var" ∷ normal "lib" ∷ [] }

abbrev inside : PathBuf
inside = record {
  is_absolute = false;
  components = cur_dir ∷ normal "lib" ∷ normal "x" ∷ parent_dir ∷ normal "old" ∷ [];
}

abbrev outside : PathBuf
outside = record {
  is_absolute = true;
  components = normal "var" ∷ normal "lib" ∷ parent_dir ∷ parent_dir ∷ normal "etc" ∷ [];
}

abbrev metadata : Location → Result (Option Bool)
metadata path = ok (some true)

abbrev remove : Bool → Location → Result (Unit {0})
remove is_dir path = ok tt

removes :
    remove_owned metadata remove current_dir inside root
    ≡ (("old" ∷ "lib" ∷ "var" ∷ []) ∷ [], ok tt)
unfolding remove_owned starts_with
removes = refl

refuses :
    remove_owned metadata remove current_dir outside root
    ≡ ([], err (io "refusing to remove path outside ownership root"))
unfolding remove_owned starts_with
refuses = refl

remove_owned-IsInside_example :
    All
      (IsInside (absolute_lexical current_dir root))
      (remove_owned metadata remove current_dir inside root).0
remove_owned-IsInside_example = remove_owned-IsInside metadata remove current_dir inside root
