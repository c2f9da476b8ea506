-- ===== src/Platform/Portable/Owned/Inside.antt =====
-- Where the paths are that `remove_owned` of portable.rs removes.
use xrayctl.Common.{
  String, Bool, true, false, not, ◌||◌, Option, none, some, List, [], ◌∷◌, ◌++◌, ◌≡◌, ◌⊎◌, inl, inr,
  refl, ap, arith, All, Bool-cases,
}
use xrayctl.Core.Error.{Result, ok, err}
use xrayctl.Core.Backends.{Location}
use xrayctl.Core.Backends.Locations.{same_path, same_path_iff, starts_with}
use xrayctl.Platform.Portable.Owned.{
  PathComponent, PathBuf, absolute_lexical, remove_found, remove_inside, remove_owned,
}

-- The path, without the `.` and `..` that it had, continues the root by at least one name.
abbrev pub IsInside : Result Location → Location → Type 0
IsInside root path =
    (r : Location) × (root ≡ ok r)
    × ((name : String) × ((names : List String) × (path ≡ name ∷ (names ++ r))))

abbrev Within : Location → Location → Type 0
Within path root = (name : String) × ((names : List String) × (path ≡ name ∷ (names ++ root)))

nested :
    (name : String) (parent root : Location)
    → (same_path parent root ≡ true) ⊎ Within parent root
    → Within (name ∷ parent) root
nested name parent root (inl e) = (name, ([], ap (λ l. name ∷ l) ((same_path_iff parent root).0 e)))
nested name parent root (inr (n, (ns, e))) = (name, (n ∷ ns, ap (λ l. name ∷ l) e))

or_right_of : (a b : Bool) → (a || b) ≡ true → a ≡ false → b ≡ true
or_right_of a b h f = ground arith

starts_with-Within :
    (path root : Location)
    → starts_with path root ≡ true
    → (same_path path root ≡ true) ⊎ Within path root
unfolding starts_with
starts_with-Within [] root h = inl h
starts_with-Within (name ∷ parent) root h = elim (Bool-cases (same_path (name ∷ parent) root)) [
  | inl t ↦ inl t
  | inr f ↦ inr (
      nested name parent root (
        starts_with-Within parent root
          (or_right_of (same_path (name ∷ parent) root) (starts_with parent root) h f)))
]

module _ (metadata : Location → Result (Option Bool))
    (remove : Bool → Location → Result (Unit {0})) where
  found-All :
      (P : Location → Type 0) (path : Location) (m : Result (Option Bool))
      → P path
      → All P (remove_found metadata remove path m).0
  found-All P path (ok none) h = tt
  found-All P path (ok (some d)) h = (h, tt)
  found-All P path (err e) h = tt

  not_same :
      (path root : Location)
      → same_path path root ≡ false
      → (same_path path root ≡ true) ⊎ Within path root
      → Within path root
  not_same path root f (inl t) = cc (f, t)
  not_same path root f (inr w) = w

  guarded : (a b : Bool) → (not a || b) ≡ false → (a ≡ true) × (b ≡ false)
  guarded true false h = (refl, refl)
  guarded true true h = cc h
  guarded false b h = cc h

  remove_inside-IsInside :
      (path root : Result Location)
      → All (IsInside root) (remove_inside metadata remove path root).0
  remove_inside-IsInside (err e) root = tt
  remove_inside-IsInside (ok p) (err e) = tt
  remove_inside-IsInside (ok p) (ok r) =
      elim (Bool-cases (not (starts_with p r) || same_path p r)) [
        | inl t ↦ simp (t) tt
        | inr f ↦
            let (a, b) = guarded (starts_with p r) (same_path p r) f in
            simp (f) (
              found-All (IsInside (ok r)) p (metadata p)
                (r, refl, not_same p r b (starts_with-Within p r a)))
      ]

  -- Whatever the operating system answers, what `remove_owned` asks it to remove is strictly inside
  -- the ownership root, when `.` and `..` have been taken out of both paths.
  pub remove_owned-IsInside :
      (current_dir : Result (List PathComponent)) (path ownership_root : PathBuf)
      → All
          (IsInside (absolute_lexical current_dir ownership_root))
          (remove_owned metadata remove current_dir path ownership_root).0
  unfolding remove_owned
  remove_owned-IsInside current_dir path ownership_root =
      remove_inside-IsInside (absolute_lexical current_dir path)
        (absolute_lexical current_dir ownership_root)
