-- ===== src/Core/Backends/Locations.antt =====
-- Comparisons of paths.
use xrayctl.Common.{
  Bool, true, false, ◌&&◌, ◌||◌, [], ◌∷◌, ◌==◌, ◌≡◌, ◌≢◌, ◌<◌, ◌↔◌, refl, arith, eq_iff, length,
}
use xrayctl.Core.Backends.{Location}

unfoldable pub same_path : Location → Location → Bool
same_path [] [] = true
same_path [] (b ∷ bs) = false
same_path (a ∷ as_) [] = false
same_path (a ∷ as_) (b ∷ bs) = a == b && same_path as_ bs

-- `path.starts_with(directory)`.
unfoldable pub starts_with : Location → Location → Bool
unfolding same_path
starts_with [] directory = same_path [] directory
starts_with (name ∷ parent) directory =
    same_path (name ∷ parent) directory || starts_with parent directory

-- `path.parent()`, compared with a directory.
unfoldable pub is_in : Location → Location → Bool
is_in [] directory = false
is_in (name ∷ parent) directory = same_path parent directory

pub same_path_iff : (a b : Location) → (same_path a b ≡ true) ↔ (a ≡ b)
unfolding same_path
same_path_iff [] [] = ((λ h. refl), λ h. refl)
same_path_iff [] (b ∷ bs) = ((λ h. cc), λ h. cc)
same_path_iff (a ∷ as_) [] = ((λ h. cc), λ h. cc)
same_path_iff (a ∷ as_) (b ∷ bs) = ground (arith, eq_iff a b, same_path_iff as_ bs)

pub same_path-length : (a b : Location) → length a ≢ length b → same_path a b ≡ false
unfolding same_path
same_path-length [] [] h = absurd (h refl)
same_path-length [] (b ∷ bs) h = refl
same_path-length (a ∷ as_) [] h = refl
same_path-length (a ∷ as_) (b ∷ bs) h = ground (arith, same_path-length as_ bs)

-- A path does not start with a longer one.
pub starts_with-length : (a b : Location) → length a < length b → starts_with a b ≡ false
unfolding starts_with
starts_with-length [] b h = same_path-length [] b (omega arith)
starts_with-length (n ∷ a) b h = ground (arith, same_path-length (n ∷ a) b, starts_with-length a b)
