-- ===== src/Common/Assoc.antt =====
-- A `BTreeMap` as an association list: what a program sees of it is what its keys look up, by a
-- test of equality on the keys.
use mathlib.Core.Path.{◌≡◌, refl}
use mathlib.Core.Logic.{◌↔◌, inl, inr}
use mathlib.Core.Bool.{Bool, true}
use mathlib.Core.Option.{Option, none, some}
use mathlib.Core.List.{List, [], ◌∷◌}
use native.Mathlib.Omega.{arith}
use xrayctl.Common.Tests.{Bool-cases, if◌then◌else◌}

module _ {ℓ κ} {K : Type ℓ} {V : Type κ} (same : K → K → Bool) where
  unfoldable pub get : K → List (K × V) → Option V
  get k [] = none
  get k ((j, v) ∷ m) = if same j k then some v else get k m

  unfoldable pub insert : K → V → List (K × V) → List (K × V)
  insert k v [] = (k, v) ∷ []
  insert k v ((j, w) ∷ m) = if same j k then (k, v) ∷ m else (j, w) ∷ insert k v m

  unfoldable pub remove : K → List (K × V) → List (K × V)
  remove k [] = []
  remove k ((j, w) ∷ m) = let rest = remove k m in if same j k then rest else (j, w) ∷ rest

  -- `retain`, by a test of the keys.
  unfoldable pub retain : (K → Bool) → List (K × V) → List (K × V)
  retain p [] = []
  retain p ((j, w) ∷ m) = let rest = retain p m in if p j then (j, w) ∷ rest else rest

  module _ (same_iff : (a b : K) → (same a b ≡ true) ↔ (a ≡ b)) where
    pub get-insert :
        (k j : K) (v : V) (m : List (K × V))
        → get j (insert k v m) ≡ (if same k j then some v else get j m)
    unfolding get insert
    get-insert k j v [] = refl
    get-insert k j v ((i, w) ∷ m) =
        ground (arith, same_iff k j, same_iff i k, same_iff i j, get-insert k j v m)

    pub get-remove :
        (k j : K) (m : List (K × V)) → get j (remove k m) ≡ (if same k j then none else get j m)
    unfolding get remove
    get-remove k j [] = ground arith
    get-remove k j ((i, w) ∷ m) =
        ground (arith, same_iff k j, same_iff i k, same_iff i j, get-remove k j m)

    pub get-retain :
        (p : K → Bool) (j : K) (m : List (K × V)) → p j ≡ true → get j (retain p m) ≡ get j m
    unfolding get retain
    get-retain p j [] h = refl
    get-retain p j ((i, w) ∷ m) h = elim (Bool-cases (same i j)) [
      | inl t ↦ rw ((same_iff i j).0 t, h, (same_iff j j).1 refl) refl
      | inr f ↦ elim (Bool-cases (p i)) [
        | inl t ↦ rw (t, f) (get-retain p j m h)
        | inr g ↦ rw (g, f) (get-retain p j m h)
      ]
    ]
