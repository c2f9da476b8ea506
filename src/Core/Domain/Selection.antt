-- ===== src/Core/Domain/Selection.antt =====
-- The node that stays selected when a subscription is refreshed.
use mathlib.Core.List.{Memᴰ}
use xrayctl.Common.{
  String, Bool, true, false, Option, none, some, List, [], ◌∷◌, ◌==◌, ◌≡◌, ◌⊎◌, inl, inr, refl,
  subst, arith, eq_iff, any, find, find-holds, find-mem, filter, Bool-cases,
}
use xrayctl.Core.Domain.{Node, is_same_named, sole, reconcile_selected}

-- The number of elements that pass the test is exactly one, and this is it.
pub data IsSole {ℓ} {A : Type ℓ} (p : A → Bool) (x : A) : List A → Type ℓ where
  here : {xs : List A} → p x ≡ true → any p xs ≡ false → IsSole p x (x ∷ xs)
  there : {y : A} {xs : List A} → p y ≡ false → IsSole p x xs → IsSole p x (y ∷ xs)

filter_none {ℓ} : {A : Type ℓ} (p : A → Bool) (xs : List A) → filter p xs ≡ [] → any p xs ≡ false
filter_none p [] h = refl
filter_none p (y ∷ xs) h = elim (Bool-cases (p y)) [
  | inl t ↦ ground arith
  | inr f ↦ ground (arith, filter_none p xs)
]

find-none-any {ℓ} : {A : Type ℓ} (p : A → Bool) (xs : List A) → find p xs ≡ none → any p xs ≡ false
find-none-any p [] h = refl
find-none-any p (y ∷ xs) h = ground (arith, find-none-any p xs)

filter-IsSole {ℓ} :
    {A : Type ℓ} (p : A → Bool) (xs : List A) {x : A} → filter p xs ≡ x ∷ [] → IsSole p x xs
filter-IsSole p [] h = cc
filter-IsSole p (y ∷ xs) {x} h = elim (Bool-cases (p y)) [
  | inl t ↦
      let q : y ≡ x = ground arith in
      let empty : filter p xs ≡ [] = ground arith in
      subst (λ z. IsSole p z (y ∷ xs)) q (here t (filter_none p xs empty))
  | inr f ↦ there f (filter-IsSole p xs (ground arith))
]

sole-eq-some {ℓ} : {A : Type ℓ} (xs : List A) {x : A} → sole xs ≡ some x → xs ≡ x ∷ []
sole-eq-some [] h = cc
sole-eq-some (y ∷ []) h = cc
sole-eq-some (y ∷ z ∷ xs) h = cc

module _ (to_lowercase : String → String) where
  -- Why a refreshed node takes the place of the selected one.
  abbrev pub Succeeds : Node → String → List Node → Node → Type 0
  Succeeds old selected_id refreshed n =
      (n.id ≡ selected_id) × Memᴰ n refreshed
      ⊎ (any (λ m. m.id == selected_id) refreshed ≡ false)
        × IsSole (is_same_named to_lowercase old) n refreshed

  chosen-Succeeds :
      (old : Node) (selected_id : String) (refreshed : List Node) (found : Option Node) {n : Node}
      → find (λ m. m.id == selected_id) refreshed ≡ found
      → (elim found [
        | some exact ↦ some exact
        | none ↦ sole (filter (is_same_named to_lowercase old) refreshed)
      ])
        ≡ some n
      → Succeeds old selected_id refreshed n
  chosen-Succeeds old selected_id refreshed none {n} q h = inr (
    find-none-any (λ m. m.id == selected_id) refreshed q,
    filter-IsSole (is_same_named to_lowercase old) refreshed
        (sole-eq-some (filter (is_same_named to_lowercase old) refreshed) h),
  )
  chosen-Succeeds old selected_id refreshed (some exact) {n} q h =
      let r : find (λ m. m.id == selected_id) refreshed ≡ some n = cc in
      inl (
        (eq_iff n.id selected_id).0 (find-holds (λ m. m.id == selected_id) refreshed r),
        find-mem (λ m. m.id == selected_id) refreshed r,
      )

  -- If a refresh keeps a selection, then the node kept is a refreshed one with the selected
  -- identifier; or no refreshed node has it, and the node is the only refreshed one of the same
  -- subscription with the same trimmed name in lower case.
  pub reconcile_selected-Succeeds :
      (old : Node) (selected_id : String) (refreshed : List Node) {n : Node}
      → reconcile_selected to_lowercase old selected_id refreshed ≡ some n
      → Succeeds old selected_id refreshed n
  unfolding reconcile_selected
  reconcile_selected-Succeeds old selected_id refreshed h =
      chosen-Succeeds old selected_id refreshed _ refl h
