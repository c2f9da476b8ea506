-- ===== src/Platform/Portable/Pruned.antt =====
-- What `prune_generations` of portable.rs removes.
use xrayctl.Common.{
  ℕ, zero, suc, ◌+◌, ◌-◌, ◌≤◌, ◌<◌, Bool, true, false, not, ◌&&◌, ◌∙◌, Option, none, some, List, [],
  ◌∷◌, map, ◌≡◌, ◌≢◌, ◌↔◌, refl, subst, ap, arith, All, any, length, filter, ltb, Bool-cases, inl,
  inr,
}
use xrayctl.Core.Error.{Result, ok, err}
use xrayctl.Core.Backends.Locations.{same_path, same_path_iff}
use xrayctl.Platform.Portable.{
  WrittenPath, same_kind, same_written, Entry, protected_of, is_generation, insert_newest,
  newest_first, is_protected, remove_next, sweep, prune_generations,
}

-- A list without its first elements.
abbrev pub drop {ℓ} : {A : Type ℓ} → ℕ → List A → List A
drop zero xs = xs
drop (suc n) [] = []
drop (suc n) (x ∷ xs) = drop n xs

abbrev pub NewestFirst : List Entry → Type 0
NewestFirst [] = Unit
NewestFirst (e ∷ es) = All (λ x. x.modified ≤ e.modified) es × NewestFirst es

insert_newest-All :
    (n : ℕ) (e : Entry) (es : List Entry)
    → e.modified ≤ n
    → All (λ x. x.modified ≤ n) es
    → All (λ x. x.modified ≤ n) (insert_newest e es)
unfolding insert_newest
insert_newest-All n e [] h a = (h, tt)
insert_newest-All n e (x ∷ xs) h (b, a) = elim (Bool-cases (ltb e.modified x.modified)) [
  | inl t ↦ simp (t) (b, insert_newest-All n e xs h a)
  | inr f ↦ simp (f) (h, (b, a))
]

All-below :
    (m n : ℕ) (es : List Entry)
    → m ≤ n
    → All (λ x. x.modified ≤ m) es
    → All (λ x. x.modified ≤ n) es
All-below m n [] h a = tt
All-below m n (x ∷ xs) h (b, a) = (omega arith, All-below m n xs h a)

insert_newest-NewestFirst :
    (e : Entry) (es : List Entry) → NewestFirst es → NewestFirst (insert_newest e es)
unfolding insert_newest
insert_newest-NewestFirst e [] h = (tt, tt)
insert_newest-NewestFirst e (x ∷ xs) (a, s) = elim (Bool-cases (ltb e.modified x.modified)) [
  | inl t ↦
      simp (t)
        (insert_newest-All x.modified e xs (ground arith) a, insert_newest-NewestFirst e xs s)
  | inr f ↦
      let b : x.modified ≤ e.modified = ground arith in
      simp (f) ((b, All-below x.modified e.modified xs b a), (a, s))
]

newest_first-NewestFirst : (es : List Entry) → NewestFirst (newest_first es)
unfolding newest_first
newest_first-NewestFirst [] = tt
newest_first-NewestFirst (e ∷ es) =
    insert_newest-NewestFirst e (newest_first es) (newest_first-NewestFirst es)

abbrev pub unprotected : List WrittenPath → List Entry → List Entry
unprotected protected = filter (λ e. not (is_protected protected e))

minus-suc : (n k : ℕ) → k < n → n - k ≡ suc (n - (k + 1))
minus-suc n k h = omega arith

minus-none : (n k : ℕ) → ltb k n ≡ false → n - k ≡ zero
minus-none n k h = ground arith

minus-zero : (n : ℕ) → n - 0 ≡ n
minus-zero n = omega arith

drop-nil {ℓ} : {A : Type ℓ} (n : ℕ) → drop {A = A} n [] ≡ []
drop-nil zero = refl
drop-nil (suc n) = refl

sweep-drop :
    (remove_dir_all : WrittenPath → Result (Unit {0})) (protected : List WrittenPath)
    (limit retained : ℕ) (es : List Entry)
    → ((path : WrittenPath) → remove_dir_all path ≡ ok tt)
    → sweep remove_dir_all protected limit retained es
      ≡ (map (λ e. e.path) (drop (limit - retained) (unprotected protected es)), ok tt)
unfolding sweep
sweep-drop r ps limit retained [] h = rw (drop-nil {A = Entry} (limit - retained)) refl
sweep-drop r ps limit retained (e ∷ es) h = elim (Bool-cases (is_protected ps e)) [
  | inl t ↦ simp (t) (sweep-drop r ps limit retained es h)
  | inr f ↦ elim (Bool-cases (ltb retained limit)) [
    | inl t ↦
        simp (f, t, minus-suc limit retained (ground arith))
          (sweep-drop r ps limit (retained + 1) es h)
    | inr g ↦
        simp (f, g, minus-none limit retained g, h)
          (ap (λ x. (e.path ∷ x.0, x.1))
            (subst
              (λ n.
                sweep r ps limit retained es
                ≡ (map (λ e. e.path) (drop n (unprotected ps es)), ok tt))
              (minus-none limit retained g) (sweep-drop r ps limit retained es h)))
  ]
]

remove_next-All :
    (r : WrittenPath → Result (Unit {0})) (ps : List WrittenPath) (limit : ℕ)
    (P : WrittenPath → Type 0) (path : WrittenPath) (result : Result (Unit {0}))
    (later : List WrittenPath × Result (Unit {0}))
    → P path
    → All P later.0
    → All P (remove_next r ps limit path result later).0
remove_next-All r ps limit P path (ok _) later h a = (h, a)
remove_next-All r ps limit P path (err e) later h a = (h, tt)

sweep-spares :
    (remove_dir_all : WrittenPath → Result (Unit {0})) (protected : List WrittenPath)
    (limit retained : ℕ) (es : List Entry)
    → All
        (λ path. any (λ target. same_written target path) protected ≡ false)
        (sweep remove_dir_all protected limit retained es).0
unfolding sweep
sweep-spares r ps limit retained [] = tt
sweep-spares r ps limit retained (e ∷ es) = elim (Bool-cases (is_protected ps e)) [
  | inl t ↦ simp (t) (sweep-spares r ps limit retained es)
  | inr f ↦ elim (Bool-cases (ltb retained limit)) [
    | inl t ↦ simp (f, t) (sweep-spares r ps limit (retained + 1) es)
    | inr g ↦
        simp (f, g)
          (remove_next-All r ps limit _ e.path (r e.path) _ f (sweep-spares r ps limit retained es))
  ]
]

same_kind_iff : (a b : Bool) → same_kind a b ≡ true → a ≡ b
same_kind_iff true true h = refl
same_kind_iff false false h = refl
same_kind_iff true false h = cc
same_kind_iff false true h = cc

same_kind_self : (a : Bool) → same_kind a a ≡ true
same_kind_self true = refl
same_kind_self false = refl

same_written_self : (p : WrittenPath) → same_written p p ≡ true
same_written_self p =
    simp (same_kind_self p.is_absolute, (same_path_iff p.names p.names).1 refl) refl

both : (a b : Bool) → a && b ≡ true → (a ≡ true) × (b ≡ true)
both true b h = (refl, h)
both false b h = cc

same_written_iff : (p q : WrittenPath) → (same_written p q ≡ true) ↔ (p ≡ q)
same_written_iff p q = (
  λ h.
      let parts = both (same_kind p.is_absolute q.is_absolute) (same_path p.names q.names) h in
      ap (λ b. record p { is_absolute = b }) (same_kind_iff p.is_absolute q.is_absolute parts.0)
      ∙ ap (λ ns. record q { names = ns }) ((same_path_iff p.names q.names).0 parts.1),
  λ h. subst (λ r. same_written p r ≡ true) h (same_written_self p),
)

-- A path that no protected target equals is neither target.
spared :
    (current previous : Result WrittenPath) (path : WrittenPath)
    → any (λ target. same_written target path) (protected_of current previous) ≡ false
    → (current ≢ ok path) × (previous ≢ ok path)
spared (err e) (err f) path h = ((λ e. cc), λ e. cc)
spared (err e) (ok q) path h = ground (arith, same_written_iff q path)
spared (ok c) (err f) path h = ground (arith, same_written_iff c path)
spared (ok c) (ok q) path h =
    ground (arith, same_written_iff c path, same_written_iff q path, same_written_iff c q)

All-map {ℓ κ} :
    {A : Type ℓ} {P Q : A → Type κ} (f : (x : A) → P x → Q x) (xs : List A) → All P xs → All Q xs
All-map f [] a = tt
All-map f (x ∷ xs) (now, later) = (f x now, All-map f xs later)

-- Pruning never asks to remove the target that was read of `current` or of `previous`, whatever the
-- directory has and whichever removals fail. A pointer that cannot be read protects nothing.
pub prune_generations-spares :
    (remove_dir_all : WrittenPath → Result (Unit {0})) (entries : Result (Option (List Entry)))
    (current previous : Result WrittenPath) (keep : ℕ)
    → All
        (λ path. (current ≢ ok path) × (previous ≢ ok path))
        (prune_generations remove_dir_all entries current previous keep).0
unfolding prune_generations
prune_generations-spares r (err e) c q keep = tt
prune_generations-spares r (ok none) c q keep = tt
prune_generations-spares r (ok (some es)) c q keep =
    All-map (λ path h. spared c q path h) _
      (sweep-spares r (protected_of c q) (keep - length (protected_of c q)) 0
        (newest_first (filter is_generation es)))

-- The generations that are not in use, the newest first.
abbrev pub spare : List Entry → Result WrittenPath → Result WrittenPath → List Entry
unfolding newest_first
spare entries current previous =
    unprotected (protected_of current previous) (newest_first (filter is_generation entries))

filter-All {κ} :
    (p : Entry → Bool) (P : Entry → Type κ) (es : List Entry) → All P es → All P (filter p es)
filter-All p P [] a = tt
filter-All p P (e ∷ es) (now, later) = elim (Bool-cases (p e)) [
  | inl t ↦ simp (t) (now, filter-All p P es later)
  | inr f ↦ simp (f) (filter-All p P es later)
]

filter-NewestFirst :
    (p : Entry → Bool) (es : List Entry) → NewestFirst es → NewestFirst (filter p es)
filter-NewestFirst p [] h = tt
filter-NewestFirst p (e ∷ es) (a, s) = elim (Bool-cases (p e)) [
  | inl t ↦ simp (t) (filter-All p _ es a, filter-NewestFirst p es s)
  | inr f ↦ simp (f) (filter-NewestFirst p es s)
]

-- If the directory can be read and every removal succeeds, pruning succeeds. It removes, of the
-- generations that are not in use with the newest first, all but as many as `keep` exceeds the
-- number of those in use.
pub prune_generations-drop :
    (remove_dir_all : WrittenPath → Result (Unit {0})) (entries : List Entry)
    (current previous : Result WrittenPath) (keep : ℕ)
    → ((path : WrittenPath) → remove_dir_all path ≡ ok tt)
    → (prune_generations remove_dir_all (ok (some entries)) current previous keep ≡ (
      map
          (λ e. e.path)
          (drop (keep - length (protected_of current previous)) (spare entries current previous)),
      ok tt,
    ))
      × NewestFirst (spare entries current previous)
unfolding prune_generations
prune_generations-drop r es c q keep h = (
  subst
      (λ n.
        sweep r (protected_of c q) (keep - length (protected_of c q)) 0
          (newest_first (filter is_generation es))
        ≡ (map (λ e. e.path) (drop n (spare es c q)), ok tt))
      (minus-zero (keep - length (protected_of c q)))
      (sweep-drop r (protected_of c q) (keep - length (protected_of c q)) 0
        (newest_first (filter is_generation es)) h),
  filter-NewestFirst _ _ (newest_first-NewestFirst (filter is_generation es)),
)
