-- ===== src/Platform/Registry/Choice.antt =====
-- How one capability is given a backend.
use mathlib.Core.List.{Memᴰ}
use text.Mathlib.TextPositions.{compare_refl}
use xrayctl.Common.{
  String, Bool, true, false, ◌&&◌, ◌||◌, Option, none, some, List, [], ◌∷◌, ◌==◌, ◌≡◌, refl, any,
  find-holds, find-mem, filter, All, Bool-cases, if◌then◌else◌, arith, ◌⊎◌, inl, inr, map_or,
  eq_iff,
}
use xrayctl.Core.Ports.{Capability, SelectionSource, automatic, BackendPreferences}
use xrayctl.Core.Error.{ok, is_ok, ◌>>=◌, >>=-eq-ok}
use xrayctl.Platform.Registry.{
  Entry, id_of, provides, lookup_id, explicit, is_installed, choose_explicit, lesser, least,
  is_candidate, is_fallback, or_else, choose_automatic, choose_given, automatically, choose,
}
use xrayctl.Platform.Registry.Order.{AtMost, AtMost-trans, AtMost-total}

-- An explicit choice succeeds exactly when the backend is compiled in, provides the capability,
-- and is available or was saved at installation.
pub choose_explicit-is_ok :
    (platform : String) (available : List Entry) (c : Capability) (source : SelectionSource)
    (id : String)
    → is_ok (choose_explicit platform available c source id)
      ≡ map_or false
          (λ e. provides c e.descriptor && (e.probe.available || is_installed source))
          (lookup_id id available)
unfolding choose_explicit
choose_explicit-is_ok platform available c source id = ground arith

pub choose_explicit-ok :
    (platform : String) (available : List Entry) (c : Capability) (source : SelectionSource)
    (id : String) {e : Entry}
    → choose_explicit platform available c source id ≡ ok e
    → (lookup_id id available ≡ some e) × (provides c e.descriptor ≡ true)
unfolding choose_explicit
choose_explicit-ok platform available c source id h = ground arith

-- No entry that passes the test has a smaller identifier.
abbrev pub IsLeast : (Entry → Bool) → String → List Entry → Type 0
IsLeast p id = All (λ e. p e ≡ true → AtMost id (id_of e))

IsLeast-mono :
    (p : Entry → Bool) (i j : String) (es : List Entry)
    → AtMost i j
    → IsLeast p j es
    → IsLeast p i es
IsLeast-mono p i j [] h b = tt
IsLeast-mono p i j (e ∷ es) h b =
    (λ t. AtMost-trans i j (id_of e) h (b.0 t), IsLeast-mono p i j es h b.1)

IsLeast-none :
    (p : Entry → Bool) (id : String) (es : List Entry) → any p es ≡ false → IsLeast p id es
IsLeast-none p id [] h = tt
IsLeast-none p id (e ∷ es) h = (λ t. ground arith, IsLeast-none p id es (ground arith))

lesser_lem :
    (e m : Entry)
    → AtMost (id_of (lesser e m)) (id_of e)
      × AtMost (id_of (lesser e m)) (id_of m)
      × ((lesser e m ≡ e) ⊎ (lesser e m ≡ m))
unfolding lesser
lesser_lem e m = elim (AtMost-total (id_of e) (id_of m)) [
  | inl h ↦ ground (arith, compare_refl (id_of e), compare_refl (id_of m))
  | inr h ↦ ground (arith, compare_refl (id_of e), compare_refl (id_of m))
]

lesser_listed : (e m : Entry) (es : List Entry) → Memᴰ m es → Memᴰ (lesser e m) (e ∷ es)
lesser_listed e m es listed = elim (lesser_lem e m).2 [
  | inl q ↦ Memᴰ.head q
  | inr q ↦ Memᴰ.tail (rw q listed)
]

least_of_none : (e : Entry) (es : List Entry) → least es ≡ none → least (e ∷ es) ≡ some e
unfolding least
least_of_none e es h = ground arith

least_of_some :
    (e : Entry) (es : List Entry) {m : Entry}
    → least es ≡ some m
    → least (e ∷ es) ≡ some (lesser e m)
unfolding least
least_of_some e es h = rw h

-- Either nothing passes the test, or the result does, is listed, and has the least identifier.
abbrev pub Least : (Entry → Bool) → List Entry → Option Entry → Type 0
Least p es none = any p es ≡ false
Least p es (some m) = (p m ≡ true) × Memᴰ m es × IsLeast p (id_of m) es

Least-step :
    (p : Entry → Bool) (e : Entry) (es rest : List Entry) (r : Option Entry)
    → least rest ≡ r
    → Least p es r
    → Least p (e ∷ es) (least (if p e then e ∷ rest else rest))
Least-step p e es rest none q h = elim (Bool-cases (p e)) [
  | inl t ↦
      rw (t, least_of_none e rest q)
        (
          t,
          Memᴰ.head refl,
          ((λ _. ground (arith, compare_refl (id_of e))), IsLeast-none p (id_of e) es h),
        )
  | inr f ↦ rw (f, q) (rw f h)
]
Least-step p e es rest (some m) q (holds, listed, lowest) = elim (Bool-cases (p e)) [
  | inl t ↦
      rw (t, least_of_some e rest q)
        (
          ground (arith, lesser_lem e m),
          lesser_listed e m es listed,
          (
            (λ _. (lesser_lem e m).0),
            IsLeast-mono p (id_of (lesser e m)) (id_of m) es (lesser_lem e m).1 lowest,
          ),
        )
  | inr f ↦ rw (f, q) (holds, Memᴰ.tail listed, ((λ t. ground arith), lowest))
]

pub least-filter-Least : (p : Entry → Bool) (es : List Entry) → Least p es (least (filter p es))
least-filter-Least p [] = unfold least in refl
least-filter-Least p (e ∷ es) = Least-step p e es (filter p es) _ refl (least-filter-Least p es)

-- The best entry for a capability: an available one, or else one of the right contract.
abbrev pub IsBest : Capability → Entry → List Entry → Type 0
IsBest c e es =
    Least (is_candidate c) es (some e)
    ⊎ ((any (is_candidate c) es ≡ false) × Least (is_fallback c) es (some e))

abbrev pub Automatic : Capability → List Entry → Option Entry → Type 0
Automatic c es none = (any (is_candidate c) es ≡ false) × (any (is_fallback c) es ≡ false)
Automatic c es (some e) = IsBest c e es

Automatic-cases :
    (c : Capability) (es : List Entry) (m n : Option Entry)
    → Least (is_candidate c) es m
    → Least (is_fallback c) es n
    → Automatic c es (or_else m n)
Automatic-cases c es none none h k = (h, k)
Automatic-cases c es none (some e) h k = inr (h, k)
Automatic-cases c es (some e) n h k = inl h

-- The automatic choice is the available entry with the capability that has the least identifier;
-- if there is none, the one of contract 1 with the capability that has the least identifier; and
-- nothing exactly if there is none of these either.
pub choose_automatic-Automatic :
    (c : Capability) (es : List Entry) → Automatic c es (choose_automatic es c)
unfolding choose_automatic
choose_automatic-Automatic c es =
    Automatic-cases c es _ _ (least-filter-Least (is_candidate c) es)
      (least-filter-Least (is_fallback c) es)

-- What a choice has to do with the preferences.
abbrev pub Follows :
    Option (SelectionSource × String)
    → Capability
    → List Entry
    → Option (SelectionSource × Entry)
    → Type 0
Follows (some (source, id)) c es (some (s, e)) = (s ≡ source) × (id_of e ≡ id)
Follows (some (source, id)) c es none = ⊥
Follows none c es (some (s, e)) = (s ≡ automatic) × IsBest c e es
Follows none c es none = (any (is_candidate c) es ≡ false) × (any (is_fallback c) es ≡ false)

-- A chosen entry is listed and provides the capability.
abbrev pub Serves : Capability → List Entry → Option (SelectionSource × Entry) → Type 0
Serves c es none = Unit {0}
Serves c es (some (s, e)) = Memᴰ e es × (provides c e.descriptor ≡ true)

IsBest-Serves :
    (c : Capability) (e : Entry) (es : List Entry)
    → IsBest c e es
    → Serves c es (some (automatic, e))
IsBest-Serves c e es (inl (t, m, _)) = (m, ground arith)
IsBest-Serves c e es (inr (_, (t, m, _))) = (m, ground arith)

automatically-Follows :
    (c : Capability) (es : List Entry) (m : Option Entry)
    → Automatic c es m
    → Follows none c es (automatically m) × Serves c es (automatically m)
automatically-Follows c es none h = (h, tt)
automatically-Follows c es (some e) h = ((refl, h), IsBest-Serves c e es h)

explicitly-Follows :
    (c : Capability) (es : List Entry) (source : SelectionSource) (id : String) (e : Entry)
    → (lookup_id id es ≡ some e) × (provides c e.descriptor ≡ true)
    → Follows (some (source, id)) c es (some (source, e)) × Serves c es (some (source, e))
explicitly-Follows c es source id e (found, t) = (
  (refl, (eq_iff (id_of e) id).0 (find-holds (λ x. id_of x == id) es found)),
  (find-mem (λ x. id_of x == id) es found, t),
)

choose_given-Follows :
    (platform : String) (es : List Entry) (c : Capability) (x : Option (SelectionSource × String))
    {chosen : Option (SelectionSource × Entry)}
    → choose_given platform es c x ≡ ok chosen
    → Follows x c es chosen × Serves c es chosen
choose_given-Follows platform es c none {chosen} h =
    let q : automatically (choose_automatic es c) ≡ chosen = unfold choose_given in cc in
    rw (← q) (automatically-Follows c es _ (choose_automatic-Automatic c es))
choose_given-Follows platform es c (some (source, id)) {chosen} h =
    let k : (choose_explicit platform es c source id >>= λ e. ok (some (source, e))) ≡ ok chosen =
      unfold choose_given in h in
    let (e, found, q) = >>=-eq-ok (choose_explicit platform es c source id) _ k in
    let r : some (source, e) ≡ chosen = cc in
    rw (← r)
      (explicitly-Follows c es source id e (choose_explicit-ok platform es c source id found))

-- If the choice of a backend succeeds, then the backend is the one that the first given preference
-- names, with that preference as its source, or, if no preference is given, the best one or none;
-- and a chosen backend is listed and provides the capability.
pub choose-Follows :
    (platform : String) (es : List Entry) (p : BackendPreferences) (c : Capability)
    {chosen : Option (SelectionSource × Entry)}
    → choose platform es p c ≡ ok chosen
    → Follows (explicit p c) c es chosen × Serves c es chosen
choose-Follows platform es p c h =
    choose_given-Follows platform es c (explicit p c) (unfold choose in h)
