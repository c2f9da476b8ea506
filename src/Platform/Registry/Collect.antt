-- ===== src/Platform/Registry/Collect.antt =====
-- The entries that `collect` makes of the factories: one for each, under distinct identifiers.
use mathlib.Core.List.{Memᴰ}
use text.Mathlib.TextPositions.{eq_refl}
use xrayctl.Common.{
  String, Bool, false, none, some, List, [], ◌∷◌, ◌==◌, ◌≡◌, refl, sym, ap, ◌⊎◌, inl, inr, any,
  any-false, find, arith, eq_iff, Bool-cases,
}
use xrayctl.Core.Ports.{BackendProbe}
use xrayctl.Core.Error.{ok, >>=-eq-ok, fail_if-eq-ok}
use xrayctl.Platform.Registry.{Factory, Entry, id_of, checked_probe, collect}

module _ {ℓ} {Component : Type ℓ} where
  abbrev pub has_id : String → Factory Component → Bool
  has_id id f = f.descriptor.id == id

  abbrev entry : Factory Component → BackendProbe → Entry
  entry f p = record { descriptor = f.descriptor; probe = checked_probe f.descriptor p }

  -- The entry is that of the factory found under its identifier.
  pub record Source (fs : List (Factory Component)) (e : Entry) : Type ℓ where
    pub factory : Factory Component
    pub raw : BackendProbe
    pub found : find (has_id (id_of e)) fs ≡ some factory
    pub probed : factory.probe ≡ ok raw
    pub same_entry : entry factory raw ≡ e

  -- What a round of the loop that does not fail has done.
  collect-cons :
      (f : Factory Component) (fs : List (Factory Component)) (acc : List Entry) {es : List Entry}
      → collect (f ∷ fs) acc ≡ ok es
      → (p : BackendProbe) × (f.probe ≡ ok p)
        × (any (λ e. id_of e == f.descriptor.id) acc ≡ false)
        × (collect fs (entry f p ∷ acc) ≡ ok es)
  unfolding collect
  collect-cons f fs acc {es} h =
      let (p, q, k) = >>=-eq-ok f.probe _ h in
      let (fresh, rest) = fail_if-eq-ok _ _ _ k in (p, q, fresh, rest)

  -- No later factory has an identifier that is taken.
  collect-fresh :
      (fs : List (Factory Component)) (acc : List Entry) {es : List Entry} (e : Entry)
      → collect fs acc ≡ ok es
      → Memᴰ e acc
      → find (has_id (id_of e)) fs ≡ none
  collect-fresh [] acc e h m = refl
  collect-fresh (f ∷ fs) acc e h m =
      let (p, q, fresh, rest) = collect-cons f fs acc h in
      ground (
        arith,
        any-false (λ x. id_of x == f.descriptor.id) acc fresh m,
        eq_iff f.descriptor.id (id_of e),
        eq_iff (id_of e) f.descriptor.id,
        collect-fresh fs (entry f p ∷ acc) e rest (Memᴰ.tail m),
      )

  Source-head :
      (f : Factory Component) (fs : List (Factory Component)) (p : BackendProbe) (e : Entry)
      → f.probe ≡ ok p
      → e ≡ entry f p
      → Source (f ∷ fs) e
  Source-head f fs p e q s = record {
    factory = f;
    raw = p;
    found = rw (s, eq_refl f.descriptor.id);
    probed = q;
    same_entry = sym s;
  }

  Source-tail :
      (f : Factory Component) (fs : List (Factory Component)) (e : Entry)
      → (f.descriptor.id == id_of e) ≡ false
      → Source fs e
      → Source (f ∷ fs) e
  Source-tail f fs e n s = record {
    factory = s.factory;
    raw = s.raw;
    found = rw n s.found;
    probed = s.probed;
    same_entry = s.same_entry;
  }

  other_id :
      (f : Factory Component) (fs : List (Factory Component)) (p : BackendProbe) (e : Entry)
      → find (has_id f.descriptor.id) fs ≡ none
      → Source fs e
      → (f.descriptor.id == id_of e) ≡ false
  other_id f fs p e none_left s = elim (Bool-cases (f.descriptor.id == id_of e)) [
    | inl t ↦
        let same : f.descriptor.id ≡ id_of e = (eq_iff f.descriptor.id (id_of e)).0 t in
        cc (ap (λ (i : String). find (has_id i) fs) same, s.found)
    | inr n ↦ n
  ]

  collect-Source_or :
      (fs : List (Factory Component)) (acc : List Entry) {es : List Entry} (e : Entry)
      → collect fs acc ≡ ok es
      → Memᴰ e es
      → Memᴰ e acc ⊎ Source fs e
  collect-Source_or [] acc {es} e h m = let q : acc ≡ es = unfold collect in cc in inl (rw q m)
  collect-Source_or (f ∷ fs) acc e h m =
      let (p, q, fresh, rest) = collect-cons f fs acc h in
      elim (collect-Source_or fs (entry f p ∷ acc) e rest m) [
        | inl (Memᴰ.head s) ↦ inr (Source-head f fs p e q s)
        | inl (Memᴰ.tail t) ↦ inl t
        | inr s ↦ inr (
            Source-tail f fs e
              (other_id f fs p e
                (collect-fresh fs (entry f p ∷ acc) (entry f p) rest (Memᴰ.head refl)) s)
              s)
      ]

  -- If the collection succeeds, every entry is that of the factory found under its identifier,
  -- with what its probe answered.
  pub collect-Source :
      (fs : List (Factory Component)) {es : List Entry} (e : Entry)
      → collect fs [] ≡ ok es
      → Memᴰ e es
      → Source fs e
  collect-Source fs e h m = elim (collect-Source_or fs [] e h m) [
    | inl none_yet ↦ elim none_yet [ ]
    | inr s ↦ s
  ]
