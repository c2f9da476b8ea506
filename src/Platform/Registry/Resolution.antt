-- ===== src/Platform/Registry/Resolution.antt =====
-- What a resolution of all the required capabilities promises.
use mathlib.Core.List.{Memᴰ}
use xrayctl.Common.{
  String, true, Option, none, some, List, [], ◌∷◌, map, ◌≡◌, refl, ap, ◌∙◌, arith, find, All-find,
  All,
}
use xrayctl.Core.Ports.{
  Capability, SelectionSource, automatic, BackendPreferences, BackendSelection, CapabilityStatus,
  BackendProbe,
}
use xrayctl.Core.Error.{ok, is_ok, >>=-eq-ok}
use xrayctl.Platform.Registry.{
  Factory, Entry, id_of, provides, selection, status, checked_probe, explicit, choose, push,
  Resolution, resolve_all, resolve, collect, instantiate_from, instantiate,
}
use xrayctl.Platform.Registry.Choice.{Follows, Serves, choose-Follows}
use xrayctl.Platform.Registry.Collect.{Source, collect-Source, has_id}

resolve_all-cons :
    (platform : String) (es : List Entry) (p : BackendPreferences) (c : Capability)
    (cs : List Capability) {r : Resolution}
    → resolve_all platform es p (c ∷ cs) ≡ ok r
    → (chosen : Option (SelectionSource × Entry)) × (rest : Resolution) × (choose platform es p c
        ≡ ok chosen)
      × (resolve_all platform es p cs ≡ ok rest)
      × (push c chosen rest ≡ r)
unfolding resolve_all
resolve_all-cons platform es p c cs h =
    let (chosen, q, k) = >>=-eq-ok (choose platform es p c) _ h in
    let (rest, q', k') = >>=-eq-ok (resolve_all platform es p cs) _ k in (chosen, rest, q, q', cc)

-- The rule for a property of resolutions that each round keeps.
resolve_all_rule {κ} :
    (platform : String) (es : List Entry) (p : BackendPreferences)
    (P : List Capability → Resolution → Type κ)
    → P [] ([], [])
    → ((c : Capability) (cs : List Capability) (chosen : Option (SelectionSource × Entry))
          (r : Resolution)
        → Follows (explicit p c) c es chosen × Serves c es chosen
        → P cs r
        → P (c ∷ cs) (push c chosen r))
    → (cs : List Capability) {r : Resolution} → resolve_all platform es p cs ≡ ok r
    → P cs r
resolve_all_rule platform es p P base step [] {r} h =
    let q : ([], []) ≡ r = unfold resolve_all in cc in rw (← q) base
resolve_all_rule platform es p P base step (c ∷ cs) {r} h =
    let (chosen, rest, q, q', k) = resolve_all-cons platform es p c cs h in
    rw (← k) (
      step c cs chosen rest (choose-Follows platform es p c q)
        (resolve_all_rule platform es p P base step cs q'))

-- There is one status for each capability, in order.
abbrev Covers : List Capability → Resolution → Type 0
Covers cs r = map (λ s. s.capability) r.1 ≡ cs

push-Covers :
    (c : Capability) (cs : List Capability) (chosen : Option (SelectionSource × Entry))
    (r : Resolution)
    → Covers cs r
    → Covers (c ∷ cs) (push c chosen r)
unfolding push
push-Covers c cs none r h = ap (λ x. c ∷ x) h
push-Covers c cs (some (s, e)) r h = ap (λ x. c ∷ x) h

-- How a selection came about: by the first preference that is given, or automatically.
abbrev pub Given : Option (SelectionSource × String) → BackendSelection → Type 0
Given (some (source, id)) s = (s.source ≡ source) × (s.backend_id ≡ id)
Given none s = s.source ≡ automatic

module _ {ℓ} {Component : Type ℓ} (factories : List (Factory Component)) where
  -- A selection names a registered backend that provides the capability.
  pub record Grounded (p : BackendPreferences) (s : BackendSelection) : Type ℓ where
    pub factory : Factory Component
    pub found : find (has_id s.backend_id) factories ≡ some factory
    pub provided : provides s.capability factory.descriptor ≡ true
    pub given : Given (explicit p s.capability) s

  -- A supported status rests on a backend of contract 1 whose probe found it available.
  pub record Backed (s : CapabilityStatus) : Type ℓ where
    pub id : String
    pub factory : Factory Component
    pub raw : BackendProbe
    pub named : s.backend_id ≡ some id
    pub found : find (has_id id) factories ≡ some factory
    pub provided : provides s.capability factory.descriptor ≡ true
    pub contract : factory.descriptor.contract_version ≡ 1
    pub probed : factory.probe ≡ ok raw
    pub available : raw.available ≡ true

  abbrev pub Honest : CapabilityStatus → Type ℓ
  Honest s = s.supported ≡ true → Backed s

  abbrev Sound : BackendPreferences → Resolution → Type ℓ
  Sound p r = All (Grounded p) r.0 × All Honest r.1

  Follows-Given :
      (x : Option (SelectionSource × String)) (c : Capability) (es : List Entry)
      (s : SelectionSource) (e : Entry)
      → Follows x c es (some (s, e))
      → Given x (selection c s e)
  Follows-Given none c es s e h = h.0
  Follows-Given (some (source, id)) c es s e h = h

  Source-provides :
      (c : Capability) (e : Entry) (src : Source factories e)
      → provides c e.descriptor ≡ true
      → provides c src.factory.descriptor ≡ true
  Source-provides c e src h = rw (ap (λ (x : Entry). provides c x.descriptor) src.same_entry) h

  checked_probe-available :
      (d : _) (p : BackendProbe)
      → (checked_probe d p).available ≡ true
      → (d.contract_version ≡ 1) × (p.available ≡ true)
  unfolding checked_probe
  checked_probe-available d p h = ground arith

  Source-Honest :
      (c : Capability) (e : Entry)
      → Source factories e
      → provides c e.descriptor ≡ true
      → Honest (status c e)
  Source-Honest c e src t up =
      let (contract, available) =
        checked_probe-available src.factory.descriptor src.raw
          (ap (λ (x : Entry). x.probe.available) src.same_entry ∙ up) in
      record {
        id = id_of e;
        factory = src.factory;
        raw = src.raw;
        named = refl;
        found = src.found;
        provided = Source-provides c e src t;
        contract = contract;
        probed = src.probed;
        available = available;
      }

  push-Sound :
      (p : BackendPreferences) (es : List Entry)
      → ((e : Entry) → Memᴰ e es → Source factories e)
      → (c : Capability) (chosen : Option (SelectionSource × Entry)) (r : Resolution)
      → Follows (explicit p c) c es chosen × Serves c es chosen
      → Sound p r
      → Sound p (push c chosen r)
  unfolding push
  push-Sound p es known c none r h (sels, sts) = (sels, ((λ t. cc), sts))
  push-Sound p es known c (some (s, e)) r (follows, (listed, t)) (sels, sts) =
      let src = known e listed in
      let grounded : Grounded p (selection c s e) = record {
        factory = src.factory;
        found = src.found;
        provided = Source-provides c e src t;
        given = Follows-Given (explicit p c) c es s e follows;
      } in
      ((grounded, sels), (Source-Honest c e src t, sts))

-- The factory creates whatever it provides.
abbrev pub Creates {ℓ} : {Component : Type ℓ} → List BackendSelection → Factory Component → Type 0
Creates selections f =
    (c : Capability) → provides c f.descriptor ≡ true → is_ok (f.create c selections) ≡ true

module _ {ℓ} {Component : Type ℓ} (platform : String) (factories : List (Factory Component)) where
  -- A resolution that succeeds has one status for each required capability, in their order.
  pub resolve-covers :
      (p : BackendPreferences) (required : List Capability) {r : Resolution}
      → resolve platform factories p required ≡ ok r
      → map (λ s. s.capability) r.1 ≡ required
  unfolding resolve
  resolve-covers p required h =
      let (es, q, k) = >>=-eq-ok (collect factories []) _ h in
      resolve_all_rule platform es p Covers refl
        (λ c cs chosen r _ hr. push-Covers c cs chosen r hr) required k

  resolve-Sound :
      (p : BackendPreferences) (required : List Capability) {r : Resolution}
      → resolve platform factories p required ≡ ok r
      → All (Grounded factories p) r.0 × All (Honest factories) r.1
  unfolding resolve
  resolve-Sound p required h =
      let (es, q, k) = >>=-eq-ok (collect factories []) _ h in
      resolve_all_rule platform es p (λ _ r. Sound factories p r) (tt, tt)
        (λ c cs chosen r now later.
          push-Sound factories p es (λ e m. collect-Source factories e q m) c chosen r now later)
        required k

  -- If a resolution succeeds, every selection names a registered backend that provides the
  -- capability, and is by the first of the command line, the configuration and the installed state
  -- that gives a name other than "auto", or automatic if none does.
  pub resolve-Grounded :
      (p : BackendPreferences) (required : List Capability) {r : Resolution}
      → resolve platform factories p required ≡ ok r
      → All (Grounded factories p) r.0
  resolve-Grounded p required h = (resolve-Sound p required h).0

  -- If a resolution succeeds, whatever it reports as supported is provided by a registered backend
  -- of contract 1 whose probe found it available.
  pub resolve-Honest :
      (p : BackendPreferences) (required : List Capability) {r : Resolution}
      → resolve platform factories p required ≡ ok r
      → All (Honest factories) r.1
  resolve-Honest p required h = (resolve-Sound p required h).1

  instantiate_from-is_ok :
      (p : BackendPreferences) (selections todo : List BackendSelection)
      → All (Grounded factories p) todo
      → All (Creates selections) factories
      → is_ok (instantiate_from platform factories selections todo) ≡ true
  unfolding instantiate_from
  instantiate_from-is_ok p selections [] g creates = refl
  instantiate_from-is_ok p selections (s ∷ todo) (now, later) creates = rw now.found (
      ground (
        arith,
        All-find (Creates selections) (has_id s.backend_id) factories creates now.found s.capability
            now.provided,
        instantiate_from-is_ok p selections todo later creates,
      ))

  -- If a resolution succeeds and every factory creates what it provides, the selections can be
  -- instantiated.
  pub instantiate-resolve :
      (p : BackendPreferences) (required : List Capability) {r : Resolution}
      → resolve platform factories p required ≡ ok r
      → All (Creates r.0) factories
      → is_ok (instantiate platform factories r.0) ≡ true
  unfolding instantiate
  instantiate-resolve p required {r} h creates =
      instantiate_from-is_ok p r.0 r.0 (resolve-Grounded p required h) creates
