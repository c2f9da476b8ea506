-- ===== src/Platform/Registry.antt =====
-- crates/xray-manager-platform/src/registry.rs: the choice of a backend for each capability.
-- A factory is what it answers: its descriptor, the outcome of its probe, and its adapters, of an
-- unknown type `Component`. The map `available` is a list of entries with distinct identifiers.

pub mod Order
pub mod Precedence
pub mod Choice
pub mod Collect
pub mod Resolution
use Prim.Native.Nat.{Ordering}
use Prim.Native.String.{compare}
use xrayctl.Common.{
  String, ◌<>◌, Bool, true, false, not, ◌&&◌, ◌||◌, Option, none, some, List, [], ◌∷◌, ◌==◌, eqb,
  any, find, filter, show, if◌then◌else◌,
}
use xrayctl.Core.Ports.{
  Capability, display, same, SelectionSource, cli, config, installed_state, automatic,
  BackendSelection, CapabilityStatus, BackendDescriptor, BackendProbe, BackendPreferences,
}
use xrayctl.Core.Error.{
  ManagerError, platform_unsupported, other, Result, ok, err, ok_or, fail_if, ◌>>=◌, ◌>>◌,
}

pub record Factory {ℓ} (Component : Type ℓ) : Type ℓ where
  pub descriptor : BackendDescriptor
  pub probe : Result BackendProbe
  pub create : Capability → List BackendSelection → Result Component

-- A value of the map `available`; its key is the identifier in the descriptor.
pub record Entry : Type 0 where
  pub descriptor : BackendDescriptor
  pub probe : BackendProbe

abbrev pub id_of : Entry → String
id_of e = e.descriptor.id

abbrev pub provides : Capability → BackendDescriptor → Bool
provides c d = any (same c) d.capabilities

-- A backend of another contract counts as unavailable.
unfoldable pub checked_probe : BackendDescriptor → BackendProbe → BackendProbe
checked_probe d p = if eqb d.contract_version 1 then p else record {
  available = false;
  reason = some (
      "backend contract "
      <> show d.contract_version
      <> " is incompatible with required contract 1");
}

abbrev pub lookup_id : String → List Entry → Option Entry
lookup_id id = find (λ e. id_of e == id)

-- The loop that fills `available`.
unfoldable pub collect {ℓ} :
    {Component : Type ℓ} → List (Factory Component) → List Entry → Result (List Entry)
unfolding checked_probe
collect [] available = ok available
collect (f ∷ fs) available =
    let d = f.descriptor in
    let rest = λ (p : BackendProbe).
      collect fs (record { descriptor = d; probe = checked_probe d p } ∷ available) in
    f.probe >>= λ p.
    fail_if (any (λ e. id_of e == d.id) available) (other ("duplicate backend ID '" <> d.id <> "'"))
    >> rest p

abbrev pub preferred : SelectionSource → Option String → Option (SelectionSource × String)
preferred source none = none
preferred source (some id) = if id == "auto" then none else some (source, id)

abbrev pub or_else {ℓ} : {A : Type ℓ} → Option A → Option A → Option A
or_else none b = b
or_else (some a) b = some a

-- The first of the three preferences that is given and is not "auto".
unfoldable pub explicit : BackendPreferences → Capability → Option (SelectionSource × String)
explicit p c =
    or_else (preferred cli (p.cli c))
      (or_else (preferred config (p.config c)) (preferred installed_state (p.installed c)))

abbrev unavailable : Capability → Entry → String → ManagerError
unavailable c e advice =
    platform_unsupported c e.descriptor.platform (some (id_of e))
      (elim e.probe.reason [ none ↦ "backend '" <> id_of e <> "' is unavailable" | some r ↦ r ])
      (some advice)

abbrev pub is_installed : SelectionSource → Bool
is_installed installed_state = true
is_installed _ = false

-- `platform` is `std::env::consts::OS`.
unfoldable pub choose_explicit :
    String → List Entry → Capability → SelectionSource → String → Result Entry
choose_explicit platform available c source id =
    ok_or (lookup_id id available) (
      platform_unsupported c platform (some id)
        ("requested backend '" <> id <> "' is not compiled in")
        (some ("choose a backend listed by doctor for " <> display c)))
    >>= λ e.
        fail_if (not (provides c e.descriptor))
          (unavailable c e ("choose a backend that provides " <> display c))
        >> (fail_if (not e.probe.available && not (is_installed source))
              (unavailable c e "satisfy the backend requirements or choose another backend")
            >> ok e)

-- `min_by` on the identifiers: the first of the least ones.
unfoldable pub lesser : Entry → Entry → Entry
lesser e m = elim (compare (id_of e) (id_of m)) [ Ordering.gt ↦ m | _ ↦ e ]

unfoldable pub least : List Entry → Option Entry
unfolding lesser
least [] = none
least (e ∷ es) = elim (least es) [ none ↦ some e | some m ↦ some (lesser e m) ]

abbrev pub is_candidate : Capability → Entry → Bool
is_candidate c e = e.probe.available && provides c e.descriptor

abbrev pub is_fallback : Capability → Entry → Bool
is_fallback c e = eqb e.descriptor.contract_version 1 && provides c e.descriptor

unfoldable pub choose_automatic : List Entry → Capability → Option Entry
unfolding least
choose_automatic available c =
    or_else (least (filter (is_candidate c) available)) (least (filter (is_fallback c) available))

abbrev pub automatically : Option Entry → Option (SelectionSource × Entry)
automatically none = none
automatically (some e) = some (automatic, e)

unfoldable pub choose_given :
    String
    → List Entry
    → Capability
    → Option (SelectionSource × String)
    → Result (Option (SelectionSource × Entry))
unfolding choose_explicit choose_automatic
choose_given platform available c (some (source, id)) =
    choose_explicit platform available c source id >>= λ e. ok (some (source, e))
choose_given platform available c none = ok (automatically (choose_automatic available c))

unfoldable pub choose :
    String
    → List Entry
    → BackendPreferences
    → Capability
    → Result (Option (SelectionSource × Entry))
unfolding explicit choose_given
choose platform available p c = choose_given platform available c (explicit p c)

abbrev pub Resolution : Type 0
Resolution = List BackendSelection × List CapabilityStatus

abbrev pub selection : Capability → SelectionSource → Entry → BackendSelection
selection c source e = record { capability = c; backend_id = id_of e; source = source }

abbrev pub status : Capability → Entry → CapabilityStatus
status c e = record {
  capability = c;
  supported = e.probe.available;
  backend_id = some (id_of e);
  reason = e.probe.reason;
}

abbrev pub no_status : Capability → CapabilityStatus
no_status c = record {
  capability = c;
  supported = false;
  backend_id = none;
  reason = some "no available backend";
}

-- What one round of the loop pushes on `selections` and on `statuses`.
unfoldable pub push : Capability → Option (SelectionSource × Entry) → Resolution → Resolution
push c none (sels, sts) = (sels, no_status c ∷ sts)
push c (some (source, e)) (sels, sts) = (selection c source e ∷ sels, status c e ∷ sts)

-- The loop over `required`.
unfoldable pub resolve_all :
    String → List Entry → BackendPreferences → List Capability → Result Resolution
unfolding choose push
resolve_all platform available p [] = ok ([], [])
resolve_all platform available p (c ∷ cs) =
    let rest = resolve_all platform available p cs in
    choose platform available p c >>= λ chosen. rest >>= λ r. ok (push c chosen r)

module _ {ℓ} {Component : Type ℓ} (platform : String) (factories : List (Factory Component)) where
  unfoldable pub resolve : BackendPreferences → List Capability → Result Resolution
  unfolding collect resolve_all
  resolve p required =
      collect factories [] >>= λ available. resolve_all platform available p required

  -- The loop of `instantiate` over the selections still to come; `create` sees them all.
  unfoldable pub instantiate_from :
      List BackendSelection → List BackendSelection → Result (List Component)
  instantiate_from selections [] = ok []
  instantiate_from selections (s ∷ more) =
      let rest = instantiate_from selections more in
      ok_or (find (λ f. f.descriptor.id == s.backend_id) factories) (
        platform_unsupported s.capability platform (some s.backend_id)
          ("selected backend '" <> s.backend_id <> "' is not compiled in")
          (some "restore the installed backend or select a compiled replacement"))
      >>= λ f. f.create s.capability selections >>= λ x. rest >>= λ xs. ok (x ∷ xs)

  unfoldable pub instantiate : List BackendSelection → Result (List Component)
  unfolding instantiate_from
  instantiate selections = instantiate_from selections selections
