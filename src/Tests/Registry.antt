-- ===== src/Tests/Registry.antt =====
-- Concrete inputs for crates/xray-manager-platform/src/registry.rs, those of its own tests.
use xrayctl.Common.{
  String, Bool, true, false, Option, none, some, List, [], ◌∷◌, map, ◌≡◌, refl, All,
}
use xrayctl.Core.Ports.{
  Capability, service, tun, installed_state, BackendDescriptor, BackendProbe, BackendPreferences,
  CapabilityStatus,
}
use xrayctl.Core.Error.{ok, is_ok}
use xrayctl.Platform.Registry.{
  Factory, Entry, checked_probe, collect, explicit, choose_explicit, least, choose_automatic,
  choose_given, choose, push, selection, status, Resolution, resolve_all, resolve, instantiate,
}
use xrayctl.Platform.Registry.Choice.{Follows, Serves, choose-Follows}
use xrayctl.Platform.Registry.Resolution.{
  Grounded, Honest, resolve-covers, resolve-Grounded, resolve-Honest, instantiate-resolve,
}

abbrev descriptor : String → BackendDescriptor
descriptor id = record {
  id = id;
  contract_version = 1;
  capabilities = service ∷ [];
  platform = "test";
  requirements = [];
}

abbrev probe : Bool → BackendProbe
probe up = record { available = up; reason = none }

-- A factory whose components are their identifiers.
abbrev factory : String → Bool → Factory String
factory id up = record {
  descriptor = descriptor id;
  probe = ok (probe up);
  create = λ c selections. ok id;
}

abbrev entry : String → Bool → Entry
entry id up = record { descriptor = descriptor id; probe = probe up }

abbrev entries : List Entry
entries = entry "b" true ∷ entry "a" false ∷ []

abbrev factories : List (Factory String)
factories = factory "a" false ∷ factory "b" true ∷ []

abbrev no_choice : Capability → Option String
no_choice c = none

abbrev preferences : BackendPreferences
preferences = record { cli = no_choice; config = no_choice; installed = λ c. some "a" }

abbrev defaults : BackendPreferences
defaults = record { cli = no_choice; config = λ c. some "auto"; installed = no_choice }

choose-Follows_example :
    Follows (some (installed_state, "a")) service entries (some (installed_state, entry "a" false))
    × Serves service entries (some (installed_state, entry "a" false))
unfolding choose choose_given choose_explicit explicit
choose-Follows_example =
    choose-Follows "linux" entries preferences service
      {chosen = some (installed_state, entry "a" false)} refl

abbrev saved : BackendPreferences
saved = record {
  cli = no_choice;
  config = no_choice;
  installed = λ c. elim c [ service ↦ some "a" | _ ↦ none ];
}

abbrev no_tun : CapabilityStatus
no_tun = record {
  capability = tun;
  supported = false;
  backend_id = none;
  reason = some "no available backend";
}

-- The saved backend stays addressable although it is unavailable; nothing provides TUN.
abbrev resolved : Resolution
resolved = (
  selection service installed_state (entry "a" false) ∷ [],
  status service (entry "a" false) ∷ no_tun ∷ [],
)

resolves : resolve "linux" factories saved (service ∷ tun ∷ []) ≡ ok resolved
unfolding resolve resolve_all collect checked_probe choose choose_given choose_explicit
    choose_automatic least explicit push
resolves = refl

resolve-covers_example : map (λ s. s.capability) resolved.1 ≡ service ∷ tun ∷ []
resolve-covers_example =
    resolve-covers "linux" factories saved (service ∷ tun ∷ []) {r = resolved} resolves

resolve-Grounded_example : All (Grounded factories saved) resolved.0
resolve-Grounded_example =
    resolve-Grounded "linux" factories saved (service ∷ tun ∷ []) {r = resolved} resolves

resolve-Honest_example : All (Honest factories) resolved.1
resolve-Honest_example =
    resolve-Honest "linux" factories saved (service ∷ tun ∷ []) {r = resolved} resolves

instantiate-resolve_example : is_ok (instantiate "linux" factories resolved.0) ≡ true
instantiate-resolve_example =
    instantiate-resolve "linux" factories saved (service ∷ tun ∷ []) {r = resolved} resolves
      ((λ c t. refl), ((λ c t. refl), tt))
