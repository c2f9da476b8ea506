-- ===== src/Platform/Registry/Precedence.antt =====
-- The order of the preferences: command line, configuration, installed state.
use xrayctl.Common.{
  String, Option, none, some, ◌==◌, ◌≡◌, ◌≢◌, ◌⊎◌, inl, inr, refl, arith, eq_iff, Bool-cases,
}
use xrayctl.Core.Ports.{
  Capability, SelectionSource, cli, config, installed_state, automatic, BackendPreferences,
}
use xrayctl.Platform.Registry.{preferred, explicit}

-- A source that gives no identifier, or "auto".
abbrev pub IsUnset : Option String → Type 0
IsUnset none = Unit
IsUnset (some id) = id ≡ "auto"

abbrev pub IsFirst : BackendPreferences → Capability → SelectionSource → String → Type 0
IsFirst p c cli id = p.cli c ≡ some id
IsFirst p c config id = IsUnset (p.cli c) × (p.config c ≡ some id)
IsFirst p c installed_state id =
    IsUnset (p.cli c) × IsUnset (p.config c) × (p.installed c ≡ some id)
IsFirst p c automatic id = ⊥

abbrev pub Precedence : BackendPreferences → Capability → Option (SelectionSource × String) → Type 0
Precedence p c none = IsUnset (p.cli c) × IsUnset (p.config c) × IsUnset (p.installed c)
Precedence p c (some (source, id)) = (id ≢ "auto") × IsFirst p c source id

preferred_cases :
    (source : SelectionSource) (o : Option String)
    → ((preferred source o ≡ none) × IsUnset o)
      ⊎ ((id : String) × (preferred source o ≡ some (source, id)) × (o ≡ some id) × (id ≢ "auto"))
preferred_cases source none = inl (refl, tt)
preferred_cases source (some id) = elim (Bool-cases (id == "auto")) [
  | inl t ↦ inl (rw t refl, (eq_iff id "auto").0 t)
  | inr f ↦ inr (id, rw f refl, refl, λ q. ground (arith, eq_iff id "auto"))
]

-- The explicit choice is the identifier, other than "auto", of the first source that gives one, in
-- the order command line, configuration, installed state; there is none exactly if none gives one.
pub explicit-Precedence : (p : BackendPreferences) (c : Capability) → Precedence p c (explicit p c)
unfolding explicit
explicit-Precedence p c = elim (preferred_cases cli (p.cli c)) [
  | inr (id, q, g, n) ↦ rw q (n, g)
  | inl (q, u) ↦ rw q (elim (preferred_cases config (p.config c)) [
    | inr (id, r, g, n) ↦ rw r (n, (u, g))
    | inl (r, v) ↦ rw r (elim (preferred_cases installed_state (p.installed c)) [
      | inr (id, s, g, n) ↦ rw s (n, (u, v, g))
      | inl (s, w) ↦ rw s (u, v, w)
    ])
  ])
]
