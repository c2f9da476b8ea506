-- ===== src/Core/Profiles/Validity.antt =====
-- What a subscription, a profile and the name of a resource must satisfy.
use xrayctl.Common.{
  String, true, false, List, [], ◌∷◌, ◌≡◌, ◌≢◌, ◌↔◌, arith, refl, eq_iff, All, any, all_chars,
}
use xrayctl.Core.Error.{ok}
use xrayctl.Core.Config.Validation.{Url, is_https}
use xrayctl.Core.Config.Checks.{is_empty_text_iff}
use xrayctl.Core.Config.Validity.{IsResourceName}
use xrayctl.Core.Profiles.{
  SubscriptionConfig, subscription_checks, validate_subscription, AppProfile, lacks_program,
  is_variable_char, bad_variable, profile_checks, validate_profile, validate_resource_name,
}

-- A resource name is accepted exactly when it is made of resource characters, one at least.
pub IsResourceName-iff : (s : String) → (validate_resource_name s ≡ ok tt) ↔ IsResourceName s
unfolding validate_resource_name
IsResourceName-iff s = ground (arith, is_empty_text_iff s)

module _ (parse_url : String → Url) where
  pub record IsValidSubscription (s : SubscriptionConfig) : Type 0 where
    pub named : IsResourceName s.name
    pub secure : is_https (parse_url s.url) ≡ true
    pub known : s.format ≡ "auto"

  -- A subscription is accepted exactly when it has a resource name, an HTTPS URL and the format
  -- that is supported.
  pub subscription_iff :
      (s : SubscriptionConfig) → (validate_subscription parse_url s ≡ ok tt) ↔ IsValidSubscription s
  unfolding validate_subscription subscription_checks
  subscription_iff s = ground (arith, is_empty_text_iff s.name, eq_iff s.format "auto")

abbrev pub HasProgram : List String → Type 0
HasProgram [] = ⊥
HasProgram (program ∷ args) = program ≢ ""

abbrev pub IsVariable : String × String → Type 0
IsVariable (key, value) = (key ≢ "") × (all_chars is_variable_char key ≡ true)

pub record IsValidProfile (p : AppProfile) : Type 0 where
  pub named : IsResourceName p.name
  pub program : HasProgram p.command
  pub variables : All IsVariable p.environment

variables_iff : (e : List (String × String)) → (any bad_variable e ≡ false) ↔ All IsVariable e
variables_iff [] = ((λ h. tt), λ h. refl)
variables_iff ((k, v) ∷ e) = ground (arith, is_empty_text_iff k, variables_iff e)

lacks_program_iff : (c : List String) → (lacks_program c ≡ false) ↔ HasProgram c
lacks_program_iff [] = ((λ h. cc), λ h. absurd h)
lacks_program_iff (program ∷ args) = is_empty_text_iff program

-- A profile is accepted exactly when it has a resource name, a program and proper variables.
pub profile_iff : (p : AppProfile) → (validate_profile p ≡ ok tt) ↔ IsValidProfile p
unfolding validate_profile profile_checks
profile_iff p =
    ground
      (arith, is_empty_text_iff p.name, lacks_program_iff p.command, variables_iff p.environment)
