-- ===== src/Core/Profiles.antt =====
-- crates/xray-manager-core/src/config.rs: subscriptions and application profiles, and the names of
-- resources in application.rs.
pub mod Validity
use xrayctl.Common.{
  ℕ, String, Bool, not, ◌&&◌, ◌||◌, Option, List, [], ◌∷◌, ◌==◌, eqb, any, all_chars,
  is_ascii_alphanumeric, is_empty_text,
}
use xrayctl.Core.Error.{ManagerError, invalid_config, Result, ok, err, fail_if, ◌>>=◌, ◌>>◌}
use xrayctl.Core.Config.Validation.{
  Url, is_refused, is_https, is_plain_name, is_resource_char, Check, run_checks,
}

pub record SubscriptionConfig : Type 0 where
  pub name : String
  pub enabled : Bool
  pub url : String
  pub format : String

module _ (parse_url : String → Url) where
  unfoldable pub subscription_checks : SubscriptionConfig → List Check
  subscription_checks s =
      (
        not (is_plain_name s.name),
        invalid_config "subscription name may contain only ASCII letters, digits, '-' and '_'",
      )
      ∷ (is_refused (parse_url s.url), invalid_config "invalid subscription URL")
      ∷ (not (is_https (parse_url s.url)), invalid_config "subscription URL must use HTTPS")
      ∷ (not (s.format == "auto"), invalid_config "only subscription format 'auto' is supported")
      ∷ []

  unfoldable pub validate_subscription : SubscriptionConfig → Result (Unit {0})
  validate_subscription s = run_checks (subscription_checks s)

pub record AppProfile : Type 0 where
  pub name : String
  pub command : List String
  pub clear_proxy_environment : Bool
  pub override_dns : Bool
  pub working_directory : Option String
  pub environment : List (String × String)

abbrev pub lacks_program : List String → Bool
lacks_program [] = Bool.true
lacks_program (program ∷ args) = is_empty_text program

unfoldable pub is_variable_char : ℕ → Bool
unfolding is_ascii_alphanumeric
is_variable_char c = is_ascii_alphanumeric c || eqb c b'_'

abbrev pub bad_variable : String × String → Bool
bad_variable (key, value) = is_empty_text key || not (all_chars is_variable_char key)

unfoldable pub profile_checks : AppProfile → List Check
profile_checks p =
    (
      is_empty_text p.name || lacks_program p.command,
      invalid_config "app profile requires a name and non-empty command",
    )
    ∷ (
      not (all_chars is_resource_char p.name),
      invalid_config "app profile name may contain only ASCII letters, digits, '-' and '_'",
    )
    ∷ (
      any bad_variable p.environment,
      invalid_config "invalid app profile environment variable name",
    )
    ∷ []

unfoldable pub validate_profile : AppProfile → Result (Unit {0})
validate_profile p = run_checks (profile_checks p)

unfoldable pub validate_resource_name : String → Result (Unit {0})
validate_resource_name name =
    fail_if (not (is_plain_name name))
      (invalid_config "resource name may contain only ASCII letters, digits, '-' and '_'")
