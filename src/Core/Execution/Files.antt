-- ===== src/Core/Execution/Files.antt =====
-- The subscriptions and the application profiles that the service keeps in files.
use xrayctl.Common.{String, ◌<>◌, some, List, [], ◌∷◌, sort_by, if◌then◌else◌}
use xrayctl.Core.Error.{ok}
use xrayctl.Core.Profiles.{
  SubscriptionConfig, AppProfile, validate_subscription, validate_profile, validate_resource_name,
}
use xrayctl.Core.Backends.{Location, ◌/◌}
use xrayctl.Core.Backends.Tasks.{Task, ◌>>=◌, ◌>>◌, return, call}
use xrayctl.Core.Application.{paths, has_extension}
use xrayctl.Core.Execution.{Operator}

module _ {W : Type 0} (o : Operator W) where
  -- `toml::from_str`, then `validate`.
  unfoldable pub read_subscription_file : Location → Task W SubscriptionConfig
  read_subscription_file path = do
    text ← call (o.manager.backends.read path)
    subscription ← return (o.read_subscription text)
    return (validate_subscription o.parse_url subscription)
    return (ok subscription)

  unfoldable pub read_profile_file : Location → Task W AppProfile
  read_profile_file path = do
    text ← call (o.manager.backends.read path)
    profile ← return (o.read_profile text)
    return (validate_profile profile)
    return (ok profile)

  -- The loop over the files of a directory that end in `.toml`.
  unfoldable pub load_all : {A : Type 0} → (Location → Task W A) → List Location → Task W (List A)
  load_all load [] = return (ok [])
  load_all load (path ∷ more) =
      let rest = load_all load more in
      if has_extension "toml" path
      then (load path >>= λ x. rest >>= λ xs. return (ok (x ∷ xs)))
      else rest

  unfoldable pub load_subscriptions : Task W (List SubscriptionConfig)
  load_subscriptions = do
    p ← paths o.manager
    files ← call (o.manager.backends.list_files (p.config_dir / "subscriptions.d"))
    subscriptions ← load_all read_subscription_file files
    return (ok (sort_by (λ s. s.name) subscriptions))

  unfoldable pub load_app_profiles : Task W (List AppProfile)
  load_app_profiles = do
    p ← paths o.manager
    files ← call (o.manager.backends.list_files (p.config_dir / "apps.d"))
    profiles ← load_all read_profile_file files
    return (ok (sort_by (λ s. s.name) profiles))

  unfoldable pub subscription_path : String → Task W Location
  subscription_path name = do
    return (validate_resource_name name)
    p ← paths o.manager
    return (ok (p.config_dir / "subscriptions.d" / (name <> ".toml")))

  unfoldable pub write_subscription : SubscriptionConfig → Task W (Unit {0})
  write_subscription subscription = do
    return (validate_subscription o.parse_url subscription)
    p ← paths o.manager
    bytes ← return (o.write_subscription subscription)
    call (
        o.manager.backends.write_atomic
          (p.config_dir / "subscriptions.d" / (subscription.name <> ".toml")) bytes (some 0o600))

  unfoldable pub write_app_profile : AppProfile → Task W (Unit {0})
  write_app_profile profile = do
    return (validate_profile profile)
    bytes ← return (o.write_profile profile)
    p ← paths o.manager
    call (
        o.manager.backends.write_atomic (p.config_dir / "apps.d" / (profile.name <> ".toml")) bytes
          (some 0o640))
