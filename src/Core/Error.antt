-- ===== src/Core/Error.antt =====
-- crates/xray-manager-core/src/error.rs: the errors, and results that carry them.
use xrayctl.Common.{◌<>◌, String, Option, Bool, true, false, ◌≡◌, refl, subst}
use xrayctl.Core.Ports.{Capability, display}

pub data ManagerError : Type 0 where
  invalid_config invalid_node invalid_subscription : String → ManagerError
  io download validation : String → ManagerError
  lock_contention : ManagerError
  platform_unsupported : Capability → String → Option String → String → Option String → ManagerError
  manager_release_source_not_configured privilege_required : ManagerError
  other : String → ManagerError

unfoldable pub code : ManagerError → String
code (invalid_config m) = "invalid_config"
code (invalid_node m) = "invalid_node"
code (invalid_subscription m) = "invalid_subscription"
code (io m) = "io_error"
code (download m) = "download_error"
code (validation m) = "validation_error"
code lock_contention = "lock_contention"
code (platform_unsupported c p b r s) = "platform_unsupported"
code manager_release_source_not_configured = "manager_release_source_not_configured"
code privilege_required = "privilege_required"
code (other m) = "operation_failed"

-- `Display`, as the derive attributes give it.
unfoldable pub to_text : ManagerError → String
to_text (invalid_config m) = "invalid configuration: " <> m
to_text (invalid_node m) = "invalid node URI: " <> m
to_text (invalid_subscription m) = "invalid subscription: " <> m
to_text (io m) = "I/O operation failed: " <> m
to_text (download m) = "download failed: " <> m
to_text (validation m) = "Xray validation failed: " <> m
to_text lock_contention = "operation is already in progress"
to_text (platform_unsupported c p b r s) =
    display c <> (" is unsupported on " <> (p <> (": " <> r)))
to_text manager_release_source_not_configured = "Manager release source is not configured."
to_text privilege_required = "operation requires administrator privileges"
to_text (other m) = m

-- `Result<T>`.
pub data Result {ℓ} (T : Type ℓ) : Type ℓ where
  ok : T → Result T
  err : ManagerError → Result T

-- The operator `?`: an error leaves the function at once.
infixl 5 ◌>>=◌ ◌>>◌
abbrev pub ◌>>=◌ {ℓ κ} : {T : Type ℓ} {U : Type κ} → Result T → (T → Result U) → Result U
ok x >>= next = next x
err failure >>= next = err failure

abbrev pub ◌>>◌ {ℓ} : {U : Type ℓ} → Result (Unit {0}) → Result U → Result U
first >> second = first >>= λ _. second

-- `if test { return Err(e) }`.
abbrev pub fail_if : Bool → ManagerError → Result (Unit {0})
fail_if true e = err e
fail_if false e = ok tt

-- `Option::ok_or`.
abbrev pub ok_or {ℓ} : {A : Type ℓ} → Option A → ManagerError → Result A
ok_or Option.none e = err e
ok_or (Option.some a) e = ok a

abbrev pub is_ok {ℓ} : {A : Type ℓ} → Result A → Bool
is_ok (ok a) = true
is_ok (err e) = false

-- What comes before and what comes after in a computation that has not failed.
pub >>=-eq-ok {ℓ κ} :
    {T : Type ℓ} {U : Type κ} (first : Result T) (next : T → Result U) {y : U}
    → (first >>= next) ≡ ok y
    → (x : T) × (first ≡ ok x) × (next x ≡ ok y)
>>=-eq-ok (ok x) next done = (x, refl, done)
>>=-eq-ok (err failure) next done = cc

pub fail_if-eq-ok {ℓ} :
    {B : Type ℓ} (t : Bool) (e : ManagerError) (m : Result B) {b : B}
    → (fail_if t e >> m) ≡ ok b
    → (t ≡ false) × (m ≡ ok b)
fail_if-eq-ok true e m h = cc
fail_if-eq-ok false e m h = (refl, h)

-- A value that is given, if one is, has the property.
abbrev Given : {T : Type 0} → (T → Type 0) → Result T → Type 0
Given P (ok x) = P x
Given P (err e) = Unit {0}

pub record Yields {T : Type 0} (P : T → Type 0) (r : Result T) : Type 0 where
  pub holds : Given P r

pub >>=-Yields :
    {S T : Type 0} {P : T → Type 0} (r : Result S) (f : S → Result T)
    → ((x : S) → Yields P (f x))
    → Yields P (r >>= f)
>>=-Yields (ok x) f h = h x
>>=-Yields (err e) f h = record { holds = tt }

pub yielded : {T : Type 0} {P : T → Type 0} {r : Result T} {x : T} → Yields P r → r ≡ ok x → P x
yielded {P} y e = (subst (Yields P) e y).holds

pub ok_inj {ℓ} : {T : Type ℓ} {x y : T} → ok x ≡ ok y → x ≡ y
ok_inj e = cc
