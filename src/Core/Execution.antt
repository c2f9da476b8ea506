-- ===== src/Core/Execution.antt =====
-- crates/xray-manager-core/src/application.rs: the execution of operations. The formats and the
-- parser of a node's URI are parameters. A file's contents are a text, so none is refused for not
-- being UTF-8.
pub mod Files
pub mod Refresh
pub mod Planning
pub mod Tun
pub mod Apps
pub mod Changes
pub mod Run
pub mod Untouched
pub mod Refused
pub mod Announced
pub mod Networking
pub mod Fetched
use xrayctl.Common.{String, Bool, Option, List}
use xrayctl.Core.Error.{Result}
use xrayctl.Core.Config.Validation.{Url}
use xrayctl.Core.Domain.{Node}
use xrayctl.Core.Profiles.{SubscriptionConfig, AppProfile}
use xrayctl.Core.Json.{Value}
use xrayctl.Core.Subscription.{Decoding}
use xrayctl.Core.Plans.{OperatingSet, ExecutionPlan}
use xrayctl.Core.Application.{Manager}

-- What `ManagerService` has beyond what an activation uses, and what the code takes from libraries.
pub record Operator (W : Type 0) : Type 0 where
  pub manager : Manager W
  pub operating : OperatingSet W
  pub parse_url : String → Url
  pub read_subscription : String → Result SubscriptionConfig
  pub write_subscription : SubscriptionConfig → Result String
  pub read_profile : String → Result AppProfile
  pub write_profile : AppProfile → Result String
  pub decode_base64 : String → Decoding
  pub parse_uri : String → String → Result Node
  pub to_lowercase : String → String

pub record OperationOptions : Type 0 where
  pub dry_run : Bool
  pub assume_yes : Bool

pub record OperationResult : Type 0 where
  pub operation : String
  pub changed : Bool
  pub plan : Option ExecutionPlan
  pub value : Option Value
  pub warnings : List String
