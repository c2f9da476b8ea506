-- ===== src/Lib.antt =====
-- A verification library of xray-manager, the manager `xrayctl` of Xray.
--
-- The program has three crates. crates/xray-manager-core is the application core: it reads and
-- checks a configuration, keeps the state of the manager, renders configurations for Xray, and
-- activates them in generations that can be rolled back. crates/xray-manager-platform has the
-- adapters of the operating system, and the registry that chooses one for each capability.
-- crates/xrayctl is the command line. The core reaches the system only through the traits of
-- crates/xray-manager-core/src/ports.rs.
--
-- Files and the code they model:
--   Core/Ports       crates/xray-manager-core/src/ports.rs, the data types
--   Core/Error       crates/xray-manager-core/src/error.rs; `Result` and the operator `?`
--   Core/Config      crates/xray-manager-core/src/config.rs: `ManagerConfig`;
--                    Core/Config/Validation has `validate`, Core/Config/Validity what it
--                    accepts, Core/Config/Defaults has the default configuration
--   Core/Profiles    the same file: `SubscriptionConfig` and `AppProfile`; `validate_resource_name`
--   Core/Json        the values of serde_json
--   Core/Routing     crates/xray-manager-core/src/routing.rs
--   Core/Domain      crates/xray-manager-core/src/domain.rs
--   Core/Events      crates/xray-manager-core/src/events.rs
--   Core/Backends    crates/xray-manager-core/src/ports.rs: the ports, as operations on a world that
--                    is left open; Core/Backends/Tasks has the tasks of `ManagerService`, functions of
--                    the state in memory and the world that return a result and both after it
--   Core/Application crates/xray-manager-core/src/application.rs. Activation has `apply_config` cut
--                    into its stages; Rollback, RoutingChange the other functions that change the
--                    generation in use. Observed says what is observed of a world and which laws the
--                    ports obey; Steps, Given, Silence and Outcome what the stages do to it;
--                    Returned and Exchange follow the two rollbacks; Recovery, InStep and
--                    RolledBack draw the conclusions
--   Core/Probe       crates/xray-manager-core/src/probe.rs: the queue of probes, its tasks, what they
--                    share, and schedules as lists of moves; Bounded, Finished, Reported and Quiet
--                    have what holds of every schedule
--   Core/Operations  crates/xray-manager-core/src/application.rs: the operations, the capabilities they
--                    need and the checks before a plan; Needed and Checked have their meaning
--   Core/Plans       crates/xray-manager-core/src/ports.rs: the plans of operations, and the ports that
--                    only operations use
--   Core/Subscription crates/xray-manager-core/src/subscription.rs; Accounted has what becomes of the
--                    lines
--   Core/Protocols   crates/xray-manager-core/src/protocols: the parsers of node URIs, one file each;
--                    Shared has protocols/mod.rs and what the crates give; Sound says what they
--                    promise, Accepted and Renderable which VLESS nodes can be rendered
--   Core/Render      crates/xray-manager-core/src/render.rs: the files of a configuration; Outbound,
--                    Stream and Mask have the proxy; Representable, Configured and Masked say what
--                    they do
--   Core/Execution   crates/xray-manager-core/src/application.rs: `execute`. Files has the files of
--                    subscriptions and profiles, Refresh `refresh_subscriptions`, Planning
--                    `plan_internal`, Tun, Apps and Changes the operations, Run the rest of `execute`;
--                    Untouched, Refused, Announced, Networking and Fetched say what they do
--   Core/Queries     crates/xray-manager-core/src/application.rs: `query`, with the data of
--                    crates/xray-manager-core/src/dto.rs in Dtos. Doctor has `Query::Doctor`, Answers
--                    the others; Silent and Public say what no query does
--   Platform/Portable crates/xray-manager-platform/src/portable.rs: the pruning of generations, and in
--                    Pointers the switch, the restoration and the rollback of the symbolic links;
--                    Owned has `remove_owned`; Pruned and the children of Pointers and Owned say what
--                    they do. Which calls of the operating system fail is
--                    an argument
--   Platform/Fake    crates/xray-manager-platform/src/fake.rs: adapters in memory; Platform/Fake/Obeys
--                    has the laws for them, Operating the adapters that only operations use
--   Platform/Unsupported crates/xray-manager-platform/src/unsupported.rs: the adapters of a platform
--                    that is not supported, and plans of Linux there; Untouched is about operations
--                    over them
--   Platform/Linux   crates/xray-manager-platform/src/linux/mod.rs: the firewall and the policy routing of
--                    TUN, in Tun; Nftables has the table of
--                    crates/xray-manager-platform/src/templates.rs. Kernel says what is observed of the
--                    network and which laws `nft` and `ip` obey; Routes, Policy, Internal and Fulfilled
--                    what the actions do to it, Closed what sequences of them keep. Obeys has the two
--                    adapters of crates/xray-manager-platform/src/linux/adapters.rs and the unit of the
--                    policy, tun_policy_service of templates.rs, beside what the operations on TUN
--                    assume; Adapters has what the adapters show, and the advice on packages
--   Platform/Registry  crates/xray-manager-platform/src/registry.rs: `resolve` and `instantiate`
--   Common           what the modules share: iterators, texts, paths, maps of the standard library
--   Tests            theorems at concrete inputs
--
-- But for the queue of probes, whose tasks interleave, the code is sequential where it is modelled,
-- and an `async` function is a function. Numbers are natural numbers, since the code only compares
-- them, counts with saturation and subtracts with saturation; what it reads into a `u8` is bounded
-- where it is read. Every loop is structural recursion over its list, or over the number of its
-- rounds where the code has one, so no fuel is needed; the printing of a number has fuel for its
-- digits.
--
-- A path is the list of its components, the last one first, and a file's contents are a text. The
-- executable that tests a configuration has its name on Unix.
--
-- Not modelled: the formats of serde_json and toml, and the crates url, percent-encoding, uuid,
-- base64 and blake3, whose outcomes are arguments; an activation has the renderer as an argument
-- too, so that its theorems hold for each; what the adapters do to the operating system, but for
-- the pointers, the pruning and the networking of TUN; the command line and the terminal
-- interface.
pub mod Common
pub mod Core
pub mod Platform
pub mod Tests
