-- ===== src/Platform/Fake.antt =====
-- crates/xray-manager-platform/src/fake.rs: the adapters in memory. A lock is never poisoned here.
pub mod Obeys
pub mod Operating
use Prim.Native.Nat.{Ordering}
use Prim.Native.String.{compare}
use xrayctl.Common.{
  ℕ, String, ◌<>◌, Bool, true, false, not, ◌&&◌, ◌||◌, Option, none, some, List, [], ◌∷◌, ◌++◌, map,
  filter, join, is_some, if◌then◌else◌,
}
use xrayctl.Common.Assoc.{get, insert, remove, retain}
use xrayctl.Core.Error.{ManagerError, io, validation, Result, ok, err}
use xrayctl.Core.Events.{ManagerEvent}
use xrayctl.Core.Backends.{Location, ManagerPaths, Action, BackendSet}
use xrayctl.Core.Backends.Locations.{same_path, starts_with, is_in}

-- What the adapters share behind their locks.
pub record FakeWorld : Type 0 where
  pub files : List (Location × String)
  pub generations : List (Location × Location)
  pub active : Bool
  pub events : List ManagerEvent
  -- Whether the tunnel is up, how often a plan has been applied, and how often a lock was taken.
  pub tun : Bool
  pub applied : ℕ
  pub locks : ℕ

abbrev reversed : Location → Location
reversed [] = []
reversed (n ∷ path) = reversed path ++ n ∷ []

-- `Ord` of paths: the components, from the root.
components_at_most : Location → Location → Bool
components_at_most [] b = true
components_at_most (x ∷ a) [] = false
components_at_most (x ∷ a) (y ∷ b) = elim (compare x y) [
  | Ordering.lt ↦ true
  | Ordering.eq ↦ components_at_most a b
  | Ordering.gt ↦ false
]

insert_sorted : Location → List Location → List Location
unfolding components_at_most
insert_sorted path [] = path ∷ []
insert_sorted path (other ∷ paths) =
    let rest = insert_sorted path paths in
    if components_at_most (reversed path) (reversed other)
    then path ∷ other ∷ paths
    else other ∷ rest

sort : List Location → List Location
unfolding insert_sorted
sort [] = []
sort (path ∷ paths) = insert_sorted path (sort paths)

display_path : Location → String
display_path path = "/" <> join "/" (reversed path)

unfoldable pub found : Location → FakeWorld → Option String → Result String × FakeWorld
unfolding display_path
found path w none = (err (io (display_path path <> " not found")), w)
found path w (some bytes) = (ok bytes, w)

unfoldable pub read : Location → Action FakeWorld String
unfolding found
read path w = found path w (get same_path path w.files)

unfoldable pub list_files : Location → Action FakeWorld (List Location)
unfolding sort
list_files path w = (ok (sort (filter (λ f. is_in f path) (map (λ e. e.0) w.files))), w)

unfoldable pub write_atomic : Location → String → Option ℕ → Action FakeWorld (Unit {0})
write_atomic path bytes mode w = (ok tt, record w { files = insert same_path path bytes w.files })

unfoldable pub exists : Location → Action FakeWorld Bool
exists path w = (ok (is_some (get same_path path w.files)), w)

unfoldable pub remove_owned : Location → Location → Action FakeWorld (Unit {0})
remove_owned path root w =
    if not (starts_with path root) || same_path path root
    then (err (io "unsafe fake removal"), w)
    else (
      ok tt,
      record w { files = retain same_path (λ candidate. not (starts_with candidate path)) w.files },
    )

abbrev move_on :
    Location → Option Location → List (Location × Location) → List (Location × Location)
move_on previous none generations = generations
move_on previous (some old) generations = insert same_path previous old generations

unfoldable pub switch_generation : Location → Location → Location → Action FakeWorld (Unit {0})
switch_generation current previous target w = (
  ok tt,
  record w {
    generations =
        insert same_path current target
          (move_on previous (get same_path current w.generations) w.generations);
  },
)

abbrev swap :
    Location
    → Location
    → FakeWorld
    → Option Location
    → Option Location
    → Result (Unit {0}) × FakeWorld
swap current previous w none _ = (err (io "current generation is missing"), w)
swap current previous w (some c) none = (err (io "previous generation is missing"), w)
swap current previous w (some c) (some t) = (
  ok tt,
  record w { generations = insert same_path previous c (insert same_path current t w.generations) },
)

unfoldable pub rollback_generation : Location → Location → Action FakeWorld (Unit {0})
rollback_generation current previous w =
    swap current previous w (get same_path current w.generations)
      (get same_path previous w.generations)

abbrev put : Location → Option Location → List (Location × Location) → List (Location × Location)
put pointer none generations = remove same_path pointer generations
put pointer (some target) generations = insert same_path pointer target generations

unfoldable pub restore_generation :
    Location → Location → Option Location → Option Location → Action FakeWorld (Unit {0})
restore_generation current previous current_target previous_target w = (
  ok tt,
  record w {
    generations = put previous previous_target (put current current_target w.generations);
  },
)

abbrev pub nothing : Action FakeWorld (Unit {0})
nothing w = (ok tt, w)

abbrev pub set_active : Bool → Action FakeWorld (Unit {0})
set_active active w = (ok tt, record w { active = active })

-- `FakeXrayRunner::test_config`, by the error that it is set up with.
abbrev pub test_config : Option String → Action FakeWorld (Unit {0})
test_config none w = (ok tt, w)
test_config (some error) w = (err (validation error), w)

abbrev pub emit : ManagerEvent → FakeWorld → FakeWorld
emit event w = record w { events = w.events ++ event ∷ [] }

-- The adapters of `FakeLayout`, `FakeFileSystem`, `FakeXrayRunner`, `FakeIdentityManager`,
-- `FakeServiceManager`, `FakeEventSink` and `FakeClock`, and the networking that they do without.
abbrev pub fake_backends : ManagerPaths → Option String → ℕ → BackendSet FakeWorld
fake_backends paths validation_error now = record {
  paths = λ w. (ok paths, w);
  read = read;
  list_files = list_files;
  write_atomic = write_atomic;
  create_dir_all = λ path. nothing;
  set_permissions = λ path mode. nothing;
  exists = exists;
  remove_owned = remove_owned;
  switch_generation = switch_generation;
  rollback_generation = rollback_generation;
  restore_generation = restore_generation;
  prune_generations = λ root current previous keep. nothing;
  test_config = λ request. test_config validation_error;
  healthcheck = λ config. nothing;
  set_ownership = λ path user group recursive. nothing;
  enable = λ service. nothing;
  disable = λ service. nothing;
  start = λ service. set_active true;
  stop = λ service. set_active false;
  restart = λ service. set_active true;
  disable_routing = λ config. nothing;
  disable_firewall = nothing;
  unix_timestamp = λ w. now;
  process_id = 1;
  emit = emit;
}
