-- ===== src/Common/Paths.antt =====
-- Paths as texts, read by `std::path` on Unix.
use Prim.Native.String.{String}
use mathlib.Core.Bool.{◌||◌}
use mathlib.Core.Option.{Option, none, some}
use mathlib.Core.List.{List}
use text.Mathlib.Text.{◌==◌}
use xrayctl.Common.Tests.{if◌then◌else◌}
use xrayctl.Common.Text.{split}

-- The components of a path on Unix, as `Path::components` gives them.
pub data Component : Type 0 where
  root_dir cur_dir parent_dir : Component
  normal : String → Component

component : String → Component
component s = if s == ".." then parent_dir else normal s

later_components : List String → List Component
unfolding component
later_components List.[] = List.[]
later_components (List.◌∷◌ s r) =
    let more = later_components r in
    if s == "" || s == "." then more else List.◌∷◌ (component s) more

first_component : List String → List Component
unfolding later_components
first_component List.[] = List.[]
first_component (List.◌∷◌ s r) =
    if s == ""
    then elim r [
      | List.[] ↦ List.[]
      | List.◌∷◌ t q ↦ List.◌∷◌ root_dir (later_components (List.◌∷◌ t q))
    ]
    else if s == "."
    then List.◌∷◌ cur_dir (later_components r)
    else later_components (List.◌∷◌ s r)

unfoldable pub components : String → List Component
unfolding split first_component
components s = first_component (split b'/' s)

-- `Path::file_name`: the last component, if it is a name.
unfoldable pub last_name : List Component → Option String
last_name List.[] = none
last_name (List.◌∷◌ (normal s) List.[]) = some s
last_name (List.◌∷◌ c List.[]) = none
last_name (List.◌∷◌ c (List.◌∷◌ d r)) = last_name (List.◌∷◌ d r)

unfoldable pub file_name : String → Option String
file_name s = last_name (components s)
