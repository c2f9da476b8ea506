-- ===== src/Platform/Portable/Pointers/Switched.antt =====
-- Both pointers after a switch of the generation.
use xrayctl.Common.{
  Bool, true, false, Option, none, some, ◌≡◌, ◌⊎◌, ◌∙◌, inl, inr, refl, ap, if◌then◌else◌,
}
use xrayctl.Core.Error.{ok, err}
use xrayctl.Core.Backends.{Location, ◌/◌}
use xrayctl.Core.Backends.Locations.{same_path, same_path_iff}
use xrayctl.Platform.Portable.Pointers.{
  Links, Outcome, and_then, with_extension, Faults, replace_link, sync, read_link, replace_previous,
  switch_generation,
}
use xrayctl.Platform.Portable.Pointers.Outcomes.{at, Ends, replace_link-Ends}

abbrev pub current_of : Location → Location
current_of d = d / "current"

abbrev pub previous_of : Location → Location
previous_of d = d / "previous"

-- The target of `previous` after a switch that reads `read` in `current`.
abbrev pub kept : Option Location → Option Location → Option Location
kept none previous = previous
kept (some old) previous = some old

-- What a switch has done, by its result.
abbrev pub Switched : Location → Location → Bool → Option Location → Links → Outcome → Type 0
Switched d target syncing read links (ok _, links') =
    (syncing ≡ false)
    × (at (current_of d) links' ≡ some target)
    × (at (previous_of d) links' ≡ kept read (at (previous_of d) links))
Switched d target syncing read links (err e, links') =
    ((at (current_of d) links' ≡ at (current_of d) links)
      × ((at (previous_of d) links' ≡ at (previous_of d) links)
          ⊎ (at (previous_of d) links' ≡ kept read (at (previous_of d) links))))
    ⊎ ((syncing ≡ true)
        × (at (current_of d) links' ≡ some target)
        × (at (previous_of d) links' ≡ kept read (at (previous_of d) links)))

-- What the first of the two replacements has done.
abbrev Kept : Location → Option Location → Links → Outcome → Type 0
Kept d read links (ok _, links') =
    (at (current_of d) links' ≡ at (current_of d) links)
    × (at (previous_of d) links' ≡ kept read (at (previous_of d) links))
Kept d read links (err e, links') =
    (at (current_of d) links' ≡ at (current_of d) links)
    × (at (previous_of d) links' ≡ at (previous_of d) links)

-- What the second has done.
abbrev Moved : Location → Location → Links → Outcome → Type 0
Moved d target links (ok _, links') =
    (at (current_of d) links' ≡ some target)
    × (at (previous_of d) links' ≡ at (previous_of d) links)
Moved d target links (err e, links') =
    (at (current_of d) links' ≡ at (current_of d) links)
    × (at (previous_of d) links' ≡ at (previous_of d) links)

same_itself : (l : Location) → same_path l l ≡ true
same_itself l = (same_path_iff l l).1 refl

Ends-Kept :
    (d old : Location) (links : Links) (o : Outcome)
    → Ends (with_extension (previous_of d) "new") (previous_of d) old links o
    → Kept d (some old) links o
unfolding same_path with_extension
Ends-Kept d old links (ok _, l) h = (
  h (current_of d) refl,
  h (previous_of d) refl
      ∙ ap (λ x. if x then some old else at (previous_of d) links) (same_itself (previous_of d)),
)
Ends-Kept d old links (err e, l) h = (h (current_of d) refl, h (previous_of d) refl)

Ends-Moved :
    (d target : Location) (links : Links) (o : Outcome)
    → Ends (with_extension (current_of d) "new") (current_of d) target links o
    → Moved d target links o
unfolding same_path with_extension
Ends-Moved d target links (ok _, l) h = (
  h (current_of d) refl
      ∙ ap (λ x. if x then some target else at (current_of d) links) (same_itself (current_of d)),
  h (previous_of d) refl,
)
Ends-Moved d target links (err e, l) h = (h (current_of d) refl, h (previous_of d) refl)

replace_previous-Kept :
    (f : Faults) (d : Location) (read : Option Location) (links : Links)
    → Kept d read links (replace_previous f (previous_of d) read links)
replace_previous-Kept f d none links = (refl, refl)
replace_previous-Kept f d (some old) links =
    Ends-Kept d old links _ (replace_link-Ends f "new" (previous_of d) old links)

after :
    (d target : Location) (syncing : Bool) (read : Option Location) (links before : Links)
    (o : Outcome)
    → Kept d read before (ok tt, links)
    → Moved d target links o
    → Switched d target syncing read before (and_then o (sync syncing))
after d target true read links before (ok _, l) (c, q) (a, b) = inr (refl, a, b ∙ q)
after d target false read links before (ok _, l) (c, q) (a, b) = (refl, a, b ∙ q)
after d target syncing read links before (err e, l) (c, q) (a, b) = inl (a ∙ c, inr (b ∙ q))

then_move :
    (new : Faults) (d target : Location) (syncing : Bool) (read : Option Location) (before : Links)
    (o : Outcome)
    → Kept d read before o
    → Switched d target syncing read before (
        and_then o
          (λ links. and_then (replace_link new "new" (current_of d) target links) (sync syncing)))
then_move new d target syncing read before (ok _, l) h =
    after d target syncing read l before _ h
      (Ends-Moved d target l _ (replace_link-Ends new "new" (current_of d) target l))
then_move new d target syncing read before (err e, l) (a, b) = inl (a, inl b)

-- After a switch that succeeds `current` has the target, and `previous` has what was read in
-- `current`, or its own target when nothing was read. When a switch fails, `current` is as it was and
-- `previous` is as it was or already has its new target, unless only the synchronisation of the
-- directory failed: then both pointers have been replaced.
pub switch_generation-Switched :
    (reading : Bool) (old new : Faults) (syncing : Bool) (d target : Location) (links : Links)
    → Switched d target syncing
        (read_link reading (current_of d) links)
        links
        (switch_generation reading old new syncing (current_of d) (previous_of d) target links)
unfolding switch_generation
switch_generation-Switched reading old new syncing d target links =
    then_move new d target syncing (read_link reading (current_of d) links) links _
      (replace_previous-Kept old d (read_link reading (current_of d) links) links)
