-- ===== src/Platform/Portable/Pointers/Restored.antt =====
-- Both pointers after they have been restored, or rolled back.
use xrayctl.Common.{
  Bool, true, false, Option, none, some, ◌≡◌, ◌⊎◌, ◌∙◌, inl, inr, refl, ap, if◌then◌else◌,
}
use xrayctl.Common.Assoc.{get-remove}
use xrayctl.Core.Error.{ok, err, io}
use xrayctl.Core.Backends.{Location}
use xrayctl.Core.Backends.Locations.{same_path, same_path_iff}
use xrayctl.Platform.Portable.Pointers.{
  Links, Outcome, and_then, with_extension, Faults, sync, read_link, switch_generation,
  remove_pointer, replace_pointer, PointerFaults, restore_generation, switch_back,
  rollback_generation,
}
use xrayctl.Platform.Portable.Pointers.Outcomes.{at, Ends, replace_link-Ends}
use xrayctl.Platform.Portable.Pointers.Switched.{
  current_of, previous_of, Switched, switch_generation-Switched,
}

-- One pointer has been set, and another has not changed.
abbrev pub HasBeen : Location → Location → Option Location → Links → Links → Type 0
HasBeen pointer other target links links' =
    (at pointer links' ≡ target) × (at other links' ≡ at other links)

-- One pointer has been set or not, and another has not changed.
abbrev pub Set : Location → Location → Option Location → Links → Outcome → Type 0
Set pointer other target links (ok _, links') = HasBeen pointer other target links links'
Set pointer other target links (err e, links') =
    ((at pointer links' ≡ target) ⊎ (at pointer links' ≡ at pointer links))
    × (at other links' ≡ at other links)

-- The paths that are compared are different ones.
abbrev Apart : Location → Location → Type 0
Apart pointer other =
    (same_path (with_extension pointer "restore") pointer ≡ false)
    × (same_path (with_extension pointer "restore") other ≡ false)
    × (same_path pointer other ≡ false)

synced :
    (pointer other : Location) (target : Option Location) (links : Links) (syncing : Bool)
    (o : Outcome)
    → Set pointer other target links o
    → Set pointer other target links (and_then o (sync syncing))
synced p q t links true (ok _, l) (a, b) = (inl a, b)
synced p q t links false (ok _, l) h = h
synced p q t links syncing (err e, l) h = h

Ends-Set :
    (p q t : Location) (links : Links) (o : Outcome)
    → Apart p q
    → Ends (with_extension p "restore") p t links o
    → Set p q (some t) links o
Ends-Set p q t links (ok _, l) (a, b, c) h = (
  h p a ∙ ap (λ x. if x then some t else at p links) ((same_path_iff p p).1 refl),
  h q b ∙ ap (λ x. if x then some t else at q links) c,
)
Ends-Set p q t links (err e, l) (a, b, c) h = (inr (h p a), h q b)

remove_pointer-Set :
    (fails : Bool) (p q : Location) (links : Links)
    → Apart p q
    → Set p q none links (remove_pointer fails p links)
unfolding remove_pointer
remove_pointer-Set true p q links h = (inr refl, refl)
remove_pointer-Set false p q links (a, b, c) = (
  get-remove same_path same_path_iff p p links
      ∙ ap (λ x. if x then none else at p links) ((same_path_iff p p).1 refl),
  get-remove same_path same_path_iff p q links ∙ ap (λ x. if x then none else at q links) c,
)

replace_pointer-Set :
    (f : Faults) (syncing : Bool) (p q : Location) (target : Option Location) (links : Links)
    → Apart p q
    → Set p q target links (replace_pointer f syncing p target links)
unfolding replace_pointer
replace_pointer-Set f syncing p q none links h =
    synced p q none links syncing _ (remove_pointer-Set f.removing p q links h)
replace_pointer-Set f syncing p q (some t) links h =
    synced p q (some t) links syncing _
      (Ends-Set p q t links _ h (replace_link-Ends f "restore" p t links))

-- What a restoration has done.
abbrev pub Restored : Location → Option Location → Option Location → Links → Outcome → Type 0
Restored d current previous links (ok _, links') =
    (at (current_of d) links' ≡ current) × (at (previous_of d) links' ≡ previous)
Restored d current previous links (err e, links') =
    ((at (current_of d) links' ≡ current) ⊎ (at (current_of d) links' ≡ at (current_of d) links))
    × ((at (previous_of d) links' ≡ previous)
        ⊎ (at (previous_of d) links' ≡ at (previous_of d) links))

from_second :
    (d : Location) (c q : Option Location) (links before : Links) (o : Outcome)
    → HasBeen (current_of d) (previous_of d) c before links
    → Set (previous_of d) (current_of d) q links o
    → Restored d c q before o
from_second d c q links before (ok _, l) (a, b) (x, y) = (y ∙ a, x)
from_second d c q links before (err e, l) (a, b) (inl x, y) = (inl (y ∙ a), inl x)
from_second d c q links before (err e, l) (a, b) (inr x, y) = (inl (y ∙ a), inr (x ∙ b))

then_previous :
    (d : Location) (g : Faults) (gs : Bool) (c q : Option Location) (links : Links) (o : Outcome)
    → Set (current_of d) (previous_of d) c links o
    → Restored d c q links (and_then o (replace_pointer g gs (previous_of d) q))
unfolding same_path with_extension
then_previous d g gs c q links (ok _, l) h =
    from_second d c q l links _ h
      (replace_pointer-Set g gs (previous_of d) (current_of d) q l (refl, refl, refl))
then_previous d g gs c q links (err e, l) (a, b) = (a, inr b)

-- A restoration that succeeds sets both pointers, or removes them where there is no target. When it
-- fails, each pointer has its old target or the one that it was to have.
pub restore_generation-Restored :
    (f g : PointerFaults) (d : Location) (current previous : Option Location) (links : Links)
    → Restored d current previous links
        (restore_generation f g (current_of d) (previous_of d) current previous links)
unfolding restore_generation same_path with_extension
restore_generation-Restored (f, fs) (g, gs) d c q links =
    then_previous d g gs c q links _
      (replace_pointer-Set f fs (current_of d) (previous_of d) c links (refl, refl, refl))

-- What a rollback has done, with what it reads in the two pointers.
abbrev pub RolledBack :
    Location → Bool → Option Location → Option Location → Links → Outcome → Type 0
RolledBack d syncing none current links o = o ≡ (err (io "readlink"), links)
RolledBack d syncing (some previous) current links o = Switched d previous syncing current links o

switch_back-RolledBack :
    (reading : Bool) (old new : Faults) (syncing : Bool) (d : Location) (target : Option Location)
    (links : Links)
    → RolledBack d syncing target (read_link reading (current_of d) links) links (
        switch_back
          (λ t. switch_generation reading old new syncing (current_of d) (previous_of d) t links)
          target
          links)
switch_back-RolledBack reading old new syncing d none links = refl
switch_back-RolledBack reading old new syncing d (some t) links =
    switch_generation-Switched reading old new syncing d t links

-- A rollback that cannot read `previous` fails and changes nothing. Otherwise it is a switch to the
-- target of `previous`: if it succeeds, `previous` has what was read in `current`, so that the two
-- are exchanged.
pub rollback_generation-RolledBack :
    (target_reading reading : Bool) (old new : Faults) (syncing : Bool) (d : Location)
    (links : Links)
    → RolledBack d syncing
        (read_link target_reading (previous_of d) links)
        (read_link reading (current_of d) links)
        links
        (rollback_generation target_reading reading old new syncing
          (current_of d)
          (previous_of d)
          links)
unfolding rollback_generation
rollback_generation-RolledBack target_reading reading old new syncing d links =
    switch_back-RolledBack reading old new syncing d
      (read_link target_reading (previous_of d) links) links
