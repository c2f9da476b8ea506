-- ===== src/Platform/Portable/Pointers/Outcomes.antt =====
-- How a replacement of the pointers can end.
use xrayctl.Common.{
  String, Bool, true, false, ◌||◌, Option, some, ◌≡◌, ◌∙◌, inl, inr, refl, ap, is_some, is_none,
  Bool-cases, if◌then◌else◌,
}
use xrayctl.Common.Assoc.{get, insert, get-insert, get-remove}
use xrayctl.Core.Error.{ok, err}
use xrayctl.Core.Backends.{Location}
use xrayctl.Core.Backends.Locations.{same_path, same_path_iff}
use xrayctl.Platform.Portable.Pointers.{
  Links, Outcome, and_then, with_extension, remove_file, symlink, rename, Faults, replace_link,
}

abbrev pub at : Location → Links → Option Location
at = get same_path

-- Beside the temporary link, nothing has changed.
abbrev pub Same : Location → Links → Links → Type 0
Same beside links links' = (j : Location) → same_path beside j ≡ false → at j links' ≡ at j links

-- The pointer has the target, and beside the temporary link nothing else has changed.
abbrev pub Replaced : Location → Location → Location → Links → Links → Type 0
Replaced beside pointer target links links' =
    (j : Location)
    → same_path beside j ≡ false
    → at j links' ≡ (if same_path pointer j then some target else at j links)

abbrev pub Ends : Location → Location → Location → Links → Outcome → Type 0
Ends beside pointer target links (ok _, links') = Replaced beside pointer target links links'
Ends beside pointer target links (err e, links') = Same beside links links'

remove_file-Same :
    (fails : Bool) (beside : Location) (links : Links)
    → Same beside links (remove_file fails beside links).1
unfolding remove_file
remove_file-Same fails beside links j f = elim (Bool-cases (fails || is_none (at beside links))) [
  | inl t ↦ simp (t) refl
  | inr g ↦ simp (g) (get-remove same_path same_path_iff beside j links ∙ rw f refl)
]

rename-Ends :
    (fails : Bool) (beside pointer target : Location) (links before : Links)
    → at beside links ≡ some target
    → Same beside before links
    → Ends beside pointer target before (rename fails beside pointer links)
unfolding rename
rename-Ends true beside pointer target links before h s = s
rename-Ends false beside pointer target links before h s = rw h (λ j f.
    get-insert same_path same_path_iff pointer j target _
    ∙ ap (λ x. if same_path pointer j then some target else x)
        (get-remove same_path same_path_iff beside j links ∙ (rw f (s j f))))

symlink-Ends :
    (linking renaming : Bool) (beside pointer target : Location) (links before : Links)
    → Same beside before links
    → Ends beside pointer target before
        (and_then (symlink linking target beside links) (rename renaming beside pointer))
unfolding symlink
symlink-Ends linking renaming beside pointer target links before s =
    elim (Bool-cases (linking || is_some (at beside links))) [
      | inl t ↦ simp (t) s
      | inr g ↦ simp (g) (
          rename-Ends renaming beside pointer target (insert same_path beside target links) before
            (get-insert same_path same_path_iff beside beside target links
              ∙ rw ((same_path_iff beside beside).1 refl) refl)
            (λ j f. get-insert same_path same_path_iff beside j target links ∙ rw f (s j f)))
    ]

pub replace_link-Ends :
    (f : Faults) (extension : String) (pointer target : Location) (links : Links)
    → Ends
        (with_extension pointer extension)
        pointer
        target
        links
        (replace_link f extension pointer target links)
unfolding replace_link
replace_link-Ends f extension pointer target links =
    symlink-Ends f.linking f.renaming _ pointer target _ links
      (remove_file-Same f.removing (with_extension pointer extension) links)
