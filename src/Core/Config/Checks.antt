-- ===== src/Core/Config/Checks.antt =====
-- Chains of checks, and the tests that they make, read as propositions.
use text.Mathlib.TextLemmas.{cons≢nil}
use xrayctl.Common.{
  String, Bool, true, false, List, [], ◌∷◌, ◌≡◌, ◌≢◌, ◌↔◌, refl, sym, subst, arith, eq_iff, All,
  Component, root_dir, cur_dir, parent_dir, normal, last_name, components, file_name, length, eqb,
  is_empty_text,
}
use xrayctl.Core.Error.{ManagerError, Result, ok, err, fail_if, ◌>>◌}
use xrayctl.Core.Config.Validation.{Check, run_checks, one_of, is_whole, filename_fails}

pub >>_iff : (m k : Result (Unit {0})) → ((m >> k) ≡ ok tt) ↔ ((m ≡ ok tt) × (k ≡ ok tt))
>>_iff (ok tt) k = ((λ h. (refl, h)), λ h. h.1)
>>_iff (err e) k = ((λ h. cc), λ h. cc (h.0))

-- All of five steps in a row succeed.
abbrev pub AllOk : List (Result (Unit {0})) → Type 0
AllOk = All (λ m. m ≡ ok tt)

pub five_iff :
    (a b c d e : Result (Unit {0}))
    → ((a >> (b >> (c >> (d >> e)))) ≡ ok tt) ↔ AllOk (a ∷ b ∷ c ∷ d ∷ e ∷ [])
five_iff a b c d e = (
  (λ h.
      let (p, h₁) = (>>_iff a _).0 h in
      let (q, h₂) = (>>_iff b _).0 h₁ in
      let (r, h₃) = (>>_iff c _).0 h₂ in
      let (s, t) = (>>_iff d e).0 h₃ in (p, (q, (r, (s, (t, tt)))))),
  λ (p, (q, (r, (s, (t, _))))).
      (>>_iff a _).1 (p, (>>_iff b _).1 (q, (>>_iff c _).1 (r, (>>_iff d e).1 (s, t)))),
)

pub fail_if_iff : (t : Bool) (e : ManagerError) → (fail_if t e ≡ ok tt) ↔ (t ≡ false)
fail_if_iff true e = ((λ h. cc), λ h. cc)
fail_if_iff false e = ((λ h. refl), λ h. refl)

pub run_checks_iff : (cs : List Check) → (run_checks cs ≡ ok tt) ↔ All (λ c. c.0 ≡ false) cs
run_checks_iff [] = ((λ h. tt), λ h. refl)
run_checks_iff ((true, e) ∷ cs) = ((λ h. cc), λ h. cc (h.0))
run_checks_iff ((false, e) ∷ cs) =
    ((λ h. (refl, (run_checks_iff cs).0 h)), λ h. (run_checks_iff cs).1 h.1)

pub is_empty_text_iff : (s : String) → (is_empty_text s ≡ false) ↔ (s ≢ "")
is_empty_text_iff String.[] = ((λ h. cc), λ h. absurd (h refl))
is_empty_text_iff (String.◌∷◌ c s) = ((λ h e. cons≢nil e), λ h. refl)

pub is_empty_text-true : (s : String) → is_empty_text s ≡ true → s ≡ ""
is_empty_text-true String.[] h = refl
is_empty_text-true (String.◌∷◌ c s) h = cc

-- No text of the list is this one.
abbrev pub Absent : List String → String → Type 0
Absent names s = All (λ n. n ≢ s) names

pub one_of_iff : (names : List String) (s : String) → (one_of names s ≡ false) ↔ Absent names s
one_of_iff [] s = ((λ h. tt), λ h. refl)
one_of_iff (n ∷ names) s = ground (arith, eq_iff n s, one_of_iff names s)

abbrev pub Distinct : List String → Type 0
Distinct [] = Unit
Distinct (x ∷ xs) = Absent xs x × Distinct xs

-- The texts are distinct, and differ from those seen before, as a loop finds out.
abbrev pub DistinctFrom : List String → List String → Type 0
DistinctFrom seen [] = Unit
DistinctFrom seen (x ∷ xs) = Absent seen x × DistinctFrom (x ∷ seen) xs

Absent-cons :
    (x : String) (seen xs : List String)
    → All (Absent (x ∷ seen)) xs ↔ (Absent xs x × All (Absent seen) xs)
Absent-cons x seen [] = ((λ h. (tt, tt)), λ h. tt)
Absent-cons x seen (y ∷ xs) =
    let ih = Absent-cons x seen xs in
    (
      (λ h. (((λ e. h.0.0 (sym e)), (ih.0 h.1).0), (h.0.1, (ih.0 h.1).1))),
      λ h. (((λ e. h.0.0 (sym e)), h.1.0), ih.1 (h.0.1, h.1.1)),
    )

pub DistinctFrom-iff :
    (seen xs : List String) → DistinctFrom seen xs ↔ (All (Absent seen) xs × Distinct xs)
DistinctFrom-iff seen [] = ((λ h. (tt, tt)), λ h. tt)
DistinctFrom-iff seen (x ∷ xs) =
    let ih = DistinctFrom-iff (x ∷ seen) xs in
    let co = Absent-cons x seen xs in
    (
      (λ h.
          let (far, apart) = ih.0 h.1 in
          let (fresh, old) = co.0 far in ((h.0, old), (fresh, apart))),
      λ h. (h.0.0, ih.1 (co.1 (h.1.0, h.0.1), h.1.1)),
    )

pub All-true : (xs : List String) → All (Absent []) xs
All-true [] = tt
All-true (x ∷ xs) = (tt, All-true xs)

-- A path of one component, which is a name.
abbrev pub IsFileName : String → Type 0
IsFileName s = components s ≡ normal s ∷ []

one_name :
    (s : String) (cs : List Component)
    → is_whole s (last_name cs) ≡ true
    → eqb (length cs) 1 ≡ true
    → cs ≡ normal s ∷ []
unfolding last_name
one_name s [] h k = cc
one_name s (root_dir ∷ []) h k = cc
one_name s (cur_dir ∷ []) h k = cc
one_name s (parent_dir ∷ []) h k = cc
one_name s (normal t ∷ []) h k = ground (arith, eq_iff t s)
one_name s (c ∷ d ∷ cs) h k = ground arith

components_of_empty : ¬ IsFileName ""
unfolding components
components_of_empty h = cc

pub filename_fails_iff : (s : String) → (filename_fails s ≡ false) ↔ IsFileName s
unfolding filename_fails file_name
filename_fails_iff s = (
  (λ h. one_name s (components s) (ground arith) (ground arith)),
  λ h.
      let filled : s ≢ "" = λ e. components_of_empty (subst IsFileName e h) in
      rw h (unfold last_name in ground (arith, is_empty_text_iff s, eq_iff s s)),
)
