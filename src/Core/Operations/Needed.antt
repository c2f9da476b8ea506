-- ===== src/Core/Operations/Needed.antt =====
-- Which capabilities an operation of application.rs needs.
use xrayctl.Common.{
  Bool, true, false, not, ◌&&◌, ◌||◌, List, [], ◌∷◌, ◌++◌, ◌≡◌, ◌∙◌, inl, inr, refl, sym, subst, ap,
  arith, any, filter, leb, Bool-cases,
}
use xrayctl.Core.Ports.{Capability, rank, same, same_iff}
use xrayctl.Core.Operations.{
  Operation, tun_capabilities, required_capabilities, is_bootstrap, activates, insert_ranked, sort,
  dedup,
}

abbrev pub has : Capability → List Capability → Bool
has c cs = any (same c) cs

or-swap : (a b r : Bool) → (a || (b || r)) ≡ (b || (a || r))
or-swap true true r = refl
or-swap true false r = refl
or-swap false true r = refl
or-swap false false r = refl

or-again : (a r : Bool) → (a || r) ≡ (a || (a || r))
or-again true r = refl
or-again false r = refl

or_assoc : (a b r : Bool) → (a || (b || r)) ≡ ((a || b) || r)
or_assoc true b r = refl
or_assoc false b r = refl

has-insert_ranked :
    (c d : Capability) (ds : List Capability) → has c (insert_ranked d ds) ≡ (same c d || has c ds)
unfolding insert_ranked
has-insert_ranked c d [] = refl
has-insert_ranked c d (e ∷ ds) = elim (Bool-cases (leb (rank d) (rank e))) [
  | inl t ↦ simp (t) refl
  | inr f ↦ simp (f) (
      ap (λ b. same c e || b) (has-insert_ranked c d ds) ∙ or-swap (same c e) (same c d) (has c ds))
]

pub has-sort : (c : Capability) (cs : List Capability) → has c (sort cs) ≡ has c cs
unfolding sort
has-sort c [] = refl
has-sort c (d ∷ ds) = has-insert_ranked c d (sort ds) ∙ ap (λ b. same c d || b) (has-sort c ds)

pub has-dedup : (c : Capability) (cs : List Capability) → has c (dedup cs) ≡ has c cs
unfolding dedup
has-dedup c [] = refl
has-dedup c (d ∷ []) = refl
has-dedup c (d ∷ e ∷ ds) = elim (Bool-cases (same d e)) [
  | inl t ↦ simp (t) (
      has-dedup c (e ∷ ds)
      ∙ subst (λ x. (same c e || has c ds) ≡ (same c x || (same c e || has c ds)))
          (sym ((same_iff d e).0 t)) (or-again (same c e) (has c ds)))
  | inr f ↦ simp (f) (ap (λ b. same c d || b) (has-dedup c (e ∷ ds)))
]

pub has-append :
    (c : Capability) (cs ds : List Capability) → has c (cs ++ ds) ≡ (has c cs || has c ds)
has-append c [] ds = refl
has-append c (d ∷ cs) ds =
    ap (λ b. same c d || b) (has-append c cs ds) ∙ or_assoc (same c d) (has c cs) (has c ds)

kept : (a p r : Bool) → (a ≡ true → p ≡ true) → (a || (p && r)) ≡ (p && (a || r))
kept a p r h = ground (arith, h)

left_out : (a p r : Bool) → (a ≡ true → p ≡ false) → (p && r) ≡ (p && (a || r))
left_out a p r h = ground (arith, h)

pub has-filter :
    (c : Capability) (p : Capability → Bool) (cs : List Capability)
    → has c (filter p cs) ≡ (p c && has c cs)
has-filter c p [] = ground arith
has-filter c p (d ∷ cs) = elim (Bool-cases (p d)) [
  | inl t ↦ simp (t) (
      ap (λ b. same c d || b) (has-filter c p cs)
      ∙ kept (same c d) (p c) (has c cs) (λ q. ap p ((same_iff c d).0 q) ∙ t))
  | inr f ↦ simp (f) (
      has-filter c p cs ∙ left_out (same c d) (p c) (has c cs) (λ q. ap p ((same_iff c d).0 q) ∙ f))
]

-- What an operation needs: what it requires, without TUN where a bootstrap leaves it out, and with
-- TUN where it activates a configuration that has it.
abbrev pub needs : Bool → Operation → Capability → Bool
needs tun_enabled op c =
    has c (required_capabilities op)
      && not (not tun_enabled && is_bootstrap op && has c tun_capabilities)
    || tun_enabled && activates op && has c tun_capabilities
