-- ===== src/Platform/Linux/Routes.antt =====
-- What the policy routing of crates/xray-manager-platform/src/linux/mod.rs does to the network.
use xrayctl.Common.{
  ℕ, zero, suc, ◌-◌, ltb, String, Bool, true, false, List, ◌≡◌, ◌⊎◌, inl, inr, ◌∙◌, sym, ap, subst,
  arith, if◌then◌else◌,
}
use xrayctl.Core.Error.{ManagerError, Result, ok, err}
use xrayctl.Core.Config.{ManagerConfig}
use xrayctl.Core.Backends.{Action}
use xrayctl.Platform.Linux.Commands.{
  CommandOutput, succeeded, ◌>>=◌, ◌>>◌, return, attempt, Run, run_checked,
}
use xrayctl.Platform.Linux.Tun.{remove_rules, remove_rule, flush}
use xrayctl.Platform.Linux.Kernel.{
  Network, at_family, family, drop, flushed, Effect, Flushed, Flushing, Laws, Gives, At, Moves,
  >>=-Gives, return-Gives, attempted,
}

-- The action succeeds, with that network after it.
abbrev pub Done : Network → Result (Unit {0}) → Network → Type 0
Done n (ok _) n' = n' ≡ n
Done n (err e) n' = ⊥

pub Done-At : (n : Network) (r : Result (Unit {0})) (n' : Network) → Done n r n' → At n n'
Done-At n (ok _) n' h = h
Done-At n (err e) n' h = elim h [ ]

abbrev After : (Network → Network) → Network → Result CommandOutput → Network → Type 0
After effect n r n' = Effect effect n (succeeded r) n'

settled :
    (effect : Network → Network) (n n' : Network) (b : Bool) (e : ManagerError)
    → Effect effect n b n'
    → Moves effect n (if b then ok tt else err e) n'
settled effect n n' true e h = h
settled effect n n' false e h = h

module _ {W : Type 0} {observe : W → Network} where
  pub then_done :
      {P : Network → Type 0} {n : Network} {R : Result (Unit {0}) → Network → Type 0}
      {action next : Action W (Unit {0})}
      → Gives observe P action (Done n)
      → Gives observe (At n) next R
      → Gives observe P (action >> next) R
  then_done {n} g k = >>=-Gives {Q = Done n} g (λ _. k) (λ e m h. elim h [ ])

  pub run_checked-Moves :
      (run : Run W) (program : String) (args : List String) (effect : Network → Network)
      (n : Network)
      → ((w : W)
          → Effect effect
              (observe w)
              (succeeded (run program args w).0)
              (observe (run program args w).1))
      → Gives observe (At n) (run_checked run program args) (Moves effect n)
  run_checked-Moves run program args effect n does =
      >>=-Gives {Q = After effect n}
        (record {
          given = λ w h.
              subst (λ m. After effect m (run program args w).0 (observe (run program args w).1)) h
                (does w);
        })
        (λ output. return-Gives _ (λ n' h. settled effect n n' _ _ h)) (λ e n' h. h)

  pub works_anyway :
      (action : Action W CommandOutput) (effect : Network → Network) (n : Network)
      → ((w : W) → observe (action w).1 ≡ effect (observe w))
      → Gives observe (At n) (attempt action >>= λ _. return (ok tt)) (Done (effect n))
  works_anyway action effect n works =
      attempted (λ r. At (effect n)) (record { given = λ w h. works w ∙ ap effect h })
        (λ r. return-Gives (ok tt) (λ n' h. h))

-- Deleting rules of one family.
abbrev with_rules : Bool → Network → ℕ → Network
with_rules ipv6 n k = at_family ipv6 (λ f. record f { rules = k }) n

take_none : (k : ℕ) → k - 0 ≡ k
take_none k = omega arith

drop_none : (ipv6 : Bool) (n : Network) → at_family ipv6 (drop 0) n ≡ n
drop_none true n = ap (with_rules true n) (take_none n.ipv6.rules)
drop_none false n = ap (with_rules false n) (take_none n.ipv4.rules)

drop_twice : (m k : ℕ) → (k - 1) - m ≡ k - suc m
drop_twice m k = omega arith

drop_more :
    (ipv6 : Bool) (m : ℕ) (n : Network)
    → at_family ipv6 (drop m) (at_family ipv6 (drop 1) n) ≡ at_family ipv6 (drop (suc m)) n
drop_more true m n = ap (with_rules true n) (drop_twice m n.ipv6.rules)
drop_more false m n = ap (with_rules false n) (drop_twice m n.ipv4.rules)

none_left : (m k : ℕ) → ltb 0 k ≡ false → k - 1 ≡ k - suc m
none_left m zero h = omega arith
none_left m (suc k) h = ground arith

drop_all :
    (ipv6 : Bool) (m : ℕ) (n : Network)
    → ltb 0 (family ipv6 n).rules ≡ false
    → at_family ipv6 (drop 1) n ≡ at_family ipv6 (drop (suc m)) n
drop_all true m n h = ap (with_rules true n) (none_left m n.ipv6.rules h)
drop_all false m n h = ap (with_rules false n) (none_left m n.ipv4.rules h)

no_more : (k : ℕ) → ltb 0 k ≡ false → k - 0 ≡ k - 1
no_more zero h = omega arith
no_more (suc k) h = ground arith

no_rule :
    (ipv6 : Bool) (n : Network)
    → ltb 0 (family ipv6 n).rules ≡ false
    → at_family ipv6 (drop 0) n ≡ at_family ipv6 (drop 1) n
no_rule true n h = ap (with_rules true n) (no_more n.ipv6.rules h)
no_rule false n h = ap (with_rules false n) (no_more n.ipv4.rules h)

-- A rule is deleted, or there was none.
deleted_rule :
    (ipv6 : Bool) (n n' : Network) (b : Bool)
    → b ≡ ltb 0 (family ipv6 n).rules
    → Effect (at_family ipv6 (drop 1)) n b n'
    → n' ≡ at_family ipv6 (drop 1) n
deleted_rule ipv6 n n' true h e = e
deleted_rule ipv6 n n' false h e = e ∙ sym (drop_none ipv6 n) ∙ no_rule ipv6 n (sym h)

-- The network without routes in the table.
abbrev pub bared : Network → Network
bared n = at_family true flushed (at_family false flushed n)

-- The network is one but for its routes, and, if no flush fails, another.
abbrev pub Bared : Type 0 → Network → Network → Network → Type 0
Bared F n m n' = (bared n' ≡ bared n) × (F → n' ≡ m)

abbrev pub BaredDone : Type 0 → Network → Network → Result (Unit {0}) → Network → Type 0
BaredDone F n m (ok _) n' = Bared F n m n'
BaredDone F n m (err e) n' = ⊥

Flushed-Bared : (ipv6 : Bool) (n n' : Network) (b : Bool) → Flushed ipv6 n b n' → bared n' ≡ bared n
Flushed-Bared true n n' true h = ap bared h
Flushed-Bared false n n' true h = ap bared h
Flushed-Bared true n n' false h = ap (at_family false flushed) h
Flushed-Bared false n n' false h = ap (at_family true flushed) h

flushed_anyway :
    (ipv6 : Bool) (n n' : Network) (b : Bool)
    → Flushed ipv6 n b n'
    → (b ≡ true) ⊎ ((n' ≡ n) × (at_family ipv6 flushed n ≡ n))
    → n' ≡ at_family ipv6 flushed n
flushed_anyway ipv6 n n' true h q = h
flushed_anyway ipv6 n n' false h (inl q) = cc
flushed_anyway ipv6 n n' false h (inr q) = q.0 ∙ sym q.1

module _ {W : Type 0} (run : Run W) (write_temporary : String → Action W String) (rounds : ℕ)
    (observe : W → Network) (c : ManagerConfig) (laws : Laws run write_temporary observe c) where
  abbrev remove : ℕ → Bool → Action W (Unit {0})
  remove m ipv6 = remove_rules run write_temporary rounds m ipv6 c

  abbrev left : ℕ → Bool → Network → Network
  left m ipv6 n = at_family ipv6 (drop m) n

  removed_more :
      (m : ℕ) (ipv6 : Bool) (n : Network) (b : Bool)
      → b ≡ ltb 0 (family ipv6 n).rules
      → Gives observe (At (left 1 ipv6 n)) (remove m ipv6) (Done (left m ipv6 (left 1 ipv6 n)))
      → Gives observe
          (At (left 1 ipv6 n))
          (if b then remove m ipv6 else return (ok tt))
          (Done (left (suc m) ipv6 n))
  removed_more m ipv6 n true h g =
      subst (λ k. Gives observe (At (left 1 ipv6 n)) (remove m ipv6) (Done k)) (drop_more ipv6 m n)
        g
  removed_more m ipv6 n false h g = return-Gives (ok tt) (λ n' q. q ∙ drop_all ipv6 m n (sym h))

  abbrev Dropped : Bool → Network → Result CommandOutput → Network → Type 0
  Dropped ipv6 n r n' = (n' ≡ left 1 ipv6 n) × (succeeded r ≡ ltb 0 (family ipv6 n).rules)

  remove_rules-Done :
      (m : ℕ) (ipv6 : Bool) (n : Network)
      → Gives observe (At n) (remove m ipv6) (Done (left m ipv6 n))
  unfolding remove_rules
  remove_rules-Done zero ipv6 n = return-Gives (ok tt) (λ n' h. h ∙ sym (drop_none ipv6 n))
  remove_rules-Done (suc m) ipv6 n =
      attempted (Dropped ipv6 n)
        (record {
          given = λ w h. (
            deleted_rule ipv6 (observe w) _ _ (laws.deletes_present ipv6 w)
                  (laws.deletes_rule ipv6 w)
                ∙ ap (left 1 ipv6) h,
            laws.deletes_present ipv6 w ∙ ap (λ k. ltb 0 (family ipv6 k).rules) h,
          );
        })
        (λ r. record {
          given = λ w h.
              (removed_more m ipv6 n (succeeded r) h.1
                  (remove_rules-Done m ipv6 (left 1 ipv6 n))).given
                w h.0;
        })

  pub remove_rule-Done :
      (ipv6 : Bool) (n : Network)
      → Gives observe (At n) (remove_rule run write_temporary rounds ipv6 c) (Done (left 32 ipv6 n))
  unfolding remove_rule
  remove_rule-Done ipv6 n = remove_rules-Done 32 ipv6 n

  abbrev pub Flushes : Type 0
  Flushes = Flushing run write_temporary observe c

  -- From a network that is that one but for some routes, and that one if no flush fails.
  pub flush-Bared :
      (ipv6 : Bool) (n m : Network)
      → Gives observe
          (Bared Flushes n m)
          (flush run write_temporary rounds ipv6 c)
          (BaredDone Flushes n (at_family ipv6 flushed m))
  unfolding flush
  flush-Bared ipv6 n m =
      attempted (λ r. Bared Flushes n (at_family ipv6 flushed m))
        (record {
          given = λ w h. (
            Flushed-Bared ipv6 (observe w) _ _ (laws.flushes ipv6 w) ∙ h.0,
            λ works.
                flushed_anyway ipv6 (observe w) _ _ (laws.flushes ipv6 w) (works ipv6 w)
                ∙ ap (at_family ipv6 flushed) (h.1 works),
          );
        })
        (λ r. return-Gives (ok tt) (λ n' h. h))
