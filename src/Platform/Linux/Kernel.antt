-- ===== src/Platform/Linux/Kernel.antt =====
-- What the programs that crates/xray-manager-platform/src/linux/mod.rs runs do to the network, and
-- rules for what an action does to it, by the way it is made.
use xrayctl.Common.{
  ℕ, suc, ◌-◌, ltb, String, Bool, true, false, List, [], ◌∷◌, ◌≡◌, ◌⊎◌, if◌then◌else◌,
}
use xrayctl.Core.Error.{ManagerError, Result, ok, err}
use xrayctl.Core.Config.{ManagerConfig}
use xrayctl.Core.Backends.{Action}
use xrayctl.Platform.Linux.Commands.{
  succeeded, proceed, ◌>>=◌, return, attempt, or_after, on_error, Run,
}
use xrayctl.Platform.Linux.Tun.{
  rule_args, list_args, delete_args, flush_args, close_args, link_args, attach_args, detach_args,
  mark_of, table_of,
}

-- Of one family of addresses: how many rules send marked packets to the table, and which default
-- routes the table has.
pub record Family : Type 0 where
  pub rules : ℕ
  -- The route of last resort.
  pub closed : Bool
  -- The route to the interface.
  pub attached : Bool

pub record Network : Type 0 where
  pub firewall : Bool
  pub ipv4 : Family
  pub ipv6 : Family
  -- Whether the service of the policy is started at the next boot.
  pub at_boot : Bool

abbrev pub at_family : Bool → (Family → Family) → Network → Network
at_family true f n = record n { ipv6 = f n.ipv6 }
at_family false f n = record n { ipv4 = f n.ipv4 }

abbrev pub family : Bool → Network → Family
family true n = n.ipv6
family false n = n.ipv4

abbrev pub with_table : Bool → Network → Network
with_table b n = record n { firewall = b }

abbrev pub drop : ℕ → Family → Family
drop m f = record f { rules = f.rules - m }

abbrev pub add_rule : Family → Family
add_rule f = record f { rules = suc f.rules }

abbrev pub close : Family → Family
close f = record f { closed = true }

abbrev pub set_attached : Bool → Family → Family
set_attached b f = record f { attached = b }

abbrev pub flushed : Family → Family
flushed f = record f { closed = false; attached = false }

-- An effect where the program succeeds, and none where it fails.
abbrev pub Effect : (Network → Network) → Network → Bool → Network → Type 0
Effect effect n success n' = n' ≡ (if success then effect n else n)

-- A flush that succeeds removes the routes of the family; one that fails may have removed some.
abbrev pub Flushed : Bool → Network → Bool → Network → Type 0
Flushed ipv6 n true n' = n' ≡ at_family ipv6 flushed n
Flushed ipv6 n false n' = at_family ipv6 flushed n' ≡ at_family ipv6 flushed n

module _ {W : Type 0} (run : Run W) (write_temporary : String → Action W String)
    (observe : W → Network) where
  abbrev Does : (Network → Network) → String → List String → Type 0
  Does effect program args =
      (w : W)
      → Effect effect (observe w) (succeeded (run program args w).0)
          (observe (run program args w).1)

  abbrev Works : (Network → Network) → String → List String → Type 0
  Works effect program args = (w : W) → observe (run program args w).1 ≡ effect (observe w)

  -- What `nft` and `ip` promise: a command that succeeds has its effect, and one that fails has
  -- none. The table can be listed exactly if there is one, and a rule or a route to the interface can
  -- be deleted exactly if there is one.
  pub record Laws (c : ManagerConfig) : Type 0 where
    pub finds_group : Works (λ n. n) "getent" ("group" ∷ "xray-tun" ∷ [])
    pub writes : (rules : String) (w : W) → observe (write_temporary rules w).1 ≡ observe w
    pub lists : Works (λ n. n) "nft" list_args
    pub lists_table : (w : W) → succeeded (run "nft" list_args w).0 ≡ (observe w).firewall
    pub deletes : Does (with_table false) "nft" delete_args
    pub loads : (file : String) → Does (with_table true) "nft" ("-f" ∷ file ∷ [])
    pub adds_rule :
        (ipv6 : Bool)
        → Does (at_family ipv6 add_rule) "ip" (rule_args ipv6 "add" (mark_of c) (table_of c))
    pub deletes_rule :
        (ipv6 : Bool)
        → Does (at_family ipv6 (drop 1)) "ip" (rule_args ipv6 "del" (mark_of c) (table_of c))
    pub deletes_present :
        (ipv6 : Bool) (w : W)
        → succeeded (run "ip" (rule_args ipv6 "del" (mark_of c) (table_of c)) w).0
          ≡ ltb 0 (family ipv6 (observe w)).rules
    pub flushes :
        (ipv6 : Bool) (w : W)
        → Flushed ipv6
            (observe w)
            (succeeded (run "ip" (flush_args ipv6 (table_of c)) w).0)
            (observe (run "ip" (flush_args ipv6 (table_of c)) w).1)
    pub closes : (ipv6 : Bool) → Does (at_family ipv6 close) "ip" (close_args ipv6 (table_of c))
    pub shows_link : Works (λ n. n) "ip" (link_args c.tun.interface_name)
    pub attaches :
        (ipv6 : Bool) → Does (at_family ipv6 (set_attached true)) "ip" (attach_args ipv6 c.tun)
    pub detaches :
        (ipv6 : Bool) → Does (at_family ipv6 (set_attached false)) "ip" (detach_args ipv6 c.tun)
    pub detaches_present :
        (ipv6 : Bool) (w : W)
        → succeeded (run "ip" (detach_args ipv6 c.tun) w).0 ≡ (family ipv6 (observe w)).attached

  -- A flush succeeds, or finds no route and changes nothing.
  abbrev pub Flushing : ManagerConfig → Type 0
  Flushing c =
      (ipv6 : Bool) (w : W)
      → (succeeded (run "ip" (flush_args ipv6 (table_of c)) w).0 ≡ true)
        ⊎ ((observe (run "ip" (flush_args ipv6 (table_of c)) w).1 ≡ observe w)
            × (at_family ipv6 flushed (observe w) ≡ observe w))

-- From a network with the first property, the action gives a result and a network with the second.
pub record Gives {W T : Type 0} (observe : W → Network) (P : Network → Type 0) (action : Action W T)
    (Q : Result T → Network → Type 0) : Type 0 where
  pub given : (w : W) → P (observe w) → Q (action w).0 (observe (action w).1)

abbrev pub At : Network → Network → Type 0
At n n' = n' ≡ n

-- The action succeeds with the effect, or fails and has none.
abbrev pub Moves : {T : Type 0} → (Network → Network) → Network → Result T → Network → Type 0
Moves effect n (ok _) n' = n' ≡ effect n
Moves effect n (err e) n' = n' ≡ n

-- The result as a value.
abbrev pub Tried :
    {T : Type 0} → (Result T → Network → Type 0) → Result (Result T) → Network → Type 0
Tried Q (ok r) n = Q r n
Tried Q (err e) n = ⊥

module _ {W : Type 0} {observe : W → Network} where
  proceed-Gives :
      {T U : Type 0} (Q : Result T → Network → Type 0) (R : Result U → Network → Type 0)
      (next : T → Action W U)
      → ((x : T) → Gives observe (Q (ok x)) (next x) R)
      → ((e : ManagerError) (n : Network) → Q (err e) n → R (err e) n)
      → (r : Result T × W) → Q r.0 (observe r.1)
      → R (proceed r next).0 (observe (proceed r next).1)
  proceed-Gives Q R next k l (ok x, w) q = (k x).given w q
  proceed-Gives Q R next k l (err e, w) q = l e (observe w) q

  pub >>=-Gives :
      {T U : Type 0} {P : Network → Type 0} {Q : Result T → Network → Type 0}
      {R : Result U → Network → Type 0} {action : Action W T} {next : T → Action W U}
      → Gives observe P action Q
      → ((x : T) → Gives observe (Q (ok x)) (next x) R)
      → ((e : ManagerError) (n : Network) → Q (err e) n → R (err e) n)
      → Gives observe P (action >>= next) R
  unfolding ◌>>=◌
  >>=-Gives {Q} {R} {action} {next} g k l = record {
    given = λ w h. proceed-Gives Q R next k l (action w) (g.given w h);
  }

  pub return-Gives :
      {T : Type 0} {P : Network → Type 0} {R : Result T → Network → Type 0} (r : Result T)
      → ((n : Network) → P n → R r n)
      → Gives observe P (return r) R
  unfolding return
  return-Gives r k = record { given = λ w h. k (observe w) h }

  pub Gives-mono :
      {T : Type 0} {P : Network → Type 0} (Q : Result T → Network → Type 0)
      {R : Result T → Network → Type 0} {action : Action W T}
      → Gives observe P action Q
      → ((r : Result T) (n : Network) → Q r n → R r n)
      → Gives observe P action R
  Gives-mono Q g k = record { given = λ w h. k _ _ (g.given w h) }

  pub attempt-Gives :
      {T : Type 0} {P : Network → Type 0} {Q : Result T → Network → Type 0} {action : Action W T}
      → Gives observe P action Q
      → Gives observe P (attempt action) (Tried Q)
  unfolding attempt
  attempt-Gives g = record { given = λ w h. g.given w h }

  pub attempted :
      {T U : Type 0} {P : Network → Type 0} (Q : Result T → Network → Type 0)
      {R : Result U → Network → Type 0} {action : Action W T} {next : Result T → Action W U}
      → Gives observe P action Q
      → ((r : Result T) → Gives observe (Q r) (next r) R)
      → Gives observe P (attempt action >>= next) R
  attempted Q g k = >>=-Gives {Q = Tried Q} (attempt-Gives g) k (λ e n h. elim h [ ])

  or_after-Gives :
      {T : Type 0} (Q R : Result T → Network → Type 0) (S : Network → Type 0)
      (handler : Action W (Unit {0}))
      → ((x : T) (n : Network) → Q (ok x) n → R (ok x) n)
      → ((e : ManagerError) → Gives observe (Q (err e)) handler (λ r n. S n))
      → ((e : ManagerError) (n : Network) → S n → R (err e) n)
      → (r : Result T) → Gives observe (Q r) (or_after handler r) R
  or_after-Gives Q R S handler k h l (ok x) = return-Gives (ok x) (k x)
  or_after-Gives Q R S handler k h l (err e) =
      attempted (λ r n. S n) (h e) (λ _. return-Gives (err e) (l e))

  pub on_error-Gives :
      {T : Type 0} {P : Network → Type 0} (Q : Result T → Network → Type 0)
      {R : Result T → Network → Type 0} (S : Network → Type 0) {handler : Action W (Unit {0})}
      {action : Action W T}
      → Gives observe P action Q
      → ((x : T) (n : Network) → Q (ok x) n → R (ok x) n)
      → ((e : ManagerError) → Gives observe (Q (err e)) handler (λ r n. S n))
      → ((e : ManagerError) (n : Network) → S n → R (err e) n)
      → Gives observe P (on_error handler action) R
  unfolding on_error
  on_error-Gives Q {R} S {handler} g k h l = attempted Q g (or_after-Gives Q R S handler k h l)

  pub if-Gives :
      {T : Type 0} {P : Network → Type 0} {R : Result T → Network → Type 0} (b : Bool)
      {this that : Action W T}
      → Gives observe P this R
      → Gives observe P that R
      → Gives observe P (if b then this else that) R
  if-Gives true g k = g
  if-Gives false g k = k
