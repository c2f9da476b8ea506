-- ===== src/Core/Execution/Fetched.antt =====
-- The nodes that a refresh keeps.
use xrayctl.Common.{
  ℕ, ◌+◌, String, Bool, false, not, ◌&&◌, Option, List, [], ◌∷◌, ◌==◌, ◌≡◌, inl, inr, refl, ◌∙◌, ap,
  arith, eq_iff, any, filter, total, one_if, total-append, Bool-cases, All,
}
use xrayctl.Core.Error.{Result, ok, err, Yields, yielded}
use xrayctl.Core.Domain.{Node}
use xrayctl.Core.Profiles.{SubscriptionConfig}
use xrayctl.Core.Subscription.Accounted.{Labelled, parse_subscription-Labelled}
use xrayctl.Core.Backends.Tasks.{Service, Task, proceed, ◌>>=◌, return}
use xrayctl.Core.Execution.{Operator}
use xrayctl.Core.Execution.Refresh.{
  is_requested, replace_nodes, merged, Refreshed, download, refresh_each, fetch,
}

-- The nodes of a subscription that pass a test.
abbrev pub is_counted : String → (Node → Bool) → Node → Bool
is_counted name t n = n.subscription == name && t n

abbrev pub counted : String → (Node → Bool) → List Node → ℕ
counted name t nodes = total (λ n. one_if (is_counted name t n)) nodes

total-filter :
    (f : Node → ℕ) (p : Node → Bool) (ns : List Node)
    → ((n : Node) → p n ≡ false → f n ≡ 0)
    → total f (filter p ns) ≡ total f ns
total-filter f p [] h = refl
total-filter f p (n ∷ ns) h = elim (Bool-cases (p n)) [
  | inl t ↦ simp (t) (ap (λ k. f n + k) (total-filter f p ns h))
  | inr no' ↦ let k = total-filter f p ns h in let z = h n no' in simp (no', z) (omega arith)
]

total-none :
    (f : Node → ℕ) (s : String) (ns : List Node)
    → ((n : Node) → Labelled s n → f n ≡ 0)
    → All (Labelled s) ns
    → total f ns ≡ 0
total-none f s [] h a = refl
total-none f s (n ∷ ns) h (l, a) = let k = total-none f s ns h a in let z = h n l in omega arith

apart_counts :
    (name : String) (t : Node → Bool) (s : String) (n : Node)
    → (s == name) ≡ false
    → Labelled s n
    → one_if (is_counted name t n) ≡ 0
apart_counts name t s n apart l =
    let e : (n.subscription == name) ≡ false = ap (λ u. u == name) l ∙ apart in simp (e) refl

dropped_counts :
    (name : String) (t : Node → Bool) (s : String) (n : Node)
    → (s == name) ≡ false
    → not (n.subscription == s) ≡ false
    → one_if (is_counted name t n) ≡ 0
dropped_counts name t s n apart h =
    apart_counts name t s n apart (ground (arith, eq_iff n.subscription s))

not_requested :
    (requested : Option String) (name : String) (subs : List SubscriptionConfig)
    → any (λ c. is_requested requested c && c.name == name) subs ≡ false
    → All (λ c. (c.name == name) ≡ false) (filter (is_requested requested) subs)
not_requested requested name [] h = tt
not_requested requested name (c ∷ subs) h = elim (Bool-cases (is_requested requested c)) [
  | inl t ↦ simp (t) (ground (arith, h, t), not_requested requested name subs (ground (arith, h)))
  | inr f ↦ simp (f) (not_requested requested name subs (ground (arith, h)))
]

counted-replace_nodes :
    (name : String) (t : Node → Bool) (s : String) (parsed nodes : List Node)
    → (s == name) ≡ false
    → All (Labelled s) parsed
    → counted name t (replace_nodes s parsed nodes) ≡ counted name t nodes
unfolding replace_nodes
counted-replace_nodes name t s parsed nodes apart a =
    let f = λ (n : Node). one_if (is_counted name t n) in
    let e = total-append f (filter (λ n. not (n.subscription == s)) nodes) parsed in
    let k =
      total-filter f (λ n. not (n.subscription == s)) nodes
        (λ n. dropped_counts name t s n apart) in
    let z = total-none f s parsed (λ n. apart_counts name t s n apart) a in e ∙ omega arith

module _ {W : Type 0} where
  record Returns {T : Type 0} (Q : T → Type 0) (task : Task W T) : Type 0 where
    returns : (s : Service W) → Yields Q (task s).0

  proceed-Returns :
      {T U : Type 0} {Q : T → Type 0} {R : U → Type 0} (r : Result T × Service W)
      (next : T → Task W U)
      → Yields Q r.0
      → ((x : T) → Q x → Returns R (next x))
      → Yields R (proceed r next).0
  proceed-Returns (ok x, s) next y k = (k x y.holds).returns s
  proceed-Returns (err e, s) next y k = record { holds = tt }

  >>=-Returns :
      {T U : Type 0} {Q : T → Type 0} {R : U → Type 0} {task : Task W T} {next : T → Task W U}
      → Returns Q task
      → ((x : T) → Q x → Returns R (next x))
      → Returns R (task >>= next)
  unfolding ◌>>=◌
  >>=-Returns {task} {next} q k = record {
    returns = λ s. proceed-Returns (task s) next (q.returns s) k;
  }

  any_result : {T : Type 0} (task : Task W T) → Returns (λ _. Unit {0}) task
  any_result task = record { returns = λ s. given (task s).0 }
    where
      given : {T : Type 0} (r : Result T) → Yields (λ _. Unit {0}) r
      given (ok x) = record { holds = tt }
      given (err e) = record { holds = tt }

  return-Returns : {T : Type 0} {Q : T → Type 0} {r : Result T} → Yields Q r → Returns Q (return r)
  unfolding return
  return-Returns y = record { returns = λ s. y }

  module _ (o : Operator W)
      (labels : (uri name : String) (n : Node)
        → o.parse_uri uri name ≡ ok n
        → Labelled name n) where
    download-Labelled :
        (s : SubscriptionConfig) → Returns (λ p. All (Labelled s.name) p.nodes) (download o s)
    unfolding download
    download-Labelled s = >>=-Returns (any_result _) (λ text _. >>=-Returns (any_result _) (λ _ _.
        return-Returns (
          parse_subscription-Labelled o.decode_base64 o.parse_uri text s.name
            (λ uri n. labels uri s.name n))))

    refresh_each-counted :
        (name : String) (t : Node → Bool) (k : ℕ) (subs : List SubscriptionConfig) (r : Refreshed)
        → All (λ s. (s.name == name) ≡ false) subs
        → counted name t (r.0) ≡ k
        → Returns (λ r'. counted name t (r'.0) ≡ k) (refresh_each o subs r)
    unfolding refresh_each
    refresh_each-counted name t k [] r apart h = return-Returns (record { holds = h })
    refresh_each-counted name t k (s ∷ more) r (a, apart) h =
        >>=-Returns (download-Labelled s) (λ p labelled.
          refresh_each-counted name t k more (merged s p r) apart
            (counted-replace_nodes name t s.name p.nodes (r.0) a labelled ∙ h))

    -- A refresh that succeeds leaves the nodes of the other subscriptions: of
    -- a subscription that is disabled, or is not the one that is asked for, the nodes after it are,
    -- by any test and with their number, those before it. The parser labels each node with its
    -- subscription.
    pub fetch-keeps :
        (requested : Option String) (subs : List SubscriptionConfig) (nodes : List Node)
        (name : String) (t : Node → Bool) (s : Service W) {r : Refreshed}
        → any (λ c. is_requested requested c && c.name == name) subs ≡ false
        → (fetch o requested subs nodes s).0 ≡ ok r
        → counted name t (r.0) ≡ counted name t nodes
    unfolding fetch
    fetch-keeps requested subs nodes name t s h q =
        yielded
          ((refresh_each-counted name t (counted name t nodes) _ (nodes, [])
              (not_requested requested name subs h) refl).returns
            s)
          q
