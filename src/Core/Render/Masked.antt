-- ===== src/Core/Render/Masked.antt =====
-- What a mask is made of.
use xrayctl.Common.{
  String, Bool, true, false, Option, none, some, ◌==◌, ◌≡◌, ◌≢◌, ◌⊎◌, inl, inr, refl, sym, ◌∙◌, ap,
  arith, eq_iff, Bool-cases, is_some, split, if◌then◌else◌,
}
use xrayctl.Core.Error.{ManagerError, Result, ok, err, ok_or, ◌>>=◌, >>=-eq-ok, ok_inj}
use xrayctl.Core.Domain.{Node}
use xrayctl.Core.Json.{
  Value, Items, Fields, null, bool, num, str, arr, obj, nil, end, field, get, insert, get-insert,
}
use xrayctl.Core.Render.Mask.{
  extra, quic_of, is_salamander, salamander, has_quic, quic_params, has_aliases, pushed, push_to,
  push_finalmask, fragment_of, with_fragment, with_obfs, with_quic, with_aliases, non_empty,
  given_mask, render_finalmask,
}

-- The members of a mask, and the list that stands at a place.
abbrev pub members : Option Value → Fields
members (some (obj m)) = m
members _ = end

abbrev pub list_of : Option Value → Items
list_of (some (arr vs)) = vs
list_of _ = nil

members-non_empty : (m : Fields) → members (non_empty m) ≡ m
members-non_empty end = refl
members-non_empty (field k v m) = refl

-- A mask is put at the end of the list of its direction.
push_to-get :
    (d k : String) (mask : Value) (m : Fields) (o : Option Value) {n : Fields}
    → push_to m d mask o ≡ ok n
    → get k n ≡ (if d == k then some (arr (pushed (list_of o) mask)) else get k m)
push_to-get d k mask m none {n} q =
    let e : insert d _ m ≡ n = cc in sym (ap (get k) e) ∙ get-insert d k _ m
push_to-get d k mask m (some (arr vs)) {n} q =
    let e : insert d _ m ≡ n = cc in sym (ap (get k) e) ∙ get-insert d k _ m
push_to-get d k mask m (some null) q = cc
push_to-get d k mask m (some (bool b)) q = cc
push_to-get d k mask m (some (num b)) q = cc
push_to-get d k mask m (some (str b)) q = cc
push_to-get d k mask m (some (obj b)) q = cc

apart : (d k : String) → k ≢ d → (d == k) ≡ false
apart d k h = ground (arith, eq_iff d k)

or_kept : {A : Type 0} {b : Bool} (x y : A) → b ≡ false → (if b then x else y) ≡ y
or_kept x y h = simp (h) refl

-- A step that is taken only if a test holds.
if-get :
    (k : String) (m : Fields) (t : Bool) (step : Result Fields) {n : Fields}
    → ((n : Fields) → step ≡ ok n → get k n ≡ get k m)
    → (if t then step else ok m) ≡ ok n
    → get k n ≡ get k m
if-get k m true step kept q = kept _ q
if-get k m false step {n} kept q = let e : m ≡ n = cc in ap (get k) (sym e)

with_password-get :
    (k : String) (m : Fields) {n : Fields}
    → k ≢ "udp"
    → (o : Option String) (failure : ManagerError) (f : String → Value)
    → (ok_or o failure >>= λ p. push_finalmask m "udp" (f p)) ≡ ok n
    → get k n ≡ get k m
unfolding push_finalmask
with_password-get k m h none failure f e = cc
with_password-get k m h (some p) failure f e =
    push_to-get "udp" k (f p) m _ e ∙ or_kept _ _ (apart "udp" k h)

with_obfs-get :
    (node : Node) (k : String) (m : Fields) {n : Fields}
    → k ≢ "udp"
    → with_obfs node m ≡ ok n
    → get k n ≡ get k m
unfolding with_obfs push_finalmask
with_obfs-get node k m h q =
    if-get k m (is_salamander node) (salamander node m)
      (λ n e. with_password-get k m h (extra "obfs-password" node) _ _ e) q

with_quic-get :
    (node : Node) (k : String) (m : Fields) {n : Fields}
    → k ≢ "quicParams"
    → with_quic node m ≡ ok n
    → get k n ≡ get k m
unfolding with_quic
with_quic-get node k m h q =
    if-get k m (has_quic node) (quic_params node m)
      (λ n e.
        let (quic, _, last) = >>=-eq-ok (quic_of (get "quicParams" m)) _ e in
        let e' : insert "quicParams" _ m ≡ n = ok_inj last in
        sym (ap (get k) e') ∙ get-insert "quicParams" k _ m ∙ or_kept _ _ (apart "quicParams" k h))
      q

-- The mask that a node's `fragment` stands for, if it is well-formed.
abbrev given_value : Result Value → Option Value
given_value (ok mask) = some mask
given_value (err e) = none

abbrev pub fragment_mask : Option String → Option Value
fragment_mask none = none
fragment_mask (some fragment) = given_value (fragment_of (split b',' fragment))

abbrev pub appended : Option Value → Option Value → Option Value
appended none at = at
appended (some mask) at = some (arr (pushed (list_of at) mask))

-- What stands at a key when only the fragment has been added.
abbrev pub fragmented : String → Node → Fields → Option Value
fragmented k node given =
    if "tcp" == k
    then appended (fragment_mask (extra "fragment" node)) (get "tcp" given)
    else get k given

with_mask-get :
    (k : String) (r : Result Value) (given : Fields) {n : Fields}
    → (r >>= λ mask. push_finalmask given "tcp" mask) ≡ ok n
    → get k n ≡ (if "tcp" == k then appended (given_value r) (get "tcp" given) else get k given)
unfolding push_finalmask
with_mask-get k (ok mask) given q = push_to-get "tcp" k mask given _ q
with_mask-get k (err e) given q = cc

either_way : (k : String) (f : String → Option Value) → f k ≡ (if "tcp" == k then f "tcp" else f k)
either_way k f = elim (Bool-cases ("tcp" == k)) [
  | inl t ↦ simp (t) (ap f (sym ((eq_iff "tcp" k).0 t)))
  | inr f' ↦ simp (f') refl
]

with_fragment-get :
    (k : String) (node : Node) (given : Fields) {n : Fields}
    → with_fragment (extra "fragment" node) given ≡ ok n
    → get k n ≡ fragmented k node given
with_fragment-get k node given q = by (extra "fragment" node) q
  where
    by :
        (o : Option String) {n : Fields}
        → with_fragment o given ≡ ok n
        → get k n
          ≡ (if "tcp" == k then appended (fragment_mask o) (get "tcp" given) else get k given)
    by none {n} e =
        let h : n ≡ given = sym (ok_inj e) in ap (get k) h ∙ either_way k (λ j. get j given)
    by (some fragment) e = with_mask-get k (fragment_of (split b',' fragment)) given e

-- The keys that the names of an older client's parameters do not reach.
abbrev pub IsReserved : String → Node → Type 0
IsReserved k node = (is_some (extra "fm" node) ≡ true) ⊎ ((k ≢ "udp") × (k ≢ "quicParams"))

with_aliases-get :
    (node : Node) (k : String) (m : Fields) {n : Fields}
    → IsReserved k node
    → with_aliases node m ≡ ok n
    → get k n ≡ get k m
with_aliases-get node k m (inl given) q =
    let no : has_aliases node ≡ false = ground (arith, given) in
    let e : ok m ≡ ok _ = sym (or_kept _ (ok m) no) ∙ q in ap (get k) (sym (ok_inj e))
with_aliases-get node k m (inr (u, p)) q =
    if-get k m (has_aliases node) (with_obfs node m >>= λ masked. with_quic node masked)
      (λ n e.
        let (masked, first, last) = >>=-eq-ok (with_obfs node m) _ e in
        with_quic-get node k masked p last ∙ with_obfs-get node k m u first)
      q

-- A node's mask has, at each key, what the JSON of the node has there, with the fragment at the end
-- of the list of `tcp`. Only if the node has no such JSON may `udp` and `quicParams` be otherwise, by
-- the older names of Hysteria2's parameters: with it, these are not applied.
pub render_finalmask-fragmented :
    (read_json : String → String ⊎ Value) (node : Node) (k : String) {given : Fields}
    {mask : Option Value}
    → given_mask read_json (extra "fm" node) ≡ ok given
    → render_finalmask read_json node ≡ ok mask
    → IsReserved k node
    → get k (members mask) ≡ fragmented k node given
unfolding render_finalmask
render_finalmask-fragmented read_json node k {given} {mask} g q h =
    let (first, at, rest) = >>=-eq-ok (given_mask read_json (extra "fm" node)) _ q in
    let (second, fragments, more) =
      >>=-eq-ok (with_fragment (extra "fragment" node) first) _ rest in
    let (third, aliases, last) = >>=-eq-ok (with_aliases node second) _ more in
    let e : first ≡ given = ok_inj (sym at ∙ g) in
    let m : mask ≡ non_empty third = cc in
    ap (λ o. get k (members o)) m
    ∙ ap (get k) (members-non_empty third)
    ∙ with_aliases-get node k second h aliases
    ∙ with_fragment-get k node first fragments
    ∙ ap (fragmented k node) e
