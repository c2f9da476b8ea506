-- ===== src/Core/Protocols/Accepted.antt =====
-- What of a node the checks of vless.rs accept, and the rendering of it.
use xrayctl.Common.{
  String, Bool, true, false, not, ◌&&◌, ◌||◌, Option, none, some, List, [], ◌∷◌, ◌++◌, ◌==◌, ◌≡◌,
  ◌⊎◌, inl, inr, refl, sym, ◌∙◌, ap, arith, eq_iff, is_some, All, map_or, split, to_ascii_lowercase,
  if◌then◌else◌,
}
use xrayctl.Core.Error.{ManagerError, Result, ok, err, fail_if, is_ok, ◌>>=◌, ◌>>◌, ok_inj}
use xrayctl.Core.Config.Validation.{one_of}
use xrayctl.Core.Domain.{Node, vless}
use xrayctl.Core.Json.{Value, Fields, null, bool, num, str, arr, obj, end}
use xrayctl.Core.Render.Mask.{
  extra, is_numeric_range, push_finalmask, fragment_of, with_fragment, with_aliases, has_aliases,
  is_hysteria2, as_mask, given_mask, render_finalmask,
}
use xrayctl.Core.Render.Stream.{normalize_network, methods}
use xrayctl.Core.Protocols.Shared.{raised}
use xrayctl.Core.Protocols.Vless.{kinds, are_fields, is_supported_fragment, is_json_object}

eq_sym : (a b : String) → (a == b) ≡ (b == a)
eq_sym a b = ground (arith, eq_iff a b, eq_iff b a)

known_if :
    (t : Bool) (x y : String)
    → one_of methods x ≡ true
    → (t ≡ false → one_of methods y ≡ true)
    → one_of methods (if t then x else y) ≡ true
known_if true x y h k = h
known_if false x y h k = k refl

-- A text with a known name in lower case is a transport that is known.
pub normalize_network-known :
    (kind : String)
    → one_of kinds (to_ascii_lowercase kind) ≡ true
    → one_of methods (normalize_network kind) ≡ true
unfolding normalize_network
normalize_network-known kind h =
    let s = to_ascii_lowercase kind in
    known_if (s == "tcp" || s == "raw") "tcp" _ refl (λ a.
      known_if (s == "websocket" || s == "ws") "ws" _ refl (λ b.
        known_if (s == "grpc") "grpc" _ refl (λ c.
          known_if (s == "httpupgrade") "httpupgrade" _ refl (λ d.
            known_if (s == "xhttp" || s == "splithttp") "xhttp" _ refl (λ e.
              known_if (s == "hysteria") "hysteria" _ refl (λ f. ground (
                arith,
                eq_sym s "tcp",
                eq_sym s "raw",
                eq_sym s "websocket",
                eq_sym s "ws",
                eq_sym s "grpc",
                eq_sym s "httpupgrade",
                eq_sym s "xhttp",
                eq_sym s "splithttp",
              )))))))

pub append-empty {ℓ} : {A : Type ℓ} (xs ys : List A) → xs ++ ys ≡ [] → (xs ≡ []) × (ys ≡ [])
append-empty [] ys h = (refl, h)
append-empty (x ∷ xs) ys h = cc

pub raised-empty : (cs : List (Bool × String)) → raised cs ≡ [] → All (λ c. c.0 ≡ false) cs
raised-empty [] h = tt
raised-empty ((true, w) ∷ more) h = cc
raised-empty ((false, w) ∷ more) h = (refl, raised-empty more h)

then_ok {ℓ κ} :
    {S : Type ℓ} {T : Type κ} (r : Result S) (f : S → Result T)
    → is_ok r ≡ true
    → ((x : S) → r ≡ ok x → is_ok (f x) ≡ true)
    → is_ok (r >>= f) ≡ true
then_ok (ok x) f h k = k x refl
then_ok (err e) f h k = cc

passes {ℓ} :
    {T : Type ℓ} (t : Bool) (e : ManagerError) (r : Result T)
    → t ≡ false
    → is_ok r ≡ true
    → is_ok (fail_if t e >> r) ≡ true
passes true e r h k = cc
passes false e r h k = k

-- The parts of a mask that are well-formed.
fragment_of-is_ok :
    (fields : List String) → are_fields fields ≡ true → is_ok (fragment_of fields) ≡ true
fragment_of-is_ok [] h = cc
fragment_of-is_ok (a ∷ []) h = cc
fragment_of-is_ok (a ∷ (b ∷ [])) h = cc
fragment_of-is_ok (a ∷ (b ∷ (c ∷ []))) h =
    passes (not (is_numeric_range a) || (not (is_numeric_range b) || not (c == "tlshello"))) _ _
      (ground (arith, eq_sym c "tlshello")) refl
fragment_of-is_ok (a ∷ (b ∷ (c ∷ (d ∷ r)))) h = cc

given_mask-is_ok :
    (read_json : String → String ⊎ Value) (fm : Option String)
    → map_or false (λ mask. not (is_json_object (read_json mask))) fm ≡ false
    → is_ok (given_mask read_json fm) ≡ true
given_mask-is_ok read_json none h = refl
given_mask-is_ok read_json (some mask) h = by (read_json mask) h
  where
    by : (r : String ⊎ Value) → not (is_json_object r) ≡ false → is_ok (as_mask r) ≡ true
    by (inr (obj m)) h = refl
    by (inr null) h = cc
    by (inr (bool b)) h = cc
    by (inr (num b)) h = cc
    by (inr (str b)) h = cc
    by (inr (arr b)) h = cc
    by (inl e) h = cc

supported :
    (value : String)
    → not (is_supported_fragment value) ≡ false
    → are_fields (split b',' value) ≡ true
unfolding is_supported_fragment
supported value h = ground (arith, h)

push_finalmask-is_ok :
    (mask : Value) {m : Fields} → m ≡ end → is_ok (push_finalmask m "tcp" mask) ≡ true
unfolding push_finalmask
push_finalmask-is_ok mask e = rw e refl

-- What the fragment adds to a mask that is given, if one of them is missing.
with_fragment-is_ok :
    (read_json : String → String ⊎ Value) (fm fragment : Option String) {m : Fields}
    → (fm ≡ none) ⊎ (fragment ≡ none)
    → map_or false (λ value. not (is_supported_fragment value)) fragment ≡ false
    → given_mask read_json fm ≡ ok m
    → is_ok (with_fragment fragment m) ≡ true
with_fragment-is_ok read_json fm none one h g = refl
with_fragment-is_ok read_json fm (some value) (inr q) h g = cc
with_fragment-is_ok read_json fm (some value) {m} (inl q) h g =
    then_ok (fragment_of (split b',' value)) _ (fragment_of-is_ok _ (supported value h))
      (λ mask _. push_finalmask-is_ok mask (sym (ok_inj (ap (given_mask read_json) (sym q) ∙ g))))

is_hysteria2-no :
    (t : Bool) (m : Fields) (r : Result Fields) → t ≡ false → is_ok (if t then r else ok m) ≡ true
is_hysteria2-no t m r h = simp (h) refl

pub render_finalmask-is_ok :
    (read_json : String → String ⊎ Value) (n : Node)
    → n.protocol ≡ vless
    → (extra "fm" n ≡ none) ⊎ (extra "fragment" n ≡ none)
    → map_or false (λ value. not (is_supported_fragment value)) (extra "fragment" n) ≡ false
    → map_or false (λ mask. not (is_json_object (read_json mask))) (extra "fm" n) ≡ false
    → is_ok (render_finalmask read_json n) ≡ true
unfolding render_finalmask
render_finalmask-is_ok read_json n p one h k =
    then_ok (given_mask read_json (extra "fm" n)) _ (given_mask-is_ok read_json _ k) (λ given g.
      then_ok (with_fragment (extra "fragment" n) given) _
        (with_fragment-is_ok read_json _ _ one h g)
        (λ m _.
          then_ok (with_aliases n m) _
            (is_hysteria2-no (has_aliases n) m _
              (ap (λ q. is_hysteria2 q && not (is_some (extra "fm" n))) p))
            (λ _ _. refl)))

pub both : {a b : Bool} → a ≡ true → b ≡ true → (a && b) ≡ true
both h k = ground (arith, h, k)

pub only_if : (t : Bool) {b : Bool} → b ≡ true → (if t then b else true) ≡ true
only_if true h = h
only_if false h = refl
