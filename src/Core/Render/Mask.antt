-- ===== src/Core/Render/Mask.antt =====
-- `render_finalmask` of render.rs and what it calls.
use xrayctl.Common.{
  String, ◌<>◌, Bool, true, false, not, ◌&&◌, ◌||◌, Option, none, some, List, [], ◌∷◌, ◌==◌, ◌⊎◌,
  inl, inr, split, parse_uint, is_some, map_or, if◌then◌else◌,
}
use xrayctl.Common.Assoc
use xrayctl.Core.Error.{validation, Result, ok, err, fail_if, ok_or, ◌>>=◌, ◌>>◌}
use xrayctl.Core.Domain.{Node, Protocol, hysteria2}
use xrayctl.Core.Json.{
  Value, Items, Fields, str, arr, obj, nil, item, end, field, get, insert, object,
}

unfoldable pub extra : String → Node → Option String
unfolding Assoc.get
extra key node = Assoc.get (λ a b. a == b) key node.extra

-- The pieces of `split('-')` are two numbers of 32 bits.
abbrev is_u32 : String → Bool
is_u32 s = is_some (parse_uint 4294967295 s)

abbrev are_bounds : List String → Bool
are_bounds (start ∷ (last ∷ [])) = is_u32 start && is_u32 last
are_bounds _ = false

unfoldable pub is_numeric_range : String → Bool
unfolding split parse_uint
is_numeric_range value = are_bounds (split b'-' value)

-- `Vec::push`.
abbrev pub pushed : Items → Value → Items
pushed nil mask = item mask nil
pushed (item v more) mask = item v (pushed more mask)

abbrev pub push_to : Fields → String → Value → Option Value → Result Fields
push_to m direction mask none = ok (insert direction (arr (item mask nil)) m)
push_to m direction mask (some (arr vs)) = ok (insert direction (arr (pushed vs mask)) m)
push_to m direction mask (some _) =
    err (validation ("FinalMask " <> (direction <> " must be an array")))

unfoldable pub push_finalmask : Fields → String → Value → Result Fields
unfolding get insert
push_finalmask m direction mask = push_to m direction mask (get direction m)

abbrev pub is_hysteria2 : Protocol → Bool
is_hysteria2 hysteria2 = true
is_hysteria2 _ = false

-- The text `fragment`, split at its commas.
abbrev pub fragment_of : List String → Result Value
fragment_of (length ∷ (delay ∷ (packets ∷ []))) =
    fail_if
      (not (is_numeric_range length)
        || (not (is_numeric_range delay) || not (packets == "tlshello")))
      (validation "fragment must use length,delay,tlshello")
    >> ok (
        obj (
          object (
            ("type", str "fragment")
            ∷ (
              "settings",
              obj (
                  object (
                    ("length", str length) ∷ ("delay", str delay) ∷ ("packets", str packets) ∷ [])),
            )
            ∷ [])))
fragment_of _ = err (validation "fragment must use length,delay,tlshello")

abbrev pub with_fragment : Option String → Fields → Result Fields
with_fragment none m = ok m
with_fragment (some fragment) m =
    fragment_of (split b',' fragment) >>= λ mask. push_finalmask m "tcp" mask

abbrev pub is_salamander : Node → Bool
is_salamander node = map_or false (λ value. value == "salamander") (extra "obfs" node)

abbrev pub salamander : Node → Fields → Result Fields
salamander node m =
    ok_or (extra "obfs-password" node) (validation "missing obfs-password") >>= λ password.
    push_finalmask m "udp" (
      obj (
        object (
          ("type", str "salamander")
          ∷ ("settings", obj (object (("password", str password) ∷ [])))
          ∷ [])))

unfoldable pub with_obfs : Node → Fields → Result Fields
unfolding extra push_finalmask
with_obfs node m = if is_salamander node then salamander node m else ok m

-- `entry(key).or_insert_with(…)`.
abbrev pub or_insert : String → Option Value → Fields → Fields
or_insert key none m = m
or_insert key (some value) m = if is_some (get key m) then m else insert key value m

abbrev hop : Option String → Option Value
hop none = none
hop (some ports) = some (obj (object (("ports", str ports) ∷ [])))

abbrev speed : Option String → Option Value
speed none = none
speed (some value) = some (str (value <> " mbps"))

abbrev with_params : Node → Fields → Fields
with_params node quic = or_insert "brutalDown" (speed (extra "downmbps" node)) (
    or_insert "brutalUp" (speed (extra "upmbps" node))
      (or_insert "udpHop" (hop (extra "mport" node)) quic))

abbrev pub quic_of : Option Value → Result Fields
quic_of none = ok end
quic_of (some (obj quic)) = ok quic
quic_of (some _) = err (validation "FinalMask quicParams must be an object")

abbrev pub has_quic : Node → Bool
has_quic node =
    is_some (extra "mport" node)
    || (is_some (extra "upmbps" node) || is_some (extra "downmbps" node))

abbrev pub quic_params : Node → Fields → Result Fields
quic_params node m = quic_of (get "quicParams" m) >>= λ quic.
    ok (insert "quicParams" (obj (with_params node quic)) m)

unfoldable pub with_quic : Node → Fields → Result Fields
unfolding extra get insert
with_quic node m = if has_quic node then quic_params node m else ok m

abbrev pub has_aliases : Node → Bool
has_aliases node = is_hysteria2 node.protocol && not (is_some (extra "fm" node))

abbrev pub with_aliases : Node → Fields → Result Fields
with_aliases node m =
    if has_aliases node then (with_obfs node m >>= λ masked. with_quic node masked) else ok m

abbrev pub non_empty : Fields → Option Value
non_empty end = none
non_empty (field key value more) = some (obj (field key value more))

abbrev pub as_mask : String ⊎ Value → Result Fields
as_mask (inl failure) = err (validation ("invalid FinalMask fm JSON: " <> failure))
as_mask (inr (obj mask)) = ok mask
as_mask (inr _) = err (validation "FinalMask fm must be a JSON object")

module _ (read_json : String → String ⊎ Value) where
  abbrev pub given_mask : Option String → Result Fields
  given_mask none = ok end
  given_mask (some encoded) = as_mask (read_json encoded)

  unfoldable pub render_finalmask : Node → Result (Option Value)
  unfolding extra push_finalmask with_obfs with_quic split is_numeric_range
  render_finalmask node = given_mask (extra "fm" node) >>= λ given.
      (with_fragment (extra "fragment" node) given >>= λ fragmented.
      (with_aliases node fragmented >>= λ mask. ok (non_empty mask)))
