-- ===== src/Core/Json.antt =====
-- The values of `serde_json`. A map is known by what its keys look up; numbers are unsigned.
use text.Mathlib.TextPositions.{eq_refl}
use xrayctl.Common.{
  ℕ, String, Bool, Option, none, some, List, [], ◌∷◌, ◌==◌, ◌≡◌, refl, arith, eq_iff, if◌then◌else◌,
}

mutual
  pub data Value : Type 0 where
    null : Value
    bool : Bool → Value
    num : ℕ → Value
    str : String → Value
    arr : Items → Value
    obj : Fields → Value

  pub data Items : Type 0 where
    nil : Items
    item : Value → Items → Items

  pub data Fields : Type 0 where
    end : Fields
    field : String → Value → Fields → Fields

unfoldable pub get : String → Fields → Option Value
get k end = none
get k (field j v m) = if j == k then some v else get k m

-- `Map::insert`.
unfoldable pub insert : String → Value → Fields → Fields
insert k v end = field k v end
insert k v (field j w m) = if j == k then field k v m else field j w (insert k v m)

pub get-insert :
    (k j : String) (v : Value) (m : Fields)
    → get j (insert k v m) ≡ (if k == j then some v else get j m)
unfolding get insert
get-insert k j v end = refl
get-insert k j v (field i w m) =
    ground (arith, eq_iff k j, eq_iff i k, eq_iff i j, get-insert k j v m)

pub get-insert_self : (k : String) (v : Value) (m : Fields) → get k (insert k v m) ≡ some v
get-insert_self k v m = rw (get-insert, eq_refl)

-- `json!` of a list, of a list of texts and of an optional text.
abbrev pub items : List Value → Items
items [] = nil
items (v ∷ vs) = item v (items vs)

abbrev pub texts : List String → Value
texts ss = arr (go ss)
  where
    go : List String → Items
    go [] = nil
    go (s ∷ r) = item (str s) (go r)

abbrev pub optional : Option String → Value
optional none = null
optional (some s) = str s

-- `json!({ … })` with these fields, under distinct keys.
abbrev pub object : List (String × Value) → Fields
object [] = end
object ((k, v) ∷ r) = field k v (object r)
