-- ===== src/Value.antt =====
-- What `json.loads` can return, and the tests that the code makes on a value of type `Any`.
use aioproxmox.Prelude.{
  ℕ, ℤ, pos, negsuc, String, Bool, true, false, not, ◌||◌, Option, none, some, List, [], ◌∷◌, ◌==◌,
  nonempty,
}
use aioproxmox.Prelude.Dict
use aioproxmox.Prelude.Int.{pos_part, neg_part}
use aioproxmox.Errors.{Result, ok, err, key_error, type_error, attribute_error}

-- A finite float is `mantissa / 2 ^ scale`, exactly.
pub record Float : Type 0 where
  pub mantissa : ℤ
  pub scale : ℕ

mutual
  pub data Value : Type 0 where
    null : Value
    bool : Bool → Value
    int : ℤ → Value
    float : Float → Value
    str : String → Value
    obj : Fields → Value
    arr : Items → Value

  pub data Fields : Type 0 where
    end : Fields
    -- a key and what stands under it, then the entries after it
    field : String → Value → Fields → Fields

  pub data Items : Type 0 where
    nil : Items
    cons : Value → Items → Items

unfoldable pub items : Items → List Value
items nil = []
items (cons v vs) = v ∷ items vs

unfoldable pub fields : Fields → Dict.Dict Value
fields end = []
fields (field k v fs) = (k, v) ∷ fields fs

-- isinstance(value, dict) and isinstance(value, list), with what they hold
unfoldable pub as_dict : Value → Option (Dict.Dict Value)
unfolding fields
as_dict (obj fs) = some (fields fs)
as_dict _ = none

unfoldable pub as_list : Value → Option (List Value)
unfolding items
as_list (arr vs) = some (items vs)
as_list _ = none

abbrev pub as_str : Value → Option String
as_str (str s) = some s
as_str _ = none

-- `d.get(k)`: a missing key reads as None.
unfoldable pub get : String → Dict.Dict Value → Value
unfolding Dict.lookup
get k d = elim (Dict.lookup k d) [ none ↦ null | some v ↦ v ]

-- `value.get(key)`
unfoldable pub get_of : Value → String → Result Value
unfolding as_dict get
get_of value key = elim (as_dict value) [
  | none ↦ err (attribute_error "get")
  | some d ↦ ok (get key d)
]

-- `value[k]` at a text key
unfoldable pub subscript : Value → String → Result Value
unfolding fields Dict.lookup
subscript (obj fs) k = elim (Dict.lookup k (fields fs)) [ none ↦ err (key_error k) | some v ↦ ok v ]
subscript _ k = err type_error

-- bool(value)
unfoldable pub truthy : Value → Bool
truthy null = false
truthy (bool b) = b
truthy (int (pos n)) = not (n == 0)
truthy (int (negsuc n)) = true
truthy (float f) = not (pos_part f.mantissa == 0) || not (neg_part f.mantissa == 0)
truthy (str s) = nonempty s
truthy (arr nil) = false
truthy (arr (cons v vs)) = true
truthy (obj end) = false
truthy (obj (field k v fs)) = true
