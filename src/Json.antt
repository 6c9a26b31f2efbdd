-- ===== src/Json.antt =====
-- What `json.loads` returns and what the code asks of it: the type tests and comparisons of
-- labztna/auth.py and labztna/gateway.py on decoded values.
pub mod Inversion
use ztna_lab.Base.{
  text_key, ℕ, suc, ◌+◌, ◌-◌, Bool, true, false, Option, none, some, List, [], ◌∷◌, ltb, leb, ◌==◌,
  if◌then◌else◌, Text, text_eq, contains, ◌>>?◌,
}

-- A Python `int`: `negsuc n` is `-(n + 1)`.
pub data ℤ : Type 0 where
  pos negsuc : ℕ → ℤ

-- `a < b`
abbrev pub less : ℤ → ℤ → Bool
less (pos a) (pos b) = ltb a b
less (pos a) (negsuc b) = false
less (negsuc a) (pos b) = true
less (negsuc a) (negsuc b) = ltb b a

-- `a + n`
abbrev pub plus : ℤ → ℕ → ℤ
plus (pos a) n = pos (a + n)
plus (negsuc a) n = if leb n a then negsuc (a - n) else pos (n - suc a)

-- `abs(n - a)`
abbrev pub distance : ℕ → ℤ → ℕ
distance n (pos a) = if leb a n then n - a else a - n
distance n (negsuc a) = n + suc a

-- A float is kept as the integer that it equals, if there is one: no code here asks more of it.
mutual
  pub data Json : Type 0 where
    null : Json
    boolean : Bool → Json
    number : ℤ → Json
    real : Option ℤ → Json
    text : Text → Json
    array : Items → Json
    object : Fields → Json

  pub data Items : Type 0 where
    no_item : Items
    item : Json → Items → Items

  pub data Fields : Type 0 where
    no_field : Fields
    field : Text → Json → Fields → Fields

-- `d.get(key)`
unfoldable pub lookup : Text → Fields → Option Json
lookup key no_field = none
lookup key (field name value rest) = if text_eq name key then some value else lookup key rest

-- The value, if it is a `str`; an `int` that is no `bool`; a `dict`.
abbrev pub as_text : Option Json → Option Text
as_text (some (text t)) = some t
as_text _ = none

abbrev pub as_int : Option Json → Option ℤ
as_int (some (number n)) = some n
as_int _ = none

abbrev pub as_fields : Json → Option Fields
as_fields (object d) = some d
as_fields _ = none

-- The items, if each of them is a `str`.
unfoldable pub all_texts : Items → Option (List Text)
all_texts no_item = some []
all_texts (item j rest) = as_text (some j) >>? λ t. all_texts rest >>? λ ts. some (t ∷ ts)

abbrev pub as_texts : Option Json → Option (List Text)
as_texts (some (array items)) = all_texts items
as_texts _ = none

-- `value == s` for a text, and `value == n` for a number, to which `True` and a float may be equal.
abbrev pub is_text : Text → Option Json → Bool
is_text s (some (text t)) = text_eq t s
is_text s _ = false

abbrev pub is_int : ℕ → Option Json → Bool
is_int n (some (number (pos m))) = m == n
is_int n (some (boolean b)) = (if b then 1 else 0) == n
is_int n (some (real (some (pos m)))) = m == n
is_int n _ = false

-- `d[key] = value`
unfoldable pub assign : Text → Json → Fields → Fields
assign key value no_field = field key value no_field
assign key value (field name old rest) =
    if text_eq name key then field name value rest else field name old (assign key value rest)

unfoldable pub field_names : Fields → List Text
field_names no_field = []
field_names (field name value rest) = name ∷ field_names rest

-- The fields whose name is not among `names`.
unfoldable pub without : List Text → Fields → Fields
without names no_field = no_field
without names (field name value rest) =
    let kept = without names rest in if contains name names then kept else field name value kept

-- A value that may be missing, as `d.get(key)` puts it into another `dict`.
abbrev pub or_null : Option Json → Json
or_null (some j) = j
or_null none = null

abbrev pub object_in : Option Json → Option Fields
object_in (some j) = as_fields j
object_in none = none

abbrev pub array_in : Option Json → Option Items
array_in (some (array items)) = some items
array_in _ = none
