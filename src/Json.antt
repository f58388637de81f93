-- ===== src/Json.antt =====
-- The values that `json.loads` gives, as Python sees them: an object is a dict, its keys in order.
-- A float is what the tools observe of it.
use in_c_test.Prelude.{
  zero, suc, Bool, true, false, not, Option, none, some, List, [], ◌∷◌, list_eq, if◌then◌else◌,
}
use in_c_test.Prelude.Int.{ℤ, pos, negsuc}
use in_c_test.Text.{Str, parse_int}

-- What `int` makes of a float.
pub data Whole : Type 0 where
  whole : ℤ → Whole
  infinite not_a_number : Whole

pub record Real : Type 0 where
  pub text : Str
  pub is_zero : Bool
  pub is_negative : Bool
  pub truncated : Whole

mutual
  pub data Json : Type 0 where
    null : Json
    bool : Bool → Json
    int : ℤ → Json
    real : Real → Json
    str : Str → Json
    arr : Items → Json
    obj : Fields → Json

  pub data Items : Type 0 where
    nil : Items
    cons : Json → Items → Items

  pub data Fields : Type 0 where
    end : Fields
    field : Str → Json → Fields → Fields

abbrev pub items : Items → List Json
items nil = []
items (cons v vs) = v ∷ items vs

abbrev pub arr_of : List Json → Items
arr_of [] = nil
arr_of (v ∷ vs) = cons v (arr_of vs)

-- `d.get(key)`
unfoldable pub get : Str → Fields → Option Json
unfolding list_eq
get key end = none
get key (field k v fs) = let rest = get key fs in if list_eq k key then some v else rest

abbrev pub default : Json → Option Json → Json
default d none = d
default d (some v) = v

-- `d.get(key, d)`
abbrev pub get_or_default : Str → Json → Fields → Json
get_or_default key d fs = default d (get key fs)

-- `bool(v)`
abbrev pub truthy : Json → Bool
truthy null = false
truthy (bool b) = b
truthy (int (pos zero)) = false
truthy (int (pos (suc n))) = true
truthy (int (negsuc n)) = true
truthy (real r) = not r.is_zero
truthy (str []) = false
truthy (str (c ∷ s)) = true
truthy (arr nil) = false
truthy (arr (cons v vs)) = true
truthy (obj end) = false
truthy (obj (field k v fs)) = true

abbrev pub whole_of : Whole → Option ℤ
whole_of (whole n) = some n
whole_of infinite = none
whole_of not_a_number = none

-- `int(v)`, `none` where it raises
unfoldable pub to_int : Json → Option ℤ
unfolding parse_int
to_int (int n) = some n
to_int (bool b) = some (if b then pos 1 else pos 0)
to_int (real r) = whole_of r.truncated
to_int (str s) = parse_int s
to_int null = none
to_int (arr vs) = none
to_int (obj fs) = none

-- `v == text`
abbrev pub is_str : Str → Json → Bool
is_str text (str s) = list_eq s text
is_str text _ = false
