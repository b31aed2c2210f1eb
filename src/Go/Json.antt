-- ===== src/Go/Json.antt =====
-- encoding/json, on values: what the program sends, and how a struct takes it. A key is matched as it
-- is; Go's decoder would take another letter case too, which no part of the program sends.
use uran_api.Prelude.{
  ◌^◌, ℤ, pos, negsuc, String, Text, Bool, true, false, ◌&&◌, Option, none, some, List, [], ◌==◌,
  string_eq, if◌then◌else◌, any, ltb,
}

mutual
  pub data Json : Type 0 where
    null : Json
    boolean : Bool → Json
    number : ℤ → Json
    text : Text → Json
    arr : Elems → Json
    obj : Members → Json

  pub data Elems : Type 0 where
    nil : Elems
    elem : Json → Elems → Elems

  -- The keys of an object, with their values.
  pub data Members : Type 0 where
    end : Members
    member : String → Json → Members → Members

-- The value of a key; the last one, if it comes twice.
unfoldable pub value_of : String → Members → Option Json
value_of key end = none
value_of key (member k v ms) =
    let later = value_of key ms in
    elim later [ some w ↦ some w | none ↦ if k == key then some v else none ]

-- `DisallowUnknownFields`
unfoldable pub only : List String → Members → Bool
only known end = true
only known (member k v ms) = any (λ name. k == name) known && only known ms

-- A field of type string, bool or int32: its zero value where the key is missing or null, nothing
-- where the value is of another kind.
unfoldable pub text_field : Option Json → Option Text
text_field none = some []
text_field (some null) = some []
text_field (some (text t)) = some t
text_field (some _) = none

unfoldable pub bool_field : Option Json → Option Bool
bool_field none = some false
bool_field (some null) = some false
bool_field (some (boolean b)) = some b
bool_field (some _) = none

unfoldable pub in_int32 : ℤ → Bool
in_int32 (pos n) = ltb n (2 ^ 31)
in_int32 (negsuc n) = ltb n (2 ^ 31)

unfoldable pub int32_field : Option Json → Option ℤ
unfolding in_int32
int32_field none = some (pos 0)
int32_field (some null) = some (pos 0)
int32_field (some (number z)) = if in_int32 z then some z else none
int32_field (some _) = none

-- The members that a struct with these fields takes from a body; `null` sets none of them.
unfoldable pub struct_of : List String → Option Json → Option Members
unfolding only
struct_of known none = none
struct_of known (some null) = some end
struct_of known (some (obj ms)) = if only known ms then some ms else none
struct_of known (some _) = none
