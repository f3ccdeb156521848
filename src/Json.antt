-- ===== src/Json.antt =====
-- The data model of `serde_json::Value` and the accessors that the source calls. Serialisation to
-- text is not here: where the source prints a value, the printer is a parameter.
pub mod MergePatch
use ch_chaos.Base.{
  ℕ, String, Bool, Option, none, some, List, [], ◌∷◌, if◌then◌else◌, str_eq, is_some,
}

-- `num` is a number that `as_u64` accepts, `other_num` the text of a negative or fractional one.
mutual
  pub data Value : Type 0 where
    null : Value
    bool : Bool → Value
    num : ℕ → Value
    other_num : String → Value
    str : String → Value
    arr : Items → Value
    obj : Members → Value

  pub data Items : Type 0 where
    nil : Items
    cons : Value → Items → Items

  pub data Members : Type 0 where
    end : Members
    member : String → Value → Members → Members

abbrev pub find_member : Members → String → Option Value
find_member end k = none
find_member (member j v ms) k = if str_eq j k then some v else find_member ms k

-- `Value::get` at a text: `None` on anything but an object
abbrev pub get : Value → String → Option Value
get (obj ms) k = find_member ms k
get _ k = none

abbrev pub as_u64 : Value → Option ℕ
as_u64 (num n) = some n
as_u64 _ = none

abbrev pub as_str : Value → Option String
as_str (str s) = some s
as_str _ = none

abbrev pub append_member : Members → String → Value → Members
append_member end k v = member k v end
append_member (member j w ms) k v = member j w (append_member ms k v)

-- `if let Some(obj) = v.as_object_mut() { obj.entry(k).or_insert_with(..) }`
abbrev pub or_insert : Value → String → Value → Value
or_insert (obj ms) k v = if is_some (find_member ms k) then obj ms else obj (append_member ms k v)
or_insert other k v = other

-- an object, and an array, of the values listed
abbrev pub object : List (String × Value) → Value
object l = obj (members l)
  where
    members : List (String × Value) → Members
    members [] = end
    members ((k, v) ∷ l) = member k v (members l)

abbrev pub single : Value → Value
single v = arr (cons v nil)
