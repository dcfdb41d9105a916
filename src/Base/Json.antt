-- ===== src/Base/Json.antt =====
-- `serde_json::Value`: a number is kept as what `as_u64` answers, any other number as its spelling.
-- An object is a list of members, whose order stands for the order of iteration.
use rch_mac.Base.Tests.{ℕ, Bool, true, false, Option, none, some, if◌then◌else◌}
use rch_mac.Base.Lists.{◌≡◌, refl, arith}
use rch_mac.Base.Strings.{Text, text_eq, text_eq_iff}

mutual
  pub data Value : Type 0 where
    null : Value
    bool : Bool → Value
    unsigned : ℕ → Value
    other_number : Text → Value
    string : Text → Value
    array : Values → Value
    object : Members → Value

  pub data Values : Type 0 where
    nil : Values
    cons : Value → Values → Values

  pub data Members : Type 0 where
    end : Members
    member : Text → Value → Members → Members

abbrev pub is_object : Value → Bool
is_object (object m) = true
is_object _ = false

abbrev pub is_array : Value → Bool
is_array (array l) = true
is_array _ = false

abbrev pub as_u64 : Value → Option ℕ
as_u64 (unsigned n) = some n
as_u64 _ = none

abbrev pub as_str : Value → Option Text
as_str (string s) = some s
as_str _ = none

-- `get`, `remove` and `insert` of a `serde_json::Map`.
unfoldable pub find_member : Text → Members → Option Value
find_member k end = none
find_member k (member j v m) = if text_eq j k then some v else find_member k m

unfoldable pub remove_member : Text → Members → Members
remove_member k end = end
remove_member k (member j v m) =
    if text_eq j k then remove_member k m else member j v (remove_member k m)

unfoldable pub insert_member : Text → Value → Members → Members
insert_member k v end = member k v end
insert_member k v (member j w m) =
    if text_eq j k then member j v m else member j w (insert_member k v m)

-- `Value::get` with a key.
unfoldable pub get_key : Text → Value → Option Value
get_key k (object m) = find_member k m
get_key k _ = none

pub find-insert_member :
    (k j : Text) (v : Value) (m : Members)
    → find_member j (insert_member k v m) ≡ (if text_eq k j then some v else find_member j m)
unfolding find_member insert_member
find-insert_member k j v end = refl
find-insert_member k j v (member i w m) =
    ground (arith, text_eq_iff k j, text_eq_iff i k, text_eq_iff i j, find-insert_member k j v m)

pub find-remove_member :
    (k j : Text) (m : Members)
    → find_member j (remove_member k m) ≡ (if text_eq k j then none else find_member j m)
unfolding find_member remove_member
find-remove_member k j end = ground arith
find-remove_member k j (member i w m) =
    ground (arith, text_eq_iff k j, text_eq_iff i k, text_eq_iff i j, find-remove_member k j m)
