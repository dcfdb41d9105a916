-- ===== src/Config/Merge.antt =====
-- src/config/merge.rs, and the queries of src/config/effective.rs.
use rch_mac.Base.{
  Option, none, some, Text, List, [], ◌∷◌, Value, null, bool, unsigned, other_number, string, array,
  object, Members, end, member, find_member, remove_member, insert_member, get_key,
}

-- The loop over the overlay's members stands in `merge_members`.
unfoldable mutual
  pub deep_merge : Value → Value → Value
  deep_merge b (object o) = elim b [ object m ↦ object (merge_members m o) | _ ↦ object o ]
  deep_merge _ null = null
  deep_merge _ (bool x) = bool x
  deep_merge _ (unsigned n) = unsigned n
  deep_merge _ (other_number t) = other_number t
  deep_merge _ (string s) = string s
  deep_merge _ (array l) = array l

  pub merge_members : Members → Members → Members
  merge_members b end = b
  merge_members b (member k v o) =
      let merged : Value = elim (find_member k b) [ none ↦ v | some w ↦ deep_merge w v ] in
      merge_members (insert_member k merged (remove_member k b)) o

unfoldable pub merge_from : Value → List Value → Value
unfolding deep_merge
merge_from acc [] = acc
merge_from acc (l ∷ ls) = merge_from (deep_merge acc l) ls

unfoldable pub merge_layers : List Value → Value
unfolding merge_from
merge_layers layers = merge_from null layers

-- `EffectiveConfig::get` on the parts of a path between the dots.
unfoldable pub get_path : List Text → Value → Option Value
get_path [] v = some v
get_path (k ∷ ks) v = elim (get_key k v) [ none ↦ none | some w ↦ get_path ks w ]
