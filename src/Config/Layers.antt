-- ===== src/Config/Layers.antt =====
-- What the merge of src/config/merge.rs keeps of each layer.
use mathlib.Core.Option.{some-injective}
use rch_mac.Base.{
  subst, Bool, true, false, Option, none, some, Text, text_eq, text_eq_iff, List, [], ◌∷◌, ◌++◌,
  Value, null, bool, unsigned, other_number, string, array, object, Members, end, member, is_object,
  find_member, remove_member, insert_member, find-insert_member, find-remove_member, get_key, All,
  Option-cases, Bool-cases, inl, inr, ◌≡◌, refl, ◌∙◌, ap, arith,
}
use rch_mac.Config.Merge.{deep_merge, merge_members, merge_from, merge_layers, get_path}

-- No key stands twice in an object, on every level.
unfoldable mutual
  pub IsDistinct : Value → Type 0
  IsDistinct (object m) = IsDistinctMembers m
  IsDistinct _ = Unit

  pub IsDistinctMembers : Members → Type 0
  IsDistinctMembers end = Unit
  IsDistinctMembers (member k v m) = (find_member k m ≡ none) × IsDistinct v × IsDistinctMembers m

-- What the merge of two objects has under a key.
abbrev pub both : Option Value → Option Value → Option Value
both b none = b
both none (some v) = some v
both (some w) (some v) = some (deep_merge w v)

find-merge_members :
    (k : Text) (b o : Members)
    → IsDistinctMembers o
    → find_member k (merge_members b o) ≡ both (find_member k b) (find_member k o)
unfolding deep_merge find_member IsDistinct
find-merge_members k b end h = refl
find-merge_members k b (member j v o) h =
    let merged : Value = elim (find_member j b) [ none ↦ v | some w ↦ deep_merge w v ] in
    let rest = find-merge_members k (insert_member j merged (remove_member j b)) o h.2 in
    let put = find-insert_member j k merged (remove_member j b) in
    let gone = find-remove_member j k b in
    let new = h.0 in
    elim (Bool-cases (text_eq j k)) [
      | inl e ↦
          let same = (text_eq_iff j k).0 e in
          elim (Option-cases (find_member j b)) [ inl f ↦ ground arith | inr (w, f) ↦ ground arith ]
      | inr e ↦ elim (Option-cases (find_member k o)) [
        | inl f ↦ ground arith
        | inr (w, f) ↦ elim (Option-cases (find_member k b)) [
          | inl g ↦ ground arith
          | inr (u, g) ↦ ground arith
        ]
      ]
    ]

find-IsDistinct :
    (k : Text) (m : Members) (v : Value)
    → IsDistinctMembers m
    → find_member k m ≡ some v
    → IsDistinct v
unfolding IsDistinct find_member
find-IsDistinct k end v h e = absurd (ground arith)
find-IsDistinct k (member j w m) v h e = elim (Bool-cases (text_eq j k)) [
  | inl q ↦ let same : w ≡ v = ground arith in subst IsDistinct same h.1
  | inr q ↦ find-IsDistinct k m v h.2 (ground arith)
]

deep_merge-scalar : (b v : Value) → is_object v ≡ false → deep_merge b v ≡ v
unfolding deep_merge
deep_merge-scalar b null h = refl
deep_merge-scalar b (bool x) h = refl
deep_merge-scalar b (unsigned n) h = refl
deep_merge-scalar b (other_number t) h = refl
deep_merge-scalar b (string s) h = refl
deep_merge-scalar b (array l) h = refl
deep_merge-scalar b (object o) h = absurd (ground arith)

-- Under a key of two objects; where the base is no object the overlay stands.
get_key-deep_merge :
    (k : Text) (b : Value) (o : Members)
    → IsDistinctMembers o
    → get_key k (deep_merge b (object o)) ≡ both (get_key k b) (find_member k o)
unfolding deep_merge get_key
get_key-deep_merge k (object m) o h = find-merge_members k m o h
get_key-deep_merge k null o h = ground arith
get_key-deep_merge k (bool x) o h = ground arith
get_key-deep_merge k (unsigned n) o h = ground arith
get_key-deep_merge k (other_number t) o h = ground arith
get_key-deep_merge k (string s) o h = ground arith
get_key-deep_merge k (array l) o h = ground arith

-- A value that is no object, which the overlay has on a path, is what the merge has there.
pub deep_merge-overlay :
    (path : List Text) (b o v : Value)
    → IsDistinct o
    → is_object v ≡ false
    → get_path path o ≡ some v
    → get_path path (deep_merge b o) ≡ some v
unfolding get_path IsDistinct get_key
deep_merge-overlay [] b o v d s h =
    let same : o ≡ v = some-injective _ _ h in
    ap some (deep_merge-scalar b o (ap is_object same ∙ s) ∙ same)
deep_merge-overlay (k ∷ ks) b (object m) v d s h =
    let here = get_key-deep_merge k b m d in
    elim (Option-cases (find_member k m)) [
      | inl e ↦ absurd (ground arith)
      | inr (w, e) ↦ elim (Option-cases (get_key k b)) [
        | inl f ↦ ground arith
        | inr (u, f) ↦
            let rest = deep_merge-overlay ks u w v (find-IsDistinct k m w d e) s (ground arith) in
            ground arith
      ]
    ]
deep_merge-overlay (k ∷ ks) b null v d s h = absurd (ground arith)
deep_merge-overlay (k ∷ ks) b (bool x) v d s h = absurd (ground arith)
deep_merge-overlay (k ∷ ks) b (unsigned n) v d s h = absurd (ground arith)
deep_merge-overlay (k ∷ ks) b (other_number t) v d s h = absurd (ground arith)
deep_merge-overlay (k ∷ ks) b (string t) v d s h = absurd (ground arith)
deep_merge-overlay (k ∷ ks) b (array l) v d s h = absurd (ground arith)

-- A layer of objects in which a path leads nowhere, so that it says nothing about the path.
unfoldable pub silent : List Text → Value → Bool
silent [] o = false
silent (k ∷ ks) (object m) = elim (find_member k m) [ none ↦ true | some w ↦ silent ks w ]
silent (k ∷ ks) _ = false

silent-get_path : (path : List Text) (o : Value) → silent path o ≡ true → get_path path o ≡ none
unfolding silent get_path get_key
silent-get_path [] o h = absurd (ground arith)
silent-get_path (k ∷ ks) (object m) h = elim (Option-cases (find_member k m)) [
  | inl e ↦ ground arith
  | inr (w, e) ↦ let rest = silent-get_path ks w (ground arith) in ground arith
]
silent-get_path (k ∷ ks) null h = refl
silent-get_path (k ∷ ks) (bool x) h = refl
silent-get_path (k ∷ ks) (unsigned n) h = refl
silent-get_path (k ∷ ks) (other_number t) h = refl
silent-get_path (k ∷ ks) (string s) h = refl
silent-get_path (k ∷ ks) (array l) h = refl

-- An overlay that says nothing about a path leaves what the base has there.
pub deep_merge-silent :
    (path : List Text) (b o : Value)
    → IsDistinct o
    → silent path o ≡ true
    → get_path path (deep_merge b o) ≡ get_path path b
unfolding get_path IsDistinct silent
deep_merge-silent [] b o d h = absurd (ground arith)
deep_merge-silent (k ∷ ks) b (object m) d h =
    let here = get_key-deep_merge k b m d in
    elim (Option-cases (find_member k m)) [
      | inl e ↦ ground arith
      | inr (w, e) ↦ elim (Option-cases (get_key k b)) [
        | inl f ↦ let rest = silent-get_path ks w (ground arith) in ground arith
        | inr (u, f) ↦
            let rest = deep_merge-silent ks u w (find-IsDistinct k m w d e) (ground arith) in
            ground arith
      ]
    ]
deep_merge-silent (k ∷ ks) b null d h = absurd (ground arith)
deep_merge-silent (k ∷ ks) b (bool x) d h = absurd (ground arith)
deep_merge-silent (k ∷ ks) b (unsigned n) d h = absurd (ground arith)
deep_merge-silent (k ∷ ks) b (other_number t) d h = absurd (ground arith)
deep_merge-silent (k ∷ ks) b (string s) d h = absurd (ground arith)
deep_merge-silent (k ∷ ks) b (array l) d h = absurd (ground arith)

merge_from-silent :
    (path : List Text) (acc : Value) (after : List Value)
    → All IsDistinct after
    → All (λ o. silent path o ≡ true) after
    → get_path path (merge_from acc after) ≡ get_path path acc
unfolding merge_from
merge_from-silent path acc [] d s = refl
merge_from-silent path acc (o ∷ after) d s =
    merge_from-silent path (deep_merge acc o) after d.1 s.1 ∙ deep_merge-silent path acc o d.0 s.0

merge_from-append :
    (acc : Value) (xs ys : List Value)
    → merge_from acc (xs ++ ys) ≡ merge_from (merge_from acc xs) ys
unfolding merge_from
merge_from-append acc [] ys = refl
merge_from-append acc (x ∷ xs) ys = merge_from-append (deep_merge acc x) xs ys

-- What a layer has on a path, unless it is an object, is what the merged configuration has there when
-- the layers after it say nothing about the path, whatever the layers before it say.
pub merge_layers-last :
    (path : List Text) (before after : List Value) (layer v : Value)
    → IsDistinct layer
    → All IsDistinct after
    → All (λ o. silent path o ≡ true) after
    → is_object v ≡ false
    → get_path path layer ≡ some v
    → get_path path (merge_layers (before ++ layer ∷ after)) ≡ some v
unfolding merge_layers merge_from
merge_layers-last path before after layer v d ds quiet s h =
    ap (get_path path) (merge_from-append null before (layer ∷ after))
    ∙ merge_from-silent path (deep_merge (merge_from null before) layer) after ds quiet
    ∙ deep_merge-overlay path (merge_from null before) layer v d s h
