-- ===== src/Base/Maps.antt =====
-- A `HashMap<String, V>` as a list of entries with distinct keys. An insert replaces the value of a
-- key that is there. The order of the list stands for the order of iteration, which the source
-- leaves open: what iterates takes a permutation of the list.
use rch_mac.Base.Tests.{ℕ, suc, ◌≤◌, Bool, true, Option, none, some, is_some, if◌then◌else◌}
use rch_mac.Base.Lists.{List, [], ◌∷◌, ◌++◌, ◌≡◌, refl, arith}
use rch_mac.Base.Strings.{Text, text_eq, text_eq_iff}

abbrev pub Dict {ℓ} : Type ℓ → Type ℓ
Dict V = List (Text × V)

module _ {ℓ} {V : Type ℓ} where
  unfoldable pub get : Text → Dict V → Option V
  get k [] = none
  get k ((j, v) ∷ m) = if text_eq j k then some v else get k m

  unfoldable pub insert : Text → V → Dict V → Dict V
  insert k v [] = (k, v) ∷ []
  insert k v ((j, w) ∷ m) = if text_eq j k then (j, v) ∷ m else (j, w) ∷ insert k v m

  unfoldable pub remove : Text → Dict V → Dict V
  remove k [] = []
  remove k ((j, w) ∷ m) = if text_eq j k then remove k m else (j, w) ∷ remove k m

  -- `get_mut` and an update of what it finds.
  unfoldable pub modify : Text → (V → V) → Dict V → Dict V
  modify k f [] = []
  modify k f ((j, v) ∷ m) = if text_eq j k then (j, f v) ∷ m else (j, v) ∷ modify k f m

  -- `values().filter(p).count()`
  unfoldable pub count_values : (V → Bool) → Dict V → ℕ
  count_values p [] = 0
  count_values p ((j, v) ∷ m) = let rest = count_values p m in if p v then suc rest else rest

  -- The entries that pass a test.
  unfoldable pub retain : (V → Bool) → Dict V → Dict V
  retain p [] = []
  retain p ((j, v) ∷ m) = let rest = retain p m in if p v then (j, v) ∷ rest else rest

  abbrev pub contains_key : Text → Dict V → Bool
  contains_key k m = is_some (get k m)

  -- No key stands twice.
  abbrev pub IsDict : Dict V → Type ℓ
  IsDict [] = Unit
  IsDict ((k, v) ∷ m) = (get k m ≡ none) × IsDict m

  pub get-insert :
      (k j : Text) (v : V) (m : Dict V)
      → get j (insert k v m) ≡ (if text_eq k j then some v else get j m)
  unfolding get insert
  get-insert k j v [] = refl
  get-insert k j v ((i, w) ∷ m) =
      ground (arith, text_eq_iff k j, text_eq_iff i k, text_eq_iff i j, get-insert k j v m)

  pub get-remove :
      (k j : Text) (m : Dict V) → get j (remove k m) ≡ (if text_eq k j then none else get j m)
  unfolding get remove
  get-remove k j [] = ground arith
  get-remove k j ((i, w) ∷ m) =
      ground (arith, text_eq_iff k j, text_eq_iff i k, text_eq_iff i j, get-remove k j m)

  pub insert-IsDict : (k : Text) (v : V) (m : Dict V) → IsDict m → IsDict (insert k v m)
  unfolding get insert
  insert-IsDict k v [] h = (refl, tt)
  insert-IsDict k v ((i, w) ∷ m) h =
      ground (arith, text_eq_iff k i, text_eq_iff i k, get-insert k i v m, insert-IsDict k v m h.1)

  pub remove-IsDict : (k : Text) (m : Dict V) → IsDict m → IsDict (remove k m)
  unfolding get remove
  remove-IsDict k [] h = tt
  remove-IsDict k ((i, w) ∷ m) h =
      ground (arith, text_eq_iff k i, get-remove k i m, remove-IsDict k m h.1)

  pub get-insert_self : (k : Text) (v : V) (m : Dict V) → get k (insert k v m) ≡ some v
  get-insert_self k v m = ground (arith, get-insert k k v m, text_eq_iff k k)

  pub get-append_none :
      (k : Text) (m n : Dict V) → get k (m ++ n) ≡ none → (get k m ≡ none) × (get k n ≡ none)
  unfolding get
  get-append_none k [] n h = (refl, h)
  get-append_none k ((i, w) ∷ m) n h = ground (arith, get-append_none k m n)

  -- A key that stands further on in a map is new to what stands before it.
  pub get-before : (k : Text) (v : V) (m n : Dict V) → IsDict (m ++ (k, v) ∷ n) → get k m ≡ none
  unfolding get
  get-before k v [] n h = refl
  get-before k v ((i, w) ∷ m) n h = ground (
    arith,
    get-append_none i m ((k, v) ∷ n) h.0,
    text_eq_iff i k,
    text_eq_iff k i,
    get-before k v m n h.1,
  )

  -- A new key goes to the end.
  pub insert-fresh :
      (k : Text) (v : V) (m : Dict V) → get k m ≡ none → insert k v m ≡ m ++ (k, v) ∷ []
  unfolding get insert
  insert-fresh k v [] h = refl
  insert-fresh k v ((i, w) ∷ m) h = ground (arith, insert-fresh k v m)

  pub get-modify :
      (k j : Text) (f : V → V) (m : Dict V)
      → get j (modify k f m)
        ≡ (if text_eq k j then elim (get j m) [ none ↦ none | some v ↦ some (f v) ] else get j m)
  unfolding get modify
  get-modify k j f [] = ground arith
  get-modify k j f ((i, w) ∷ m) =
      ground (arith, text_eq_iff k j, text_eq_iff i k, text_eq_iff i j, get-modify k j f m)

  pub modify-IsDict : (k : Text) (f : V → V) (m : Dict V) → IsDict m → IsDict (modify k f m)
  unfolding get modify
  modify-IsDict k f [] h = tt
  modify-IsDict k f ((i, w) ∷ m) h =
      ground (arith, text_eq_iff i k, text_eq_iff k i, get-modify k i f m, modify-IsDict k f m h.1)

  pub get-retain :
      (p : V → Bool) (k : Text) (m : Dict V)
      → IsDict m
      → get k (retain p m) ≡ elim (get k m) [ none ↦ none | some v ↦ if p v then some v else none ]
  unfolding get retain
  get-retain p k [] h = refl
  get-retain p k ((i, w) ∷ m) h = ground (arith, text_eq_iff i k, get-retain p k m h.1)

  pub retain-IsDict : (p : V → Bool) (m : Dict V) → IsDict m → IsDict (retain p m)
  unfolding get retain
  retain-IsDict p [] h = tt
  retain-IsDict p ((i, w) ∷ m) h = ground (arith, get-retain p i m h.1, retain-IsDict p m h.1)

  pub count-insert :
      (p : V → Bool) (k : Text) (v : V) (m : Dict V)
      → count_values p (insert k v m) ≤ suc (count_values p m)
  unfolding insert count_values
  count-insert p k v [] = ground arith
  count-insert p k v ((i, w) ∷ m) = let rest = count-insert p k v m in ground arith

  pub count-remove :
      (p : V → Bool) (k : Text) (m : Dict V) → count_values p (remove k m) ≤ count_values p m
  unfolding remove count_values
  count-remove p k [] = ground arith
  count-remove p k ((i, w) ∷ m) = let rest = count-remove p k m in ground arith

  pub count-retain : (p q : V → Bool) (m : Dict V) → count_values p (retain q m) ≤ count_values p m
  unfolding retain count_values
  count-retain p q [] = ground arith
  count-retain p q ((i, w) ∷ m) = let rest = count-retain p q m in ground arith

  -- A test that lets fewer values pass counts fewer.
  pub count-weaker :
      (p q : V → Bool) (m : Dict V)
      → ((v : V) → q v ≡ true → p v ≡ true)
      → count_values q m ≤ count_values p m
  unfolding count_values
  count-weaker p q [] h = ground arith
  count-weaker p q ((i, w) ∷ m) h =
      let rest = count-weaker p q m h in let here = h w in ground arith

  pub contains-insert :
      (k j : Text) (v : V) (m : Dict V)
      → contains_key j m ≡ true
      → contains_key j (insert k v m) ≡ true
  contains-insert k j v m h = ground (arith, get-insert k j v m)

  pub contains-insert_self : (k : Text) (v : V) (m : Dict V) → contains_key k (insert k v m) ≡ true
  contains-insert_self k v m = ground (arith, get-insert_self k v m)
