-- ===== src/Classifier/Entries.antt =====
-- The entries of the flag map in src/classifier/: what the parser leaves in it, and their order
-- by key, which does not depend on the iteration order of the map.
use mathlib.Core.Logic.Or
use mathlib.Core.List.{mem-cons, not-mem-nil}
use mathlib.Core.List.Perm
use rch_mac.Base.{
  Ordering, Result-cases, true, Option, none, some, Text, text, text_eq, text_eq_iff, Dict, get,
  insert, IsDict, insert-IsDict, ok, List, [], ◌∷◌, All, Mem, Perm, ◌≡◌, inl, inr, sym, subst, ap,
  arith, Bool-cases,
}
use rch_mac.Base.Compare.{compare_text-IsOrder, compare_text_eq, on-IsOrder, IsOrder}
use rch_mac.Base.Sort.{sort_by, sort_by-perm, sort_by-IsSorted, IsSorted-eq_of_perm}
use rch_mac.Classifier.Parser.{
  ParsedXcodebuildArgs, parse_xcodebuild_argv, parse_from, takes_value, take_one, put, empty,
}
use rch_mac.Classifier.{by_key}

pub by_key-IsOrder : IsOrder by_key
by_key-IsOrder = on-IsOrder (λ e. e.0) compare_text-IsOrder

Value-set : IsSet (Option (Option Text))
Value-set = hlevel

-- In a map an entry is the one that its key finds.
pub get-Mem :
    (m : Dict (Option Text)) (e : Text × Option Text) → IsDict m → Mem e m → get e.0 m ≡ some e.1
unfolding get
get-Mem [] e d h = absurd (not-mem-nil h)
get-Mem ((k, v) ∷ m) e d h =
    Or.elim (Value-set _ _) (mem-cons.0 h)
      (λ q.
        subst (λ (w : Text × Option Text). get w.0 ((k, v) ∷ m) ≡ some w.1) (sym q)
          (ground (arith, text_eq_iff k k)))
      (λ h'. ground (arith, text_eq_iff k e.0, get-Mem m e d.1 h'))

-- Keys tell the entries of a map apart.
pub keys_distinct :
    (m : Dict (Option Text)) (a b : Text × Option Text)
    → IsDict m
    → Mem a m
    → Mem b m
    → by_key a b ≡ Ordering.eq
    → a ≡ b
keys_distinct m a b d h k e =
    let same : a.0 ≡ b.0 = compare_text_eq a.0 b.0 e in
    let va = get-Mem m a d h in let vb = get-Mem m b d k in ground (arith, ap (λ t. get t m) same)

-- The sorted entries of a map are the same for every order of its entries.
pub sort_by_key_unique :
    (m es fs : Dict (Option Text))
    → IsDict m
    → Perm es m
    → Perm fs m
    → sort_by by_key es ≡ sort_by by_key fs
sort_by_key_unique m es fs d p q =
    let ps : Perm (sort_by by_key es) m = Perm.trans (sort_by-perm by_key es) p in
    let qs : Perm (sort_by by_key fs) m = Perm.trans (sort_by-perm by_key fs) q in
    IsSorted-eq_of_perm by_key-IsOrder (sort_by by_key es) (sort_by by_key fs)
      (λ a b h k. keys_distinct m a b d ((Perm.mem_iff ps).0 h) ((Perm.mem_iff ps).0 k))
      (sort_by-IsSorted by_key-IsOrder es) (sort_by-IsSorted by_key-IsOrder fs)
      (Perm.trans ps (Perm.symm qs))

-- A value stands with a flag that takes one.
abbrev pub Spelt : Text × Option Text → Type 0
Spelt (flag, none) = Unit {0}
Spelt (flag, some v) = takes_value flag v ≡ true

pub record Parsed (p : ParsedXcodebuildArgs) : Type 0 where
  pub distinct : IsDict p.flags
  pub spelt : All Spelt p.flags

insert-Spelt :
    (k : Text) (v : Option Text) (m : Dict (Option Text))
    → Spelt (k, v)
    → All Spelt m
    → All Spelt (insert k v m)
unfolding insert
insert-Spelt k v [] s h = (s, tt)
insert-Spelt k none ((i, w) ∷ m) s h = ground (arith, insert-Spelt k none m s h.1)
insert-Spelt k (some v) ((i, w) ∷ m) s h =
    ground (arith, text_eq_iff i k, insert-Spelt k (some v) m s h.1)

put-Parsed :
    (k : Text) (v : Option Text) (r : ParsedXcodebuildArgs)
    → Spelt (k, v)
    → Parsed r
    → Parsed (put k v r)
put-Parsed k v r s h = record {
  distinct = insert-IsDict k v r.flags h.distinct;
  spelt = insert-Spelt k v r.flags s h.spelt;
}

take_one-Parsed :
    (arg : Text) (r r' : ParsedXcodebuildArgs) → take_one arg r ≡ ok r' → Parsed r → Parsed r'
unfolding take_one
take_one-Parsed arg r r' e h =
    let with_flag = put-Parsed arg none r tt h in
    ground (arith, with_flag.distinct, with_flag.spelt)

parse_from-Parsed :
    (argv : List Text) (r p : ParsedXcodebuildArgs) → parse_from argv r ≡ ok p → Parsed r → Parsed p
unfolding parse_from
parse_from-Parsed [] r p e h = record {
  distinct = ground (arith, h.distinct);
  spelt = ground (arith, h.spelt);
}
parse_from-Parsed (arg ∷ []) r p e h = take_one-Parsed arg r p e h
parse_from-Parsed (arg ∷ next ∷ rest) r p e h = elim (Bool-cases (takes_value arg next)) [
  | inl t ↦
      parse_from-Parsed rest (put arg (some next) r) p (rw (t, parse_from) at e)
        (put-Parsed arg (some next) r t h)
  | inr t ↦ elim (Result-cases (take_one arg r)) [
    | inl (r', q) ↦
        parse_from-Parsed (next ∷ rest) r' p (ground arith) (take_one-Parsed arg r r' q h)
    | inr (x, q) ↦ absurd (ground arith)
  ]
]

empty-Parsed : Parsed empty
empty-Parsed = record { distinct = tt; spelt = tt }

pub parse-Parsed :
    (argv : List Text) (p : ParsedXcodebuildArgs) → parse_xcodebuild_argv argv ≡ ok p → Parsed p
unfolding parse_xcodebuild_argv
parse-Parsed [] p e = parse_from-Parsed [] empty p e empty-Parsed
parse-Parsed (arg ∷ argv) p e = elim (Bool-cases (text_eq arg (text "xcodebuild"))) [
  | inl t ↦ parse_from-Parsed argv empty p (rw t at e) empty-Parsed
  | inr t ↦ parse_from-Parsed (arg ∷ argv) empty p (rw t at e) empty-Parsed
]
