-- ===== src/Toolchain/Versions.antt =====
-- Version strings and `compare_versions` of src/toolchain/mod.rs.
use mathlib.Core.Path.{fun_ext}
use rch_mac.Base.{
  ℕ, ◌+◌, ◌*◌, ◌-◌, compare, leb, ltb, ◌==◌, Ordering, ◌&&◌, Option, none, some, if◌then◌else◌,
  Text, List, [], ◌∷◌, length, ◌≡◌, refl, sym, subst, arith,
}
use rch_mac.Base.Compare.{compare_text, compare_text-IsOrder, IsOrder, on-IsOrder}

onto : ℕ → List Text → List Text
onto x [] = (x ∷ []) ∷ []
onto x (p ∷ ps) = (x ∷ p) ∷ ps

first : List Text → Text
first [] = []
first (p ∷ ps) = p

-- `split` at a character: one part more than there are such characters.
unfoldable pub split : ℕ → Text → List Text
unfolding onto
split c [] = [] ∷ []
split c (x ∷ s) = let rest = split c s in if x == c then [] ∷ rest else onto x rest

-- `u32::from_str`: an optional `+`, then digits, and no overflow.
digits : ℕ → Text → Option ℕ
digits acc [] = some acc
digits acc (c ∷ s) =
    let rest = digits (acc * 10 + (c - b'0')) s in if leb b'0' c && leb c b'9' then rest else none

bounded : Option ℕ → Option ℕ
bounded none = none
bounded (some n) = if ltb n 4294967296 then some n else none

number : Text → Option ℕ
unfolding bounded digits
number [] = none
number (c ∷ s) = bounded (digits 0 (c ∷ s))

unfoldable pub parse_u32 : Text → Option ℕ
unfolding number
parse_u32 [] = none
parse_u32 (c ∷ s) = if c == b'+' then number s else number (c ∷ s)

-- `filter_map`
keep : Option ℕ → List ℕ → List ℕ
keep none ns = ns
keep (some n) ns = n ∷ ns

numbers : List Text → List ℕ
unfolding keep parse_u32
numbers [] = []
numbers (p ∷ ps) = keep (parse_u32 p) (numbers ps)

-- The numeric parts of a version; a part that is no number is passed over.
unfoldable pub parts : Text → List ℕ
unfolding numbers split
parts v = numbers (split b'.' v)

-- `split('.').next()`
unfoldable pub first_part : Text → Text
unfolding first split
first_part v = first (split b'.' v)

-- The loop over the pairs, then the lengths.
compare_zip : (xs ys : List ℕ) (longer : Ordering) → Ordering
compare_zip [] ys longer = longer
compare_zip (a ∷ xs) [] longer = longer
compare_zip (a ∷ xs) (b ∷ ys) longer =
    let rest = compare_zip xs ys longer in
    elim (compare a b) [
      | Ordering.eq ↦ rest
      | Ordering.lt ↦ Ordering.lt
      | Ordering.gt ↦ Ordering.gt
    ]

unfoldable pub compare_versions : (a b : Text) → Ordering
unfolding compare_zip parts
compare_versions a b =
    compare_zip (parts a) (parts b) (compare (length (parts a)) (length (parts b)))

compare_zip-lex :
    (xs ys : List ℕ) → compare_zip xs ys (compare (length xs) (length ys)) ≡ compare_text xs ys
unfolding compare_zip compare_text
compare_zip-lex [] [] = refl
compare_zip-lex [] (b ∷ ys) = ground arith
compare_zip-lex (a ∷ xs) [] = ground arith
compare_zip-lex (a ∷ xs) (b ∷ ys) = ground (arith, compare_zip-lex xs ys)

-- The code's loop is the lexicographic order of the numeric parts.
pub compare_versions-lex : (a b : Text) → compare_versions a b ≡ compare_text (parts a) (parts b)
unfolding compare_versions
compare_versions-lex a b = compare_zip-lex (parts a) (parts b)

pub compare_versions-IsOrder : IsOrder compare_versions
compare_versions-IsOrder =
    subst IsOrder (sym (fun_ext (λ a. fun_ext (λ b. compare_versions-lex a b))))
      (on-IsOrder parts compare_text-IsOrder)
