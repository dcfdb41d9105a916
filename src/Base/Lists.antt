-- ===== src/Base/Lists.antt =====
-- Lists over the native numbers, under the library's names, and Boolean filters.
use mathlib.Core.Logic.Or
use mathlib.Core.Bool.{Bool-set}
use mathlib.Core.Option.{some-injective}
use mathlib.Core.List.Perm
use mathlib.Core.List
use mathlib.Core.List.{mem-filter, mem-cons, not-mem-nil, mem-cons_self, mem-cons_of_mem}
pub use mathlib.Core.Path.{◌≡◌, refl, sym, ap, ◌∙◌, subst}
pub use mathlib.Core.Logic.{◌≢◌, ◌↔◌, ◌⊎◌, inl, inr}
pub use mathlib.Core.List.{List, [], ◌∷◌, ◌++◌, map, Mem, Perm, Nodup}
pub use native.Mathlib.Omega.{arith}
use rch_mac.Base.Tests.{
  ℕ, zero, suc, ◌+◌, Bool, true, false, ◌&&◌, ◌||◌, Option, none, some, is_true?, Bool-cases,
}

module _ {ℓ} {A : Type ℓ} where
  abbrev pub length : List A → ℕ
  length [] = 0
  length (x ∷ xs) = suc (length xs)

  abbrev pub get_elem? : List A → ℕ → Option A
  get_elem? [] i = none
  get_elem? (x ∷ xs) zero = some x
  get_elem? (x ∷ xs) (suc i) = get_elem? xs i

  abbrev pub take : ℕ → List A → List A
  take zero xs = []
  take (suc n) [] = []
  take (suc n) (x ∷ xs) = x ∷ take n xs

  abbrev pub drop : ℕ → List A → List A
  drop zero xs = xs
  drop (suc n) [] = []
  drop (suc n) (x ∷ xs) = drop n xs

  abbrev pub head? : List A → Option A
  head? [] = none
  head? (x ∷ xs) = some x

  abbrev pub last? : List A → Option A
  last? [] = none
  last? (x ∷ []) = some x
  last? (x ∷ y ∷ xs) = last? (y ∷ xs)

  abbrev pub is_empty : List A → Bool
  is_empty [] = true
  is_empty (x ∷ xs) = false

  -- The elements that pass a Boolean test, in order.
  abbrev pub filter : (A → Bool) → List A → List A
  filter p xs = List.filter (λ x. is_true? (p x)) xs

  abbrev pub any : (A → Bool) → List A → Bool
  any p [] = false
  any p (x ∷ xs) = p x || any p xs

  abbrev pub all : (A → Bool) → List A → Bool
  all p [] = true
  all p (x ∷ xs) = p x && all p xs

  abbrev pub find? : (A → Bool) → List A → Option A
  find? p [] = none
  find? p (x ∷ xs) = elim (p x) [ true ↦ some x | false ↦ find? p xs ]

  pub length-append : (xs ys : List A) → length (xs ++ ys) ≡ length xs + length ys
  length-append [] ys = omega arith
  length-append (x ∷ xs) ys = omega (arith, length-append xs ys)

  pub mem-filter_iff :
      (p : A → Bool) (xs : List A) (a : A) → Mem a (filter p xs) ↔ (Mem a xs × (p a ≡ true))
  mem-filter_iff p xs a = mem-filter (λ x. is_true? (p x))

-- A predicate on every element.
abbrev pub All {ℓ κ} : {A : Type ℓ} → (A → Type κ) → List A → Type κ
All P [] = Unit
All P (x ∷ xs) = P x × All P xs

module _ {ℓ} {A : Type ℓ} where
  pub all→Mem : (p : A → Bool) (xs : List A) (a : A) → all p xs ≡ true → Mem a xs → p a ≡ true
  all→Mem p [] a h m = absurd (not-mem-nil m)
  all→Mem p (x ∷ xs) a h m =
      Or.elim (Bool-set _ _) (mem-cons.0 m) (λ e. subst (λ w. p w ≡ true) (sym e) (ground arith))
        (all→Mem p xs a (ground arith))

  pub Mem→all : (p : A → Bool) (xs : List A) → ((a : A) → Mem a xs → p a ≡ true) → all p xs ≡ true
  Mem→all p [] h = refl
  Mem→all p (x ∷ xs) h =
      let first = h x mem-cons_self in
      let rest = Mem→all p xs (λ a m. h a (mem-cons_of_mem x m)) in ground arith

  -- A test of every element does not see the order.
  pub all-perm : (p : A → Bool) (xs ys : List A) → Perm xs ys → all p xs ≡ all p ys
  all-perm p xs ys q = elim (Bool-cases (all p ys)) [
    | inl e ↦ Mem→all p xs (λ a m. all→Mem p ys a e ((Perm.mem_iff q).0 m)) ∙ sym e
    | inr e ↦ elim (Bool-cases (all p xs)) [
      | inl f ↦ f ∙ sym (Mem→all p ys (λ a m. all→Mem p xs a f ((Perm.mem_iff q).1 m)))
      | inr f ↦ f ∙ sym e
    ]
  ]

  pub find?-some :
      (p : A → Bool) (xs : List A) {a : A} → find? p xs ≡ some a → Mem a xs × (p a ≡ true)
  find?-some p [] h = absurd (cc)
  find?-some p (x ∷ xs) {a} h = elim (Bool-cases (p x)) [
    | inl e ↦
        let q : some x ≡ some a = rw (e, find?) at h in
        let r = some-injective _ _ q in
        (subst (λ w. Mem w (x ∷ xs)) r mem-cons_self, subst (λ w. p w ≡ true) r e)
    | inr e ↦ let (m, t) = find?-some p xs (rw (e, find?) at h) in (mem-cons_of_mem x m, t)
  ]

  pub find?-none : (p : A → Bool) (xs : List A) (a : A) → find? p xs ≡ none → Mem a xs → p a ≡ false
  find?-none p [] a h m = absurd (not-mem-nil m)
  find?-none p (x ∷ xs) a h m =
      Or.elim (Bool-set _ _) (mem-cons.0 m) (λ e. subst (λ w. p w ≡ false) (sym e) (ground arith))
        (find?-none p xs a (ground arith))

  pub is_empty→nil : (xs : List A) → is_empty xs ≡ true → xs ≡ []
  is_empty→nil [] h = refl
  is_empty→nil (x ∷ xs) h = cc

  -- What a filter leaves shows that there was something.
  pub filter-is_empty :
      (p : A → Bool) (xs : List A) → is_empty (filter p xs) ≡ false → is_empty xs ≡ false
  filter-is_empty p [] h = absurd (cc)
  filter-is_empty p (x ∷ xs) h = refl
