-- ===== src/Base/Compare.antt =====
-- `std::cmp::Ordering`: comparison functions, how `then_with` and key functions combine them, and
-- the laws of a total order, which every combination keeps.
use rch_mac.Base.Tests.{ℕ, compare, Ordering}
use rch_mac.Base.Lists.{[], ◌∷◌, ◌≡◌, refl, ◌≢◌, arith}
use rch_mac.Base.Strings.{Text}

-- `Ordering::reverse`
abbrev pub reverse : Ordering → Ordering
reverse Ordering.lt = Ordering.gt
reverse Ordering.eq = Ordering.eq
reverse Ordering.gt = Ordering.lt

-- `Ordering::then_with`
abbrev pub then_with : Ordering → Ordering → Ordering
then_with Ordering.lt o = Ordering.lt
then_with Ordering.eq o = o
then_with Ordering.gt o = Ordering.gt

pub record IsOrder {ℓ} {A : Type ℓ} (cmp : A → A → Ordering) : Type ℓ where
  pub swap : (a b : A) → cmp b a ≡ reverse (cmp a b)
  pub lt_trans : (a b c : A) → cmp a b ≡ Ordering.lt → cmp b c ≡ Ordering.lt → cmp a c ≡ Ordering.lt
  pub eq_cong : (a b c : A) → cmp a b ≡ Ordering.eq → cmp a c ≡ cmp b c

reverse_fixed : (o : Ordering) → o ≡ reverse o → o ≡ Ordering.eq
reverse_fixed Ordering.lt h = cc
reverse_fixed Ordering.eq h = refl
reverse_fixed Ordering.gt h = cc

module _ {ℓ} {A : Type ℓ} {cmp : A → A → Ordering} (o : IsOrder cmp) where
  pub cmp_refl : (a : A) → cmp a a ≡ Ordering.eq
  cmp_refl a = reverse_fixed (cmp a a) (o.swap a a)

  -- `a` does not come after `b`
  pub le_trans : (a b c : A) → cmp a b ≢ Ordering.gt → cmp b c ≢ Ordering.gt → cmp a c ≢ Ordering.gt
  le_trans a b c p q = ground (
    arith,
    o.swap a b,
    o.swap b c,
    o.lt_trans a b c,
    o.eq_cong a b c,
    o.eq_cong c b a,
    o.swap a c,
    o.swap b a,
  )

module _ {ℓ} {A : Type ℓ} where
  -- First by one comparison, then by another.
  pub then_with-IsOrder :
      {c d : A → A → Ordering} → IsOrder c → IsOrder d → IsOrder (λ a b. then_with (c a b) (d a b))
  then_with-IsOrder {c} {d} p q = record {
    swap = λ x y. ground (arith, p.swap x y, q.swap x y);
    lt_trans = λ x y z h k. ground (
      arith,
      p.lt_trans x y z,
      q.lt_trans x y z,
      p.eq_cong x y z,
      p.eq_cong z y x,
      p.swap x y,
      p.swap y z,
      p.swap x z,
    );
    eq_cong = λ x y z h. ground (arith, p.eq_cong x y z, q.eq_cong x y z);
  }

  -- By a key.
  pub on-IsOrder {κ} :
      {B : Type κ} {c : B → B → Ordering} (f : A → B) → IsOrder c → IsOrder (λ a b. c (f a) (f b))
  on-IsOrder f p = record {
    swap = λ x y. p.swap (f x) (f y);
    lt_trans = λ x y z. p.lt_trans (f x) (f y) (f z);
    eq_cong = λ x y z. p.eq_cong (f x) (f y) (f z);
  }

  -- Descending.
  pub desc-IsOrder : {c : A → A → Ordering} → IsOrder c → IsOrder (λ a b. c b a)
  desc-IsOrder {c} p = record {
    swap = λ x y. p.swap y x;
    lt_trans = λ x y z h k. p.lt_trans z y x k h;
    eq_cong = λ x y z h. ground (arith, p.swap x y, p.swap y z, p.swap x z, p.eq_cong x y z);
  }

pub compare-IsOrder : IsOrder compare
compare-IsOrder = record {
  swap = λ x y. ground arith;
  lt_trans = λ x y z h k. ground arith;
  eq_cong = λ x y z h. ground arith;
}

pub compare_eq : (a b : ℕ) → compare a b ≡ Ordering.eq → a ≡ b
compare_eq a b h = ground arith

-- The lexicographic order of two texts.
unfoldable pub compare_text : Text → Text → Ordering
compare_text [] [] = Ordering.eq
compare_text [] (y ∷ t) = Ordering.lt
compare_text (x ∷ s) [] = Ordering.gt
compare_text (x ∷ s) (y ∷ t) = then_with (compare x y) (compare_text s t)

text_swap : (s t : Text) → compare_text t s ≡ reverse (compare_text s t)
unfolding compare_text
text_swap [] [] = refl
text_swap [] (y ∷ t) = refl
text_swap (x ∷ s) [] = refl
text_swap (x ∷ s) (y ∷ t) = ground (arith, text_swap s t)

pub compare_text_eq : (s t : Text) → compare_text s t ≡ Ordering.eq → s ≡ t
unfolding compare_text
compare_text_eq [] [] h = refl
compare_text_eq [] (y ∷ t) h = cc
compare_text_eq (x ∷ s) [] h = cc
compare_text_eq (x ∷ s) (y ∷ t) h = ground (arith, compare_text_eq s t)

text_lt_trans :
    (s t u : Text)
    → compare_text s t ≡ Ordering.lt
    → compare_text t u ≡ Ordering.lt
    → compare_text s u ≡ Ordering.lt
unfolding compare_text
text_lt_trans [] [] u h k = cc
text_lt_trans [] (y ∷ t) [] h k = cc
text_lt_trans [] (y ∷ t) (z ∷ u) h k = refl
text_lt_trans (x ∷ s) [] u h k = cc
text_lt_trans (x ∷ s) (y ∷ t) [] h k = cc
text_lt_trans (x ∷ s) (y ∷ t) (z ∷ u) h k = ground (arith, text_lt_trans s t u)

pub compare_text-IsOrder : IsOrder compare_text
compare_text-IsOrder = record {
  swap = text_swap;
  lt_trans = text_lt_trans;
  eq_cong = λ s t u h. rw (compare_text_eq s t h);
}
