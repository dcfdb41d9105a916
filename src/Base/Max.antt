-- ===== src/Base/Max.antt =====
-- `Iterator::max_by`, which answers the last of several greatest elements; and signed integers with
-- their comparison.
use mathlib.Core.Logic.Or
use mathlib.Core.HLevel.{¬_prop}
use mathlib.Core.List.{mem-cons, not-mem-nil, mem-cons_self, mem-cons_of_mem}
use mathlib.Core.Option.{some-injective}
use rch_mac.Base.Tests.{ℕ, Ordering, compare, Option, none, some}
use rch_mac.Base.Lists.{List, [], ◌∷◌, ◌≡◌, ◌≢◌, refl, sym, subst, Mem, ◌↔◌, arith}
use rch_mac.Base.Compare.{IsOrder, cmp_refl, le_trans}

-- A signed machine integer; `negsuc n` is -(n + 1).
pub data ℤ : Type 0 where
  pos : ℕ → ℤ
  negsuc : ℕ → ℤ

unfoldable pub compare_ℤ : ℤ → ℤ → Ordering
compare_ℤ (pos a) (pos b) = compare a b
compare_ℤ (pos a) (negsuc b) = Ordering.gt
compare_ℤ (negsuc a) (pos b) = Ordering.lt
compare_ℤ (negsuc a) (negsuc b) = compare b a

pub compare_ℤ-IsOrder : IsOrder compare_ℤ
unfolding compare_ℤ
compare_ℤ-IsOrder = record {
  swap = λ a b. ground arith;
  lt_trans = λ a b c h k. ground arith;
  eq_cong = λ a b c h. ground arith;
}

module _ {ℓ} {A : Type ℓ} where
  abbrev pick : A → A → Ordering → A
  pick best x Ordering.gt = best
  pick best x _ = x

  -- From the greatest so far.
  max_from : (A → A → Ordering) → A → List A → A
  max_from cmp best [] = best
  max_from cmp best (x ∷ xs) = max_from cmp (pick best x (cmp best x)) xs

  unfoldable pub max_by : (A → A → Ordering) → List A → Option A
  unfolding max_from
  max_by cmp [] = none
  max_by cmp (x ∷ xs) = some (max_from cmp x xs)

  -- What holds of both holds of the choice.
  pick_either {κ} : (P : A → Type κ) (a b : A) (o : Ordering) → P a → P b → P (pick a b o)
  pick_either P a b Ordering.lt p q = q
  pick_either P a b Ordering.eq p q = q
  pick_either P a b Ordering.gt p q = p

module _ {ℓ} {A : Type ℓ} (cmp : A → A → Ordering) where
  max_from-mem : (best : A) (xs : List A) → Mem (max_from cmp best xs) (best ∷ xs)
  unfolding max_from
  max_from-mem best [] = mem-cons_self
  max_from-mem best (x ∷ xs) =
      Or.elim squash₁ (mem-cons.0 (max_from-mem (pick best x (cmp best x)) xs))
        (λ e.
          subst (λ z. Mem z (best ∷ x ∷ xs)) (sym e)
            (pick_either (λ z. Mem z (best ∷ x ∷ xs)) best x (cmp best x) mem-cons_self
              (mem-cons_of_mem best mem-cons_self)))
        (λ m. mem-cons_of_mem best (mem-cons_of_mem x m))

  pick_ge :
      IsOrder cmp
      → (a b : A)
      → (cmp a (pick a b (cmp a b)) ≢ Ordering.gt) × (cmp b (pick a b (cmp a b)) ≢ Ordering.gt)
  pick_ge o a b = by_order (cmp a b) refl
    where
      by_order :
          (r : Ordering)
          → cmp a b ≡ r
          → (cmp a (pick a b r) ≢ Ordering.gt) × (cmp b (pick a b r) ≢ Ordering.gt)
      by_order Ordering.lt e = ((λ h. cc), (λ h. cc (cmp_refl o b)))
      by_order Ordering.eq e = ((λ h. cc), (λ h. cc (cmp_refl o b)))
      by_order Ordering.gt e = ((λ h. cc (cmp_refl o a)), ground (arith, o.swap a b))

  max_from-ge :
      IsOrder cmp
      → (best : A) (xs : List A) (y : A) → Mem y (best ∷ xs)
      → cmp y (max_from cmp best xs) ≢ Ordering.gt
  unfolding max_from
  max_from-ge o best [] y m =
      Or.elim ¬_prop (mem-cons.0 m)
        (λ e. subst (λ z. cmp z best ≢ Ordering.gt) (sym e) (λ h. cc (cmp_refl o best)))
        (λ n. absurd (not-mem-nil n))
  max_from-ge o best (x ∷ xs) y m =
      let b = pick best x (cmp best x) in
      let ih = max_from-ge o b xs in
      let (ge_best, ge_x) = pick_ge o best x in
      Or.elim ¬_prop (mem-cons.0 m)
        (λ e.
          subst (λ z. cmp z (max_from cmp b xs) ≢ Ordering.gt) (sym e)
            (le_trans o best b _ ge_best (ih b mem-cons_self)))
        (λ n.
          Or.elim ¬_prop (mem-cons.0 n)
            (λ e.
              subst (λ z. cmp z (max_from cmp b xs) ≢ Ordering.gt) (sym e)
                (le_trans o x b _ ge_x (ih b mem-cons_self)))
            (λ n'. ih y (mem-cons_of_mem b n')))

  -- The answer is one of the elements.
  pub max_by-mem : (xs : List A) {a : A} → max_by cmp xs ≡ some a → Mem a xs
  unfolding max_by
  max_by-mem [] h = cc
  max_by-mem (x ∷ xs) h = subst (λ z. Mem z (x ∷ xs)) (some-injective _ _ h) (max_from-mem x xs)

  -- No element is greater than the answer.
  pub max_by-ge :
      IsOrder cmp
      → (xs : List A) {a : A} → max_by cmp xs ≡ some a
      → (y : A) → Mem y xs
      → cmp y a ≢ Ordering.gt
  unfolding max_by
  max_by-ge o [] h y m = absurd (not-mem-nil m)
  max_by-ge o (x ∷ xs) h y m =
      subst (λ z. cmp y z ≢ Ordering.gt) (some-injective _ _ h) (max_from-ge o x xs y m)

  -- There is an answer unless the list is empty.
  pub max_by-none : (xs : List A) → (max_by cmp xs ≡ none) ↔ (xs ≡ [])
  unfolding max_by
  max_by-none [] = ((λ _. refl), (λ _. refl))
  max_by-none (x ∷ xs) = ((λ h. cc), (λ h. cc))
