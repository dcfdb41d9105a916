-- ===== src/Base/Sort.antt =====
-- The stable `sort_by` of slices, as an insertion sort: a permutation of its input, in order, whose
-- head is least, and the same list for every permutation of the input when the order is strict on
-- the elements.
use mathlib.Core.Logic.Or
use mathlib.Core.List.{mem-cons, not-mem-nil, mem-cons_self, mem-cons_of_mem}
use mathlib.Core.List.Perm
use mathlib.Core.HLevel.{¬_prop}
use rch_mac.Base.Tests.{Ordering, unwrap_or}
use rch_mac.Base.Lists.{
  List, [], ◌∷◌, ◌≡◌, refl, sym, subst, ◌≢◌, Mem, Perm, All, head?, ap, ◌∙◌, arith,
}
use rch_mac.Base.Compare.{IsOrder, cmp_refl, le_trans}

module _ {ℓ} {A : Type ℓ} where
  -- Before the first element that does not come before it.
  unfoldable pub insert : (A → A → Ordering) → A → List A → List A
  insert cmp x [] = x ∷ []
  insert cmp x (y ∷ ys) = elim (cmp x y) [ Ordering.gt ↦ y ∷ insert cmp x ys | _ ↦ x ∷ y ∷ ys ]

  unfoldable pub sort_by : (A → A → Ordering) → List A → List A
  unfolding insert
  sort_by cmp [] = []
  sort_by cmp (x ∷ xs) = insert cmp x (sort_by cmp xs)

  -- The two ways in which an insertion goes on.
  pub insert_cases {κ} :
      (P : List A → Type κ) (cmp : A → A → Ordering) (x y : A) (ys : List A)
      → (cmp x y ≢ Ordering.gt → P (x ∷ y ∷ ys))
      → (cmp x y ≡ Ordering.gt → P (y ∷ insert cmp x ys))
      → P (insert cmp x (y ∷ ys))
  unfolding insert
  insert_cases P cmp x y ys stay go = by_order (cmp x y) stay go
    where
      by_order :
          (o : Ordering)
          → (o ≢ Ordering.gt → P (x ∷ y ∷ ys))
          → (o ≡ Ordering.gt → P (y ∷ insert cmp x ys))
          → P (elim o [ Ordering.gt ↦ y ∷ insert cmp x ys | _ ↦ x ∷ y ∷ ys ])
      by_order Ordering.lt f g = f (λ e. cc)
      by_order Ordering.eq f g = f (λ e. cc)
      by_order Ordering.gt f g = g refl

  insert-perm : (cmp : A → A → Ordering) (x : A) (ys : List A) → Perm (insert cmp x ys) (x ∷ ys)
  insert-perm cmp x [] = unfold insert in Perm.refl (x ∷ [])
  insert-perm cmp x (y ∷ ys) =
      let rest = insert-perm cmp x ys in
      insert_cases (λ l. Perm l (x ∷ y ∷ ys)) cmp x y ys (λ _. Perm.refl _)
        (λ _. Perm.trans (Perm.cons y rest) (Perm.swap x y ys))

  pub sort_by-perm : (cmp : A → A → Ordering) (xs : List A) → Perm (sort_by cmp xs) xs
  unfolding sort_by
  sort_by-perm cmp [] = Perm.nil
  sort_by-perm cmp (x ∷ xs) =
      Perm.trans (insert-perm cmp x (sort_by cmp xs)) (Perm.cons x (sort_by-perm cmp xs))

  -- Every element is not after the ones that follow it.
  abbrev pub IsSorted : (A → A → Ordering) → List A → Type ℓ
  IsSorted cmp [] = Unit
  IsSorted cmp (x ∷ xs) = ((y : A) → Mem y xs → cmp x y ≢ Ordering.gt) × IsSorted cmp xs

module _ {ℓ κ} {A : Type ℓ} (P : A → Type κ) (cmp : A → A → Ordering) where
  insert-All : (x : A) (ys : List A) → P x → All P ys → All P (insert cmp x ys)
  insert-All x [] p h = unfold insert in (p, tt)
  insert-All x (y ∷ ys) p h =
      let rest = insert-All x ys p h.1 in
      insert_cases (All P) cmp x y ys (λ _. (p, h)) (λ _. (h.0, rest))

  pub sort_by-All : (xs : List A) → All P xs → All P (sort_by cmp xs)
  unfolding sort_by
  sort_by-All [] h = tt
  sort_by-All (x ∷ xs) h = insert-All x (sort_by cmp xs) h.0 (sort_by-All xs h.1)

module _ {ℓ} {A : Type ℓ} {cmp : A → A → Ordering} (o : IsOrder cmp) where
  not_gt_prop : {a b : A} → IsProp (cmp a b ≢ Ordering.gt)
  not_gt_prop = ¬_prop

  insert-IsSorted : (x : A) (ys : List A) → IsSorted cmp ys → IsSorted cmp (insert cmp x ys)
  insert-IsSorted x [] s = unfold insert in ((λ y m. absurd (not-mem-nil m)), tt)
  insert-IsSorted x (y ∷ ys) (least, s) =
      let rest = insert-IsSorted x ys s in
      insert_cases (IsSorted cmp) cmp x y ys
        (λ h. (
          λ z m.
              Or.elim not_gt_prop (mem-cons.0 m) (λ e. subst (λ w. cmp x w ≢ Ordering.gt) (sym e) h)
                (λ m'. le_trans o x y z h (least z m')),
          (least, s),
        ))
        (λ h. (
          λ z m.
              Or.elim not_gt_prop (mem-cons.0 ((Perm.mem_iff (insert-perm cmp x ys)).0 m))
                (λ e. subst (λ w. cmp y w ≢ Ordering.gt) (sym e) (ground (arith, o.swap x y)))
                (λ m'. least z m'),
          rest,
        ))

  pub sort_by-IsSorted : (xs : List A) → IsSorted cmp (sort_by cmp xs)
  unfolding sort_by
  sort_by-IsSorted [] = tt
  sort_by-IsSorted (x ∷ xs) = insert-IsSorted x (sort_by cmp xs) (sort_by-IsSorted xs)

  -- No element of the list comes before the first of a sorted list.
  pub head-least :
      (x y : A) (xs : List A) → IsSorted cmp (x ∷ xs) → Mem y (x ∷ xs) → cmp x y ≢ Ordering.gt
  head-least x y xs s m =
      Or.elim not_gt_prop (mem-cons.0 m)
        (λ e. subst (λ w. cmp x w ≢ Ordering.gt) (sym e) (λ h. cc (cmp_refl o x, h))) (s.0 y)

  -- The order tells the elements of the list apart.
  abbrev pub IsStrict : List A → Type ℓ
  IsStrict l = (a b : A) → Mem a l → Mem b l → cmp a b ≡ Ordering.eq → a ≡ b

  -- Two sorted lists with the same elements are one list.
  pub IsSorted-eq_of_perm :
      (xs ys : List A) → IsStrict xs → IsSorted cmp xs → IsSorted cmp ys → Perm xs ys → xs ≡ ys
  IsSorted-eq_of_perm [] [] t s u p = refl
  IsSorted-eq_of_perm [] (y ∷ ys) t s u p = absurd (not-mem-nil ((Perm.mem_iff p).1 mem-cons_self))
  IsSorted-eq_of_perm (x ∷ xs) [] t s u p = absurd (not-mem-nil ((Perm.mem_iff p).0 mem-cons_self))
  IsSorted-eq_of_perm (x ∷ xs) (y ∷ ys) t s u p =
      let y_in : Mem y (x ∷ xs) = (Perm.mem_iff p).1 mem-cons_self in
      let x_in : Mem x (y ∷ ys) = (Perm.mem_iff p).0 mem-cons_self in
      let e : x ≡ y =
        t x y mem-cons_self y_in (tie (head-least x y xs s y_in) (head-least y x ys u x_in)) in
      let p' : Perm (x ∷ xs) (x ∷ ys) = subst (λ w. Perm (x ∷ xs) (w ∷ ys)) (sym e) p in
      let rest =
        IsSorted-eq_of_perm xs ys (λ a b m n. t a b (mem-cons_of_mem x m) (mem-cons_of_mem x n)) s.1
          u.1 (Perm.cons_inv p') in
      cc
    where
      tie : cmp x y ≢ Ordering.gt → cmp y x ≢ Ordering.gt → cmp x y ≡ Ordering.eq
      tie h k = ground (arith, o.swap x y)

module _ {ℓ} {A : Type ℓ} (cmp : A → A → Ordering) where
  -- `sorted[0]` of a list that is not empty.
  abbrev pub first : A → List A → A
  first c cs = unwrap_or (head? (sort_by cmp (c ∷ cs))) c

  first_of :
      (c : A) (cs l : List A)
      → sort_by cmp (c ∷ cs) ≡ l
      → (t : List A) × (sort_by cmp (c ∷ cs) ≡ first c cs ∷ t)
  first_of c cs [] e =
      absurd
        (not-mem-nil (subst (Mem c) e ((Perm.mem_iff (sort_by-perm cmp (c ∷ cs))).1 mem-cons_self)))
  first_of c cs (s ∷ t) e = (t, e ∙ ap (λ w. unwrap_or (head? w) c ∷ t) (sym e))

  pub sort_by-first : (c : A) (cs : List A) → (t : List A) × (sort_by cmp (c ∷ cs) ≡ first c cs ∷ t)
  sort_by-first c cs = first_of c cs (sort_by cmp (c ∷ cs)) refl

  pub first-mem : (c : A) (cs : List A) → Mem (first c cs) (c ∷ cs)
  first-mem c cs =
      let (t, e) = sort_by-first c cs in
      (Perm.mem_iff (sort_by-perm cmp (c ∷ cs))).0 (subst (Mem (first c cs)) (sym e) mem-cons_self)

  pub first-least :
      IsOrder cmp
      → (c : A) (cs : List A) (y : A) → Mem y (c ∷ cs)
      → cmp (first c cs) y ≢ Ordering.gt
  first-least o c cs y m =
      let (t, e) = sort_by-first c cs in
      let s : IsSorted cmp (first c cs ∷ t) =
        subst (IsSorted cmp) e (sort_by-IsSorted o (c ∷ cs)) in
      head-least o (first c cs) y t s
        (subst (Mem y) e ((Perm.mem_iff (sort_by-perm cmp (c ∷ cs))).1 m))
