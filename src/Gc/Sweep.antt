-- ===== src/Gc/Sweep.antt =====
-- The loop that both collectors share: a pass over the sorted entries that takes some of them away
-- and leaves the others, as the state of the pass decides.
use mathlib.Core.List.Perm
use mathlib.Core.List.{append_assoc, append-nil, perm_middle}
use rch_mac.Base.{
  ℕ, ◌+◌, ◌-◌, ◌≤◌, ◌<◌, Bool, true, false, if◌then◌else◌, List, [], ◌∷◌, ◌++◌, Perm, All,
  Bool-cases, inl, inr, ◌⊎◌, ◌≡◌, refl, sym, ◌∙◌, ap, arith, ltb, Ordering,
}
use rch_mac.Base.Sort.{sort_by, insert, insert_cases}

-- The sum of a measure, before it wraps around.
abbrev pub total {ℓ} : {A : Type ℓ} → (A → ℕ) → List A → ℕ
total w [] = 0
total w (x ∷ xs) = w x + total w xs

module _ {ℓ} {A : Type ℓ} (w : A → ℕ) where
  pub total-append : (xs ys : List A) → total w (xs ++ ys) ≡ total w xs + total w ys
  total-append [] ys = omega arith
  total-append (x ∷ xs) ys = omega (arith, total-append xs ys)

  total-insert :
      (cmp : A → A → Ordering) (x : A) (ys : List A) → total w (insert cmp x ys) ≡ w x + total w ys
  total-insert cmp x [] = unfold insert in refl
  total-insert cmp x (y ∷ ys) =
      let rest = total-insert cmp x ys in
      insert_cases (λ l. total w l ≡ w x + (w y + total w ys)) cmp x y ys (λ _. refl)
        (λ _. omega (arith, rest))

  pub total-sort_by : (cmp : A → A → Ordering) (xs : List A) → total w (sort_by cmp xs) ≡ total w xs
  unfolding sort_by
  total-sort_by cmp [] = refl
  total-sort_by cmp (x ∷ xs) =
      total-insert cmp x (sort_by cmp xs) ∙ ap (λ n. w x + n) (total-sort_by cmp xs)

module _ {ℓ κ} {A : Type ℓ} {S : Type κ} (step : A → S → S) where
  -- `for x in xs { … }` with its body as a step.
  abbrev pub for_each : List A → S → S
  for_each [] s = s
  for_each (x ∷ xs) s = for_each xs (step x s)

  module _ (takes : A → S → Bool) where
    -- What the pass takes away, and what it leaves, each in the order of the pass.
    abbrev pub gone : List A → S → List A
    gone [] s = []
    gone (x ∷ xs) s = let rest = gone xs (step x s) in if takes x s then x ∷ rest else rest

    abbrev pub left : List A → S → List A
    left [] s = []
    left (x ∷ xs) s = let rest = left xs (step x s) in if takes x s then rest else x ∷ rest

    pub gone-left-perm : (xs : List A) (s : S) → Perm xs (gone xs s ++ left xs s)
    gone-left-perm [] s = Perm.nil
    gone-left-perm (x ∷ xs) s =
        let rest = Perm.cons x (gone-left-perm xs (step x s)) in by_test (takes x s) _ _ rest
      where
        by_test :
            (b : Bool) (g l : List A)
            → Perm (x ∷ xs) (x ∷ g ++ l)
            → Perm (x ∷ xs) ((if b then x ∷ g else g) ++ (if b then l else x ∷ l))
        by_test true g l h = h
        by_test false g l h = Perm.trans h (Perm.symm (perm_middle g l))

    pub total-gone-left :
        (w : A → ℕ) (xs : List A) (s : S) → total w xs ≡ total w (gone xs s) + total w (left xs s)
    total-gone-left w [] s = refl
    total-gone-left w (x ∷ xs) s =
        let rest = total-gone-left w xs (step x s) in
        elim (Bool-cases (takes x s)) [ inl e ↦ ground arith | inr e ↦ ground arith ]

    pub gone-All :
        {P : A → Type ℓ} (xs : List A) (s : S)
        → ((x : A) (s : S) → takes x s ≡ true → P x)
        → All P (gone xs s)
    gone-All [] s h = tt
    gone-All {P} (x ∷ xs) s h =
        let rest = gone-All xs (step x s) h in by_test (takes x s) _ (h x s) rest
      where
        by_test :
            (b : Bool) (g : List A) → (b ≡ true → P x) → All P g → All P (if b then x ∷ g else g)
        by_test true g p q = (p refl, q)
        by_test false g p q = q

    -- A log that each step extends by what it takes holds what the pass takes.
    pub log-gone :
        (log : S → List A)
        → ((x : A) (s : S) → log (step x s) ≡ log s ++ (if takes x s then x ∷ [] else []))
        → (xs : List A) (s : S) → log (for_each xs s) ≡ log s ++ gone xs s
    log-gone log law [] s = sym (append-nil (log s))
    log-gone log law (x ∷ xs) s =
        let rest = log-gone log law xs (step x s) in
        rest ∙ ap (λ l. l ++ gone xs (step x s)) (law x s) ∙ by_test (takes x s) _
      where
        by_test :
            (b : Bool) (g : List A)
            → log s ++ (if b then x ∷ [] else []) ++ g ≡ log s ++ (if b then x ∷ g else g)
        by_test true g = append_assoc (log s) (x ∷ []) g
        by_test false g = ap (λ l. l ++ g) (append-nil (log s))

    -- A pass that takes every entry until a test of the state fails for good takes a first part.
    module _ (open_for : S → Bool) (P : A → Type ℓ)
        (follows : (x : A) (s : S) → P x → takes x s ≡ open_for s)
        (closes : (x : A) (s : S) → P x → open_for s ≡ false → open_for (step x s) ≡ false) where
      closed :
          (xs : List A) (s : S)
          → All P xs
          → open_for s ≡ false
          → (gone xs s ≡ []) × (left xs s ≡ xs)
      closed [] s h b = (refl, refl)
      closed (x ∷ xs) s h b =
          let (g, l) = closed xs (step x s) h.1 (closes x s h.0 b) in
          let t = follows x s h.0 ∙ b in (ground arith, ground arith)

      pub gone-left-append : (xs : List A) (s : S) → All P xs → gone xs s ++ left xs s ≡ xs
      gone-left-append [] s h = refl
      gone-left-append (x ∷ xs) s h =
          let rest = gone-left-append xs (step x s) h.1 in
          let t = follows x s h.0 in
          elim (Bool-cases (open_for s)) [
            | inl e ↦ ground arith
            | inr e ↦ let (g, l) = closed xs (step x s) h.1 (closes x s h.0 e) in ground arith
          ]

    -- A size that shrinks by what is taken, from at least all there is.
    module _ (w : A → ℕ) (size : S → ℕ)
        (taken : (x : A) (s : S) → takes x s ≡ true → size (step x s) ≡ size s - w x)
        (stays : (x : A) (s : S) → takes x s ≡ false → size (step x s) ≡ size s) where
      size-left :
          (xs : List A) (s : S)
          → total w xs ≤ size s
          → size (for_each xs s) + total w (gone xs s) ≡ size s
      size-left [] s h = omega arith
      size-left (x ∷ xs) s h = elim (Bool-cases (takes x s)) [
        | inl e ↦
            let t = taken x s e in let rest = size-left xs (step x s) (ground arith) in ground arith
        | inr e ↦
            let t = stays x s e in let rest = size-left xs (step x s) (ground arith) in ground arith
      ]

      size_falls : (xs : List A) (s : S) → size (for_each xs s) ≤ size s
      size_falls [] s = omega arith
      size_falls (x ∷ xs) s =
          let rest = size_falls xs (step x s) in
          elim (Bool-cases (takes x s)) [
            | inl e ↦ omega (arith, rest, taken x s e)
            | inr e ↦ omega (arith, rest, stays x s e)
          ]

      module _ (limit : ℕ) (stuck : A → Bool)
          (eager : (x : A) (s : S) → limit < size s → takes x s ≡ false → stuck x ≡ true) where
        left-stuck :
            (xs : List A) (s : S)
            → limit < size (for_each xs s)
            → All (λ x. stuck x ≡ true) (left xs s)
        left-stuck [] s h = tt
        left-stuck (x ∷ xs) s h =
            let fall = size_falls xs (step x s) in
            let rest = left-stuck xs (step x s) h in by_test (takes x s) _ refl rest
          where
            by_test :
                (b : Bool) (l : List A)
                → takes x s ≡ b
                → All (λ x. stuck x ≡ true) l
                → All (λ x. stuck x ≡ true) (if b then l else x ∷ l)
            by_test true l e q = q
            by_test false l e q =
                let same = stays x s e in
                let fall = size_falls xs (step x s) in (eager x s (omega arith) e, q)

        -- Where the pass takes every entry that is not stuck as long as the size is above a limit,
        -- what it leaves is within the limit or all stuck.
        pub left-bound :
            (xs : List A) (s : S)
            → size s ≡ total w xs
            → (total w (left xs s) ≤ limit) ⊎ All (λ x. stuck x ≡ true) (left xs s)
        left-bound xs s h =
            let parts = total-gone-left w xs s in
            let rest = size-left xs s (omega arith) in
            elim (Bool-cases (ltb limit (size (for_each xs s)))) [
              | inl e ↦ inr (left-stuck xs s (ground arith))
              | inr e ↦ inl (ground arith)
            ]
