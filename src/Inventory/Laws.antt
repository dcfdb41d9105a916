-- ===== src/Inventory/Laws.antt =====
-- What `validate` and the lists of src/inventory/mod.rs guarantee.
use rch_mac.Base.{
  ℕ, Bool, true, false, Text, text_eq_iff, contains, ok, Result-cases, List, [], ◌∷◌, all, is_empty,
  All, Perm, ◌≡◌, ◌≢◌, ◌↔◌, refl, arith, Bool-cases, inl, inr,
}
use rch_mac.Base.Compare.{IsOrder, then_with-IsOrder, on-IsOrder, compare_text-IsOrder}
use rch_mac.Base.Sort.{sort_by-perm, sort_by-IsSorted, IsSorted}
use rch_mac.Base.Max.{compare_ℤ-IsOrder}
use rch_mac.Inventory.{
  WorkerEntry, WorkerInventory, validate, validate_entry, check_names, check_entries,
  sorted_by_priority, by_priority, name_char,
}

-- No name twice.
abbrev pub DistinctNames : List WorkerEntry → Type 0
DistinctNames [] = Unit
DistinctNames (w ∷ ws) = All (λ (v : WorkerEntry). w.name ≢ v.name) ws × DistinctNames ws

module _ (alphanumeric : ℕ → Bool) where
  -- What an entry of a worker must look like.
  pub record IsEntry (w : WorkerEntry) : Type 0 where
    pub name : is_empty w.name ≡ false
    pub chars : all (name_char alphanumeric) w.name ≡ true
    pub host : is_empty w.host ≡ false
    pub port : w.port ≢ 0
    pub user : is_empty w.user ≡ false

  validate_entry_iff : (w : WorkerEntry) → (validate_entry alphanumeric w ≡ ok tt) ↔ IsEntry w
  unfolding validate_entry
  validate_entry_iff w = (
    (λ h. record {
      name = ground arith;
      chars = ground arith;
      host = ground arith;
      port = ground arith;
      user = ground arith;
    }),
    (λ e.
        let a = e.name in
        let b = e.chars in let c = e.host in let d = e.port in let f = e.user in ground arith),
  )

  check_entries_iff :
      (ws : List WorkerEntry) → (check_entries alphanumeric ws ≡ ok tt) ↔ All IsEntry ws
  unfolding check_entries
  check_entries_iff [] = ((λ h. tt), (λ h. refl))
  check_entries_iff (w ∷ ws) =
      let rest = check_entries_iff ws in
      elim (Result-cases (validate_entry alphanumeric w)) [
        | inl (u, e) ↦ (
          (λ h. ((validate_entry_iff w).0 e, rest.0 (rw (e, check_entries) at h))),
          (λ (v, vs). rw e (rest.1 vs)),
        )
        | inr (x, e) ↦ (
          (λ h. absurd (cc (rw (e, check_entries) at h))),
          (λ (v, vs). absurd (cc (e, (validate_entry_iff w).1 v))),
        )
      ]

unseen-cons :
    (n : Text) (seen : List Text) (ws : List WorkerEntry)
    → All (λ (w : WorkerEntry). contains (n ∷ seen) w.name ≡ false) ws ↔ (
        All (λ (w : WorkerEntry). n ≢ w.name) ws
        × All (λ (w : WorkerEntry). contains seen w.name ≡ false) ws)
unfolding contains
unseen-cons n seen [] = ((λ h. (tt, tt)), (λ h. tt))
unseen-cons n seen (w ∷ ws) =
    let rest = unseen-cons n seen ws in
    let e = text_eq_iff n w.name in
    (
      (λ (h, hs). let (a, b) = rest.0 hs in (((λ q. cc (e.1 q, h)), a), (ground arith, b))),
      (λ ((a, l), (b, bs)). (ground arith, rest.1 (l, bs))),
    )

-- Every name is new: it is not among `seen`, and not among the later ones.
check_names_iff :
    (seen : List Text) (ws : List WorkerEntry)
    → (check_names seen ws ≡ ok tt)
      ↔ (All (λ (w : WorkerEntry). contains seen w.name ≡ false) ws × DistinctNames ws)
unfolding check_names
check_names_iff seen [] = ((λ h. (tt, tt)), (λ h. refl))
check_names_iff seen (w ∷ ws) =
    let rest = check_names_iff (w.name ∷ seen) ws in
    let unseen = unseen-cons w.name seen ws in
    elim (Bool-cases (contains seen w.name)) [
      | inl e ↦ ((λ h. absurd (cc (rw (e, check_names) at h))), (λ ((a, l), d). absurd (cc (a, e))))
      | inr e ↦ (
        (λ h.
            let (new, d) = rest.0 (rw (e, check_names) at h) in
            let (apart, l) = unseen.0 new in ((e, l), (apart, d))),
        (λ ((a, l), (apart, d)). rw (e, check_names) (rest.1 (unseen.1 (apart, l), d))),
      )
    ]

nothing_seen : (ws : List WorkerEntry) → All (λ (w : WorkerEntry). contains [] w.name ≡ false) ws
unfolding contains
nothing_seen [] = tt
nothing_seen (w ∷ ws) = (refl, nothing_seen ws)

-- An inventory is valid exactly when no two workers have one name and every entry is well formed.
validate-inventory_iff :
    (alphanumeric : ℕ → Bool) (v : WorkerInventory)
    → (validate alphanumeric v ≡ ok tt)
      ↔ (DistinctNames v.workers × All (IsEntry alphanumeric) v.workers)
unfolding validate
validate-inventory_iff alphanumeric v =
    let names = check_names_iff [] v.workers in
    let entries = check_entries_iff alphanumeric v.workers in
    elim (Result-cases (check_names [] v.workers)) [
      | inl (tt, e) ↦
          ((λ h. ((names.0 e).1, entries.0 (rw e at h))), (λ (d, es). rw e (entries.1 es)))
      | inr (x, e) ↦ (
        (λ h. absurd (cc (rw e at h))),
        (λ (d, es). absurd (cc (e, names.1 (nothing_seen v.workers, d)))),
      )
    ]

by_priority-IsOrder : IsOrder by_priority
by_priority-IsOrder =
    then_with-IsOrder (on-IsOrder (λ (w : WorkerEntry). w.priority) compare_ℤ-IsOrder)
      (on-IsOrder (λ (w : WorkerEntry). w.name) compare_text-IsOrder)

-- The sorted workers are the workers of the inventory, each in its place by priority and then name.
sorted_by_priority-IsSorted :
    (v : WorkerInventory)
    → Perm (sorted_by_priority v) v.workers × IsSorted by_priority (sorted_by_priority v)
unfolding sorted_by_priority
sorted_by_priority-IsSorted v =
    (sort_by-perm by_priority v.workers, sort_by-IsSorted by_priority-IsOrder v.workers)
