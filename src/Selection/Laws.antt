-- ===== src/Selection/Laws.antt =====
-- Which worker `select_worker` of src/selection/mod.rs chooses.
use mathlib.Core.List.{not-mem-nil}
use mathlib.Core.List.Perm
use rch_mac.Base.{
  ℕ, ◌≤◌, Ordering, Text, ok, ok-injective, [], ◌∷◌, is_empty, filter-is_empty, Mem, Perm, ◌≡◌, ◌≢◌,
  refl, sym, ◌∙◌, subst, ap, arith, min,
}
use rch_mac.Base.Compare.{then_with, compare_text_eq}
use rch_mac.Base.Max.{compare_ℤ}
use rch_mac.Base.Sort.{first-mem, first-least}
use rch_mac.Inventory.{has_tags}
use rch_mac.Selection.Types.{WorkerCandidate, SelectionConstraints, SelectionResult}
use rch_mac.Selection.{
  Candidates, select_worker, choose, best, by_preference, protocols_meet, xcode_fits,
  destination_fits, tagged, with_xcode, with_destination, compatible,
}
use rch_mac.Selection.Eligible.{Eligible, compatible_iff, by_preference-IsOrder}

module _ (lower : Text → Text) (k : SelectionConstraints) (range : ℕ × ℕ) where
  -- When the phases leave a candidate, the phases before left one too, and the choice is made.
  chosen :
      (cs : Candidates) (c : WorkerCandidate) (rest : Candidates)
      → compatible lower k range cs ≡ c ∷ rest
      → select_worker lower cs k range ≡ choose lower k range cs (c ∷ rest)
  unfolding select_worker
  chosen cs c rest e =
      let e3 =
        filter-is_empty (protocols_meet range) (with_destination lower k cs) (ap is_empty e) in
      let e2 = filter-is_empty (destination_fits lower k.destination) (with_xcode lower k cs) e3 in
      let e1 = filter-is_empty (xcode_fits k.xcode) (tagged lower k cs) e2 in
      let e0 = filter-is_empty (λ (c : WorkerCandidate). has_tags c.worker k.required_tags) cs e1 in
      let start : select_worker lower cs k range
          ≡ choose lower k range cs (compatible lower k range cs) =
        ground arith in
      start ∙ ap (choose lower k range cs) e

  -- A choice that is made is made among the candidates that the phases leave.
  choose_of :
      (cs l : Candidates) {r : SelectionResult}
      → choose lower k range cs l ≡ ok r
      → (c : WorkerCandidate) × (rest : Candidates) × (l ≡ c ∷ rest)
        × (r.candidate ≡ best k.mode c rest)
        × (r.negotiated_protocol_version ≡ min r.candidate.capabilities.protocol_max range.1)
  unfolding choose
  choose_of cs [] h = absurd (cc)
  choose_of cs (c ∷ rest) {r} h =
      let e = ok-injective h in
      (
        c,
        rest,
        refl,
        ap (λ (w : SelectionResult). w.candidate) (sym e),
        subst
            (λ (w : SelectionResult).
              w.negotiated_protocol_version ≡ min w.candidate.capabilities.protocol_max range.1)
            e refl,
      )

  select_of :
      (cs : Candidates) {r : SelectionResult}
      → select_worker lower cs k range ≡ ok r
      → choose lower k range cs (compatible lower k range cs) ≡ ok r
  unfolding select_worker
  select_of cs h = ground arith

  -- The worker chosen is one of the candidates and fits every constraint; the protocol version is the
  -- smaller of its greatest and the host's greatest, and lies in both ranges when neither is empty.
  pub select_worker-Eligible :
      (cs : Candidates) {r : SelectionResult}
      → select_worker lower cs k range ≡ ok r
      → range.0 ≤ range.1
      → r.candidate.capabilities.protocol_min ≤ r.candidate.capabilities.protocol_max
      → Mem r.candidate cs
        × Eligible lower k range r.candidate
        × (r.negotiated_protocol_version ≡ min r.candidate.capabilities.protocol_max range.1)
        × (range.0 ≤ r.negotiated_protocol_version)
        × (r.negotiated_protocol_version ≤ range.1)
        × (r.candidate.capabilities.protocol_min ≤ r.negotiated_protocol_version)
  select_worker-Eligible cs {r} h host worker =
      let (c, rest, e, b, n) = choose_of cs (compatible lower k range cs) (select_of cs h) in
      let inside : Mem r.candidate (compatible lower k range cs) =
        subst (Mem r.candidate) (sym e)
          (subst (λ w. Mem w (c ∷ rest)) (sym b) (first-mem (by_preference k.mode) c rest)) in
      let (m, fits) = (compatible_iff lower k range cs r.candidate).0 inside in
      let low = fits.below in
      let high = fits.above in (m, fits, n, ground arith, ground arith, ground arith)

  -- No candidate that fits every constraint is preferred to the worker chosen.
  pub select_worker-best :
      (cs : Candidates) {r : SelectionResult}
      → select_worker lower cs k range ≡ ok r
      → (c : WorkerCandidate) → Mem c cs
      → Eligible lower k range c
      → by_preference k.mode r.candidate c ≢ Ordering.gt
  select_worker-best cs {r} h y m fits =
      let (c, rest, e, b, n) = choose_of cs (compatible lower k range cs) (select_of cs h) in
      subst (λ w. by_preference k.mode w y ≢ Ordering.gt) (sym b)
        (first-least (by_preference k.mode) (by_preference-IsOrder k.mode) c rest y
          (subst (Mem y) e ((compatible_iff lower k range cs y).1 (m, fits))))

  total_by :
      (cs l : Candidates) (c : WorkerCandidate)
      → compatible lower k range cs ≡ l
      → Mem c l
      → (r : SelectionResult) × (select_worker lower cs k range ≡ ok r)
  unfolding choose
  total_by cs [] c e m = absurd (not-mem-nil m)
  total_by cs (x ∷ rest) c e m = (_, chosen cs x rest e)

  -- When some candidate fits every constraint, a worker is chosen.
  pub select_worker-total :
      (cs : Candidates) (c : WorkerCandidate)
      → Mem c cs
      → Eligible lower k range c
      → (r : SelectionResult) × (select_worker lower cs k range ≡ ok r)
  select_worker-total cs c m fits =
      total_by cs (compatible lower k range cs) c refl
        ((compatible_iff lower k range cs c).1 (m, fits))

  same_name :
      (a b : WorkerCandidate)
      → by_preference k.mode a b ≢ Ordering.gt
      → by_preference k.mode b a ≢ Ordering.gt
      → a.worker.name ≡ b.worker.name
  same_name a b h g =
      let swap = (by_preference-IsOrder k.mode).swap a b in
      let tie : by_preference k.mode a b ≡ Ordering.eq = ground arith in
      compare_text_eq a.worker.name b.worker.name
        (then_with_eq _ _ (then_with_eq (compare_ℤ a.worker.priority b.worker.priority) _ tie))
    where
      then_with_eq : (o p : Ordering) → then_with o p ≡ Ordering.eq → p ≡ Ordering.eq
      then_with_eq Ordering.eq p h = h
      then_with_eq Ordering.lt p h = absurd (cc)
      then_with_eq Ordering.gt p h = absurd (cc)

  -- Listing the candidates in another order gives a worker of the same name, in both modes.
  pub select_worker-perm :
      (cs ds : Candidates) {r s : SelectionResult}
      → Perm cs ds
      → select_worker lower cs k range ≡ ok r
      → select_worker lower ds k range ≡ ok s
      → r.candidate.worker.name ≡ s.candidate.worker.name
  select_worker-perm cs ds {r} {s} p h g =
      let (m, fits) = found cs h in
      let (n, fits') = found ds g in
      let n' = (Perm.mem_iff p).1 n in
      let above = select_worker-best cs h s.candidate n' fits' in
      let below = select_worker-best ds g r.candidate ((Perm.mem_iff p).0 m) fits in
      same_name r.candidate s.candidate above below
    where
      found :
          (l : Candidates) {t : SelectionResult}
          → select_worker lower l k range ≡ ok t
          → Mem t.candidate l × Eligible lower k range t.candidate
      found l {t} i =
          let (c, rest, e, b, o) = choose_of l (compatible lower k range l) (select_of l i) in
          (compatible_iff lower k range l t.candidate).0 (
            subst (Mem t.candidate) (sym e)
              (subst (λ w. Mem w (c ∷ rest)) (sym b) (first-mem (by_preference k.mode) c rest)))
