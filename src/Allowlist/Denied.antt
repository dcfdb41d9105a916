-- ===== src/Allowlist/Denied.antt =====
-- What the loop over the flags of src/crates/rch-classifier/src/lib.rs reports of a denied flag.
use mathlib.Core.List.{mem-append_left, mem-append_right, mem-cons_self, not-mem-nil}
use rch_mac.Base.{
  Bool, true, false, Option, none, some, Text, text, text_eq, contains, List, [], ◌∷◌, ◌++◌,
  is_empty, Mem, Option-cases, ◌≡◌, refl, sym, ap, subst, arith, inl, inr,
}
use rch_mac.Allowlist.{
  ClassifierConfig, RejectionReason, Scan, denied_flags, is_constrained, mismatch, check_flag,
  check_flags, route, is_allowed, verdict,
}

-- The two flags that are denied.
pub data Denied (flag : Text) : Type 0 where
  result_bundle_path : flag ≡ text "-resultBundlePath" → Denied flag
  derived_data_path : flag ≡ text "-derivedDataPath" → Denied flag

Denied-contains : (flag : Text) → Denied flag → contains denied_flags flag ≡ true
unfolding contains text_eq
Denied-contains flag (result_bundle_path e) = rw e
Denied-contains flag (derived_data_path e) = rw e

append_nil : {A : Type 0} (l : List A) → l ≡ l ++ []
append_nil [] = refl
append_nil (x ∷ l) = ap (λ t. x ∷ t) (append_nil l)

-- A turn of the loop keeps the reasons before it.
route-keeps :
    (d a n : Bool) (c : ClassifierConfig) (flag : Text) (value : Option Text) (s : Scan)
    → (more : List RejectionReason) × ((route d a n c flag value s).reasons ≡ s.reasons ++ more)
route-keeps true a n c flag value s = (RejectionReason.denied_flag flag ∷ [], refl)
route-keeps false false n c flag value s = (RejectionReason.unknown_flag flag ∷ [], refl)
route-keeps false true true c flag none s = ([], append_nil s.reasons)
route-keeps false true true c flag (some v) s =
    let same = append_nil s.reasons in
    elim (Option-cases (mismatch c flag v)) [
      | inl f ↦ ([], ground arith)
      | inr (r, f) ↦ (r ∷ [], ground arith)
    ]
route-keeps false true false c flag value s = ([], append_nil s.reasons)

check_flags-keeps :
    (c : ClassifierConfig) (fs : List (Text × Option Text)) (s : Scan) (r : RejectionReason)
    → Mem r s.reasons
    → Mem r (check_flags c fs s).reasons
unfolding check_flag
check_flags-keeps c [] s r m = m
check_flags-keeps c ((flag, value) ∷ fs) s r m =
    let (more, kept) =
      route-keeps (contains denied_flags flag) (is_allowed flag) (is_constrained flag) c flag value
        s in
    check_flags-keeps c fs (check_flag c flag value s) r
      (subst (Mem r) (sym kept) (mem-append_left more m))

pub check_flags-Denied :
    (c : ClassifierConfig) (flag : Text) (value : Option Text)
    (before after : List (Text × Option Text)) (s : Scan)
    → Denied flag
    → Mem
        (RejectionReason.denied_flag flag)
        (check_flags c (before ++ ((flag, value) ∷ after)) s).reasons
unfolding check_flag
check_flags-Denied c flag value ((f, v) ∷ before) after s d =
    check_flags-Denied c flag value before after (check_flag c f v s) d
check_flags-Denied c flag value [] after s d =
    let r = RejectionReason.denied_flag flag in
    let refused : check_flag c flag value s
        ≡ route true (is_allowed flag) (is_constrained flag) c flag value s =
      ap (λ b. route b (is_allowed flag) (is_constrained flag) c flag value s)
        (Denied-contains flag d) in
    check_flags-keeps c after (check_flag c flag value s) r (
      subst (λ (t : Scan). Mem r t.reasons) (sym refused)
        (mem-append_right s.reasons mem-cons_self))

-- The verdict reports every reason that the loop found.
pub verdict-keeps :
    (c : ClassifierConfig) (action : Text) (s : Scan) (r : RejectionReason)
    → Mem r s.reasons
    → Mem r (verdict c action s).rejection_reasons
verdict-keeps c action s r m = by_reasons s.reasons refl
  where
    by_reasons :
        (l : List RejectionReason) → s.reasons ≡ l → Mem r (verdict c action s).rejection_reasons
    by_reasons [] e = absurd (not-mem-nil (subst (Mem r) e m))
    by_reasons (x ∷ l) e =
        let full : is_empty s.reasons ≡ false = ap is_empty e in
        let same : (verdict c action s).rejection_reasons ≡ s.reasons = ground arith in
        subst (Mem r) (sym same) m
