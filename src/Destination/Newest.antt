-- ===== src/Destination/Newest.antt =====
-- Under the latest version, src/destination/mod.rs takes a runtime of the greatest version.
use rch_mac.Base.{
  ℕ, Ordering, none, ok, ok-injective, Option-cases, List, [], ◌∷◌, Mem, Text, ◌≡◌, ◌≢◌, refl, sym,
  arith, inl, inr,
}
use rch_mac.Base.Compare.{IsOrder, reverse, on-IsOrder}
use rch_mac.Base.Max.{max_by, max_by-mem, max_by-ge}
use rch_mac.Capabilities.{Runtime}
use rch_mac.Toolchain.Versions.{parts}
use rch_mac.Destination.{compare_padded, compare_versions, by_version, resolve_os_version, highest}

padded-swap : (xs ys : List ℕ) → compare_padded ys xs ≡ reverse (compare_padded xs ys)
unfolding compare_padded
padded-swap [] [] = refl
padded-swap [] (b ∷ ys) = let r = padded-swap [] ys in ground arith
padded-swap (a ∷ xs) [] = let r = padded-swap xs [] in ground arith
padded-swap (a ∷ xs) (b ∷ ys) = let r = padded-swap xs ys in ground arith

padded-cong :
    (xs ys zs : List ℕ)
    → compare_padded xs ys ≡ Ordering.eq
    → compare_padded xs zs ≡ compare_padded ys zs
unfolding compare_padded
padded-cong [] [] zs h = refl
padded-cong [] (b ∷ ys) [] h = let r = padded-cong [] ys [] in ground arith
padded-cong [] (b ∷ ys) (c ∷ zs) h = let r = padded-cong [] ys zs in ground arith
padded-cong (a ∷ xs) [] [] h = let r = padded-cong xs [] [] in ground arith
padded-cong (a ∷ xs) [] (c ∷ zs) h = let r = padded-cong xs [] zs in ground arith
padded-cong (a ∷ xs) (b ∷ ys) [] h = let r = padded-cong xs ys [] in ground arith
padded-cong (a ∷ xs) (b ∷ ys) (c ∷ zs) h = let r = padded-cong xs ys zs in ground arith

padded-lt :
    (xs ys zs : List ℕ)
    → compare_padded xs ys ≡ Ordering.lt
    → compare_padded ys zs ≡ Ordering.lt
    → compare_padded xs zs ≡ Ordering.lt
unfolding compare_padded
padded-lt [] [] zs h k = absurd (cc)
padded-lt [] (b ∷ ys) [] h k = let r = padded-lt [] ys [] in ground arith
padded-lt [] (b ∷ ys) (c ∷ zs) h k = let r = padded-lt [] ys zs in ground arith
padded-lt (a ∷ xs) [] [] h k = absurd (cc)
padded-lt (a ∷ xs) [] (c ∷ zs) h k = let r = padded-lt xs [] zs in ground arith
padded-lt (a ∷ xs) (b ∷ ys) [] h k = let r = padded-lt xs ys [] in ground arith
padded-lt (a ∷ xs) (b ∷ ys) (c ∷ zs) h k = let r = padded-lt xs ys zs in ground arith

padded-IsOrder : IsOrder compare_padded
padded-IsOrder = record { swap = padded-swap; lt_trans = padded-lt; eq_cong = padded-cong }

by_version-IsOrder : IsOrder by_version
unfolding compare_versions
by_version-IsOrder = on-IsOrder (λ (r : Runtime). parts r.version) padded-IsOrder

-- Without a version asked for, the version resolved is the version of one of the runtimes, and no
-- runtime has a greater one, a missing part of a version counting as 0.
resolve_os_version-newest :
    (rs : List Runtime) {v : Text}
    → resolve_os_version none rs ≡ ok v
    → (y : Runtime) × Mem y rs
      × (v ≡ y.version)
      × ((x : Runtime) → Mem x rs → by_version x y ≢ Ordering.gt)
unfolding resolve_os_version highest
resolve_os_version-newest rs {v} h = elim (Option-cases (max_by by_version rs)) [
  | inl e ↦ absurd (cc (rw e at h))
  | inr (y, e) ↦ (
    y,
    max_by-mem by_version rs e,
    sym (ok-injective (rw e at h)),
    λ x m. max_by-ge by_version by_version-IsOrder rs e x m,
  )
]
