-- ===== src/Config/Secrets.antt =====
-- What the redaction of src/config/effective.rs leaves.
use rch_mac.Base.{
  ℕ, suc, true, ◌&&◌, if◌then◌else◌, Text, text, [], ◌++◌, decimal, Value, null, bool, unsigned,
  other_number, string, array, object, Values, nil, cons, Members, end, member, is_empty,
  Bool-cases, inl, inr, ◌≡◌, refl, ap, arith,
}
use rch_mac.Config.Redact.{
  is_scalar, is_secret, redacted, redact_recursive, redact_members, redact_values, redact_secrets,
}

module _ (lower : Text → Text) where
  -- What a secret key asks of its value.
  abbrev pub scrub : Text → Value → Value
  scrub k v = if is_secret lower k && is_scalar lower v then redacted else v

  -- Under a secret key stands the mark, an object or an array, on every level.
  unfoldable mutual
    pub IsClean : Value → Type 0
    IsClean (object m) = IsCleanMembers m
    IsClean (array l) = IsCleanValues l
    IsClean _ = Unit

    pub IsCleanMembers : Members → Type 0
    IsCleanMembers end = Unit
    IsCleanMembers (member k v m) = (scrub k v ≡ v) × IsClean v × IsCleanMembers m

    pub IsCleanValues : Values → Type 0
    IsCleanValues nil = Unit
    IsCleanValues (cons v l) = IsClean v × IsCleanValues l

  redact-is_scalar :
      (path : Text) (v : Value)
      → is_scalar lower (redact_recursive lower path v).0 ≡ is_scalar lower v
  unfolding redact_recursive
  redact-is_scalar path null = refl
  redact-is_scalar path (bool b) = refl
  redact-is_scalar path (unsigned n) = refl
  redact-is_scalar path (other_number t) = refl
  redact-is_scalar path (string s) = refl
  redact-is_scalar path (array l) = refl
  redact-is_scalar path (object m) = refl

  mutual
    unfolding IsClean redact_recursive

    redact-IsClean : (path : Text) (v : Value) → IsClean (redact_recursive lower path v).0
    redact-IsClean path (object m) = redact_members-IsClean path m
    redact-IsClean path (array l) = redact_values-IsClean path 0 l
    redact-IsClean path null = tt
    redact-IsClean path (bool b) = tt
    redact-IsClean path (unsigned n) = tt
    redact-IsClean path (other_number t) = tt
    redact-IsClean path (string s) = tt

    redact_members-IsClean :
        (path : Text) (m : Members) → IsCleanMembers (redact_members lower path m).0
    redact_members-IsClean path end = tt
    redact_members-IsClean path (member k v m) =
        let p = if is_empty path then k else path ++ text "." ++ k in
        let here = redact-IsClean p v in
        let rest = redact_members-IsClean path m in
        let same = redact-is_scalar p v in
        elim (Bool-cases (is_secret lower k && is_scalar lower v)) [
          | inl e ↦ rw (e) (ground arith, tt, rest)
          | inr e ↦ rw (e) (ground arith, here, rest)
        ]

    redact_values-IsClean :
        (path : Text) (i : ℕ) (l : Values) → IsCleanValues (redact_values lower path i l).0
    redact_values-IsClean path i nil = tt
    redact_values-IsClean path i (cons v l) = (
      redact-IsClean (path ++ text "[" ++ decimal i ++ text "]") v,
      redact_values-IsClean path (suc i) l,
    )

  mutual
    unfolding redact_recursive

    redact-again :
        (path : Text) (v : Value)
        → redact_recursive lower path (redact_recursive lower path v).0
          ≡ redact_recursive lower path v
    redact-again path (object m) = ap (λ r. (object r.0, r.1)) (redact_members-again path m)
    redact-again path (array l) = ap (λ r. (array r.0, r.1)) (redact_values-again path 0 l)
    redact-again path null = refl
    redact-again path (bool b) = refl
    redact-again path (unsigned n) = refl
    redact-again path (other_number t) = refl
    redact-again path (string s) = refl

    redact_members-again :
        (path : Text) (m : Members)
        → redact_members lower path (redact_members lower path m).0 ≡ redact_members lower path m
    redact_members-again path end = refl
    redact_members-again path (member k v m) =
        let p = if is_empty path then k else path ++ text "." ++ k in
        let here = redact-again p v in
        let rest = redact_members-again path m in
        let same = redact-is_scalar p v in
        elim (Bool-cases (is_secret lower k && is_scalar lower v)) [
          | inl e ↦ ground arith
          | inr e ↦ ground arith
        ]

    redact_values-again :
        (path : Text) (i : ℕ) (l : Values)
        → redact_values lower path i (redact_values lower path i l).0 ≡ redact_values lower path i l
    redact_values-again path i nil = refl
    redact_values-again path i (cons v l) =
        let here = redact-again (path ++ text "[" ++ decimal i ++ text "]") v in
        let rest = redact_values-again path (suc i) l in ground arith

  -- After the redaction no key that names a secret has a scalar but the mark, and a second redaction
  -- gives the same value and the same list of paths.
  pub redact_secrets-IsClean :
      (v : Value)
      → IsClean (redact_secrets lower v).0
        × (redact_secrets lower (redact_secrets lower v).0 ≡ redact_secrets lower v)
  unfolding redact_secrets
  redact_secrets-IsClean v = (redact-IsClean [] v, redact-again [] v)

  -- An array of scalars.
  abbrev pub AreScalars : Values → Type 0
  AreScalars nil = Unit
  AreScalars (cons v l) = (is_scalar lower v ≡ true) × AreScalars l

  pub redact-scalar :
      (path : Text) (v : Value) → is_scalar lower v ≡ true → redact_recursive lower path v ≡ (v, [])
  unfolding redact_recursive
  redact-scalar path null h = refl
  redact-scalar path (bool b) h = refl
  redact-scalar path (unsigned n) h = refl
  redact-scalar path (other_number t) h = refl
  redact-scalar path (string s) h = refl
  redact-scalar path (array l) h = absurd (ground arith)
  redact-scalar path (object m) h = absurd (ground arith)

  redact-AreScalars :
      (path : Text) (i : ℕ) (l : Values) → AreScalars l → redact_values lower path i l ≡ (l, [])
  unfolding redact_recursive
  redact-AreScalars path i nil h = refl
  redact-AreScalars path i (cons v l) h =
      let here = redact-scalar (path ++ text "[" ++ decimal i ++ text "]") v h.0 in
      let rest = redact-AreScalars path (suc i) l h.1 in ground arith

  -- A list of scalars keeps its values under every key, one that names a secret included, and no path
  -- of it is reported.
  redact_members-array :
      (path k : Text) (l : Values) (m : Members)
      → AreScalars l
      → redact_members lower path (member k (array l) m)
        ≡ (member k (array l) (redact_members lower path m).0, (redact_members lower path m).1)
  unfolding redact_recursive
  redact_members-array path k l m h =
      let p = if is_empty path then k else path ++ text "." ++ k in
      let kept = redact-AreScalars p 0 l h in ground arith
