-- ===== src/Allowlist/Acceptable.antt =====
-- What a command line has to be for the gate of src/crates/rch-classifier/src/lib.rs to accept it.
use rch_mac.Base.{
  Bool, true, false, ◌&&◌, ◌||◌, not, Option, none, some, is_some, Text, text, text_eq, contains,
  any, all, All, List, [], ◌∷◌, is_empty, Bool-cases, ◌≡◌, refl, sym, arith, inl, inr, text_eq_iff,
  subst, ◌⊎◌,
}
use rch_mac.Allowlist.Parser.{ParsedArgv}
use rch_mac.Allowlist.{ClassifierConfig, denied_actions, allowed_actions}
use rch_mac.Allowlist.Flags.{FlagOk, flag_ok, flag_ok_iff}

abbrev pub names_scheme : Text × Option Text → Bool
names_scheme f = text_eq f.0 (text "-scheme") && is_some f.1

abbrev pub action_ok : Option Text → Bool
action_ok none = true
action_ok (some a) = not (contains denied_actions a) && contains allowed_actions a

pub both : (a b : Bool) → (a && b) ≡ true → (a ≡ true) × (b ≡ true)
both a b h = (ground arith, ground arith)

-- An action that may run: none, which is read as `build`, or one of the two.
pub data ActionOk : Option Text → Type 0 where
  implicit : ActionOk none
  build : {a : Text} → a ≡ text "build" → ActionOk (some a)
  test : {a : Text} → a ≡ text "test" → ActionOk (some a)

action_ok→ActionOk : (o : Option Text) → action_ok o ≡ true → ActionOk o
unfolding contains
action_ok→ActionOk none h = implicit
action_ok→ActionOk (some a) h = elim (Bool-cases (text_eq (text "build") a)) [
  | inl e ↦ build (sym ((text_eq_iff _ a).0 e))
  | inr e ↦ elim (Bool-cases (text_eq (text "test") a)) [
    | inl f ↦ test (sym ((text_eq_iff _ a).0 f))
    | inr f ↦
        let (_, allowed) = both (not (contains denied_actions a)) (contains allowed_actions a) h in
        absurd (ground arith)
  ]
]

pub ActionOk→action_ok : (o : Option Text) → ActionOk o → action_ok o ≡ true
unfolding contains text_eq
ActionOk→action_ok o implicit = refl
ActionOk→action_ok o (build e) = rw e
ActionOk→action_ok o (test e) = rw e

-- A scheme is given among the flags.
pub data GivesScheme : List (Text × Option Text) → Type 0 where
  here : (v : Text) (fs : List (Text × Option Text)) → GivesScheme ((text "-scheme", some v) ∷ fs)
  there :
      (f : Text × Option Text) {fs : List (Text × Option Text)}
      → GivesScheme fs
      → GivesScheme (f ∷ fs)

names→GivesScheme : (fs : List (Text × Option Text)) → any names_scheme fs ≡ true → GivesScheme fs
names→GivesScheme [] h = absurd (ground arith)
names→GivesScheme ((flag, none) ∷ fs) h = there (flag, none) (names→GivesScheme fs (ground arith))
names→GivesScheme ((flag, some v) ∷ fs) h = elim (Bool-cases (text_eq flag (text "-scheme"))) [
  | inl e ↦
      subst (λ w. GivesScheme ((w, some v) ∷ fs)) (sym ((text_eq_iff flag (text "-scheme")).0 e))
        (here v fs)
  | inr e ↦ there (flag, some v) (names→GivesScheme fs (ground arith))
]

GivesScheme→names : (fs : List (Text × Option Text)) → GivesScheme fs → any names_scheme fs ≡ true
unfolding text_eq
GivesScheme→names l (here v fs) = refl
GivesScheme→names l (there f {fs} g) = let rest = GivesScheme→names fs g in ground arith

-- What a command line has to be for the gate to accept it.
pub record Acceptable (c : ClassifierConfig) (p : ParsedArgv) : Type 0 where
  pub action : ActionOk p.action
  pub flags : All (λ f. FlagOk c f.0 f.1) p.flags
  pub scheme : (c.allowed_schemes ≡ []) ⊎ GivesScheme p.flags

abbrev pub Accepts : ClassifierConfig → ParsedArgv → Type 0
Accepts c p =
    (action_ok p.action ≡ true)
    × (all (flag_ok c) p.flags ≡ true)
    × ((is_empty c.allowed_schemes || any names_scheme p.flags) ≡ true)

flags→All :
    (c : ClassifierConfig) (fs : List (Text × Option Text))
    → all (flag_ok c) fs ≡ true
    → All (λ f. FlagOk c f.0 f.1) fs
flags→All c [] h = tt
flags→All c ((flag, value) ∷ fs) h =
    let (first, others) = both (flag_ok c (flag, value)) (all (flag_ok c) fs) h in
    ((flag_ok_iff c flag value).0 first, flags→All c fs others)

All→flags :
    (c : ClassifierConfig) (fs : List (Text × Option Text))
    → All (λ f. FlagOk c f.0 f.1) fs
    → all (flag_ok c) fs ≡ true
All→flags c [] h = refl
All→flags c ((flag, value) ∷ fs) (h, rest) =
    let first = (flag_ok_iff c flag value).1 h in let others = All→flags c fs rest in ground arith

pub Accepts→Acceptable : (c : ClassifierConfig) (p : ParsedArgv) → Accepts c p → Acceptable c p
Accepts→Acceptable c p (a, f, s) = record {
  action = action_ok→ActionOk p.action a;
  flags = flags→All c p.flags f;
  scheme = by_list c.allowed_schemes refl;
}
  where
    by_list :
        (l : List Text) → c.allowed_schemes ≡ l → (c.allowed_schemes ≡ []) ⊎ GivesScheme p.flags
    by_list [] e = inl e
    by_list (x ∷ l) e = inr (names→GivesScheme p.flags (ground arith))

pub Acceptable→Accepts : (c : ClassifierConfig) (p : ParsedArgv) → Acceptable c p → Accepts c p
Acceptable→Accepts c p h = (
  ActionOk→action_ok p.action h.action,
  All→flags c p.flags h.flags,
  elim (h.scheme) [
    | inl e ↦ ground arith
    | inr g ↦
        let named = GivesScheme→names p.flags g in or_true (is_empty c.allowed_schemes) _ named
  ],
)
  where
    or_true : (x y : Bool) → y ≡ true → (x || y) ≡ true
    or_true true y e = refl
    or_true false y e = e
