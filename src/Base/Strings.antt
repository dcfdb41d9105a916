-- ===== src/Base/Strings.antt =====
-- A `String` or `&str` of the source is the list of its code points, in the order of the text.
-- (UTF-8 keeps the order of code points, so comparing the lists compares the bytes.)
use Prim.Native.Char.{code}
use Prim.Native.String.{String}
use mathlib.Core.Logic.Or
use mathlib.Core.Bool.{Bool-set, false≢true}
use mathlib.Core.List.{append_assoc, mem-cons, not-mem-nil, mem-cons_self, mem-cons_of_mem}
use rch_mac.Base.Tests.{
  ltb, if◌then◌else◌, ◌+◌, ◌/◌, ◌%◌, ℕ, Bool, true, false, ◌&&◌, ◌||◌, ◌==◌, Bool-cases,
}
use rch_mac.Base.Lists.{
  List, [], ◌∷◌, ◌++◌, ◌≡◌, refl, sym, ap, ◌∙◌, ◌↔◌, arith, Mem, subst, inl, inr,
}

abbrev pub Text : Type 0
Text = List ℕ

-- A literal of the source.
abbrev pub text : String → Text
text String.[] = []
text (String.◌∷◌ c s) = code c ∷ text s

unfoldable pub text_eq : Text → Text → Bool
text_eq [] [] = true
text_eq [] (y ∷ t) = false
text_eq (x ∷ s) [] = false
text_eq (x ∷ s) (y ∷ t) = x == y && text_eq s t

pub text_eq_iff : (s t : Text) → (text_eq s t ≡ true) ↔ (s ≡ t)
unfolding text_eq
text_eq_iff [] [] = (λ _. refl, λ _. refl)
text_eq_iff [] (y ∷ t) = ground arith
text_eq_iff (x ∷ s) [] = ground arith
text_eq_iff (x ∷ s) (y ∷ t) = ground (arith, text_eq_iff s t)

-- `contains` of a slice of strings and of a set of strings.
unfoldable pub contains : List Text → Text → Bool
contains [] t = false
contains (s ∷ l) t = text_eq s t || contains l t

-- `starts_with` and `contains` for one character, and `starts_with` for a text.
unfoldable pub starts_with_char : Text → ℕ → Bool
starts_with_char [] c = false
starts_with_char (x ∷ s) c = x == c

unfoldable pub contains_char : Text → ℕ → Bool
contains_char [] c = false
contains_char (x ∷ s) c = x == c || contains_char s c

unfoldable pub starts_with : Text → Text → Bool
starts_with s [] = true
starts_with [] (y ∷ t) = false
starts_with (x ∷ s) (y ∷ t) = x == y && starts_with s t

contains→Mem : (l : List Text) (t : Text) → contains l t ≡ true → Mem t l
unfolding contains
contains→Mem [] t h = absurd (false≢true h)
contains→Mem (s ∷ l) t h = elim (Bool-cases (text_eq s t)) [
  | inl e ↦ subst (λ w. Mem w (s ∷ l)) ((text_eq_iff s t).0 e) mem-cons_self
  | inr e ↦ mem-cons_of_mem s (contains→Mem l t (ground arith))
]

Mem→contains : (l : List Text) (t : Text) → Mem t l → contains l t ≡ true
unfolding contains
Mem→contains [] t m = absurd (not-mem-nil m)
Mem→contains (s ∷ l) t m =
    Or.elim (Bool-set _ _) (mem-cons.0 m) (λ e. ground (arith, text_eq_iff s t))
      (λ m'. ground (arith, Mem→contains l t m'))

pub contains_iff : (l : List Text) (t : Text) → (contains l t ≡ true) ↔ Mem t l
contains_iff l t = (contains→Mem l t, Mem→contains l t)

-- `contains` for a text.
unfoldable pub contains_text : Text → Text → Bool
contains_text [] t = starts_with [] t
contains_text (x ∷ s) t = starts_with (x ∷ s) t || contains_text s t

-- `join`
unfoldable pub join : Text → List Text → Text
join sep [] = []
join sep (s ∷ []) = s
join sep (s ∷ t ∷ l) = s ++ (sep ++ join sep (t ∷ l))

-- The bytes of a `String`: UTF-8.
abbrev char_bytes : ℕ → List ℕ
char_bytes c =
    if ltb c 128
    then c ∷ []
    else if ltb c 2048
    then (192 + c / 64) ∷ (128 + c % 64) ∷ []
    else if ltb c 65536
    then (224 + c / 4096) ∷ (128 + c / 64 % 64) ∷ (128 + c % 64) ∷ []
    else (240 + c / 262144) ∷ (128 + c / 4096 % 64) ∷ (128 + c / 64 % 64) ∷ (128 + c % 64) ∷ []

unfoldable pub utf8 : Text → List ℕ
utf8 [] = []
utf8 (c ∷ s) = char_bytes c ++ utf8 s

pub utf8-append : (s t : Text) → utf8 (s ++ t) ≡ utf8 s ++ utf8 t
unfolding utf8
utf8-append [] t = refl
utf8-append (c ∷ s) t =
    ap (λ r. char_bytes c ++ r) (utf8-append s t)
    ∙ sym (append_assoc (char_bytes c) (utf8 s) (utf8 t))
