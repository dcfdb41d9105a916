-- ===== src/Base/Digits.antt =====
-- Numbers as texts: `{}` and `{:08x}` of `format!`, and the number that a text of digits spells.
use mathlib.Core.List.{append-nil}
use rch_mac.Base.Tests.{
  Option, none, some, true, leb, ◌^◌, ℕ, zero, suc, ◌+◌, ◌-◌, ◌*◌, ◌/◌, ◌%◌, ◌≤◌, ◌<◌, ◌==◌, ◌&&◌,
  ltb, if◌then◌else◌, Bool,
}
use rch_mac.Base.Lists.{length, [], ◌∷◌, ◌++◌, ◌≡◌, refl, sym, ap, ◌∙◌, arith}
use rch_mac.Base.Strings.{Text}

-- '0' to '9', then 'a' onwards.
abbrev pub digit : ℕ → ℕ
digit d = if ltb d 10 then 48 + d else 87 + d

abbrev digit_value : ℕ → ℕ
digit_value c = if ltb c 87 then c - 48 else c - 87

-- The digits in base `suc b`, the low one first, and zeros up to a width. Each step consumes fuel;
-- a fuel of the number and the width is enough.
unfoldable pub low_digits : ℕ → ℕ → ℕ → ℕ → Text
low_digits zero b w n = []
low_digits (suc f) b w n =
    let rest = low_digits f b (w - 1) (n / suc b) in
    if (n == 0) && (w == 0) then [] else digit (n % suc b) ∷ rest

unfoldable pub reverse : Text → Text → Text
reverse [] acc = acc
reverse (c ∷ s) acc = reverse s (c ∷ acc)

-- `{}`
abbrev pub decimal : ℕ → Text
decimal n = reverse (low_digits (suc n) 9 1 n) []

-- `{:08x}`
abbrev pub hex8 : ℕ → Text
hex8 n = reverse (low_digits (n + 8) 15 8 n) []

unfoldable value : ℕ → Text → ℕ
value b [] = 0
value b (c ∷ s) = digit_value c + suc b * value b s

value-digits : (f w n : ℕ) → n ≤ f → value 15 (low_digits f 15 w n) ≡ n
unfolding value low_digits
value-digits zero w n h = ground arith
value-digits (suc f) w n h =
    let rest = value-digits f (w - 1) (n / 16) (omega arith) in ground arith

reverse-reverse : (s a b : Text) → reverse (reverse s a) b ≡ reverse a (s ++ b)
unfolding reverse
reverse-reverse [] a b = refl
reverse-reverse (c ∷ s) a b = reverse-reverse s (c ∷ a) b

pub hex8-injective : (m n : ℕ) → hex8 m ≡ hex8 n → m ≡ n
unfolding reverse
hex8-injective m n h =
    let x = low_digits (m + 8) 15 8 m in
    let y = low_digits (n + 8) 15 8 n in
    let back : reverse (reverse x []) [] ≡ reverse (reverse y []) [] = ap (λ s. reverse s []) h in
    let same : x ≡ y =
      sym (append-nil x)
      ∙ sym (reverse-reverse x [] [])
      ∙ back
      ∙ reverse-reverse y [] []
      ∙ append-nil y in
    sym (value-digits (m + 8) 8 m (omega arith))
    ∙ ap (value 15) same
    ∙ value-digits (n + 8) 8 n (omega arith)

abbrev is_digit : ℕ → Bool
is_digit c = leb 48 c && leb c 57

unfoldable pub parse_digits : ℕ → Text → Option ℕ
parse_digits acc [] = some acc
parse_digits acc (c ∷ s) =
    let rest = parse_digits (acc * 10 + (c - 48)) s in if is_digit c then rest else none

-- `str::parse::<usize>` for 64 bits: digits with at most one plus before them, and no overflow.
abbrev bounded : Option ℕ → Option ℕ
bounded none = none
bounded (some n) = if ltb n (2 ^ 64) then some n else none

unfoldable pub parse_usize : Text → Option ℕ
parse_usize [] = none
parse_usize (c ∷ []) = bounded (parse_digits 0 (c ∷ []))
parse_usize (c ∷ d ∷ s) =
    bounded (if c == 43 then parse_digits 0 (d ∷ s) else parse_digits 0 (c ∷ d ∷ s))

-- Every character is a digit.
abbrev AllDigits : Text → Type 0
AllDigits [] = Unit
AllDigits (c ∷ s) = (is_digit c ≡ true) × AllDigits s

decimal_digits : (f w n : ℕ) → AllDigits (low_digits f 9 w n)
unfolding low_digits
decimal_digits zero w n = tt
decimal_digits (suc f) w n = let rest = decimal_digits f (w - 1) (n / 10) in ground arith

value_decimal : (f w n : ℕ) → n ≤ f → value 9 (low_digits f 9 w n) ≡ n
unfolding value low_digits
value_decimal zero w n h = ground arith
value_decimal (suc f) w n h =
    let rest = value_decimal f (w - 1) (n / 10) (omega arith) in ground arith

parse-reverse :
    (s t : Text) → AllDigits s → parse_digits 0 (reverse s t) ≡ parse_digits (value 9 s) t
unfolding reverse parse_digits value
parse-reverse [] t h = refl
parse-reverse (c ∷ s) t h = let rest = parse-reverse s (c ∷ t) h.1 in ground arith

reverse-AllDigits : (s t : Text) → AllDigits s → AllDigits t → AllDigits (reverse s t)
unfolding reverse
reverse-AllDigits [] t h k = k
reverse-AllDigits (c ∷ s) t h k = reverse-AllDigits s (c ∷ t) h.1 (h.0, k)

length-reverse : (s t : Text) → length (reverse s t) ≡ length s + length t
unfolding reverse
length-reverse [] t = omega arith
length-reverse (c ∷ s) t = let rest = length-reverse s (c ∷ t) in omega arith

parse_plain : (s : Text) → AllDigits s → 0 < length s → parse_usize s ≡ bounded (parse_digits 0 s)
unfolding parse_usize
parse_plain [] h k = absurd (omega arith)
parse_plain (c ∷ []) h k = refl
parse_plain (c ∷ d ∷ s) h k = ground arith

-- A number below 2^64 is read back from its text.
pub parse-decimal : (n : ℕ) → n < 2 ^ 64 → parse_usize (decimal n) ≡ some n
unfolding low_digits parse_digits
parse-decimal n h =
    let x = low_digits (suc n) 9 1 n in
    let digits = decimal_digits (suc n) 1 n in
    let plain =
      parse_plain (decimal n) (reverse-AllDigits x [] digits tt)
        (rw (length-reverse x []) (ground arith)) in
    let read = parse-reverse x [] digits in
    let same = value_decimal (suc n) 1 n (omega arith) in ground arith
