-- ===== src/Text/Decimal.antt =====
-- Decimal numbers: `usize` as `Display` writes it, and `str::parse::<usize>`.
use mathlib.Core.Logic.{dite, dif_pos, dif_neg}
use mathlib.Core.WellFounded.{Acc}
use native.Mathlib.Bridge.{le_prop}
use native.Mathlib.Decide.{dec_lt}
use henka.Common.{
  ℕ, zero, suc, ◌+◌, ◌-◌, ◌*◌, ◌/◌, ◌%◌, ◌^◌, ◌<◌, ◌≡◌, refl, sym, ap, ◌∙◌, true, false, ◌&&◌, [],
  ◌∷◌, Option, none, some, arith, ltb, ◌==◌, nat_eq, all, if◌then◌else◌, Bool-cases, inl, inr,
}
use henka.Text.{Text, codes}
use henka.Text.Search.{is_ascii_digit}

unfoldable pub below : (k n : ℕ) → n < k → Acc ◌<◌ n
below zero n h = elim h [ ]
below (suc k) n h = Acc.intro n (λ m lt. below k m (omega arith))

-- The digits of `n` in front of `out`, none for zero.
unfoldable pub digits : (n : ℕ) → Acc ◌<◌ n → Text → Text
digits n (Acc.intro _ smaller) out =
    dite (dec_lt 0 n)
      (λ h. digits (n / 10) (smaller (n / 10) (omega arith)) ((b'0' + n % 10) ∷ out)) (λ _. out)

-- `n.to_string()`
unfoldable pub to_decimal : ℕ → Text
unfolding digits below dec_lt
to_decimal n = if n == 0 then codes "0" else digits n (below (suc n) n (omega arith)) []

abbrev pub usize_mod : ℕ
usize_mod = 2 ^ 64

-- The digits behind `n`; `none` on another character, or past the largest `usize`.
unfoldable pub parse_digits : Text → ℕ → Option ℕ
parse_digits [] n = some n
parse_digits (c ∷ t) n =
    let next = n * 10 + (c - b'0') in
    let rest = parse_digits t next in if is_ascii_digit c && ltb next usize_mod then rest else none

unfoldable pub parse_usize : Text → Option ℕ
unfolding parse_digits
parse_usize [] = none
parse_usize (c ∷ []) = if c == b'+' then none else parse_digits (c ∷ []) 0
parse_usize (c ∷ d ∷ t) = if c == b'+' then parse_digits (d ∷ t) 0 else parse_digits (c ∷ d ∷ t) 0

parse_digits-digit :
    (n : ℕ) (out : Text)
    → n < usize_mod
    → parse_digits ((b'0' + n % 10) ∷ out) (n / 10) ≡ parse_digits out n
unfolding parse_digits
parse_digits-digit n out h =
    let back : n / 10 * 10 + (b'0' + n % 10 - b'0') ≡ n = omega arith in
    let fits : (is_ascii_digit (b'0' + n % 10) && ltb n usize_mod) ≡ true = ground arith in
    rw back (rw fits refl)

parse_digits-digits :
    (n : ℕ) (w : Acc ◌<◌ n) (out : Text)
    → n < usize_mod
    → parse_digits (digits n w out) 0 ≡ parse_digits out n
unfolding digits
parse_digits-digits n (Acc.intro _ smaller) out h = elim (dec_lt 0 n) [
  | yes p ↦ rw (dif_pos _ le_prop p) (
      parse_digits-digits (n / 10) (smaller (n / 10) (omega arith)) ((b'0' + n % 10) ∷ out)
        (omega arith)
      ∙ parse_digits-digit n out h)
  | no p ↦ rw (dif_neg _ p) (ap (parse_digits out) (omega arith))
]

-- Digits only, and at least one.
all-digits :
    (n : ℕ) (w : Acc ◌<◌ n) (out : Text)
    → all is_ascii_digit out ≡ true
    → all is_ascii_digit (digits n w out) ≡ true
unfolding digits
all-digits n (Acc.intro _ smaller) out h = elim (dec_lt 0 n) [
  | yes p ↦ rw (dif_pos _ le_prop p) (
      all-digits (n / 10) (smaller (n / 10) (omega arith)) ((b'0' + n % 10) ∷ out)
        (ground (arith, h)))
  | no p ↦ rw (dif_neg _ p) h
]

pub all-to_decimal : (n : ℕ) → all is_ascii_digit (to_decimal n) ≡ true
unfolding to_decimal
all-to_decimal n = elim (Bool-cases (n == 0)) [
  | inl nil ↦ rw nil refl
  | inr pos ↦ rw pos (all-digits n (below (suc n) n (omega arith)) [] refl)
]

digits-cons :
    (n : ℕ) (w : Acc ◌<◌ n) (c : ℕ) (out : Text)
    → (c' : ℕ) × (t : Text) × (digits n w (c ∷ out) ≡ c' ∷ t)
unfolding digits
digits-cons n (Acc.intro _ smaller) c out = elim (dec_lt 0 n) [
  | yes p ↦
      rw (dif_pos _ le_prop p)
        (digits-cons (n / 10) (smaller (n / 10) (omega arith)) (b'0' + n % 10) (c ∷ out))
  | no p ↦ rw (dif_neg _ p) (c, out, refl)
]

digits_pos : (n : ℕ) (w : Acc ◌<◌ n) → 0 < n → (c : ℕ) × (t : Text) × (digits n w [] ≡ c ∷ t)
unfolding digits
digits_pos n (Acc.intro _ smaller) h =
    rw (dif_pos _ le_prop h)
      (digits-cons (n / 10) (smaller (n / 10) (omega arith)) (b'0' + n % 10) [])

pub to_decimal-cons : (n : ℕ) → (c : ℕ) × (t : Text) × (to_decimal n ≡ c ∷ t)
unfolding to_decimal
to_decimal-cons n = elim (Bool-cases (n == 0)) [
  | inl nil ↦ rw nil (b'0', [], refl)
  | inr pos ↦ rw pos (digits_pos n (below (suc n) n (omega arith)) (ground (arith, pos)))
]

parse_digits-to_decimal : (n : ℕ) → n < usize_mod → parse_digits (to_decimal n) 0 ≡ some n
unfolding to_decimal parse_digits
parse_digits-to_decimal n h = elim (Bool-cases (n == 0)) [
  | inl nil ↦ rw nil (ap some (ground (arith, nil)))
  | inr pos ↦ rw pos (parse_digits-digits n (below (suc n) n (omega arith)) [] h)
]

unsigned :
    (c : ℕ) (t : Text)
    → all is_ascii_digit (c ∷ t) ≡ true
    → parse_usize (c ∷ t) ≡ parse_digits (c ∷ t) 0
unfolding parse_usize
unsigned c [] h = let plus : (c == b'+') ≡ false = ground (arith, h) in rw plus refl
unsigned c (d ∷ t) h = let plus : (c == b'+') ≡ false = ground (arith, h) in rw plus refl

-- A number that a `usize` holds is read back from its digits.
pub parse_usize-to_decimal : (n : ℕ) → n < usize_mod → parse_usize (to_decimal n) ≡ some n
parse_usize-to_decimal n h =
    let (c, t, e) = to_decimal-cons n in
    rw e (
      unsigned c t (ap (all is_ascii_digit) (sym e) ∙ all-to_decimal n)
      ∙ ap (λ u. parse_digits u 0) (sym e)
      ∙ parse_digits-to_decimal n h)
