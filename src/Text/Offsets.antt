-- ===== src/Text/Offsets.antt =====
-- Byte offsets into a text: where a split succeeds, and how offsets add up.
use henka.Common.{
  ℕ, zero, suc, ◌+◌, ◌≤◌, ◌<◌, ◌≡◌, refl, ◌-◌, [], ◌∷◌, ◌++◌, Option, none, some, arith, leb,
  le→leb, leb→le, inl, inr, Bool-cases,
}
use henka.Text.{Text, len_utf8, byte_len, split_at, cons_left}

pub len_utf8_pos : (c : ℕ) → 0 < len_utf8 c
unfolding len_utf8
len_utf8_pos c = ground arith

pub byte_len-append : (a b : Text) → byte_len (a ++ b) ≡ byte_len a + byte_len b
byte_len-append [] b = omega arith
byte_len-append (c ∷ a) b = omega (arith, byte_len-append a b)

-- `n` is a character boundary of `t`: the two sides are kept.
pub record IsBoundary (t : Text) (n : ℕ) : Type 0 where
  pub before : Text
  pub after : Text
  pub joined : t ≡ before ++ after
  pub measured : byte_len before ≡ n

split_at-cons :
    (c : ℕ) (cs : Text) (n : ℕ)
    → len_utf8 c ≤ n
    → split_at (c ∷ cs) n ≡ cons_left c (split_at cs (n - len_utf8 c))
unfolding split_at
split_at-cons c cs zero h = absurd (omega (arith, len_utf8_pos c))
split_at-cons c cs (suc n) h = rw (le→leb (len_utf8 c) (suc n) h)

-- A split at the length of a prefix gives that prefix back.
pub split_at-append : (a b : Text) → split_at (a ++ b) (byte_len a) ≡ some (a, b)
split_at-append [] b = unfold split_at in refl
split_at-append (c ∷ a) b =
    let back : len_utf8 c + byte_len a - len_utf8 c ≡ byte_len a = omega arith in
    rw (split_at-cons c (a ++ b) (len_utf8 c + byte_len a) (omega arith))
      (rw (back, split_at-append a b))

cons_left_inv :
    (c : ℕ) (r : Option (Text × Text)) {a b : Text}
    → cons_left c r ≡ some (a, b)
    → (a' : Text) × (a ≡ c ∷ a') × (r ≡ some (a', b))
cons_left_inv c none h = cc
cons_left_inv c (some (a', b')) h = (a', ground arith, ground arith)

-- A split that succeeds cuts the text in two, at the offset.
pub split_at_sound :
    (t : Text) (n : ℕ) {a b : Text} → split_at t n ≡ some (a, b) → (t ≡ a ++ b) × (byte_len a ≡ n)
unfolding split_at
split_at_sound t zero h = ground arith
split_at_sound [] (suc n) h = ground arith
split_at_sound (c ∷ cs) (suc n) {a} {b} h = elim (Bool-cases (leb (len_utf8 c) (suc n))) [
  | inr small ↦ cc (rw small at h)
  | inl fits ↦
      let (a', ea, er) = cons_left_inv c (split_at cs (suc n - len_utf8 c)) (rw fits at h) in
      let ih = split_at_sound cs (suc n - len_utf8 c) er in
      (cc (ea, ih.0), rw ea (omega (arith, ih.1, leb→le (len_utf8 c) (suc n) fits)))
]

-- A text splits exactly at its boundaries.
pub split_at-boundary :
    {t : Text} {n : ℕ} (k : IsBoundary t n) → split_at t n ≡ some (k.before, k.after)
split_at-boundary {t} {n} k = rw (k.joined, ← k.measured) (split_at-append k.before k.after)
