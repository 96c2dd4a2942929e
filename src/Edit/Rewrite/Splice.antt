-- ===== src/Edit/Rewrite/Splice.antt =====
-- Splicing byte ranges from the end is the replacement of every range at once.
use henka.Common.{
  ℕ, ◌+◌, ◌≤◌, ◌≡◌, refl, sym, ap, ◌∙◌, false, List, [], ◌∷◌, ◌++◌, some, arith, ltb, append_assoc,
  reverse, reverse-cons,
}
use henka.Text.{Text, len_utf8, byte_len, split_at}
use henka.Text.Offsets.{IsBoundary, byte_len-append, split_at-append, len_utf8_pos}
use henka.Error.{Result, ok, err, panic, ◌>>=◌}
use henka.Edit.Rewrite.{ByteEdit, replace_range, splice}

-- `out` is `t`, whose first byte has offset `base`, with the range of every edit replaced by the
-- edit's text and all else kept, in order.
abbrev pub Replaces : List ByteEdit → ℕ → Text → Text → Type 0
Replaces [] base t out = t ≡ out
Replaces (e ∷ es) base t out =
    (kept removed rest out' : Text) × (t ≡ kept ++ (removed ++ rest))
    × (base + byte_len kept ≡ e.start)
    × (e.start + byte_len removed ≡ e.end)
    × (out ≡ kept ++ (e.text ++ out'))
    × Replaces es e.end rest out'

-- The edits lie on boundaries of `t`, in order and apart, none inverted, from `base` on.
abbrev pub Fits : Text → ℕ → List ByteEdit → Type 0
Fits t base [] = Unit
Fits t base (e ∷ es) =
    (base ≤ e.start)
    × (e.start ≤ e.end)
    × IsBoundary t e.start
    × IsBoundary t e.end
    × Fits t e.end es

-- Of two ways to cut a text, the longer first part begins with the shorter.
cut-cut :
    (a b c d : Text)
    → a ++ b ≡ c ++ d
    → byte_len a ≤ byte_len c
    → (m : Text) × (c ≡ a ++ m) × (b ≡ m ++ d)
cut-cut [] b c d e h = (c, refl, e)
cut-cut (x ∷ a) b [] d e h = absurd (omega (arith, len_utf8_pos x))
cut-cut (x ∷ a) b (y ∷ c) d e h =
    let same : x ≡ y = cc in
    let (m, ec, eb) = cut-cut a b c d (cc) (omega (arith, ap len_utf8 same)) in (m, cc, eb)

pub splice-append :
    (t : Text) (xs ys : List ByteEdit) → splice t (xs ++ ys) ≡ (splice t xs >>= λ u. splice u ys)
unfolding splice
splice-append t [] ys = refl
splice-append t (x ∷ xs) ys = go (replace_range t x) (λ u. splice-append u xs ys)
  where
    go :
        (r : Result Text)
        → ((u : Text) → splice u (xs ++ ys) ≡ (splice u xs >>= λ v. splice v ys))
        → (r >>= λ u. splice u (xs ++ ys)) ≡ ((r >>= λ u. splice u xs) >>= λ u. splice u ys)
    go (ok u) ih = ih u
    go (err e) ih = refl
    go panic ih = refl

splice-reverse-cons :
    (t : Text) (e : ByteEdit) (es : List ByteEdit)
    → splice t (reverse (e ∷ es)) ≡ (splice t (reverse es) >>= λ u. splice u (e ∷ []))
splice-reverse-cons t e es = rw reverse-cons (splice-append t (reverse es) (e ∷ []))

-- One replacement, in a text whose parts are known.
splice_one :
    (low mid high : Text) (e : ByteEdit)
    → byte_len low ≡ e.start
    → byte_len (low ++ mid) ≡ e.end
    → e.start ≤ e.end
    → splice ((low ++ mid) ++ high) (e ∷ []) ≡ ok (low ++ (e.text ++ high))
unfolding splice replace_range
splice_one low mid high e es ee le =
    let upright : ltb e.end e.start ≡ false = ground arith in
    let upper : split_at ((low ++ mid) ++ high) e.end ≡ some (low ++ mid, high) =
      rw (← ee) (split_at-append (low ++ mid) high) in
    let lower : split_at (low ++ mid) e.start ≡ some (low, mid) =
      rw (← es) (split_at-append low mid) in
    rw (upright, upper, lower)

-- The loop from the end, over edits that fit, succeeds with the replacement of all of them.
pub splice-reverse :
    (es : List ByteEdit) (whole pre t : Text) (base : ℕ)
    → whole ≡ pre ++ t
    → byte_len pre ≡ base
    → Fits whole base es
    → (out : Text) × Replaces es base t out × (splice whole (reverse es) ≡ ok (pre ++ out))
splice-reverse [] whole pre t base ew eb h = (t, refl, unfold splice in ap ok ew)
splice-reverse (e ∷ es) whole pre t base ew eb (lo, le, k, l, fits) =
    let (kept, ekb, et) =
      cut-cut pre t k.before k.after (sym ew ∙ k.joined) (omega (arith, k.measured)) in
    let (removed, elb, eka) =
      cut-cut k.before k.after l.before l.after (sym k.joined ∙ l.joined)
        (omega (arith, k.measured, l.measured)) in
    let (out, replaced, run) =
      splice-reverse es whole l.before l.after e.end l.joined l.measured fits in
    let replaced_last : splice (l.before ++ out) (e ∷ []) ≡ ok (k.before ++ (e.text ++ out)) =
      rw elb
        (splice_one k.before removed out e k.measured (ap byte_len (sym elb) ∙ l.measured) le) in
    (
      kept ++ (e.text ++ out),
      (
        kept,
        removed,
        l.after,
        out,
        cc (et, eka),
        omega (arith, k.measured, ap byte_len ekb, byte_len-append pre kept),
        omega (arith, k.measured, l.measured, ap byte_len elb, byte_len-append k.before removed),
        refl,
        replaced,
      ),
      splice-reverse-cons whole e es
          ∙ ap (λ (r : Result Text). r >>= λ u. splice u (e ∷ [])) run
          ∙ replaced_last
          ∙ ap ok
              (ap (λ (x : Text). x ++ (e.text ++ out)) ekb ∙ append_assoc pre kept (e.text ++ out)),
    )
