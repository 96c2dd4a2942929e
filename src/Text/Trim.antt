-- ===== src/Text/Trim.antt =====
-- Trimming: what is left does not begin, or end, with what is trimmed.
use mathlib.Core.Path.{subst}
use henka.Common.{
  ℕ, ◌≡◌, inl, inr, refl, ap, sym, ◌∙◌, Bool, true, false, all, [], ◌∷◌, ◌++◌, arith, nat_eq,
  list_eq, reverse, reverse-cons, Bool-cases, reverse-append, reverse-reverse,
}
use henka.Text.{Text}
use henka.Text.Search.{trim_start, trim_matches}

pub all-append :
    (f : ℕ → Bool) (a b : Text) → all f a ≡ true → all f b ≡ true → all f (a ++ b) ≡ true
all-append f [] b h k = k
all-append f (c ∷ a) b h k = ground (arith, all-append f a b)

pub all-reverse : (f : ℕ → Bool) (t : Text) → all f t ≡ true → all f (reverse t) ≡ true
all-reverse f [] h = refl
all-reverse f (c ∷ t) h =
    rw reverse-cons
      (all-append f (reverse t) (c ∷ []) (all-reverse f t (ground arith)) (ground arith))

all-trim_start : (f g : ℕ → Bool) (t : Text) → all f t ≡ true → all f (trim_start g t) ≡ true
unfolding trim_start
all-trim_start f g [] h = refl
all-trim_start f g (c ∷ t) h = ground (arith, all-trim_start f g t)

-- A text does not begin with a character that satisfies `f`.
abbrev pub BeginsOff : (ℕ → Bool) → Text → Type 0
BeginsOff f [] = Unit
BeginsOff f (c ∷ t) = f c ≡ false

pub trim_start-BeginsOff : (f : ℕ → Bool) (t : Text) → BeginsOff f (trim_start f t)
unfolding trim_start
trim_start-BeginsOff f [] = tt
trim_start-BeginsOff f (c ∷ t) = elim (Bool-cases (f c)) [
  | inl e ↦ rw e (trim_start-BeginsOff f t)
  | inr e ↦ rw e e
]

record IsSuffix (a t : Text) : Type 0 where
  dropped : Text
  joined : t ≡ dropped ++ a

trim_start-IsSuffix : (f : ℕ → Bool) (t : Text) → IsSuffix (trim_start f t) t
unfolding trim_start
trim_start-IsSuffix f [] = record { dropped = []; joined = refl }
trim_start-IsSuffix f (c ∷ t) = elim (Bool-cases (f c)) [
  | inl e ↦
      let s = trim_start-IsSuffix f t in
      rw e (record { dropped = c ∷ s.dropped; joined = ap (λ x. c ∷ x) s.joined })
  | inr e ↦ rw e (record { dropped = []; joined = refl })
]

BeginsOff-append : (f : ℕ → Bool) (a b : Text) → BeginsOff f (a ++ b) → BeginsOff f a
BeginsOff-append f [] b h = tt
BeginsOff-append f (c ∷ a) b h = h

pub trim_matches-BeginsOff : (f : ℕ → Bool) (t : Text) → BeginsOff f (trim_matches f t)
unfolding trim_matches
trim_matches-BeginsOff f t =
    let v = trim_start f t in
    let s = trim_start-IsSuffix f (reverse v) in
    let e : v ≡ reverse (trim_start f (reverse v)) ++ reverse s.dropped =
      sym (reverse-reverse v)
      ∙ ap reverse s.joined
      ∙ reverse-append s.dropped (trim_start f (reverse v)) in
    BeginsOff-append f (reverse (trim_start f (reverse v))) (reverse s.dropped)
      (subst (BeginsOff f) e (trim_start-BeginsOff f t))

pub trim_matches-EndsOff : (f : ℕ → Bool) (t : Text) → BeginsOff f (reverse (trim_matches f t))
unfolding trim_matches
trim_matches-EndsOff f t = rw reverse-reverse (trim_start-BeginsOff f (reverse (trim_start f t)))

pub all-trim_matches :
    (f g : ℕ → Bool) (t : Text) → all f t ≡ true → all f (trim_matches g t) ≡ true
unfolding trim_matches
all-trim_matches f g t h =
    all-reverse f _ (all-trim_start f g _ (all-reverse f _ (all-trim_start f g t h)))
