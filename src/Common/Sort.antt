-- ===== src/Common/Sort.antt =====
-- Rust's stable `slice::sort_by`: an element passes only those that it must precede.
use mathlib.Core.Path.{◌≡◌, refl}
use mathlib.Core.Bool.{Bool, true, false, ◌||◌}
use mathlib.Core.List.{List, [], ◌∷◌, Perm}
use mathlib.Core.List.Perm
use native.Mathlib.Omega.{arith}
use henka.Common.Tests.{if◌then◌else◌, Bool-cases}
use mathlib.Core.Logic.{inl, inr}
use henka.Common.Lists.{All, any}

module _ {ℓ} {A : Type ℓ} where
  -- `le a b` says that `a` may stand before `b`.
  pub insert_by : (A → A → Bool) → A → List A → List A
  insert_by le x [] = x ∷ []
  insert_by le x (y ∷ ys) = if le x y then x ∷ y ∷ ys else y ∷ insert_by le x ys

  unfoldable pub sort_by : (A → A → Bool) → List A → List A
  unfolding insert_by
  sort_by le [] = []
  sort_by le (x ∷ xs) = insert_by le x (sort_by le xs)

  insert_by-All {κ} :
      (P : A → Type κ) (le : A → A → Bool) (x : A) (ys : List A)
      → P x
      → All P ys
      → All P (insert_by le x ys)
  unfolding insert_by
  insert_by-All P le x [] p h = (p, tt)
  insert_by-All P le x (y ∷ ys) p h = elim (Bool-cases (le x y)) [
    | inl e ↦ rw e (p, h)
    | inr e ↦ rw e (h.0, insert_by-All P le x ys p h.1)
  ]

  pub sort_by-All {κ} :
      (P : A → Type κ) (le : A → A → Bool) (xs : List A) → All P xs → All P (sort_by le xs)
  unfolding sort_by
  sort_by-All P le [] h = tt
  sort_by-All P le (x ∷ xs) h = insert_by-All P le x (sort_by le xs) h.0 (sort_by-All P le xs h.1)

  insert_by-perm : (le : A → A → Bool) (x : A) (ys : List A) → Perm (insert_by le x ys) (x ∷ ys)
  unfolding insert_by
  insert_by-perm le x [] = Perm.refl (x ∷ [])
  insert_by-perm le x (y ∷ ys) = elim (Bool-cases (le x y)) [
    | inl e ↦ rw e (Perm.refl (x ∷ y ∷ ys))
    | inr e ↦ rw e (Perm.trans (Perm.cons y (insert_by-perm le x ys)) (Perm.swap x y ys))
  ]

  pub sort_by-perm : (le : A → A → Bool) (xs : List A) → Perm (sort_by le xs) xs
  unfolding sort_by
  sort_by-perm le [] = Perm.refl []
  sort_by-perm le (x ∷ xs) =
      Perm.trans (insert_by-perm le x (sort_by le xs)) (Perm.cons x (sort_by-perm le xs))

  -- Neighbours stand in order.
  abbrev pub IsSorted : (A → A → Bool) → List A → Type 0
  IsSorted le [] = Unit
  IsSorted le (x ∷ []) = Unit
  IsSorted le (x ∷ y ∷ ys) = (le x y ≡ true) × IsSorted le (y ∷ ys)

  insert_by-IsSorted :
      (le : A → A → Bool)
      → ((a b : A) → le a b ≡ false → le b a ≡ true)
      → (x : A) (ys : List A) → IsSorted le ys
      → IsSorted le (insert_by le x ys)
  unfolding insert_by
  insert_by-IsSorted le total x [] h = tt
  insert_by-IsSorted le total x (y ∷ []) h = elim (Bool-cases (le x y)) [
    | inl e ↦ rw e (e, tt)
    | inr e ↦ rw e (total x y e, tt)
  ]
  insert_by-IsSorted le total x (y ∷ z ∷ ys) h =
      let ih = insert_by-IsSorted le total x (z ∷ ys) h.1 in
      ground (arith, ih, total x y, total x z)

  pub sort_by-IsSorted :
      (le : A → A → Bool)
      → ((a b : A) → le a b ≡ false → le b a ≡ true)
      → (xs : List A) → IsSorted le (sort_by le xs)
  unfolding sort_by
  sort_by-IsSorted le total [] = tt
  sort_by-IsSorted le total (x ∷ xs) =
      insert_by-IsSorted le total x (sort_by le xs) (sort_by-IsSorted le total xs)

  any-insert_by :
      (f : A → Bool) (le : A → A → Bool) (x : A) (ys : List A)
      → any f (insert_by le x ys) ≡ (f x || any f ys)
  unfolding insert_by
  any-insert_by f le x [] = refl
  any-insert_by f le x (y ∷ ys) = ground (arith, any-insert_by f le x ys)

  pub any-sort_by :
      (f : A → Bool) (le : A → A → Bool) (xs : List A) → any f (sort_by le xs) ≡ any f xs
  unfolding sort_by
  any-sort_by f le [] = refl
  any-sort_by f le (x ∷ xs) =
      rw (any-insert_by f le x (sort_by le xs)) (rw (any-sort_by f le xs) refl)
