-- ===== src/Lsp/Convert/Source/Window.antt =====
-- The lines that a slice takes of a file.
use henka.Common.{
  ℕ, zero, suc, ◌+◌, ◌-◌, ◌≤◌, ◌<◌, ◌≡◌, refl, ap, ◌∙◌, true, ◌&&◌, List, [], ◌∷◌, ◌++◌, some, leb,
  ltb, arith, nat_eq, list_eq, length, take, drop,
}
use henka.Text.{Text}
use henka.Lsp.Convert.Source.{slice}

-- `window` is what stands in `ts` from line `first` through line `last`.
pub record IsWindow (ts : List Text) (first last : ℕ) (window : List Text) : Type 0 where
  pub before : List Text
  pub after : List Text
  pub whole : ts ≡ before ++ (window ++ after)
  pub starts : length before ≡ first
  pub ends : first + length window ≡ last + 1

pub take-drop_lem {ℓ} : {A : Type ℓ} (n : ℕ) (ts : List A) → ts ≡ take n ts ++ drop n ts
take-drop_lem zero ts = refl
take-drop_lem (suc n) [] = refl
take-drop_lem (suc n) (t ∷ ts) = ap (λ u. t ∷ u) (take-drop_lem n ts)

pub length-take_le {ℓ} : {A : Type ℓ} (n : ℕ) (ts : List A) → n ≤ length ts → length (take n ts) ≡ n
length-take_le zero ts h = refl
length-take_le (suc n) [] h = ground (arith, h)
length-take_le (suc n) (t ∷ ts) h = omega (arith, length-take_le n ts (omega (arith, h)))

pub length-drop_lem {ℓ} : {A : Type ℓ} (n : ℕ) (ts : List A) → length (drop n ts) ≡ length ts - n
length-drop_lem zero ts = omega arith
length-drop_lem (suc n) [] = omega arith
length-drop_lem (suc n) (t ∷ ts) = omega (arith, length-drop_lem n ts)

-- A slice that is inside the lines is the window, and does not panic.
pub record Sliced (ts : List Text) (first last : ℕ) : Type 0 where
  pub window : List Text
  pub sliced : slice ts first last ≡ some window
  pub framed : IsWindow ts first last window

pub slice-Sliced :
    (ts : List Text) (first last : ℕ) → first ≤ last → last < length ts → Sliced ts first last
unfolding slice
slice-Sliced ts first last h k =
    let count = last + 1 - first in
    let rest = drop first ts in
    record {
      window = take count rest;
      sliced =
          let inside : (leb first (last + 1) && ltb last (length ts)) ≡ true =
            ground (arith, h, k) in
          rw inside refl;
      framed = record {
        before = take first ts;
        after = drop count rest;
        whole = take-drop_lem first ts ∙ ap (λ u. take first ts ++ u) (take-drop_lem count rest);
        starts = length-take_le first ts (omega (arith, h, k));
        ends = omega (
          arith,
          length-take_le count rest (omega (arith, length-drop_lem first ts, h, k)),
          h,
          k,
        );
      };
    }
