-- ===== src/Edit/Expect/Identifier.antt =====
-- `identifier_at` returns the whole identifier that a position touches.
use henka.Common.{
  ℕ, ◌+◌, ◌≤◌, ◌<◌, ◌≡◌, ◌≢◌, ◌⊎◌, inl, inr, refl, sym, ap, ◌∙◌, Bool, true, false, all, [], ◌∷◌,
  ◌++◌, append_assoc, Option, none, some, arith, reverse, reverse-append, reverse-reverse,
  Bool-cases,
}
use henka.Text.{Text, byte_len, split_at}
use henka.Text.Offsets.{IsBoundary, split_at-boundary, byte_len-append}
use henka.Text.Search.{trim_start}
use henka.Error.{Result, ok}
use henka.Text.Trim.{BeginsOff, trim_start-BeginsOff, all-append, all-reverse}
use henka.Edit.{u32_mod, PositionEncoding, Position}
use henka.Edit.Offset.{resolve_offset}
use henka.Edit.Offset.Boundary.{resolve_offset-cases, IsOffset-IsBoundary}
use henka.Edit.Expect.{lead, is_identifier_char, around, non_empty, identifier_at}

lead-trim_start : (f : ℕ → Bool) (t : Text) → lead f t ++ trim_start f t ≡ t
unfolding lead trim_start
lead-trim_start f [] = refl
lead-trim_start f (c ∷ t) = elim (Bool-cases (f c)) [
  | inl e ↦ rw e (ap (λ x. c ∷ x) (lead-trim_start f t))
  | inr e ↦ rw e refl
]

regroup : (a b c d : Text) → (a ++ b) ++ (c ++ d) ≡ a ++ ((b ++ c) ++ d)
regroup a b c d = simp append_assoc

all-lead : (f : ℕ → Bool) (t : Text) → all f (lead f t) ≡ true
unfolding lead
all-lead f [] = refl
all-lead f (c ∷ t) = ground (arith, all-lead f t)

-- Around the offset stands `word`: all of it are identifier characters, and it cannot be extended
-- to either side.
pub record IsWhole (f : ℕ → Bool) (text : Text) (offset : ℕ) (word : Text) : Type 0 where
  pub before : Text
  pub after : Text
  pub joined : text ≡ before ++ (word ++ after)
  pub all_identifier : all f word ≡ true
  pub ends_before : BeginsOff f (reverse before)
  pub ends_after : BeginsOff f after
  pub from_offset : byte_len before ≤ offset
  pub to_offset : offset ≤ byte_len before + byte_len word

module _ (is_alphanumeric : ℕ → Bool) where
  abbrev f : ℕ → Bool
  f = is_identifier_char is_alphanumeric

  around-IsWhole :
      (text : Text) (offset : ℕ) (k : IsBoundary text offset)
      → IsWhole f text offset (around is_alphanumeric (k.before, k.after))
  around-IsWhole text offset k =
      let left = reverse (lead f (reverse k.before)) in
      let right = lead f k.after in
      let rest = reverse (trim_start f (reverse k.before)) in
      let e : rest ++ left ≡ k.before =
        sym (reverse-append (lead f (reverse k.before)) (trim_start f (reverse k.before)))
        ∙ ap reverse (lead-trim_start f (reverse k.before))
        ∙ reverse-reverse k.before in
      let len : byte_len rest + byte_len left ≡ offset =
        sym (byte_len-append rest left) ∙ ap byte_len e ∙ k.measured in
      record {
        before = rest;
        after = trim_start f k.after;
        joined =
            k.joined
            ∙ ap (λ x. x ++ k.after) (sym e)
            ∙ ap (λ x. (rest ++ left) ++ x) (sym (lead-trim_start f k.after))
            ∙ regroup rest left right (trim_start f k.after);
        all_identifier =
            all-append f left right (all-reverse f _ (all-lead f _)) (all-lead f k.after);
        ends_before = rw reverse-reverse (trim_start-BeginsOff f (reverse k.before));
        ends_after = trim_start-BeginsOff f k.after;
        from_offset = omega (arith, len);
        to_offset = rw (byte_len-append left right) (omega (arith, len));
      }

  -- What `identifier_at` returns: nothing if the line is out of range or no identifier touches
  -- the position, and otherwise the whole identifier.
  abbrev pub IsIdentified : Text → Position → PositionEncoding → Result (Option Text) → Type 0
  IsIdentified text pos encoding (ok none) =
      (resolve_offset text pos encoding ≡ ok none)
      ⊎ ((offset : ℕ) × (resolve_offset text pos encoding ≡ ok (some offset))
          × IsWhole f text offset [])
  IsIdentified text pos encoding (ok (some word)) =
      (offset : ℕ) × (resolve_offset text pos encoding ≡ ok (some offset))
      × IsWhole f text offset word
      × (word ≢ [])
  IsIdentified text pos encoding _ = true ≡ false

  non_empty-IsIdentified :
      (text : Text) (pos : Position) (encoding : PositionEncoding) (offset : ℕ) (word : Text)
      → resolve_offset text pos encoding ≡ ok (some offset)
      → IsWhole f text offset word
      → IsIdentified text pos encoding (ok (non_empty is_alphanumeric word))
  non_empty-IsIdentified text pos encoding offset [] e w = inr (offset, e, w)
  non_empty-IsIdentified text pos encoding offset (c ∷ word) e w = (offset, e, w, λ p. cc)

  -- On a line number that is a `u32`, `identifier_at` does not panic: it returns nothing if the
  -- line is out of range or no identifier touches the position, and otherwise the identifier
  -- around the position, as far as it reaches to both sides.
  pub identifier_at-IsIdentified :
      (text : Text) (pos : Position) (encoding : PositionEncoding)
      → pos.line < u32_mod
      → IsIdentified text pos encoding (identifier_at is_alphanumeric text pos encoding)
  unfolding identifier_at
  identifier_at-IsIdentified text pos encoding small =
      elim (resolve_offset-cases text pos encoding small) [
        | inl (gone, _) ↦ rw gone (inl gone)
        | inr (offset, found, at) ↦
            let k = IsOffset-IsBoundary at in
            let split : split_at text offset ≡ some (k.before, k.after) = split_at-boundary k in
            rw found (
              rw split (
                non_empty-IsIdentified text pos encoding offset _ found
                  (around-IsWhole text offset k)))
      ]
