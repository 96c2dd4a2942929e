-- ===== src/Edit/Expect.antt =====
-- The readers of crates/henka-core/src/edit.rs that check a caller's coordinates: `identifier_at`
-- and `text_in_range`.
pub mod Identifier
use henka.Common.{
  ℕ, ◌-◌, Bool, ◌||◌, [], ◌∷◌, ◌++◌, Option, none, some, leb, reverse, ◌==◌, list_eq, nat_eq,
  if◌then◌else◌,
}
use henka.Text.{Text, split_at}
use henka.Error.{Result, ok, or_panic, ◌>>=◌}
use henka.Edit.{PositionEncoding, Position, Range}
use henka.Edit.Offset.{resolve_offset}

-- The characters in front that satisfy `f`: those that a loop passes before it breaks.
unfoldable pub lead : (ℕ → Bool) → Text → Text
lead f [] = []
lead f (c ∷ t) = let rest = lead f t in if f c then c ∷ rest else []

-- `char::is_alphanumeric` knows all of Unicode: a parameter.
module _ (is_alphanumeric : ℕ → Bool) where
  abbrev pub is_identifier_char : ℕ → Bool
  is_identifier_char ch = is_alphanumeric ch || (ch == b'_' || ch == b'$')

  -- The two loops, over `text[..offset]` from its end and over `text[offset..]`; what lies between
  -- the offsets that they stop at is what they have passed.
  abbrev pub around : Text × Text → Text
  around (before, after) =
      reverse (lead is_identifier_char (reverse before)) ++ lead is_identifier_char after

  abbrev pub non_empty : Text → Option Text
  non_empty [] = none
  non_empty (c ∷ t) = some (c ∷ t)

  abbrev pub identifier_in : Text → Option ℕ → Result (Option Text)
  identifier_in text none = ok none
  identifier_in text (some offset) =
      or_panic (split_at text offset) >>= λ sides. ok (non_empty (around sides))

  unfoldable pub identifier_at : Text → Position → PositionEncoding → Result (Option Text)
  identifier_at text pos encoding = resolve_offset text pos encoding >>= identifier_in text

-- `&text[start..end]`, of a range that is not inverted.
abbrev slice : Text → ℕ → ℕ → Result (Option Text)
slice text start end = do
  sides ← or_panic (split_at text start)
  middle ← or_panic (split_at sides.1 (end - start))
  ok (some middle.0)

abbrev text_between : Text → Option ℕ → Option ℕ → Result (Option Text)
text_between text none b = ok none
text_between text (some start) none = ok none
text_between text (some start) (some end) = if leb start end then slice text start end else ok none

-- A start out of range returns before the end is looked at.
unfoldable pub text_in_range : Text → Range → PositionEncoding → Result (Option Text)
text_in_range text range encoding = resolve_offset text range.start encoding >>= λ start.
    resolve_offset text range.end encoding >>= λ end. text_between text start end
