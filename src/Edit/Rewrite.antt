-- ===== src/Edit/Rewrite.antt =====
-- `EditApplier::rewrite_file` of crates/henka-core/src/edit.rs, behind the read of the file: the
-- edits resolved to byte ranges, ordered, checked for overlaps, and spliced from the end.
pub mod Splice
pub mod Correct
use henka.Common.{
  ℕ, Bool, true, false, ◌||◌, List, [], ◌∷◌, ◌++◌, Option, none, some, ltb, leb, sort_by, reverse,
  if◌then◌else◌,
}
use henka.Text.{Text, split_at}
use henka.FilePath.{FilePath}
use henka.Error.{
  Error, Result, ok, err, panic, position_out_of_range, overlapping_edits, ok_or, or_panic, when,
  ◌>>=◌, ◌>>◌,
}
use henka.Edit.{PositionEncoding, Position, Range, TextEdit, FileEdit}
use henka.Edit.Offset.{resolve_offset}

-- One element of `byte_edits`.
pub record ByteEdit : Type 0 where
  pub start : ℕ
  pub end : ℕ
  pub text : Text

-- `resolve_offset(..).ok_or_else(|| PositionOutOfRange)?`
unfoldable pub resolve_or : FilePath → Text → PositionEncoding → Position → Result ℕ
resolve_or abs original encoding pos = do
  offset ← resolve_offset original pos encoding
  ok_or offset (position_out_of_range abs pos.line pos.character)

unfoldable pub resolve_edit : FilePath → Text → PositionEncoding → TextEdit → Result ByteEdit
unfolding resolve_or
resolve_edit abs original encoding e = do
  start ← resolve_or abs original encoding e.range.start
  end ← resolve_or abs original encoding e.range.end
  ok (record { start = start; end = end; text = e.new_text })

unfoldable pub resolve_edits :
    FilePath → Text → PositionEncoding → List TextEdit → Result (List ByteEdit)
resolve_edits abs original encoding [] = ok []
resolve_edits abs original encoding (e ∷ es) = do
  b ← resolve_edit abs original encoding e
  bs ← resolve_edits abs original encoding es
  ok (b ∷ bs)

-- `sort_by_key(|(start, _, _)| *start)`
abbrev pub starts_no_later : ByteEdit → ByteEdit → Bool
starts_no_later a b = leb a.start b.start

-- The loop over `byte_edits.windows(2)`.
abbrev pub overlaps : List ByteEdit → Bool
overlaps [] = false
overlaps (a ∷ []) = false
overlaps (a ∷ b ∷ es) = ltb b.start a.end || overlaps (b ∷ es)

-- `updated.replace_range(start..end, new_text)`, which panics off a boundary and if `end < start`.
unfoldable pub replace_range : Text → ByteEdit → Result Text
replace_range updated e = do
  if ltb e.end e.start then panic else ok tt
  upper ← or_panic (split_at updated e.end)
  lower ← or_panic (split_at upper.0 e.start)
  ok (lower.0 ++ (e.text ++ upper.1))

unfoldable pub splice : Text → List ByteEdit → Result Text
splice updated [] = ok updated
splice updated (e ∷ es) = do next ← replace_range updated e; splice next es

-- The updated content.
unfoldable pub rewrite : FilePath → Text → PositionEncoding → List TextEdit → Result Text
rewrite abs original encoding edits = do
  resolved ← resolve_edits abs original encoding edits
  let byte_edits = sort_by starts_no_later resolved
  when (overlaps byte_edits) (overlapping_edits abs)
  splice original (reverse byte_edits)
