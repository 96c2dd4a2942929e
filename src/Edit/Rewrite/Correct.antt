-- ===== src/Edit/Rewrite/Correct.antt =====
-- What `rewrite_file` makes of a file: the replacement of all ranges at once, or the error that
-- names what is wrong, and never a panic as long as no range is inverted.
use henka.Common.{
  ℕ, ◌≤◌, ◌<◌, ◌≡◌, ◌⊎◌, refl, true, false, List, [], ◌∷◌, none, some, arith, ltb, Bool-cases, inl,
  inr, All, sort_by, sort_by-All,
}
use henka.Text.{Text}
use henka.Text.Offsets.{IsBoundary}
use henka.FilePath.{FilePath}
use henka.Error.{Error, Result, ok, err, panic, position_out_of_range, overlapping_edits}
use henka.Edit.{u32_mod, PositionEncoding, Position, TextEdit}
use henka.Edit.Offset.{nth_line_start, resolve_offset}
use henka.Edit.Offset.Boundary.{resolve_offset-cases, IsOffset-IsBoundary}
use henka.Edit.Offset.Order.{Precedes, resolve_offset_mono}
use henka.Edit.Rewrite.{
  ByteEdit, resolve_or, resolve_edit, resolve_edits, starts_no_later, overlaps, replace_range,
  splice, rewrite,
}
use henka.Edit.Rewrite.Splice.{Replaces, Fits, splice-reverse}

-- The lines of an edit are `u32`, and its range does not end before it starts.
pub record IsForward (e : TextEdit) : Type 0 where
  pub start_line : e.range.start.line < u32_mod
  pub end_line : e.range.end.line < u32_mod
  pub in_order : Precedes e.range.start e.range.end

-- `pos` is an end of the range of one of the edits.
abbrev pub Names : Position → List TextEdit → Type 0
Names pos [] = ⊥
Names pos (e ∷ es) = (e.range.start ≡ pos) ⊎ ((e.range.end ≡ pos) ⊎ Names pos es)

-- A byte edit that can be spliced into `t`.
abbrev pub IsPlaced : Text → ByteEdit → Type 0
IsPlaced t b = (b.start ≤ b.end) × IsBoundary t b.start × IsBoundary t b.end

module _ (abs : FilePath) (original : Text) (encoding : PositionEncoding) where
  abbrev pub range_error : Position → Error
  range_error pos = position_out_of_range abs pos.line pos.character

  resolve_or-cases :
      (pos : Position)
      → pos.line < u32_mod
      → (resolve_or abs original encoding pos ≡ err (range_error pos))
          × (nth_line_start original pos.line ≡ none)
        ⊎ ((n : ℕ) × (resolve_or abs original encoding pos ≡ ok n)
            × (resolve_offset original pos encoding ≡ ok (some n))
            × IsBoundary original n)
  resolve_or-cases pos small = elim (resolve_offset-cases original pos encoding small) [
    | inl (e, gone) ↦ inl (unfold resolve_or in rw e, gone)
    | inr (n, e, o) ↦ inr (n, (unfold resolve_or in rw e), e, IsOffset-IsBoundary o)
  ]

  resolve_edit-cases :
      (e : TextEdit)
      → IsForward e
      → ((pos : Position) × (resolve_edit abs original encoding e ≡ err (range_error pos))
          × (nth_line_start original pos.line ≡ none)
          × ((e.range.start ≡ pos) ⊎ (e.range.end ≡ pos)))
        ⊎ ((b : ByteEdit) × (resolve_edit abs original encoding e ≡ ok b) × IsPlaced original b)
  resolve_edit-cases e f = elim (resolve_or-cases e.range.start f.start_line) [
    | inl (es, gone) ↦ inl (e.range.start, (unfold resolve_edit in rw es), gone, inl refl)
    | inr (m, es, om, km) ↦ elim (resolve_or-cases e.range.end f.end_line) [
      | inl (ee, gone) ↦ inl (e.range.end, (unfold resolve_edit in rw (es, ee)), gone, inr refl)
      | inr (n, ee, on, kn) ↦ inr (
        record { start = m; end = n; text = e.new_text },
        (unfold resolve_edit in rw (es, ee)),
        (
          resolve_offset_mono original e.range.start e.range.end encoding m n f.start_line
              f.end_line f.in_order om on,
          km,
          kn,
        ),
      )
    ]
  ]

  resolve_edits-cases :
      (es : List TextEdit)
      → All IsForward es
      → ((pos : Position) × (resolve_edits abs original encoding es ≡ err (range_error pos))
          × (nth_line_start original pos.line ≡ none)
          × Names pos es)
        ⊎ ((bs : List ByteEdit) × (resolve_edits abs original encoding es ≡ ok bs)
            × All (IsPlaced original) bs)
  unfolding resolve_edits
  resolve_edits-cases [] f = inr ([], refl, tt)
  resolve_edits-cases (e ∷ es) f =
      let rest = resolve_edits-cases es f.1 in
      elim (resolve_edit-cases e f.0) [
        | inl (pos, eq, gone, inl at) ↦ inl (pos, rw eq, gone, inl at)
        | inl (pos, eq, gone, inr at) ↦ inl (pos, rw eq, gone, inr (inl at))
        | inr (b, eq, placed) ↦ elim rest [
          | inl (pos, eqs, gone, names) ↦ inl (pos, rw (eq, eqs), gone, inr (inr names))
          | inr (bs, eqs, all_placed) ↦ inr (b ∷ bs, rw (eq, eqs), (placed, all_placed))
        ]
      ]

-- Placed edits with no overlap fit the text.
Fits-of_placed :
    (t : Text) (base : ℕ) (b : ByteEdit) (bs : List ByteEdit)
    → base ≤ b.start
    → All (IsPlaced t) (b ∷ bs)
    → overlaps (b ∷ bs) ≡ false
    → Fits t base (b ∷ bs)
Fits-of_placed t base b [] le (p, _) h = (le, p.0, p.1, p.2, tt)
Fits-of_placed t base b (c ∷ bs) le (p, ps) h =
    (le, p.0, p.1, p.2, Fits-of_placed t b.end c bs (ground arith) ps (ground arith))

Fits-from_zero :
    (t : Text) (bs : List ByteEdit) → All (IsPlaced t) bs → overlaps bs ≡ false → Fits t 0 bs
Fits-from_zero t [] ps h = tt
Fits-from_zero t (b ∷ bs) ps h = Fits-of_placed t 0 b bs (omega arith) ps h

-- What `rewrite_file` may return for `es`, and what each result says.
pub data IsRewritten (abs : FilePath) (original : Text) (encoding : PositionEncoding)
    (es : List TextEdit) : Result Text → Type 0 where
  replaced :
      (bs : List ByteEdit) (out : Text)
      → resolve_edits abs original encoding es ≡ ok bs
      → overlaps (sort_by starts_no_later bs) ≡ false
      → Replaces (sort_by starts_no_later bs) 0 original out
      → IsRewritten abs original encoding es (ok out)
  overlapping :
      (bs : List ByteEdit)
      → resolve_edits abs original encoding es ≡ ok bs
      → overlaps (sort_by starts_no_later bs) ≡ true
      → IsRewritten abs original encoding es (err (overlapping_edits abs))
  out_of_range :
      (pos : Position)
      → nth_line_start original pos.line ≡ none
      → Names pos es
      → IsRewritten abs original encoding es
          (err (position_out_of_range abs pos.line pos.character))

-- For edits whose ranges do not end before they start, in any order: the rewrite succeeds exactly
-- with every range replaced by its text and all else kept; or it reports edits that overlap; or
-- it reports a position of one of the edits whose line the file does not have. It never panics.
pub rewrite_correct :
    (abs : FilePath) (original : Text) (encoding : PositionEncoding) (es : List TextEdit)
    → All IsForward es
    → IsRewritten abs original encoding es (rewrite abs original encoding es)
unfolding rewrite
rewrite_correct abs original encoding es f = elim (resolve_edits-cases abs original encoding es f) [
  | inl (pos, e, gone, names) ↦ rw e (out_of_range pos gone names)
  | inr (bs, e, placed) ↦ elim (Bool-cases (overlaps (sort_by starts_no_later bs))) [
    | inl clash ↦ rw (e, clash) (overlapping bs e clash)
    | inr apart ↦
        let sorted = sort_by starts_no_later bs in
        let (out, done, run) = splice-reverse sorted original [] original 0 refl refl (
          Fits-from_zero original sorted (sort_by-All (IsPlaced original) starts_no_later bs placed)
            apart) in
        rw (e, apart, run) (replaced bs out e apart done)
  ]
]

-- If the two ends of an edit's range resolve, the end before the start, then the edit is not
-- rejected as a single edit of a file: the rewrite panics.
pub rewrite_inverted :
    (abs : FilePath) (original : Text) (encoding : PositionEncoding) (e : TextEdit) (m n : ℕ)
    → resolve_offset original e.range.start encoding ≡ ok (some m)
    → resolve_offset original e.range.end encoding ≡ ok (some n)
    → n < m
    → rewrite abs original encoding (e ∷ []) ≡ panic
unfolding rewrite resolve_edits resolve_edit resolve_or sort_by splice replace_range
rewrite_inverted abs original encoding e m n em en lt =
    let upside_down : ltb n m ≡ true = ground arith in rw (em, en, upside_down)
