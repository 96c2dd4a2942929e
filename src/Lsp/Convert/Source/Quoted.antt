-- ===== src/Lsp/Convert/Source/Quoted.antt =====
-- What a `Source` quotes beside a location.
use henka.Common.{
  ℕ, ◌+◌, ◌-◌, min, ◌≤◌, ◌<◌, ◌≡◌, refl, ap, sym, ◌∙◌, Bool, true, false, List, [], ◌∷◌, ◌++◌,
  Option, some, leb, ltb, ◌==◌, arith, nat_eq, list_eq, length, take, drop, if◌then◌else◌,
  Bool-cases, inl, inr, ◌⊎◌,
}
use henka.Text.{Text, codes}
use henka.Json.{Json, unsigned, string, Fields, get, insert}
use henka.Json.Keys.{get-insert}
use henka.Edit.{Range}
use henka.Lsp.Convert.Source.Window.{
  IsWindow, take-drop_lem, length-take_le, length-drop_lem, slice-Sliced,
}
use henka.Lsp.Convert.Source.{
  Source, slice, last_line, truncate_line, truncate_lines, annotate_lines,
}

-- A line as it is quoted: whole, or its first 500 characters and an ellipsis.
pub data Capped (line : Text) : Text → Type 0 where
  whole_line : length line ≤ 500 → Capped line line
  cut_line :
      (head tail : Text)
      → line ≡ head ++ tail
      → length head ≡ 500
      → 0 < length tail
      → Capped line (head ++ (0x2026 ∷ []))

-- Lines as they are quoted, with a newline between two of them.
pub data Printed : List Text → Text → Type 0 where
  no_line : Printed [] []
  one_line : (line : Text) {out : Text} → Capped line out → Printed (line ∷ []) out
  more_lines :
      (line next : Text) {ts : List Text} {out others : Text}
      → Capped line out
      → Printed (next ∷ ts) others
      → Printed (line ∷ next ∷ ts) (out ++ (b'\n' ∷ others))

-- The range has a part of line `l`: its end is exclusive, and it always has its first line.
abbrev pub Covers : Range → ℕ → Type 0
Covers range l =
    (l ≡ range.start.line)
    ⊎ ((range.start.line < l)
        × ((l < range.end.line) ⊎ ((l ≡ range.end.line) × (0 < range.end.character))))

-- The last line that the range has a part of.
pub record IsLastLine (range : Range) (l : ℕ) : Type 0 where
  pub covered : Covers range l
  pub latest : (m : ℕ) → Covers range m → m ≤ l

last_line-IsLastLine : (range : Range) → IsLastLine range (last_line range)
unfolding last_line
last_line-IsLastLine range = record { covered = ground arith; latest = λ m c. ground (arith, c) }

above : (n k : ℕ) → leb n k ≡ false → k < n
above n k h = ground (arith, h)

within : (n k : ℕ) → leb n k ≡ true → n ≤ k
within n k h = ground (arith, h)

truncate_line-Capped : (line : Text) → Capped line (truncate_line line)
truncate_line-Capped line = elim (Bool-cases (leb (length line) 500)) [
  | inl e ↦ rw e (whole_line (within (length line) 500 e))
  | inr e ↦
      let long = above (length line) 500 e in
      rw e (
        cut_line (take 500 line) (drop 500 line) (take-drop_lem 500 line)
          (length-take_le 500 line (omega (arith, long)))
          (omega (arith, length-drop_lem 500 line, long)))
]

truncate_lines-Printed : (ts : List Text) → Printed ts (truncate_lines ts)
unfolding truncate_lines
truncate_lines-Printed [] = no_line
truncate_lines-Printed (t ∷ []) = one_line t (truncate_line-Capped t)
truncate_lines-Printed (t ∷ u ∷ ts) =
    more_lines t u (truncate_line-Capped t) (truncate_lines-Printed (u ∷ ts))

-- What `annotate` leaves of an entry, at a key.
abbrev quoted_at : Text → Text → Bool → Text → ℕ → Option Json → Option Json
quoted_at key text false context from old = if codes "text" == key then some (string text) else old
quoted_at key text true context from old =
    if codes "context_start_line" == key
    then some (unsigned from)
    else (if codes "context" == key
        then some (string context)
        else (if codes "text" == key then some (string text) else old))

-- The entry that a location in `ts` gets, read at one key: the window of the range's lines, as far
-- as `ts` has them, and the wider one where it was asked for.
pub record Quoted (s : Source) (ts : List Text) (range : Range) (entry : Fields) (key : Text)
    : Type 0 where
  pub result : Fields
  pub annotated : annotate_lines s ts range entry ≡ some result
  pub last : ℕ
  pub is_last : IsLastLine range last
  pub window : List Text
  pub context : List Text
  pub framed : IsWindow ts range.start.line (min last (length ts - 1)) window
  pub around :
      IsWindow ts
        (range.start.line - s.context_lines)
        (min (min last (length ts - 1) + s.context_lines) (length ts - 1))
        context
  pub text : Text
  pub printed : Printed window text
  pub wide_text : Text
  pub wide_printed : Printed context wide_text
  pub read :
      get key result
      ≡ quoted_at key text
          (ltb 0 s.context_lines)
          wide_text
          (range.start.line - s.context_lines)
          (get key entry)

last_line_after : (range : Range) → range.start.line ≤ last_line range
unfolding last_line
last_line_after range = ground arith

annotate_lines-none :
    (s : Source) (ts : List Text) (range : Range) (entry : Fields) (window : List Text)
    → leb (length ts) range.start.line ≡ false
    → slice ts range.start.line (min (last_line range) (length ts - 1)) ≡ some window
    → ltb 0 s.context_lines ≡ false
    → annotate_lines s ts range entry
      ≡ some (insert (codes "text") (string (truncate_lines window)) entry)
annotate_lines-none s ts range entry window a b c = rw (a, b, c) refl

annotate_lines-some :
    (s : Source) (ts : List Text) (range : Range) (entry : Fields) (window context : List Text)
    → leb (length ts) range.start.line ≡ false
    → slice ts range.start.line (min (last_line range) (length ts - 1)) ≡ some window
    → ltb 0 s.context_lines ≡ true
    → slice ts
        (range.start.line - s.context_lines)
        (min (min (last_line range) (length ts - 1) + s.context_lines) (length ts - 1))
      ≡ some context
    → annotate_lines s ts range entry
      ≡ some (
          insert (codes "context_start_line") (unsigned (range.start.line - s.context_lines)) (
            insert
              (codes "context")
              (string (truncate_lines context))
              (insert (codes "text") (string (truncate_lines window)) entry)))
annotate_lines-some s ts range entry window context a b c d = rw (a, b, c, d) refl

-- A location whose first line is in the file is quoted, and no slice panics: `text` is the lines
-- that the range has a part of, as far as the file has them, its end being exclusive, and `context`
-- the lines around them, if any were asked for. A quoted line of more than 500 characters is cut to
-- these and an ellipsis. Every other key of the entry is kept.
pub annotate_lines-Quoted :
    (s : Source) (ts : List Text) (range : Range) (entry : Fields) (key : Text)
    → range.start.line < length ts
    → Quoted s ts range entry key
annotate_lines-Quoted s ts range entry key h =
    let first = range.start.line in
    let after = last_line_after range in
    let last = min (last_line range) (length ts - 1) in
    let w = slice-Sliced ts first last (omega (arith, after, h)) (omega (arith, h)) in
    let c =
      slice-Sliced ts (first - s.context_lines) (min (last + s.context_lines) (length ts - 1))
        (omega (arith, after, h)) (omega (arith, h)) in
    let inside : leb (length ts) first ≡ false = ground (arith, h) in
    let text = string (truncate_lines w.window) in
    let wide = string (truncate_lines c.window) in
    let quoted : Bool → Option Json = λ b.
      quoted_at key (truncate_lines w.window) b (truncate_lines c.window) (first - s.context_lines)
        (get key entry) in
    let first_key = get-insert (codes "text") key text entry in
    elim (Bool-cases (ltb 0 s.context_lines)) [
      | inl e ↦ record {
        result =
            insert (codes "context_start_line") (unsigned (first - s.context_lines))
              (insert (codes "context") wide (insert (codes "text") text entry));
        annotated =
            annotate_lines-some s ts range entry w.window c.window inside w.sliced e c.sliced;
        last = last_line range;
        is_last = last_line-IsLastLine range;
        window = w.window;
        context = c.window;
        text = truncate_lines w.window;
        printed = truncate_lines-Printed w.window;
        wide_text = truncate_lines c.window;
        wide_printed = truncate_lines-Printed c.window;
        framed = w.framed;
        around = c.framed;
        read =
            get-insert (codes "context_start_line") key (unsigned (first - s.context_lines))
              (insert (codes "context") wide (insert (codes "text") text entry))
            ∙ ap
                (λ x.
                  if codes "context_start_line" == key
                  then some (unsigned (first - s.context_lines))
                  else x)
                (get-insert (codes "context") key wide (insert (codes "text") text entry)
                  ∙ ap (λ x. if codes "context" == key then some wide else x) first_key)
            ∙ ap quoted (sym e);
      }
      | inr e ↦ record {
        result = insert (codes "text") text entry;
        annotated = annotate_lines-none s ts range entry w.window inside w.sliced e;
        last = last_line range;
        is_last = last_line-IsLastLine range;
        window = w.window;
        context = c.window;
        text = truncate_lines w.window;
        printed = truncate_lines-Printed w.window;
        wide_text = truncate_lines c.window;
        wide_printed = truncate_lines-Printed c.window;
        framed = w.framed;
        around = c.framed;
        read = first_key ∙ ap quoted (sym e);
      }
    ]
