-- ===== src/Edit/Offset/Boundary.antt =====
-- The offset of a position is a character boundary, so no slice of `resolve_offset` panics.
use henka.Common.{
  ℕ, ◌+◌, ◌%◌, ◌≤◌, ◌<◌, ◌≡◌, refl, sym, ap, ◌∙◌, false, [], ◌∷◌, ◌++◌, none, some, arith, leb,
  ◌==◌, nat_eq, Bool-cases, Option-cases, inl, inr, append_assoc, append-nil, ◌⊎◌,
}
use henka.Text.{Text, len_utf8, byte_len, split_at}
use henka.Text.Offsets.{IsBoundary, byte_len-append, split_at-append}
use henka.FilePath.{drop_last, last?}
use henka.Error.{ok}
use henka.Edit.{u32_mod, PositionEncoding, Position}
use henka.Edit.Offset.{
  newline, carriage_return, encoded_len, scan_lines, nth_line_start, up_to_newline,
  strip_carriage_return, line_content, advance, resolve_offset,
}
use henka.Edit.Offset.Lines.{scan_lines-IsStop}

-- `a` is an initial part of `t`.
pub record IsPart (a t : Text) : Type 0 where
  pub rest : Text
  pub joined : t ≡ a ++ rest

up_to_newline-IsPart : (t : Text) → IsPart (up_to_newline t) t
unfolding up_to_newline
up_to_newline-IsPart [] = record { rest = []; joined = refl }
up_to_newline-IsPart (c ∷ cs) = elim (Bool-cases (c == newline)) [
  | inl hit ↦ rw hit (record { rest = c ∷ cs; joined = refl })
  | inr other ↦
      let ih = up_to_newline-IsPart cs in
      rw other (record { rest = ih.rest; joined = ap (λ r. c ∷ r) ih.joined })
]

drop_last-IsPart : (t : Text) → IsPart (drop_last t) t
drop_last-IsPart [] = record { rest = []; joined = refl }
drop_last-IsPart (c ∷ []) = record { rest = c ∷ []; joined = refl }
drop_last-IsPart (c ∷ d ∷ cs) =
    let ih = drop_last-IsPart (d ∷ cs) in
    record { rest = ih.rest; joined = ap (λ r. c ∷ r) ih.joined }

IsPart-refl : (t : Text) → IsPart t t
IsPart-refl t = record { rest = []; joined = sym (append-nil t) }

strip_carriage_return-IsPart : (t : Text) → IsPart (strip_carriage_return t) t
unfolding strip_carriage_return
strip_carriage_return-IsPart t = elim (Option-cases (last? t)) [
  | inl e ↦ rw (e, strip_carriage_return) (IsPart-refl t)
  | inr (c, e) ↦
      rw (e, strip_carriage_return)
        (elim (Bool-cases (c == carriage_return)) [
          | inl hit ↦ rw hit (drop_last-IsPart t)
          | inr other ↦ rw other (IsPart-refl t)
        ])
]

IsPart-trans : (a b t : Text) → IsPart a b → IsPart b t → IsPart a t
IsPart-trans a b t p q = record {
  rest = p.rest ++ q.rest;
  joined = q.joined ∙ ap (λ r. r ++ q.rest) p.joined ∙ append_assoc a p.rest q.rest;
}

pub line_content-IsPart : (t : Text) → IsPart (line_content t) t
unfolding line_content
line_content-IsPart t =
    IsPart-trans _ (up_to_newline t) t (strip_carriage_return-IsPart (up_to_newline t))
      (up_to_newline-IsPart t)

pub line_content-le : (t : Text) → byte_len (line_content t) ≤ byte_len (up_to_newline t)
unfolding line_content
line_content-le t =
    let p = strip_carriage_return-IsPart (up_to_newline t) in
    let e = ap byte_len p.joined in
    omega (arith, e, byte_len-append (strip_carriage_return (up_to_newline t)) p.rest)

-- Where the loop over a line stops: behind some of the line's characters.
pub advance-IsBoundary :
    (t : Text) (units byte character : ℕ) (encoding : PositionEncoding)
    → (m : ℕ) × IsBoundary t m × (advance t units byte character encoding ≡ byte + m)
unfolding advance
advance-IsBoundary [] units byte character encoding =
    (0, record { before = []; after = []; joined = refl; measured = refl }, omega arith)
advance-IsBoundary (c ∷ cs) units byte character encoding =
    elim (Bool-cases (leb character units)) [
      | inl stop ↦ (
        0,
        record { before = []; after = c ∷ cs; joined = refl; measured = refl },
        rw stop (omega arith),
      )
      | inr more ↦
          let (m, k, e) =
            advance-IsBoundary cs ((units + encoded_len c encoding) % u32_mod) (byte + len_utf8 c)
              character encoding in
          (
            len_utf8 c + m,
            record {
              before = c ∷ k.before;
              after = k.after;
              joined = ap (λ r. c ∷ r) k.joined;
              measured = omega (arith, k.measured);
            },
            rw more (omega (arith, e)),
          )
    ]

pub IsBoundary-le : {t : Text} {n : ℕ} → IsBoundary t n → n ≤ byte_len t
IsBoundary-le {t} k =
    let e = ap byte_len k.joined in omega (arith, e, byte_len-append k.before k.after, k.measured)

IsBoundary-shift :
    (a b c : Text) (m n : ℕ)
    → byte_len a ≡ m
    → IsPart c b
    → IsBoundary c n
    → IsBoundary (a ++ b) (m + n)
IsBoundary-shift a b c m n ea p k = record {
  before = a ++ k.before;
  after = k.after ++ p.rest;
  joined =
      ap (λ r. a ++ r)
        (p.joined ∙ ap (λ r. r ++ p.rest) k.joined ∙ append_assoc k.before k.after p.rest)
      ∙ sym (append_assoc a k.before (k.after ++ p.rest));
  measured = omega (arith, byte_len-append a k.before, k.measured);
}

-- A line found by `nth_line_start`: the text splits there.
pub record IsLine (text : Text) (n start : ℕ) : Type 0 where
  pub before : Text
  pub line : Text
  pub joined : text ≡ before ++ line
  pub measured : byte_len before ≡ start
  pub goes_on :
      (n' start' : ℕ)
      → n < n'
      → nth_line_start text n' ≡ some start'
      → scan_lines line start n n' ≡ some start'

nth_line_start-pos :
    (text : Text) (n : ℕ) → (n == 0) ≡ false → nth_line_start text n ≡ scan_lines text 0 0 n
unfolding nth_line_start
nth_line_start-pos text n h = rw h

nth_line_start-zero : (text : Text) → nth_line_start text 0 ≡ some 0
unfolding nth_line_start
nth_line_start-zero text = refl

pub nth_line_start-IsLine :
    (text : Text) (n start : ℕ)
    → n < u32_mod
    → nth_line_start text n ≡ some start
    → IsLine text n start
nth_line_start-IsLine text n start small h = elim (Bool-cases (n == 0)) [
  | inl first ↦
      let en : n ≡ 0 = ground arith in
      let es : 0 ≡ start = ground (arith, nth_line_start-zero text, ap (nth_line_start text) en) in
      record {
        before = [];
        line = text;
        joined = refl;
        measured = es;
        goes_on =
            λ n' start' lt e. rw (en, ← es) (sym (nth_line_start-pos text n' (ground arith)) ∙ e);
      }
  | inr later ↦
      let s =
        scan_lines-IsStop text 0 0 n start (ground arith) small
          (rw (nth_line_start-pos text n later) at h) in
      record {
        before = s.before;
        line = s.after;
        joined = s.joined;
        measured = omega (arith, s.measured);
        goes_on = λ n' start' lt e.
            sym (s.goes_on n' lt) ∙ sym (nth_line_start-pos text n' (ground arith)) ∙ e;
      }
]

-- What a position that resolves to `offset` stands for.
pub record IsOffset (text : Text) (pos : Position) (encoding : PositionEncoding) (offset : ℕ)
    : Type 0 where
  pub start : ℕ
  pub found : nth_line_start text pos.line ≡ some start
  pub is_line : IsLine text pos.line start
  pub at : offset ≡ advance (line_content is_line.line) 0 start pos.character encoding

-- A position resolves, or its line is out of range; nothing panics.
pub resolve_offset-cases :
    (text : Text) (pos : Position) (encoding : PositionEncoding)
    → pos.line < u32_mod
    → (resolve_offset text pos encoding ≡ ok none) × (nth_line_start text pos.line ≡ none)
      ⊎ ((offset : ℕ) × (resolve_offset text pos encoding ≡ ok (some offset))
          × IsOffset text pos encoding offset)
resolve_offset-cases text pos encoding small = elim (Option-cases (nth_line_start text pos.line)) [
  | inl gone ↦ inl (unfold resolve_offset in rw (gone, resolve_offset), gone)
  | inr (start, found) ↦
      let l = nth_line_start-IsLine text pos.line start small found in
      let split : split_at text start ≡ some (l.before, l.line) =
        rw (l.joined, ← l.measured) (split_at-append l.before l.line) in
      inr (
        advance (line_content l.line) 0 start pos.character encoding,
        unfold resolve_offset in rw (found, resolve_offset) (rw split),
        record { start = start; found = found; is_line = l; at = refl },
      )
]

pub IsOffset-IsBoundary :
    {text : Text} {pos : Position} {encoding : PositionEncoding} {offset : ℕ}
    → IsOffset text pos encoding offset
    → IsBoundary text offset
IsOffset-IsBoundary {text} {pos} {encoding} {offset} o =
    let l = o.is_line in
    let (m, k, e) = advance-IsBoundary (line_content l.line) 0 o.start pos.character encoding in
    rw (l.joined, o.at, e)
      (IsBoundary-shift l.before l.line (line_content l.line) o.start m l.measured
        (line_content-IsPart l.line) k)
