-- ===== src/Edit/Offset/Order.antt =====
-- Positions in document order resolve to byte offsets in order.
use henka.Common.{ℕ, ◌+◌, ◌%◌, ◌≤◌, ◌<◌, ◌≡◌, ap, [], ◌∷◌, arith, inl, inr, ◌⊎◌, some}
use mathlib.Core.Path.{subst}
use henka.Text.{Text, len_utf8, byte_len, split_at}
use henka.Text.Offsets.{split_at-append}
use henka.Error.{ok}
use henka.Edit.{u32_mod, PositionEncoding, Position}
use henka.Edit.Offset.{encoded_len, nth_line_start, line_content, advance, resolve_offset}
use henka.Edit.Offset.Lines.{line-le-stop}
use henka.Edit.Offset.Boundary.{
  IsLine, IsOffset, resolve_offset-cases, advance-IsBoundary, IsBoundary-le, line_content-le,
}

-- Document order on positions.
abbrev pub Precedes : Position → Position → Type 0
Precedes p q = (p.line < q.line) ⊎ ((p.line ≡ q.line) × (p.character ≤ q.character))

byte-le-advance :
    (t : Text) (units byte c : ℕ) (encoding : PositionEncoding)
    → byte ≤ advance t units byte c encoding
byte-le-advance t units byte c encoding =
    let (m, k, e) = advance-IsBoundary t units byte c encoding in omega (arith, e)

advance_mono :
    (t : Text) (units byte c d : ℕ) (encoding : PositionEncoding)
    → c ≤ d
    → advance t units byte c encoding ≤ advance t units byte d encoding
unfolding advance
advance_mono [] units byte c d encoding h = omega arith
advance_mono (x ∷ t) units byte c d encoding h = ground (
  arith,
  advance_mono t ((units + encoded_len x encoding) % u32_mod) (byte + len_utf8 x) c d encoding,
  byte-le-advance t ((units + encoded_len x encoding) % u32_mod) (byte + len_utf8 x) d encoding,
)

-- An offset lies within the content of its line.
IsOffset-le :
    {text : Text} {pos : Position} {encoding : PositionEncoding} {offset : ℕ}
    (o : IsOffset text pos encoding offset)
    → (o.start ≤ offset) × (offset ≤ o.start + byte_len (line_content o.is_line.line))
IsOffset-le {text} {pos} {encoding} {offset} o =
    let (m, k, e) =
      advance-IsBoundary (line_content o.is_line.line) 0 o.start pos.character encoding in
    let le = IsBoundary-le k in (omega (arith, o.at, e), omega (arith, o.at, e, le))

IsLine-split :
    {text : Text} {n start : ℕ} (l : IsLine text n start)
    → split_at text start ≡ some (l.before, l.line)
IsLine-split l = rw (l.joined, ← l.measured) (split_at-append l.before l.line)

IsLine-unique :
    {text : Text} {n m start start' : ℕ} (l : IsLine text n start) (k : IsLine text m start')
    → start ≡ start'
    → l.line ≡ k.line
IsLine-unique {text} l k e = cc (IsLine-split l, IsLine-split k, ap (split_at text) e)

resolved :
    (text : Text) (pos : Position) (encoding : PositionEncoding) (offset : ℕ)
    → pos.line < u32_mod
    → resolve_offset text pos encoding ≡ ok (some offset)
    → IsOffset text pos encoding offset
resolved text pos encoding offset small h = elim (resolve_offset-cases text pos encoding small) [
  | inl (e, _) ↦ cc
  | inr (n, e, o) ↦ let same : n ≡ offset = cc in subst (λ k. IsOffset text pos encoding k) same o
]

same_line :
    (text : Text) (p q : Position) (encoding : PositionEncoding) (m n : ℕ)
    → p.line ≡ q.line
    → p.character ≤ q.character
    → IsOffset text p encoding m
    → IsOffset text q encoding n
    → m ≤ n
same_line text p q encoding m n e le o o' =
    let es : o.start ≡ o'.start = cc (o.found, o'.found, ap (nth_line_start text) e) in
    let el = IsLine-unique o.is_line o'.is_line es in
    let at' : n ≡ advance (line_content o.is_line.line) 0 o.start q.character encoding =
      rw (el, es) o'.at in
    omega (
      arith,
      o.at,
      at',
      advance_mono (line_content o.is_line.line) 0 o.start p.character q.character encoding le,
    )

later_line :
    (text : Text) (p q : Position) (encoding : PositionEncoding) (m n : ℕ)
    → p.line < q.line
    → q.line < u32_mod
    → IsOffset text p encoding m
    → IsOffset text q encoding n
    → m ≤ n
later_line text p q encoding m n lt small o o' =
    let l = o.is_line in
    let stop =
      line-le-stop l.line o.start p.line q.line o'.start lt small
        (l.goes_on q.line o'.start lt o'.found) in
    omega (arith, stop, IsOffset-le o, IsOffset-le o', line_content-le l.line)

-- If the line numbers are `u32`, `p` does not come behind `q` in the document, and both resolve,
-- then the offset of `p` is at most that of `q`, in every encoding.
pub resolve_offset_mono :
    (text : Text) (p q : Position) (encoding : PositionEncoding) (m n : ℕ)
    → p.line < u32_mod
    → q.line < u32_mod
    → Precedes p q
    → resolve_offset text p encoding ≡ ok (some m)
    → resolve_offset text q encoding ≡ ok (some n)
    → m ≤ n
resolve_offset_mono text p q encoding m n sp sq (inl lt) hp hq =
    later_line text p q encoding m n lt sq (resolved text p encoding m sp hp)
      (resolved text q encoding n sq hq)
resolve_offset_mono text p q encoding m n sp sq (inr (e, le)) hp hq =
    same_line text p q encoding m n e le (resolved text p encoding m sp hp)
      (resolved text q encoding n sq hq)
