-- ===== src/Edit/Offset.antt =====
-- Positions to byte offsets: `resolve_offset`, `nth_line_start` and `encoded_len` of
-- crates/henka-core/src/edit.rs.
pub mod Lines
pub mod Boundary
pub mod Order
use henka.Common.{
  ℕ, zero, ◌+◌, ◌%◌, Bool, true, false, not, ◌&&◌, ◌||◌, List, [], ◌∷◌, ◌++◌, Option, none, some,
  leb, ◌==◌, nat_eq, if◌then◌else◌,
}
use henka.Text.{Text, len_utf8, len_utf16, byte_len, split_at, codes}
use henka.Error.{Result, ok, panic, or_panic, ◌>>=◌}
use henka.FilePath.{drop_last, last?}
use henka.Edit.{u32_mod, PositionEncoding, utf8, utf16, utf32, Position, Range}

abbrev pub newline : ℕ
newline = 10

abbrev pub carriage_return : ℕ
carriage_return = 13

unfoldable pub encoded_len : ℕ → PositionEncoding → ℕ
encoded_len ch utf8 = len_utf8 ch
encoded_len ch utf16 = len_utf16 ch
encoded_len ch utf32 = 1

-- The loop of `nth_line_start` over `text.bytes().enumerate()`: every byte of a character but a
-- newline differs from `b'\n'`, so the loop is over characters. `i` is the byte index.
pub scan_lines : Text → ℕ → ℕ → ℕ → Option ℕ
scan_lines [] i seen n = none
scan_lines (c ∷ cs) i seen n =
    let seen' = if c == newline then (seen + 1) % u32_mod else seen in
    let next = scan_lines cs (i + len_utf8 c) seen' n in
    if (c == newline) && (seen' == n) then some (i + 1) else next

unfoldable pub nth_line_start : Text → ℕ → Option ℕ
unfolding scan_lines
nth_line_start text n = if n == 0 then some 0 else scan_lines text 0 0 n

-- `&line[..line.find('\n').unwrap_or(line.len())]`
pub up_to_newline : Text → Text
up_to_newline [] = []
up_to_newline (c ∷ cs) = if c == newline then [] else c ∷ up_to_newline cs

-- `content.strip_suffix('\r').unwrap_or(content)`
pub strip_carriage_return : Text → Text
strip_carriage_return content = elim (last? content) [
  | none ↦ content
  | some c ↦ if c == carriage_return then drop_last content else content
]

-- What a position on the line counts over.
pub line_content : Text → Text
unfolding up_to_newline strip_carriage_return
line_content line = strip_carriage_return (up_to_newline line)

-- The loop over the characters of the line: a position past its end stops at the end.
pub advance : Text → ℕ → ℕ → ℕ → PositionEncoding → ℕ
advance [] units byte character encoding = byte
advance (ch ∷ cs) units byte character encoding =
    let rest =
      advance cs ((units + encoded_len ch encoding) % u32_mod) (byte + len_utf8 ch) character
        encoding in
    if leb character units then byte else rest

pub offset_in_line : Text → ℕ → Position → PositionEncoding → Option ℕ
unfolding line_content advance
offset_in_line line line_start pos encoding =
    some (advance (line_content line) 0 line_start pos.character encoding)

-- `none` is a line out of range; a slice off a character boundary would panic.
unfoldable pub resolve_offset : Text → Position → PositionEncoding → Result (Option ℕ)
unfolding nth_line_start offset_in_line
resolve_offset text pos encoding = elim (nth_line_start text pos.line) [
  | none ↦ ok none
  | some line_start ↦ or_panic (split_at text line_start) >>= λ sides.
      ok (offset_in_line sides.1 line_start pos encoding)
]
