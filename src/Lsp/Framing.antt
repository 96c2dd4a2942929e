-- ===== src/Lsp/Framing.antt =====
-- `Content-Length` framing: crates/henka-lsp/src/framing.rs. A stream is the list of its bytes up
-- to its end; a reader returns what stands behind the message. There is memory for every length
-- that a `Vec` can have.
pub mod Progress
pub mod RoundTrip
use henka.Common.{
  ℕ, ◌≡◌, Bool, true, false, ◌||◌, List, [], ◌∷◌, ◌++◌, Option, none, some, all, leb, ltb, ◌==◌,
  nat_eq, list_eq, ◌^◌, length, take, drop, reverse, if◌then◌else◌,
}
use henka.Text.{Text, codes}
use henka.Text.Search.{strip_prefix, trim_start, trim}
use henka.Text.Decimal.{to_decimal, parse_usize}
use henka.Error.{IoError}
use henka.Json.{Json}
use henka.Lsp.{LspResult, good, bad, LspError, ◌>>=◌}

abbrev pub Bytes : Type 0
Bytes = List ℕ

-- `serde_json::to_vec`, `serde_json::from_slice` and `String::from_utf8`.
pub record Codec : Type 0 where
  pub to_vec : Json → LspResult Bytes
  pub from_slice : Bytes → LspResult Json
  pub from_utf8 : Bytes → Option Text

abbrev pub is_ascii : ℕ → Bool
is_ascii b = ltb b 0x80

-- What their documentation promises of a message, and of ASCII.
pub record ReadsBack (c : Codec) : Type 0 where
  pub from_slice-to_vec : (v : Json) (b : Bytes) → c.to_vec v ≡ good b → c.from_slice b ≡ good v
  pub from_utf8_ascii : (b : Bytes) → all is_ascii b ≡ true → c.from_utf8 b ≡ some b

abbrev pub header_text : ℕ → Text
header_text n = codes "Content-Length: " ++ (to_decimal n ++ (b'\r' ∷ b'\n' ∷ b'\r' ∷ b'\n' ∷ []))

-- What `write_message` puts on the stream.
unfoldable pub write_message : Codec → Json → LspResult Bytes
write_message c message = c.to_vec message >>= λ body. good (header_text (length body) ++ body)

abbrev pub is_line_end : ℕ → Bool
is_line_end c = c == b'\r' || c == b'\n'

-- `trim_end_matches(f)`
abbrev pub trim_end : (ℕ → Bool) → Text → Text
trim_end f t = reverse (trim_start f (reverse t))

-- A header's content length: that of the last `Content-Length`, if it is a number.
abbrev pub header_length : Option ℕ → Option Text → Option ℕ
header_length found none = found
header_length found (some rest) = parse_usize (trim rest)

abbrev of_line : Option ℕ → Option Text → LspResult (Option (Option ℕ))
of_line found none = bad (LspError.io (IoError.other (codes "stream did not contain valid UTF-8")))
of_line found (some line) =
    let trimmed = trim_end is_line_end line in
    good (
      if trimmed == []
      then none
      else some (header_length found (strip_prefix trimmed (codes "Content-Length:"))))

-- One turn of the loop of `read_message` on a line: `none` where the headers end.
unfoldable pub header : Codec → Option ℕ → Bytes → LspResult (Option (Option ℕ))
header c found line = of_line found (c.from_utf8 line)

abbrev pub last_header : Option ℕ → Option (Option ℕ) → Option (Option ℕ × Bytes)
last_header found none = some (found, [])
last_header found (some _) = none

-- The loop: `line` holds the bytes of the current line, the last one first.
unfoldable pub read_headers :
    Codec → Option ℕ → Bytes → Bytes → LspResult (Option (Option ℕ × Bytes))
unfolding header
read_headers c found [] [] = good none
read_headers c found (b ∷ line) [] =
    header c found (reverse (b ∷ line)) >>= λ next. good (last_header found next)
read_headers c found line (b ∷ rest) =
    let within = read_headers c found (b ∷ line) rest in
    let behind : LspResult (Option (Option ℕ × Bytes)) =
      elim (header c found (reverse (b ∷ line))) [
        | bad e ↦ bad e
        | good none ↦ good (some (found, rest))
        | good (some found') ↦ read_headers c found' [] rest
      ] in
    if b == b'\n' then behind else within

-- One more than `isize::MAX`, the bytes that a `Vec` has at most.
abbrev pub isize_mod : ℕ
isize_mod = 2 ^ 63

-- What `read_message` comes to. `vec![0u8; len]` panics with a capacity overflow on more bytes than
-- a `Vec` can have.
pub data Reading : Type 0 where
  returned : LspResult (Option (Json × Bytes)) → Reading
  panicked : Reading

-- `read_exact`, and what its bytes say.
abbrev pub read_exact : Codec → ℕ → Bytes → LspResult (Option (Json × Bytes))
read_exact c len rest =
    if leb len (length rest)
    then (c.from_slice (take len rest) >>= λ value. good (some (value, drop len rest)))
    else bad (LspError.io (IoError.other (codes "early eof")))

abbrev pub read_body : Codec → LspResult (Option (Option ℕ × Bytes)) → Reading
read_body c (bad e) = returned (bad e)
read_body c (good none) = returned (good none)
read_body c (good (some (none, rest))) =
    returned (bad (LspError.protocol (codes "message had no Content-Length header")))
read_body c (good (some (some len, rest))) =
    if ltb len isize_mod then returned (read_exact c len rest) else panicked

unfoldable pub read_message : Codec → Bytes → Reading
unfolding read_headers
read_message c stream = read_body c (read_headers c none [] stream)
