-- ===== src/Text.antt =====
-- Rust's `str` and `char` as the program uses them: a text is the list of its Unicode scalar
-- values, and a byte offset into it counts UTF-8 bytes. A slice at an offset that is not a
-- character boundary panics in Rust; here such a split is `none`.
pub mod Offsets
pub mod Search
pub mod Trim
pub mod Decimal
use Prim.Native.Char.{code}
use henka.Common.{
  ℕ, zero, suc, ◌+◌, ◌-◌, String, Bool, true, false, List, [], ◌∷◌, Option, none, some, leb, ltb,
  if◌then◌else◌,
}

abbrev pub Text : Type 0
Text = List ℕ

-- The text that a literal denotes.
abbrev pub codes : String → Text
codes String.[] = []
codes (String.◌∷◌ c s) = code c ∷ codes s

-- `char::len_utf8`
unfoldable pub len_utf8 : ℕ → ℕ
len_utf8 c = if ltb c 0x80 then 1 else if ltb c 0x800 then 2 else if ltb c 0x10000 then 3 else 4

-- `char::len_utf16`
unfoldable pub len_utf16 : ℕ → ℕ
len_utf16 c = if ltb c 0x10000 then 1 else 2

-- `str::len`: the bytes of a text.
abbrev pub byte_len : Text → ℕ
byte_len [] = 0
byte_len (c ∷ cs) = len_utf8 c + byte_len cs

abbrev pub cons_left : ℕ → Option (Text × Text) → Option (Text × Text)
cons_left c none = none
cons_left c (some (a, b)) = some (c ∷ a, b)

-- `(&text[..n], &text[n..])`; `none` where Rust panics.
unfoldable pub split_at : Text → ℕ → Option (Text × Text)
split_at cs zero = some ([], cs)
split_at [] (suc n) = none
split_at (c ∷ cs) (suc n) =
    let rest = cons_left c (split_at cs (suc n - len_utf8 c)) in
    if leb (len_utf8 c) (suc n) then rest else none
