-- ===== src/Text/Search.antt =====
-- Rust's searches in a `str`, and the order of `str`.
use henka.Common.{
  ℕ, Bool, true, false, ◌&&◌, ◌||◌, List, [], ◌∷◌, Option, none, some, ltb, leb, ◌==◌, nat_eq,
  reverse, if◌then◌else◌,
}
use henka.Common.BTreeMap.{Ord}
use henka.Text.{Text}

-- `t.strip_prefix(p)`
unfoldable pub strip_prefix : Text → Text → Option Text
strip_prefix t [] = some t
strip_prefix [] (p ∷ ps) = none
strip_prefix (c ∷ t) (p ∷ ps) = if c == p then strip_prefix t ps else none

abbrev found : Option Text → Bool
found none = false
found (some _) = true

abbrev pub starts_with : Text → Text → Bool
starts_with t p = found (strip_prefix t p)

-- `t.ends_with(p)`
abbrev pub ends_with : Text → Text → Bool
ends_with t p = starts_with (reverse t) (reverse p)

-- `str` compares bytes, which is the order of the scalar values.
abbrev pub text_lt : Text → Text → Bool
text_lt [] [] = false
text_lt [] (d ∷ ds) = true
text_lt (c ∷ cs) [] = false
text_lt (c ∷ cs) (d ∷ ds) = ltb c d || (c == d && text_lt cs ds)

instance abbrev pub text_ord : Ord Text
text_ord = record { lt = text_lt }

-- `char::is_ascii_lowercase`, `char::is_ascii_digit`
abbrev pub is_ascii_lowercase : ℕ → Bool
is_ascii_lowercase c = leb b'a' c && leb c b'z'

abbrev pub is_ascii_digit : ℕ → Bool
is_ascii_digit c = leb b'0' c && leb c b'9'

-- `trim_start_matches(f)`, and `trim_matches(f)`
unfoldable pub trim_start : (ℕ → Bool) → Text → Text
trim_start f [] = []
trim_start f (c ∷ cs) = if f c then trim_start f cs else c ∷ cs

unfoldable pub trim_matches : (ℕ → Bool) → Text → Text
trim_matches f t = reverse (trim_start f (reverse (trim_start f t)))

-- `t.split_once(c)`
unfoldable pub split_once : ℕ → Text → Option (Text × Text)
split_once c [] = none
split_once c (d ∷ ds) =
    let rest : Option (Text × Text) = elim (split_once c ds) [
      | none ↦ none
      | some (a, b) ↦ some (d ∷ a, b)
    ] in
    if d == c then some ([], ds) else rest

-- `t.rsplit_once(c)`
unfoldable pub rsplit_once : ℕ → Text → Option (Text × Text)
rsplit_once c [] = none
rsplit_once c (d ∷ ds) = elim (rsplit_once c ds) [
  | some (a, b) ↦ some (d ∷ a, b)
  | none ↦ if d == c then some ([], ds) else none
]

-- `t.split(f)`: the parts between the characters that satisfy `f`, one part at least.
abbrev pub onto_first : ℕ → List Text → List Text
onto_first c [] = (c ∷ []) ∷ []
onto_first c (p ∷ ps) = (c ∷ p) ∷ ps

unfoldable pub split : (ℕ → Bool) → Text → List Text
split f [] = [] ∷ []
split f (c ∷ cs) = let rest = split f cs in if f c then [] ∷ rest else onto_first c rest

-- `char::is_whitespace`
unfoldable pub is_whitespace : ℕ → Bool
is_whitespace c =
    c == 32
    || ((leb 9 c && leb c 13)
        || (c == 0x85
            || (c == 0xa0
                || (c == 0x1680
                    || ((leb 0x2000 c && leb c 0x200a)
                        || (c == 0x2028
                            || (c == 0x2029 || (c == 0x202f || (c == 0x205f || c == 0x3000)))))))))

abbrev pub trim : Text → Text
trim t = trim_matches is_whitespace t
