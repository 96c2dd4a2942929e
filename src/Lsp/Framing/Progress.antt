-- ===== src/Lsp/Framing/Progress.antt =====
-- `read_message` takes bytes off the stream with every message.
use henka.Common.{
  ℕ, zero, suc, ◌-◌, ◌≤◌, ◌<◌, ◌≡◌, ap, sym, [], ◌∷◌, Option, none, some, arith, leb, ltb, ◌==◌,
  nat_eq, Bool-cases, inl, inr, length, take, drop, reverse,
}
use henka.Json.{Json}
use henka.Lsp.{LspResult, good, bad, ◌>>=◌}
use henka.Lsp.Framing.{
  Bytes, Codec, header, read_headers, read_body, read_exact, last_header, read_message, Reading,
  returned, panicked, isize_mod,
}

abbrev left_of : Option (Option ℕ × Bytes) → ℕ
left_of none = 0
left_of (some (_, rest)) = length rest

-- What a result leaves of the stream.
abbrev headers_left : LspResult (Option (Option ℕ × Bytes)) → ℕ
headers_left (bad e) = 0
headers_left (good o) = left_of o

message_left : LspResult (Option (Json × Bytes)) → ℕ
message_left (bad e) = 0
message_left (good none) = 0
message_left (good (some (_, rest))) = length rest

last_header_left :
    (found : Option ℕ) (r : LspResult (Option (Option ℕ)))
    → headers_left (r >>= λ next. good (last_header found next)) ≤ 0
last_header_left found (bad e) = omega arith
last_header_left found (good none) = omega arith
last_header_left found (good (some n)) = omega arith

behind_left :
    (found : Option ℕ) (rest : Bytes) (k : Option ℕ → LspResult (Option (Option ℕ × Bytes)))
    (r : LspResult (Option (Option ℕ)))
    → ((found' : Option ℕ) → headers_left (k found') ≤ length rest - 1)
    → headers_left (elim r [
      | bad e ↦ bad e
      | good none ↦ good (some (found, rest))
      | good (some found') ↦ k found'
    ])
      ≤ length rest
behind_left found rest k (bad e) h = omega arith
behind_left found rest k (good none) h = omega arith
behind_left found rest k (good (some found')) h = omega (arith, h found')

-- The header loop takes the first byte off the stream.
read_headers_left :
    (c : Codec) (found : Option ℕ) (line stream : Bytes)
    → headers_left (read_headers c found line stream) ≤ length stream - 1
unfolding read_headers
read_headers_left c found [] [] = omega arith
read_headers_left c found (b ∷ line) [] =
    omega (arith, last_header_left found (header c found (reverse (b ∷ line))))
read_headers_left c found line (b ∷ rest) = elim (Bool-cases (b == b'\n')) [
  | inl e ↦ rw e (
      omega (
        arith,
        behind_left found rest (λ f. read_headers c f [] rest) (header c found (reverse (b ∷ line)))
            (λ f. read_headers_left c f [] rest),
      ))
  | inr e ↦ rw e (omega (arith, read_headers_left c found (b ∷ line) rest))
]

length-drop_le : (n : ℕ) (b : Bytes) → length (drop n b) ≤ length b
length-drop_le zero b = omega arith
length-drop_le (suc n) [] = omega arith
length-drop_le (suc n) (x ∷ b) = omega (arith, length-drop_le n b)

value_left :
    (r : LspResult Json) (rest : Bytes)
    → message_left (r >>= λ value. good (some (value, rest))) ≤ length rest
unfolding message_left
value_left (bad e) rest = omega arith
value_left (good v) rest = omega arith

reading_left : Reading → ℕ
unfolding message_left
reading_left (returned r) = message_left r
reading_left panicked = 0

read_exact_left :
    (c : Codec) (len : ℕ) (rest : Bytes) → message_left (read_exact c len rest) ≤ length rest
unfolding message_left
read_exact_left c len rest = elim (Bool-cases (leb len (length rest))) [
  | inl e ↦ rw e (
      omega
        (arith, value_left (c.from_slice (take len rest)) (drop len rest), length-drop_le len rest))
  | inr e ↦ rw e (omega arith)
]

read_body_left :
    (c : Codec) (r : LspResult (Option (Option ℕ × Bytes)))
    → reading_left (read_body c r) ≤ headers_left r
unfolding reading_left message_left
read_body_left c (bad e) = omega arith
read_body_left c (good none) = omega arith
read_body_left c (good (some (none, rest))) = omega arith
read_body_left c (good (some (some len, rest))) = elim (Bool-cases (ltb len isize_mod)) [
  | inl e ↦ rw e (read_exact_left c len rest)
  | inr e ↦ rw e (omega arith)
]

-- A message that is read takes bytes off the stream.
pub read_message_left :
    (c : Codec) (stream rest : Bytes) (msg : Json)
    → read_message c stream ≡ returned (good (some (msg, rest)))
    → length rest < length stream
unfolding read_message read_headers reading_left message_left
read_message_left c [] rest msg e = ground (arith, e)
read_message_left c (b ∷ stream) rest msg e =
    let left : length rest ≡ reading_left (read_message c (b ∷ stream)) = ap reading_left (sym e) in
    omega (
      arith,
      left,
      read_body_left c (read_headers c none [] (b ∷ stream)),
      read_headers_left c none [] (b ∷ stream),
    )
