-- ===== src/Lsp/Framing/RoundTrip.antt =====
-- A message that is written to a stream is read back from it.
use henka.Common.{
  ℕ, ◌<◌, ◌≡◌, refl, sym, ap, ◌∙◌, Bool, true, false, not, [], ◌∷◌, ◌++◌, Option, none, some, all,
  leb, ltb, ◌==◌, nat_eq, list_eq, length, take, drop, length-append, reverse, reverse-cons,
  reverse-append, reverse-reverse, append_assoc, append-nil, arith,
}
use henka.Text.{Text, codes}
use henka.Text.Search.{strip_prefix, trim_start, trim_matches, trim, is_ascii_digit, is_whitespace}
use henka.Text.Trim.{all-reverse, all-append}
use henka.Text.Decimal.{to_decimal, all-to_decimal, parse_usize-to_decimal, usize_mod}
use henka.Json.{Json}
use henka.Lsp.{good, ◌>>=◌}
use henka.Lsp.Framing.{
  Bytes, Codec, ReadsBack, header_text, is_ascii, write_message, is_line_end, trim_end, header,
  read_headers, read_body, read_message, isize_mod, returned,
}

all_imp :
    (f g : ℕ → Bool) (t : Text)
    → ((c : ℕ) → f c ≡ true → g c ≡ true)
    → all f t ≡ true
    → all g t ≡ true
all_imp f g [] imp h = refl
all_imp f g (c ∷ t) imp h = ground (arith, imp c, all_imp f g t imp)

trim_start_none : (f : ℕ → Bool) (t : Text) → all (λ c. not (f c)) t ≡ true → trim_start f t ≡ t
unfolding trim_start
trim_start_none f [] h = refl
trim_start_none f (c ∷ t) h = ground arith

trim_none : (f : ℕ → Bool) (t : Text) → all (λ c. not (f c)) t ≡ true → trim_matches f t ≡ t
unfolding trim_matches
trim_none f t h = rw (trim_start_none f t h) (
    ap reverse (trim_start_none f (reverse t) (all-reverse (λ c. not (f c)) t h))
    ∙ reverse-reverse t)

-- The line of a content length, without its end.
abbrev content_length : ℕ → Text
content_length n = codes "Content-Length: " ++ to_decimal n

content_length-is_plain : (n : ℕ) → all (λ c. not (is_line_end c)) (content_length n) ≡ true
content_length-is_plain n =
    all-append (λ c. not (is_line_end c)) (codes "Content-Length: ") (to_decimal n) refl
      (all_imp is_ascii_digit (λ c. not (is_line_end c)) (to_decimal n) (λ c h. ground (arith, h))
        (all-to_decimal n))

trim_end-content_length :
    (n : ℕ) → trim_end is_line_end (content_length n ++ (b'\r' ∷ b'\n' ∷ [])) ≡ content_length n
unfolding trim_start
trim_end-content_length n = rw (reverse-append (content_length n) (b'\r' ∷ b'\n' ∷ [])) (
    ap reverse (
      trim_start_none is_line_end (reverse (content_length n))
        (all-reverse (λ c. not (is_line_end c)) (content_length n) (content_length-is_plain n)))
    ∙ reverse-reverse (content_length n))

digits-off_whitespace : (c : ℕ) → is_ascii_digit c ≡ true → not (is_whitespace c) ≡ true
unfolding is_whitespace
digits-off_whitespace c h = ground (arith, h)

trim-to_decimal : (n : ℕ) → trim (b' ' ∷ to_decimal n) ≡ to_decimal n
unfolding trim_matches trim_start is_whitespace
trim-to_decimal n =
    trim_none is_whitespace (to_decimal n)
      (all_imp is_ascii_digit _ (to_decimal n) digits-off_whitespace (all-to_decimal n))

-- The header loop gathers a line until its end.
read_headers-line :
    (c : Codec) (found : Option ℕ) (line t rest : Bytes)
    → all (λ b. not (b == b'\n')) t ≡ true
    → read_headers c found line (t ++ rest) ≡ read_headers c found (reverse t ++ line) rest
unfolding read_headers
read_headers-line c found line [] rest h = refl
read_headers-line c found line (b ∷ t) rest h =
    let off : (b == b'\n') ≡ false = ground (arith, h) in
    rw off (
      read_headers-line c found (b ∷ line) t rest (ground (arith, h))
      ∙ ap (λ l. read_headers c found l rest)
          (sym (append_assoc (reverse t) (b ∷ []) line)
            ∙ ap (λ l. l ++ line) (sym (reverse-cons b t))))

content_length-is_ascii : (n : ℕ) → all is_ascii (content_length n ++ (b'\r' ∷ b'\n' ∷ [])) ≡ true
content_length-is_ascii n =
    all-append is_ascii (content_length n) (b'\r' ∷ b'\n' ∷ [])
      (all_imp is_ascii_digit is_ascii (to_decimal n) (λ c h. ground (arith, h)) (all-to_decimal n))
      refl

header-content_length :
    (c : Codec)
    → ReadsBack c
    → (found : Option ℕ) (n : ℕ) → n < usize_mod
    → header c found (content_length n ++ (b'\r' ∷ b'\n' ∷ [])) ≡ good (some (some n))
unfolding header strip_prefix
header-content_length c r found n h =
    let text =
      r.from_utf8_ascii (content_length n ++ (b'\r' ∷ b'\n' ∷ [])) (content_length-is_ascii n) in
    rw text (
      rw (trim_end-content_length n)
        (rw (trim-to_decimal n) (rw (parse_usize-to_decimal n h) refl)))

header_blank :
    (c : Codec) → ReadsBack c → (found : Option ℕ) → header c found (b'\r' ∷ b'\n' ∷ []) ≡ good none
unfolding header trim_start
header_blank c r found = rw (r.from_utf8_ascii (b'\r' ∷ b'\n' ∷ []) refl) refl

line-reverse : (t : Bytes) → reverse (b'\n' ∷ (reverse t ++ [])) ≡ t ++ (b'\n' ∷ [])
line-reverse t =
    reverse-cons b'\n' (reverse t ++ [])
    ∙ ap (λ u. reverse u ++ (b'\n' ∷ [])) (append-nil (reverse t))
    ∙ ap (λ u. u ++ (b'\n' ∷ [])) (reverse-reverse t)

ended :
    (c : Codec) (found next : Option ℕ) (line rest : Bytes)
    → header c found (reverse (b'\n' ∷ line)) ≡ good (some next)
    → read_headers c found line (b'\n' ∷ rest) ≡ read_headers c next [] rest
unfolding read_headers
ended c found next line rest e = rw e refl

blanked :
    (c : Codec) (found : Option ℕ) (line rest : Bytes)
    → header c found (reverse (b'\n' ∷ line)) ≡ good none
    → read_headers c found line (b'\n' ∷ rest) ≡ good (some (found, rest))
unfolding read_headers
blanked c found line rest e = rw e refl

-- A line and its end, at the front of the stream: a header, and the blank line.
read_headers_more :
    (c : Codec) (found next : Option ℕ) (t rest : Bytes)
    → all (λ b. not (b == b'\n')) t ≡ true
    → header c found (t ++ (b'\n' ∷ [])) ≡ good (some next)
    → read_headers c found [] (t ++ (b'\n' ∷ rest)) ≡ read_headers c next [] rest
read_headers_more c found next t rest h e =
    read_headers-line c found [] t (b'\n' ∷ rest) h
    ∙ ended c found next (reverse t ++ []) rest (ap (header c found) (line-reverse t) ∙ e)

read_headers_done :
    (c : Codec) (found : Option ℕ) (t rest : Bytes)
    → all (λ b. not (b == b'\n')) t ≡ true
    → header c found (t ++ (b'\n' ∷ [])) ≡ good none
    → read_headers c found [] (t ++ (b'\n' ∷ rest)) ≡ good (some (found, rest))
read_headers_done c found t rest h e =
    read_headers-line c found [] t (b'\n' ∷ rest) h
    ∙ blanked c found (reverse t ++ []) rest (ap (header c found) (line-reverse t) ∙ e)

length_line : (n : ℕ) → all (λ b. not (b == b'\n')) (content_length n ++ (b'\r' ∷ [])) ≡ true
length_line n =
    all-append (λ b. not (b == b'\n')) (content_length n) (b'\r' ∷ [])
      (all_imp (λ c. not (is_line_end c)) (λ b. not (b == b'\n')) (content_length n)
        (λ c h. ground (arith, h)) (content_length-is_plain n))
      refl

read_headers-header_text :
    (c : Codec)
    → ReadsBack c
    → (n : ℕ) (body : Bytes) → n < usize_mod
    → read_headers c none [] (header_text n ++ body) ≡ good (some (some n, body))
read_headers-header_text c r n body h =
    let line = content_length n ++ (b'\r' ∷ []) in
    let blank = b'\r' ∷ b'\n' ∷ body in
    let split : header_text n ++ body ≡ line ++ (b'\n' ∷ blank) =
      ap (λ u. codes "Content-Length: " ++ u)
        (append_assoc (to_decimal n) (b'\r' ∷ b'\n' ∷ b'\r' ∷ b'\n' ∷ []) body
          ∙ sym (append_assoc (to_decimal n) (b'\r' ∷ []) (b'\n' ∷ blank))) in
    let whole : line ++ (b'\n' ∷ []) ≡ content_length n ++ (b'\r' ∷ b'\n' ∷ []) =
      ap (λ u. codes "Content-Length: " ++ u)
        (append_assoc (to_decimal n) (b'\r' ∷ []) (b'\n' ∷ [])) in
    ap (read_headers c none []) split
    ∙ read_headers_more c none (some n) line blank (length_line n)
        (ap (header c none) whole ∙ header-content_length c r none n h)
    ∙ read_headers_done c (some n) (b'\r' ∷ []) body refl (header_blank c r (some n))

take-append : (a b : Bytes) → take (length a) (a ++ b) ≡ a
take-append [] b = refl
take-append (x ∷ a) b = ap (λ t. x ∷ t) (take-append a b)

drop-append : (a b : Bytes) → drop (length a) (a ++ b) ≡ b
drop-append [] b = refl
drop-append (x ∷ a) b = drop-append a b

read_body_back :
    (c : Codec) (v : Json) (body stream : Bytes)
    → c.from_slice body ≡ good v
    → length body < isize_mod
    → read_body c (good (some (some (length body), body ++ stream)))
      ≡ returned (good (some (v, stream)))
read_body_back c v body stream e h =
    let room : ltb (length body) isize_mod ≡ true = ground (arith, h) in
    let fits : leb (length body) (length (body ++ stream)) ≡ true =
      ground (arith, length-append body stream) in
    rw room (rw fits (rw (take-append body stream) (rw e (rw (drop-append body stream) refl))))

-- What `write_message` puts in front of a stream, if it succeeds, `read_message` takes off it again:
-- the message is the one that was written, and what is left is the stream behind it. The body has
-- no more bytes than a `Vec` can have, `from_slice` reads back what `to_vec` writes, and ASCII is
-- UTF-8.
pub read_message-write_message :
    (c : Codec)
    → ReadsBack c
    → (v : Json) (body stream : Bytes) → c.to_vec v ≡ good body
    → length body < isize_mod
    → (write_message c v >>= λ sent. good (read_message c (sent ++ stream)))
      ≡ good (returned (good (some (v, stream))))
unfolding write_message read_message
read_message-write_message c r v body stream e h =
    let headers = read_headers-header_text c r (length body) (body ++ stream) (omega (arith, h)) in
    rw e (
      ap (λ u. good (read_body c (read_headers c none [] u)))
        (append_assoc (header_text (length body)) body stream)
      ∙ ap (λ x. good (read_body c x)) headers
      ∙ ap good (read_body_back c v body stream (r.from_slice-to_vec v body e) h))
