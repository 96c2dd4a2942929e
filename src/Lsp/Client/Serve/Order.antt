-- ===== src/Lsp/Client/Serve/Order.antt =====
-- The reader task handles the messages in the order in which the server wrote them.
use henka.Common.{
  ℕ, zero, suc, ◌<◌, ◌≡◌, refl, ap, sym, ◌∙◌, List, [], ◌∷◌, ◌++◌, some, arith, length,
  length-append,
}
use henka.Json.{Json}
use henka.Lsp.{LspResult, good, bad, ◌>>=◌}
use henka.Lsp.Framing.{
  Bytes, Codec, ReadsBack, header_text, read_message, write_message, isize_mod, Reading, returned,
  panicked,
}
use henka.Lsp.Framing.Progress.{read_message_left}
use henka.Lsp.Framing.RoundTrip.{read_message-write_message}
use henka.Lsp.Client.{LspClient, handle_incoming, fail_pending, serve}
use henka.Lsp.Client.Serve.{serve_over, serve_one}

-- The stream on which the server writes its messages one behind the other.
unfoldable pub write_messages : Codec → List Json → LspResult Bytes
unfolding write_message
write_messages c [] = good []
write_messages c (v ∷ vs) =
    write_message c v >>= λ sent. (write_messages c vs >>= λ rest. good (sent ++ rest))

abbrev pub handle_all : (Json → LspResult (Unit {0})) → List Json → LspClient → LspClient
handle_all outcome [] s = s
handle_all outcome (v ∷ vs) s = handle_all outcome vs (handle_incoming v (outcome v) s)

-- What was written is a message, and the stream behind it.
record Written (c : Codec) (v : Json) (vs : List Json) (stream : Bytes) : Type 0 where
  body : Bytes
  rest : Bytes
  encoded : c.to_vec v ≡ good body
  others : write_messages c vs ≡ good rest
  whole : stream ≡ (header_text (length body) ++ body) ++ rest

write_messages-Written :
    (c : Codec) (v : Json) (vs : List Json) (stream : Bytes)
    → write_messages c (v ∷ vs) ≡ good stream
    → Written c v vs stream
unfolding write_messages write_message
write_messages-Written c v vs stream e = of_parts (c.to_vec v) (write_messages c vs) refl refl e
  where
    of_parts :
        (b : LspResult Bytes) (t : LspResult Bytes)
        → c.to_vec v ≡ b
        → write_messages c vs ≡ t
        → ((b >>= λ body. good (header_text (length body) ++ body)) >>= λ sent.
            (t >>= λ rest. good (sent ++ rest)))
          ≡ good stream
        → Written c v vs stream
    of_parts (bad x) t p q e = ground (arith, e)
    of_parts (good b) (bad x) p q e = ground (arith, e)
    of_parts (good b) (good t) p q e = record {
      body = b;
      rest = t;
      encoded = p;
      others = q;
      whole = ground (arith, e);
    }

write_message_good :
    (c : Codec) (v : Json) (body : Bytes)
    → c.to_vec v ≡ good body
    → write_message c v ≡ good (header_text (length body) ++ body)
unfolding write_message
write_message_good c v body e = rw e refl

abbrev read_or : Reading → LspResult Reading → Reading
read_or r (bad e) = r
read_or r (good s) = s

read_written :
    (c : Codec) (v : Json) (body rest : Bytes)
    → ReadsBack c
    → c.to_vec v ≡ good body
    → length body < isize_mod
    → read_message c ((header_text (length body) ++ body) ++ rest)
      ≡ returned (good (some (v, rest)))
read_written c v body rest r e h =
    let sent : write_message c v ≡ good (header_text (length body) ++ body) =
      write_message_good c v body e in
    let back =
      ap (λ x. x >>= λ sent. good (read_message c (sent ++ rest))) (sym sent)
      ∙ read_message-write_message c r v body rest e h in
    ap (read_or panicked) back

read_message-Written :
    (c : Codec) (v : Json) (vs : List Json) (stream : Bytes)
    → ReadsBack c
    → length stream < isize_mod
    → (w : Written c v vs stream) → read_message c stream ≡ returned (good (some (v, w.rest)))
read_message-Written c v vs stream r h w =
    let fits : length w.body < isize_mod = omega (
      arith,
      ap length w.whole,
      h,
      length-append (header_text (length w.body) ++ w.body) w.rest,
      length-append (header_text (length w.body)) w.body,
    ) in
    ap (read_message c) (w.whole) ∙ read_written c v w.body w.rest r w.encoded fits

nothing_written : (c : Codec) (stream : Bytes) → write_messages c [] ≡ good stream → stream ≡ []
unfolding write_messages
nothing_written c stream e = ground (arith, e)

-- The messages that a server writes one behind the other are handled one by one in that order, and
-- then the requests that still wait are failed. The stream has fewer than 2^63 bytes.
pub serve-write_messages :
    (c : Codec)
    → ReadsBack c
    → (outcome : Json → LspResult (Unit {0})) (vs : List Json) (fuel : ℕ) (stream : Bytes)
      (s : LspClient)
    → write_messages c vs ≡ good stream
    → length stream < isize_mod
    → length vs < fuel
    → serve c outcome fuel stream s ≡ fail_pending (handle_all outcome vs s)
serve-write_messages c r outcome vs zero stream s e h n = ground (arith, n)
serve-write_messages c r outcome [] (suc fuel) stream s e h n =
    let none_left = nothing_written c stream e in
    ap (λ t. serve c outcome (suc fuel) t s) none_left ∙ serve_over c outcome fuel s
serve-write_messages c r outcome (v ∷ vs) (suc fuel) stream s e h n =
    let w = write_messages-Written c v vs stream e in
    let taken = read_message-Written c v vs stream r h w in
    serve_one c outcome fuel stream w.rest v s taken
    ∙ serve-write_messages c r outcome vs fuel w.rest (handle_incoming v (outcome v) s) w.others
        (omega (arith, read_message_left c stream w.rest v taken, h)) (omega (arith, n))
