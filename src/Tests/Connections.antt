-- ===== src/Tests/Connections.antt =====
-- A client's connection to a language server: two calls, of which one is answered.
use henka.Common.{
  ℕ, ◌+◌, ◌≡◌, ◌<◌, refl, [], ◌∷◌, ◌++◌, some, arith, ◌==◌, nat_eq, list_eq, ltb, list_beq_iff, suc,
  true, ◌&&◌, if◌then◌else◌,
}
use henka.Text.{Text, codes}
use henka.Common.BTreeMap.{lookup, remove}
use henka.Text.Search.{strip_prefix, trim_start, trim_matches, is_whitespace}
use henka.Text.Decimal.{to_decimal, digits, below, parse_usize, parse_digits}
use henka.Json.{Json, as_i64, get, null, string, unsigned, object, no_fields, field, i64_mod}
use henka.Lsp.{LspResult, good, bad, LspError, ◌>>=◌}
use henka.Lsp.Framing.{
  Bytes, Codec, ReadsBack, read_message, write_message, read_headers, header, returned,
}
use henka.Lsp.Framing.RoundTrip.{read_message-write_message}
use henka.Lsp.Client.{LspClient, spawned, request, handle_incoming, fail_pending, serve, answer_of}
use henka.Lsp.Client.Pending.{waiting, answers_to}
use henka.Lsp.Client.Reach.{
  requested, received, IsReachable, start, next, calls_handle_incoming, waiting-answers_to,
}
use henka.Lsp.Client.Serve.{survives, serve-answers_to, serve_enough_fuel}
use henka.Lsp.Client.Serve.Order.{write_messages, handle_all, serve-write_messages}

-- The response to the first call.
abbrev reply : ℕ → Text → Json
reply id result =
    object (field (codes "id") (unsigned id) (field (codes "result") (string result) no_fields))

abbrev pong : Json
pong = reply 1 (codes "ok")

-- A codec for such responses alone.
abbrev encoded : Json → LspResult Bytes
encoded (object (field j (unsigned id) (field k (string result) no_fields))) =
    if j == codes "id" && k == codes "result"
    then good (id ∷ result)
    else bad (LspError.json (codes "not a reply"))
encoded _ = bad (LspError.json (codes "not a reply"))

abbrev decoded : Bytes → LspResult Json
decoded [] = bad (LspError.json (codes "eof"))
decoded (id ∷ result) = good (reply id result)

abbrev replies : Codec
replies = record { to_vec = encoded; from_slice = decoded; from_utf8 = λ b. some b }

decoded-encoded : (v : Json) (b : Bytes) → encoded v ≡ good b → decoded b ≡ good v
decoded-encoded (object (field j (unsigned id) (field k (string result) no_fields))) b e =
    ground (arith, e, list_beq_iff j (codes "id"), list_beq_iff k (codes "result"))
decoded-encoded _ b e = ground (arith, e)

replies-ReadsBack : ReadsBack replies
replies-ReadsBack = record { from_slice-to_vec = decoded-encoded; from_utf8_ascii = λ b h. refl }

read_message-write_message_example :
    (write_message replies pong >>= λ sent. good (read_message replies (sent ++ codes "Content")))
    ≡ good (returned (good (some (pong, codes "Content"))))
read_message-write_message_example =
    read_message-write_message replies replies-ReadsBack pong (1 ∷ codes "ok") (codes "Content")
      refl (omega arith)

abbrev asked : LspClient
asked = request (codes "shutdown") null (good tt) (request (codes "ping") null (good tt) spawned)

asked-IsReachable : IsReachable asked
asked-IsReachable =
    next (next start (requested (codes "ping") null (good tt) spawned))
      (requested (codes "shutdown") null (good tt) (request (codes "ping") null (good tt) spawned))

asked_calls : asked.calls ≡ 2
unfolding request
asked_calls = refl

few_calls : suc asked.calls < i64_mod
few_calls = rw asked_calls (omega arith)

waiting-answers_to_example :
    waiting 1 (handle_incoming pong (good tt) asked).pending
      + answers_to 1 (handle_incoming pong (good tt) asked).answers
    ≡ (if ltb 1 (handle_incoming pong (good tt) asked).calls then 1 else 0)
waiting-answers_to_example =
    waiting-answers_to (handle_incoming pong (good tt) asked) 1
      (next asked-IsReachable (received pong (good tt) asked)) few_after
  where
    few_after : suc (handle_incoming pong (good tt) asked).calls < i64_mod
    few_after = rw (calls_handle_incoming pong (good tt) asked) few_calls

-- The first call is answered by the server, the second one by the end of its output.
abbrev pong_stream : Bytes
pong_stream = codes "Content-Length: 3" ++ (13 ∷ 10 ∷ 13 ∷ 10 ∷ 1 ∷ codes "ok")

serve_run :
    (serve replies (λ v. good tt) 30 pong_stream asked).answers
    ≡ (1, bad LspError.closed) ∷ (0, good (string (codes "ok"))) ∷ []
unfolding serve request handle_incoming fail_pending read_message read_headers header to_decimal
    digits below parse_usize parse_digits trim_matches trim_start strip_prefix is_whitespace lookup
    remove as_i64 get answer_of
serve_run = refl

pong_survives : survives replies 30 pong_stream ≡ true
unfolding survives read_message read_headers header to_decimal digits below parse_usize parse_digits
    trim_matches trim_start strip_prefix is_whitespace
pong_survives = refl

-- The answer to the first call, and a header that announces 2^63 bytes.
abbrev too_long : Bytes
too_long = pong_stream ++ (codes "Content-Length: 9223372036854775808" ++ (13 ∷ 10 ∷ 13 ∷ 10 ∷ []))

serve-answers_to_example :
    (answers_to 1 (serve replies (λ v. good tt) 30 pong_stream asked).answers ≡ 1)
    × ((serve replies (λ v. good tt) 30 pong_stream asked).pending ≡ [])
serve-answers_to_example =
    serve-answers_to replies (λ v. good tt) 30 pong_stream asked 1 asked-IsReachable few_calls
      (rw asked_calls (omega arith)) (omega arith) pong_survives

serve_enough_fuel_example :
    serve replies (λ v. good tt) 30 pong_stream asked
    ≡ serve replies (λ v. good tt) 100 pong_stream asked
serve_enough_fuel_example =
    serve_enough_fuel replies (λ v. good tt) 30 100 pong_stream asked (omega arith) (omega arith)

pong_written : write_messages replies (pong ∷ []) ≡ good pong_stream
unfolding write_messages write_message to_decimal digits below
pong_written = refl

serve-write_messages_example :
    serve replies (λ v. good tt) 2 pong_stream asked
    ≡ fail_pending (handle_all (λ v. good tt) (pong ∷ []) asked)
serve-write_messages_example =
    serve-write_messages replies replies-ReadsBack (λ v. good tt) (pong ∷ []) 2 pong_stream asked
      pong_written (omega arith) (omega arith)
