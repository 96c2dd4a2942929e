-- ===== src/Lsp/Client/Serve.antt =====
-- The reader task ends, and leaves no request without its answer, unless it panics.
pub mod Died
pub mod Order
use henka.Common.{
  ℕ, zero, suc, Bool, true, false, ◌+◌, ◌<◌, ◌≤◌, ◌≡◌, refl, ap, sym, ◌∙◌, List, [], ◌∷◌, ◌++◌,
  Option, none, some, arith, length, length-append, append_assoc,
}
use henka.Json.{Json, i64_mod}
use henka.Lsp.{LspResult, LspError, good, bad, ◌>>=◌}
use henka.Text.Decimal.{usize_mod}
use henka.Lsp.Framing.{
  Bytes, Codec, ReadsBack, header_text, read_headers, read_message, write_message, Reading,
  returned, panicked,
}
use henka.Lsp.Framing.Progress.{read_message_left}
use henka.Lsp.Framing.RoundTrip.{read_message-write_message}
use henka.Lsp.Client.{LspClient, handle_incoming, fail_pending, serve}
use henka.Lsp.Client.Pending.{waiting, answers_to}
use henka.Lsp.Client.Reach.{
  Step, IsReachable, next, received, ended, fail_pending-answers_to, calls_handle_incoming,
}

-- What is read from a stream, with the equation.
pub data Read (c : Codec) (stream : Bytes) : Type 0 where
  dead : read_message c stream ≡ panicked → Read c stream
  broken : (e : LspError) → read_message c stream ≡ returned (bad e) → Read c stream
  over : read_message c stream ≡ returned (good none) → Read c stream
  another :
      (msg : Json) (rest : Bytes)
      → read_message c stream ≡ returned (good (some (msg, rest)))
      → Read c stream

pub Read-cases : (c : Codec) (stream : Bytes) → Read c stream
Read-cases c stream = of_result (read_message c stream) refl
  where
    of_result : (r : Reading) → read_message c stream ≡ r → Read c stream
    of_result panicked h = dead h
    of_result (returned (bad e)) h = broken e h
    of_result (returned (good none)) h = over h
    of_result (returned (good (some (msg, rest)))) h = another msg rest h

pub serve_over :
    (c : Codec) (outcome : Json → LspResult (Unit {0})) (fuel : ℕ) (s : LspClient)
    → serve c outcome (suc fuel) [] s ≡ fail_pending s
unfolding serve read_message read_headers
serve_over c outcome fuel s = refl

serve_broken :
    (c : Codec) (outcome : Json → LspResult (Unit {0})) (fuel : ℕ) (stream : Bytes) (e : LspError)
    (s : LspClient)
    → read_message c stream ≡ returned (bad e)
    → serve c outcome (suc fuel) stream s ≡ fail_pending s
unfolding serve
serve_broken c outcome fuel stream e s q = rw (serve, q) refl

serve_ended :
    (c : Codec) (outcome : Json → LspResult (Unit {0})) (fuel : ℕ) (stream : Bytes) (s : LspClient)
    → read_message c stream ≡ returned (good none)
    → serve c outcome (suc fuel) stream s ≡ fail_pending s
unfolding serve
serve_ended c outcome fuel stream s q = rw (serve, q) refl

pub serve_one :
    (c : Codec) (outcome : Json → LspResult (Unit {0})) (fuel : ℕ) (stream rest : Bytes)
    (msg : Json) (s : LspClient)
    → read_message c stream ≡ returned (good (some (msg, rest)))
    → serve c outcome (suc fuel) stream s
      ≡ serve c outcome fuel rest (handle_incoming msg (outcome msg) s)
unfolding serve
serve_one c outcome fuel stream rest msg s e = rw (serve, e) refl

pub serve_dead :
    (c : Codec) (outcome : Json → LspResult (Unit {0})) (fuel : ℕ) (stream : Bytes) (s : LspClient)
    → read_message c stream ≡ panicked
    → serve c outcome (suc fuel) stream s ≡ s
unfolding serve
serve_dead c outcome fuel stream s q = rw (serve, q) refl

-- No message that is read from the stream announces more bytes than a `Vec` can have.
unfoldable pub survives : Codec → ℕ → Bytes → Bool
survives c zero stream = true
survives c (suc n) stream = elim (read_message c stream) [
  | panicked ↦ false
  | returned (bad e) ↦ true
  | returned (good none) ↦ true
  | returned (good (some (msg, rest))) ↦ survives c n rest
]

survives_dead :
    (c : Codec) (n : ℕ) (stream : Bytes)
    → read_message c stream ≡ panicked
    → survives c (suc n) stream ≡ false
unfolding survives
survives_dead c n stream q = rw (survives, q) refl

pub survives_one :
    (c : Codec) (n : ℕ) (stream rest : Bytes) (msg : Json)
    → read_message c stream ≡ returned (good (some (msg, rest)))
    → survives c (suc n) stream ≡ survives c n rest
unfolding survives
survives_one c n stream rest msg q = rw (survives, q) refl

-- Once the server's output has ended, every call that was made before has its one answer, wherever
-- the output broke off and whatever it was, unless a message in it announces more bytes than a `Vec`
-- can have: the reader task ends, since the fuel is more than the stream has bytes, and none of the
-- calls still waits. There were fewer than 2^64 - 1 calls.
pub serve-answers_to :
    (c : Codec) (outcome : Json → LspResult (Unit {0})) (fuel : ℕ) (stream : Bytes) (s : LspClient)
    (call : ℕ)
    → IsReachable s
    → suc s.calls < i64_mod
    → call < s.calls
    → length stream < fuel
    → survives c fuel stream ≡ true
    → (answers_to call (serve c outcome fuel stream s).answers ≡ 1)
      × ((serve c outcome fuel stream s).pending ≡ [])
serve-answers_to c outcome zero stream s call r h k n alive = ground (arith, n)
serve-answers_to c outcome (suc fuel) stream s call r h k n alive = elim (Read-cases c stream) [
  | dead q ↦ let wrong = sym alive ∙ survives_dead c fuel stream q in ground (arith, wrong)
  | broken e q ↦
      rw (serve_broken c outcome fuel stream e s q) (fail_pending-answers_to s call r h k)
  | over q ↦ rw (serve_ended c outcome fuel stream s q) (fail_pending-answers_to s call r h k)
  | another msg rest q ↦
      let same = calls_handle_incoming msg (outcome msg) s in
      rw (serve_one c outcome fuel stream rest msg s q) (
        serve-answers_to c outcome fuel rest (handle_incoming msg (outcome msg) s) call
          (next r (received msg (outcome msg) s)) (omega (arith, same, h)) (omega (arith, same, k))
          (omega (arith, read_message_left c stream rest msg q, n))
          (sym (survives_one c fuel stream rest msg q) ∙ alive))
]

-- Fuel beyond one more than the bytes of the stream changes nothing.
pub serve_enough_fuel :
    (c : Codec) (outcome : Json → LspResult (Unit {0})) (n m : ℕ) (stream : Bytes) (s : LspClient)
    → length stream < n
    → length stream < m
    → serve c outcome n stream s ≡ serve c outcome m stream s
serve_enough_fuel c outcome zero m stream s h k = ground (arith, h)
serve_enough_fuel c outcome (suc n) zero stream s h k = ground (arith, k)
serve_enough_fuel c outcome (suc n) (suc m) stream s h k = elim (Read-cases c stream) [
  | dead q ↦ serve_dead c outcome n stream s q ∙ sym (serve_dead c outcome m stream s q)
  | broken e q ↦ serve_broken c outcome n stream e s q ∙ sym (serve_broken c outcome m stream e s q)
  | over q ↦ serve_ended c outcome n stream s q ∙ sym (serve_ended c outcome m stream s q)
  | another msg rest q ↦
      let shorter = read_message_left c stream rest msg q in
      serve_one c outcome n stream rest msg s q
      ∙ serve_enough_fuel c outcome n m rest (handle_incoming msg (outcome msg) s)
          (omega (arith, shorter, h)) (omega (arith, shorter, k))
      ∙ sym (serve_one c outcome m stream rest msg s q)
]
