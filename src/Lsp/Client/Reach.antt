-- ===== src/Lsp/Client/Reach.antt =====
-- The answers to a client's requests: what every interleaving of calls, messages of the server and
-- the end of the connection keeps.
use henka.Common.{
  ℕ, suc, ◌+◌, ◌<◌, ◌≡◌, refl, [], Option, none, some, arith, ltb, nat_eq, if◌then◌else◌,
  Bool-cases, Option-cases, inl, inr,
}
use henka.Common.BTreeMap.{lookup, remove}
use henka.Text.{Text, codes}
use henka.Json.{Json, i64_mod, member}
use henka.Lsp.{LspResult, good, bad}
use henka.Lsp.Client.{
  LspClient, spawned, registered, request, notify, handle_incoming, fail_pending, response,
  is_response, answer_of, server_message, str_of, i64_of,
}
use henka.Lsp.Client.Pending.{
  waiting, answers_to, Inv, Inv-spawned, registered_fresh, settled, lookup_front,
  answers_to-all_closed,
}

-- What may happen to a client: a caller's request or notification, a message of the server, and
-- the end of its output, which the reader task meets.
pub data Step : LspClient → LspClient → Type 0 where
  requested :
      (method : Text) (params : Json) (outcome : LspResult (Unit {0})) (s : LspClient)
      → Step s (request method params outcome s)
  notified :
      (method : Text) (params : Json) (outcome : LspResult (Unit {0})) (s : LspClient)
      → Step s (notify method params outcome s)
  received :
      (msg : Json) (outcome : LspResult (Unit {0})) (s : LspClient)
      → Step s (handle_incoming msg outcome s)
  ended : (s : LspClient) → Step s (fail_pending s)

pub data IsReachable : LspClient → Type 0 where
  start : IsReachable spawned
  next : {s t : LspClient} → IsReachable s → Step s t → IsReachable t

request-Inv :
    (call : ℕ) (method : Text) (params : Json) (outcome : LspResult (Unit {0})) (s : LspClient)
    → Inv call s
    → suc (request method params outcome s).calls < i64_mod
    → Inv call (request method params outcome s)
unfolding request
request-Inv call method params (good u) s i h =
    let r = registered_fresh call s i h in
    record { next = r.next; entries = r.entries; once = r.once }
request-Inv call method params (bad e) s i h =
    settled call s.next_id s.calls (bad e) (registered s)
      (lookup_front s.next_id s.calls (remove s.next_id s.pending)) (registered_fresh call s i h)

response-Inv :
    (call : ℕ) (id : Option ℕ) (msg : Json) (s : LspClient)
    → Inv call s
    → Inv call (response id msg s)
response-Inv call none msg s i = i
response-Inv call (some id) msg s i = elim (Option-cases (lookup id s.pending)) [
  | inl e ↦ rw e i
  | inr (c, e) ↦ rw e (settled call id c (answer_of msg) s e i)
]

server_message-Inv :
    (call : ℕ) (method : Option Text) (id : Option Json) (msg : Json)
    (outcome : LspResult (Unit {0})) (s : LspClient)
    → Inv call s
    → Inv call (server_message method id msg outcome s)
server_message-Inv call none id msg outcome s i = i
server_message-Inv call (some m) none msg outcome s i = record {
  next = i.next;
  entries = i.entries;
  once = i.once;
}
server_message-Inv call (some m) (some id) msg outcome s i = record {
  next = i.next;
  entries = i.entries;
  once = i.once;
}

handle_incoming-Inv :
    (call : ℕ) (msg : Json) (outcome : LspResult (Unit {0})) (s : LspClient)
    → Inv call s
    → Inv call (handle_incoming msg outcome s)
unfolding handle_incoming
handle_incoming-Inv call msg outcome s i = elim (Bool-cases (is_response msg)) [
  | inl e ↦ rw e (response-Inv call (i64_of (member (codes "id") msg)) msg s i)
  | inr e ↦ rw e (
      server_message-Inv call (str_of (member (codes "method") msg)) (member (codes "id") msg) msg
        outcome s i)
]

fail_pending-Inv : (call : ℕ) (s : LspClient) → Inv call s → Inv call (fail_pending s)
unfolding fail_pending
fail_pending-Inv call s i = record {
  next = i.next;
  entries = tt;
  once = omega (arith, answers_to-all_closed call s.pending s.answers, i.once);
}

calls_response : (id : Option ℕ) (msg : Json) (s : LspClient) → (response id msg s).calls ≡ s.calls
calls_response none msg s = refl
calls_response (some id) msg s = elim (Option-cases (lookup id s.pending)) [
  | inl e ↦ rw e refl
  | inr (c, e) ↦ rw e refl
]

calls_server_message :
    (method : Option Text) (id : Option Json) (msg : Json) (outcome : LspResult (Unit {0}))
    (s : LspClient)
    → (server_message method id msg outcome s).calls ≡ s.calls
calls_server_message none id msg outcome s = refl
calls_server_message (some m) none msg outcome s = refl
calls_server_message (some m) (some id) msg outcome s = refl

pub calls_handle_incoming :
    (msg : Json) (outcome : LspResult (Unit {0})) (s : LspClient)
    → (handle_incoming msg outcome s).calls ≡ s.calls
unfolding handle_incoming
calls_handle_incoming msg outcome s = elim (Bool-cases (is_response msg)) [
  | inl e ↦ rw e (calls_response (i64_of (member (codes "id") msg)) msg s)
  | inr e ↦ rw e (
      calls_server_message (str_of (member (codes "method") msg)) (member (codes "id") msg) msg
        outcome s)
]

-- The counter of calls never falls.
calls-Step : {s t : LspClient} → Step s t → s.calls < suc t.calls
unfolding request notify fail_pending
calls-Step (requested method params (good u) s) = omega arith
calls-Step (requested method params (bad e) s) = omega arith
calls-Step (notified method params outcome s) = omega arith
calls-Step (received msg outcome s) = omega (arith, calls_handle_incoming msg outcome s)
calls-Step (ended s) = omega arith

Step-Inv : {s t : LspClient} (call : ℕ) → Step s t → suc t.calls < i64_mod → Inv call s → Inv call t
unfolding notify
Step-Inv call (requested method params outcome s) h i = request-Inv call method params outcome s i h
Step-Inv call (notified method params outcome s) h i = record {
  next = i.next;
  entries = i.entries;
  once = i.once;
}
Step-Inv call (received msg outcome s) h i = handle_incoming-Inv call msg outcome s i
Step-Inv call (ended s) h i = fail_pending-Inv call s i

IsReachable-Inv : {s : LspClient} (call : ℕ) → IsReachable s → suc s.calls < i64_mod → Inv call s
IsReachable-Inv call start h = Inv-spawned call
IsReachable-Inv call (next r step) h =
    Step-Inv call step h (IsReachable-Inv call r (omega (arith, calls-Step step, h)))

-- In every state that a client reaches by calls, messages of the server in any order and the end
-- of its output, a call of `request` is waiting or answered, exactly one of the two and once, and a
-- number that no call has yet is neither. There were fewer than 2^64 - 1 calls.
pub waiting-answers_to :
    (s : LspClient) (call : ℕ)
    → IsReachable s
    → suc s.calls < i64_mod
    → waiting call s.pending + answers_to call s.answers ≡ (if ltb call s.calls then 1 else 0)
waiting-answers_to s call r h = (IsReachable-Inv call r h).once

-- When the connection ends, every call that was ever made has its one answer, and none waits.
pub fail_pending-answers_to :
    (s : LspClient) (call : ℕ)
    → IsReachable s
    → suc s.calls < i64_mod
    → call < s.calls
    → (answers_to call (fail_pending s).answers ≡ 1) × ((fail_pending s).pending ≡ [])
unfolding fail_pending
fail_pending-answers_to s call r h c = (
  ground (arith, answers_to-all_closed call s.pending s.answers, waiting-answers_to s call r h, c),
  refl,
)
