-- ===== src/Lsp/Client.antt =====
-- The JSON-RPC client: crates/henka-lsp/src/client.rs. The channel on which a request waits is the
-- number of the call, the map `pending` leads from an id to it, and `answers` holds what the
-- channels were sent, the last first. Whether a write to the server's stdin succeeds is an argument.
pub mod Pending
pub mod Reach
pub mod Serve
use henka.Common.{
  ℕ, zero, suc, ◌+◌, ◌%◌, Bool, true, false, ◌&&◌, ◌||◌, List, [], ◌∷◌, ◌++◌, Option, none, some,
  ◌==◌, nat_eq, list_eq, if◌then◌else◌,
}
use henka.Common.BTreeMap.{BTreeMap, lookup, remove}
use henka.Text.{Text, codes}
use henka.Json.{
  Json, null, bool, string, array, object, Fields, no_fields, field, Items, get, member, as_str,
  as_i64, i64_json, i64_mod, count_items, repeated,
}
use henka.Lsp.Framing.{Bytes, Codec, read_message, returned, panicked}
use henka.Lsp.{LspResult, good, bad, LspError}

pub record LspClient : Type 0 where
  -- An `i64`, as the natural number that has its bits.
  pub next_id : ℕ
  -- The calls of `request` so far.
  pub calls : ℕ
  pub pending : BTreeMap ℕ ℕ
  pub answers : List (ℕ × LspResult Json)
  -- What was written to the server, and what was broadcast, the last first.
  pub sent : List Json
  pub notifications : List (Text × Json)

abbrev pub spawned : LspClient
spawned = record {
  next_id = 1;
  calls = 0;
  pending = [];
  answers = [];
  sent = [];
  notifications = [];
}

abbrev pub wrote : LspResult (Unit {0}) → Json → List Json → List Json
wrote (bad e) message sent = sent
wrote (good _) message sent = message ∷ sent

-- A sender that is dropped closes its channel.
abbrev pub dropped : Option ℕ → List (ℕ × LspResult Json) → List (ℕ × LspResult Json)
dropped none answers = answers
dropped (some call) answers = (call, bad LspError.closed) ∷ answers

abbrev pub request_message : ℕ → Text → Json → Json
request_message id method params = object (
    field (codes "id") (i64_json id) (
      field (codes "jsonrpc") (string (codes "2.0"))
        (field (codes "method") (string method) (field (codes "params") params no_fields))))

-- The sender is in the map, and the message is about to be written.
abbrev pub registered : LspClient → LspClient
registered s = record s {
  next_id = (s.next_id + 1) % i64_mod;
  calls = suc s.calls;
  pending = (s.next_id, s.calls) ∷ remove s.next_id s.pending;
  answers = dropped (lookup s.next_id s.pending) s.answers;
}

-- `request`, until it waits for its answer.
unfoldable pub request : Text → Json → LspResult (Unit {0}) → LspClient → LspClient
request method params (good u) s =
    let r = registered s in record r { sent = request_message s.next_id method params ∷ r.sent }
request method params (bad e) s =
    let r = registered s in
    record r { pending = remove s.next_id r.pending; answers = (s.calls, bad e) ∷ r.answers }

unfoldable pub notify : Text → Json → LspResult (Unit {0}) → LspClient → LspClient
notify method params outcome s =
    let message = object (
      field (codes "jsonrpc") (string (codes "2.0"))
        (field (codes "method") (string method) (field (codes "params") params no_fields))) in
    record s { sent = wrote outcome message s.sent }

abbrev or_null : Option Json → Json
or_null none = null
or_null (some v) = v

abbrev or_zero : Option ℕ → ℕ
or_zero none = 0
or_zero (some n) = n

abbrev pub str_of : Option Json → Option Text
str_of none = none
str_of (some v) = as_str v

abbrev pub i64_of : Option Json → Option ℕ
i64_of none = none
i64_of (some v) = as_i64 v

abbrev or_empty : Option Text → Text
or_empty none = []
or_empty (some t) = t

abbrev pub is_given : Option Json → Bool
is_given none = false
is_given (some _) = true

abbrev items_of : Option Json → ℕ
items_of (some (array js)) = count_items js
items_of _ = 0

abbrev member_of : Text → Option Json → Option Json
member_of k none = none
member_of k (some v) = member k v

unfoldable pub default_server_response : Text → Option Json → Json
default_server_response method params =
    if method == codes "workspace/configuration"
    then array (repeated null (items_of (member_of (codes "items") params)))
    else (if method == codes "workspace/applyEdit"
        then object (field (codes "applied") (bool true) no_fields)
        else null)

-- What a response sends to its channel.
unfoldable pub answer_of : Json → LspResult Json
unfolding as_i64
answer_of msg = elim (member (codes "error") msg) [
  | some err ↦ bad (
      LspError.response (or_zero (i64_of (member (codes "code") err)))
        (or_empty (str_of (member (codes "message") err))))
  | none ↦ good (or_null (member (codes "result") msg))
]

abbrev pub is_response : Json → Bool
is_response msg =
    is_given (member (codes "id") msg)
    && (is_given (member (codes "result") msg) || is_given (member (codes "error") msg))

abbrev pub answered : Option ℕ → ℕ → Json → LspClient → LspClient
answered none id msg s = s
answered (some call) id msg s = record s {
  pending = remove id s.pending;
  answers = (call, answer_of msg) ∷ s.answers;
}

abbrev pub response : Option ℕ → Json → LspClient → LspClient
response none msg s = s
response (some id) msg s = answered (lookup id s.pending) id msg s

abbrev pub reply_message : Json → Json → Json
reply_message id result = object (
    field (codes "id") id
      (field (codes "jsonrpc") (string (codes "2.0")) (field (codes "result") result no_fields)))

abbrev pub server_message :
    Option Text → Option Json → Json → LspResult (Unit {0}) → LspClient → LspClient
server_message none id msg outcome s = s
server_message (some method) none msg outcome s = record s {
  notifications = (method, or_null (member (codes "params") msg)) ∷ s.notifications;
}
server_message (some method) (some id) msg outcome s =
    let params = member (codes "params") msg in
    record s {
      sent = wrote outcome (reply_message id (default_server_response method params)) s.sent;
      notifications = (method, or_null params) ∷ s.notifications;
    }

-- A message of the server: a response, a request, which is answered at once, or a notification.
unfoldable pub handle_incoming : Json → LspResult (Unit {0}) → LspClient → LspClient
handle_incoming msg outcome s =
    if is_response msg
    then response (i64_of (member (codes "id") msg)) msg s
    else server_message (str_of (member (codes "method") msg)) (member (codes "id") msg) msg outcome
        s

abbrev pub all_closed : BTreeMap ℕ ℕ → List (ℕ × LspResult Json) → List (ℕ × LspResult Json)
all_closed [] answers = answers
all_closed ((_, call) ∷ pending) answers = (call, bad LspError.closed) ∷ all_closed pending answers

-- `fail_pending`: the map is drained.
unfoldable pub fail_pending : LspClient → LspClient
fail_pending s = record s { pending = []; answers = all_closed s.pending s.answers }

-- The reader task of `spawn`, until the server's output ends or cannot be read; `outcome` is what
-- the write of a reply reports. Every turn takes bytes off the stream, so more fuel than the stream
-- has bytes is enough. A panic ends the task and fails no request.
unfoldable pub serve : Codec → (Json → LspResult (Unit {0})) → ℕ → Bytes → LspClient → LspClient
serve c outcome zero stream s = s
serve c outcome (suc n) stream s = elim (read_message c stream) [
  | panicked ↦ s
  | returned (bad e) ↦ fail_pending s
  | returned (good none) ↦ fail_pending s
  | returned (good (some (msg, rest))) ↦
      serve c outcome n rest (handle_incoming msg (outcome msg) s)
]
