-- ===== src/Rust/Run.antt =====
-- The `run` of each operation of crates/henka-lang-rust/src/operations.rs.
use henka.Common.{
  ℕ, Bool, true, List, [], ◌++◌, Option, none, some, ◌==◌, nat_eq, list_eq, if◌then◌else◌,
}
use henka.Text.{Text, codes}
use henka.FilePath.{FilePath}
use henka.Fs.{FileSystem}
use henka.Error.{IoError, invalid_target, operation_not_available, Result, ok, err, panic}
use henka.Json.{
  Json, null, bool, string, array, object, no_items, item, no_fields, field, member, as_str,
}
use henka.Edit.{Position}
use henka.Operation.{target_file}
use henka.Server.Run.{OperationOutcome, edit_outcome, query_outcome}
use henka.Server.Ops.{as_u64}
use henka.Lsp.{LspResult, good, bad, ◌>>=◌}
use henka.Lsp.Uri.{uri_to_path}
use henka.Lsp.Convert.Edits.{to_core_workspace_edit}
use henka.Lsp.Convert.Queries.{locations_to_query, goto_to_query, hover_to_query, symbols_to_query}
use henka.Lsp.Convert.Outline.{document_symbols_to_query}
use henka.Lsp.Convert.Calls.{
  call_hierarchy_items_to_query, incoming_calls_to_query, outgoing_calls_to_query,
}
use henka.Lsp.Session.{LspSession, DocumentMessage}
use henka.Lsp.Session.Documents.{Outcome, session_of, ensure_open, ensure_indexed}
use henka.Rust.{
  OperationRequest, Deserialize, Ask, Ran, backend, at_position, at_file, source, point,
  text_document, position_params, converted,
}
use henka.Rust.Actions.{CodeActionOp, action_range, chosen}
use henka.Rust.Queries.{GotoQueryOp}

pub data RustOperation : Type 0 where
  rename : RustOperation
  code_action : CodeActionOp → RustOperation
  symbol_search : RustOperation
  goto : GotoQueryOp → RustOperation
  describe_symbol file_outline prepare_call_hierarchy : RustOperation
  incoming_calls outgoing_calls find_usages : RustOperation

abbrev pub str_of : Option Json → Option Text
str_of none = none
str_of (some v) = as_str v

abbrev pub nonempty : Option Text → Option Text
nonempty none = none
nonempty (some t) = if t == [] then none else some t

abbrev bool_or : Bool → Option Json → Bool
bool_or otherwise (some (bool b)) = b
bool_or otherwise _ = otherwise

abbrev number_or : ℕ → Option ℕ → ℕ
number_or otherwise none = otherwise
number_or otherwise (some n) = n

-- `call_hierarchy_item`
abbrev pub object_of : Option Json → Option Json
object_of (some (object m)) = some (object m)
object_of _ = none

-- `DEFAULT_SYMBOL_SEARCH_LIMIT`
abbrev pub default_symbol_search_limit : ℕ
default_symbol_search_limit = 200

module _ (fs : FileSystem) (st : fs.State)
    (accepts : List DocumentMessage → DocumentMessage → LspResult (Unit {0}))
    (collect : FilePath → (FilePath → Bool) → List FilePath) (io_text : IoError → Text)
    (to_lowercase : Text → Text) (de : Deserialize) (ask : Ask) where
  abbrev pub behind {ℓ} : {A : Type ℓ} → Outcome A → (A → LspSession → Ran) → Ran
  behind (bad e, s) next = (err (backend io_text e), s)
  behind (good a, s) next = next a s

  -- The index is warm, and the file is open.
  abbrev pub with_open : FilePath → LspSession → (Text → LspSession → Ran) → Ran
  with_open file s next =
      behind (ensure_indexed fs st accepts collect s)
        (λ u s'. behind (ensure_open fs st accepts file s') next)

  abbrev pub answered : LspSession → (Json → Result OperationOutcome) → LspResult Json → Ran
  answered s next (bad e) = (err (backend io_text e), s)
  answered s next (good answer) = (next answer, s)

  -- A request to the server, and what becomes of its answer.
  abbrev pub asked : Text → Json → LspSession → (Json → Result OperationOutcome) → Ran
  asked method params s next = answered s next (ask s method params)

  abbrev pub edit_of : Json → Result OperationOutcome
  edit_of value =
      converted io_text
        (to_core_workspace_edit de.workspace_edit value >>= λ e. good (edit_outcome e))

  abbrev pub query_of : LspResult Json → Result OperationOutcome
  query_of out = converted io_text (out >>= λ v. good (query_outcome v))

  abbrev pub renamed : OperationRequest → LspSession → Option Text → FilePath → Position → Ran
  renamed req s none file position = (err (invalid_target (codes "`new_name` is required")), s)
  renamed req s (some new_name) file position = with_open file s (λ uri s'.
      asked (codes "textDocument/rename")
        (object (
          field (codes "newName") (string new_name) (
            field (codes "position") (point position)
              (field (codes "textDocument") (text_document uri) no_fields))))
        s' edit_of)

  unfoldable pub run_rename : OperationRequest → LspSession → Ran
  run_rename req s =
      at_position req s (renamed req s (nonempty (str_of (member (codes "new_name") req.params))))

  abbrev pub or_null : Option Json → Json
  or_null none = null
  or_null (some v) = v

  abbrev pub resolved : Json → LspSession → Option Json → Ran
  resolved action s (some edit) = (edit_of edit, s)
  resolved action s none =
      asked (codes "codeAction/resolve") action s (λ a. edit_of (or_null (member (codes "edit") a)))

  abbrev pub picked : CodeActionOp → LspSession → Option Json → Ran
  picked op s none =
      (err (operation_not_available (op.id ++ codes " is not available at this location")), s)
  picked op s (some action) = resolved action s (member (codes "edit") action)

  abbrev pub offered : CodeActionOp → LspSession → LspResult Json → Ran
  offered op s (bad e) = (err (backend io_text e), s)
  offered op s (good actions) = picked op s (chosen to_lowercase op actions)

  abbrev pub acted : CodeActionOp → LspSession → Option FilePath → Result Json → Ran
  acted op s none range = (err (invalid_target (codes "a file is required")), s)
  acted op s (some file) panic = (panic, s)
  acted op s (some file) (err e) = (err e, s)
  acted op s (some file) (ok range) = with_open file s (λ uri s'. offered op s' (
      ask s' (codes "textDocument/codeAction") (
        object (
          field (codes "context")
            (object (
              field (codes "diagnostics") (array no_items)
                (field (codes "only") (array (item (string op.action_kind) no_items)) no_fields)))
            (field (codes "range") range
              (field (codes "textDocument") (text_document uri) no_fields))))))

  unfoldable pub run_code_action : CodeActionOp → OperationRequest → LspSession → Ran
  unfolding action_range chosen
  run_code_action op req s = acted op s (target_file req.target) (action_range req.target)

  -- `LspSession::symbol_search`
  abbrev pub searched : OperationRequest → LspSession → Option Text → Ran
  searched req s none = (err (invalid_target (codes "`query` is required")), s)
  searched req s (some query) =
      let limit =
        number_or default_symbol_search_limit (as_u64 (member (codes "limit") req.params)) in
      behind (ensure_indexed fs st accepts collect s) (λ u s'.
        asked (codes "workspace/symbol") (object (field (codes "query") (string query) no_fields))
          s' (λ v. query_of (symbols_to_query fs st de.symbols (source s' req) limit v)))

  unfoldable pub run_symbol_search : OperationRequest → LspSession → Ran
  unfolding source
  run_symbol_search req s = searched req s (str_of (member (codes "query") req.params))

  -- A query of a position.
  abbrev pub position_query :
      Text → (LspSession → Json → LspResult Json) → OperationRequest → LspSession → Ran
  position_query method convert req s = at_position req s (λ file position.
      with_open file s
        (λ uri s'. asked method (position_params uri position) s' (λ v. query_of (convert s' v))))

  unfoldable pub run_goto : GotoQueryOp → OperationRequest → LspSession → Ran
  unfolding source
  run_goto op req s =
      position_query op.method (λ s' v. goto_to_query fs st de.goto (source s' req) op.result_key v)
        req s

  unfoldable pub run_describe_symbol : OperationRequest → LspSession → Ran
  run_describe_symbol req s =
      position_query (codes "textDocument/hover") (λ s' v. hover_to_query de.hover v) req s

  unfoldable pub run_file_outline : OperationRequest → LspSession → Ran
  unfolding source
  run_file_outline req s = at_file req s (λ file. with_open file s (λ uri s'.
      asked (codes "textDocument/documentSymbol")
        (object (field (codes "textDocument") (text_document uri) no_fields)) s'
        (λ v.
          query_of (document_symbols_to_query fs st de.document_symbols (source s' req) uri v))))

  unfoldable pub run_prepare_call_hierarchy : OperationRequest → LspSession → Ran
  unfolding source
  run_prepare_call_hierarchy req s =
      position_query (codes "textDocument/prepareCallHierarchy")
        (λ s' v.
          call_hierarchy_items_to_query fs st de.values de.call_hierarchy_item (source s' req) v)
        req s

  -- `prepare_for_call_query`: a file that cannot be opened is not opened.
  abbrev pub opened_if : Option Text → LspSession → LspSession
  opened_if none s = s
  opened_if (some uri) s = session_of (ensure_open fs st accepts (uri_to_path uri) s)

  abbrev pub call_query : (Json → LspSession → Ran) → Option Json → LspSession → Ran
  call_query next none s = (
    err (
        invalid_target (
          codes
            "`item` is required: run prepare-call-hierarchy first and pass one of its `item` values back unchanged")),
    s,
  )
  call_query next (some raw) s =
      behind (ensure_indexed fs st accepts collect s)
        (λ u s'. next raw (opened_if (str_of (member (codes "uri") raw)) s'))

  abbrev item_params : Json → Json
  item_params raw = object (field (codes "item") raw no_fields)

  abbrev pub asked_incoming : OperationRequest → Json → LspSession → Ran
  asked_incoming req raw s = asked (codes "callHierarchy/incomingCalls") (item_params raw) s (λ v.
      query_of
        (incoming_calls_to_query fs st de.values de.call_hierarchy_item de.range (source s req) v))

  unfoldable pub run_incoming_calls : OperationRequest → LspSession → Ran
  unfolding source
  run_incoming_calls req s =
      call_query (asked_incoming req) (object_of (member (codes "item") req.params)) s

  abbrev or_empty : Option Text → Text
  or_empty none = []
  or_empty (some t) = t

  -- Outgoing call sites stand in the item's own file.
  abbrev pub asked_outgoing : OperationRequest → Json → LspSession → Ran
  asked_outgoing req raw s = asked (codes "callHierarchy/outgoingCalls") (item_params raw) s (λ v.
      query_of (
        outgoing_calls_to_query fs st de.values de.call_hierarchy_item de.range (source s req)
          (or_empty (str_of (member (codes "uri") raw))) v))

  unfoldable pub run_outgoing_calls : OperationRequest → LspSession → Ran
  unfolding source
  run_outgoing_calls req s =
      call_query (asked_outgoing req) (object_of (member (codes "item") req.params)) s

  unfoldable pub run_find_usages : OperationRequest → LspSession → Ran
  unfolding source
  run_find_usages req s = at_position req s (λ file position. with_open file s (λ uri s'.
      asked (codes "textDocument/references")
        (object (
          field (codes "context")
            (object (
              field (codes "includeDeclaration")
                (bool (bool_or true (member (codes "include_declaration") req.params))) no_fields))
            (field (codes "position") (point position)
              (field (codes "textDocument") (text_document uri) no_fields))))
        s' (λ v. query_of (locations_to_query fs st de.locations (source s' req) v))))

  unfoldable pub run : RustOperation → OperationRequest → LspSession → Ran
  run rename req s = run_rename req s
  run (code_action op) req s = run_code_action op req s
  run symbol_search req s = run_symbol_search req s
  run (goto op) req s = run_goto op req s
  run describe_symbol req s = run_describe_symbol req s
  run file_outline req s = run_file_outline req s
  run prepare_call_hierarchy req s = run_prepare_call_hierarchy req s
  run incoming_calls req s = run_incoming_calls req s
  run outgoing_calls req s = run_outgoing_calls req s
  run find_usages req s = run_find_usages req s
