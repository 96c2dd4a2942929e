-- ===== src/Rust/Opens/Runs.antt =====
-- Every operation of the Rust provider leaves the server's documents alone.
use henka.Common.{Bool, List, Option, none, some}
use henka.Text.{Text, codes}
use henka.FilePath.{FilePath}
use henka.Fs.{FileSystem}
use henka.Error.{IoError, Result, ok, err, panic}
use henka.Json.{Json, member}
use henka.Edit.{Position}
use henka.Operation.{target_file}
use henka.Server.Run.{OperationOutcome}
use henka.Lsp.{LspResult, good, bad}
use henka.Lsp.Uri.{uri_to_path}
use henka.Lsp.Session.{LspSession, DocumentMessage}
use henka.Lsp.Session.Documents.{ensure_indexed}
use henka.Rust.{OperationRequest, Deserialize, Ask, Ran, position_params}
use henka.Rust.Actions.{CodeActionOp, action_range, chosen}
use henka.Rust.Run.{
  RustOperation, rename, code_action, symbol_search, goto, describe_symbol, file_outline,
  prepare_call_hierarchy, incoming_calls, outgoing_calls, find_usages, run, run_rename,
  run_code_action, run_symbol_search, run_goto, run_describe_symbol, run_file_outline,
  run_prepare_call_hierarchy, run_incoming_calls, run_outgoing_calls, run_find_usages,
  asked_incoming, asked_outgoing, asked, renamed, resolved, picked, offered, acted, searched,
  call_query, opened_if, with_open, position_query, query_of, object_of, nonempty, str_of,
}
use henka.Rust.Opens.{
  OnlyOpens, OnlyOpens-refl, OnlyOpens-trans, ensure_open-OnlyOpens, ensure_indexed-OnlyOpens,
  behind-OnlyOpens, with_open-OnlyOpens, answered-OnlyOpens, at_position-OnlyOpens,
  at_file-OnlyOpens,
}

module _ (fs : FileSystem) (st : fs.State)
    (accepts : List DocumentMessage → DocumentMessage → LspResult (Unit {0}))
    (collect : FilePath → (FilePath → Bool) → List FilePath) (io_text : IoError → Text)
    (to_lowercase : Text → Text) (de : Deserialize) (ask : Ask) where
  asked-OnlyOpens :
      (method : Text) (params : Json) (s : LspSession) (next : Json → Result OperationOutcome)
      → OnlyOpens s (asked fs st accepts collect io_text to_lowercase de ask method params s next).1
  asked-OnlyOpens method params s next =
      answered-OnlyOpens fs st accepts collect io_text to_lowercase de ask s next
        (ask s method params)

  rename-OnlyOpens :
      (req : OperationRequest) (s : LspSession)
      → OnlyOpens s (run_rename fs st accepts collect io_text to_lowercase de ask req s).1
  unfolding run_rename
  rename-OnlyOpens req s =
      at_position-OnlyOpens fs st accepts collect io_text to_lowercase de ask req s
        (renamed fs st accepts collect io_text to_lowercase de ask req s
          (nonempty (str_of (member (codes "new_name") req.params))))
        (λ file position.
          by_name (nonempty (str_of (member (codes "new_name") req.params))) file position)
    where
      by_name :
          (name : Option Text) (file : FilePath) (position : Position)
          → OnlyOpens s
              (renamed fs st accepts collect io_text to_lowercase de ask req s name file position).1
      by_name none file position = OnlyOpens-refl s
      by_name (some name) file position =
          with_open-OnlyOpens fs st accepts collect io_text to_lowercase de ask file s
            (λ uri s'. asked fs st accepts collect io_text to_lowercase de ask _ _ s' _)
            (λ uri t. asked-OnlyOpens _ _ t _)

  resolved-OnlyOpens :
      (action : Json) (s : LspSession) (edit : Option Json)
      → OnlyOpens s (resolved fs st accepts collect io_text to_lowercase de ask action s edit).1
  resolved-OnlyOpens action s none = asked-OnlyOpens _ _ s _
  resolved-OnlyOpens action s (some edit) = OnlyOpens-refl s

  picked-OnlyOpens :
      (op : CodeActionOp) (s : LspSession) (action : Option Json)
      → OnlyOpens s (picked fs st accepts collect io_text to_lowercase de ask op s action).1
  picked-OnlyOpens op s none = OnlyOpens-refl s
  picked-OnlyOpens op s (some action) = resolved-OnlyOpens action s (member (codes "edit") action)

  offered-OnlyOpens :
      (op : CodeActionOp) (s : LspSession) (answer : LspResult Json)
      → OnlyOpens s (offered fs st accepts collect io_text to_lowercase de ask op s answer).1
  offered-OnlyOpens op s (bad e) = OnlyOpens-refl s
  offered-OnlyOpens op s (good actions) = picked-OnlyOpens op s (chosen to_lowercase op actions)

  acted-OnlyOpens :
      (op : CodeActionOp) (s : LspSession) (file : Option FilePath) (range : Result Json)
      → OnlyOpens s (acted fs st accepts collect io_text to_lowercase de ask op s file range).1
  acted-OnlyOpens op s none range = OnlyOpens-refl s
  acted-OnlyOpens op s (some file) panic = OnlyOpens-refl s
  acted-OnlyOpens op s (some file) (err e) = OnlyOpens-refl s
  acted-OnlyOpens op s (some file) (ok range) =
      with_open-OnlyOpens fs st accepts collect io_text to_lowercase de ask file s
        (λ uri s'. offered fs st accepts collect io_text to_lowercase de ask op s' (ask s' _ _))
        (λ uri t. offered-OnlyOpens op t (ask t _ _))

  searched-OnlyOpens :
      (req : OperationRequest) (s : LspSession) (query : Option Text)
      → OnlyOpens s (searched fs st accepts collect io_text to_lowercase de ask req s query).1
  searched-OnlyOpens req s none = OnlyOpens-refl s
  searched-OnlyOpens req s (some query) =
      behind-OnlyOpens fs st accepts collect io_text to_lowercase de ask s
        (ensure_indexed fs st accepts collect s)
        (λ u s'. asked fs st accepts collect io_text to_lowercase de ask _ _ s' _)
        (ensure_indexed-OnlyOpens fs st accepts collect io_text to_lowercase de ask s)
        (λ u t. asked-OnlyOpens _ _ t _)

  position_query-OnlyOpens :
      (method : Text) (convert : LspSession → Json → LspResult Json) (req : OperationRequest)
      (s : LspSession)
      → OnlyOpens s
          (position_query fs st accepts collect io_text to_lowercase de ask method convert req s).1
  position_query-OnlyOpens method convert req s =
      at_position-OnlyOpens fs st accepts collect io_text to_lowercase de ask req s
        (λ file position.
          with_open fs st accepts collect io_text to_lowercase de ask file s (λ uri s'.
            asked fs st accepts collect io_text to_lowercase de ask method
              (position_params uri position) s'
              (λ v. query_of fs st accepts collect io_text to_lowercase de ask (convert s' v))))
        (λ file position.
          with_open-OnlyOpens fs st accepts collect io_text to_lowercase de ask file s
            (λ uri s'.
              asked fs st accepts collect io_text to_lowercase de ask method
                (position_params uri position) s'
                (λ v. query_of fs st accepts collect io_text to_lowercase de ask (convert s' v)))
            (λ uri t. asked-OnlyOpens _ _ t _))

  file_outline-OnlyOpens :
      (req : OperationRequest) (s : LspSession)
      → OnlyOpens s (run_file_outline fs st accepts collect io_text to_lowercase de ask req s).1
  unfolding run_file_outline
  file_outline-OnlyOpens req s =
      at_file-OnlyOpens fs st accepts collect io_text to_lowercase de ask req s
        (λ file.
          with_open fs st accepts collect io_text to_lowercase de ask file s
            (λ uri s'. asked fs st accepts collect io_text to_lowercase de ask _ _ s' _))
        (λ file.
          with_open-OnlyOpens fs st accepts collect io_text to_lowercase de ask file s
            (λ uri s'. asked fs st accepts collect io_text to_lowercase de ask _ _ s' _)
            (λ uri t. asked-OnlyOpens _ _ t _))

  find_usages-OnlyOpens :
      (req : OperationRequest) (s : LspSession)
      → OnlyOpens s (run_find_usages fs st accepts collect io_text to_lowercase de ask req s).1
  unfolding run_find_usages
  find_usages-OnlyOpens req s =
      at_position-OnlyOpens fs st accepts collect io_text to_lowercase de ask req s
        (λ file position.
          with_open fs st accepts collect io_text to_lowercase de ask file s
            (λ uri s'. asked fs st accepts collect io_text to_lowercase de ask _ _ s' _))
        (λ file position.
          with_open-OnlyOpens fs st accepts collect io_text to_lowercase de ask file s
            (λ uri s'. asked fs st accepts collect io_text to_lowercase de ask _ _ s' _)
            (λ uri t. asked-OnlyOpens _ _ t _))

  opened_if-OnlyOpens :
      (uri : Option Text) (s : LspSession)
      → OnlyOpens s (opened_if fs st accepts collect io_text to_lowercase de ask uri s)
  opened_if-OnlyOpens none s = OnlyOpens-refl s
  opened_if-OnlyOpens (some uri) s =
      ensure_open-OnlyOpens fs st accepts collect io_text to_lowercase de ask (uri_to_path uri) s

  call_query-OnlyOpens :
      (then_do : Json → LspSession → Ran) (raw : Option Json) (s : LspSession)
      → ((v : Json) (t : LspSession) → OnlyOpens t (then_do v t).1)
      → OnlyOpens s (call_query fs st accepts collect io_text to_lowercase de ask then_do raw s).1
  call_query-OnlyOpens then_do none s k = OnlyOpens-refl s
  call_query-OnlyOpens then_do (some raw) s k =
      behind-OnlyOpens fs st accepts collect io_text to_lowercase de ask s
        (ensure_indexed fs st accepts collect s)
        (λ u s'. then_do raw (
          opened_if fs st accepts collect io_text to_lowercase de ask
            (str_of (member (codes "uri") raw)) s'))
        (ensure_indexed-OnlyOpens fs st accepts collect io_text to_lowercase de ask s)
        (λ u t. OnlyOpens-trans (opened_if-OnlyOpens (str_of (member (codes "uri") raw)) t) (
          k raw (
            opened_if fs st accepts collect io_text to_lowercase de ask
              (str_of (member (codes "uri") raw)) t)))

  -- Whatever comes of it, an operation of the Rust provider tells the server of documents that it
  -- opens, and of nothing else: no document is changed or closed. The overlay stays the one that it
  -- was: its changed and its opened documents, its root, and whether it is dirty.
  pub run-OnlyOpens :
      (op : RustOperation) (req : OperationRequest) (s : LspSession)
      → OnlyOpens s (run fs st accepts collect io_text to_lowercase de ask op req s).1
  unfolding run run_code_action run_symbol_search run_goto run_describe_symbol
      run_prepare_call_hierarchy run_incoming_calls run_outgoing_calls
  run-OnlyOpens rename req s = rename-OnlyOpens req s
  run-OnlyOpens (code_action op) req s =
      acted-OnlyOpens op s (target_file req.target) (action_range req.target)
  run-OnlyOpens symbol_search req s =
      searched-OnlyOpens req s (str_of (member (codes "query") req.params))
  run-OnlyOpens (goto op) req s = position_query-OnlyOpens op.method _ req s
  run-OnlyOpens describe_symbol req s =
      position_query-OnlyOpens (codes "textDocument/hover") _ req s
  run-OnlyOpens file_outline req s = file_outline-OnlyOpens req s
  run-OnlyOpens prepare_call_hierarchy req s =
      position_query-OnlyOpens (codes "textDocument/prepareCallHierarchy") _ req s
  run-OnlyOpens incoming_calls req s =
      call_query-OnlyOpens (asked_incoming fs st accepts collect io_text to_lowercase de ask req)
        (object_of (member (codes "item") req.params)) s (λ v t. asked-OnlyOpens _ _ t _)
  run-OnlyOpens outgoing_calls req s =
      call_query-OnlyOpens (asked_outgoing fs st accepts collect io_text to_lowercase de ask req)
        (object_of (member (codes "item") req.params)) s (λ v t. asked-OnlyOpens _ _ t _)
  run-OnlyOpens find_usages req s = find_usages-OnlyOpens req s
