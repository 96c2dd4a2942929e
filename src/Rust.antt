-- ===== src/Rust.antt =====
-- The operations of the Rust provider: crates/henka-lang-rust/src/operations.rs. Here what they
-- share. Parameters are the files at the moment of the request, the server's answers, how a response
-- is read from JSON, Unicode's lower case and the text of an I/O error.
pub mod Actions
pub mod Queries
pub mod Run
pub mod Opens
use henka.Common.{
  ℕ, ◌+◌, ◌-◌, ◌^◌, ◌%◌, Bool, true, false, List, [], ◌∷◌, ◌++◌, Option, none, some, ltb,
  if◌then◌else◌,
}
use henka.Text.{Text, codes}
use henka.Text.Decimal.{to_decimal}
use henka.FilePath.{FilePath}
use henka.Error.{Error, IoError, invalid_target, Result, ok, err, panic}
use henka.Json.{Json, unsigned, string, object, Fields, no_fields, field, member}
use henka.Edit.{Position, Range}
use henka.Operation.{Target, position_target, selection_target, file_target, project_target}
use henka.Server.Run.{OperationOutcome, edit_outcome, query_outcome}
use henka.Server.Ops.{as_u64}
use henka.Lsp.{LspResult, good, bad, LspError}
use henka.Lsp.Convert.{
  LspWorkspaceEdit, LspLocation, LspGotoResponse, LspHover, DocumentSymbols, LspCallHierarchyItem,
  LspSymbolInfo,
}
use henka.Lsp.Convert.Source.{Source, new}
use henka.Lsp.Session.{LspSession, content_root}

-- `OperationRequest`
pub record OperationRequest : Type 0 where
  pub target : Target
  pub params : Json

-- `serde_json::from_value` at the types of the responses.
pub record Deserialize : Type 0 where
  pub workspace_edit : Json → LspResult LspWorkspaceEdit
  pub locations : Json → LspResult (List LspLocation)
  pub goto : Json → LspResult LspGotoResponse
  pub hover : Json → LspResult LspHover
  pub document_symbols : Json → LspResult DocumentSymbols
  pub values : Json → LspResult (List Json)
  pub call_hierarchy_item : Json → LspResult LspCallHierarchyItem
  pub range : Json → LspResult Range
  pub symbols : Json → LspResult (List LspSymbolInfo)

-- What the server answers to a request with these params.
abbrev pub Ask : Type 0
Ask = LspSession → Text → Json → LspResult Json

-- What an operation returns, and the session behind it.
abbrev pub Ran : Type 0
Ran = Result OperationOutcome × LspSession

abbrev i64_text : ℕ → Text
i64_text n = if ltb n (2 ^ 63) then to_decimal n else b'-' ∷ to_decimal (2 ^ 64 - n)

-- The `Display` of an `LspError`.
unfoldable pub error_text : (IoError → Text) → LspError → Text
unfolding to_decimal
error_text io_text (LspError.spawn t) = codes "failed to start language server: " ++ t
error_text io_text (LspError.protocol t) = codes "protocol error: " ++ t
error_text io_text (LspError.response code message) =
    codes "language server error " ++ (i64_text code ++ (codes ": " ++ message))
error_text io_text LspError.closed = codes "language server connection closed"
error_text io_text (LspError.io e) = io_text e
error_text io_text (LspError.json t) = t

abbrev pub backend : (IoError → Text) → LspError → Error
backend io_text e = Error.backend (error_text io_text e)

-- `position_target` and `file_target`, and what is done with what they return.
abbrev pub at_position : OperationRequest → LspSession → (FilePath → Position → Ran) → Ran
at_position req s next = elim req.target [
  | position_target file position ↦ next file position
  | _ ↦
      (err (invalid_target (codes "this operation expects a position (file, line, character)")), s)
]

abbrev pub at_file : OperationRequest → LspSession → (FilePath → Ran) → Ran
at_file req s next = elim req.target [
  | file_target file ↦ next file
  | _ ↦ (err (invalid_target (codes "this operation expects a file")), s)
]

abbrev or_zero : Option ℕ → ℕ
or_zero none = 0
or_zero (some n) = n

-- `as usize` of a `u64` keeps it, on a machine with 64 bits.
unfoldable pub context_lines : OperationRequest → ℕ
context_lines req = or_zero (as_u64 (member (codes "context_lines") req.params))

unfoldable pub source : LspSession → OperationRequest → Source
unfolding context_lines content_root
source s req = new s.root (content_root s) (context_lines req)

abbrev pub point : Position → Json
point p = object (
    field (codes "character") (unsigned p.character)
      (field (codes "line") (unsigned p.line) no_fields))

abbrev pub text_document : Text → Json
text_document uri = object (field (codes "uri") (string uri) no_fields)

-- The params of a request at a position.
abbrev pub position_params : Text → Position → Json
position_params uri position = object (
    field (codes "position") (point position)
      (field (codes "textDocument") (text_document uri) no_fields))

abbrev pub converted {ℓ} : {A : Type ℓ} → (IoError → Text) → LspResult A → Result A
converted io_text (bad e) = err (backend io_text e)
converted io_text (good a) = ok a
