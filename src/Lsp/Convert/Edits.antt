-- ===== src/Lsp/Convert/Edits.antt =====
-- `to_core_workspace_edit` and `resource_op` of crates/henka-lsp/src/convert.rs.
pub mod Collected
use henka.Common.{
  ℕ, Bool, List, [], ◌∷◌, ◌++◌, Option, none, some, ◌==◌, nat_eq, list_eq, if◌then◌else◌,
}
use henka.Common.BTreeMap.{BTreeMap, lookup, insert}
use henka.Text.{Text, codes}
use henka.Text.Search.{text_ord}
use henka.FilePath.{FilePath}
use henka.Json.{Json, null}
use henka.Edit.{
  TextEdit, FileEdit, FileOperation, create, rename, delete, WorkspaceEdit, empty_edit, utf16,
}
use henka.Lsp.{LspResult, good, bad, ◌>>=◌}
use henka.Lsp.Uri.{uri_to_path}
use henka.Lsp.Convert.{LspDocumentChange, document_edits, resource, LspWorkspaceEdit}

abbrev path_of : Option Text → (FilePath → FileOperation) → Option FileOperation
path_of none make = none
path_of (some uri) make = some (make (uri_to_path uri))

abbrev renamed : Option Text → Option Text → Option FileOperation
renamed (some old) (some new) = some (rename (uri_to_path old) (uri_to_path new))
renamed _ _ = none

unfoldable pub resource_op : Text → Option Text → Option Text → Option Text → Option FileOperation
resource_op kind uri old_uri new_uri =
    if kind == codes "create"
    then path_of uri create
    else (if kind == codes "delete"
        then path_of uri delete
        else (if kind == codes "rename" then renamed old_uri new_uri else none))

abbrev pub or_default : Option (List TextEdit) → List TextEdit
or_default none = []
or_default (some edits) = edits

-- `by_uri.entry(uri).or_default().extend(edits)`
abbrev pub extended :
    Text → List TextEdit → BTreeMap Text (List TextEdit) → BTreeMap Text (List TextEdit)
extended uri edits by_uri = insert uri (or_default (lookup uri by_uri) ++ edits) by_uri

unfoldable pub add_changes :
    List (Text × List TextEdit) → BTreeMap Text (List TextEdit) → BTreeMap Text (List TextEdit)
unfolding lookup insert
add_changes [] by_uri = by_uri
add_changes ((uri, edits) ∷ changes) by_uri = add_changes changes (extended uri edits by_uri)

unfoldable pub add_document_changes :
    List LspDocumentChange → BTreeMap Text (List TextEdit) → BTreeMap Text (List TextEdit)
unfolding lookup insert
add_document_changes [] by_uri = by_uri
add_document_changes (document_edits uri edits ∷ changes) by_uri =
    add_document_changes changes (extended uri edits by_uri)
add_document_changes (resource _ _ _ _ ∷ changes) by_uri = add_document_changes changes by_uri

abbrev pushed : Option FileOperation → List FileOperation → List FileOperation
pushed none ops = ops
pushed (some op) ops = op ∷ ops

unfoldable pub file_ops_of : List LspDocumentChange → List FileOperation
unfolding resource_op
file_ops_of [] = []
file_ops_of (document_edits _ _ ∷ changes) = file_ops_of changes
file_ops_of (resource kind uri old_uri new_uri ∷ changes) =
    pushed (resource_op kind uri old_uri new_uri) (file_ops_of changes)

abbrev pub or_no_list {ℓ} : {A : Type ℓ} → Option (List A) → List A
or_no_list none = []
or_no_list (some xs) = xs

-- The map once both loops are through.
unfoldable pub by_uri_of : LspWorkspaceEdit → BTreeMap Text (List TextEdit)
unfolding add_changes add_document_changes
by_uri_of edit =
    add_document_changes (or_no_list edit.document_changes)
      (add_changes (or_no_list edit.changes) [])

unfoldable pub files_of : BTreeMap Text (List TextEdit) → List FileEdit
unfolding uri_to_path
files_of [] = []
files_of ((uri, edits) ∷ by_uri) =
    record { path = uri_to_path uri; edits = edits } ∷ files_of by_uri

unfoldable pub core_edit_of : LspWorkspaceEdit → WorkspaceEdit
unfolding by_uri_of files_of file_ops_of
core_edit_of edit = record {
  encoding = utf16;
  files = files_of (by_uri_of edit);
  file_ops = file_ops_of (or_no_list edit.document_changes);
}

-- `from_value` reads an `LspWorkspaceEdit` of a JSON value.
unfoldable pub to_core_workspace_edit :
    (Json → LspResult LspWorkspaceEdit) → Json → LspResult WorkspaceEdit
unfolding core_edit_of
to_core_workspace_edit from_value null = good empty_edit
to_core_workspace_edit from_value value = from_value value >>= λ edit. good (core_edit_of edit)
