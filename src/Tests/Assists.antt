-- ===== src/Tests/Assists.antt =====
-- A request to the Rust provider: an extraction, among two code actions that the server offers.
use henka.Common.{◌≡◌, refl, List, [], ◌∷◌, some, nat_eq, list_eq, option_eq}
use henka.Text.{Text, codes}
use henka.Text.Search.{strip_prefix}
use henka.FilePath.{FilePath, root_dir, normal}
use henka.Fs.Memory.{memory, Files}
use henka.Error.{IoError}
use henka.Json.{Json, string, array, object, no_items, item, no_fields, field, get}
use henka.Operation.{selection, position_target}
use henka.Lsp.{LspResult, good, bad, LspError}
use henka.Lsp.Session.{LspSession, DocumentMessage, new}
use henka.Rust.{OperationRequest, Deserialize}
use henka.Rust.Actions.{CodeActionOp, chosen, fits, find_action, contains_text, action_items}
use henka.Rust.Actions.First.{IsChoice, chosen-IsChoice}
use henka.Rust.Run.{run, code_action}
use henka.Rust.Opens.{OnlyOpens}
use henka.Rust.Opens.Runs.{run-OnlyOpens}

abbrev extract : CodeActionOp
extract = record {
  id = codes "extract-function";
  title = codes "Extract to function";
  description = codes "Extract the selected statements into a new function";
  action_kind = codes "refactor.extract";
  title_keyword = some (codes "function");
  target = selection;
}

abbrev offer : Text → Json
offer title = object (
    field (codes "kind") (string (codes "refactor.extract"))
      (field (codes "title") (string title) no_fields))

abbrev offers : Json
offers = array (
    item (offer (codes "extract into variable"))
      (item (offer (codes "extract into function")) no_items))

same : Text → Text
same t = t

chosen_run : chosen same extract offers ≡ some (offer (codes "extract into function"))
unfolding chosen find_action fits contains_text strip_prefix get same
chosen_run = refl

chosen-IsChoice_example : IsChoice same extract (action_items offers) (chosen same extract offers)
chosen-IsChoice_example = chosen-IsChoice same extract offers

abbrev unread {ℓ} : {A : Type ℓ} → Json → LspResult A
unread v = bad (LspError.json (codes "not read"))

abbrev reads_nothing : Deserialize
reads_nothing = record {
  workspace_edit = unread;
  locations = unread;
  goto = unread;
  hover = unread;
  document_symbols = unread;
  values = unread;
  call_hierarchy_item = unread;
  range = unread;
  symbols = unread;
}

abbrev main_file : FilePath
main_file = root_dir ∷ normal (codes "base") ∷ normal (codes "main.rs") ∷ []

abbrev files : Files
files = (main_file, codes "fn main() {}") ∷ []

abbrev session : LspSession
session = new (root_dir ∷ normal (codes "base") ∷ []) ((codes "rs", codes "rust") ∷ [])

abbrev at_start : OperationRequest
at_start = record {
  target = position_target main_file (record { line = 0; character = 3 });
  params = object no_fields;
}

abbrev no_text : IoError → Text
no_text e = []

abbrev takes : List DocumentMessage → DocumentMessage → LspResult (Unit {0})
takes sent m = good tt

run-OnlyOpens_example :
    OnlyOpens session
      (run memory files takes
        (λ root wanted. main_file ∷ [])
        no_text
        same
        reads_nothing
        (λ s method params. good offers)
        (code_action extract)
        at_start
        session).1
run-OnlyOpens_example =
    run-OnlyOpens memory files takes (λ root wanted. main_file ∷ []) no_text same reads_nothing
      (λ s method params. good offers) (code_action extract) at_start session
