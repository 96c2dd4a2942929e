-- ===== src/Tests/Responses.antt =====
-- A server's responses: edits of two documents, and the lines beside a location.
use henka.Common.{
  ℕ, ◌≡◌, refl, List, [], ◌∷◌, ◌++◌, none, some, arith, nat_eq, list_eq, if◌then◌else◌, ◌||◌,
}
use henka.Common.BTreeMap.{lookup}
use henka.Text.{Text, codes}
use henka.FilePath.{root_dir, normal, component_eq}
use henka.Fs.Memory.{memory, Files}
use henka.Json.{Json, no_items, array, no_fields}
use henka.Edit.{Range, TextEdit}
use henka.Lsp.{LspResult, good}
use henka.Lsp.Convert.{LspWorkspaceEdit, document_edits, LspSymbolInfo}
use henka.Lsp.Convert.Edits.{by_uri_of, or_no_list}
use henka.Lsp.Convert.Edits.Collected.{has_uri, names_uri, changed_in, edited_in, lookup-by_uri_of}
use henka.Lsp.Convert.Source.{Source, new, content, content_of, read_from}
use henka.Lsp.Convert.Source.Cache.{IsFresh, content-IsFresh}
use henka.Lsp.Convert.Source.Quoted.{Quoted, annotate_lines-Quoted}
use henka.Lsp.Convert.Queries.{symbols_to_query}
use henka.Lsp.Convert.Queries.Symbols.{Listed, symbols_to_query-Listed}

abbrev at : ℕ → ℕ → Range
at first last = record {
  start = record { line = first; character = 0 };
  end = record { line = last; character = 3 };
}

abbrev to_new : Text → TextEdit
to_new t = record { range = at 0 0; new_text = t }

abbrev main_uri : Text
main_uri = codes "file:///base/main.rs"

abbrev response : LspWorkspaceEdit
response = record {
  changes = some ((main_uri, to_new (codes "one") ∷ []) ∷ []);
  document_changes = some (
      document_edits (codes "file:///base/lib.rs") (to_new (codes "two") ∷ [])
      ∷ document_edits main_uri (to_new (codes "three") ∷ [])
      ∷ []);
}

lookup-by_uri_of_example : lookup main_uri (by_uri_of response) ≡ (
    if has_uri main_uri (or_no_list response.changes)
      || names_uri main_uri (or_no_list response.document_changes)
    then some (
        changed_in main_uri (or_no_list response.changes)
        ++ edited_in main_uri (or_no_list response.document_changes))
    else none)
lookup-by_uri_of_example = lookup-by_uri_of response main_uri

abbrev three_lines : List Text
three_lines = codes "fn main() {" ∷ codes "    run();" ∷ codes "}" ∷ []

abbrev wide : Source
wide = new (root_dir ∷ normal (codes "base") ∷ []) (root_dir ∷ normal (codes "base") ∷ []) 20

annotate_lines-Quoted_example : Quoted wide three_lines (at 1 7) no_fields (codes "context")
annotate_lines-Quoted_example =
    annotate_lines-Quoted wide three_lines (at 1 7) no_fields (codes "context") (omega arith)

abbrev files : Files
files =
    (root_dir ∷ normal (codes "base") ∷ normal (codes "main.rs") ∷ [], codes "fn main() {}") ∷ []

content-IsFresh_example :
    ((content memory files wide main_uri []).0 ≡ content_of memory files (read_from wide main_uri))
    × IsFresh memory files (content memory files wide main_uri []).1
content-IsFresh_example = content-IsFresh memory files wide main_uri [] tt

abbrev infos : List LspSymbolInfo
infos =
    record {
      name = codes "main";
      kind = 12;
      uri = main_uri;
      range = some (at 0 0);
      container_name = none;
    }
    ∷ record {
      name = codes "run";
      kind = 12;
      uri = main_uri;
      range = some (at 1 1);
      container_name = none;
    }
    ∷ record {
      name = codes "later";
      kind = 12;
      uri = main_uri;
      range = none;
      container_name = none;
    }
    ∷ []

abbrev found_two : Json → LspResult (List LspSymbolInfo)
found_two value = good infos

symbols_to_query-Listed_example :
    (result : Json) × (symbols_to_query memory files found_two wide 1 (array no_items)
      ≡ good result)
    × Listed 2 1 result
symbols_to_query-Listed_example =
    symbols_to_query-Listed memory files found_two wide 1 no_items infos refl
