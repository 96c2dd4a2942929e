-- ===== src/Lsp/Convert/Outline.antt =====
-- The outline of a file: `document_symbols_to_query` and `outline_entry` of
-- crates/henka-lsp/src/convert.rs.
use henka.Common.{ℕ, List, [], ◌∷◌, ◌++◌, Option, none, some}
use henka.Text.{Text, codes}
use henka.Fs.{FileSystem}
use henka.Json.{Json, null, unsigned, string, array, object, insert}
use henka.Edit.{Range}
use henka.Lsp.{LspResult, good, ◌>>=◌}
use henka.Lsp.Convert.{
  LspLocation, LspDocumentSymbol, DocumentSymbols, document_symbol, no_symbols, symbol,
  symbol_kind_name, fields_of, items_of, range_entries, optional_entry, query_object,
}
use henka.Lsp.Convert.Source.{Source, annotated}
use henka.Lsp.Convert.Queries.{or_other}

abbrev location_range : Option LspLocation → Option Range
location_range none = none
location_range (some location) = some location.range

abbrev range_or : Option Range → Range → Range
range_or none full = full
range_or (some range) full = range

abbrev pub if_some {ℓ} : {A : Type ℓ} → Option A → List A → List A
if_some none rest = rest
if_some (some a) rest = a ∷ rest

module _ (fs : FileSystem) (st : fs.State) where
  -- An entry without its children, which have been worked out.
  abbrev outlined :
      Source
      → Text
      → Text
      → ℕ
      → Option Text
      → Option Range
      → Option Text
      → List Json
      → Option Range
      → Option Json
  outlined s uri name kind detail selection container children none = none
  outlined s uri name kind detail selection container children (some full) =
      let name_range = range_or selection full in
      let entry = optional_entry (codes "container_name") container (
        optional_entry (codes "detail") detail (
          fields_of (
            (codes "name", string name)
            ∷ (codes "kind", string (symbol_kind_name kind))
            ∷ (range_entries name_range
                ++ ((codes "body_start_line", unsigned full.start.line)
                    ∷ (codes "body_end_line", unsigned full.end.line)
                    ∷ []))))) in
      some (
        object (
          insert (codes "children") (array (items_of children))
            (annotated fs st s uri name_range entry)))

  unfoldable mutual
    pub outline_entry : Source → Text → LspDocumentSymbol → Option Json
    outline_entry s uri
          (document_symbol name kind detail range selection location container children) =
        outlined s uri name kind detail selection container (outline_entries s uri children)
          (or_other range (location_range location))

    pub outline_entries : Source → Text → DocumentSymbols → List Json
    outline_entries s uri no_symbols = []
    outline_entries s uri (symbol item items) =
        if_some (outline_entry s uri item) (outline_entries s uri items)

  unfoldable pub document_symbols_to_query :
      (Json → LspResult DocumentSymbols) → Source → Text → Json → LspResult Json
  unfolding outline_entries
  document_symbols_to_query from_value s uri null = good (query_object (codes "symbols") [])
  document_symbols_to_query from_value s uri value = from_value value >>= λ items.
      good (query_object (codes "symbols") (outline_entries s uri items))
