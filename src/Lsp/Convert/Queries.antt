-- ===== src/Lsp/Convert/Queries.antt =====
-- The results of queries for places, symbols and hovers: `locations_to_query`, `goto_to_query`,
-- `hover_to_query` and `symbols_to_query` of crates/henka-lsp/src/convert.rs. Each takes what reads
-- its response from JSON.
pub mod Symbols
use henka.Common.{
  ℕ, Bool, true, not, List, [], ◌∷◌, ◌++◌, map, Option, none, some, ltb, ◌==◌, nat_eq, list_eq,
  length, take, if◌then◌else◌,
}
use henka.Text.{Text, codes}
use henka.Text.Search.{trim}
use henka.Fs.{FileSystem}
use henka.Json.{Json, null, bool, string, object, Fields, insert}
use henka.Edit.{Range}
use henka.Lsp.{LspResult, good, bad, ◌>>=◌}
use henka.Lsp.Convert.{
  LspLocation, LspGotoTarget, LspGotoResponse, many, one, LspHoverContents, HoverParts, fenced,
  markup, plain, parts, no_parts, part, LspHover, LspSymbolInfo, symbol_kind_name, fields_of,
  range_entries, optional_entry, query_fields, query_object,
}
use henka.Lsp.Convert.Source.{Source, rel, annotated, location_entry}

-- `Option::or`
abbrev pub or_other {ℓ} : {A : Type ℓ} → Option A → Option A → Option A
or_other none other = other
or_other (some a) other = some a

abbrev fence : Text
fence = codes "```"

abbrev pub joined : List Text → Text
joined [] = []
joined (t ∷ []) = t
joined (t ∷ u ∷ ts) = t ++ (b'\n' ∷ b'\n' ∷ joined (u ∷ ts))

abbrev keep_part : Text → List Text → List Text
keep_part t ts = if trim t == [] then ts else t ∷ ts

unfoldable mutual
  pub hover_text : LspHoverContents → Text
  hover_text (markup value) = value
  hover_text (plain value) = value
  hover_text (fenced language value) = fence ++ (language ++ (b'\n' ∷ (value ++ (b'\n' ∷ fence))))
  hover_text (parts ps) = joined (hover_texts ps)

  -- The texts of the parts that are not blank.
  pub hover_texts : HoverParts → List Text
  hover_texts no_parts = []
  hover_texts (part p ps) = keep_part (hover_text p) (hover_texts ps)

abbrev with_range : Text → Option Range → Json
with_range text none = object (fields_of ((codes "text", string text) ∷ []))
with_range text (some range) =
    object (fields_of ((codes "text", string text) ∷ range_entries range))

unfoldable pub hover_to_query : (Json → LspResult LspHover) → Json → LspResult Json
unfolding hover_text
hover_to_query from_value null = good (object (fields_of ((codes "text", string []) ∷ [])))
hover_to_query from_value value =
    from_value value >>= λ hover. good (with_range (hover_text hover.contents) hover.range)

-- The URI and the range of a target; a link's selection range goes before its whole range.
abbrev pub target_uri_of : LspGotoTarget → Option Text
target_uri_of t = or_other t.uri t.target_uri

abbrev pub target_range_of : LspGotoTarget → Option Range
target_range_of t = or_other (or_other t.range t.target_selection_range) t.target_range

abbrev targets_of : LspGotoResponse → List LspGotoTarget
targets_of (many ts) = ts
targets_of (one t) = t ∷ []

abbrev matched_with :
    LspSymbolInfo → Option Range → List (LspSymbolInfo × Range) → List (LspSymbolInfo × Range)
matched_with s none rest = rest
matched_with s (some range) rest = (s, range) ∷ rest

-- The symbols that have a range.
abbrev pub matched : List LspSymbolInfo → List (LspSymbolInfo × Range)
matched [] = []
matched (s ∷ ss) = matched_with s s.range (matched ss)

module _ (fs : FileSystem) (st : fs.State) where
  abbrev usage : Source → LspLocation → Json
  usage s loc = location_entry fs st s loc.uri loc.range

  unfoldable pub locations_to_query :
      (Json → LspResult (List LspLocation)) → Source → Json → LspResult Json
  unfolding rel annotated
  locations_to_query from_value s null = good (query_object (codes "usages") [])
  locations_to_query from_value s value = from_value value >>= λ locations.
      good (query_object (codes "usages") (map (usage s) locations))

  abbrev placed : Source → Option Text → Option Range → List Json → List Json
  placed s (some uri) (some range) entries = location_entry fs st s uri range ∷ entries
  placed s _ _ entries = entries

  unfoldable pub goto_entries : Source → List LspGotoTarget → List Json
  unfolding rel annotated
  goto_entries s [] = []
  goto_entries s (t ∷ ts) = placed s (target_uri_of t) (target_range_of t) (goto_entries s ts)

  unfoldable pub goto_to_query :
      (Json → LspResult LspGotoResponse) → Source → Text → Json → LspResult Json
  unfolding goto_entries
  goto_to_query from_value s key null = good (query_object key [])
  goto_to_query from_value s key value = from_value value >>= λ response.
      good (query_object key (goto_entries s (targets_of response)))

  abbrev pub symbol_entry : Source → LspSymbolInfo × Range → Json
  symbol_entry source (s, range) = object (
      annotated fs st source s.uri range (
        optional_entry (codes "container_name") s.container_name (
          fields_of (
            (codes "name", string s.name)
            ∷ (codes "kind", string (symbol_kind_name s.kind))
            ∷ (codes "file", string (rel source s.uri))
            ∷ range_entries range))))

  abbrev pub symbols_result : Source → ℕ → List (LspSymbolInfo × Range) → Json
  symbols_result source limit found =
      let out =
        query_fields (codes "symbols") (length found)
          (map (symbol_entry source) (take limit found)) in
      object (if ltb limit (length found) then insert (codes "truncated") (bool true) out else out)

  unfoldable pub symbols_to_query :
      (Json → LspResult (List LspSymbolInfo)) → Source → ℕ → Json → LspResult Json
  unfolding rel annotated symbol_kind_name
  symbols_to_query from_value source limit null = good (query_object (codes "symbols") [])
  symbols_to_query from_value source limit value =
      from_value value >>= λ items. good (symbols_result source limit (matched items))
