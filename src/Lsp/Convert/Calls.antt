-- ===== src/Lsp/Convert/Calls.antt =====
-- Call hierarchies: `call_item`, `calls_to_query`, `call_sites` and `call_hierarchy_item_route` of
-- crates/henka-lsp/src/convert.rs.
use henka.Common.{List, [], ◌∷◌, ◌++◌, Option, none, some}
use henka.Text.{Text, codes}
use henka.Fs.{FileSystem}
use henka.Json.{Json, null, unsigned, string, array, object, Items, no_items, item, member, as_str}
use henka.Edit.{Range}
use henka.Language.{Language, from_path}
use henka.Operation.{LanguageRoute, unspecified, routed, unplaceable}
use henka.Lsp.{LspResult, good, bad, ◌>>=◌}
use henka.Lsp.Uri.{uri_to_path, uri_path}
use henka.Lsp.Convert.{
  LspCallHierarchyItem, symbol_kind_name, fields_of, items_of, range_entries, optional_entry,
  query_object,
}
use henka.Lsp.Convert.Source.{Source, rel, annotated, location_entry}
use henka.Lsp.Convert.Queries.{or_other}
use henka.Lsp.Convert.Outline.{if_some}

abbrev member_of : Text → Option Json → Option Json
member_of k none = none
member_of k (some v) = member k v

abbrev str_of : Option Json → Option Text
str_of none = none
str_of (some v) = as_str v

abbrev or_empty : Option Text → Text
or_empty none = []
or_empty (some t) = t

module _ (fs : FileSystem) (st : fs.State) where
  abbrev call_entry : Source → Json → LspResult LspCallHierarchyItem → Option Json
  call_entry s raw (bad e) = none
  call_entry s raw (good parsed) = some (
      object (
        annotated fs st s parsed.uri parsed.selection_range (
          optional_entry (codes "detail") parsed.detail (
            fields_of (
              (codes "name", string parsed.name)
              ∷ (codes "kind", string (symbol_kind_name parsed.kind))
              ∷ (codes "file", string (rel s parsed.uri))
              ∷ (range_entries parsed.selection_range
                  ++ ((codes "body_start_line", unsigned parsed.range.start.line)
                      ∷ (codes "body_end_line", unsigned parsed.range.end.line)
                      ∷ (codes "item", raw)
                      ∷ [])))))))

  -- `item_of` reads a `CallHierarchyItem`, and `range_of` a range.
  unfoldable pub call_item : (Json → LspResult LspCallHierarchyItem) → Source → Json → Option Json
  unfolding rel annotated symbol_kind_name
  call_item item_of s raw = call_entry s raw (item_of raw)

  unfoldable pub call_items :
      (Json → LspResult LspCallHierarchyItem) → Source → List Json → List Json
  unfolding call_item
  call_items item_of s [] = []
  call_items item_of s (raw ∷ raws) = if_some (call_item item_of s raw) (call_items item_of s raws)

  -- `values_of` reads a list of values.
  unfoldable pub call_hierarchy_items_to_query :
      (Json → LspResult (List Json))
      → (Json → LspResult LspCallHierarchyItem)
      → Source
      → Json
      → LspResult Json
  unfolding call_items
  call_hierarchy_items_to_query values_of item_of s null = good (query_object (codes "items") [])
  call_hierarchy_items_to_query values_of item_of s value =
      values_of value >>= λ raw. good (query_object (codes "items") (call_items item_of s raw))

  abbrev site : Source → Text → LspResult Range → List Json → List Json
  site s uri (bad e) sites = sites
  site s uri (good range) sites = location_entry fs st s uri range ∷ sites

  unfoldable pub call_sites : (Json → LspResult Range) → Source → Text → Items → List Json
  unfolding rel annotated
  call_sites range_of s uri no_items = []
  call_sites range_of s uri (item r ranges) =
      site s uri (range_of r) (call_sites range_of s uri ranges)

  abbrev sites_of : (Json → LspResult Range) → Source → Text → Option Json → List Json
  sites_of range_of s uri (some (array ranges)) = call_sites range_of s uri ranges
  sites_of range_of s uri _ = []

  abbrev call_of :
      (Json → LspResult Range)
      → Source
      → Text
      → Option Text
      → Json
      → Option Json
      → List Json
      → List Json
  call_of range_of s direction sites_in entry none calls = calls
  call_of range_of s direction sites_in entry (some other) calls =
      let own = str_of (member_of (codes "uri") (member direction entry)) in
      let sites =
        sites_of range_of s (or_empty (or_other sites_in own))
          (member (codes "fromRanges") entry) in
      object (fields_of ((direction, other) ∷ (codes "ranges", array (items_of sites)) ∷ []))
      ∷ calls

  abbrev other_end : (Json → LspResult LspCallHierarchyItem) → Source → Option Json → Option Json
  other_end item_of s none = none
  other_end item_of s (some raw) = call_item item_of s raw

  -- The loop of `calls_to_query`.
  unfoldable pub calls_of :
      (Json → LspResult LspCallHierarchyItem)
      → (Json → LspResult Range)
      → Source
      → Text
      → Option Text
      → List Json
      → List Json
  unfolding call_item call_sites
  calls_of item_of range_of s direction sites_in [] = []
  calls_of item_of range_of s direction sites_in (entry ∷ entries) =
      call_of range_of s direction sites_in entry (other_end item_of s (member direction entry))
        (calls_of item_of range_of s direction sites_in entries)

  unfoldable pub calls_to_query :
      (Json → LspResult (List Json))
      → (Json → LspResult LspCallHierarchyItem)
      → (Json → LspResult Range)
      → Source
      → Text
      → Option Text
      → Json
      → LspResult Json
  unfolding calls_of
  calls_to_query values_of item_of range_of s direction sites_in null =
      good (query_object (codes "calls") [])
  calls_to_query values_of item_of range_of s direction sites_in value = values_of value >>= λ raw.
      good (query_object (codes "calls") (calls_of item_of range_of s direction sites_in raw))

  abbrev pub incoming_calls_to_query :
      (Json → LspResult (List Json))
      → (Json → LspResult LspCallHierarchyItem)
      → (Json → LspResult Range)
      → Source
      → Json
      → LspResult Json
  incoming_calls_to_query values_of item_of range_of s value =
      calls_to_query values_of item_of range_of s (codes "from") none value

  abbrev pub outgoing_calls_to_query :
      (Json → LspResult (List Json))
      → (Json → LspResult LspCallHierarchyItem)
      → (Json → LspResult Range)
      → Source
      → Text
      → Json
      → LspResult Json
  outgoing_calls_to_query values_of item_of range_of s called_from value =
      calls_to_query values_of item_of range_of s (codes "to") (some called_from) value

abbrev language_route : Text → Option Language → LanguageRoute
language_route uri none = unplaceable uri
language_route uri (some language) = routed language

abbrev uri_route : Option Text → LanguageRoute
uri_route none = unspecified
uri_route (some uri) = language_route uri (from_path (uri_to_path (uri_path uri)))

unfoldable pub call_hierarchy_item_route : Json → LanguageRoute
unfolding from_path uri_to_path uri_path
call_hierarchy_item_route params =
    uri_route (str_of (member_of (codes "uri") (member (codes "item") params)))
