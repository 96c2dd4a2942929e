-- ===== src/Lsp/Convert.antt =====
-- The server's responses in the core's terms: crates/henka-lsp/src/convert.rs. Here its data types;
-- reading them from JSON is `Deserialize`'s code, and a parameter. An `LspPosition` is a
-- `Position`, an `LspRange` a `Range` and an `LspTextEdit` a `TextEdit`, which the conversions
-- (`From`) copy field by field.
pub mod Edits
pub mod Source
pub mod Queries
pub mod Outline
pub mod Calls
use henka.Common.{ℕ, zero, suc, List, [], ◌∷◌, Option, none, some, length}
use henka.Text.{Text, codes}
use henka.Text.Decimal.{to_decimal}
use henka.Json.{
  Json, Fields, no_fields, Items, no_items, item, array, object, unsigned, string, insert,
}
use henka.Edit.{Position, Range, TextEdit}

pub data LspDocumentChange : Type 0 where
  document_edits : (uri : Text) → (edits : List TextEdit) → LspDocumentChange
  resource : (kind : Text) → (uri old_uri new_uri : Option Text) → LspDocumentChange

-- `changes` is a map, in the order of its keys.
pub record LspWorkspaceEdit : Type 0 where
  pub changes : Option (List (Text × List TextEdit))
  pub document_changes : Option (List LspDocumentChange)

pub record LspLocation : Type 0 where
  pub uri : Text
  pub range : Range

pub record LspGotoTarget : Type 0 where
  pub uri : Option Text
  pub range : Option Range
  pub target_uri : Option Text
  pub target_range : Option Range
  pub target_selection_range : Option Range

pub data LspGotoResponse : Type 0 where
  many : List LspGotoTarget → LspGotoResponse
  one : LspGotoTarget → LspGotoResponse

mutual
  pub data LspHoverContents : Type 0 where
    fenced : (language value : Text) → LspHoverContents
    markup : (value : Text) → LspHoverContents
    plain : Text → LspHoverContents
    parts : HoverParts → LspHoverContents

  pub data HoverParts : Type 0 where
    no_parts : HoverParts
    part : LspHoverContents → HoverParts → HoverParts

pub record LspHover : Type 0 where
  pub contents : LspHoverContents
  pub range : Option Range

mutual
  -- The name, the kind, the detail, the ranges of the declaration and of its name, the location of
  -- the flat form, the container, and the children, none if the field is missing.
  pub data LspDocumentSymbol : Type 0 where
    document_symbol :
        (name : Text)
        → (kind : ℕ) → (detail : Option Text) → (range selection_range : Option Range)
        → (location : Option LspLocation) → (container_name : Option Text)
        → (children : DocumentSymbols) → LspDocumentSymbol

  pub data DocumentSymbols : Type 0 where
    no_symbols : DocumentSymbols
    symbol : LspDocumentSymbol → DocumentSymbols → DocumentSymbols

pub record LspCallHierarchyItem : Type 0 where
  pub name : Text
  pub kind : ℕ
  pub detail : Option Text
  pub uri : Text
  pub range : Range
  pub selection_range : Range

pub record LspSymbolInfo : Type 0 where
  pub name : Text
  pub kind : ℕ
  -- The two fields of `LspSymbolLocation`.
  pub uri : Text
  pub range : Option Range
  pub container_name : Option Text

-- `symbol_kind_name`: the names of the kinds from 1 on.
abbrev kind_names : List Text
kind_names =
    codes "file"
    ∷ codes "module"
    ∷ codes "namespace"
    ∷ codes "package"
    ∷ codes "class"
    ∷ codes "method"
    ∷ codes "property"
    ∷ codes "field"
    ∷ codes "constructor"
    ∷ codes "enum"
    ∷ codes "interface"
    ∷ codes "function"
    ∷ codes "variable"
    ∷ codes "constant"
    ∷ codes "string"
    ∷ codes "number"
    ∷ codes "boolean"
    ∷ codes "array"
    ∷ codes "object"
    ∷ codes "key"
    ∷ codes "null"
    ∷ codes "enum_member"
    ∷ codes "struct"
    ∷ codes "event"
    ∷ codes "operator"
    ∷ codes "type_parameter"
    ∷ []

abbrev nth_name : List Text → ℕ → Option Text
nth_name [] n = none
nth_name (name ∷ names) zero = some name
nth_name (name ∷ names) (suc n) = nth_name names n

abbrev name_or : Option Text → Text → Text
name_or none otherwise = otherwise
name_or (some name) otherwise = name

unfoldable pub symbol_kind_name : ℕ → Text
unfolding to_decimal
symbol_kind_name zero = to_decimal 0
symbol_kind_name (suc k) = name_or (nth_name kind_names k) (to_decimal (suc k))

-- `json!` of an object: its entries are inserted in their order.
abbrev fields_into : Fields → List (Text × Json) → Fields
fields_into m [] = m
fields_into m ((k, v) ∷ entries) = fields_into (insert k v m) entries

abbrev pub fields_of : List (Text × Json) → Fields
fields_of entries = fields_into no_fields entries

abbrev pub items_of : List Json → Items
items_of [] = no_items
items_of (v ∷ vs) = item v (items_of vs)

-- The shape of a result: how many entries there are, and the entries.
abbrev pub query_fields : Text → ℕ → List Json → Fields
query_fields key count entries =
    fields_of ((codes "count", unsigned count) ∷ (key, array (items_of entries)) ∷ [])

abbrev pub query_object : Text → List Json → Json
query_object key entries = object (query_fields key (length entries) entries)

-- A `usize` or a `u32`, and the four numbers of a range.
abbrev pub range_entries : Range → List (Text × Json)
range_entries range =
    (codes "start_line", unsigned range.start.line)
    ∷ (codes "start_character", unsigned range.start.character)
    ∷ (codes "end_line", unsigned range.end.line)
    ∷ (codes "end_character", unsigned range.end.character)
    ∷ []

abbrev pub optional_entry : Text → Option Text → Fields → Fields
optional_entry key none m = m
optional_entry key (some t) m = insert key (string t) m
