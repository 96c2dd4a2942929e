-- ===== src/Lsp/Session.antt =====
-- The document session of a project: crates/henka-lsp/src/session.rs. The session's state is a
-- record, a `HashSet` the list of its elements without repetition, and the files are those of a
-- file system at one moment. Whether the server's stdin takes a message is a parameter. Waiting for
-- the server's diagnostics, which is bounded by a timeout and changes nothing of the session, is
-- not modelled, nor are the locks.
pub mod Collect
pub mod Documents
pub mod Overlay
pub mod Tidy
use henka.Common.{
  ℕ, ◌+◌, ◌%◌, ◌^◌, Bool, true, false, not, ◌&&◌, List, [], ◌∷◌, Option, none, some, any, ◌==◌,
  nat_eq, list_eq, if◌then◌else◌, Eq,
}
use henka.Text.{Text, codes}
use henka.Json.{Json, string, unsigned, array, object, no_fields, field, Items, no_items, item}
use henka.FilePath.{FilePath, is_absolute, join, component_eq}
use henka.Language.{extension}
use henka.Fs.{FileSystem, IoResult, done, failed}
use henka.Error.{IoError}
use henka.Lsp.{LspResult, good, bad, LspError}
use henka.Lsp.Uri.{path_to_file_uri}

-- `HashSet`
abbrev pub contains {ℓ} : {A : Type ℓ} ⦃e : Eq A⦄ → A → List A → Bool
contains a [] = false
contains a (b ∷ set) = if b == a then true else contains a set

unfoldable pub insert {ℓ} : {A : Type ℓ} ⦃e : Eq A⦄ → A → List A → List A
insert a set = if contains a set then set else a ∷ set

unfoldable pub remove {ℓ} : {A : Type ℓ} ⦃e : Eq A⦄ → A → List A → List A
remove a [] = []
remove a (b ∷ set) = let rest = remove a set in if b == a then rest else b ∷ rest

-- What the session tells the server of documents.
pub data DocumentMessage : Type 0 where
  did_open : (uri language_id text : Text) → DocumentMessage
  did_change : (uri : Text) (version : ℕ) (text : Text) → DocumentMessage
  did_close : (uri : Text) → DocumentMessage
  did_change_watched_files : (uris : List Text) → DocumentMessage

abbrev text_document : Json → Json
text_document document = object (field (codes "textDocument") document no_fields)

abbrev watched : List Text → Items
watched [] = no_items
watched (uri ∷ uris) =
    item (object (field (codes "type") (unsigned 2) (field (codes "uri") (string uri) no_fields)))
      (watched uris)

-- Its method and its params.
abbrev pub notification : DocumentMessage → Text × Json
notification (did_open uri language_id text) = (
  codes "textDocument/didOpen",
  text_document (
      object (
        field (codes "languageId") (string language_id) (
          field (codes "text") (string text)
            (field (codes "uri") (string uri) (field (codes "version") (unsigned 1) no_fields))))),
)
notification (did_change uri version text) = (
  codes "textDocument/didChange",
  object (
      field (codes "contentChanges")
        (array (item (object (field (codes "text") (string text) no_fields)) no_items))
        (field (codes "textDocument")
          (object (
            field (codes "uri") (string uri)
              (field (codes "version") (unsigned version) no_fields)))
          no_fields)),
)
notification (did_close uri) = (
  codes "textDocument/didClose",
  text_document (object (field (codes "uri") (string uri) no_fields)),
)
notification (did_change_watched_files uris) = (
  codes "workspace/didChangeWatchedFiles",
  object (field (codes "changes") (array (watched uris)) no_fields),
)

pub record LspSession : Type 0 where
  pub root : FilePath
  pub langs : List (Text × Text)
  pub opened : List FilePath
  pub indexed : Bool
  -- `OverlayState`: the documents that were changed, and those that were opened for the overlay.
  pub changed : List FilePath
  pub overlaid : List FilePath
  pub overlay_dirty : Bool
  pub overlay_root : Option FilePath
  -- A `u32`.
  pub doc_version : ℕ
  -- What the server was told, the last first.
  pub sent : List DocumentMessage

-- `LspSession::new`
abbrev pub new : FilePath → List (Text × Text) → LspSession
new root langs = record {
  root = root;
  langs = langs;
  opened = [];
  indexed = false;
  changed = [];
  overlaid = [];
  overlay_dirty = false;
  overlay_root = none;
  doc_version = 1;
  sent = [];
}

abbrev pub or_root : Option FilePath → FilePath → FilePath
or_root none root = root
or_root (some workspace) root = workspace

unfoldable pub content_root : LspSession → FilePath
content_root s = or_root s.overlay_root s.root

abbrev pub abs : LspSession → FilePath → FilePath
abs s path = if is_absolute path then path else join s.root path

unfoldable pub uri_for : LspSession → FilePath → Text
uri_for s path = path_to_file_uri (abs s path)

abbrev first_language : List (Text × Text) → Text
first_language [] = codes "plaintext"
first_language ((_, id) ∷ langs) = id

abbrev language_of : Option Text → List (Text × Text) → Text → Text
language_of none langs otherwise = otherwise
language_of (some ext) [] otherwise = otherwise
language_of (some ext) ((e, id) ∷ langs) otherwise =
    if e == ext then id else language_of (some ext) langs otherwise

unfoldable pub language_id_for : LspSession → FilePath → Text
unfolding extension
language_id_for s path = language_of (extension path) s.langs (first_language s.langs)

abbrev indexed_in : Option Text → List (Text × Text) → Bool
indexed_in none langs = false
indexed_in (some ext) langs = any (λ l. l.0 == ext) langs

unfoldable pub indexes : LspSession → FilePath → Bool
unfolding extension
indexes s path = indexed_in (extension path) s.langs
