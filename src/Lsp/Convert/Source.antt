-- ===== src/Lsp/Convert/Source.antt =====
-- `Source` of crates/henka-lsp/src/convert.rs: the source text beside a location. A slice of the
-- lines that Rust would panic on is `none`.
pub mod Cache
pub mod Quoted
pub mod Window
use henka.Common.{
  ℕ, zero, suc, ◌+◌, ◌-◌, min, Bool, true, false, ◌&&◌, List, [], ◌∷◌, ◌++◌, Option, none, some,
  leb, ltb, ◌==◌, nat_eq, list_eq, length, take, drop, if◌then◌else◌,
}
use henka.Common.BTreeMap.{BTreeMap, lookup}
use henka.Text.{Text, codes}
use henka.FilePath.{FilePath, strip_prefix, join, display, component_eq}
use henka.Fs.{FileSystem, IoResult, done, failed}
use henka.Json.{Json, unsigned, string, object, Fields, insert}
use henka.Edit.{Position, Range}
use henka.Vcs.{lines}
use henka.Lsp.Uri.{uri_to_path}
use henka.Lsp.Convert.{fields_of, range_entries}

abbrev pub max_text_chars : ℕ
max_text_chars = 500

abbrev pub max_context_lines : ℕ
max_context_lines = 10

pub record Source : Type 0 where
  pub root : FilePath
  pub content_root : FilePath
  pub context_lines : ℕ

-- `Source::new`, apart from its empty cache.
abbrev pub new : FilePath → FilePath → ℕ → Source
new root content_root context_lines = record {
  root = root;
  content_root = content_root;
  context_lines = min context_lines max_context_lines;
}

abbrev or_whole : Option FilePath → FilePath → FilePath
or_whole none path = path
or_whole (some rel) path = rel

unfoldable pub rel : Source → Text → Text
unfolding uri_to_path
rel s uri = let path = uri_to_path uri in display (or_whole (strip_prefix path s.root) path)

abbrev under : Source → FilePath → Option FilePath → FilePath
under s path none = path
under s path (some rel) = join s.content_root rel

-- The file that is read for a URI.
unfoldable pub read_from : Source → Text → FilePath
unfolding uri_to_path
read_from s uri = let path = uri_to_path uri in under s path (strip_prefix path s.root)

abbrev pub ok {ℓ} : {A : Type ℓ} → IoResult A → Option A
ok (failed e) = none
ok (done a) = some a

-- The cache holds what reading a file gave, which may be a failure.
abbrev pub Cache : Type 0
Cache = BTreeMap FilePath (Option Text)

-- The ellipsis is U+2026.
abbrev pub truncate_line : Text → Text
truncate_line line =
    if leb (length line) max_text_chars then line else take max_text_chars line ++ (0x2026 ∷ [])

abbrev pub join_lines : List Text → Text
join_lines [] = []
join_lines (t ∷ []) = t
join_lines (t ∷ u ∷ ts) = t ++ (b'\n' ∷ join_lines (u ∷ ts))

abbrev truncate_all : List Text → List Text
truncate_all [] = []
truncate_all (t ∷ ts) = truncate_line t ∷ truncate_all ts

unfoldable pub truncate_lines : List Text → Text
truncate_lines ts = join_lines (truncate_all ts)

-- `&lines[first..=last]`: from `first` through `last`, if `last` is an index and the range is not
-- inverted by more than one.
unfoldable pub slice : List Text → ℕ → ℕ → Option (List Text)
slice ts first last =
    if leb first (last + 1) && ltb last (length ts)
    then some (take (last + 1 - first) (drop first ts))
    else none

-- The last line that a range covers.
unfoldable pub last_line : Range → ℕ
last_line range =
    let first = range.start.line in
    let end = range.end.line in
    if ltb first end && range.end.character == 0
    then end - 1
    else (if leb first end then end else first)

abbrev pub with_text : Text → Option (List Text) → Fields → Option Fields
with_text key none entry = none
with_text key (some ts) entry = some (insert key (string (truncate_lines ts)) entry)

abbrev with_start : ℕ → Option Fields → Option Fields
with_start from none = none
with_start from (some entry) = some (insert (codes "context_start_line") (unsigned from) entry)

abbrev with_context : Source → List Text → ℕ → ℕ → Option Fields → Option Fields
with_context s ts first last none = none
with_context s ts first last (some entry) =
    let from = first - s.context_lines in
    let to = min (last + s.context_lines) (length ts - 1) in
    if ltb 0 s.context_lines
    then with_start from (with_text (codes "context") (slice ts from to) entry)
    else some entry

-- `annotate` on the lines of a file.
abbrev pub annotate_lines : Source → List Text → Range → Fields → Option Fields
annotate_lines s ts range entry =
    let first = range.start.line in
    let last = min (last_line range) (length ts - 1) in
    if leb (length ts) first
    then some entry
    else with_context s ts first last (with_text (codes "text") (slice ts first last) entry)

abbrev annotate_content : Source → Option Text → Range → Fields → Option Fields
annotate_content s none range entry = some entry
annotate_content s (some text) range entry = annotate_lines s (lines text) range entry

module _ (fs : FileSystem) (st : fs.State) where
  abbrev pub content_of : FilePath → Option Text
  content_of path = ok (fs.read_to_string st path)

  abbrev looked_up : FilePath → Option (Option Text) → Cache → Option Text × Cache
  looked_up path (some known) cache = (known, cache)
  looked_up path none cache = (content_of path, (path, content_of path) ∷ cache)

  -- `content`, with the cache before and behind it.
  unfoldable pub content : Source → Text → Cache → Option Text × Cache
  unfolding read_from lookup
  content s uri cache = let path = read_from s uri in looked_up path (lookup path cache) cache

  -- `annotate`, on what the file holds; the cache changes nothing of that.
  unfoldable pub annotate : Source → Text → Range → Fields → Option Fields
  unfolding read_from last_line slice
  annotate s uri range entry = annotate_content s (content_of (read_from s uri)) range entry

  abbrev or_entry : Option Fields → Fields → Fields
  or_entry none entry = entry
  or_entry (some quoted) entry = quoted

  -- The entry behind `annotate`, which never panics (see Quoted).
  unfoldable pub annotated : Source → Text → Range → Fields → Fields
  unfolding annotate
  annotated s uri range entry = or_entry (annotate s uri range entry) entry

  -- The entry of a location: its file, its range, and what is quoted.
  abbrev pub location_entry : Source → Text → Range → Json
  location_entry s uri range =
      object (
        annotated s uri range
          (fields_of ((codes "file", string (rel s uri)) ∷ range_entries range)))
