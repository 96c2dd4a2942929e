-- ===== src/Tests/Documents.antt =====
-- A session of a project at `/base` whose working copy at `/copy` changed one file and added one.
use henka.Common.{
  Bool, ◌==◌, option_eq, length, ◌≤◌, ◌≡◌, refl, true, false, all, List, [], ◌∷◌, some, arith,
  nat_eq, list_eq,
}
use henka.Common.BTreeMap.{lookup}
use henka.Text.{codes}
use henka.Text.Search.{rsplit_once}
use henka.FilePath.{FilePath, root_dir, normal, join, file_name, display, component_eq}
use henka.Language.{extension}
use henka.Fs.Memory.{memory, Files}
use henka.Lsp.{LspResult, good}
use henka.Lsp.Uri.{encode, path_to_file_uri, uri_to_path}
use henka.Lsp.Uri.RoundTrip.{uri_to_path-path_to_file_uri}
use henka.Lsp.Session.{
  LspSession, DocumentMessage, new, contains, insert, indexes, content_root, language_id_for,
}
use henka.Lsp.Session.Collect.{
  Listing, no_entries, entry, file, directory, max_index_files, collect_from, scan_entries,
  collect_source_files,
}
use henka.Lsp.Session.Collect.Bounded.{collect_source_files-IsWanted}
use henka.Lsp.Session.Documents.{
  session_of, ensure_open, overlay_workspace, restore_overlay, begin_request, tell,
}
use henka.Lsp.Session.Overlay.{server_text, overlay_text, is_addressable}
use henka.Lsp.Session.Overlay.Files.{SyncedWith}
use henka.Lsp.Session.Overlay.RoundTrip.{
  overlay_workspace-overlay_text, restore_overlay-overlay_workspace,
}
use henka.Lsp.Session.Tidy.Begin.{open_one, overlay, start, next, begin_request-content_root}

abbrev base : FilePath
base = root_dir ∷ normal (codes "base") ∷ []

abbrev copy : FilePath
copy = root_dir ∷ normal (codes "copy") ∷ []

abbrev main_path : FilePath
main_path = root_dir ∷ normal (codes "base") ∷ normal (codes "a b.rs") ∷ []

abbrev files : Files
files =
    (main_path, codes "old")
    ∷ (root_dir ∷ normal (codes "copy") ∷ normal (codes "a b.rs") ∷ [], codes "new")
    ∷ (root_dir ∷ normal (codes "copy") ∷ normal (codes "c.rs") ∷ [], codes "added")
    ∷ []

abbrev delta : List FilePath
delta = (normal (codes "a b.rs") ∷ []) ∷ (normal (codes "c.rs") ∷ []) ∷ []

abbrev takes : List DocumentMessage → DocumentMessage → LspResult (Unit {0})
takes sent m = good tt

-- The session once the first file is open.
abbrev session : LspSession
session =
    session_of
      (ensure_open memory files takes main_path (new base ((codes "rs", codes "rust") ∷ [])))

uri_to_path-path_to_file_uri_example : uri_to_path (path_to_file_uri main_path) ≡ main_path
unfolding display
uri_to_path-path_to_file_uri_example = uri_to_path-path_to_file_uri main_path refl refl

overlaid_text :
    overlay_text memory files session copy main_path delta (some (codes "old")) ≡ some (codes "new")
unfolding overlay_text ensure_open tell indexes extension file_name rsplit_once join lookup display
overlaid_text = refl

root_lem : session.root ≡ base
unfolding ensure_open tell path_to_file_uri encode display language_id_for extension lookup
root_lem = refl

untouched : (session.changed ≡ []) × (session.overlaid ≡ [])
unfolding ensure_open tell lookup
untouched = (refl, refl)

synced :
    SyncedWith
      (contains main_path session.opened)
      (memory.read_to_string files main_path)
      (server_text (path_to_file_uri main_path) session.sent)
unfolding ensure_open tell lookup server_text path_to_file_uri encode display insert
synced = refl

addressable : all (λ rel. is_addressable (join session.root rel)) delta ≡ true
unfolding ensure_open tell lookup display join
addressable = refl

main_addressable : is_addressable main_path ≡ true
unfolding display
main_addressable = refl

overlay_workspace-overlay_text_example :
    ((overlay_workspace memory files takes copy delta session).0 ≡ good tt)
    × (server_text
          (path_to_file_uri main_path)
          (session_of (overlay_workspace memory files takes copy delta session)).sent
        ≡ overlay_text memory files session copy main_path delta
            (server_text (path_to_file_uri main_path) session.sent))
overlay_workspace-overlay_text_example =
    overlay_workspace-overlay_text memory files takes (λ sent m. refl) session copy delta main_path
      (λ e. ground (arith, e, root_lem)) untouched.0 untouched.1 main_addressable addressable

restore_overlay-overlay_workspace_example :
    (server_text
        (path_to_file_uri main_path)
        (restore_overlay memory files takes
          (session_of (overlay_workspace memory files takes copy delta session))).sent
      ≡ server_text (path_to_file_uri main_path) session.sent)
    × (contains main_path
          (restore_overlay memory files takes
            (session_of (overlay_workspace memory files takes copy delta session))).opened
        ≡ contains main_path session.opened)
restore_overlay-overlay_workspace_example =
    restore_overlay-overlay_workspace memory files takes (λ sent m. refl) session copy delta
      main_path untouched.0 untouched.1 synced main_addressable addressable

-- The overlay was not restored by the request that set it up.
abbrev leaked : LspSession
leaked = session_of (overlay_workspace memory files takes copy delta session)

begin_request-content_root_example :
    let t = begin_request memory files takes leaked in
    (t.overlay_dirty ≡ false) × (t.changed ≡ []) × (t.overlaid ≡ []) × (content_root t ≡ t.root)
begin_request-content_root_example = begin_request-content_root memory files takes leaked (
    next
      (next (start base ((codes "rs", codes "rust") ∷ []))
        (open_one files takes main_path (new base ((codes "rs", codes "rust") ∷ []))))
      (overlay files takes copy delta session))

-- A directory with a file to index, another file, and git's directory.
abbrev sources : Listing
sources = entry (file main_path) (
    entry (directory (codes ".git") (entry (file main_path) no_entries))
      (entry (file (normal (codes "README") ∷ [])) no_entries))

abbrev is_rust : FilePath → Bool
is_rust p = extension p == some (codes "rs")

sources_run : collect_source_files sources is_rust ≡ main_path ∷ []
unfolding collect_source_files collect_from scan_entries extension file_name rsplit_once
sources_run = refl

collect_source_files-IsWanted_example :
    (length (collect_source_files sources is_rust) ≤ max_index_files)
    × (all is_rust (collect_source_files sources is_rust) ≡ true)
    × (collect_from is_rust 10 (sources ∷ []) [] ≡ collect_source_files sources is_rust)
collect_source_files-IsWanted_example =
    collect_source_files-IsWanted sources is_rust 10 (omega arith)
