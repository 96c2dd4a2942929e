-- ===== src/Lsp/Session/Tidy.antt =====
-- An overlay that a request leaves behind is known to the next one, also where the server's stdin
-- fails in the middle of it. Here, the operations that have no part in an overlay.
pub mod Begin
use henka.Common.{
  ◌+◌, ◌%◌, ◌≡◌, refl, ap, sym, ◌∙◌, Bool, true, false, ◌&&◌, ◌||◌, List, [], ◌∷◌, Option, none,
  some, arith, if◌then◌else◌, Bool-cases, inl, inr, list_eq, nat_eq,
}
use henka.Text.{Text}
use henka.FilePath.{FilePath, join, component_eq}
use henka.Fs.{FileSystem, IoResult, done, failed}
use henka.Lsp.{LspResult, good, bad}
use henka.Lsp.Uri.{path_to_file_uri}
use henka.Lsp.Session.{
  LspSession, DocumentMessage, new, did_open, did_change, did_close, did_change_watched_files, abs,
  contains, insert, indexes, content_root, language_id_for,
}
use henka.Lsp.Session.Documents.{
  Outcome, and_then, session_of, told, tell, did_change_full, open_read, ensure_open,
  open_and_reconcile, ensure_indexed, close_all, sync_changed, present, presented, overlay_read,
  overlay_file, overlay_files, overlay_workspace, change_back, change_back_read, close_one,
  close_back, restore_overlay, begin_request, to_close, forgotten, uris_of, u32_mod,
}

-- The session's knowledge of an overlay.
pub record Marks : Type 0 where
  pub dirty : Bool
  pub workspace : Option FilePath
  pub changed : List FilePath
  pub overlaid : List FilePath

pub marks : LspSession → Marks
marks s = record {
  dirty = s.overlay_dirty;
  workspace = s.overlay_root;
  changed = s.changed;
  overlaid = s.overlaid;
}

module _ (fs : FileSystem) (st : fs.State)
    (accepts : List DocumentMessage → DocumentMessage → LspResult (Unit {0})) where
  pub marks-told :
      (r : LspResult (Unit {0})) (m : DocumentMessage) (s : LspSession)
      → marks (session_of (told r m s)) ≡ marks s
  unfolding marks
  marks-told (bad e) m s = refl
  marks-told (good u) m s = refl

  pub marks-tell :
      (m : DocumentMessage) (s : LspSession) → marks (session_of (tell fs st accepts m s)) ≡ marks s
  unfolding tell
  marks-tell m s = marks-told (accepts s.sent m) m s

  pub marks-change :
      (uri text : Text) (s : LspSession)
      → marks (session_of (did_change_full fs st accepts uri text s)) ≡ marks s
  unfolding did_change_full marks
  marks-change uri text s =
      marks-tell (did_change uri ((s.doc_version + 1) % u32_mod) text)
        (record s { doc_version = (s.doc_version + 1) % u32_mod })

  -- What comes behind an operation and leaves the marks, leaves them.
  marks-and_then :
      {A B : Type 0} (o : Outcome A) (next : A → LspSession → Outcome B) (s : LspSession)
      → marks (session_of o) ≡ marks s
      → ((a : A) (t : LspSession) → marks (session_of (next a t)) ≡ marks t)
      → marks (session_of (and_then o next)) ≡ marks s
  marks-and_then (bad e, t) next s h k = h
  marks-and_then (good a, t) next s h k = k a t ∙ h

  marks-open_read :
      (path : FilePath) (r : IoResult Text) (s : LspSession)
      → marks (session_of (open_read fs st accepts path r s)) ≡ marks s
  unfolding marks
  marks-open_read path (failed e) s = refl
  marks-open_read path (done text) s =
      let m = did_open (path_to_file_uri path) (language_id_for s path) text in
      marks-and_then (tell fs st accepts m s)
        (λ u s'. (good (path_to_file_uri path), record s' { opened = insert path s'.opened })) s
        (marks-tell m s) (λ u t. refl)

  pub marks-ensure_open :
      (path : FilePath) (s : LspSession)
      → marks (session_of (ensure_open fs st accepts path s)) ≡ marks s
  unfolding ensure_open
  marks-ensure_open path s = elim (Bool-cases (contains (abs s path) s.opened)) [
    | inl e ↦ rw e refl
    | inr e ↦ rw e (marks-open_read (abs s path) (fs.read_to_string st (abs s path)) s)
  ]

  pub marks-open_and_reconcile :
      (paths : List FilePath) (pending : List Text) (s : LspSession)
      → marks (session_of (open_and_reconcile fs st accepts paths pending s)) ≡ marks s
  unfolding open_and_reconcile
  marks-open_and_reconcile [] pending s = refl
  marks-open_and_reconcile (path ∷ paths) pending s =
      marks-and_then (ensure_open fs st accepts path s)
        (λ uri s'.
          open_and_reconcile fs st accepts paths
            (if contains (abs s path) s.opened then pending else insert uri pending) s')
        s (marks-ensure_open path s) (λ uri t. marks-open_and_reconcile paths _ t)

  pub marks-ensure_indexed :
      (collect : FilePath → (FilePath → Bool) → List FilePath) (s : LspSession)
      → marks (session_of (ensure_indexed fs st accepts collect s)) ≡ marks s
  unfolding ensure_indexed marks indexes
  marks-ensure_indexed collect s = elim (Bool-cases s.indexed) [
    | inl e ↦ rw e refl
    | inr e ↦ rw e (
        marks-and_then
          (open_and_reconcile fs st accepts (collect s.root (indexes s)) []
            (record s { indexed = true }))
          (λ pending s'. (good tt, s')) s
          (marks-open_and_reconcile (collect s.root (indexes s)) [] (record s { indexed = true }))
          (λ u t. refl))
  ]

  marks-close_all :
      (uris : List Text) (s : LspSession) → marks (close_all fs st accepts uris s) ≡ marks s
  unfolding close_all
  marks-close_all [] s = refl
  marks-close_all (uri ∷ uris) s =
      marks-close_all uris (session_of (tell fs st accepts (did_close uri) s))
      ∙ marks-tell (did_close uri) s

  pub marks-sync_changed :
      (paths : List FilePath) (s : LspSession)
      → marks (sync_changed fs st accepts paths s) ≡ marks s
  unfolding sync_changed marks
  marks-sync_changed paths s =
      let kept = record s { opened = forgotten fs st accepts s paths s.opened } in
      let uris = to_close fs st accepts s paths s.opened in
      marks-tell (did_change_watched_files (uris_of fs st accepts s paths))
        (close_all fs st accepts uris kept)
      ∙ marks-close_all uris kept
