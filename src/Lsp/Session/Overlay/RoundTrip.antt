-- ===== src/Lsp/Session/Overlay/RoundTrip.antt =====
-- An overlay from its beginning to its end.
use henka.Common.{
  ◌≡◌, ◌≢◌, true, false, all, List, [], ◌==◌, list_eq, Bool-cases, inl, inr, arith, list_beq_iff,
}
use henka.FilePath.{FilePath, join, component_eq}
use henka.Fs.{FileSystem}
use henka.Lsp.{LspResult, good}
use henka.Lsp.Uri.{path_to_file_uri}
use henka.Lsp.Session.{LspSession, DocumentMessage, contains}
use henka.Lsp.Session.Documents.{session_of, overlay_files, overlay_workspace, restore_overlay}
use henka.Lsp.Session.Overlay.{server_text, is_addressable, overlay_text}
use henka.Lsp.Session.Overlay.Files.{overlay_files-Overlaid, SyncedWith}
use henka.Lsp.Session.Overlay.Restore.{before, restore_overlay-Overlaid}

module _ (fs : FileSystem) (st : fs.State)
    (accepts : List DocumentMessage → DocumentMessage → LspResult (Unit {0}))
    (always : (sent : List DocumentMessage) (m : DocumentMessage) → accepts sent m ≡ good tt) where
  -- While a working copy other than the base checkout is overlaid, the server has of each document
  -- the text of the last file of the delta that stands for it, if that is a source file that can be
  -- read, and else the text it had before; and the overlay succeeds. No overlay is active before,
  -- the server's stdin takes every message, and the paths are absolute without percent signs.
  pub overlay_workspace-overlay_text :
      (s : LspSession) (workspace : FilePath) (delta : List FilePath) (p : FilePath)
      → workspace ≢ s.root
      → s.changed ≡ []
      → s.overlaid ≡ []
      → is_addressable p ≡ true
      → all (λ rel. is_addressable (join s.root rel)) delta ≡ true
      → ((overlay_workspace fs st accepts workspace delta s).0 ≡ good tt)
        × (server_text
              (path_to_file_uri p)
              (session_of (overlay_workspace fs st accepts workspace delta s)).sent
            ≡ overlay_text fs st s workspace p delta (server_text (path_to_file_uri p) s.sent))
  unfolding overlay_workspace
  overlay_workspace-overlay_text s workspace delta p n c w hp hd =
      let other : (workspace == s.root) ≡ false =
        ground (arith, n, list_beq_iff workspace s.root) in
      let text = server_text (path_to_file_uri p) s.sent in
      let (fine, o) =
        overlay_files-Overlaid fs st accepts always s workspace p delta (contains p s.opened) text
          text s hp hd (before fs st accepts always s p c w) in
      rw other (fine, o.current)

  -- Restoring an overlay takes the server's documents and the session's set of open documents back
  -- to what they were before `overlay_workspace`: a document that was open has the text of its file
  -- again, and any other one is closed. Before, no overlay is active and the document is in step with
  -- its file; the server's stdin takes every message, and the paths are absolute without percent
  -- signs.
  pub restore_overlay-overlay_workspace :
      (s : LspSession) (workspace : FilePath) (delta : List FilePath) (p : FilePath)
      → s.changed ≡ []
      → s.overlaid ≡ []
      → SyncedWith
          (contains p s.opened)
          (fs.read_to_string st p)
          (server_text (path_to_file_uri p) s.sent)
      → is_addressable p ≡ true
      → all (λ rel. is_addressable (join s.root rel)) delta ≡ true
      → (server_text
            (path_to_file_uri p)
            (restore_overlay fs st accepts
              (session_of (overlay_workspace fs st accepts workspace delta s))).sent
          ≡ server_text (path_to_file_uri p) s.sent)
        × (contains p
              (restore_overlay fs st accepts
                (session_of (overlay_workspace fs st accepts workspace delta s))).opened
            ≡ contains p s.opened)
  unfolding overlay_workspace
  restore_overlay-overlay_workspace s workspace delta p c w h hp hd =
      let text = server_text (path_to_file_uri p) s.sent in
      let base = contains p s.opened in
      let start = before fs st accepts always s p c w in
      elim (Bool-cases (workspace == s.root)) [
        | inl e ↦
            rw e (restore_overlay-Overlaid fs st accepts always s s p base text text hp start h)
        | inr e ↦
            let (fine, o) =
              overlay_files-Overlaid fs st accepts always s workspace p delta base text text s hp hd
                start in
            rw e (
              restore_overlay-Overlaid fs st accepts always s
                (session_of (overlay_files fs st accepts workspace delta s)) p base text
                (overlay_text fs st s workspace p delta text) hp o h)
      ]
