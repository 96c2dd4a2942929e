-- ===== src/Lsp/Session/Documents.antt =====
-- The operations of a session on documents: from `ensure_open` to `restore_overlay` in
-- crates/henka-lsp/src/session.rs.
use henka.Common.{
  ℕ, ◌+◌, ◌%◌, ◌^◌, Bool, true, false, List, [], ◌∷◌, none, some, ◌==◌, nat_eq, list_eq,
  if◌then◌else◌,
}
use henka.Text.{Text}
use henka.FilePath.{FilePath, join, component_eq}
use henka.Fs.{FileSystem, IoResult, done, failed}
use henka.Lsp.{LspResult, good, bad, LspError}
use henka.Lsp.Uri.{path_to_file_uri}
use henka.Lsp.Session.{
  LspSession, DocumentMessage, did_open, did_change, did_close, did_change_watched_files, contains,
  insert, remove, abs, language_id_for, indexes,
}

abbrev pub u32_mod : ℕ
u32_mod = 2 ^ 32

-- What an operation returns, and the session behind it.
abbrev pub Outcome {ℓ} : Type ℓ → Type ℓ
Outcome A = LspResult A × LspSession

abbrev pub and_then {ℓ κ} :
    {A : Type ℓ} {B : Type κ} → Outcome A → (A → LspSession → Outcome B) → Outcome B
and_then (bad e, s) next = (bad e, s)
and_then (good a, s) next = next a s

abbrev pub session_of {ℓ} : {A : Type ℓ} → Outcome A → LspSession
session_of o = o.1

abbrev pub told : LspResult (Unit {0}) → DocumentMessage → LspSession → Outcome (Unit {0})
told (bad e) m s = (bad e, s)
told (good u) m s = (good u, record s { sent = m ∷ s.sent })

module _ (fs : FileSystem) (st : fs.State)
    (accepts : List DocumentMessage → DocumentMessage → LspResult (Unit {0})) where
  -- `client.notify`
  unfoldable pub tell : DocumentMessage → LspSession → Outcome (Unit {0})
  tell m s = told (accepts s.sent m) m s

  -- The counter is raised before the message is written.
  unfoldable pub did_change_full : Text → Text → LspSession → Outcome (Unit {0})
  unfolding tell
  did_change_full uri text s =
      let version = (s.doc_version + 1) % u32_mod in
      tell (did_change uri version text) (record s { doc_version = version })

  abbrev pub open_read : FilePath → IoResult Text → LspSession → Outcome Text
  open_read path (failed e) s = (bad (LspError.io e), s)
  open_read path (done text) s =
      let uri = path_to_file_uri path in
      and_then (tell (did_open uri (language_id_for s path) text) s)
        (λ u s'. (good uri, record s' { opened = insert path s'.opened }))

  unfoldable pub ensure_open : FilePath → LspSession → Outcome Text
  unfolding tell
  ensure_open path s =
      let file = abs s path in
      if contains file s.opened
      then (good (path_to_file_uri file), s)
      else open_read file (fs.read_to_string st file) s

  -- `open_and_reconcile`, with the URIs whose diagnostics it waits for.
  unfoldable pub open_and_reconcile : List FilePath → List Text → LspSession → Outcome (List Text)
  unfolding ensure_open
  open_and_reconcile [] pending s = (good pending, s)
  open_and_reconcile (path ∷ paths) pending s = and_then (ensure_open path s) (λ uri s'.
      open_and_reconcile paths
        (if contains (abs s path) s.opened then pending else insert uri pending) s')

  -- `collect` is `collect_source_files`.
  unfoldable pub ensure_indexed :
      (FilePath → (FilePath → Bool) → List FilePath) → LspSession → Outcome (Unit {0})
  unfolding open_and_reconcile
  ensure_indexed collect s =
      if s.indexed
      then (good tt, s)
      else and_then
          (open_and_reconcile (collect s.root (indexes s)) [] (record s { indexed = true }))
          (λ pending s'. (good tt, s'))

  -- The loops of `sync_changed`: what leaves the set, the URIs, and the documents to close.
  abbrev pub forgotten : LspSession → List FilePath → List FilePath → List FilePath
  forgotten s [] opened = opened
  forgotten s (path ∷ paths) opened = forgotten s paths (remove (abs s path) opened)

  abbrev pub to_close : LspSession → List FilePath → List FilePath → List Text
  to_close s [] opened = []
  to_close s (path ∷ paths) opened =
      let rest = to_close s paths (remove (abs s path) opened) in
      if contains (abs s path) opened then path_to_file_uri (abs s path) ∷ rest else rest

  abbrev pub uris_of : LspSession → List FilePath → List Text
  uris_of s [] = []
  uris_of s (path ∷ paths) = path_to_file_uri (abs s path) ∷ uris_of s paths

  unfoldable pub close_all : List Text → LspSession → LspSession
  unfolding tell
  close_all [] s = s
  close_all (uri ∷ uris) s = close_all uris (session_of (tell (did_close uri) s))

  unfoldable pub sync_changed : List FilePath → LspSession → LspSession
  unfolding close_all
  sync_changed paths s =
      let closed =
        close_all (to_close s paths s.opened) (record s { opened = forgotten s paths s.opened }) in
      session_of (tell (did_change_watched_files (uris_of s paths)) closed)

  -- One file of the delta, at its path in the base checkout.
  abbrev pub present : FilePath → Text → LspSession → Outcome (Unit {0})
  present base content s =
      let uri = path_to_file_uri base in
      if contains base s.opened
      then and_then (did_change_full uri content s)
          (λ u s'. (good tt, record s' { changed = insert base s'.changed }))
      else and_then (tell (did_open uri (language_id_for s base) content) s) (λ u s'.
        (good tt, record s' { opened = insert base s'.opened; overlaid = insert base s'.overlaid }))

  abbrev pub presented : FilePath → FilePath → Text → LspSession → Outcome (Unit {0})
  presented workspace base content s =
      and_then (present base content s)
        (λ u s'. (good tt, record s' { overlay_dirty = true; overlay_root = some workspace }))

  abbrev pub overlay_read : FilePath → FilePath → IoResult Text → LspSession → Outcome (Unit {0})
  overlay_read workspace base (failed e) s = (good tt, s)
  overlay_read workspace base (done content) s = presented workspace base content s

  abbrev pub overlay_file : FilePath → FilePath → LspSession → Outcome (Unit {0})
  overlay_file workspace rel s =
      if indexes s rel
      then overlay_read workspace (join s.root rel) (fs.read_to_string st (join workspace rel)) s
      else (good tt, s)

  unfoldable pub overlay_files : FilePath → List FilePath → LspSession → Outcome (Unit {0})
  unfolding did_change_full
  overlay_files workspace [] s = (good tt, s)
  overlay_files workspace (rel ∷ delta) s =
      and_then (overlay_file workspace rel s) (λ u s'. overlay_files workspace delta s')

  unfoldable pub overlay_workspace : FilePath → List FilePath → LspSession → Outcome (Unit {0})
  unfolding overlay_files
  overlay_workspace workspace delta s =
      if workspace == s.root then (good tt, s) else overlay_files workspace delta s

  abbrev pub change_back_read : FilePath → IoResult Text → LspSession → LspSession
  change_back_read path (failed e) s = s
  change_back_read path (done content) s =
      session_of (did_change_full (path_to_file_uri path) content s)

  unfoldable pub change_back : List FilePath → LspSession → LspSession
  unfolding did_change_full
  change_back [] s = s
  change_back (path ∷ paths) s =
      change_back paths (change_back_read path (fs.read_to_string st path) s)

  abbrev pub close_one : FilePath → LspSession → LspSession
  close_one path s =
      let closed = session_of (tell (did_close (path_to_file_uri path)) s) in
      record closed { opened = remove path closed.opened }

  unfoldable pub close_back : List FilePath → LspSession → LspSession
  unfolding tell
  close_back [] s = s
  close_back (path ∷ paths) s = close_back paths (close_one path s)

  -- The record is taken out first, and the two loops are over nothing where it was empty.
  unfoldable pub restore_overlay : LspSession → LspSession
  unfolding change_back close_back
  restore_overlay s =
      let cleared = record s { overlay_root = none; changed = []; overlaid = [] } in
      let restored = close_back s.overlaid (change_back s.changed cleared) in
      record restored { overlay_dirty = false }

  -- `begin_request`, once the lock is held.
  unfoldable pub begin_request : LspSession → LspSession
  unfolding restore_overlay
  begin_request s = if s.overlay_dirty then restore_overlay s else s
