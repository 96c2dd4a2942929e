-- ===== src/Rust/Opens.antt =====
-- What an operation does to the server's documents.
pub mod Runs
use mathlib.Core.Path.{subst}
use henka.Common.{
  ℕ, ◌≡◌, refl, ap, sym, ◌∙◌, Bool, true, false, ◌&&◌, all, List, [], ◌∷◌, ◌++◌, append_assoc,
  Option, none, some, arith, ◌==◌, nat_eq, list_eq, if◌then◌else◌, Bool-cases, inl, inr,
}
use henka.Text.{Text, codes}
use henka.FilePath.{FilePath, component_eq}
use henka.Fs.{FileSystem, IoResult, done, failed}
use henka.Error.{Error, IoError, Result, ok, err, panic}
use henka.Json.{Json, object, member}
use henka.Edit.{Position}
use henka.Operation.{
  Target, position_target, selection_target, file_target, project_target, target_file,
}
use henka.Server.Run.{OperationOutcome}
use henka.Lsp.{LspResult, good, bad}
use henka.Lsp.Uri.{path_to_file_uri, uri_to_path}
use henka.Lsp.Session.{
  LspSession, DocumentMessage, did_open, abs, contains, insert, indexes, language_id_for,
}
use henka.Lsp.Session.Documents.{
  Outcome, and_then, session_of, told, tell, open_read, ensure_open, open_and_reconcile,
  ensure_indexed,
}
use henka.Rust.{OperationRequest, Deserialize, Ask, Ran, backend, at_position, at_file}
use henka.Rust.Actions.{CodeActionOp, action_range, chosen}
use henka.Rust.Queries.{GotoQueryOp}
use henka.Rust.Run.{
  RustOperation, rename, code_action, symbol_search, goto, describe_symbol, file_outline,
  prepare_call_hierarchy, incoming_calls, outgoing_calls, find_usages, run, behind, with_open,
  answered, asked, opened_if,
}

abbrev is_open : DocumentMessage → Bool
is_open (did_open _ _ _) = true
is_open _ = false

-- Between the two states the server was told of documents that were opened, and of nothing else,
-- and the overlay is the same.
pub record OnlyOpens (s t : LspSession) : Type 0 where
  pub told_since : List DocumentMessage
  pub since : t.sent ≡ told_since ++ s.sent
  pub opens : all is_open told_since ≡ true
  pub same_changed : t.changed ≡ s.changed
  pub same_overlaid : t.overlaid ≡ s.overlaid
  pub same_root : t.overlay_root ≡ s.overlay_root
  pub same_dirty : t.overlay_dirty ≡ s.overlay_dirty

pub OnlyOpens-refl : (s : LspSession) → OnlyOpens s s
OnlyOpens-refl s = record {
  told_since = [];
  since = refl;
  opens = refl;
  same_changed = refl;
  same_overlaid = refl;
  same_root = refl;
  same_dirty = refl;
}

all-append_open :
    (a b : List DocumentMessage)
    → all is_open a ≡ true
    → all is_open b ≡ true
    → all is_open (a ++ b) ≡ true
all-append_open [] b h k = k
all-append_open (m ∷ a) b h k = ground (arith, all-append_open a b)

pub OnlyOpens-trans : {s t u : LspSession} → OnlyOpens s t → OnlyOpens t u → OnlyOpens s u
OnlyOpens-trans {s} p q = record {
  told_since = q.told_since ++ p.told_since;
  since =
      q.since
      ∙ ap (λ l. q.told_since ++ l) p.since
      ∙ sym (append_assoc q.told_since p.told_since s.sent);
  opens = all-append_open q.told_since p.told_since q.opens p.opens;
  same_changed = q.same_changed ∙ p.same_changed;
  same_overlaid = q.same_overlaid ∙ p.same_overlaid;
  same_root = q.same_root ∙ p.same_root;
  same_dirty = q.same_dirty ∙ p.same_dirty;
}

module _ (fs : FileSystem) (st : fs.State)
    (accepts : List DocumentMessage → DocumentMessage → LspResult (Unit {0}))
    (collect : FilePath → (FilePath → Bool) → List FilePath) (io_text : IoError → Text)
    (to_lowercase : Text → Text) (de : Deserialize) (ask : Ask) where
  told-OnlyOpens :
      (r : LspResult (Unit {0})) (path : FilePath) (language text : Text) (s : LspSession)
      → OnlyOpens s (
          session_of (
            and_then (told r (did_open (path_to_file_uri path) language text) s) (λ u s'.
              (good (path_to_file_uri path), record s' { opened = insert path s'.opened }))))
  told-OnlyOpens (bad e) path language text s = OnlyOpens-refl s
  told-OnlyOpens (good u) path language text s = record {
    told_since = did_open (path_to_file_uri path) language text ∷ [];
    since = refl;
    opens = refl;
    same_changed = refl;
    same_overlaid = refl;
    same_root = refl;
    same_dirty = refl;
  }

  open_read-OnlyOpens :
      (path : FilePath) (r : IoResult Text) (s : LspSession)
      → OnlyOpens s (session_of (open_read fs st accepts path r s))
  unfolding tell
  open_read-OnlyOpens path (failed e) s = OnlyOpens-refl s
  open_read-OnlyOpens path (done text) s =
      told-OnlyOpens
        (accepts s.sent (did_open (path_to_file_uri path) (language_id_for s path) text)) path
        (language_id_for s path) text s

  pub ensure_open-OnlyOpens :
      (path : FilePath) (s : LspSession)
      → OnlyOpens s (session_of (ensure_open fs st accepts path s))
  unfolding ensure_open
  ensure_open-OnlyOpens path s = elim (Bool-cases (contains (abs s path) s.opened)) [
    | inl e ↦ rw e (OnlyOpens-refl s)
    | inr e ↦ rw e (open_read-OnlyOpens (abs s path) (fs.read_to_string st (abs s path)) s)
  ]

  and_then-OnlyOpens :
      {A B : Type 0} (s : LspSession) (o : Outcome A) (next : A → LspSession → Outcome B)
      → OnlyOpens s (session_of o)
      → ((a : A) (t : LspSession) → OnlyOpens t (session_of (next a t)))
      → OnlyOpens s (session_of (and_then o next))
  and_then-OnlyOpens s (bad e, t) next h k = h
  and_then-OnlyOpens s (good a, t) next h k = OnlyOpens-trans h (k a t)

  open_and_reconcile-OnlyOpens :
      (paths : List FilePath) (pending : List Text) (s : LspSession)
      → OnlyOpens s (session_of (open_and_reconcile fs st accepts paths pending s))
  unfolding open_and_reconcile
  open_and_reconcile-OnlyOpens [] pending s = OnlyOpens-refl s
  open_and_reconcile-OnlyOpens (path ∷ paths) pending s =
      and_then-OnlyOpens s (ensure_open fs st accepts path s)
        (λ uri s'.
          open_and_reconcile fs st accepts paths
            (if contains (abs s path) s.opened then pending else insert uri pending) s')
        (ensure_open-OnlyOpens path s)
        (λ uri t.
          open_and_reconcile-OnlyOpens paths
            (if contains (abs s path) s.opened then pending else insert uri pending) t)

  reindexed : {s t : LspSession} → OnlyOpens (record s { indexed = true }) t → OnlyOpens s t
  reindexed h = record {
    told_since = h.told_since;
    since = h.since;
    opens = h.opens;
    same_changed = h.same_changed;
    same_overlaid = h.same_overlaid;
    same_root = h.same_root;
    same_dirty = h.same_dirty;
  }

  abbrev indexing : LspSession → Bool → Outcome (Unit {0})
  indexing s done_before =
      if done_before
      then (good tt, s)
      else and_then
          (open_and_reconcile fs st accepts (collect s.root (indexes s)) []
            (record s { indexed = true }))
          (λ pending s'. (good tt, s'))

  pub ensure_indexed-OnlyOpens :
      (s : LspSession) → OnlyOpens s (session_of (ensure_indexed fs st accepts collect s))
  unfolding ensure_indexed indexes
  ensure_indexed-OnlyOpens s = elim (Bool-cases s.indexed) [
    | inl e ↦ subst (λ b. OnlyOpens s (session_of (indexing s b))) (sym e) (OnlyOpens-refl s)
    | inr e ↦
        subst (λ b. OnlyOpens s (session_of (indexing s b))) (sym e)
          (reindexed (
            and_then-OnlyOpens (record s { indexed = true })
              (open_and_reconcile fs st accepts (collect s.root (indexes s)) []
                (record s { indexed = true }))
              (λ pending s'. (good tt, s'))
              (open_and_reconcile-OnlyOpens (collect s.root (indexes s)) []
                (record s { indexed = true }))
              (λ u t. OnlyOpens-refl t)))
  ]

  pub behind-OnlyOpens :
      {A : Type 0} (s : LspSession) (o : Outcome A) (next : A → LspSession → Ran)
      → OnlyOpens s (session_of o)
      → ((a : A) (t : LspSession) → OnlyOpens t (next a t).1)
      → OnlyOpens s (behind fs st accepts collect io_text to_lowercase de ask o next).1
  behind-OnlyOpens s (bad e, t) next h k = h
  behind-OnlyOpens s (good a, t) next h k = OnlyOpens-trans h (k a t)

  pub with_open-OnlyOpens :
      (file : FilePath) (s : LspSession) (next : Text → LspSession → Ran)
      → ((uri : Text) (t : LspSession) → OnlyOpens t (next uri t).1)
      → OnlyOpens s (with_open fs st accepts collect io_text to_lowercase de ask file s next).1
  with_open-OnlyOpens file s next k =
      behind-OnlyOpens s (ensure_indexed fs st accepts collect s)
        (λ u s'.
          behind fs st accepts collect io_text to_lowercase de ask
            (ensure_open fs st accepts file s') next)
        (ensure_indexed-OnlyOpens s)
        (λ u t.
          behind-OnlyOpens t (ensure_open fs st accepts file t) next (ensure_open-OnlyOpens file t)
            k)

  pub answered-OnlyOpens :
      (s : LspSession) (next : Json → Result OperationOutcome) (r : LspResult Json)
      → OnlyOpens s (answered fs st accepts collect io_text to_lowercase de ask s next r).1
  answered-OnlyOpens s next (bad e) = OnlyOpens-refl s
  answered-OnlyOpens s next (good answer) = OnlyOpens-refl s

  pub at_position-OnlyOpens :
      (req : OperationRequest) (s : LspSession) (next : FilePath → Position → Ran)
      → ((file : FilePath) (position : Position) → OnlyOpens s (next file position).1)
      → OnlyOpens s (at_position req s next).1
  at_position-OnlyOpens req s next k = by_target req.target
    where
      by_target :
          (t : Target)
          → OnlyOpens s (at_position (record { target = t; params = req.params }) s next).1
      by_target (position_target file position) = k file position
      by_target (selection_target file range) = OnlyOpens-refl s
      by_target (file_target file) = OnlyOpens-refl s
      by_target project_target = OnlyOpens-refl s

  pub at_file-OnlyOpens :
      (req : OperationRequest) (s : LspSession) (next : FilePath → Ran)
      → ((file : FilePath) → OnlyOpens s (next file).1)
      → OnlyOpens s (at_file req s next).1
  at_file-OnlyOpens req s next k = by_target req.target
    where
      by_target :
          (t : Target) → OnlyOpens s (at_file (record { target = t; params = req.params }) s next).1
      by_target (position_target file position) = OnlyOpens-refl s
      by_target (selection_target file range) = OnlyOpens-refl s
      by_target (file_target file) = k file
      by_target project_target = OnlyOpens-refl s
