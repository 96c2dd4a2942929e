-- ===== src/Lsp/Session/Tidy/Begin.antt =====
-- Every request begins without an overlay.
use henka.Common.{
  ◌≡◌, refl, ap, sym, ◌∙◌, Bool, true, false, ◌&&◌, ◌||◌, List, [], ◌∷◌, Option, none, some, arith,
  if◌then◌else◌, Bool-cases, inl, inr, list_eq, nat_eq, ◌==◌,
}
use henka.Text.{Text}
use henka.FilePath.{FilePath, join, component_eq}
use henka.Fs.{FileSystem, IoResult, done, failed}
use henka.Lsp.{LspResult, good, bad}
use henka.Lsp.Uri.{path_to_file_uri}
use henka.Lsp.Session.{
  LspSession, DocumentMessage, new, did_open, did_close, contains, insert, indexes, content_root,
  or_root, language_id_for,
}
use henka.Lsp.Session.Documents.{
  Outcome, and_then, session_of, tell, did_change_full, ensure_open, open_and_reconcile,
  ensure_indexed, sync_changed, overlay_read, overlay_file, overlay_files, overlay_workspace,
  change_back, change_back_read, close_one, close_back, restore_overlay, begin_request,
}
use henka.Lsp.Session.Tidy.{
  Marks, marks, marks-tell, marks-change, marks-ensure_open, marks-open_and_reconcile,
  marks-ensure_indexed, marks-sync_changed,
}

is_nil : List FilePath → Bool
is_nil [] = true
is_nil (_ ∷ _) = false

is_none : Option FilePath → Bool
is_none none = true
is_none (some _) = false

-- Without the flag, there is no overlay.
is_tidy : Marks → Bool
unfolding is_nil is_none
is_tidy m = m.dirty || (is_nil m.changed && (is_nil m.overlaid && is_none m.workspace))

abbrev marks_of : Bool → Option FilePath → List FilePath → List FilePath → Marks
marks_of d w c o = record { dirty = d; workspace = w; changed = c; overlaid = o }

abbrev no_marks : Marks
no_marks = marks_of false none [] []

-- What may happen to a session: any operation, on the files of that moment, with a server's stdin
-- that takes the messages or not.
pub data Step (fs : FileSystem) : LspSession → LspSession → Type 0 where
  open_one :
      (st : fs.State) (accepts : List DocumentMessage → DocumentMessage → LspResult (Unit {0}))
      (path : FilePath) (s : LspSession)
      → Step fs s (session_of (ensure_open fs st accepts path s))
  open_many :
      (st : fs.State) (accepts : List DocumentMessage → DocumentMessage → LspResult (Unit {0}))
      (paths : List FilePath) (s : LspSession)
      → Step fs s (session_of (open_and_reconcile fs st accepts paths [] s))
  index :
      (st : fs.State) (accepts : List DocumentMessage → DocumentMessage → LspResult (Unit {0}))
      (collect : FilePath → (FilePath → Bool) → List FilePath) (s : LspSession)
      → Step fs s (session_of (ensure_indexed fs st accepts collect s))
  sync :
      (st : fs.State) (accepts : List DocumentMessage → DocumentMessage → LspResult (Unit {0}))
      (paths : List FilePath) (s : LspSession)
      → Step fs s (sync_changed fs st accepts paths s)
  overlay :
      (st : fs.State) (accepts : List DocumentMessage → DocumentMessage → LspResult (Unit {0}))
      (workspace : FilePath) (delta : List FilePath) (s : LspSession)
      → Step fs s (session_of (overlay_workspace fs st accepts workspace delta s))
  restore :
      (st : fs.State) (accepts : List DocumentMessage → DocumentMessage → LspResult (Unit {0}))
      (s : LspSession)
      → Step fs s (restore_overlay fs st accepts s)
  begin :
      (st : fs.State) (accepts : List DocumentMessage → DocumentMessage → LspResult (Unit {0}))
      (s : LspSession)
      → Step fs s (begin_request fs st accepts s)

pub data IsReachable (fs : FileSystem) : LspSession → Type 0 where
  start : (root : FilePath) (langs : List (Text × Text)) → IsReachable fs (new root langs)
  next : {s t : LspSession} → IsReachable fs s → Step fs s t → IsReachable fs t

no_marks_lem :
    (w : Option FilePath) (c o : List FilePath)
    → is_tidy (marks_of false w c o) ≡ true
    → marks_of false w c o ≡ no_marks
unfolding is_tidy
no_marks_lem none [] [] h = refl
no_marks_lem (some x) [] [] h = ground (arith, h)
no_marks_lem w (x ∷ c) o h = ground (arith, h)
no_marks_lem w [] (x ∷ o) h = ground (arith, h)

module _ (fs : FileSystem) (st : fs.State)
    (accepts : List DocumentMessage → DocumentMessage → LspResult (Unit {0})) where
  abbrev grown : (LspSession → LspSession) → Unit {0} → LspSession → Outcome (Unit {0})
  grown grow u s = (good tt, grow s)

  tidy_presented :
      (o : Outcome (Unit {0})) (grow : LspSession → LspSession) (workspace : FilePath)
      → is_tidy (marks (session_of o)) ≡ true
      → is_tidy (
          marks (
            session_of (
              and_then
                (and_then o (grown grow))
                (grown (λ s'. record s' { overlay_dirty = true; overlay_root = some workspace })))))
        ≡ true
  unfolding is_tidy marks
  tidy_presented (bad e, t) grow workspace h = h
  tidy_presented (good u, t) grow workspace h = refl

  tidy_overlay_read :
      (workspace q : FilePath) (r : IoResult Text) (s : LspSession)
      → is_tidy (marks s) ≡ true
      → is_tidy (marks (session_of (overlay_read fs st accepts workspace q r s))) ≡ true
  tidy_overlay_read workspace q (failed e) s h = h
  tidy_overlay_read workspace q (done text) s h = elim (Bool-cases (contains q s.opened)) [
    | inl e ↦ rw e (
        tidy_presented (did_change_full fs st accepts (path_to_file_uri q) text s)
          (λ s'. record s' { changed = insert q s'.changed }) workspace
          (ap is_tidy (marks-change fs st accepts (path_to_file_uri q) text s) ∙ h))
    | inr e ↦
        let m = did_open (path_to_file_uri q) (language_id_for s q) text in
        rw e (
          tidy_presented (tell fs st accepts m s)
            (λ s'. record s' { opened = insert q s'.opened; overlaid = insert q s'.overlaid })
            workspace (ap is_tidy (marks-tell fs st accepts m s) ∙ h))
  ]

  tidy_overlay_file :
      (workspace rel : FilePath) (s : LspSession)
      → is_tidy (marks s) ≡ true
      → is_tidy (marks (session_of (overlay_file fs st accepts workspace rel s))) ≡ true
  tidy_overlay_file workspace rel s h = elim (Bool-cases (indexes s rel)) [
    | inl e ↦ rw e (
        tidy_overlay_read workspace (join s.root rel) (fs.read_to_string st (join workspace rel)) s
          h)
    | inr e ↦ rw e h
  ]

  tidy_and_then :
      (o : Outcome (Unit {0})) (then_do : Unit {0} → LspSession → Outcome (Unit {0}))
      → is_tidy (marks (session_of o)) ≡ true
      → ((t : LspSession)
          → is_tidy (marks t) ≡ true
          → is_tidy (marks (session_of (then_do tt t))) ≡ true)
      → is_tidy (marks (session_of (and_then o then_do))) ≡ true
  tidy_and_then (bad e, t) then_do h k = h
  tidy_and_then (good u, t) then_do h k = k t h

  tidy_overlay_files :
      (workspace : FilePath) (delta : List FilePath) (s : LspSession)
      → is_tidy (marks s) ≡ true
      → is_tidy (marks (session_of (overlay_files fs st accepts workspace delta s))) ≡ true
  unfolding overlay_files
  tidy_overlay_files workspace [] s h = h
  tidy_overlay_files workspace (rel ∷ delta) s h =
      tidy_and_then (overlay_file fs st accepts workspace rel s)
        (λ u s'. overlay_files fs st accepts workspace delta s')
        (tidy_overlay_file workspace rel s h) (λ t k. tidy_overlay_files workspace delta t k)

  tidy_overlay_workspace :
      (workspace : FilePath) (delta : List FilePath) (s : LspSession)
      → is_tidy (marks s) ≡ true
      → is_tidy (marks (session_of (overlay_workspace fs st accepts workspace delta s))) ≡ true
  unfolding overlay_workspace
  tidy_overlay_workspace workspace delta s h = elim (Bool-cases (workspace == s.root)) [
    | inl e ↦ rw e h
    | inr e ↦ rw e (tidy_overlay_files workspace delta s h)
  ]

  marks-change_back :
      (paths : List FilePath) (s : LspSession) → marks (change_back fs st accepts paths s) ≡ marks s
  unfolding change_back
  marks-change_back [] s = refl
  marks-change_back (q ∷ paths) s =
      marks-change_back paths (change_back_read fs st accepts q (fs.read_to_string st q) s)
      ∙ read_one (fs.read_to_string st q)
    where
      read_one : (r : IoResult Text) → marks (change_back_read fs st accepts q r s) ≡ marks s
      read_one (failed e) = refl
      read_one (done text) = marks-change fs st accepts (path_to_file_uri q) text s

  marks-close_back :
      (paths : List FilePath) (s : LspSession) → marks (close_back fs st accepts paths s) ≡ marks s
  unfolding close_back marks
  marks-close_back [] s = refl
  marks-close_back (q ∷ paths) s =
      marks-close_back paths (close_one fs st accepts q s)
      ∙ marks-tell fs st accepts (did_close (path_to_file_uri q)) s

  abbrev undirty : Marks → Marks
  undirty m = record m { dirty = false }

  marks-restore_overlay : (s : LspSession) → marks (restore_overlay fs st accepts s) ≡ no_marks
  unfolding restore_overlay marks
  marks-restore_overlay s =
      let cleared = record s { overlay_root = none; changed = []; overlaid = [] } in
      ap undirty (
        marks-close_back s.overlaid (change_back fs st accepts s.changed cleared)
        ∙ marks-change_back s.changed cleared)

  marks-begin_request :
      (s : LspSession) → is_tidy (marks s) ≡ true → marks (begin_request fs st accepts s) ≡ no_marks
  unfolding begin_request marks
  marks-begin_request s h = elim (Bool-cases s.overlay_dirty) [
    | inl e ↦
        ap (λ b. marks (if b then restore_overlay fs st accepts s else s)) e
        ∙ marks-restore_overlay s
    | inr e ↦
        ap (λ b. marks (if b then restore_overlay fs st accepts s else s)) e
        ∙ ap (λ b. marks_of b s.overlay_root s.changed s.overlaid) e
        ∙ no_marks_lem s.overlay_root s.changed s.overlaid
            (ap (λ b. is_tidy (marks_of b s.overlay_root s.changed s.overlaid)) (sym e) ∙ h)
  ]

Step-tidy :
    {fs : FileSystem} {s t : LspSession}
    → Step fs s t
    → is_tidy (marks s) ≡ true
    → is_tidy (marks t) ≡ true
unfolding is_tidy
Step-tidy {fs} (open_one st accepts path s) h =
    ap is_tidy (marks-ensure_open fs st accepts path s) ∙ h
Step-tidy {fs} (open_many st accepts paths s) h =
    ap is_tidy (marks-open_and_reconcile fs st accepts paths [] s) ∙ h
Step-tidy {fs} (index st accepts collect s) h =
    ap is_tidy (marks-ensure_indexed fs st accepts collect s) ∙ h
Step-tidy {fs} (sync st accepts paths s) h =
    ap is_tidy (marks-sync_changed fs st accepts paths s) ∙ h
Step-tidy {fs} (overlay st accepts workspace delta s) h =
    tidy_overlay_workspace fs st accepts workspace delta s h
Step-tidy {fs} (restore st accepts s) h = ap is_tidy (marks-restore_overlay fs st accepts s)
Step-tidy {fs} (begin st accepts s) h = ap is_tidy (marks-begin_request fs st accepts s h)

IsReachable-tidy : {fs : FileSystem} {s : LspSession} → IsReachable fs s → is_tidy (marks s) ≡ true
unfolding is_tidy marks
IsReachable-tidy (start root langs) = refl
IsReachable-tidy (next r step) = Step-tidy step (IsReachable-tidy r)

-- Whatever happened to a session before, overlays that were never restored or in whose middle the
-- server's stdin failed included, a request begins without an overlay: the flag is down, no document
-- is recorded, and results quote the base checkout.
pub begin_request-content_root :
    (fs : FileSystem) (st : fs.State)
    (accepts : List DocumentMessage → DocumentMessage → LspResult (Unit {0})) (s : LspSession)
    → IsReachable fs s
    → let t = begin_request fs st accepts s in
      (t.overlay_dirty ≡ false) × (t.changed ≡ []) × (t.overlaid ≡ []) × (content_root t ≡ t.root)
unfolding marks content_root
begin_request-content_root fs st accepts s r =
    let e = marks-begin_request fs st accepts s (IsReachable-tidy r) in
    (
      ap (λ m. m.dirty) e,
      ap (λ m. m.changed) e,
      ap (λ m. m.overlaid) e,
      ap (λ w. or_root w (begin_request fs st accepts s).root) (ap (λ m. m.workspace) e),
    )
