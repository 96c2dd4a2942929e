-- ===== src/Lsp/Session/Overlay/Files.antt =====
-- What `overlay_workspace` leaves behind, for one document.
use henka.Common.{
  ◌≡◌, refl, ap, Bool, true, false, all, List, [], ◌∷◌, Option, none, some, arith, ◌==◌, nat_eq,
  list_eq, if◌then◌else◌, Bool-cases, inl, inr,
}
use henka.Text.{Text}
use henka.FilePath.{FilePath, join, component_eq}
use henka.Fs.{FileSystem, IoResult, done, failed}
use henka.Lsp.{LspResult, good}
use henka.Lsp.Session.{LspSession, DocumentMessage, indexes}
use henka.Lsp.Session.Documents.{
  Outcome, and_then, session_of, overlay_read, overlay_file, overlay_files,
}
use henka.Lsp.Session.Overlay.{is_addressable, text_or, file_text, overlay_text}
use henka.Lsp.Session.Overlay.Present.{Overlaid, presented-good, presented-Overlaid}

module _ (fs : FileSystem) (st : fs.State)
    (accepts : List DocumentMessage → DocumentMessage → LspResult (Unit {0}))
    (always : (sent : List DocumentMessage) (m : DocumentMessage) → accepts sent m ≡ good tt) where
  indexes_lem :
      (s t : LspSession) (rel : FilePath) → s.langs ≡ t.langs → indexes s rel ≡ indexes t rel
  unfolding indexes
  indexes_lem s t rel h = rw h refl

  overlay_read-Overlaid :
      (s0 : LspSession) (workspace p q : FilePath) (base : Bool) (shown text : Option Text)
      (r : IoResult Text) (s : LspSession)
      → is_addressable p ≡ true
      → is_addressable q ≡ true
      → Overlaid s0 p base shown text s
      → ((overlay_read fs st accepts workspace q r s).0 ≡ good tt)
        × Overlaid s0 p base shown
            (if q == p then text_or r text else text)
            (session_of (overlay_read fs st accepts workspace q r s))
  overlay_read-Overlaid s0 workspace p q base shown text (failed e) s hp hq o =
      elim (Bool-cases (q == p)) [ inl e ↦ rw e (refl, o) | inr e ↦ rw e (refl, o) ]
  overlay_read-Overlaid s0 workspace p q base shown text (done content) s hp hq o = (
    presented-good fs st accepts always workspace q content s,
    presented-Overlaid fs st accepts always s0 workspace p q base shown text content s hp hq o,
  )

  overlay_file-Overlaid :
      (s0 : LspSession) (workspace p rel : FilePath) (base : Bool) (shown text : Option Text)
      (s : LspSession)
      → is_addressable p ≡ true
      → is_addressable (join s0.root rel) ≡ true
      → Overlaid s0 p base shown text s
      → ((overlay_file fs st accepts workspace rel s).0 ≡ good tt)
        × Overlaid s0 p base shown
            (file_text fs st s0 workspace p rel text)
            (session_of (overlay_file fs st accepts workspace rel s))
  overlay_file-Overlaid s0 workspace p rel base shown text s hp hq o =
      elim (Bool-cases (indexes s0 rel)) [
        | inl h ↦
            rw (indexes_lem s s0 rel o.spoken, h, ap (λ r. join r rel) o.rooted)
              (overlay_read-Overlaid s0 workspace p (join s0.root rel) base shown text
                (fs.read_to_string st (join workspace rel)) s hp hq o)
        | inr h ↦ rw (indexes_lem s s0 rel o.spoken, h) (refl, o)
      ]

  and_then_good :
      {A B : Type 0} (a : A) (o : Outcome A) (next : A → LspSession → Outcome B)
      → o.0 ≡ good a
      → and_then o next ≡ next a (session_of o)
  and_then_good a (r, s) next h = rw h refl

  pub overlay_files-Overlaid :
      (s0 : LspSession) (workspace p : FilePath) (delta : List FilePath) (base : Bool)
      (shown text : Option Text) (s : LspSession)
      → is_addressable p ≡ true
      → all (λ rel. is_addressable (join s0.root rel)) delta ≡ true
      → Overlaid s0 p base shown text s
      → ((overlay_files fs st accepts workspace delta s).0 ≡ good tt)
        × Overlaid s0 p base shown
            (overlay_text fs st s0 workspace p delta text)
            (session_of (overlay_files fs st accepts workspace delta s))
  unfolding overlay_files overlay_text
  overlay_files-Overlaid s0 workspace p [] base shown text s hp hd o = (refl, o)
  overlay_files-Overlaid s0 workspace p (rel ∷ delta) base shown text s hp hd o =
      let (fine, one) =
        overlay_file-Overlaid s0 workspace p rel base shown text s hp (ground (arith, hd)) o in
      rw
        (and_then_good tt (overlay_file fs st accepts workspace rel s)
          (λ u s'. overlay_files fs st accepts workspace delta s') fine)
        (overlay_files-Overlaid s0 workspace p delta base shown
          (file_text fs st s0 workspace p rel text)
          (session_of (overlay_file fs st accepts workspace rel s)) hp (ground (arith, hd)) one)

-- Before an overlay: a document that is open has the text of its file, and another one has none.
abbrev pub SyncedWith : Bool → IoResult Text → Option Text → Type 0
SyncedWith true (failed e) text = ⊥
SyncedWith true (done content) text = text ≡ some content
SyncedWith false r text = text ≡ none
