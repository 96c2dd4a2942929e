-- ===== src/Lsp/Session/Overlay/Restore.antt =====
-- What `restore_overlay` leaves behind, for one document, and the overlay from its beginning to
-- its end.
use henka.Common.{
  ◌+◌, ◌%◌, ◌≡◌, ◌⊎◌, refl, ap, sym, ◌∙◌, Bool, true, false, not, all, ◌&&◌, ◌||◌, List, [], ◌∷◌,
  Option, none, arith, ◌==◌, nat_eq, list_eq, if◌then◌else◌, Bool-cases, inl, inr, eq_of_beq,
}
use henka.Text.{Text}
use henka.FilePath.{FilePath, component_eq}
use henka.Fs.{FileSystem, IoResult, done, failed}
use henka.Lsp.{LspResult, good}
use henka.Lsp.Uri.{path_to_file_uri}
use henka.Lsp.Session.{LspSession, DocumentMessage, did_change, did_close, contains, remove}
use henka.Lsp.Session.Documents.{
  tell, did_change_full, change_back, change_back_read, close_back, close_one, restore_overlay,
  u32_mod,
}
use henka.Lsp.Session.Overlay.{
  server_text, is_addressable, path_to_file_uri_beq, contains-remove, text_or,
}
use henka.Lsp.Session.Overlay.Present.{Overlaid}
use henka.Lsp.Session.Overlay.Files.{SyncedWith}

text_or_twice :
    (again : Bool) (r : IoResult Text) (old : Option Text)
    → (if again then text_or r (text_or r old) else text_or r old) ≡ text_or r old
text_or_twice true (failed e) old = refl
text_or_twice true (done text) old = refl
text_or_twice false r old = refl

-- What the two loops make of the text is the text before the overlay.
text_back :
    (base changed opened : Bool) (r : IoResult Text) (shown text : Option Text)
    → (base && opened) ≡ false
    → (changed && not (base || opened)) ≡ false
    → (changed || opened ≡ true) ⊎ (text ≡ shown)
    → SyncedWith base r shown
    → (if opened then none else (if changed then text_or r text else text)) ≡ shown
text_back true c true r shown text a b k h = ground (arith, a)
text_back true true false (failed e) shown text a b k h = absurd h
text_back true true false (done t) shown text a b k h = sym h
text_back true false false r shown text a b (inl k) h = ground (arith, k)
text_back true false false r shown text a b (inr k) h = k
text_back false c true r shown text a b k h = sym h
text_back false true false r shown text a b k h = ground (arith, b)
text_back false false false r shown text a b (inl k) h = ground (arith, k)
text_back false false false r shown text a b (inr k) h = k

open_back :
    (base opened : Bool)
    → (base && opened) ≡ false
    → (if opened then false else (base || opened)) ≡ base
open_back true true a = ground (arith, a)
open_back true false a = refl
open_back false true a = refl
open_back false false a = refl

module _ (fs : FileSystem) (st : fs.State)
    (accepts : List DocumentMessage → DocumentMessage → LspResult (Unit {0}))
    (always : (sent : List DocumentMessage) (m : DocumentMessage) → accepts sent m ≡ good tt) where
  change_back_read_text :
      (p q : FilePath) (r : IoResult Text) (s : LspSession)
      → is_addressable p ≡ true
      → is_addressable q ≡ true
      → server_text (path_to_file_uri p) (change_back_read fs st accepts q r s).sent ≡ (
          if q == p
          then text_or r (server_text (path_to_file_uri p) s.sent)
          else server_text (path_to_file_uri p) s.sent)
  unfolding did_change_full tell server_text
  change_back_read_text p q (failed e) s hp hq = ground arith
  change_back_read_text p q (done content) s hp hq =
      rw
        (
          always s.sent (did_change (path_to_file_uri q) ((s.doc_version + 1) % u32_mod) content),
          path_to_file_uri_beq p q hp hq,
        )
        refl

  change_back_read_opened :
      (q : FilePath) (r : IoResult Text) (s : LspSession)
      → (change_back_read fs st accepts q r s).opened ≡ s.opened
  unfolding did_change_full tell
  change_back_read_opened q (failed e) s = refl
  change_back_read_opened q (done content) s =
      rw (always s.sent (did_change (path_to_file_uri q) ((s.doc_version + 1) % u32_mod) content))
        refl

  -- A document that the loop comes to, once or more often, has the text of its file, if that can
  -- be read.
  change_back_text :
      (p : FilePath) (paths : List FilePath) (s : LspSession)
      → is_addressable p ≡ true
      → all is_addressable paths ≡ true
      → server_text (path_to_file_uri p) (change_back fs st accepts paths s).sent ≡ (
          if contains p paths
          then text_or (fs.read_to_string st p) (server_text (path_to_file_uri p) s.sent)
          else server_text (path_to_file_uri p) s.sent)
  unfolding change_back
  change_back_text p [] s hp h = refl
  change_back_text p (q ∷ paths) s hp h =
      let old = server_text (path_to_file_uri p) s.sent in
      let first = change_back_read_text p q (fs.read_to_string st q) s hp (ground (arith, h)) in
      let others =
        change_back_text p paths (change_back_read fs st accepts q (fs.read_to_string st q) s) hp
          (ground (arith, h)) in
      let turn : Option Text → Option Text =
        λ x. if contains p paths then text_or (fs.read_to_string st p) x else x in
      elim (Bool-cases (q == p)) [
        | inl e ↦ rw e (
            others
            ∙ ap turn (
                first
                ∙ ap (λ b. if b then text_or (fs.read_to_string st q) old else old) e
                ∙ ap (λ x. text_or (fs.read_to_string st x) old) (eq_of_beq q p e))
            ∙ text_or_twice (contains p paths) (fs.read_to_string st p) old)
        | inr e ↦ rw e (
            others
            ∙ ap turn (first ∙ ap (λ b. if b then text_or (fs.read_to_string st q) old else old) e))
      ]

  change_back_opened :
      (paths : List FilePath) (s : LspSession)
      → (change_back fs st accepts paths s).opened ≡ s.opened
  unfolding change_back
  change_back_opened [] s = refl
  change_back_opened (q ∷ paths) s =
      change_back_opened paths (change_back_read fs st accepts q (fs.read_to_string st q) s)
      ∙ change_back_read_opened q (fs.read_to_string st q) s

  close_one_text :
      (p q : FilePath) (s : LspSession)
      → is_addressable p ≡ true
      → is_addressable q ≡ true
      → server_text (path_to_file_uri p) (close_one fs st accepts q s).sent
        ≡ (if q == p then none else server_text (path_to_file_uri p) s.sent)
  unfolding tell server_text
  close_one_text p q s hp hq =
      rw (always s.sent (did_close (path_to_file_uri q)), path_to_file_uri_beq p q hp hq) refl

  close_one_opened :
      (q : FilePath) (s : LspSession) → (close_one fs st accepts q s).opened ≡ remove q s.opened
  unfolding tell
  close_one_opened q s = rw (always s.sent (did_close (path_to_file_uri q))) refl

  close_back_text :
      (p : FilePath) (paths : List FilePath) (s : LspSession)
      → is_addressable p ≡ true
      → all is_addressable paths ≡ true
      → server_text (path_to_file_uri p) (close_back fs st accepts paths s).sent
        ≡ (if contains p paths then none else server_text (path_to_file_uri p) s.sent)
  unfolding close_back
  close_back_text p [] s hp h = refl
  close_back_text p (q ∷ paths) s hp h =
      ground (
        arith,
        close_back_text p paths (close_one fs st accepts q s) hp,
        close_one_text p q s hp,
        h,
      )

  close_back_opened :
      (p : FilePath) (paths : List FilePath) (s : LspSession)
      → contains p (close_back fs st accepts paths s).opened
        ≡ (if contains p paths then false else contains p s.opened)
  unfolding close_back
  close_back_opened p [] s = refl
  close_back_opened p (q ∷ paths) s =
      close_back_opened p paths (close_one fs st accepts q s)
      ∙ ap (λ o. if contains p paths then false else contains p o) (close_one_opened q s)
      ∙ ap (λ b. if contains p paths then false else b) (contains-remove p q s.opened)
      ∙ ground arith

  pub restore_overlay-Overlaid :
      (s0 s : LspSession) (p : FilePath) (base : Bool) (shown text : Option Text)
      → is_addressable p ≡ true
      → Overlaid s0 p base shown text s
      → SyncedWith base (fs.read_to_string st p) shown
      → (server_text (path_to_file_uri p) (restore_overlay fs st accepts s).sent ≡ shown)
        × (contains p (restore_overlay fs st accepts s).opened ≡ base)
  unfolding restore_overlay
  restore_overlay-Overlaid s0 s p base shown text hp o h =
      let cleared = record s { overlay_root = none; changed = []; overlaid = [] } in
      let r = fs.read_to_string st p in
      (
        close_back_text p s.overlaid (change_back fs st accepts s.changed cleared) hp
              o.overlaid_addressable
            ∙ ap (λ x. if contains p s.overlaid then none else x)
                (change_back_text p s.changed cleared hp o.changed_addressable
                  ∙ ap (λ x. if contains p s.changed then text_or r x else x) o.current)
            ∙ text_back base (contains p s.changed) (contains p s.overlaid) r shown text o.apart
                o.changed_open o.kept h,
        close_back_opened p s.overlaid (change_back fs st accepts s.changed cleared)
            ∙ ap (λ x. if contains p s.overlaid then false else contains p x)
                (change_back_opened s.changed cleared)
            ∙ ap (λ x. if contains p s.overlaid then false else x) o.is_open
            ∙ open_back base (contains p s.overlaid) o.apart,
      )

  pub before :
      (s : LspSession) (p : FilePath)
      → s.changed ≡ []
      → s.overlaid ≡ []
      → Overlaid s p
          (contains p s.opened)
          (server_text (path_to_file_uri p) s.sent)
          (server_text (path_to_file_uri p) s.sent)
          s
  before s p c w = record {
    rooted = refl;
    spoken = refl;
    is_open = ground (arith, ap (contains p) w);
    apart = ground (arith, ap (contains p) w);
    changed_open = ground (arith, ap (contains p) c);
    current = refl;
    kept = inr refl;
    changed_addressable = ap (all is_addressable) c;
    overlaid_addressable = ap (all is_addressable) w;
  }
