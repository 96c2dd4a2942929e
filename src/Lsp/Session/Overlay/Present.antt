-- ===== src/Lsp/Session/Overlay/Present.antt =====
-- One file of the delta is presented: what that leaves behind, for one document.
use henka.Common.{
  ◌+◌, ◌%◌, ◌≡◌, ◌⊎◌, refl, ap, sym, ◌∙◌, Bool, true, false, not, all, ◌&&◌, ◌||◌, List, ◌∷◌,
  Option, some, arith, ◌==◌, nat_eq, list_eq, if◌then◌else◌, Bool-cases, inl, inr, eq_of_beq,
}
use henka.Text.{Text}
use henka.FilePath.{FilePath, component_eq}
use henka.Fs.{FileSystem}
use henka.Lsp.{LspResult, good}
use henka.Lsp.Uri.{path_to_file_uri}
use henka.Lsp.Session.{
  LspSession, DocumentMessage, did_open, did_change, contains, insert, language_id_for,
}
use henka.Lsp.Session.Documents.{session_of, tell, did_change_full, present, presented, u32_mod}
use henka.Lsp.Session.Overlay.{server_text, is_addressable, path_to_file_uri_beq, contains-insert}

-- The document of `p`, which was open (`base`) and had the text `shown` before the overlay, and has
-- the text `text` now.
pub record Overlaid (s0 : LspSession) (p : FilePath) (base : Bool) (shown text : Option Text)
    (s : LspSession) : Type 0 where
  pub rooted : s.root ≡ s0.root
  pub spoken : s.langs ≡ s0.langs
  pub is_open : contains p s.opened ≡ (base || contains p s.overlaid)
  pub apart : (base && contains p s.overlaid) ≡ false
  pub changed_open : (contains p s.changed && not (base || contains p s.overlaid)) ≡ false
  pub current : server_text (path_to_file_uri p) s.sent ≡ text
  pub kept : (contains p s.changed || contains p s.overlaid ≡ true) ⊎ (text ≡ shown)
  pub changed_addressable : all is_addressable s.changed ≡ true
  pub overlaid_addressable : all is_addressable s.overlaid ≡ true

all-insert :
    (q : FilePath) (set : List FilePath)
    → is_addressable q ≡ true
    → all is_addressable set ≡ true
    → all is_addressable (insert q set) ≡ true
unfolding insert
all-insert q set h k = elim (Bool-cases (contains q set)) [
  | inl e ↦ rw e k
  | inr e ↦ rw e (ground (arith, h, k))
]

module _ (fs : FileSystem) (st : fs.State)
    (accepts : List DocumentMessage → DocumentMessage → LspResult (Unit {0}))
    (always : (sent : List DocumentMessage) (m : DocumentMessage) → accepts sent m ≡ good tt) where
  tell_lem :
      (m : DocumentMessage) (s : LspSession)
      → tell fs st accepts m s ≡ (good tt, record s { sent = m ∷ s.sent })
  unfolding tell
  tell_lem m s = rw (always s.sent m) refl

  changed_of : FilePath → Text → LspSession → LspSession
  changed_of q content s =
      let version = (s.doc_version + 1) % u32_mod in
      record s {
        doc_version = version;
        changed = insert q s.changed;
        sent = did_change (path_to_file_uri q) version content ∷ s.sent;
      }

  opened_of : FilePath → Text → LspSession → LspSession
  opened_of q content s = record s {
    opened = insert q s.opened;
    overlaid = insert q s.overlaid;
    sent = did_open (path_to_file_uri q) (language_id_for s q) content ∷ s.sent;
  }

  present_open :
      (q : FilePath) (content : Text) (s : LspSession)
      → contains q s.opened ≡ true
      → present fs st accepts q content s ≡ (good tt, changed_of q content s)
  unfolding did_change_full tell changed_of
  present_open q content s h =
      rw
        (h, always s.sent (did_change (path_to_file_uri q) ((s.doc_version + 1) % u32_mod) content))
        refl

  present_shut :
      (q : FilePath) (content : Text) (s : LspSession)
      → contains q s.opened ≡ false
      → present fs st accepts q content s ≡ (good tt, opened_of q content s)
  unfolding tell opened_of
  present_shut q content s h =
      rw (h, always s.sent (did_open (path_to_file_uri q) (language_id_for s q) content)) refl

  -- The text that `p` has once `content` was presented for `q`.
  abbrev text_of : FilePath → FilePath → Text → Option Text → Option Text
  text_of p q content text = if q == p then some content else text

  -- The two marks of an overlay have no part in it.
  marked :
      {s0 : LspSession} {p : FilePath} {base : Bool} {shown text : Option Text} {s : LspSession}
      {workspace : FilePath}
      → Overlaid s0 p base shown text s
      → Overlaid s0 p base shown text
          (record s { overlay_dirty = true; overlay_root = some workspace })
  marked o = record {
    rooted = o.rooted;
    spoken = o.spoken;
    is_open = o.is_open;
    apart = o.apart;
    changed_open = o.changed_open;
    current = o.current;
    kept = o.kept;
    changed_addressable = o.changed_addressable;
    overlaid_addressable = o.overlaid_addressable;
  }

  changed_of-Overlaid :
      (s0 : LspSession) (p q : FilePath) (base : Bool) (shown text : Option Text) (content : Text)
      (s : LspSession)
      → is_addressable p ≡ true
      → is_addressable q ≡ true
      → contains q s.opened ≡ true
      → Overlaid s0 p base shown text s
      → Overlaid s0 p base shown (text_of p q content text) (changed_of q content s)
  unfolding changed_of server_text
  changed_of-Overlaid s0 p q base shown text content s hp hq h o =
      let named = path_to_file_uri_beq p q hp hq in
      let grown = contains-insert p q s.changed in
      elim (Bool-cases (q == p)) [
        | inl e ↦ record {
          rooted = o.rooted;
          spoken = o.spoken;
          is_open = o.is_open;
          apart = o.apart;
          changed_open =
              let full : (base || contains p s.overlaid) ≡ true =
                sym o.is_open ∙ ap (λ x. contains x s.opened) (sym (eq_of_beq q p e)) ∙ h in
              rw full (ground arith);
          current = rw (named, e) refl;
          kept = inl (rw (grown, e) refl);
          changed_addressable = all-insert q s.changed hq o.changed_addressable;
          overlaid_addressable = o.overlaid_addressable;
        }
        | inr e ↦ record {
          rooted = o.rooted;
          spoken = o.spoken;
          is_open = o.is_open;
          apart = o.apart;
          changed_open = rw (grown, e) o.changed_open;
          current = rw (named, e) o.current;
          kept = rw (grown, e) o.kept;
          changed_addressable = all-insert q s.changed hq o.changed_addressable;
          overlaid_addressable = o.overlaid_addressable;
        }
      ]

  opened_of-Overlaid :
      (s0 : LspSession) (p q : FilePath) (base : Bool) (shown text : Option Text) (content : Text)
      (s : LspSession)
      → is_addressable p ≡ true
      → is_addressable q ≡ true
      → contains q s.opened ≡ false
      → Overlaid s0 p base shown text s
      → Overlaid s0 p base shown (text_of p q content text) (opened_of q content s)
  unfolding opened_of server_text
  opened_of-Overlaid s0 p q base shown text content s hp hq h o =
      let named = path_to_file_uri_beq p q hp hq in
      let opens = contains-insert p q s.opened in
      let grown = contains-insert p q s.overlaid in
      elim (Bool-cases (q == p)) [
        | inl e ↦
            let shut : (base || contains p s.overlaid) ≡ false =
              sym o.is_open ∙ ap (λ x. contains x s.opened) (sym (eq_of_beq q p e)) ∙ h in
            record {
              rooted = o.rooted;
              spoken = o.spoken;
              is_open = rw (opens, grown, e) (ground arith);
              apart = ground (arith, shut);
              changed_open = rw (grown, e) (ground arith);
              current = rw (named, e) refl;
              kept = inl (rw (grown, e) (ground arith));
              changed_addressable = o.changed_addressable;
              overlaid_addressable = all-insert q s.overlaid hq o.overlaid_addressable;
            }
        | inr e ↦ record {
          rooted = o.rooted;
          spoken = o.spoken;
          is_open = rw (opens, grown, e) o.is_open;
          apart = rw (grown, e) o.apart;
          changed_open = rw (grown, e) o.changed_open;
          current = rw (named, e) o.current;
          kept = rw (grown, e) o.kept;
          changed_addressable = o.changed_addressable;
          overlaid_addressable = all-insert q s.overlaid hq o.overlaid_addressable;
        }
      ]

  pub presented-Overlaid :
      (s0 : LspSession) (workspace p q : FilePath) (base : Bool) (shown text : Option Text)
      (content : Text) (s : LspSession)
      → is_addressable p ≡ true
      → is_addressable q ≡ true
      → Overlaid s0 p base shown text s
      → Overlaid s0 p base shown
          (text_of p q content text)
          (session_of (presented fs st accepts workspace q content s))
  presented-Overlaid s0 workspace p q base shown text content s hp hq o =
      elim (Bool-cases (contains q s.opened)) [
        | inl h ↦
            rw (present_open q content s h)
              (marked (changed_of-Overlaid s0 p q base shown text content s hp hq h o))
        | inr h ↦
            rw (present_shut q content s h)
              (marked (opened_of-Overlaid s0 p q base shown text content s hp hq h o))
      ]

  pub presented-good :
      (workspace q : FilePath) (content : Text) (s : LspSession)
      → (presented fs st accepts workspace q content s).0 ≡ good tt
  presented-good workspace q content s = elim (Bool-cases (contains q s.opened)) [
    | inl h ↦ rw (present_open q content s h) refl
    | inr h ↦ rw (present_shut q content s h) refl
  ]
