-- ===== src/Lsp/Session/Overlay.antt =====
-- The documents as the server has them: what it was told last of each.
pub mod Files
pub mod Present
pub mod Restore
pub mod RoundTrip
use henka.Common.{
  ℕ, ◌≡◌, refl, ap, sym, ◌∙◌, Bool, true, false, ◌&&◌, ◌||◌, List, [], ◌∷◌, Option, none, some,
  arith, ◌==◌, nat_eq, list_eq, if◌then◌else◌, Bool-cases, inl, inr, Eq, beq_refl, eq_of_beq,
  list_beq_iff,
}
use henka.Text.{Text}
use henka.FilePath.{FilePath, join, component_eq, display}
use henka.Fs.{FileSystem, IoResult, done, failed}
use henka.Lsp.Uri.{path_to_file_uri, uri_to_path}
use henka.Lsp.Uri.RoundTrip.{is_plain_absolute, has_no_percent, uri_to_path-path_to_file_uri}
use henka.Lsp.Session.{
  LspSession, DocumentMessage, indexes, did_open, did_change, did_close, did_change_watched_files,
  contains, insert, remove,
}

-- The text of a document that is open.
unfoldable pub server_text : Text → List DocumentMessage → Option Text
server_text uri [] = none
server_text uri (did_open u _ text ∷ sent) = if u == uri then some text else server_text uri sent
server_text uri (did_change u _ text ∷ sent) = if u == uri then some text else server_text uri sent
server_text uri (did_close u ∷ sent) = if u == uri then none else server_text uri sent
server_text uri (did_change_watched_files _ ∷ sent) = server_text uri sent

-- A path that its URI names alone: no percent sign is in it.
abbrev pub is_addressable : FilePath → Bool
is_addressable p = is_plain_absolute p && has_no_percent (display p)

pub path_to_file_uri_beq :
    (p q : FilePath)
    → is_addressable p ≡ true
    → is_addressable q ≡ true
    → (path_to_file_uri q == path_to_file_uri p) ≡ (q == p)
path_to_file_uri_beq p q hp hq = elim (Bool-cases (q == p)) [
  | inl e ↦ rw (eq_of_beq q p e) (beq_refl (path_to_file_uri p) ∙ sym (beq_refl p))
  | inr e ↦ elim (Bool-cases (path_to_file_uri q == path_to_file_uri p)) [
    | inl u ↦
        let same : q ≡ p =
          sym (uri_to_path-path_to_file_uri q (ground (arith, hq)) (ground (arith, hq)))
          ∙ ap uri_to_path (eq_of_beq (path_to_file_uri q) (path_to_file_uri p) u)
          ∙ uri_to_path-path_to_file_uri p (ground (arith, hp)) (ground (arith, hp)) in
        ground (arith, list_beq_iff q p)
    | inr u ↦ u ∙ sym e
  ]
]

module _ {ℓ} {A : Type ℓ} ⦃e : Eq A⦄ where
  pub contains-insert :
      (a b : A) (set : List A) → contains a (insert b set) ≡ (b == a || contains a set)
  unfolding insert
  contains-insert a b set = elim (Bool-cases (contains b set)) [
    | inl h ↦ elim (Bool-cases (b == a)) [
      | inl q ↦ rw (h, q) (ap (λ x. contains x set) (sym (eq_of_beq b a q)) ∙ h)
      | inr q ↦ rw (h, q) refl
    ]
    | inr h ↦ rw h (ground arith)
  ]

  pub contains-remove :
      (a b : A) (set : List A)
      → contains a (remove b set) ≡ (if b == a then false else contains a set)
  unfolding remove
  contains-remove a b [] = ground arith
  contains-remove a b (c ∷ set) =
      ground (arith, contains-remove a b set, e.beq_iff c b, e.beq_iff c a, e.beq_iff b a)

-- What a file that can be read puts in the place of a text.
abbrev pub text_or : IoResult Text → Option Text → Option Text
text_or (failed e) old = old
text_or (done text) old = some text

module _ (fs : FileSystem) (st : fs.State) where
  -- The text of `p` behind one file of the delta.
  abbrev pub file_text : LspSession → FilePath → FilePath → FilePath → Option Text → Option Text
  file_text s workspace p rel text =
      if indexes s rel && join s.root rel == p
      then text_or (fs.read_to_string st (join workspace rel)) text
      else text

  -- The text of `p` behind the whole delta: that of the last file of it which stands for `p`.
  unfoldable pub overlay_text :
      LspSession → FilePath → FilePath → List FilePath → Option Text → Option Text
  overlay_text s workspace p [] text = text
  overlay_text s workspace p (rel ∷ delta) text =
      overlay_text s workspace p delta (file_text s workspace p rel text)
