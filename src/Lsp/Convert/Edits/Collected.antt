-- ===== src/Lsp/Convert/Edits/Collected.antt =====
-- No edit of a response is lost: a document has all of its edits, in their order.
use henka.Common.{
  ◌≡◌, refl, ap, sym, ◌∙◌, Bool, true, false, ◌||◌, List, [], ◌∷◌, ◌++◌, append-nil, append_assoc,
  Option, none, some, arith, ◌==◌, nat_eq, list_eq, if◌then◌else◌, Bool-cases, inl, inr, eq_of_beq,
}
use henka.Common.BTreeMap.{BTreeMap, lookup, lookup-insert}
use henka.Text.{Text}
use henka.Text.Search.{text_ord}
use henka.Edit.{TextEdit}
use henka.Lsp.Convert.{LspDocumentChange, document_edits, resource, LspWorkspaceEdit}
use henka.Lsp.Convert.Edits.{
  or_default, extended, add_changes, add_document_changes, or_no_list, by_uri_of,
}

-- The edits that a response has for a URI, and whether it names the URI for edits at all.
abbrev pub changed_in : Text → List (Text × List TextEdit) → List TextEdit
changed_in uri [] = []
changed_in uri ((u, edits) ∷ changes) =
    if u == uri then edits ++ changed_in uri changes else changed_in uri changes

abbrev pub edited_in : Text → List LspDocumentChange → List TextEdit
edited_in uri [] = []
edited_in uri (document_edits u edits ∷ changes) =
    if u == uri then edits ++ edited_in uri changes else edited_in uri changes
edited_in uri (resource _ _ _ _ ∷ changes) = edited_in uri changes

abbrev pub names_uri : Text → List LspDocumentChange → Bool
names_uri uri [] = false
names_uri uri (document_edits u edits ∷ changes) = if u == uri then true else names_uri uri changes
names_uri uri (resource _ _ _ _ ∷ changes) = names_uri uri changes

abbrev pub has_uri : Text → List (Text × List TextEdit) → Bool
has_uri uri [] = false
has_uri uri ((u, edits) ∷ changes) = if u == uri then true else has_uri uri changes

-- What stands behind `old` once `edits` were added, if the response names the URI.
abbrev grown : Bool → List TextEdit → Option (List TextEdit) → Option (List TextEdit)
grown false edits old = old
grown true edits old = some (or_default old ++ edits)

lookup-extended :
    (uri u : Text) (edits : List TextEdit) (by_uri : BTreeMap Text (List TextEdit))
    → lookup uri (extended u edits by_uri)
      ≡ (if u == uri then some (or_default (lookup uri by_uri) ++ edits) else lookup uri by_uri)
lookup-extended uri u edits by_uri =
    lookup-insert u uri (or_default (lookup u by_uri) ++ edits) by_uri ∙ same
  where
    same :
        (if u == uri then some (or_default (lookup u by_uri) ++ edits) else lookup uri by_uri)
        ≡ (if u == uri then some (or_default (lookup uri by_uri) ++ edits) else lookup uri by_uri)
    same = elim (Bool-cases (u == uri)) [
      | inl e ↦ rw e (ap (λ x. some (or_default (lookup x by_uri) ++ edits)) (eq_of_beq u uri e))
      | inr e ↦ rw e refl
    ]

-- Two steps of growth are one.
grown_again :
    (again : Bool) (edits more : List TextEdit) (old : Option (List TextEdit))
    → (again ≡ false → more ≡ [])
    → grown again more (some (or_default old ++ edits)) ≡ some (or_default old ++ (edits ++ more))
grown_again true edits more old h = ap some (append_assoc (or_default old) edits more)
grown_again false edits more old h =
    ap (λ m. some (or_default old ++ m))
      (sym (append-nil edits) ∙ ap (λ m. edits ++ m) (sym (h refl)))

changed_in_none :
    (uri : Text) (changes : List (Text × List TextEdit))
    → has_uri uri changes ≡ false
    → changed_in uri changes ≡ []
changed_in_none uri [] h = refl
changed_in_none uri ((u, edits) ∷ changes) h = ground (arith, changed_in_none uri changes)

edited_in_none :
    (uri : Text) (changes : List LspDocumentChange)
    → names_uri uri changes ≡ false
    → edited_in uri changes ≡ []
edited_in_none uri [] h = refl
edited_in_none uri (document_edits u edits ∷ changes) h = ground (arith, edited_in_none uri changes)
edited_in_none uri (resource _ _ _ _ ∷ changes) h = edited_in_none uri changes h

lookup-add_changes :
    (uri : Text) (changes : List (Text × List TextEdit)) (by_uri : BTreeMap Text (List TextEdit))
    → lookup uri (add_changes changes by_uri)
      ≡ grown (has_uri uri changes) (changed_in uri changes) (lookup uri by_uri)
unfolding add_changes
lookup-add_changes uri [] by_uri = refl
lookup-add_changes uri ((u, edits) ∷ changes) by_uri =
    let rest = lookup-add_changes uri changes (extended u edits by_uri) in
    let one = lookup-extended uri u edits by_uri in
    elim (Bool-cases (u == uri)) [
      | inl e ↦ rw e (
          rest
          ∙ ap (grown (has_uri uri changes) (changed_in uri changes)) (one ∙ rw e refl)
          ∙ grown_again (has_uri uri changes) edits (changed_in uri changes) (lookup uri by_uri)
              (changed_in_none uri changes))
      | inr e ↦
          rw e (rest ∙ ap (grown (has_uri uri changes) (changed_in uri changes)) (one ∙ rw e refl))
    ]

lookup-add_document_changes :
    (uri : Text) (changes : List LspDocumentChange) (by_uri : BTreeMap Text (List TextEdit))
    → lookup uri (add_document_changes changes by_uri)
      ≡ grown (names_uri uri changes) (edited_in uri changes) (lookup uri by_uri)
unfolding add_document_changes
lookup-add_document_changes uri [] by_uri = refl
lookup-add_document_changes uri (resource _ _ _ _ ∷ changes) by_uri =
    lookup-add_document_changes uri changes by_uri
lookup-add_document_changes uri (document_edits u edits ∷ changes) by_uri =
    let rest = lookup-add_document_changes uri changes (extended u edits by_uri) in
    let one = lookup-extended uri u edits by_uri in
    elim (Bool-cases (u == uri)) [
      | inl e ↦ rw e (
          rest
          ∙ ap (grown (names_uri uri changes) (edited_in uri changes)) (one ∙ rw e refl)
          ∙ grown_again (names_uri uri changes) edits (edited_in uri changes) (lookup uri by_uri)
              (edited_in_none uri changes))
      | inr e ↦
          rw e (rest ∙ ap (grown (names_uri uri changes) (edited_in uri changes)) (one ∙ rw e refl))
    ]

grown_both :
    (a b : Bool) (xs ys : List TextEdit)
    → (a ≡ false → xs ≡ [])
    → (b ≡ false → ys ≡ [])
    → grown b ys (grown a xs none) ≡ (if a || b then some (xs ++ ys) else none)
grown_both true true xs ys h k = refl
grown_both true false xs ys h k = ap some (sym (append-nil xs) ∙ ap (λ m. xs ++ m) (sym (k refl)))
grown_both false true xs ys h k = ap (λ m. some (m ++ ys)) (sym (h refl))
grown_both false false xs ys h k = refl

-- The edits of a URI are those under `changes` and then those of every entry of `documentChanges`
-- that names it, in their order and each one once; a URI that neither names has no entry.
pub lookup-by_uri_of :
    (edit : LspWorkspaceEdit) (uri : Text)
    → lookup uri (by_uri_of edit) ≡ (
        if has_uri uri (or_no_list edit.changes) || names_uri uri (or_no_list edit.document_changes)
        then some (
            changed_in uri (or_no_list edit.changes)
            ++ edited_in uri (or_no_list edit.document_changes))
        else none)
unfolding by_uri_of lookup
lookup-by_uri_of edit uri =
    let changes = or_no_list edit.changes in
    let document_changes = or_no_list edit.document_changes in
    lookup-add_document_changes uri document_changes (add_changes changes [])
    ∙ ap (grown (names_uri uri document_changes) (edited_in uri document_changes))
        (lookup-add_changes uri changes [])
    ∙ grown_both (has_uri uri changes) (names_uri uri document_changes) (changed_in uri changes)
        (edited_in uri document_changes) (changed_in_none uri changes)
        (edited_in_none uri document_changes)
