-- ===== src/Server/Finish/Safe.antt =====
-- What an edit request can do to the file system.
use henka.Common.{List, Option, ◌≡◌, refl, Bool, true, inl, inr, Bool-cases}
use henka.Text.{Text}
use henka.FilePath.{FilePath}
use henka.Error.{Error, Result, ok, err, panic}
use henka.Fs.{FileSystem}
use henka.Edit.{WorkspaceEdit}
use henka.Edit.Plan.{Display, FileDiff, preview}
use henka.Edit.Apply.{apply}
use henka.Edit.Apply.Confined.{Survives, apply-Survives}
use henka.Server.Confine.{edits_inside, edits_inside-files}
use henka.Server.Finish.{
  SessionApi, ActedOn, retargeted, preview_reply, apply_reply, preview_edit, apply_edit,
  finish_edit,
}

module _ (fs : FileSystem) (api : SessionApi) (d : Display) (message : Error → Text)
    (revision : fs.State → FilePath → Option Text) where
  preview_reply-keeps :
      (a : ActedOn) (st : fs.State × api.Session) (r : Result (List FileDiff))
      → (preview_reply fs api d message revision a st r).1 ≡ st
  unfolding preview_reply
  preview_reply-keeps a st (ok files) = refl
  preview_reply-keeps a st (err e) = refl
  preview_reply-keeps a st panic = refl

  preview_edit-keeps :
      (edit : WorkspaceEdit) (a : ActedOn) (s : fs.State) (session : api.Session)
      → (preview_edit fs api d message revision edit a (s, session)).1 ≡ (s, session)
  unfolding preview_edit
  preview_edit-keeps edit a s session =
      preview_reply-keeps a (s, session) (preview d fs edit a.workspace s)

  apply_reply-store :
      (a : ActedOn) (s : fs.State) (session : api.Session) (r : Result (List FilePath))
      → (apply_reply fs api d message revision a s session r).1.0 ≡ s
  unfolding apply_reply
  apply_reply-store a s session (ok changed) = refl
  apply_reply-store a s session (err e) = refl
  apply_reply-store a s session panic = refl

  apply_edit-store :
      (edit : WorkspaceEdit) (a : ActedOn) (s : fs.State) (session : api.Session)
      → (apply_edit fs api d message revision edit a (s, session)).1.0
        ≡ (apply fs edit a.workspace s).1
  unfolding apply_edit
  apply_edit-store edit a s session =
      let (r, s') = apply fs edit a.workspace s in apply_reply-store a s' session r

  -- A dry run leaves the file system and the session as they were, whatever comes of it.
  pub finish_edit-dry_run :
      (edit : WorkspaceEdit) (workspace : FilePath) (s : fs.State) (session : api.Session)
      → (finish_edit fs api d message revision edit true workspace (s, session)).1 ≡ (s, session)
  unfolding finish_edit
  finish_edit-dry_run edit workspace s session =
      let edit' = retargeted (api.root session) edit workspace in
      let a : ActedOn = record { workspace = workspace; revision = revision s workspace } in
      elim (Bool-cases (edits_inside edit' workspace)) [
        | inr out ↦ rw out refl
        | inl fit ↦ rw fit (preview_edit-keeps edit' a s session)
      ]

  -- What survives every file operation at a path under the working copy survives an edit request,
  -- whether the edit is previewed, applied or refused, or fails half way.
  pub finish_edit-Survives :
      (edit : WorkspaceEdit) (dry_run : Bool) (workspace : FilePath) (s : fs.State)
      (session : api.Session) (I : fs.State → Type 0)
      → Survives fs workspace I
      → I s
      → I (finish_edit fs api d message revision edit dry_run workspace (s, session)).1.0
  unfolding finish_edit
  finish_edit-Survives edit dry_run workspace s session I safe i =
      let edit' = retargeted (api.root session) edit workspace in
      let a : ActedOn = record { workspace = workspace; revision = revision s workspace } in
      elim (Bool-cases (edits_inside edit' workspace)) [
        | inr out ↦ rw out i
        | inl fit ↦
            let (uf, uo) = edits_inside-files edit' workspace fit in
            elim (Bool-cases dry_run) [
              | inl dry ↦ rw (fit, dry) (rw (preview_edit-keeps edit' a s session) i)
              | inr wet ↦
                  rw (fit, wet)
                    (rw (apply_edit-store edit' a s session)
                      (apply-Survives fs workspace I safe edit' uf uo s i))
            ]
      ]
