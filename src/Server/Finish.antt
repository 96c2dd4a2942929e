-- ===== src/Server/Finish.antt =====
-- `finish_edit` of crates/henka-server/src/mcp.rs: the edit is retargeted onto the working copy,
-- refused if it would leave it, and previewed or applied.
pub mod Safe
use henka.Common.{
  Bool, true, false, List, [], ◌∷◌, Option, none, some, ◌==◌, list_eq, option_eq, nat_eq,
  if◌then◌else◌,
}
use henka.Text.{Text, codes}
use henka.FilePath.{FilePath, component_eq}
use henka.Error.{Error, Result, ok, err, panic}
use henka.Fs.{FileSystem}
use henka.Edit.{WorkspaceEdit, retarget}
use henka.Edit.Plan.{Display, FileDiff, preview}
use henka.Edit.Apply.{apply}
use henka.Server.Confine.{edits_inside}
use henka.Server.Mcp.{McpError, invalid_params, Reply, answer, refuse, abort, map_err}

-- What `finish_edit` asks of the language session that it is given.
pub record SessionApi : Type 1 where
  pub Session : Type 0
  pub root : Session → Option FilePath
  pub sync_changed : Session → List FilePath → Session

-- The working copy that was acted on, and the revision it holds.
pub record ActedOn : Type 0 where
  pub workspace : FilePath
  pub revision : Option Text

pub data Finished : Type 0 where
  previewed : ActedOn → List FileDiff → Finished
  applied : ActedOn → List FilePath → Finished

abbrev pub retargeted : Option FilePath → WorkspaceEdit → FilePath → WorkspaceEdit
retargeted none edit workspace = edit
retargeted (some root) edit workspace = retarget edit root workspace

abbrev pub outside_error : McpError
outside_error = invalid_params (codes "refactoring would edit files outside the workspace")

-- `detect_revision(workspace).map(|r| r.id)` runs a version-control tool: a parameter.
module _ (fs : FileSystem) (api : SessionApi) (d : Display) (message : Error → Text)
    (revision : fs.State → FilePath → Option Text) where
  open api use {Session, root, sync_changed}

  abbrev pub Store : Type 0
  Store = fs.State × Session

  pub synced : Session → FilePath → List FilePath → Session
  synced session workspace changed =
      if root session == some workspace then sync_changed session changed else session

  preview_reply : ActedOn → Store → Result (List FileDiff) → Reply Finished × Store
  preview_reply acted_on st (ok files) = (answer (previewed acted_on files), st)
  preview_reply acted_on st (err e) = (map_err message (err e), st)
  preview_reply acted_on st panic = (abort, st)

  apply_reply : ActedOn → fs.State → Session → Result (List FilePath) → Reply Finished × Store
  unfolding synced
  apply_reply acted_on s session (ok changed) =
      (answer (applied acted_on changed), (s, synced session acted_on.workspace changed))
  apply_reply acted_on s session (err e) = (map_err message (err e), (s, session))
  apply_reply acted_on s session panic = (abort, (s, session))

  preview_edit : WorkspaceEdit → ActedOn → Store → Reply Finished × Store
  unfolding preview_reply
  preview_edit edit acted_on (s, session) =
      preview_reply acted_on (s, session) (preview d fs edit acted_on.workspace s)

  apply_edit : WorkspaceEdit → ActedOn → Store → Reply Finished × Store
  unfolding apply_reply
  apply_edit edit acted_on (s, session) =
      let (r, s') = apply fs edit acted_on.workspace s in apply_reply acted_on s' session r

  -- `dry_run` is what `ops::dry_run` reads from the arguments.
  pub finish_edit : WorkspaceEdit → Bool → FilePath → Store → Reply Finished × Store
  unfolding preview_edit apply_edit
  finish_edit edit dry_run workspace (s, session) =
      let edit' = retargeted (root session) edit workspace in
      let acted_on : ActedOn = record { workspace = workspace; revision = revision s workspace } in
      if edits_inside edit' workspace
      then (if dry_run
          then preview_edit edit' acted_on (s, session)
          else apply_edit edit' acted_on (s, session))
      else (refuse outside_error, (s, session))
