-- ===== src/Server/Run.antt =====
-- `run_operation` of crates/henka-server/src/mcp.rs: an operation on the session of a provider, with
-- the working copy's changes laid over the session's index. What the providers, sessions and
-- operations do is a parameter.
pub mod Kept
use henka.Common.{List, Option, some, Eq, ◌==◌, option_eq, list_eq, nat_eq, if◌then◌else◌}
use henka.Text.{Text}
use henka.FilePath.{FilePath, component_eq}
use henka.Error.{Error, Result, ok, err, panic}
use henka.Fs.{FileSystem}
use henka.Language.{language_eq}
use henka.Project.{Project}
use henka.Json.{Json}
use henka.Edit.{WorkspaceEdit}
use henka.Operation.{OperationDescriptor, Target, LanguageRoute}
use henka.Vcs.{Tools, working_copy_delta}
use henka.Server.Mcp.{Reply, answer, refuse, abort, map_err, ◌>>=◌}

pub data OperationOutcome : Type 0 where
  edit_outcome : WorkspaceEdit → OperationOutcome
  query_outcome : Json → OperationOutcome

-- What the handler asks of providers, sessions and operations, over the state that they keep. A
-- session that starts, an overlay and an operation may write files; the others send notifications to
-- the server and no more.
pub record Backends (State : Type 0) : Type 1 where
  pub Provider : Type 0
  pub provider_eq : Eq Provider
  pub Operation : Type 0
  pub Session : Type 0
  pub World : Type 0
  pub descriptor : Operation → OperationDescriptor
  pub route : Operation → Json → LanguageRoute
  pub session : World → State → Provider → Project → Result Session × (State × World)
  pub root : Session → Option FilePath
  pub begin_request : World → Session → World
  pub overlay_workspace :
      World → State → Session → FilePath → List FilePath → Result (Unit {0}) × (State × World)
  pub run :
      World
      → State
      → Operation
      → Project
      → Session
      → Target
      → Json
      → Result OperationOutcome × (State × World)
  pub restore_overlay : World → Session → World
  pub sync_changed : World → Session → List FilePath → World

module _ (fs : FileSystem) (tools : Tools fs.State) (b : Backends fs.State)
    (message : Error → Text) where
  open b use {Provider, Operation, Session, World}

  abbrev pub Store : Type 0
  Store = fs.State × World

  -- The end of `run_operation`: the overlay is taken back whatever came of the run.
  run_restored :
      Session → Result OperationOutcome × Store → Reply (Session × OperationOutcome) × Store
  run_restored session (outcome, (s, w)) =
      (map_err message outcome >>= λ o. answer (session, o), (s, b.restore_overlay w session))

  run_overlaid :
      Operation
      → Project
      → Session
      → Target
      → Json
      → Reply (Unit {0}) × Store
      → Reply (Session × OperationOutcome) × Store
  unfolding run_restored
  run_overlaid op p session target params (answer u, (s, w)) =
      run_restored session (b.run w s op p session target params)
  run_overlaid op p session target params (refuse e, st) = (refuse e, st)
  run_overlaid op p session target params (abort, st) = (abort, st)

  overlaid : Session → FilePath → Store → Reply (Unit {0}) × Store
  overlaid session ws (s, w) =
      let (delta, s') = working_copy_delta fs tools s ws in
      let (r, st) = b.overlay_workspace w s' session ws delta in
      if b.root session == some ws then (answer tt, (s, w)) else (map_err message r, st)

  run_in_session :
      Operation
      → Project
      → Target
      → Json
      → FilePath
      → Result Session × Store
      → Reply (Session × OperationOutcome) × Store
  unfolding run_overlaid overlaid
  run_in_session op p target params ws (ok session, (s, w)) =
      run_overlaid op p session target params (overlaid session ws (s, b.begin_request w session))
  run_in_session op p target params ws (err e, st) = (map_err message (err e), st)
  run_in_session op p target params ws (panic, st) = (abort, st)

  unfoldable pub run_operation :
      Operation
      → Provider
      → Project
      → Target
      → Json
      → FilePath
      → Store
      → Reply (Session × OperationOutcome) × Store
  unfolding run_in_session
  run_operation op provider p target params ws (s, w) =
      run_in_session op p target params ws (b.session w s provider p)
