-- ===== src/Server/Run/Kept.antt =====
-- What `run_operation` leaves of the files that the tools and the backends write.
use henka.Common.{List, some, ◌==◌, option_eq, list_eq, nat_eq, Bool-cases, inl, inr}
use henka.Text.{Text, codes}
use henka.FilePath.{FilePath, component_eq}
use henka.Error.{Error, Result, ok, err, panic}
use henka.Fs.{FileSystem}
use henka.Project.{Project}
use henka.Json.{Json}
use henka.Operation.{Target}
use henka.Vcs.{Tools, in_dir, working_copy_delta}
use henka.Server.Mcp.{Reply, answer, refuse, abort}
use henka.Server.Run.{Backends, run_restored, run_overlaid, overlaid, run_in_session, run_operation}

-- What the tools and the backends write keeps `P`.
pub record Keeps {State : Type 0} (tools : Tools State) (b : Backends State) (P : State → Type 0)
    : Type 0 where
  pub after_keeps :
      (s : State) (root : FilePath) (program : Text) (args : List Text)
      → P s
      → P (tools.after s root program args)
  pub session_keeps :
      (w : b.World) (s : State) (provider : b.Provider) (p : Project)
      → P s
      → P (b.session w s provider p).1.0
  pub overlay_keeps :
      (w : b.World) (s : State) (session : b.Session) (ws : FilePath) (delta : List FilePath)
      → P s
      → P (b.overlay_workspace w s session ws delta).1.0
  pub run_keeps :
      (w : b.World) (s : State) (op : b.Operation) (p : Project) (session : b.Session)
      (target : Target) (params : Json)
      → P s
      → P (b.run w s op p session target params).1.0

module _ (fs : FileSystem) (tools : Tools fs.State) (b : Backends fs.State)
    (message : Error → Text) where
  abbrev pub Store : Type 0
  Store = fs.State × b.World

  module _ (P : fs.State → Type 0) (keeps : Keeps tools b P) where
    -- A step leaves files that have `P`.
    abbrev pub Leaves : {A : Type 0} → A × Store → Type 0
    Leaves (r, (s, w)) = P s

    run_overlaid-keeps :
        (op : b.Operation) (p : Project) (session : b.Session) (target : Target) (params : Json)
        (r : Reply (Unit {0}) × Store)
        → Leaves r
        → Leaves (run_overlaid fs tools b message op p session target params r)
    unfolding run_overlaid run_restored
    run_overlaid-keeps op p session target params (answer u, (s, w)) h =
        keeps.run_keeps w s op p session target params h
    run_overlaid-keeps op p session target params (refuse e, st) h = h
    run_overlaid-keeps op p session target params (abort, st) h = h

    working_copy_delta-keeps :
        (s : fs.State) (root : FilePath) → P s → P (working_copy_delta fs tools s root).1
    unfolding working_copy_delta
    working_copy_delta-keeps s root h =
        elim (Bool-cases (fs.is_dir s (in_dir root (codes ".jj")))) [
          | inl e ↦ rw e (keeps.after_keeps s root _ _ h)
          | inr e ↦ rw e (elim (Bool-cases (fs.exists s (in_dir root (codes ".git")))) [
            | inl g ↦ rw g (keeps.after_keeps s root _ _ h)
            | inr g ↦ rw g h
          ])
        ]

    overlaid-keeps :
        (session : b.Session) (ws : FilePath) (s : fs.State) (w : b.World)
        → P s
        → Leaves (overlaid fs tools b message session ws (s, w))
    unfolding overlaid
    overlaid-keeps session ws s w h = elim (Bool-cases (b.root session == some ws)) [
      | inl e ↦ rw e h
      | inr e ↦ rw e (
          keeps.overlay_keeps w (working_copy_delta fs tools s ws).1 session ws
            (working_copy_delta fs tools s ws).0 (working_copy_delta-keeps s ws h))
    ]

    run_in_session-keeps :
        (op : b.Operation) (p : Project) (target : Target) (params : Json) (ws : FilePath)
        (r : Result b.Session × Store)
        → Leaves r
        → Leaves (run_in_session fs tools b message op p target params ws r)
    unfolding run_in_session
    run_in_session-keeps op p target params ws (ok session, (s, w)) h =
        run_overlaid-keeps op p session target params _
          (overlaid-keeps session ws s (b.begin_request w session) h)
    run_in_session-keeps op p target params ws (err e, st) h = h
    run_in_session-keeps op p target params ws (panic, st) h = h

    pub run_operation-keeps :
        (op : b.Operation) (provider : b.Provider) (p : Project) (target : Target) (params : Json)
        (ws : FilePath) (s : fs.State) (w : b.World)
        → P s
        → Leaves (run_operation fs tools b message op provider p target params ws (s, w))
    unfolding run_operation
    run_operation-keeps op provider p target params ws s w h =
        run_in_session-keeps op p target params ws (b.session w s provider p)
          (keeps.session_keeps w s provider p h)
