-- ===== src/Server/Handle.antt =====
-- `dispatch_operation` of crates/henka-server/src/mcp.rs: a whole request, from its arguments to the
-- answer. The language backends are a parameter: what they hold is a state of its own, which no file
-- operation of this program touches, while they and the tools may write files. One request runs at a time, as the session's guard has it.
pub mod Safe
use henka.Common.{
  ℕ, Bool, true, false, any, List, [], ◌∷◌, ◌++◌, Option, none, some, Eq, ◌==◌, option_eq, list_eq,
  nat_eq, if◌then◌else◌,
}
use henka.Common.BTreeMap.{lookup}
use henka.Text.{Text, codes}
use henka.FilePath.{FilePath, component_eq}
use henka.Error.{Error, Result, ok, err, panic}
use henka.Fs.{FileSystem}
use henka.Language.{Language, as_str, language_eq}
use henka.Project.{Project}
use henka.Json.{Json, Fields}
use henka.Edit.{WorkspaceEdit}
use henka.Edit.Plan.{Display}
use henka.Operation.{
  OperationDescriptor, Target, LanguageRoute, Registered, OperationRegistry, resolve, languages_for,
}
use henka.Provider.{ProviderRegistry}
use henka.Registry.Store.{ProjectRegistry, get}
use henka.Vcs.{Tools, working_copy_delta}
use henka.Server.PathMap.{PathMap}
use henka.Server.Ops.{
  project_id, parse_target, operation_params, dry_run, result_limit, merge_query_results,
}
use henka.Server.Mcp.{
  McpError, invalid_params, internal_error, Reply, answer, refuse, abort, map_err, ◌>>=◌, ◌>>◌,
}
use henka.Server.Dispatch.{remap_target_file, dispatch_languages}
use henka.Server.Workspace.{Texts, resolve_workspace, ensure_same_repo, validate_expectation}
use henka.Server.Run.{OperationOutcome, edit_outcome, query_outcome, Backends, run_operation}
use henka.Server.Finish.{SessionApi, Finished, finish_edit}

pub data Answered : Type 0 where
  finished : Finished → Answered
  queried : Json → Answered

module _ (fs : FileSystem) (tools : Tools fs.State) (b : Backends fs.State) (d : Display)
    (texts : Texts) (message : Error → Text) (revision : fs.State → FilePath → Option Text)
    (is_alphanumeric : ℕ → Bool) where
  open b use {Provider, Operation, Session, World}

  -- The session that `finish_edit` is given, with the state of the backends.
  abbrev pub session_api : SessionApi
  session_api = record {
    Session = Session × World;
    root = λ s. b.root s.0;
    sync_changed = λ s changed. (s.0, b.sync_changed s.1 s.0 changed);
  }

  abbrev pub Store : Type 0
  Store = fs.State × World

  pub finish_in :
      Fields → FilePath → fs.State → Session → World → WorkspaceEdit → Reply Answered × Store
  finish_in args ws s session w edit =
      let (r, (s', (session', w'))) =
        finish_edit fs session_api d message revision edit (dry_run args) ws (s, (session, w)) in
      (r >>= λ f. answer (finished f), (s', w'))

  pub after_run :
      Fields
      → FilePath
      → (Json → Store → Reply Answered × Store)
      → Reply (Session × OperationOutcome) × Store
      → Reply Answered × Store
  unfolding finish_in
  after_run args ws more (answer (session, query_outcome v), st) = more v st
  after_run args ws more (answer (session, edit_outcome e), (s, w)) =
      finish_in args ws s session w e
  after_run args ws more (refuse e, st) = (refuse e, st)
  after_run args ws more (abort, st) = (abort, st)

  module _ (catalog : OperationRegistry Operation) (providers : ProviderRegistry Provider) where
    -- What one request works with.
    pub record Request : Type 0 where
      pub name : Text
      pub args : Fields
      pub project : Project
      pub target : Target
      pub params : Json
      pub workspace : FilePath
      pub limit : Option ℕ

    with_operation :
        Request
        → Provider
        → (Json → Store → Reply Answered × Store)
        → Store
        → Reply Operation
        → Reply Answered × Store
    unfolding after_run
    with_operation q p more (s, w) (answer op) =
        after_run q.args q.workspace more
          (run_operation fs tools b message op p q.project q.target q.params q.workspace (s, w))
    with_operation q p more st (refuse e) = (refuse e, st)
    with_operation q p more st abort = (abort, st)

    -- The loop over the languages: a provider that was asked is not asked again, a query's result is
    -- kept, and the first edit is finished.
    pub serve : Request → List Language → List Provider → List Json → Store → Reply Answered × Store
    unfolding with_operation
    serve q [] asked queries st = (answer (queried (merge_query_results queries q.limit)), st)
    serve q (l ∷ ls) asked queries (s, w) = elim (lookup l providers) [
      | none ↦ (
        refuse (internal_error (codes "no provider registered for `" ++ (as_str l ++ codes "`"))),
        (s, w),
      )
      | some p ↦
          let skipped = serve q ls asked queries (s, w) in
          let asked_now =
            with_operation q p (λ v st. serve q ls (p ∷ asked) (queries ++ (v ∷ [])) st) (s, w)
              (map_err message (resolve Operation q.name l catalog)) in
          if any (λ (a : Provider). b.provider_eq.beq a p) asked then skipped else asked_now
    ]

    abbrev no_operation : Text → Text → McpError
    no_operation name id = invalid_params (
        codes "unknown tool or operation `"
        ++ (name ++ (codes "` for project `" ++ (id ++ codes "`"))))

    unfoldable pub described :
        PathMap
        → Text
        → Fields
        → Project
        → fs.State
        → List Language
        → Operation
        → Reply (Request × List Language)
    described m name args p s candidates op = do
      target ← parse_target args (b.descriptor op).target
      let target' = remap_target_file m target
      let params = operation_params args
      languages ←
          dispatch_languages Provider ⦃e = b.provider_eq⦄ candidates providers (b.descriptor op)
            target' (b.route op params)
      let ws = resolve_workspace fs tools s args target' p m
      ensure_same_repo fs tools texts s ws p.root
      validate_expectation fs tools texts is_alphanumeric s args target' ws
      answer (
        record {
          name = name;
          args = args;
          project = p;
          target = target';
          params = params;
          workspace = ws;
          limit = result_limit params (b.descriptor op).params_schema;
        },
        languages,
      )

    unfoldable pub with_candidates :
        PathMap
        → Text
        → Fields
        → Text
        → Project
        → fs.State
        → List Language
        → Reply (Request × List Language)
    unfolding described
    with_candidates m name args id p s [] = refuse (no_operation name id)
    with_candidates m name args id p s (l ∷ ls) = do
      op ← map_err message (resolve Operation name l catalog)
      described m name args p s (l ∷ ls) op

    -- Every check that comes before a backend is asked: the request, and the languages that serve it.
    unfoldable pub prepared :
        PathMap → ProjectRegistry → Text → Fields → fs.State → Reply (Request × List Language)
    unfolding with_candidates
    prepared m registry name args s = do
      id ← project_id args
      p ← map_err message (get id registry)
      with_candidates m name args id p s (languages_for Operation name p.languages catalog)

    dispatched : Reply (Request × List Language) → Store → Reply Answered × Store
    unfolding serve
    dispatched (answer (q, languages)) st = serve q languages [] [] st
    dispatched (refuse e) st = (refuse e, st)
    dispatched abort st = (abort, st)

    -- `dispatch_operation`
    pub dispatch_operation :
        PathMap → ProjectRegistry → Text → Fields → Store → Reply Answered × Store
    unfolding prepared dispatched
    dispatch_operation m registry name args (s, w) =
        dispatched (prepared m registry name args s) (s, w)
