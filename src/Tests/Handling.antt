-- ===== src/Tests/Handling.antt =====
-- A whole request: a rename of a Rust project, whose session indexes another checkout.
use mathlib.Core.Path.{subst}
use henka.Common.{
  ℕ, ◌≡◌, ◌≢◌, arith, refl, sym, ap, ◌∙◌, false, List, [], ◌∷◌, none, some, nat_eq, list_eq,
}
use henka.Common.BTreeMap.{lookup}
use henka.Text.{codes}
use henka.Text.Search.{split}
use henka.FilePath.{FilePath, root_dir, normal, component_eq, join, of_text}
use henka.Error.{ok}
use henka.Fs.Memory.{memory, Files, lookup-behind}
use henka.Language.{Language, rust, language_eq}
use henka.Project.{Project}
use henka.Json.{null, bool, string, object, Fields, no_fields, field, get}
use henka.Edit.Apply.Confined.{Survives}
use henka.Operation.{
  OperationDescriptor, edit, project, OperationRegistry, unspecified, project_target, resolve,
  languages_for,
}
use henka.Provider.{ProviderRegistry}
use henka.Registry.Store.{ProjectRegistry}
use henka.Vcs.{Tools, repo_identity}
use henka.Server.Mcp.{Reply, answer}
use henka.Server.Ops.{
  project_id, parse_target, operation_params, params_of, result_limit, workspace, expect,
}
use henka.Server.Dispatch.{remap_target_file, dispatch_languages, named}
use henka.Server.Workspace.{Texts, resolve_workspace, ensure_same_repo, validate_expectation}
use henka.Server.Run.Kept.{Keeps}
use henka.Server.Run.{Backends, edit_outcome}
use henka.Server.Handle.{Request, prepared, dispatch_operation}
use henka.Server.Handle.Safe.{dispatch_operation-Survives}
use henka.Tests.Edits.{
  file, worktree, checkout, moving, Untouched, Untouched-Survives, one_file, Untouched-first,
  display,
}

abbrev renames : OperationDescriptor
renames = record {
  id = codes "rename";
  title = [];
  description = [];
  kind = edit;
  languages = rust ∷ [];
  target = project;
  params_schema = null;
}

-- A file that a session writes when it starts.
abbrev index : FilePath
index = root_dir ∷ normal (codes "index") ∷ []

abbrev backends : Backends Files
backends = record {
  Provider = ℕ;
  provider_eq = nat_eq;
  Operation = ℕ;
  Session = Unit {0};
  World = ℕ;
  descriptor = λ op. renames;
  route = λ op params. unspecified;
  session = λ w s p q. (ok tt, ((index, []) ∷ s, w));
  root = λ s. some checkout;
  begin_request = λ w s. w;
  overlay_workspace = λ w s session ws delta. (ok tt, (s, 1));
  run = λ w s op p session target params. (ok (edit_outcome moving), (s, w));
  restore_overlay = λ w s. 0;
  sync_changed = λ w s changed. w;
}

abbrev tools : Tools Files
tools = record {
  run = λ s p name args. none;
  run_bytes = λ s p name args. none;
  is_file = λ s p. false;
  after = λ s p name args. s;
}

abbrev texts : Texts
texts = record { not_a_copy = λ p. []; unreadable = λ p. []; unexpected = λ t target o p. [] }

abbrev catalog : OperationRegistry ℕ
catalog = record { descriptor = renames; operation = 0 } ∷ []

abbrev providers : ProviderRegistry ℕ
providers = (rust, 0) ∷ []

abbrev app : Project
app = record { id = codes "app"; root = worktree; languages = rust ∷ [] }

abbrev registry : ProjectRegistry
registry = record { config_path = []; projects = (codes "app", app) ∷ [] }

abbrev args : Fields
args =
    field (codes "dry_run") (bool false) (field (codes "project") (string (codes "app")) no_fields)

abbrev request :
    Request memory tools backends display texts
      (λ e. [])
      (λ s p. none)
      (λ c. false)
      catalog
      providers
request = record {
  name = codes "rename";
  args = args;
  project = app;
  target = project_target;
  params = object no_fields;
  workspace = worktree;
  limit = none;
}

prepares :
    prepared memory tools backends display texts
      (λ e. [])
      (λ s p. none)
      (λ c. false)
      catalog
      providers
      []
      registry
      (codes "rename")
      args
      one_file
    ≡ answer (request, rust ∷ [])
unfolding prepared project_id get lookup languages_for resolve parse_target remap_target_file
    operation_params params_of dispatch_languages named resolve_workspace workspace expect
    ensure_same_repo repo_identity validate_expectation result_limit henka.Registry.Store.get join
    of_text split
prepares = refl

abbrev workspace_of :
    Reply (
      Request memory tools backends display texts
        (λ e. [])
        (λ s p. none)
        (λ c. false)
        catalog
        providers
      × List Language)
    → FilePath
workspace_of (answer (q, languages)) = q.workspace
workspace_of _ = []

index-off : index ≢ file
index-off h = ground (arith, h)

backends-keep : Keeps tools backends Untouched
backends-keep = record {
  after_keeps = λ s root program args u. u;
  session_keeps = λ w s provider p u. rw (lookup-behind s index file [] index-off) u;
  overlay_keeps = λ w s session ws delta u. u;
  run_keeps = λ w s op p session target params u. u;
}

dispatch_operation-Survives_example :
    Untouched
      (dispatch_operation memory tools backends display texts
        (λ e. [])
        (λ s p. none)
        (λ c. false)
        catalog
        providers
        []
        registry
        (codes "rename")
        args
        (one_file, 0)).1.0
dispatch_operation-Survives_example =
    dispatch_operation-Survives memory tools backends display texts (λ e. []) (λ s p. none)
      (λ c. false) catalog providers [] registry (codes "rename") args one_file 0 Untouched
      backends-keep
      (λ q languages e.
        subst (λ x. Survives memory x Untouched) (ap workspace_of (sym prepares ∙ e))
          Untouched-Survives)
      Untouched-first
