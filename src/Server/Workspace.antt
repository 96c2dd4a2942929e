-- ===== src/Server/Workspace.antt =====
-- The working copy that a request acts on, of crates/henka-server/src/mcp.rs: `resolve_workspace`,
-- `ensure_same_repo` and `validate_expectation`. The texts of refusals that print paths and numbers
-- are a parameter.
use henka.Common.{
  ℕ, Bool, true, false, ◌||◌, List, [], ◌∷◌, ◌++◌, Option, none, some, ◌==◌, list_eq, option_eq,
  nat_eq, if◌then◌else◌, ◌&&◌,
}
use henka.Text.{Text, codes}
use henka.FilePath.{FilePath, component_eq, is_absolute}
use henka.Error.{Result, ok}
use henka.Fs.{FileSystem, IoResult, done, failed}
use henka.Edit.{utf16}
use henka.Edit.Plan.{resolve_path}
use henka.Edit.Expect.{identifier_at, text_in_range}
use henka.Operation.{
  Target, position_target, selection_target, file_target, project_target, target_file,
}
use henka.Project.{Project}
use henka.Json.{Fields}
use henka.Vcs.{Vcs, jj, git, RepoId, Tools, repo_identity, canonical, in_dir}
use henka.Server.PathMap.{PathMap, map_path}
use henka.Server.Ops.{workspace, expect}
use henka.Server.Mcp.{invalid_params, Reply, answer, refuse, abort, ◌>>=◌}

-- The texts of the refusals.
pub record Texts : Type 0 where
  pub not_a_copy : FilePath → Text
  pub unreadable : FilePath → Text
  pub unexpected : Text → Target → Option Text → FilePath → Text

abbrev same_vcs : Vcs → Vcs → Bool
same_vcs jj jj = true
same_vcs git git = true
same_vcs _ _ = false

-- Every shorter front of a path, the longest first: `file.ancestors().skip(1)` of an absolute path.
fronts_from : FilePath → FilePath → List FilePath → List FilePath
fronts_from front [] shorter = shorter
fronts_from front (d ∷ rest) shorter = fronts_from (front ++ (d ∷ [])) rest (front ∷ shorter)

fronts : FilePath → List FilePath
unfolding fronts_from
fronts [] = []
fronts (c ∷ p) = fronts_from (c ∷ []) p []

module _ (fs : FileSystem) (tools : Tools fs.State) where
  open fs use {State}

  abbrev is_working_copy : State → FilePath → Bool
  is_working_copy s dir =
      fs.exists s (in_dir dir (codes ".git")) || fs.exists s (in_dir dir (codes ".jj"))

  abbrev nearest : State → List FilePath → Option FilePath
  nearest s [] = none
  nearest s (dir ∷ dirs) =
      let rest = nearest s dirs in if is_working_copy s dir then some dir else rest

  -- `working_copy_root_containing`
  unfoldable pub working_copy_root_containing : State → FilePath → Option FilePath
  unfolding fronts
  working_copy_root_containing s file = nearest s (fronts file)

  abbrev or_root : Option FilePath → FilePath → FilePath
  or_root none root = root
  or_root (some dir) root = dir

  abbrev around_file : State → Option FilePath → FilePath → FilePath
  around_file s none root = root
  around_file s (some file) root =
      if is_absolute file then or_root (working_copy_root_containing s file) root else root

  abbrev chosen : State → PathMap → Option FilePath → Target → Project → FilePath
  chosen s m (some ws) target p = map_path m ws
  chosen s m none target p = around_file s (target_file target) p.root

  unfoldable pub resolve_workspace : State → Fields → Target → Project → PathMap → FilePath
  resolve_workspace s args target p m = chosen s m (workspace args) target p

  abbrev same_repo : State → FilePath → FilePath → Option RepoId → Option RepoId → Bool
  same_repo s ws root (some a) (some b) = same_vcs a.vcs b.vcs && a.path == b.path
  same_repo s ws root none none = canonical fs tools s ws == canonical fs tools s root
  same_repo s ws root _ _ = false

  module _ (texts : Texts) where
    unfoldable pub ensure_same_repo : State → FilePath → FilePath → Reply (Unit {0})
    ensure_same_repo s ws root =
        if same_repo s ws root (repo_identity fs tools s ws) (repo_identity fs tools s root)
        then answer tt
        else refuse (invalid_params (texts.not_a_copy ws))

    abbrev readable : FilePath → IoResult Text → Reply Text
    readable abs (done t) = answer t
    readable abs (failed e) = refuse (invalid_params (texts.unreadable abs))

    unfoldable pub read_for_validation : State → FilePath → FilePath → Reply Text
    read_for_validation s ws file =
        readable (resolve_path file ws) (fs.read_to_string s (resolve_path file ws))

    abbrev as_expected : Text → Target → FilePath → Result (Option Text) → Reply (Unit {0})
    as_expected expected target ws (ok seen) =
        if seen == some expected
        then answer tt
        else refuse (invalid_params (texts.unexpected expected target seen ws))
    as_expected expected target ws _ = abort

    module _ (is_alphanumeric : ℕ → Bool) where
      abbrev validated : State → Option Text → Target → FilePath → Reply (Unit {0})
      validated s none target ws = answer tt
      validated s (some expected) (position_target file pos) ws =
          read_for_validation s ws file >>= λ content.
          as_expected expected (position_target file pos) ws
            (identifier_at is_alphanumeric content pos utf16)
      validated s (some expected) (selection_target file range) ws =
          read_for_validation s ws file >>= λ content.
          as_expected expected (selection_target file range) ws (text_in_range content range utf16)
      validated s (some expected) (file_target file) ws = answer tt
      validated s (some expected) project_target ws = answer tt

      unfoldable pub validate_expectation : State → Fields → Target → FilePath → Reply (Unit {0})
      validate_expectation s args target ws = validated s (expect args) target ws
