-- ===== src/Edit/Plan.antt =====
-- The read-only half of `EditApplier` of crates/henka-core/src/edit.rs: paths against the project
-- root, `rewrite_file`, the planning loop of `apply`, and `preview`.
use henka.Common.{
  List, [], ◌∷◌, ◌++◌, Option, none, some, map, ◌==◌, list_eq, nat_eq, if◌then◌else◌,
}
use henka.Text.{Text, codes}
use henka.FilePath.{FilePath, is_absolute, strip_prefix, join}
use henka.Error.{Result, ok, ◌>>=◌}
use henka.Fs.{FileSystem}
use henka.Fs.Action.{from_io}
use henka.Edit.{PositionEncoding, FileEdit, FileOperation, create, rename, delete, WorkspaceEdit}
use henka.Edit.Rewrite.{rewrite}

unfoldable pub resolve_path : FilePath → FilePath → FilePath
resolve_path path root = if is_absolute path then path else join root path

abbrev or_self : FilePath → Option FilePath → FilePath
or_self p none = p
or_self p (some r) = r

unfoldable pub relativize : FilePath → FilePath → FilePath
relativize path root = or_self (resolve_path path root) (strip_prefix (resolve_path path root) root)

-- An element of `planned`: where to write, the name to report, and the new content.
pub record Planned : Type 0 where
  pub abs : FilePath
  pub rel : FilePath
  pub updated : Text

module _ (fs : FileSystem) where
  open fs use {State, read_to_string}

  -- `(original, updated)`
  unfoldable pub rewrite_file :
      FileEdit → PositionEncoding → FilePath → State → Result (Text × Text)
  rewrite_file file encoding root s = do
    original ← from_io (read_to_string s (resolve_path file.path root))
    updated ← rewrite (resolve_path file.path root) original encoding file.edits
    ok (original, updated)

  unfoldable pub planned_for : FileEdit → FilePath → Text × Text → List Planned → List Planned
  planned_for file root (original, updated) rest =
      if original == updated
      then rest
      else record {
        abs = resolve_path file.path root;
        rel = relativize file.path root;
        updated = updated;
      }
        ∷ rest

  -- The first loop of `apply`: every rewrite is computed before any file is written.
  unfoldable pub plan : List FileEdit → PositionEncoding → FilePath → State → Result (List Planned)
  unfolding planned_for
  plan [] encoding root s = ok []
  plan (file ∷ files) encoding root s = do
    texts ← rewrite_file file encoding root s
    rest ← plan files encoding root s
    ok (planned_for file root texts rest)

-- How the paths and differences of a preview are shown: `Path::display`, and the unified diff of
-- two texts with a path as its label that the crate `similar` makes.
pub record Display : Type 0 where
  pub path_text : FilePath → Text
  pub text_diff : Text → Text → Text → Text

pub record FileDiff : Type 0 where
  pub path : FilePath
  pub diff : Text

module _ (d : Display) where
  pub unified_diff : Text → Text → FilePath → Text
  unified_diff original updated path =
      if original == updated then [] else d.text_diff original updated (d.path_text path)

  pub file_op_diff : FileOperation → FilePath → FileDiff
  file_op_diff (create path) root = record {
    path = relativize path root;
    diff = codes "create " ++ d.path_text (relativize path root);
  }
  file_op_diff (rename from to) root = record {
    path = relativize to root;
    diff =
        codes "rename "
        ++ (d.path_text (relativize from root)
            ++ (codes " -> " ++ d.path_text (relativize to root)));
  }
  file_op_diff (delete path) root = record {
    path = relativize path root;
    diff = codes "delete " ++ d.path_text (relativize path root);
  }

  module _ (fs : FileSystem) where
    file_diff : FileEdit → FilePath → Text × Text → FileDiff
    unfolding unified_diff
    file_diff file root (original, updated) = record {
      path = relativize file.path root;
      diff = unified_diff original updated (relativize file.path root);
    }

    pub file_diffs : List FileEdit → PositionEncoding → FilePath → fs.State → Result (List FileDiff)
    unfolding file_diff
    file_diffs [] encoding root s = ok []
    file_diffs (file ∷ files) encoding root s = do
      texts ← rewrite_file fs file encoding root s
      rest ← file_diffs files encoding root s
      ok (file_diff file root texts ∷ rest)

    -- The preview reads the file system and changes nothing.
    pub preview : WorkspaceEdit → FilePath → fs.State → Result (List FileDiff)
    unfolding file_op_diff
    preview edit root s = do
      diffs ← file_diffs edit.files edit.encoding root s
      ok (diffs ++ map (λ op. file_op_diff op root) edit.file_ops)
