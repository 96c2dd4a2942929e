-- ===== src/Edit/Apply.antt =====
-- `EditApplier::apply` of crates/henka-core/src/edit.rs over a file system: the planned files are
-- written, then the file-level operations run. An error stops it where it stands.
pub mod Atomic
pub mod Confined
use henka.Common.{true, false, List, [], ◌∷◌, ◌++◌, Option, none, some}
use henka.FilePath.{FilePath, parent}
use henka.Error.{ok}
use henka.Fs.{FileSystem}
use henka.Fs.Action.{Action, pure, reading, doing, ◌>>=◌, ◌>>◌}
use henka.Edit.{FileOperation, create, rename, delete, WorkspaceEdit}
use henka.Edit.Plan.{resolve_path, relativize, Planned, plan}

module _ (fs : FileSystem) where
  open fs use {State}

  -- The second loop: the planned files are written.
  pub write_all : List Planned → Action State (List FilePath)
  write_all [] = pure []
  write_all (p ∷ ps) = do
    doing (λ s. fs.write s p.abs p.updated)
    changed ← write_all ps
    pure (p.rel ∷ changed)

  pub create_parent : Option FilePath → Action State (Unit {0})
  create_parent none = pure tt
  create_parent (some dir) = doing (λ s. fs.create_dir_all s dir)

  pub create_file : FilePath → Action State (Unit {0})
  unfolding create_parent
  create_file abs s =
      let missing : Action State (Unit {0}) = do
        create_parent (parent abs)
        doing (λ s'. fs.write s' abs [])
      in elim (fs.exists s abs) [ true ↦ (ok tt, s) | false ↦ missing s ]

  pub delete_file : FilePath → Action State (Unit {0})
  delete_file abs s = elim (fs.exists s abs) [
    | true ↦ doing (λ s'. fs.remove_file s' abs) s
    | false ↦ (ok tt, s)
  ]

  pub run_op : FilePath → FileOperation → Action State FilePath
  unfolding create_file delete_file
  run_op root (create path) = do create_file (resolve_path path root); pure (relativize path root)
  run_op root (rename from to) = do
    create_parent (parent (resolve_path to root))
    doing (λ s. fs.rename s (resolve_path from root) (resolve_path to root))
    pure (relativize to root)
  run_op root (delete path) = do delete_file (resolve_path path root); pure (relativize path root)

  -- The third loop: the file-level operations, in order.
  pub run_ops : FilePath → List FileOperation → Action State (List FilePath)
  run_ops root [] = pure []
  run_ops root (op ∷ ops) = do
    path ← run_op root op
    changed ← run_ops root ops
    pure (path ∷ changed)

  -- The files that were changed, or the error.
  pub apply : WorkspaceEdit → FilePath → Action State (List FilePath)
  apply edit root = do
    planned ← reading (plan fs edit.files edit.encoding root)
    written ← write_all planned
    moved ← run_ops root edit.file_ops
    pure (written ++ moved)
