-- ===== src/Server/Confine.antt =====
-- `reject_edits_outside` of crates/henka-server/src/mcp.rs.
use henka.Common.{
  Bool, true, not, ◌&&◌, ◌||◌, all, ◌≡◌, arith, [], ◌∷◌, List, All, Bool-cases, inl, inr,
}
use henka.FilePath.{FilePath, is_absolute, starts_with}
use henka.FilePath.Prefix.{strip_prefix-join}
use henka.Edit.{FileEdit, FileOperation, create, rename, delete, WorkspaceEdit}
use henka.Edit.Plan.{resolve_path}
use henka.Edit.Apply.Confined.{IsUnder, IsUnderOp}

-- The closure `inside`.
abbrev pub inside : FilePath → FilePath → Bool
inside workspace p = not (is_absolute p) || starts_with p workspace

abbrev pub inside_op : FilePath → FileOperation → Bool
inside_op workspace (create path) = inside workspace path
inside_op workspace (delete path) = inside workspace path
inside_op workspace (rename from to) = inside workspace from && inside workspace to

-- Whether the edit is let through; the error otherwise is the caller's.
unfoldable pub edits_inside : WorkspaceEdit → FilePath → Bool
edits_inside edit workspace =
    all (λ f. inside workspace f.path) edit.files && all (inside_op workspace) edit.file_ops

-- A path that is let through resolves to a path under the workspace.
inside-IsUnder : (workspace p : FilePath) → inside workspace p ≡ true → IsUnder workspace p
inside-IsUnder workspace p h = elim (Bool-cases (is_absolute p)) [
  | inl abs ↦ unfold resolve_path in rw abs (ground arith)
  | inr rel ↦ unfold resolve_path in rw rel (rw (strip_prefix-join workspace p rel))
]

files-IsUnder :
    (workspace : FilePath) (files : List FileEdit)
    → all (λ (f : FileEdit). inside workspace f.path) files ≡ true
    → All (λ (f : FileEdit). IsUnder workspace f.path) files
files-IsUnder workspace [] h = tt
files-IsUnder workspace (f ∷ files) h =
    (inside-IsUnder workspace f.path (ground arith), files-IsUnder workspace files (ground arith))

op-IsUnder :
    (workspace : FilePath) (op : FileOperation)
    → inside_op workspace op ≡ true
    → IsUnderOp workspace op
op-IsUnder workspace (create path) h = inside-IsUnder workspace path h
op-IsUnder workspace (delete path) h = inside-IsUnder workspace path h
op-IsUnder workspace (rename from to) h =
    (inside-IsUnder workspace from (ground arith), inside-IsUnder workspace to (ground arith))

ops-IsUnder :
    (workspace : FilePath) (ops : List FileOperation)
    → all (inside_op workspace) ops ≡ true
    → All (IsUnderOp workspace) ops
ops-IsUnder workspace [] h = tt
ops-IsUnder workspace (op ∷ ops) h =
    (op-IsUnder workspace op (ground arith), ops-IsUnder workspace ops (ground arith))

pub edits_inside-files :
    (edit : WorkspaceEdit) (workspace : FilePath)
    → edits_inside edit workspace ≡ true
    → All (λ (f : FileEdit). IsUnder workspace f.path) edit.files
      × All (IsUnderOp workspace) edit.file_ops
unfolding edits_inside
edits_inside-files edit workspace h = (
  files-IsUnder workspace edit.files (ground arith),
  ops-IsUnder workspace edit.file_ops (ground arith),
)
