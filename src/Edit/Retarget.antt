-- ===== src/Edit/Retarget.antt =====
-- `WorkspaceEdit::retarget` moves the paths under one root to another, and back.
use henka.Common.{◌≡◌, refl, sym, ap, ◌∙◌, List, [], ◌∷◌, ◌++◌, map, All}
use henka.FilePath.{FilePath, Component, root_dir, cur_dir, parent_dir, normal, join}
use henka.FilePath.Prefix.{strip_prefix-append}
use henka.Edit.{
  FileEdit, FileOperation, create, rename, delete, WorkspaceEdit, retarget_path, retarget_file,
  retarget_op, retarget,
}

-- A component that can stand behind another: `/` and `.` stand only at the head of a path.
abbrev pub IsInner : Component → Type 0
IsInner root_dir = ⊥
IsInner cur_dir = ⊥
IsInner _ = Unit

-- `path` lies under the checkout `root`: it is `root` followed by inner components.
pub record LiesUnder (root path : FilePath) : Type 0 where
  pub rest : FilePath
  pub joined : path ≡ root ++ rest
  pub inner : All IsInner rest

-- A checkout is named by a path with at least one component.
abbrev pub IsNonempty : FilePath → Type 0
IsNonempty [] = ⊥
IsNonempty (c ∷ p) = Unit

join-inner :
    (base rest : FilePath) → IsNonempty base → All IsInner rest → join base rest ≡ base ++ rest
unfolding join
join-inner [] rest n h = elim n [ ]
join-inner (c ∷ base) [] n h = refl
join-inner (c ∷ base) (root_dir ∷ rest) n h = absurd h.0
join-inner (c ∷ base) (cur_dir ∷ rest) n h = absurd h.0
join-inner (c ∷ base) (parent_dir ∷ rest) n h = refl
join-inner (c ∷ base) (normal t ∷ rest) n h = refl

pub retarget_path-under :
    (a b rest : FilePath)
    → IsNonempty b
    → All IsInner rest
    → retarget_path (a ++ rest) a b ≡ b ++ rest
unfolding retarget_path
retarget_path-under a b rest n h = rw (strip_prefix-append a rest) (join-inner b rest n h)

retarget_path_back :
    (a b path : FilePath)
    → IsNonempty a
    → IsNonempty b
    → LiesUnder a path
    → retarget_path (retarget_path path a b) b a ≡ path
retarget_path_back a b path na nb u =
    ap (λ (p : FilePath). retarget_path (retarget_path p a b) b a) u.joined
    ∙ ap (λ (p : FilePath). retarget_path p b a) (retarget_path-under a b u.rest nb u.inner)
    ∙ retarget_path-under b a u.rest na u.inner
    ∙ sym u.joined

abbrev pub LiesUnderOp : FilePath → FileOperation → Type 0
LiesUnderOp root (create path) = LiesUnder root path
LiesUnderOp root (delete path) = LiesUnder root path
LiesUnderOp root (rename from to) = LiesUnder root from × LiesUnder root to

-- Every path of the edit lies under `root`.
pub record AllUnder (root : FilePath) (edit : WorkspaceEdit) : Type 0 where
  pub files : All (λ (f : FileEdit). LiesUnder root f.path) edit.files
  pub file_ops : All (LiesUnderOp root) edit.file_ops

module _ (a b : FilePath) (na : IsNonempty a) (nb : IsNonempty b) where
  files_back :
      (files : List FileEdit)
      → All (λ (f : FileEdit). LiesUnder a f.path) files
      → map (retarget_file b a) (map (retarget_file a b) files) ≡ files
  files_back [] u = refl
  files_back (f ∷ files) u =
      let e = retarget_path_back a b f.path na nb u.0 in
      let same : retarget_file b a (retarget_file a b f) ≡ f =
        unfold retarget_file in ap (λ (p : FilePath). record f { path = p }) e in
      cc (same, files_back files u.1)

  op_back : (op : FileOperation) → LiesUnderOp a op → retarget_op (retarget_op op a b) b a ≡ op
  unfolding retarget_op
  op_back (create path) u = ap create (retarget_path_back a b path na nb u)
  op_back (delete path) u = ap delete (retarget_path_back a b path na nb u)
  op_back (rename from to) u =
      cc (retarget_path_back a b from na nb u.0, retarget_path_back a b to na nb u.1)

  ops_back :
      (ops : List FileOperation)
      → All (LiesUnderOp a) ops
      → map (λ op. retarget_op op b a) (map (λ op. retarget_op op a b) ops) ≡ ops
  ops_back [] u = refl
  ops_back (op ∷ ops) u = cc (op_back op u.0, ops_back ops u.1)

  -- For two roots that are not empty paths: an edit whose paths all lie under the first (in the sense
  -- of `LiesUnder`), retargeted onto the second and back again, is the edit that it was.
  pub retarget-retarget :
      (edit : WorkspaceEdit) → AllUnder a edit → retarget (retarget edit a b) b a ≡ edit
  unfolding retarget
  retarget-retarget edit u = λ i. record edit {
    files = files_back edit.files u.files i;
    file_ops = ops_back edit.file_ops u.file_ops i;
  }
