-- ===== src/Edit.antt =====
-- The data of crates/henka-core/src/edit.rs. A `u32` field is a number; where the code counts in
-- `u32` the wrap-around is written out.
pub mod Offset
pub mod Retarget
pub mod Rewrite
pub mod Expect
pub mod Plan
pub mod Apply
use henka.Common.{ℕ, ◌^◌, Bool, ◌&&◌, List, [], ◌∷◌, all, map, leb, Option, none, some}
use henka.Text.{Text}
use henka.FilePath.{FilePath, strip_prefix, join}

abbrev pub u32_mod : ℕ
u32_mod = 2 ^ 32

-- How the `character` of a position is counted.
pub data PositionEncoding : Type 0 where
  utf8 utf16 utf32 : PositionEncoding

pub record Position : Type 0 where
  pub line : ℕ
  pub character : ℕ

pub record Range : Type 0 where
  pub start : Position
  pub end : Position

pub record TextEdit : Type 0 where
  pub range : Range
  pub new_text : Text

pub record FileEdit : Type 0 where
  pub path : FilePath
  pub edits : List TextEdit

pub data FileOperation : Type 0 where
  create : FilePath → FileOperation
  rename : FilePath → FilePath → FileOperation
  delete : FilePath → FileOperation

pub record WorkspaceEdit : Type 0 where
  pub encoding : PositionEncoding
  pub files : List FileEdit
  pub file_ops : List FileOperation

-- `WorkspaceEdit::empty`
abbrev pub empty_edit : WorkspaceEdit
empty_edit = record { encoding = utf16; files = []; file_ops = [] }

abbrev is_nil {ℓ} : {A : Type ℓ} → List A → Bool
is_nil [] = Bool.true
is_nil (x ∷ xs) = Bool.false

-- `WorkspaceEdit::is_empty`
unfoldable pub is_empty : WorkspaceEdit → Bool
is_empty e = all (λ f. is_nil f.edits) e.files && is_nil e.file_ops

abbrev rebased : FilePath → FilePath → Option FilePath → FilePath
rebased path to_root none = path
rebased path to_root (some rel) = join to_root rel

unfoldable pub retarget_path : FilePath → FilePath → FilePath → FilePath
retarget_path path from_root to_root = rebased path to_root (strip_prefix path from_root)

unfoldable pub retarget_op : FileOperation → FilePath → FilePath → FileOperation
retarget_op (create path) from_root to_root = create (retarget_path path from_root to_root)
retarget_op (delete path) from_root to_root = delete (retarget_path path from_root to_root)
retarget_op (rename from to) from_root to_root =
    rename (retarget_path from from_root to_root) (retarget_path to from_root to_root)

unfoldable pub retarget_file : FilePath → FilePath → FileEdit → FileEdit
retarget_file from_root to_root file = record file {
  path = retarget_path file.path from_root to_root;
}

-- `WorkspaceEdit::retarget`
unfoldable pub retarget : WorkspaceEdit → FilePath → FilePath → WorkspaceEdit
retarget edit from_root to_root = record edit {
  files = map (retarget_file from_root to_root) edit.files;
  file_ops = map (λ op. retarget_op op from_root to_root) edit.file_ops;
}
