-- ===== src/Fs.antt =====
-- `std::fs` as the program uses it: the operations on a file system, and what their documentation
-- promises. A write, a rename or a removal returns the new state, also beside an error.
pub mod Memory
pub mod Action
use henka.Common.{◌≡◌, ◌≢◌, Bool, true, false, List, Option}
use henka.Text.{Text}
use henka.FilePath.{FilePath}
use henka.Error.{IoError}

pub data IoResult {ℓ} (A : Type ℓ) : Type ℓ where
  done : A → IoResult A
  failed : IoError → IoResult A

pub record FileSystem : Type 1 where
  pub State : Type 0
  pub read_to_string : State → FilePath → IoResult Text
  pub exists : State → FilePath → Bool
  pub is_dir : State → FilePath → Bool
  pub canonicalize : State → FilePath → IoResult FilePath
  pub write : State → FilePath → Text → IoResult (Unit {0}) × State
  pub create_dir_all : State → FilePath → IoResult (Unit {0}) × State
  pub rename : State → FilePath → FilePath → IoResult (Unit {0}) × State
  pub remove_file : State → FilePath → IoResult (Unit {0}) × State

-- What a successful write promises of reads, for paths that name distinct files.
pub record WritesFiles (fs : FileSystem) (Distinct : FilePath → FilePath → Type 0) : Type 1 where
  pub read-write_self :
      (s s' : fs.State) (p : FilePath) (t : Text)
      → fs.write s p t ≡ (IoResult.done tt, s')
      → fs.read_to_string s' p ≡ IoResult.done t
  pub read-write_ne :
      (s s' : fs.State) (p q : FilePath) (t : Text)
      → Distinct p q
      → fs.write s p t ≡ (IoResult.done tt, s')
      → fs.read_to_string s' q ≡ fs.read_to_string s q
