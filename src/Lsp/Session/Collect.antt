-- ===== src/Lsp/Session/Collect.antt =====
-- `collect_source_files` of crates/henka-lsp/src/session.rs: the files that a session indexes. The
-- tree of directories is finite, since a symbolic link is no directory; one that cannot be read has
-- no entries, and an entry that cannot be read is left out.
pub mod Bounded
use henka.Common.{
  ℕ, zero, suc, ◌+◌, Bool, true, false, List, [], ◌∷◌, ◌++◌, any, leb, ◌==◌, nat_eq, list_eq,
  length, if◌then◌else◌,
}
use henka.Text.{Text, codes}
use henka.FilePath.{FilePath}

mutual
  -- A directory with its name and its entries, anything else, or an entry whose type is unknown.
  pub data Entry : Type 0 where
    directory : (name : Text) → Listing → Entry
    file : FilePath → Entry
    untyped : Entry

  pub data Listing : Type 0 where
    no_entries : Listing
    entry : Entry → Listing → Listing

abbrev pub max_index_files : ℕ
max_index_files = 2000

abbrev pub skip_dirs : List Text
skip_dirs =
    codes ".git"
    ∷ codes ".jj"
    ∷ codes ".data"
    ∷ codes "config"
    ∷ codes "target"
    ∷ codes "build"
    ∷ codes "out"
    ∷ codes "node_modules"
    ∷ codes ".gradle"
    ∷ []

-- A directory's turn of the loop ends with the files and the stack, or with the result.
pub data Turn : Type 0 where
  over : List FilePath → Turn
  onward : List FilePath → List Listing → Turn

abbrev pub is_skipped : Text → Bool
is_skipped name = any (λ d. d == name) skip_dirs

-- The loop over the entries of a directory.
unfoldable pub scan_entries : (FilePath → Bool) → Listing → List FilePath → List Listing → Turn
scan_entries wanted no_entries out stack = onward out stack
scan_entries wanted (entry untyped rest) out stack =
    if leb max_index_files (length out) then over out else scan_entries wanted rest out stack
scan_entries wanted (entry (directory name dir) rest) out stack =
    let into = scan_entries wanted rest out (dir ∷ stack) in
    let past = scan_entries wanted rest out stack in
    if leb max_index_files (length out) then over out else (if is_skipped name then past else into)
scan_entries wanted (entry (file path) rest) out stack =
    let with_it = scan_entries wanted rest (out ++ (path ∷ [])) stack in
    let without = scan_entries wanted rest out stack in
    if leb max_index_files (length out)
    then over out
    else (if wanted path then with_it else without)

-- The loop over the stack. More fuel than there are directories is enough.
unfoldable pub collect_from : (FilePath → Bool) → ℕ → List Listing → List FilePath → List FilePath
collect_from wanted zero stack out = out
collect_from wanted (suc n) [] out = out
collect_from wanted (suc n) (dir ∷ stack) out = elim (scan_entries wanted dir out stack) [
  | over found ↦ found
  | onward found stack' ↦ collect_from wanted n stack' found
]

-- The directories in a listing, itself among them.
abbrev mutual
  pub directories : Listing → ℕ
  directories no_entries = 1
  directories (entry e rest) = directories_in e + directories rest

  pub directories_in : Entry → ℕ
  directories_in (directory name dir) = directories dir
  directories_in _ = 0

unfoldable pub collect_source_files : Listing → (FilePath → Bool) → List FilePath
unfolding collect_from scan_entries
collect_source_files root wanted = collect_from wanted (suc (directories root)) (root ∷ []) []
