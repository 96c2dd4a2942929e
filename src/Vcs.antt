-- ===== src/Vcs.antt =====
-- crates/henka-core/src/vcs.rs: what the program asks of version control. The tools are run by
-- `run` and `run_bytes`, which are parameters.
pub mod Delta
pub mod Fingerprint
use henka.Common.{
  ℕ, Bool, true, false, ◌&&◌, ◌||◌, not, List, [], ◌∷◌, ◌++◌, Option, none, some, Eq, ◌==◌, list_eq,
  nat_eq, if◌then◌else◌,
}
use henka.Text.{Text, codes, split_at, len_utf8}
use henka.Text.Search.{split, split_once, rsplit_once, trim, ends_with}
use henka.FilePath.{FilePath, of_text, is_absolute, join, last?, drop_last}
use henka.Error.{IoError}
use henka.Fs.{FileSystem, IoResult, done, failed}

pub data Vcs : Type 0 where
  jj git : Vcs

abbrev pub vcs_text : Vcs → Text
vcs_text jj = codes "jj"
vcs_text git = codes "git"

pub record Revision : Type 0 where
  pub vcs : Vcs
  pub id : Text
  pub branch : Option Text

-- `Revision::key`
unfoldable pub key : Revision → Text
key r = vcs_text r.vcs ++ (codes "-" ++ r.id)

pub record RepoId : Type 0 where
  pub vcs : Vcs
  pub path : FilePath

abbrev pub none_empty : List Text → List Text
none_empty [] = []
none_empty (t ∷ ts) = if t == [] then none_empty ts else t ∷ none_empty ts

-- Whether the byte at 0 or 1 is an `R`. A byte of that value is never part of a longer character.
abbrev pub is_rename : Text → Bool
is_rename [] = false
is_rename (c ∷ []) = c == b'R'
is_rename (c ∷ d ∷ t) = c == b'R' || (len_utf8 c == 1 && d == b'R')

abbrev after_status : Option (Text × Text) → Text
after_status none = []
after_status (some (status, path)) = path

-- `entry.get(3..).unwrap_or("")`
abbrev pub path_part : Text → Text
path_part entry = after_status (split_at entry 3)

-- The loop: a rename takes the field that follows with it.
unfoldable pub take_fields : List Text → List FilePath
take_fields [] = []
take_fields (entry ∷ []) = of_text (path_part entry) ∷ []
take_fields (entry ∷ old ∷ fields) =
    let rest = take_fields fields in
    let next = take_fields (old ∷ fields) in
    if is_rename entry then of_text (path_part entry) ∷ rest else of_text (path_part entry) ∷ next

-- `parse_git_porcelain_z`, of the text that the bytes decode to.
unfoldable pub parse_git_porcelain_z : Text → List FilePath
parse_git_porcelain_z text = take_fields (none_empty (split (λ c. c == 0) text))

-- `str::lines`: no line follows the last newline, and a line's `\r` at the end is dropped.
abbrev drop_end : List Text → List Text
drop_end [] = []
drop_end (t ∷ []) = if t == [] then [] else t ∷ []
drop_end (t ∷ u ∷ ts) = (if ends_with t (codes "\r") then drop_last t else t) ∷ drop_end (u ∷ ts)

abbrev pub lines : Text → List Text
lines t = drop_end (split (λ c. c == b'\n') t)

abbrev destination : Text → Option (Text × Text) → Text
destination rest none = rest
destination rest (some (old, dst)) = dst

abbrev of_line : Option (Text × Text) → List FilePath → List FilePath
of_line none paths = paths
of_line (some (status, rest)) paths =
    of_text (
      if status == codes "R" || status == codes "C"
      then destination rest (rsplit_once b' ' rest)
      else rest)
    ∷ paths

unfoldable pub parse_lines : List Text → List FilePath
parse_lines [] = []
parse_lines (line ∷ ls) = of_line (split_once b' ' line) (parse_lines ls)

-- `parse_jj_diff_summary`
unfoldable pub parse_jj_diff_summary : Text → List FilePath
unfolding parse_lines
parse_jj_diff_summary text = parse_lines (lines text)

-- The commands' outputs on success, what they write, and whether a path is a regular file.
pub record Tools (State : Type 0) : Type 0 where
  pub run : State → FilePath → Text → List Text → Option Text
  pub run_bytes : State → FilePath → Text → List Text → Option Text
  pub is_file : State → FilePath → Bool
  -- What a command leaves of the files: `jj diff` writes a snapshot into the repository. The
  -- commands that ask for a revision or an identity write nothing.
  pub after : State → FilePath → Text → List Text → State

abbrev pub in_dir : FilePath → Text → FilePath
in_dir p name = join p (of_text name)

module _ (fs : FileSystem) (tools : Tools fs.State) where
  open fs use {State}

  abbrev canonical_or : FilePath → IoResult FilePath → FilePath
  canonical_or p (done q) = q
  canonical_or p (failed e) = p

  -- `path.canonicalize().unwrap_or(path)`
  abbrev pub canonical : State → FilePath → FilePath
  canonical s p = canonical_or p (fs.canonicalize s p)

  abbrev pointed : State → FilePath → IoResult Text → Option FilePath
  pointed s jj_dir (done target) = some (canonical s (in_dir jj_dir (trim target)))
  pointed s jj_dir (failed e) = none

  -- `jj_repo_dir`
  unfoldable pub jj_repo_dir : State → FilePath → Option FilePath
  jj_repo_dir s root =
      let jj_dir = in_dir root (codes ".jj") in
      let repo = in_dir jj_dir (codes "repo") in
      if tools.is_file s repo
      then pointed s jj_dir (fs.read_to_string s repo)
      else some (canonical s repo)

  abbrev git_id : State → FilePath → Option Text → Option RepoId
  git_id s path none = none
  git_id s path (some common) =
      some (record { vcs = git; path = canonical s (join path (of_text (trim common))) })

  abbrev git_identity : State → FilePath → Option RepoId
  git_identity s path =
      if fs.exists s (in_dir path (codes ".git"))
      then git_id s path
          (tools.run s path (codes "git") (codes "rev-parse" ∷ codes "--git-common-dir" ∷ []))
      else none

  abbrev jj_or : Option FilePath → Option RepoId → Option RepoId
  jj_or none other = other
  jj_or (some repo) other = some (record { vcs = jj; path = repo })

  -- `repo_identity`
  unfoldable pub repo_identity : State → FilePath → Option RepoId
  unfolding jj_repo_dir
  repo_identity s path =
      if fs.is_dir s (in_dir path (codes ".jj"))
      then jj_or (jj_repo_dir s path) (git_identity s path)
      else git_identity s path

  abbrev parsed : (Text → List FilePath) → Option Text → List FilePath
  parsed f none = []
  parsed f (some t) = f t

  abbrev only_files : State → FilePath → List FilePath → List FilePath
  only_files s root [] = []
  only_files s root (rel ∷ paths) =
      let rest = only_files s root paths in
      if tools.is_file s (join root rel) then rel ∷ rest else rest

  abbrev jj_diff : List Text
  jj_diff = codes "diff" ∷ codes "--summary" ∷ codes "-r" ∷ codes "@" ∷ []

  abbrev git_status : List Text
  git_status = codes "status" ∷ codes "--porcelain" ∷ codes "-z" ∷ []

  -- The files among the paths that the tool printed, with what its run left.
  abbrev existing : FilePath → List FilePath → State → List FilePath × State
  existing root paths s = (only_files s root paths, s)

  -- `working_copy_delta`
  unfoldable pub working_copy_delta : State → FilePath → List FilePath × State
  working_copy_delta s root =
      if fs.is_dir s (in_dir root (codes ".jj"))
      then existing root (parsed parse_jj_diff_summary (tools.run s root (codes "jj") jj_diff))
          (tools.after s root (codes "jj") jj_diff)
      else (if fs.exists s (in_dir root (codes ".git"))
          then existing root
              (parsed parse_git_porcelain_z (tools.run_bytes s root (codes "git") git_status))
              (tools.after s root (codes "git") git_status)
          else ([], s))
