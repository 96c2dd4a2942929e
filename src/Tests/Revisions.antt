-- ===== src/Tests/Revisions.antt =====
-- A working copy with two changed files, and a git that knows their ids.
use mathlib.Core.List.{Perm}
use henka.Common.{
  ℕ, ◌≡◌, List, [], ◌∷◌, ◌++◌, Option, none, some, nat_eq, list_eq, sort_by, if◌then◌else◌, ◌==◌,
  true,
}
use henka.Text.{Text, codes}
use henka.FilePath.{FilePath, root_dir, normal}
use henka.Fs.Memory.{memory, Files}
use henka.Vcs.{Tools}
use henka.Vcs.Fingerprint.{path_le, path_input, working_copy_fingerprint}
use henka.Vcs.Fingerprint.Aligned.{listed, Paired, answered_ids, working_copy_fingerprint-Perm}

abbrev no_tools : Tools Files
no_tools = record {
  run = λ s root program args. none;
  run_bytes = λ s root program args. none;
  is_file = λ s path. true;
  after = λ s root program args. s;
}

-- Two ids for the paths, and one for a manifest.
abbrev git_hash : Files → FilePath → Text → List Text → Text → Option Text
git_hash s root program args input =
    if args == (codes "hash-object" ∷ codes "--stdin" ∷ [])
    then some (codes "m")
    else some (codes "x" ++ (b'\n' ∷ codes "y"))

abbrev no_bytes : Files → FilePath → Option (List ℕ)
no_bytes s path = none

abbrev home : FilePath
home = root_dir ∷ normal (codes "base") ∷ []

abbrev two_changed : List FilePath
two_changed = (normal (codes "b.rs") ∷ []) ∷ (normal (codes "a.rs") ∷ []) ∷ []

working_copy_fingerprint-Perm_example :
    (listed
        (working_copy_fingerprint memory no_tools git_hash no_bytes
          (λ t. t)
          (λ b. b)
          []
          home
          two_changed).files
      ≡ sort_by path_le two_changed)
    × Perm (sort_by path_le two_changed) two_changed
    × Paired
        (working_copy_fingerprint memory no_tools git_hash no_bytes
          (λ t. t)
          (λ b. b)
          []
          home
          two_changed).files
        (answered_ids memory no_tools git_hash no_bytes
          (λ t. t)
          (λ b. b)
          []
          home
          (path_input (sort_by path_le two_changed)))
working_copy_fingerprint-Perm_example =
    working_copy_fingerprint-Perm memory no_tools git_hash no_bytes (λ t. t) (λ b. b) [] home
      two_changed
