-- ===== src/Vcs/Fingerprint.antt =====
-- The revision and the fingerprint of a working copy: `detect_revision` and
-- `working_copy_fingerprint` of crates/henka-core/src/vcs.rs. Parameters are the tools, also with an
-- input, the bytes of a file and of a text, and SHA-256.
pub mod Aligned
use henka.Common.{
  ℕ, ◌+◌, ◌-◌, ◌/◌, ◌%◌, Bool, true, false, not, ◌&&◌, ◌||◌, any, List, [], ◌∷◌, ◌++◌, Option, none,
  some, ltb, ◌==◌, nat_eq, list_eq, length, sort_by, if◌then◌else◌,
}
use henka.Text.{Text, codes}
use henka.Text.Search.{trim, text_lt}
use henka.FilePath.{
  FilePath, Component, root_dir, cur_dir, parent_dir, normal, component_eq, join, display,
}
use henka.Fs.{FileSystem}
use henka.Vcs.{Vcs, jj, git, Revision, Tools, in_dir, lines, none_empty}

abbrev trimmed : Option Text → Option Text
trimmed none = none
trimmed (some t) = if trim t == [] then none else some (trim t)

abbrev named_branch : Option Text → Option Text
named_branch none = none
named_branch (some t) = if t == codes "HEAD" then none else some t

abbrev revision : Vcs → Option Text → Option Text → Option Revision
revision vcs none branch = none
revision vcs (some id) branch = some (record { vcs = vcs; id = trim id; branch = branch })

abbrev jj_log : Text → List Text
jj_log template =
    codes "log"
    ∷ codes "-r"
    ∷ codes "@"
    ∷ codes "--no-graph"
    ∷ codes "--ignore-working-copy"
    ∷ codes "-T"
    ∷ template
    ∷ []

-- Paths are ordered by their components.
abbrev rank : Component → ℕ
rank root_dir = 0
rank cur_dir = 1
rank parent_dir = 2
rank (normal t) = 3

abbrev component_lt : Component → Component → Bool
component_lt (normal a) (normal b) = text_lt a b
component_lt a b = ltb (rank a) (rank b)

abbrev pub path_lt : FilePath → FilePath → Bool
path_lt [] [] = false
path_lt [] (d ∷ q) = true
path_lt (c ∷ p) [] = false
path_lt (c ∷ p) (d ∷ q) = component_lt c d || (c == d && path_lt p q)

abbrev pub path_le : FilePath → FilePath → Bool
path_le p q = not (path_lt q p)

pub record ChangedFile : Type 0 where
  pub path : FilePath
  pub oid : Option Text

pub record WorkingCopyFingerprint : Type 0 where
  pub files : List ChangedFile
  pub digest : Option Text

abbrev pub hex_of : ℕ → ℕ
hex_of d = if ltb d 10 then b'0' + d else b'a' + (d - 10)

unfoldable pub hex : List ℕ → Text
hex [] = []
hex (b ∷ bytes) = hex_of (b / 16) ∷ hex_of (b % 16) ∷ hex bytes

abbrev has_newline : Text → Bool
has_newline t = any (λ c. c == b'\n') t

abbrev input_lines : List FilePath → Option Text → Option Text
input_lines paths none = none
input_lines [] (some rest) = some rest
input_lines (p ∷ paths) (some rest) = some (display p ++ (b'\n' ∷ rest))

-- The paths on lines of their own; none where one of them has a newline.
unfoldable pub path_input : List FilePath → Option Text
path_input [] = some []
path_input (p ∷ paths) =
    let rest = input_lines (p ∷ paths) (path_input paths) in
    if has_newline (display p) then none else rest

abbrev pub trim_all : List Text → List Text
trim_all [] = []
trim_all (t ∷ ts) = trim t ∷ trim_all ts

abbrev pub zipped : List FilePath → List Text → List ChangedFile
zipped (p ∷ paths) (oid ∷ oids) = record { path = p; oid = some oid } ∷ zipped paths oids
zipped _ _ = []

abbrev pub without_oids : List FilePath → List ChangedFile
without_oids [] = []
without_oids (p ∷ paths) = record { path = p; oid = none } ∷ without_oids paths

abbrev or_empty : Option Text → Text
or_empty none = []
or_empty (some t) = t

unfoldable pub manifest : List ChangedFile → Text
manifest [] = []
manifest (f ∷ files) = or_empty f.oid ++ (b' ' ∷ (display f.path ++ (b'\n' ∷ manifest files)))

module _ (fs : FileSystem) (tools : Tools fs.State)
    (run_stdin : fs.State → FilePath → Text → List Text → Text → Option Text)
    (read : fs.State → FilePath → Option (List ℕ)) (utf8 : Text → List ℕ)
    (sha256 : List ℕ → List ℕ) where
  -- A path that is there but is no directory has no `.jj`.
  unfoldable pub detect_revision : fs.State → FilePath → Option Revision
  detect_revision s root =
      if fs.is_dir s (in_dir root (codes ".jj"))
      then revision jj (tools.run s root (codes "jj") (jj_log (codes "change_id.short()")))
          (trimmed (tools.run s root (codes "jj") (jj_log (codes "bookmarks.join(\" \")"))))
      else (if fs.exists s (in_dir root (codes ".git"))
          then revision git
              (tools.run s root (codes "git")
                (codes "rev-parse" ∷ codes "--short" ∷ codes "HEAD" ∷ []))
              (named_branch (
                trimmed (
                  tools.run s root (codes "git")
                    (codes "rev-parse" ∷ codes "--abbrev-ref" ∷ codes "HEAD" ∷ []))))
          else none)

  abbrev pub oids_of : List FilePath → Option Text → Option (List Text)
  oids_of paths none = none
  oids_of paths (some out) =
      let oids = none_empty (trim_all (lines out)) in
      if length oids == length paths then some oids else none

  abbrev pub blob_oids : fs.State → FilePath → List FilePath → Option Text → Option (List Text)
  blob_oids s root paths none = none
  blob_oids s root paths (some input) = oids_of paths (
      run_stdin s root (codes "git")
        (codes "hash-object" ∷ codes "--no-filters" ∷ codes "--stdin-paths" ∷ []) input)

  unfoldable pub git_blob_oids : fs.State → FilePath → List FilePath → Option (List Text)
  unfolding path_input
  git_blob_oids s root paths = blob_oids s root paths (path_input paths)

  unfoldable pub git_hash_stdin : fs.State → FilePath → Text → Option Text
  git_hash_stdin s root bytes =
      trimmed (run_stdin s root (codes "git") (codes "hash-object" ∷ codes "--stdin" ∷ []) bytes)

  abbrev onto : FilePath → Option (List ℕ) → Option (List ℕ) → Option (List ℕ)
  onto rel (some bytes) (some rest) = some (utf8 (display rel) ++ (b'\n' ∷ (bytes ++ rest)))
  onto rel _ _ = none

  -- What the hasher is fed, and its digest.
  unfoldable pub raw_content : fs.State → FilePath → List FilePath → Option (List ℕ)
  raw_content s root [] = some []
  raw_content s root (rel ∷ paths) = onto rel (read s (join root rel)) (raw_content s root paths)

  abbrev digested : Option (List ℕ) → Option Text
  digested none = none
  digested (some bytes) = some (hex (sha256 bytes))

  unfoldable pub raw_content_digest : fs.State → FilePath → List FilePath → Option Text
  unfolding raw_content hex
  raw_content_digest s root paths = digested (raw_content s root paths)

  abbrev pub fingerprint_of :
      fs.State → FilePath → List FilePath → Option (List Text) → WorkingCopyFingerprint
  fingerprint_of s root paths (some oids) =
      let files = zipped paths oids in
      record { files = files; digest = git_hash_stdin s root (manifest files) }
  fingerprint_of s root paths none = record {
    files = without_oids paths;
    digest = raw_content_digest s root paths;
  }

  unfoldable pub working_copy_fingerprint :
      fs.State → FilePath → List FilePath → WorkingCopyFingerprint
  unfolding git_blob_oids
  working_copy_fingerprint s root [] = record { files = []; digest = none }
  working_copy_fingerprint s root (p ∷ changed) =
      let paths = sort_by path_le (p ∷ changed) in
      fingerprint_of s root paths (git_blob_oids s root paths)
