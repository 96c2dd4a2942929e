-- ===== src/Registry.antt =====
-- crates/henka-core/src/registry.rs: the projects by id, and their file.
pub mod Slug
pub mod Store
use henka.Common.{
  Bool, true, false, any, List, [], ◌∷◌, Option, none, some, map, ◌==◌, list_eq, nat_eq, ◌||◌,
  if◌then◌else◌,
}
use henka.Common.BTreeMap.{BTreeMap}
use henka.Text.{Text, codes}
use henka.Text.Search.{trim_matches, is_ascii_lowercase, is_ascii_digit}
use henka.FilePath.{FilePath, file_name}
use henka.Language.{Language}
use henka.Project.{Project}

-- `ProjectEntry` and `RegistryFile`: the shape of the file.
pub record ProjectEntry : Type 0 where
  pub root : FilePath
  pub languages : List Language

abbrev pub RegistryFile : Type 0
RegistryFile = BTreeMap Text ProjectEntry

unfoldable pub entry_of : Text × Project → Text × ProjectEntry
entry_of (id, p) = (id, record { root = p.root; languages = p.languages })

unfoldable pub project_of : Text × ProjectEntry → Text × Project
project_of (id, entry) = (id, record { id = id; root = entry.root; languages = entry.languages })

unfoldable pub from_projects : BTreeMap Text Project → RegistryFile
unfolding entry_of
from_projects projects = map entry_of projects

unfoldable pub into_projects : RegistryFile → BTreeMap Text Project
unfolding project_of
into_projects file = map project_of file

-- `str::to_lowercase` knows all of Unicode: a parameter.
module _ (to_lowercase : Text → Text) where
  unfoldable pub raw_name : Option Text → Text
  raw_name none = []
  raw_name (some name) = to_lowercase name

  unfoldable pub derive_id : FilePath → Text
  unfolding raw_name
  derive_id root =
      let slug =
        trim_matches (λ c. c == b'-')
          (map (λ c. if is_ascii_lowercase c || is_ascii_digit c then c else b'-')
            (raw_name (file_name root))) in
      if slug == [] then codes "project" else slug
