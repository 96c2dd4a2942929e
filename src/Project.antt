-- ===== src/Project.antt =====
-- crates/henka-core/src/project.rs: a registered project, and what a project id is.
use henka.Common.{Bool, not, ◌&&◌, ◌||◌, all, any, List, [], ◌==◌, nat_eq, list_eq}
use henka.Text.{Text, codes}
use henka.Text.Search.{starts_with, ends_with, is_ascii_lowercase, is_ascii_digit}
use henka.FilePath.{FilePath}
use henka.Language.{Language, language_eq}

pub record Project : Type 0 where
  pub id : Text
  pub root : FilePath
  pub languages : List Language

-- `Project::has_language`
unfoldable pub has_language : Project → Language → Bool
has_language p language = any (λ l. l == language) p.languages

-- The characters of a slug: lowercase ASCII letters, digits and dashes.
abbrev pub are_slug_chars : Text → Bool
are_slug_chars t = all (λ c. is_ascii_lowercase c || (is_ascii_digit c || c == b'-')) t

unfoldable pub validate_project_id : Text → Bool
validate_project_id id =
    not (id == [])
    && (not (starts_with id (codes "-")) && (not (ends_with id (codes "-")) && are_slug_chars id))
