-- ===== src/Tests/Requests.antt =====
-- Requests: paths, arguments, the catalog, dispatch, results and changed files.
use henka.Common.{
  ℕ, ◌≡◌, refl, Bool, ◌&&◌, ◌||◌, any, List, [], ◌∷◌, Option, none, some, arith, map, ◌==◌, nat_eq,
  list_eq,
}
use henka.Text.{Text, codes}
use henka.FilePath.{FilePath, root_dir, normal, of_text}
use henka.Language.{java, typescript, javascript, language_eq}
use henka.Project.{Project}
use henka.Json.{null, unsigned, array, object, no_items, item, Fields, no_fields, field, get}
use henka.Operation.{
  OperationDescriptor, query, position, OperationRegistry, resolve, languages_for, descriptors_for,
  Target, position_target, unspecified,
}
use henka.Operation.Catalog.{succeeds, has_id, languages_for-resolve, descriptors_for-resolve}
use henka.Provider.{ProviderRegistry}
use henka.Edit.{utf16}
use henka.Edit.Expect.{identifier_at}
use henka.Edit.Expect.Identifier.{IsIdentified, identifier_at-IsIdentified}
use henka.Server.PathMap.{PathMap, map_path, reverse_path, exchanged}
use henka.Server.PathMap.Longest.{IsTranslation, given, translation_lem}
use henka.Server.Ops.{merge_fields, merge_query_results}
use henka.Server.Ops.Merge.{
  IsMap, merge_options, get-merge_fields, IsCappedResult, merge_query_results-IsCappedResult,
}
use henka.Server.Dispatch.{dispatch_languages, named}
use henka.Server.Dispatch.Served.{IsServed, dispatch_languages-IsServed}
use henka.Vcs.{parse_git_porcelain_z, path_part}
use henka.Vcs.Delta.{
  Change, changed, moved, change_path, porcelain, parse_git_porcelain_z-porcelain,
  parse_git_porcelain_z_copied,
}

abbrev dir : Text → FilePath
dir name = root_dir ∷ normal name ∷ []

abbrev mounts : PathMap
mounts =
    (dir (codes "home"), dir (codes "ws"))
    ∷ (root_dir ∷ normal (codes "home") ∷ normal (codes "me") ∷ [], dir (codes "mine"))
    ∷ []

abbrev asked : FilePath
asked = root_dir ∷ normal (codes "home") ∷ normal (codes "me") ∷ normal (codes "p") ∷ []

translation_lem_example :
    IsTranslation (exchanged mounts) asked (reverse_path mounts asked)
    × ((t : Option FilePath) × IsTranslation mounts asked t
        × (map_path mounts asked ≡ given asked t))
translation_lem_example = translation_lem mounts asked

abbrev found : ℕ → Fields
found n =
    field (codes "count") (unsigned n)
      (field (codes "usages") (array (item (unsigned n) no_items)) no_fields)

found-IsMap : IsMap (found 2)
unfolding get
found-IsMap = (refl, (refl, tt))

get-merge_fields_example :
    get (codes "usages") (merge_fields (found 1) (found 2))
    ≡ merge_options (get (codes "usages") (found 1)) (get (codes "usages") (found 2))
get-merge_fields_example = get-merge_fields (found 1) (found 2) (codes "usages") found-IsMap

merge_query_results-IsCappedResult_example :
    IsCappedResult 1
      (merge_query_results (object (found 1) ∷ object (found 2) ∷ []) none)
      (merge_query_results (object (found 1) ∷ object (found 2) ∷ []) (some 1))
merge_query_results-IsCappedResult_example =
    merge_query_results-IsCappedResult (object (found 1) ∷ object (found 2) ∷ []) 1

abbrev usages : OperationDescriptor
usages = record {
  id = codes "find-usages";
  title = [];
  description = [];
  kind = query;
  languages = typescript ∷ javascript ∷ [];
  target = position;
  params_schema = null;
}

abbrev catalog : OperationRegistry ℕ
catalog = record { descriptor = usages; operation = 7 } ∷ []

languages_for-resolve_example :
    any
      (λ k. k == typescript)
      (languages_for ℕ (codes "find-usages") (java ∷ typescript ∷ []) catalog)
    ≡ (any (λ k. k == typescript) (java ∷ typescript ∷ [])
        && succeeds (resolve ℕ (codes "find-usages") typescript catalog))
languages_for-resolve_example =
    languages_for-resolve ℕ (codes "find-usages") (java ∷ typescript ∷ []) catalog typescript

abbrev web : Project
web = record { id = codes "web"; root = dir (codes "web"); languages = java ∷ typescript ∷ [] }

descriptors_for-resolve_example :
    any (has_id (codes "find-usages")) (descriptors_for ℕ web catalog)
    ≡ any (λ l. succeeds (resolve ℕ (codes "find-usages") l catalog)) (java ∷ typescript ∷ [])
descriptors_for-resolve_example = descriptors_for-resolve ℕ (codes "find-usages") web catalog

abbrev providers : ProviderRegistry ℕ
providers = (java, 0) ∷ (typescript, 1) ∷ (javascript, 1) ∷ []

abbrev script : Target
script = position_target (normal (codes "a.js") ∷ []) (record { line = 0; character = 0 })

dispatch_languages-IsServed_example :
    IsServed ℕ providers
      (java ∷ typescript ∷ [])
      usages
      (named script unspecified)
      (dispatch_languages ℕ (java ∷ typescript ∷ []) providers usages script unspecified)
dispatch_languages-IsServed_example =
    dispatch_languages-IsServed ℕ providers (java ∷ typescript ∷ []) usages script unspecified

abbrev is_letter : ℕ → Bool
is_letter c = c == b'a' || c == b'b'

identifier_at-IsIdentified_example :
    IsIdentified is_letter
      (codes "ab = b")
      (record { line = 0; character = 1 })
      utf16
      (identifier_at is_letter (codes "ab = b") (record { line = 0; character = 1 }) utf16)
identifier_at-IsIdentified_example =
    identifier_at-IsIdentified is_letter (codes "ab = b") (record { line = 0; character = 1 }) utf16
      (omega arith)

abbrev changes : List Change
changes =
    moved b'R' b' ' (codes "new.rs") (codes "old.rs") ∷ changed b' ' b'M' (codes "src/a.rs") ∷ []

parse_git_porcelain_z-porcelain_example :
    parse_git_porcelain_z (porcelain changes) ≡ map (λ c. of_text (change_path c)) changes
parse_git_porcelain_z-porcelain_example = parse_git_porcelain_z-porcelain changes refl refl

parse_git_porcelain_z_copied_example :
    parse_git_porcelain_z (porcelain (moved b'C' b' ' (codes "new.rs") (codes "old.rs") ∷ changes))
    ≡ of_text (codes "new.rs")
      ∷ of_text (path_part (codes "old.rs"))
      ∷ map (λ c. of_text (change_path c)) changes
unfolding henka.Text.len_utf8
parse_git_porcelain_z_copied_example =
    parse_git_porcelain_z_copied b'C' b' ' (codes "new.rs") (codes "old.rs") changes refl refl refl
      refl
