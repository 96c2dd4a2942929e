-- ===== src/Server/Dispatch.antt =====
-- Who serves a request: `dispatch_languages`, `serving_candidate` and `remap_target_file` of
-- crates/henka-server/src/mcp.rs.
pub mod Served
use henka.Common.{
  Bool, true, false, ◌&&◌, any, List, [], ◌∷◌, ◌++◌, Option, none, some, Eq, ◌==◌, if◌then◌else◌,
}
use henka.Common.BTreeMap.{lookup}
use henka.Text.{Text, codes}
use henka.FilePath.{FilePath, is_absolute}
use henka.Language.{Language, language_eq, as_str, from_path}
use henka.Operation.{
  OperationKind, query, TargetKind, project, Target, position_target, selection_target, file_target,
  project_target, target_file, OperationDescriptor, LanguageRoute, unspecified, routed, unplaceable,
  route_language,
}
use henka.Provider.{ProviderRegistry, get}
use henka.Server.PathMap.{PathMap, map_path}
use henka.Server.Mcp.{McpError, invalid_params, Reply, answer, refuse}

abbrev translated : PathMap → FilePath → FilePath
translated m file = if is_absolute file then map_path m file else file

unfoldable pub remap_target_file : PathMap → Target → Target
remap_target_file m (position_target file p) = position_target (translated m file) p
remap_target_file m (selection_target file r) = selection_target (translated m file) r
remap_target_file m (file_target file) = file_target (translated m file)
remap_target_file m project_target = project_target

abbrev language_of_file : Option FilePath → Option Language
language_of_file none = none
language_of_file (some file) = from_path file

abbrev or_else {ℓ} : {A : Type ℓ} → Option A → Option A → Option A
or_else none o = o
or_else (some a) o = some a

abbrev is_project : TargetKind → Bool
is_project project = true
is_project _ = false

abbrev is_query : OperationKind → Bool
is_query query = true
is_query _ = false

abbrev pub is_project_query : OperationDescriptor → Bool
is_project_query d = is_project d.target && is_query d.kind

-- The language that the target's file or the parameters name.
unfoldable pub named : Target → LanguageRoute → Option Language
named target route = or_else (language_of_file (target_file target)) (route_language route)

abbrev not_served : OperationDescriptor → Language → McpError
not_served d language = invalid_params (
    codes "`"
    ++ (d.id ++ (codes "` is not served for `" ++ (as_str language ++ codes "` in this project"))))

abbrev nowhere : OperationDescriptor → Text → McpError
nowhere d handle = invalid_params (
    codes "cannot tell which language `"
    ++ (handle
        ++ (codes "` belongs to, so `"
            ++ (d.id
                ++ codes
                    "` has nowhere to run;                  pass a handle this project's servers issued"))))

abbrev pub first {ℓ} : {A : Type ℓ} → List A → List A
first [] = []
first (a ∷ rest) = a ∷ []

module _ (Provider : Type 0) ⦃e : Eq Provider⦄ where
  abbrev is_served_by : Provider → Option Provider → Bool
  is_served_by serving none = false
  is_served_by serving (some p) = p == serving

  abbrev find_sharing : Provider → ProviderRegistry Provider → List Language → Option Language
  find_sharing serving providers [] = none
  find_sharing serving providers (c ∷ cs) =
      let rest = find_sharing serving providers cs in
      if is_served_by serving (lookup c providers) then some c else rest

  abbrev sharing : List Language → ProviderRegistry Provider → Option Provider → Option Language
  sharing candidates providers none = none
  sharing candidates providers (some serving) = find_sharing serving providers candidates

  unfoldable pub serving_candidate :
      List Language → ProviderRegistry Provider → Language → Option Language
  serving_candidate candidates providers language =
      if any (λ c. c == language) candidates
      then some language
      else sharing candidates providers (lookup language providers)

  abbrev place : OperationDescriptor → Language → Option Language → Reply (List Language)
  place d language none = refuse (not_served d language)
  place d language (some c) = answer (c ∷ [])

  abbrev unnamed : List Language → OperationDescriptor → LanguageRoute → Reply (List Language)
  unnamed candidates d (unplaceable handle) = refuse (nowhere d handle)
  unnamed candidates d _ =
      if is_project_query d then answer candidates else answer (first candidates)

  abbrev placed :
      List Language
      → ProviderRegistry Provider
      → OperationDescriptor
      → LanguageRoute
      → Option Language
      → Reply (List Language)
  placed candidates providers d route none = unnamed candidates d route
  placed candidates providers d route (some language) =
      place d language (serving_candidate candidates providers language)

  unfoldable pub dispatch_languages :
      List Language
      → ProviderRegistry Provider
      → OperationDescriptor
      → Target
      → LanguageRoute
      → Reply (List Language)
  dispatch_languages candidates providers d target route =
      placed candidates providers d route (named target route)
