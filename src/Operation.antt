-- ===== src/Operation.antt =====
-- crates/henka-core/src/operation.rs: what operations declare, and the catalog that finds them.
pub mod Catalog
use henka.Common.{
  Bool, true, false, ◌&&◌, any, List, [], ◌∷◌, ◌++◌, Option, none, some, map, ◌==◌, list_eq, nat_eq,
  sort_by, if◌then◌else◌, not,
}
use henka.Text.{Text}
use henka.Text.Search.{text_lt}
use henka.FilePath.{FilePath}
use henka.Error.{Error, Result, operation_not_available, ok_or}
use henka.Language.{Language, language_eq}
use henka.Project.{Project}
use henka.Json.{Json}
use henka.Edit.{Position, Range}

pub data OperationKind : Type 0 where
  edit query : OperationKind

pub data TargetKind : Type 0 where
  position selection file project : TargetKind

pub data Target : Type 0 where
  position_target : FilePath → Position → Target
  selection_target : FilePath → Range → Target
  file_target : FilePath → Target
  project_target : Target

-- `Target::file`
abbrev pub target_file : Target → Option FilePath
target_file (position_target f p) = some f
target_file (selection_target f r) = some f
target_file (file_target f) = some f
target_file project_target = none

pub record OperationDescriptor : Type 0 where
  pub id : Text
  pub title : Text
  pub description : Text
  pub kind : OperationKind
  pub languages : List Language
  pub target : TargetKind
  pub params_schema : Json

-- `OperationDescriptor::applies_to`
abbrev pub applies_to : OperationDescriptor → Language → Bool
applies_to d language = any (λ l. l == language) d.languages

pub data LanguageRoute : Type 0 where
  unspecified : LanguageRoute
  routed : Language → LanguageRoute
  unplaceable : Text → LanguageRoute

-- `LanguageRoute::language`
abbrev pub route_language : LanguageRoute → Option Language
route_language (routed language) = some language
route_language _ = none

-- The catalog, over the type of the operations' implementations.
module _ (Operation : Type 0) where
  pub record Registered : Type 0 where
    pub descriptor : OperationDescriptor
    pub operation : Operation

  abbrev pub OperationRegistry : Type 0
  OperationRegistry = List Registered

  -- `OperationRegistry::extend`; `describe` is `Operation::descriptor`.
  unfoldable pub extend :
      (describe : Operation → OperationDescriptor)
      → List Operation
      → OperationRegistry
      → OperationRegistry
  extend describe ops registry =
      registry ++ map (λ op. record { descriptor = describe op; operation = op }) ops

  -- Whether a registration is of `id` and serves `language`.
  abbrev pub serves : Text → Language → Registered → Bool
  serves id language r = r.descriptor.id == id && applies_to r.descriptor language

  abbrev pub find : (Registered → Bool) → OperationRegistry → Option Registered
  find f [] = none
  find f (r ∷ rs) = let rest = find f rs in if f r then some r else rest

  abbrev operation_of : Option Registered → Option Operation
  operation_of none = none
  operation_of (some r) = some r.operation

  -- `OperationRegistry::resolve`
  unfoldable pub resolve : Text → Language → OperationRegistry → Result Operation
  resolve id language registry =
      ok_or (operation_of (find (serves id language) registry)) (operation_not_available id)

  -- `OperationRegistry::languages_for`
  unfoldable pub languages_for : Text → List Language → OperationRegistry → List Language
  languages_for id [] registry = []
  languages_for id (l ∷ ls) registry =
      let rest = languages_for id ls registry in
      if any (serves id l) registry then l ∷ rest else rest

  abbrev pub id_le : OperationDescriptor → OperationDescriptor → Bool
  id_le a b = not (text_lt b.id a.id)

  -- `dedup_by`: of neighbours with one id the first stays.
  unfoldable pub dedup_behind :
      OperationDescriptor → List OperationDescriptor → List OperationDescriptor
  dedup_behind d [] = []
  dedup_behind d (e ∷ es) =
      let same = dedup_behind d es in
      let rest = dedup_behind e es in if e.id == d.id then same else e ∷ rest

  unfoldable pub dedup_by_id : List OperationDescriptor → List OperationDescriptor
  unfolding dedup_behind
  dedup_by_id [] = []
  dedup_by_id (d ∷ ds) = d ∷ dedup_behind d ds

  abbrev pub applicable : Project → OperationRegistry → List OperationDescriptor
  applicable p [] = []
  applicable p (r ∷ rs) =
      let rest = applicable p rs in
      if any (λ l. applies_to r.descriptor l) p.languages then r.descriptor ∷ rest else rest

  -- `OperationRegistry::descriptors`
  unfoldable pub descriptors : OperationRegistry → List OperationDescriptor
  unfolding dedup_by_id
  descriptors registry = dedup_by_id (sort_by id_le (map (λ r. r.descriptor) registry))

  -- `OperationRegistry::descriptors_for`
  unfoldable pub descriptors_for : Project → OperationRegistry → List OperationDescriptor
  unfolding dedup_by_id
  descriptors_for p registry = dedup_by_id (sort_by id_le (applicable p registry))
