-- ===== src/Server/Ops.antt =====
-- crates/henka-server/src/ops.rs: the arguments of a call, and the merge of its results.
pub mod Merge
use henka.Common.{
  ℕ, zero, suc, ◌+◌, ◌%◌, ◌^◌, Bool, true, false, not, ◌||◌, any, List, [], ◌∷◌, ◌++◌, Option, none,
  some, ltb, ◌==◌, list_eq, nat_eq, if◌then◌else◌,
}
use henka.Text.{Text, codes}
use henka.FilePath.{FilePath, of_text}
use henka.Edit.{Position, Range}
use henka.Operation.{
  TargetKind, position, selection, file, project, Target, position_target, selection_target,
  file_target, project_target,
}
use henka.Json.{
  Json, null, bool, unsigned, number, string, array, object, Items, no_items, item, Fields,
  no_fields, field, get, remove, insert,
}
use henka.Server.Mcp.{McpError, invalid_params, Reply, answer, refuse, ◌>>=◌, ◌>>◌}

abbrev pub envelope_keys : List Text
envelope_keys =
    codes "project"
    ∷ codes "workspace"
    ∷ codes "file"
    ∷ codes "line"
    ∷ codes "character"
    ∷ codes "start_line"
    ∷ codes "start_character"
    ∷ codes "end_line"
    ∷ codes "end_character"
    ∷ codes "expect"
    ∷ codes "dry_run"
    ∷ []

abbrev string_of : Option Json → Option Text
string_of (some (string t)) = some t
string_of _ = none

abbrev pub as_u64 : Option Json → Option ℕ
as_u64 (some (unsigned n)) = some n
as_u64 _ = none

abbrev as_bool : Option Json → Option Bool
as_bool (some (bool b)) = some b
as_bool _ = none

abbrev or_refuse {ℓ} : {A : Type ℓ} → Option A → Text → Reply A
or_refuse none message = refuse (invalid_params message)
or_refuse (some a) message = answer a

abbrev non_empty : Option Text → Option Text
non_empty none = none
non_empty (some t) = if t == [] then none else some t

unfoldable pub project_id : Fields → Reply Text
project_id args =
    or_refuse (string_of (get (codes "project") args)) (codes "missing required `project`")

abbrev to_path : Option Text → Option FilePath
to_path none = none
to_path (some t) = some (of_text t)

unfoldable pub workspace : Fields → Option FilePath
workspace args = to_path (non_empty (string_of (get (codes "workspace") args)))

unfoldable pub expect : Fields → Option Text
expect args = non_empty (string_of (get (codes "expect") args))

abbrev or_true : Option Bool → Bool
or_true none = true
or_true (some b) = b

-- An edit is a preview unless the caller says otherwise.
unfoldable pub dry_run : Fields → Bool
dry_run args = or_true (as_bool (get (codes "dry_run") args))

unfoldable pub get_str : Fields → Text → Reply Text
get_str args key =
    or_refuse (string_of (get key args)) (codes "missing or non-string `" ++ (key ++ codes "`"))

-- `u32::try_from`
abbrev fits_u32 : Option ℕ → Option ℕ
fits_u32 none = none
fits_u32 (some n) = if ltb n (2 ^ 32) then some n else none

unfoldable pub get_u32 : Fields → Text → Reply ℕ
get_u32 args key =
    or_refuse (fits_u32 (as_u64 (get key args)))
      (codes "missing or invalid `" ++ (key ++ codes "` (expected a non-negative integer)"))

get_position : Fields → Text → Text → Reply Position
get_position args line_key character_key = do
  line ← get_u32 args line_key
  character ← get_u32 args character_key
  answer (record { line = line; character = character })

unfoldable pub parse_target : Fields → TargetKind → Reply Target
unfolding get_position
parse_target args position = do
  name ← get_str args (codes "file")
  p ← get_position args (codes "line") (codes "character")
  answer (position_target (of_text name) p)
parse_target args selection = do
  name ← get_str args (codes "file")
  start ← get_position args (codes "start_line") (codes "start_character")
  end ← get_position args (codes "end_line") (codes "end_character")
  answer (selection_target (of_text name) (record { start = start; end = end }))
parse_target args file = do name ← get_str args (codes "file"); answer (file_target (of_text name))
parse_target args project = answer project_target

unfoldable pub params_of : Fields → Fields
params_of no_fields = no_fields
params_of (field k v m) =
    let rest = params_of m in if any (λ e. e == k) envelope_keys then rest else field k v rest

-- `operation_params`
unfoldable pub operation_params : Fields → Json
unfolding params_of
operation_params args = object (params_of args)

-- `value.get(key)` on any value.
abbrev member : Text → Option Json → Option Json
member k (some (object m)) = get k m
member k _ = none

abbrev or_other : Option Json → Option Json → Option Json
or_other none o = o
or_other (some v) o = some v

-- A `usize` has 64 bits, so every `u64` fits.
unfoldable pub result_limit : Json → Json → Option ℕ
result_limit params schema = as_u64 (
    or_other (member (codes "limit") (some params)) (
      member (codes "default")
        (member (codes "limit") (member (codes "properties") (some schema)))))

abbrev pub append_items : Items → Items → Items
append_items no_items ys = ys
append_items (item x xs) ys = item x (append_items xs ys)

-- The sum of two counts wraps, as it does in a release build.
abbrev pub merge_scalars : Json → Json → Json
merge_scalars (array xs) (array ys) = array (append_items xs ys)
merge_scalars (bool a) (bool b) = bool (a || b)
merge_scalars (unsigned m) (unsigned n) = unsigned ((m + n) % 2 ^ 64)
merge_scalars left right = left

unfoldable mutual
  pub merge : Json → Json → Json
  merge (object left) (object right) = object (merge_fields left right)
  merge left right = merge_scalars left right

  -- The loop over the right object's fields.
  pub merge_fields : Fields → Fields → Fields
  merge_fields left no_fields = left
  merge_fields left (field k v right) =
      let merged_value : Json = elim (get k left) [ none ↦ v | some existing ↦ merge existing v ] in
      merge_fields (insert k merged_value (remove k left)) right

abbrev pub length_items : Items → ℕ
length_items no_items = 0
length_items (item x xs) = suc (length_items xs)

abbrev pub truncate_items : ℕ → Items → Items
truncate_items zero xs = no_items
truncate_items (suc n) no_items = no_items
truncate_items (suc n) (item x xs) = item x (truncate_items n xs)

abbrev pub is_over : ℕ → Json → Bool
is_over limit (array xs) = ltb limit (length_items xs)
is_over limit _ = false

abbrev pub cap : ℕ → Json → Json
cap limit (array xs) =
    if ltb limit (length_items xs) then array (truncate_items limit xs) else array xs
cap limit v = v

abbrev pub cap_fields : ℕ → Fields → Fields
cap_fields limit no_fields = no_fields
cap_fields limit (field k v m) = field k (cap limit v) (cap_fields limit m)

abbrev pub any_over : ℕ → Fields → Bool
any_over limit no_fields = false
any_over limit (field k v m) = is_over limit v || any_over limit m

unfoldable pub cap_lists : Json → ℕ → Json
cap_lists (object m) limit =
    if any_over limit m
    then object (insert (codes "truncated") (bool true) (cap_fields limit m))
    else object (cap_fields limit m)
cap_lists v limit = v

unfoldable pub merge_all : Json → List Json → Json
merge_all v [] = v
merge_all v (w ∷ ws) = merge_all (merge v w) ws

abbrev merged : List Json → Json
merged [] = object no_fields
merged (v ∷ vs) = merge_all v vs

unfoldable pub merge_query_results : List Json → Option ℕ → Json
unfolding merge_all
merge_query_results results none = merged results
merge_query_results results (some limit) = cap_lists (merged results) limit
