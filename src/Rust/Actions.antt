-- ===== src/Rust/Actions.antt =====
-- `CodeActionOp` of crates/henka-lang-rust/src/operations.rs: the choice of a code action.
pub mod First
pub mod Suited
use henka.Common.{
  ℕ, Bool, true, false, ◌&&◌, ◌||◌, List, [], ◌∷◌, ◌++◌, Option, none, some, ◌==◌, nat_eq, list_eq,
  option_eq, if◌then◌else◌,
}
use henka.Text.{Text, codes}
use henka.Text.Search.{starts_with, strip_prefix}
use henka.Error.{Error, invalid_target, Result, ok, err, panic}
use henka.Json.{
  Json, unsigned, string, array, object, Items, no_items, item, Fields, no_fields, field, member,
  as_str,
}
use henka.Edit.{Position, Range}
use henka.Operation.{
  TargetKind, selection, position, Target, position_target, selection_target, file_target,
  project_target,
}
use henka.Rust.{OperationRequest, point}

pub record CodeActionOp : Type 0 where
  pub id : Text
  pub title : Text
  pub description : Text
  pub action_kind : Text
  pub title_keyword : Option Text
  pub target : TargetKind

abbrev pub rust_set : List CodeActionOp
rust_set =
    record {
      id = codes "extract-variable";
      title = codes "Extract to variable";
      description = codes "Extract the selected expression into a new local variable";
      action_kind = codes "refactor.extract";
      title_keyword = some (codes "variable");
      target = selection;
    }
    ∷ record {
      id = codes "extract-constant";
      title = codes "Extract to constant";
      description = codes "Extract the selected expression into a new constant";
      action_kind = codes "refactor.extract";
      title_keyword = some (codes "constant");
      target = selection;
    }
    ∷ record {
      id = codes "extract-function";
      title = codes "Extract to function";
      description = codes "Extract the selected statements into a new function";
      action_kind = codes "refactor.extract";
      title_keyword = some (codes "function");
      target = selection;
    }
    ∷ record {
      id = codes "inline";
      title = codes "Inline";
      description = codes "Inline the local variable at the position";
      action_kind = codes "refactor.inline";
      title_keyword = none;
      target = position;
    }
    ∷ []

abbrev span : Json → Json → Json
span start end = object (field (codes "end") end (field (codes "start") start no_fields))

abbrev origin : Json
origin = point (record { line = 0; character = 0 })

-- `CodeActionOp::range`
unfoldable pub action_range : Target → Result Json
action_range (selection_target file range) = ok (span (point range.start) (point range.end))
action_range (position_target file p) = ok (span (point p) (point p))
action_range (file_target file) = ok (span origin origin)
action_range project_target =
    err (invalid_target (codes "this operation needs a file, selection, or position"))

-- `t.contains(p)`
unfoldable pub contains_text : Text → Text → Bool
unfolding strip_prefix
contains_text [] p = starts_with [] p
contains_text (c ∷ t) p = starts_with (c ∷ t) p || contains_text t p

abbrev pub str_of : Option Json → Option Text
str_of none = none
str_of (some v) = as_str v

abbrev pub title_has : (Text → Text) → Text → Option Text → Bool
title_has to_lowercase keyword none = false
title_has to_lowercase keyword (some title) = contains_text (to_lowercase title) keyword

abbrev pub keyword_fits : (Text → Text) → Option Text → Json → Bool
keyword_fits to_lowercase none action = true
keyword_fits to_lowercase (some keyword) action =
    title_has to_lowercase keyword (str_of (member (codes "title") action))

-- The tests of the filter and of `find`.
unfoldable pub fits : (Text → Text) → CodeActionOp → Json → Bool
unfolding contains_text
fits to_lowercase op action =
    str_of (member (codes "kind") action) == some op.action_kind
    && keyword_fits to_lowercase op.title_keyword action

unfoldable pub find_action : (Text → Text) → CodeActionOp → Items → Option Json
unfolding fits
find_action to_lowercase op no_items = none
find_action to_lowercase op (item action actions) =
    if fits to_lowercase op action then some action else find_action to_lowercase op actions

abbrev pub action_items : Json → Items
action_items (array actions) = actions
action_items _ = no_items

-- The choice among what the server answered.
unfoldable pub chosen : (Text → Text) → CodeActionOp → Json → Option Json
unfolding find_action
chosen to_lowercase op answer = find_action to_lowercase op (action_items answer)
