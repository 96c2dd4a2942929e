-- ===== src/Rust/Actions/First.antt =====
-- Which code action an operation takes.
use henka.Common.{◌≡◌, refl, ap, sym, ◌∙◌, false, Option, none, some, arith, Bool-cases, inl, inr}
use henka.Text.{Text}
use henka.Json.{Json, Items, no_items, item}
use henka.Rust.Actions.{CodeActionOp, fits, find_action, action_items, chosen}
use henka.Rust.Actions.Suited.{Suits, fits-Suits, Suits-fits}

abbrev pub appended : Items → Items → Items
appended no_items others = others
appended (item v vs) others = item v (appended vs others)

-- None of the actions suits the operation.
abbrev pub NoneSuits : (Text → Text) → CodeActionOp → Items → Type 0
NoneSuits to_lowercase op no_items = Unit {0}
NoneSuits to_lowercase op (item v vs) = ¬ (Suits to_lowercase op v) × NoneSuits to_lowercase op vs

-- The first action that suits, with those in front of it and behind it.
pub record FirstFit (to_lowercase : Text → Text) (op : CodeActionOp) (actions : Items)
    (action : Json) : Type 0 where
  pub before : Items
  pub after : Items
  pub whole : actions ≡ appended before (item action after)
  pub unfit : NoneSuits to_lowercase op before
  pub fit : Suits to_lowercase op action

-- What a choice is: the first action that suits, or none where no action does.
pub data IsChoice (to_lowercase : Text → Text) (op : CodeActionOp) (actions : Items)
    : Option Json → Type 0 where
  unavailable : NoneSuits to_lowercase op actions → IsChoice to_lowercase op actions none
  taken :
      {action : Json}
      → FirstFit to_lowercase op actions action
      → IsChoice to_lowercase op actions (some action)

onward :
    (to_lowercase : Text → Text) (op : CodeActionOp) (v : Json) (vs : Items) (o : Option Json)
    → ¬ (Suits to_lowercase op v)
    → IsChoice to_lowercase op vs o
    → IsChoice to_lowercase op (item v vs) o
onward to_lowercase op v vs none n (unavailable h) = unavailable (n, h)
onward to_lowercase op v vs (some a) n (taken f) = taken (record {
  before = item v f.before;
  after = f.after;
  whole = ap (item v) f.whole;
  unfit = (n, f.unfit);
  fit = f.fit;
})

unsuited :
    (to_lowercase : Text → Text) (op : CodeActionOp) (v : Json)
    → fits to_lowercase op v ≡ false
    → ¬ (Suits to_lowercase op v)
unsuited to_lowercase op v e s =
    let wrong = sym e ∙ Suits-fits to_lowercase op v s in ground (arith, wrong)

find_action-IsChoice :
    (to_lowercase : Text → Text) (op : CodeActionOp) (actions : Items)
    → IsChoice to_lowercase op actions (find_action to_lowercase op actions)
unfolding find_action
find_action-IsChoice to_lowercase op no_items = unavailable tt
find_action-IsChoice to_lowercase op (item v vs) = elim (Bool-cases (fits to_lowercase op v)) [
  | inl e ↦ rw e (
      taken (record {
        before = no_items;
        after = vs;
        whole = refl;
        unfit = tt;
        fit = fits-Suits to_lowercase op v e;
      }))
  | inr e ↦ rw e (
      onward to_lowercase op v vs (find_action to_lowercase op vs) (unsuited to_lowercase op v e)
        (find_action-IsChoice to_lowercase op vs))
]

-- Of the code actions that the server offers, the operation takes the first one whose kind is the
-- operation's and whose title, in lower case, has the operation's keyword in it, if it has one. It
-- takes none exactly where no action is of that sort.
pub chosen-IsChoice :
    (to_lowercase : Text → Text) (op : CodeActionOp) (answer : Json)
    → IsChoice to_lowercase op (action_items answer) (chosen to_lowercase op answer)
unfolding chosen
chosen-IsChoice to_lowercase op answer = find_action-IsChoice to_lowercase op (action_items answer)
