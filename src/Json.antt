-- ===== src/Json.antt =====
-- `serde_json::Value` as the program uses it. An object keeps its keys in order, as the crate's
-- default map does.
pub mod Keys
use henka.Common.{
  ℕ, zero, suc, ◌-◌, ◌^◌, Bool, ◌∷◌, Option, none, some, ltb, ◌==◌, list_eq, nat_eq, if◌then◌else◌,
}
use henka.Text.Decimal.{to_decimal, parse_usize}
use henka.Text.{Text}
use henka.Text.Search.{text_lt}

mutual
  pub data Json : Type 0 where
    null : Json
    bool : Bool → Json
    -- A number that is a `u64`, and any other one, by its digits.
    unsigned : ℕ → Json
    number : Text → Json
    string : Text → Json
    array : Items → Json
    object : Fields → Json

  pub data Items : Type 0 where
    no_items : Items
    item : Json → Items → Items

  pub data Fields : Type 0 where
    no_fields : Fields
    field : Text → Json → Fields → Fields

-- `Map::get`
unfoldable pub get : Text → Fields → Option Json
get k no_fields = none
get k (field j v m) = let rest = get k m in if j == k then some v else rest

-- `Map::remove`
unfoldable pub remove : Text → Fields → Fields
remove k no_fields = no_fields
remove k (field j v m) = let rest = remove k m in if j == k then rest else field j v rest

-- `Map::insert`
unfoldable pub insert : Text → Json → Fields → Fields
insert k v no_fields = field k v no_fields
insert k v (field j w m) =
    let rest = insert k v m in
    if j == k
    then field k v m
    else (if text_lt k j then field k v (field j w m) else field j w rest)

-- `Value::get` with a key: only an object has members.
abbrev pub member : Text → Json → Option Json
member k (object m) = get k m
member k _ = none

abbrev pub as_str : Json → Option Text
as_str (string t) = some t
as_str _ = none

abbrev pub count_items : Items → ℕ
count_items no_items = 0
count_items (item _ js) = suc (count_items js)

-- `vec![v; n]`
abbrev pub repeated : Json → ℕ → Items
repeated v zero = no_items
repeated v (suc n) = item v (repeated v n)

abbrev pub i64_mod : ℕ
i64_mod = 2 ^ 64

abbrev negated : Option ℕ → Option ℕ
negated none = none
negated (some zero) = none
negated (some (suc n)) = if ltb n (2 ^ 63) then some (2 ^ 64 - suc n) else none

-- `Value::as_i64`; an `i64` is the natural number that has its 64 bits.
unfoldable pub as_i64 : Json → Option ℕ
unfolding parse_usize
as_i64 (unsigned n) = if ltb n (2 ^ 63) then some n else none
as_i64 (number (c ∷ t)) = if c == b'-' then negated (parse_usize t) else none
as_i64 _ = none

-- The `Value` of an `i64`.
unfoldable pub i64_json : ℕ → Json
unfolding to_decimal
i64_json n = if ltb n (2 ^ 63) then unsigned n else number (b'-' ∷ to_decimal (2 ^ 64 - n))
