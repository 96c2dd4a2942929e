-- ===== src/Server/Ops/Merge.antt =====
-- The merge of two objects, key by key, and what the cap leaves of a list.
use henka.Common.{
  ℕ, zero, suc, ◌≤◌, ◌≡◌, ◌⊎◌, inl, inr, refl, ap, sym, ◌∙◌, Bool, ◌||◌, true, false, List, Option,
  none, some, arith, ltb, ◌==◌, list_eq, nat_eq, Bool-cases, Option-cases, eq_of_beq,
}
use henka.Text.{Text, codes}
use henka.Text.Search.{text_lt}
use henka.Json.{
  Json, null, bool, unsigned, number, string, array, object, Items, no_items, item, Fields,
  no_fields, field, get, remove, insert,
}
use henka.Json.Keys.{get-remove, get-insert}
use henka.Server.Ops.{
  merge, merge_fields, length_items, truncate_items, cap, cap_fields, is_over, any_over, cap_lists,
  merge_query_results,
}

-- An object has each key once.
abbrev pub IsMap : Fields → Type 0
IsMap no_fields = Unit
IsMap (field k v m) = (get k m ≡ none) × IsMap m

-- What a key has in the merge of two objects, by what it has in each.
abbrev pub merge_options : Option Json → Option Json → Option Json
merge_options none b = b
merge_options (some a) none = some a
merge_options (some a) (some b) = some (merge a b)

merge_onto : Option Json → Json → Json
merge_onto none v = v
merge_onto (some existing) v = merge existing v

merge_fields-field :
    (left : Fields) (k : Text) (v : Json) (right : Fields)
    → merge_fields left (field k v right)
      ≡ merge_fields (insert k (merge_onto (get k left) v) (remove k left)) right
unfolding merge_onto merge_fields merge
merge_fields-field left k v right = elim (Option-cases (get k left)) [
  | inl gone ↦ rw gone refl
  | inr (w, there) ↦ rw there refl
]

merge_options-none : (a : Option Json) → merge_options a none ≡ a
merge_options-none none = refl
merge_options-none (some a) = refl

merge_options-some : (a : Option Json) (v : Json) → merge_options a (some v) ≡ some (merge_onto a v)
unfolding merge_onto
merge_options-some none v = refl
merge_options-some (some a) v = refl

-- In the merge of two objects, of which the right one has each key once, every key has what the two
-- sides have for it, merged, or what the one side has that knows it.
pub get-merge_fields :
    (left right : Fields) (k : Text)
    → IsMap right
    → get k (merge_fields left right) ≡ merge_options (get k left) (get k right)
get-merge_fields left no_fields k h =
    unfold merge_fields get in rw (merge_options-none (get k left)) refl
get-merge_fields left (field j v right) k (fresh, h) =
    let w = merge_onto (get j left) v in
    rw (merge_fields-field left j v right) (
      rw (get-merge_fields (insert j w (remove j left)) right k h) (
        rw (get-insert j k w (remove j left)) (
          rw (get-remove j k left) (elim (Bool-cases (j == k)) [
            | inl same ↦
                let e : j ≡ k = eq_of_beq j k same in
                let f : get k right ≡ none = rw (← e) fresh in
                unfold get in
                rw same (rw f (rw (merge_options-some (get k left) v) (rw (← e) refl)))
            | inr other ↦ unfold get in rw other refl
          ]))))

length-truncate_items : (n : ℕ) (xs : Items) → length_items (truncate_items n xs) ≤ n
length-truncate_items zero xs = omega arith
length-truncate_items (suc n) no_items = omega arith
length-truncate_items (suc n) (item x xs) = omega (arith, length-truncate_items n xs)

-- A value that is an array has at most `n` items.
abbrev pub IsCapped : ℕ → Json → Type 0
IsCapped n (array xs) = length_items xs ≤ n
IsCapped n v = Unit

cap-IsCapped : (n : ℕ) (v : Json) → IsCapped n (cap n v)
cap-IsCapped n (array xs) = elim (Bool-cases (ltb n (length_items xs))) [
  | inl over ↦ rw over (length-truncate_items n xs)
  | inr fits ↦ rw fits (ground arith)
]
cap-IsCapped n null = tt
cap-IsCapped n (bool b) = tt
cap-IsCapped n (unsigned m) = tt
cap-IsCapped n (number t) = tt
cap-IsCapped n (string t) = tt
cap-IsCapped n (object m) = tt

-- Every list that a field holds has at most `n` items.
abbrev pub AreCapped : ℕ → Fields → Type 0
AreCapped n no_fields = Unit
AreCapped n (field k v m) = IsCapped n v × AreCapped n m

-- What a capped result promises: no list of it is longer than the limit, and if a list of the
-- merged result was, it says so. A result that is no object is passed on.
abbrev pub IsCappedResult : ℕ → Json → Json → Type 0
IsCappedResult n (object m) (object r) =
    AreCapped n r
    × ((AreCapped n m × (r ≡ m))
        ⊎ (¬ (AreCapped n m) × (get (codes "truncated") r ≡ some (bool true))))
IsCappedResult n v r = r ≡ v

cap_fields-AreCapped : (n : ℕ) (m : Fields) → AreCapped n (cap_fields n m)
cap_fields-AreCapped n no_fields = tt
cap_fields-AreCapped n (field k v m) = (cap-IsCapped n v, cap_fields-AreCapped n m)

insert-AreCapped :
    (n : ℕ) (k : Text) (v : Json) (m : Fields)
    → IsCapped n v
    → AreCapped n m
    → AreCapped n (insert k v m)
unfolding insert
insert-AreCapped n k v no_fields c h = (c, tt)
insert-AreCapped n k v (field j w m) c h = elim (Bool-cases (j == k)) [
  | inl same ↦ rw same (c, h.1)
  | inr other ↦ rw other (elim (Bool-cases (text_lt k j)) [
    | inl before ↦ rw before (c, h)
    | inr behind ↦ rw behind (h.0, insert-AreCapped n k v m c h.1)
  ])
]

split_or : (a b : Bool) → (a || b) ≡ false → (a ≡ false) × (b ≡ false)
split_or a b h = (ground (arith, h), ground (arith, h))

cap-same : (n : ℕ) (v : Json) → is_over n v ≡ false → IsCapped n v × (cap n v ≡ v)
cap-same n null h = (tt, refl)
cap-same n (bool b) h = (tt, refl)
cap-same n (unsigned k) h = (tt, refl)
cap-same n (number t) h = (tt, refl)
cap-same n (string t) h = (tt, refl)
cap-same n (object m) h = (tt, refl)
cap-same n (array xs) h = (within_limit (length_items xs) n h, rw h refl)
  where
    within_limit : (k l : ℕ) → ltb l k ≡ false → k ≤ l
    within_limit k l e = ground (arith, e)

cap_fields-same : (n : ℕ) (m : Fields) → any_over n m ≡ false → AreCapped n m × (cap_fields n m ≡ m)
cap_fields-same n no_fields h = (tt, refl)
cap_fields-same n (field k v m) h =
    let parts = split_or (is_over n v) (any_over n m) h in
    let first = cap-same n v parts.0 in
    let others = cap_fields-same n m parts.1 in
    (
      (first.0, others.0),
      ap (λ w. field k w (cap_fields n m)) first.1 ∙ ap (λ u. field k v u) others.1,
    )

cap-is_over : (n : ℕ) (v : Json) → IsCapped n v → is_over n v ≡ false
cap-is_over n null c = refl
cap-is_over n (bool b) c = refl
cap-is_over n (unsigned k) c = refl
cap-is_over n (number t) c = refl
cap-is_over n (string t) c = refl
cap-is_over n (object m) c = refl
cap-is_over n (array xs) c = ground (arith, c)

cap-any_over : (n : ℕ) (m : Fields) → AreCapped n m → any_over n m ≡ false
cap-any_over n no_fields c = refl
cap-any_over n (field k v m) c = rw (cap-is_over n v c.0) (cap-any_over n m c.1)

over_limit : (n : ℕ) (m : Fields) → any_over n m ≡ true → ¬ (AreCapped n m)
over_limit n m h c = let wrong = sym h ∙ cap-any_over n m c in ground (arith, wrong)

cap_lists-IsCappedResult : (v : Json) (limit : ℕ) → IsCappedResult limit v (cap_lists v limit)
unfolding cap_lists
cap_lists-IsCappedResult (object m) limit = elim (Bool-cases (any_over limit m)) [
  | inl over ↦ rw over (
    insert-AreCapped limit (codes "truncated") (bool true) (cap_fields limit m) tt
        (cap_fields-AreCapped limit m),
    inr (
      over_limit limit m over,
      rw (get-insert (codes "truncated") (codes "truncated") (bool true) (cap_fields limit m)) refl,
    ),
  )
  | inr fits ↦ rw fits (cap_fields-AreCapped limit m, inl (cap_fields-same limit m fits))
]
cap_lists-IsCappedResult null limit = refl
cap_lists-IsCappedResult (bool b) limit = refl
cap_lists-IsCappedResult (unsigned n) limit = refl
cap_lists-IsCappedResult (number t) limit = refl
cap_lists-IsCappedResult (string t) limit = refl
cap_lists-IsCappedResult (array xs) limit = refl

-- Whatever the results and the limit are, no list in the fields of the capped merge is longer than
-- the limit. If none was longer, the merge is left as it is, and otherwise it is flagged as
-- truncated. A merge that is no object is left as it is.
pub merge_query_results-IsCappedResult :
    (results : List Json) (limit : ℕ)
    → IsCappedResult limit
        (merge_query_results results none)
        (merge_query_results results (some limit))
unfolding merge_query_results
merge_query_results-IsCappedResult results limit = cap_lists-IsCappedResult _ limit
