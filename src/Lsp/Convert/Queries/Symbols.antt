-- ===== src/Lsp/Convert/Queries/Symbols.antt =====
-- How many symbols a search reports, and how many of them it lists.
use henka.Common.{
  ℕ, suc, ◌≡◌, refl, ap, ◌∙◌, min, true, List, [], ◌∷◌, map, none, some, ltb, nat_eq, list_eq,
  length, take, length-take, if◌then◌else◌, Bool-cases, inl, inr,
}
use henka.Text.{Text, codes}
use henka.Fs.{FileSystem}
use henka.Json.{Json, bool, unsigned, Items, array, get, insert, member}
use henka.Json.Keys.{get-insert}
use henka.Edit.{Range}
use henka.Lsp.{LspResult, good}
use henka.Lsp.Convert.{LspSymbolInfo, items_of, query_fields}
use henka.Lsp.Convert.Source.{Source}
use henka.Lsp.Convert.Queries.{matched, symbol_entry, symbols_result, symbols_to_query}

-- A result over the symbols that were found.
pub record Listed (total limit : ℕ) (result : Json) : Type 0 where
  pub symbols : List Json
  pub counted : member (codes "count") result ≡ some (unsigned total)
  pub listed : member (codes "symbols") result ≡ some (array (items_of symbols))
  pub capped : length symbols ≡ min limit total
  pub flagged :
      member (codes "truncated") result ≡ (if ltb limit total then some (bool true) else none)

length-map : {A B : Type 0} (f : A → B) (xs : List A) → length (map f xs) ≡ length xs
length-map f [] = refl
length-map f (x ∷ xs) = ap suc (length-map f xs)

query_fields-count :
    (n : ℕ) (entries : List Json)
    → (get (codes "count") (query_fields (codes "symbols") n entries) ≡ some (unsigned n))
      × (get (codes "symbols") (query_fields (codes "symbols") n entries)
          ≡ some (array (items_of entries)))
      × (get (codes "truncated") (query_fields (codes "symbols") n entries) ≡ none)
unfolding get insert
query_fields-count n entries = (refl, refl, refl)

symbols_result-Listed :
    (fs : FileSystem) (st : fs.State) (source : Source) (limit : ℕ)
    (found : List (LspSymbolInfo × Range))
    → Listed (length found) limit (symbols_result fs st source limit found)
symbols_result-Listed fs st source limit found =
    let entries = map (symbol_entry fs st source) (take limit found) in
    let out = query_fields (codes "symbols") (length found) entries in
    let (count, symbols, none_yet) = query_fields-count (length found) entries in
    let insert_true = λ (key : Text). get-insert (codes "truncated") key (bool true) out in
    let capped =
      length-map (symbol_entry fs st source) (take limit found) ∙ length-take limit found in
    elim (Bool-cases (ltb limit (length found))) [
      | inl e ↦ rw e (record {
        symbols = entries;
        counted = insert_true (codes "count") ∙ count;
        listed = insert_true (codes "symbols") ∙ symbols;
        capped = capped;
        flagged = insert_true (codes "truncated") ∙ rw e refl;
      })
      | inr e ↦ rw e (record {
        symbols = entries;
        counted = count;
        listed = symbols;
        capped = capped;
        flagged = none_yet ∙ rw e refl;
      })
    ]

-- A symbol search whose response is read reports how many symbols with a range it found, lists
-- `limit` of them at most, and says that the list is cut off exactly where it is.
pub symbols_to_query-Listed :
    (fs : FileSystem) (st : fs.State) (from_value : Json → LspResult (List LspSymbolInfo))
    (source : Source) (limit : ℕ) (response : Items) (infos : List LspSymbolInfo)
    → from_value (array response) ≡ good infos
    → (result : Json) × (symbols_to_query fs st from_value source limit (array response)
        ≡ good result)
      × Listed (length (matched infos)) limit result
unfolding symbols_to_query
symbols_to_query-Listed fs st from_value source limit response infos e = (
  symbols_result fs st source limit (matched infos),
  rw e refl,
  symbols_result-Listed fs st source limit (matched infos),
)
