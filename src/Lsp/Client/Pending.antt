-- ===== src/Lsp/Client/Pending.antt =====
-- The requests of a client that wait, and the answers that they got, call by call.
use henka.Common.{
  ℕ, suc, ◌+◌, ◌<◌, ◌≡◌, refl, ap, sym, ◌∙◌, false, List, [], ◌∷◌, none, some, arith, ltb, ◌==◌,
  nat_eq, if◌then◌else◌,
}
use henka.Common.BTreeMap.{
  BTreeMap, lookup, remove, AllEntries, AllEntries-lookup, AllEntries-remove,
}
use henka.Json.{Json, i64_mod}
use henka.Lsp.{LspResult}
use henka.Lsp.Client.{LspClient, spawned, registered, all_closed}

-- The entries of a call in the map, and its answers.
abbrev pub waiting : ℕ → BTreeMap ℕ ℕ → ℕ
waiting call [] = 0
waiting call ((_, c) ∷ pending) = (if c == call then 1 else 0) + waiting call pending

abbrev pub answers_to : ℕ → List (ℕ × LspResult Json) → ℕ
answers_to call [] = 0
answers_to call ((c, _) ∷ answers) = (if c == call then 1 else 0) + answers_to call answers

-- The id of a call is the number behind its own.
abbrev pub IsIssued : ℕ → ℕ → ℕ → Type 0
IsIssued calls id call = (id ≡ suc call) × (call < calls)

-- What holds between two steps, for one call.
pub record Inv (call : ℕ) (s : LspClient) : Type 0 where
  pub next : s.next_id ≡ suc s.calls
  pub entries : AllEntries (IsIssued s.calls) s.pending
  pub once :
      waiting call s.pending + answers_to call s.answers ≡ (if ltb call s.calls then 1 else 0)

AllEntries-weaken :
    (n m : ℕ) (pending : BTreeMap ℕ ℕ)
    → n < suc m
    → AllEntries (IsIssued n) pending
    → AllEntries (IsIssued m) pending
AllEntries-weaken n m [] h p = tt
AllEntries-weaken n m ((id, c) ∷ pending) h p =
    ((p.0.0, omega (arith, p.0.1)), AllEntries-weaken n m pending h p.1)

-- The next id is not in the map.
lookup_fresh :
    (n : ℕ) (pending : BTreeMap ℕ ℕ)
    → AllEntries (IsIssued n) pending
    → lookup (suc n) pending ≡ none
unfolding lookup
lookup_fresh n [] p = refl
lookup_fresh n ((id, c) ∷ pending) p =
    let other : (id == suc n) ≡ false = ground (arith, p.0.0, p.0.1) in
    rw other (lookup_fresh n pending p.1)

waiting-remove :
    (n call c : ℕ) (pending : BTreeMap ℕ ℕ)
    → AllEntries (IsIssued n) pending
    → waiting call (remove (suc c) pending) ≡ (if c == call then 0 else waiting call pending)
unfolding remove
waiting-remove n call c [] p = ground arith
waiting-remove n call c ((id, d) ∷ pending) p =
    ground (arith, waiting-remove n call c pending p.1, p.0.0)

waiting-lookup :
    (n id c : ℕ) (pending : BTreeMap ℕ ℕ)
    → AllEntries (IsIssued n) pending
    → lookup id pending ≡ some c
    → 0 < waiting c pending
unfolding lookup
waiting-lookup n id c [] p h = ground arith
waiting-lookup n id c ((j, d) ∷ pending) p h = ground (arith, waiting-lookup n id c pending p.1)

pub answers_to-all_closed :
    (call : ℕ) (pending : BTreeMap ℕ ℕ) (answers : List (ℕ × LspResult Json))
    → answers_to call (all_closed pending answers) ≡ waiting call pending + answers_to call answers
answers_to-all_closed call [] answers = omega arith
answers_to-all_closed call ((_, c) ∷ pending) answers =
    omega (arith, answers_to-all_closed call pending answers)

pub Inv-spawned : (call : ℕ) → Inv call spawned
Inv-spawned call = record { next = refl; entries = tt; once = ground arith }

-- The state behind `registered`, where the id is fresh.
pub registered_fresh :
    (call : ℕ) (s : LspClient) → Inv call s → suc (suc s.calls) < i64_mod → Inv call (registered s)
registered_fresh call s i h =
    let fresh : lookup s.next_id s.pending ≡ none =
      ap (λ id. lookup id s.pending) i.next ∙ lookup_fresh s.calls s.pending i.entries in
    let kept = AllEntries-remove (IsIssued s.calls) s.next_id s.pending i.entries in
    let here : suc s.calls ≡ s.next_id = sym i.next in
    record {
      next = omega (arith, i.next, h);
      entries = (
        (i.next, omega arith),
        AllEntries-weaken s.calls (suc s.calls) (remove s.next_id s.pending) (omega arith) kept,
      );
      once = rw fresh (
          rw i.next
            (ground (arith, waiting-remove s.calls call s.calls s.pending i.entries, i.once)));
    }

-- An answer to a call that waits.
pub settled :
    (call id c : ℕ) (answer : LspResult Json) (s : LspClient)
    → lookup id s.pending ≡ some c
    → Inv call s
    → Inv call (record s { pending = remove id s.pending; answers = (c, answer) ∷ s.answers })
settled call id c answer s e i =
    let issued = AllEntries-lookup (IsIssued s.calls) id c s.pending i.entries e in
    let gone = waiting-remove s.calls call c s.pending i.entries in
    let present = waiting-lookup s.calls id c s.pending i.entries e in
    record {
      next = i.next;
      entries = AllEntries-remove (IsIssued s.calls) id s.pending i.entries;
      once = rw issued.0 (grind (arith, gone, present, i.once, issued.1));
    }

pub lookup_front : (id c : ℕ) (m : BTreeMap ℕ ℕ) → lookup id ((id, c) ∷ m) ≡ some c
unfolding lookup
lookup_front id c m = ground arith
