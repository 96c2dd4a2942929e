-- ===== src/Lsp/Session/Collect/Bounded.antt =====
-- What `collect_source_files` returns, and that its loop ends.
use mathlib.Core.Path.{subst}
use henka.Common.{
  ℕ, zero, suc, ◌+◌, ◌<◌, ◌≤◌, ◌≡◌, refl, sym, ◌∙◌, Bool, true, all, List, [], ◌∷◌, ◌++◌, arith,
  leb, length, length-append, Bool-cases, inl, inr,
}
use henka.FilePath.{FilePath}
use henka.Lsp.Session.Collect.{
  directory, file, untyped, Listing, no_entries, entry, max_index_files, is_skipped, Turn, over,
  onward, scan_entries, collect_from, directories, collect_source_files,
}

abbrev IsWanted : (FilePath → Bool) → List FilePath → Type 0
IsWanted wanted out = (length out ≤ max_index_files) × (all wanted out ≡ true)

abbrev IsWantedTurn : (FilePath → Bool) → Turn → Type 0
IsWantedTurn wanted (over out) = IsWanted wanted out
IsWantedTurn wanted (onward out stack) = IsWanted wanted out

all-push :
    (wanted : FilePath → Bool) (out : List FilePath) (p : FilePath)
    → all wanted out ≡ true
    → wanted p ≡ true
    → all wanted (out ++ (p ∷ [])) ≡ true
all-push wanted [] p h k = rw k refl
all-push wanted (q ∷ out) p h k = ground (arith, all-push wanted out p)

scan_entries-IsWanted :
    (wanted : FilePath → Bool) (dir : Listing) (out : List FilePath) (stack : List Listing)
    → IsWanted wanted out
    → IsWantedTurn wanted (scan_entries wanted dir out stack)
unfolding scan_entries
scan_entries-IsWanted wanted no_entries out stack h = h
scan_entries-IsWanted wanted (entry untyped rest) out stack h =
    elim (Bool-cases (leb max_index_files (length out))) [
      | inl e ↦ rw e h
      | inr e ↦ rw e (scan_entries-IsWanted wanted rest out stack h)
    ]
scan_entries-IsWanted wanted (entry (directory name dir) rest) out stack h =
    elim (Bool-cases (leb max_index_files (length out))) [
      | inl e ↦ rw e h
      | inr e ↦ elim (Bool-cases (is_skipped name)) [
        | inl s ↦ rw (e, s) (scan_entries-IsWanted wanted rest out stack h)
        | inr s ↦ rw (e, s) (scan_entries-IsWanted wanted rest out (dir ∷ stack) h)
      ]
    ]
scan_entries-IsWanted wanted (entry (file path) rest) out stack h =
    elim (Bool-cases (leb max_index_files (length out))) [
      | inl e ↦ rw e h
      | inr e ↦ elim (Bool-cases (wanted path)) [
        | inl w ↦
            rw (e, w)
              (scan_entries-IsWanted wanted rest (out ++ (path ∷ [])) stack
                (ground (arith, e, length-append out (path ∷ [])), all-push wanted out path h.1 w))
        | inr w ↦ rw (e, w) (scan_entries-IsWanted wanted rest out stack h)
      ]
    ]

abbrev pending : List Listing → ℕ
pending [] = 0
pending (dir ∷ stack) = directories dir + pending stack

abbrev left_to_do : Turn → ℕ
left_to_do (over out) = 0
left_to_do (onward out stack) = pending stack

-- A turn takes its directory off what is left to do.
scan_entries_smaller :
    (wanted : FilePath → Bool) (dir : Listing) (out : List FilePath) (stack : List Listing)
    → left_to_do (scan_entries wanted dir out stack) < directories dir + pending stack
unfolding scan_entries
scan_entries_smaller wanted no_entries out stack = omega arith
scan_entries_smaller wanted (entry untyped rest) out stack =
    let smaller = scan_entries_smaller wanted rest out stack in
    elim (Bool-cases (leb max_index_files (length out))) [
      | inl e ↦ rw e (omega (arith, smaller))
      | inr e ↦ rw e (omega (arith, smaller))
    ]
scan_entries_smaller wanted (entry (directory name dir) rest) out stack =
    let past = scan_entries_smaller wanted rest out stack in
    let into = scan_entries_smaller wanted rest out (dir ∷ stack) in
    elim (Bool-cases (leb max_index_files (length out))) [
      | inl e ↦ rw e (omega (arith, past))
      | inr e ↦ elim (Bool-cases (is_skipped name)) [
        | inl s ↦ rw (e, s) (omega (arith, past))
        | inr s ↦ rw (e, s) (omega (arith, into))
      ]
    ]
scan_entries_smaller wanted (entry (file path) rest) out stack =
    let with_it = scan_entries_smaller wanted rest (out ++ (path ∷ [])) stack in
    let without = scan_entries_smaller wanted rest out stack in
    elim (Bool-cases (leb max_index_files (length out))) [
      | inl e ↦ rw e (omega (arith, without))
      | inr e ↦ elim (Bool-cases (wanted path)) [
        | inl w ↦ rw (e, w) (omega (arith, with_it))
        | inr w ↦ rw (e, w) (omega (arith, without))
      ]
    ]

-- A turn of the outer loop, whatever the inner one ends with.
turn_of : (FilePath → Bool) → ℕ → Turn → List FilePath
turn_of wanted n (over found) = found
turn_of wanted n (onward found stack) = collect_from wanted n stack found

collect_from-turn_of :
    (wanted : FilePath → Bool) (n : ℕ) (dir : Listing) (stack : List Listing) (out : List FilePath)
    → collect_from wanted (suc n) (dir ∷ stack) out
      ≡ turn_of wanted n (scan_entries wanted dir out stack)
unfolding collect_from turn_of
collect_from-turn_of wanted n dir stack out = by_turn (scan_entries wanted dir out stack)
  where
    by_turn :
        (t : Turn)
        → Path
            (List FilePath)
            (elim t [
              | over found ↦ found
              | onward found stack' ↦ collect_from wanted n stack' found
            ])
            (turn_of wanted n t)
    by_turn (over found) = refl
    by_turn (onward found stack') = refl

turn_of-IsWanted :
    (wanted : FilePath → Bool) (n : ℕ) (t : Turn)
    → ((stack : List Listing) (found : List FilePath)
        → IsWanted wanted found
        → IsWanted wanted (collect_from wanted n stack found))
    → IsWantedTurn wanted t
    → IsWanted wanted (turn_of wanted n t)
unfolding turn_of
turn_of-IsWanted wanted n (over found) r k = k
turn_of-IsWanted wanted n (onward found stack) r k = r stack found k

collect_from-IsWanted :
    (wanted : FilePath → Bool) (n : ℕ) (stack : List Listing) (out : List FilePath)
    → IsWanted wanted out
    → IsWanted wanted (collect_from wanted n stack out)
unfolding collect_from
collect_from-IsWanted wanted zero stack out h = h
collect_from-IsWanted wanted (suc n) [] out h = h
collect_from-IsWanted wanted (suc n) (dir ∷ stack) out h =
    subst (IsWanted wanted) (sym (collect_from-turn_of wanted n dir stack out)) (
      turn_of-IsWanted wanted n (scan_entries wanted dir out stack)
        (λ stack' found k. collect_from-IsWanted wanted n stack' found k)
        (scan_entries-IsWanted wanted dir out stack h))

turn_of_enough :
    (wanted : FilePath → Bool) (n m bound : ℕ) (t : Turn)
    → ((stack : List Listing) (found : List FilePath)
        → pending stack < bound
        → collect_from wanted n stack found ≡ collect_from wanted m stack found)
    → left_to_do t < bound
    → turn_of wanted n t ≡ turn_of wanted m t
unfolding turn_of
turn_of_enough wanted n m bound (over found) r l = refl
turn_of_enough wanted n m bound (onward found stack) r l = r stack found l

collect_from_enough :
    (wanted : FilePath → Bool) (n m : ℕ) (stack : List Listing) (out : List FilePath)
    → pending stack < n
    → pending stack < m
    → collect_from wanted n stack out ≡ collect_from wanted m stack out
unfolding collect_from
collect_from_enough wanted zero m stack out h k = ground (arith, h)
collect_from_enough wanted (suc n) zero stack out h k = ground (arith, k)
collect_from_enough wanted (suc n) (suc m) [] out h k = refl
collect_from_enough wanted (suc n) (suc m) (dir ∷ stack) out h k =
    collect_from-turn_of wanted n dir stack out
    ∙ turn_of_enough wanted n m (directories dir + pending stack)
        (scan_entries wanted dir out stack)
        (λ stack' found l.
          collect_from_enough wanted n m stack' found (omega (arith, l, h)) (omega (arith, l, k)))
        (scan_entries_smaller wanted dir out stack)
    ∙ sym (collect_from-turn_of wanted m dir stack out)

-- The files to index are at most 2000, each of them is wanted, and the loop over the directories
-- ends: with more fuel than there are directories it returns the same files.
pub collect_source_files-IsWanted :
    (root : Listing) (wanted : FilePath → Bool) (n : ℕ)
    → directories root < n
    → (length (collect_source_files root wanted) ≤ max_index_files)
      × (all wanted (collect_source_files root wanted) ≡ true)
      × (collect_from wanted n (root ∷ []) [] ≡ collect_source_files root wanted)
unfolding collect_source_files
collect_source_files-IsWanted root wanted n h =
    let found =
      collect_from-IsWanted wanted (suc (directories root)) (root ∷ []) [] (omega arith, refl) in
    (
      found.0,
      found.1,
      collect_from_enough wanted n (suc (directories root)) (root ∷ []) [] (omega (arith, h))
          (omega arith),
    )
