-- ===== src/Vcs/Delta.antt =====
-- What `git status --porcelain -z` prints of a list of changes is read back as their paths.
use henka.Common.{
  ℕ, ◌≡◌, refl, Bool, true, false, not, ◌||◌, ◌&&◌, all, List, [], ◌∷◌, ◌++◌, map, arith, ◌==◌,
  nat_eq, list_eq, Bool-cases, inl, inr, ltb,
}
use henka.Text.{Text, len_utf8, byte_len}
use henka.Text.Offsets.{split_at-append}
use henka.Text.Search.{split}
use henka.FilePath.{of_text}
use henka.Vcs.{none_empty, is_rename, path_part, take_fields, parse_git_porcelain_z}

-- A change as git reports it, with the two characters of its status. A rename or a copy has its
-- destination first and the original name in a field of its own.
pub data Change : Type 0 where
  changed : (x y : ℕ) → (path : Text) → Change
  moved : (x y : ℕ) → (path old : Text) → Change

abbrev pub change_path : Change → Text
change_path (changed x y path) = path
change_path (moved x y path old) = path

abbrev status_field : ℕ → ℕ → Text → Text
status_field x y path = x ∷ y ∷ b' ' ∷ path

abbrev terminated : Text → Text → Text
terminated t rest = t ++ (0 ∷ rest)

-- The output of git.
abbrev pub porcelain : List Change → Text
porcelain [] = []
porcelain (changed x y path ∷ cs) = terminated (status_field x y path) (porcelain cs)
porcelain (moved x y path old ∷ cs) =
    terminated (status_field x y path) (terminated old (porcelain cs))

abbrev has_no_nul : Text → Bool
has_no_nul t = all (λ c. not (c == 0)) t

abbrev is_status : ℕ → Bool
is_status c = ltb 0 c && ltb c 0x80

abbrev has : ℕ → ℕ → ℕ → Bool
has letter x y = x == letter || y == letter

-- The fields are text without NUL, and there is an original name exactly where the status says that
-- the change is a rename or a copy.
abbrev pub is_well_formed : Change → Bool
is_well_formed (changed x y path) =
    is_status x && (is_status y && (not (has b'R' x y) && (not (has b'C' x y) && has_no_nul path)))
is_well_formed (moved x y path old) =
    is_status x
    && (is_status y
        && ((has b'R' x y || has b'C' x y)
            && (has_no_nul path && (has_no_nul old && not (old == [])))))

-- A copy that is no rename as well.
abbrev pub is_copy : Change → Bool
is_copy (changed x y path) = false
is_copy (moved x y path old) = not (has b'R' x y)

split-terminated :
    (t rest : Text)
    → has_no_nul t ≡ true
    → split (λ c. c == 0) (terminated t rest) ≡ t ∷ split (λ c. c == 0) rest
unfolding split
split-terminated [] rest h = refl
split-terminated (c ∷ t) rest h = ground (arith, split-terminated t rest)

path_part_lem :
    (x y : ℕ) (path : Text)
    → is_status x ≡ true
    → is_status y ≡ true
    → path_part (status_field x y path) ≡ path
path_part_lem x y path hx hy =
    let e : byte_len (x ∷ y ∷ b' ' ∷ []) ≡ 3 = unfold len_utf8 in ground arith in
    rw (← e) (rw (split_at-append (x ∷ y ∷ b' ' ∷ []) path) refl)

fields : List Change → List Text
fields [] = []
fields (changed x y path ∷ cs) = status_field x y path ∷ fields cs
fields (moved x y path old ∷ cs) = status_field x y path ∷ old ∷ fields cs

fields_lem :
    (cs : List Change)
    → all is_well_formed cs ≡ true
    → none_empty (split (λ c. c == 0) (porcelain cs)) ≡ fields cs
unfolding fields
fields_lem [] h = unfold split in refl
fields_lem (changed x y path ∷ cs) h =
    rw (split-terminated (status_field x y path) (porcelain cs) (ground arith))
      (rw (fields_lem cs (ground arith)) refl)
fields_lem (moved x y path old ∷ cs) h =
    rw (split-terminated (status_field x y path) (terminated old (porcelain cs)) (ground arith)) (
      rw (split-terminated old (porcelain cs) (ground arith)) (elim (Bool-cases (old == [])) [
        | inl empty ↦ ground arith
        | inr given ↦ rw given (rw (fields_lem cs (ground arith)) refl)
      ]))

take_fields-changed :
    (entry : Text) (rest : List Text)
    → is_rename entry ≡ false
    → take_fields (entry ∷ rest) ≡ of_text (path_part entry) ∷ take_fields rest
unfolding take_fields
take_fields-changed entry [] h = refl
take_fields-changed entry (f ∷ rest) h = rw h refl

take_fields-renamed :
    (entry old : Text) (rest : List Text)
    → is_rename entry ≡ true
    → take_fields (entry ∷ old ∷ rest) ≡ of_text (path_part entry) ∷ take_fields rest
unfolding take_fields
take_fields-renamed entry old rest h = rw h refl

take_fields_lem :
    (cs : List Change)
    → all is_well_formed cs ≡ true
    → all (λ c. not (is_copy c)) cs ≡ true
    → take_fields (fields cs) ≡ map (λ c. of_text (change_path c)) cs
unfolding fields
take_fields_lem [] h k = unfold take_fields in refl
take_fields_lem (changed x y path ∷ cs) h k =
    let kept : is_rename (status_field x y path) ≡ false = unfold len_utf8 in ground arith in
    rw (take_fields-changed (status_field x y path) (fields cs) kept) (
      rw (path_part_lem x y path (ground arith) (ground arith))
        (rw (take_fields_lem cs (ground arith) (ground arith)) refl))
take_fields_lem (moved x y path old ∷ cs) h k =
    let renamed : is_rename (status_field x y path) ≡ true = unfold len_utf8 in ground arith in
    rw (take_fields-renamed (status_field x y path) old (fields cs) renamed) (
      rw (path_part_lem x y path (ground arith) (ground arith))
        (rw (take_fields_lem cs (ground arith) (ground arith)) refl))

-- The paths of changes are read back from what git prints of them: of a rename the destination, and
-- the original name is taken for no change of its own. No change is a copy.
pub parse_git_porcelain_z-porcelain :
    (cs : List Change)
    → all is_well_formed cs ≡ true
    → all (λ c. not (is_copy c)) cs ≡ true
    → parse_git_porcelain_z (porcelain cs) ≡ map (λ c. of_text (change_path c)) cs
unfolding parse_git_porcelain_z
parse_git_porcelain_z-porcelain cs h k = rw (fields_lem cs h) (take_fields_lem cs h k)

-- A copy is misread: the original name is taken for the record of another change, and what stands
-- behind its third byte for a path. The original name is none whose first two characters have an R.
pub parse_git_porcelain_z_copied :
    (x y : ℕ) (path old : Text) (cs : List Change)
    → all is_well_formed (moved x y path old ∷ cs) ≡ true
    → is_copy (moved x y path old) ≡ true
    → is_rename old ≡ false
    → all (λ c. not (is_copy c)) cs ≡ true
    → parse_git_porcelain_z (porcelain (moved x y path old ∷ cs))
      ≡ of_text path ∷ of_text (path_part old) ∷ map (λ c. of_text (change_path c)) cs
unfolding parse_git_porcelain_z fields
parse_git_porcelain_z_copied x y path old cs h copied off k =
    let kept : is_rename (status_field x y path) ≡ false = unfold len_utf8 in ground arith in
    rw (fields_lem (moved x y path old ∷ cs) h) (
      rw (take_fields-changed (status_field x y path) (old ∷ fields cs) kept) (
        rw (take_fields-changed old (fields cs) off) (
          rw (path_part_lem x y path (ground arith) (ground arith))
            (rw (take_fields_lem cs (ground arith) k) refl))))
