-- ===== src/Tests/Edits.antt =====
-- Text edits: the inputs are those of the tests of crates/henka-core/src/edit.rs.
use henka.Common.{
  sort_by, ℕ, zero, suc, ◌≤◌, ◌<◌, ◌≢◌, ◌≡◌, refl, true, false, List, [], ◌∷◌, none, some, arith,
  All, inl, inr, list_eq, nat_eq, Option-cases, list_beq_iff,
}
use henka.Text.{Text, codes, split_at, len_utf8, len_utf16}
use henka.FilePath.{FilePath, root_dir, normal, component_eq, strip_prefix, starts_with}
use henka.Error.{ok, err, panic, overlapping_edits}
use henka.Common.BTreeMap.{lookup, remove, lookup-remove}
use henka.Fs.Memory.{memory, Files, lookup-behind}
use henka.Edit.{utf16, Position, TextEdit, WorkspaceEdit, delete, retarget}
use henka.Edit.Retarget.{LiesUnder, retarget-retarget}
use henka.Edit.Plan.{Display, rewrite_file, resolve_path}
use henka.Edit.Apply.{apply}
use henka.Edit.Apply.Atomic.{apply_atomic}
use henka.Edit.Apply.Confined.{Survives}
use henka.Server.Finish.{SessionApi, finish_edit}
use henka.Server.Finish.Safe.{finish_edit-Survives, finish_edit-dry_run}
use henka.Edit.Offset.{resolve_offset, encoded_len}
use henka.Edit.Offset.Order.{resolve_offset_mono}
use henka.Edit.Rewrite.{rewrite, resolve_edits, resolve_edit, resolve_or, splice, replace_range}
use henka.Edit.Rewrite.Correct.{IsForward, IsRewritten, rewrite_correct, rewrite_inverted}

abbrev at : ℕ → ℕ → Position
at line character = record { line = line; character = character }

abbrev replacing : ℕ → ℕ → Text → TextEdit
replacing a b t = record { range = record { start = at 0 a; end = at 0 b }; new_text = t }

abbrev pub file : FilePath
file = root_dir ∷ normal (codes "a.txt") ∷ []

abbrev triple : Text
triple = codes "aaa bbb ccc\n"

abbrev two_edits : List TextEdit
two_edits = replacing 8 11 (codes "ZZZ") ∷ replacing 0 3 (codes "AAA") ∷ []

rewrites_both : rewrite file triple utf16 two_edits ≡ ok (codes "AAA bbb ZZZ\n")
unfolding rewrite resolve_edits resolve_edit resolve_or resolve_offset encoded_len len_utf16
    len_utf8 split_at sort_by splice replace_range
rewrites_both = refl

rejects_overlap :
    rewrite file
      (codes "hello world\n")
      utf16
      (replacing 0 5 (codes "x") ∷ replacing 3 8 (codes "y") ∷ [])
    ≡ err (overlapping_edits file)
unfolding rewrite resolve_edits resolve_edit resolve_or resolve_offset encoded_len len_utf16
    len_utf8 split_at sort_by splice replace_range
rejects_overlap = refl

-- "💡" is one scalar value, two UTF-16 units and four bytes.
counts_units : resolve_offset (0x1f4a1 ∷ codes "x\n") (at 0 2) utf16 ≡ ok (some 4)
unfolding resolve_offset encoded_len len_utf16 len_utf8 split_at
counts_units = refl

two_edits-IsForward : All IsForward two_edits
two_edits-IsForward = omega arith

rewrite_correct_example :
    IsRewritten file triple utf16 two_edits (rewrite file triple utf16 two_edits)
rewrite_correct_example = rewrite_correct file triple utf16 two_edits two_edits-IsForward

abbrev lines : Text
lines = codes "one\r\ntwo\n"

resolves_first : resolve_offset lines (at 0 9) utf16 ≡ ok (some 3)
unfolding resolve_offset encoded_len len_utf16 len_utf8 split_at
resolves_first = refl

resolves_second : resolve_offset lines (at 1 1) utf16 ≡ ok (some 6)
unfolding resolve_offset encoded_len len_utf16 len_utf8 split_at
resolves_second = refl

resolve_offset_mono_example : 3 ≤ 6
resolve_offset_mono_example =
    resolve_offset_mono lines (at 0 9) (at 1 1) utf16 3 6 (omega arith) (omega arith)
      (inl (omega arith)) resolves_first resolves_second

resolves_at : (a : ℕ) → a < 2 → resolve_offset (codes "ab") (at 0 a) utf16 ≡ ok (some a)
unfolding resolve_offset encoded_len len_utf16 len_utf8 split_at
resolves_at zero h = refl
resolves_at (suc zero) h = refl
resolves_at (suc (suc a)) h = absurd (omega arith)

rewrite_inverted_example : rewrite file (codes "ab") utf16 (replacing 1 0 (codes "x") ∷ []) ≡ panic
rewrite_inverted_example =
    rewrite_inverted file (codes "ab") utf16 (replacing 1 0 (codes "x")) 1 0
      (resolves_at 1 (omega arith)) (resolves_at 0 (omega arith)) (omega arith)

abbrev pub checkout : FilePath
checkout = root_dir ∷ normal (codes "base") ∷ []

abbrev pub worktree : FilePath
worktree = root_dir ∷ normal (codes "wt") ∷ []

abbrev source_file : FilePath
source_file = root_dir ∷ normal (codes "base") ∷ normal (codes "A.java") ∷ []

abbrev pub moving : WorkspaceEdit
moving = record {
  encoding = utf16;
  files = record { path = source_file; edits = [] } ∷ [];
  file_ops = delete source_file ∷ [];
}

abbrev source_under : LiesUnder checkout source_file
source_under = record { rest = normal (codes "A.java") ∷ []; joined = refl; inner = (tt, tt) }

retarget-retarget_example : retarget (retarget moving checkout worktree) worktree checkout ≡ moving
retarget-retarget_example =
    retarget-retarget checkout worktree tt tt moving
      (record { files = (source_under, tt); file_ops = (source_under, tt) })

is_missing :
    (t : Text × Text)
    → rewrite_file memory (record { path = source_file; edits = [] }) utf16 checkout [] ≢ ok t
unfolding rewrite_file resolve_path lookup
is_missing t e = cc

apply_atomic_example :
    ((apply memory moving checkout []).1 ≡ [])
    × ((changed : List FilePath) → (apply memory moving checkout []).0 ≢ ok changed)
apply_atomic_example =
    apply_atomic memory moving checkout [] (record { path = source_file; edits = [] }) (inl refl)
      is_missing

abbrev api : SessionApi
api = record { Session = Unit {0}; root = λ _. some checkout; sync_changed = λ s changed. s }

abbrev pub display : Display
display = record { path_text = λ p. []; text_diff = λ a b p. b }

abbrev pub one_file : Files
one_file = (file, triple) ∷ []

-- The file outside the working copy has its text.
abbrev pub Untouched : Files → Type 0
Untouched s = lookup file s ≡ some triple

outside : (p : FilePath) → starts_with p worktree ≡ true → p ≢ file
unfolding strip_prefix
outside p h e = cc (rw e at h)

Untouched-behind :
    (s : Files) (p : FilePath) (t : Text)
    → starts_with p worktree ≡ true
    → Untouched s
    → Untouched ((p, t) ∷ s)
Untouched-behind s p t h u = rw (lookup-behind s p file t (outside p h)) u

Untouched-removed :
    (s : Files) (p : FilePath)
    → starts_with p worktree ≡ true
    → Untouched s
    → Untouched (remove p s)
Untouched-removed s p h u = rw lookup-remove (ground (arith, list_beq_iff p file, outside p h))

pub Untouched-Survives : Survives memory worktree Untouched
Untouched-Survives = record {
  write = λ s p t h u. Untouched-behind s p t h u;
  create_dir_all = λ s p d h e u. u;
  rename = λ s p q h k u. elim (Option-cases (lookup p s)) [
    | inl gone ↦ rw gone u
    | inr (t, there) ↦ rw there (Untouched-behind (remove p s) q t k (Untouched-removed s p h u))
  ];
  remove_file = Untouched-removed;
}

pub Untouched-first : Untouched one_file
unfolding lookup
Untouched-first = refl

finish_edit-dry_run_example :
    (finish_edit memory api display (λ e. []) (λ s p. none) moving true worktree (one_file, tt)).1
    ≡ (one_file, tt)
finish_edit-dry_run_example =
    finish_edit-dry_run memory api display (λ e. []) (λ s p. none) moving worktree one_file tt

finish_edit-Survives_example :
    Untouched
      (finish_edit memory api display
        (λ e. [])
        (λ s p. none)
        moving
        false
        worktree
        (one_file, tt)).1.0
finish_edit-Survives_example =
    finish_edit-Survives memory api display (λ e. []) (λ s p. none) moving false worktree one_file
      tt Untouched Untouched-Survives Untouched-first
