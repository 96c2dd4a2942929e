-- ===== src/Edit/Apply/Atomic.antt =====
-- `apply` plans every file before it writes one.
use henka.Common.{◌≡◌, ◌≢◌, List, [], ◌∷◌, inl, inr, In}
use henka.Text.{Text}
use henka.FilePath.{FilePath}
use henka.Error.{ok, Result-cases}
use henka.Fs.{FileSystem}
use henka.Edit.{PositionEncoding, FileEdit, WorkspaceEdit}
use henka.Edit.Plan.{Planned, rewrite_file, plan}
use henka.Edit.Apply.{apply}

module _ (fs : FileSystem) (encoding : PositionEncoding) (root : FilePath) (s : fs.State) where
  -- A plan has rewritten every file.
  plan-In :
      (files : List FileEdit) (file : FileEdit) (ps : List Planned)
      → In file files
      → plan fs files encoding root s ≡ ok ps
      → (t : Text × Text) × (rewrite_file fs file encoding root s ≡ ok t)
  unfolding plan
  plan-In [] file ps (none) h = elim none [ ]
  plan-In (f ∷ files) file ps at h = elim (Result-cases (rewrite_file fs f encoding root s)) [
    | inr (inl (e, bad)) ↦ cc (rw bad at h)
    | inr (inr bad) ↦ cc (rw bad at h)
    | inl (t, good) ↦ elim at [
      | inl same ↦ (t, rw (← same) good)
      | inr later ↦ elim (Result-cases (plan fs files encoding root s)) [
        | inl (qs, rest) ↦ plan-In files file qs later rest
        | inr (inl (e, bad)) ↦ cc (rw (good, bad) at h)
        | inr (inr bad) ↦ cc (rw (good, bad) at h)
      ]
    ]
  ]

-- If one of the files cannot be rewritten (it cannot be read, a position is out of range, edits
-- overlap), then `apply` does not succeed and leaves the whole file system as it was.
pub apply_atomic :
    (fs : FileSystem) (edit : WorkspaceEdit) (root : FilePath) (s : fs.State) (file : FileEdit)
    → In file edit.files
    → ((t : Text × Text) → rewrite_file fs file edit.encoding root s ≢ ok t)
    → ((apply fs edit root s).1 ≡ s)
      × ((changed : List FilePath) → (apply fs edit root s).0 ≢ ok changed)
unfolding apply
apply_atomic fs edit root s file at bad =
    elim (Result-cases (plan fs edit.files edit.encoding root s)) [
      | inl (ps, e) ↦
          let (t, good) = plan-In fs edit.encoding root s edit.files file ps at e in
          absurd (bad t good)
      | inr (inl (x, e)) ↦ (rw e, λ changed. rw e (λ p. cc))
      | inr (inr e) ↦ (rw e, λ changed. rw e (λ p. cc))
    ]
