-- ===== src/Edit/Apply/Confined.antt =====
-- `apply` touches nothing outside the root, as long as its paths resolve to paths below the root.
use mathlib.Core.Path.{subst}
use henka.Common.{
  ◌==◌, list_eq, nat_eq, ◌≡◌, true, List, [], ◌∷◌, some, inl, inr, All, Bool-cases, Option-cases,
}
use henka.Text.{Text}
use henka.FilePath.{FilePath, starts_with, parent}
use henka.Error.{Result, ok, err, panic, Result-cases}
use henka.Fs.{FileSystem}
use henka.Fs.Action.{Action, ◌>>=◌, doing, continue}
use henka.Edit.{PositionEncoding, FileEdit, FileOperation, create, rename, delete, WorkspaceEdit}
use henka.Edit.Plan.{resolve_path, Planned, rewrite_file, planned_for, plan}
use henka.Edit.Apply.{write_all, create_parent, create_file, delete_file, run_op, run_ops, apply}

-- `I` survives every operation at a path under `root`. A parent directory is created only for
-- such a path.
pub record Survives (fs : FileSystem) (root : FilePath) (I : fs.State → Type 0) : Type 0 where
  pub write :
      (s : fs.State) (p : FilePath) (t : Text)
      → starts_with p root ≡ true
      → I s
      → I (fs.write s p t).1
  pub create_dir_all :
      (s : fs.State) (p d : FilePath)
      → starts_with p root ≡ true
      → parent p ≡ some d
      → I s
      → I (fs.create_dir_all s d).1
  pub rename :
      (s : fs.State) (p q : FilePath)
      → starts_with p root ≡ true
      → starts_with q root ≡ true
      → I s
      → I (fs.rename s p q).1
  pub remove_file :
      (s : fs.State) (p : FilePath) → starts_with p root ≡ true → I s → I (fs.remove_file s p).1

-- The path, against the root, lies under the root.
abbrev pub IsUnder : FilePath → FilePath → Type 0
IsUnder root path = starts_with (resolve_path path root) root ≡ true

abbrev pub IsUnderOp : FilePath → FileOperation → Type 0
IsUnderOp root (create path) = IsUnder root path
IsUnderOp root (delete path) = IsUnder root path
IsUnderOp root (rename from to) = IsUnder root from × IsUnder root to

-- An action keeps `I`, whether it succeeds or not.
abbrev Keeps {ℓ} : {S : Type 0} {A : Type ℓ} → (S → Type 0) → Action S A → Type 0
Keeps {S} I m = (s : S) → I s → I (m s).1

Keeps-bind :
    {S A B : Type 0} (I : S → Type 0) (m : Action S A) (f : A → Action S B)
    → Keeps I m
    → ((a : A) → Keeps I (f a))
    → Keeps I (m >>= f)
Keeps-bind {S} {A} {B} I m f km kf s h = go (m s) (km s h)
  where
    go : (r : Result A × S) → I r.1 → I (continue r.0 f r.1).1
    go (ok a, s') h' = kf a s' h'
    go (err e, s') h' = h'
    go (panic, s') h' = h'

-- The same for a state that the caller only reads.
module _ (fs : FileSystem) (root : FilePath) where
  planned-IsUnder :
      (file : FileEdit) (texts : Text × Text) (ps : List Planned)
      → IsUnder root file.path
      → All (λ (p : Planned). starts_with p.abs root ≡ true) ps
      → All (λ (p : Planned). starts_with p.abs root ≡ true) (planned_for fs file root texts ps)
  unfolding planned_for
  planned-IsUnder file (original, updated) ps under h = elim (Bool-cases (original == updated)) [
    | inl same ↦ rw same h
    | inr changed ↦ rw changed (under, h)
  ]

  plan-IsUnder :
      (files : List FileEdit) (encoding : PositionEncoding) (s : fs.State) (ps : List Planned)
      → All (λ (f : FileEdit). IsUnder root f.path) files
      → plan fs files encoding root s ≡ ok ps
      → All (λ (p : Planned). starts_with p.abs root ≡ true) ps
  unfolding plan
  plan-IsUnder [] encoding s [] under h = tt
  plan-IsUnder [] encoding s (p ∷ ps) under h = cc
  plan-IsUnder (f ∷ files) encoding s ps under h =
      elim (Result-cases (rewrite_file fs f encoding root s)) [
        | inr (inl (e, bad)) ↦ cc (rw bad at h)
        | inr (inr bad) ↦ cc (rw bad at h)
        | inl (t, good) ↦ elim (Result-cases (plan fs files encoding root s)) [
          | inr (inl (e, bad)) ↦ cc (rw (good, bad) at h)
          | inr (inr bad) ↦ cc (rw (good, bad) at h)
          | inl (qs, rest) ↦
              let e : planned_for fs f root t qs ≡ ps = cc (rw (good, rest) at h) in
              subst (λ xs. All (λ (p : Planned). starts_with p.abs root ≡ true) xs) e
                (planned-IsUnder f t qs under.0 (plan-IsUnder files encoding s qs under.1 rest))
        ]
      ]

module _ (fs : FileSystem) (root : FilePath) (I : fs.State → Type 0)
    (safe : Survives fs root I) where
  write_all-Keeps :
      (ps : List Planned)
      → All (λ (p : Planned). starts_with p.abs root ≡ true) ps
      → Keeps I (write_all fs ps)
  unfolding write_all
  write_all-Keeps [] h = λ s i. i
  write_all-Keeps (p ∷ ps) (u, us) =
      Keeps-bind I (doing (λ s. fs.write s p.abs p.updated)) _
        (λ s i. safe.write s p.abs p.updated u i)
        (λ _. Keeps-bind I (write_all fs ps) _ (write_all-Keeps ps us) (λ changed s i. i))

  create_parent-Keeps :
      (abs : FilePath) → starts_with abs root ≡ true → Keeps I (create_parent fs (parent abs))
  create_parent-Keeps abs u = elim (Option-cases (parent abs)) [
    | inl gone ↦ rw gone (unfold create_parent in λ s i. i)
    | inr (d, e) ↦ rw e (unfold create_parent in λ s i. safe.create_dir_all s abs d u e i)
  ]

  create_file-Keeps : (abs : FilePath) → starts_with abs root ≡ true → Keeps I (create_file fs abs)
  create_file-Keeps abs u s i = elim (Bool-cases (fs.exists s abs)) [
    | inl there ↦ unfold create_file in rw (there, create_file) i
    | inr missing ↦
        unfold create_file in
        rw (missing, create_file)
          (Keeps-bind I (create_parent fs (parent abs)) _ (create_parent-Keeps abs u)
            (λ _ s' i'. safe.write s' abs [] u i') s i)
  ]

  delete_file-Keeps : (abs : FilePath) → starts_with abs root ≡ true → Keeps I (delete_file fs abs)
  delete_file-Keeps abs u s i = elim (Bool-cases (fs.exists s abs)) [
    | inl there ↦ unfold delete_file in rw (there, delete_file) (safe.remove_file s abs u i)
    | inr missing ↦ unfold delete_file in rw (missing, delete_file) i
  ]

  run_op-Keeps : (op : FileOperation) → IsUnderOp root op → Keeps I (run_op fs root op)
  unfolding run_op
  run_op-Keeps (create path) u =
      Keeps-bind I (create_file fs (resolve_path path root)) _
        (create_file-Keeps (resolve_path path root) u) (λ _ s i. i)
  run_op-Keeps (rename from to) u =
      Keeps-bind I (create_parent fs (parent (resolve_path to root))) _
        (create_parent-Keeps (resolve_path to root) u.1)
        λ _.
          Keeps-bind I (doing (λ s. fs.rename s (resolve_path from root) (resolve_path to root))) _
            (λ s i. safe.rename s (resolve_path from root) (resolve_path to root) u.0 u.1 i)
            (λ _ s i. i)
  run_op-Keeps (delete path) u =
      Keeps-bind I (delete_file fs (resolve_path path root)) _
        (delete_file-Keeps (resolve_path path root) u) (λ _ s i. i)

  run_ops-Keeps :
      (ops : List FileOperation) → All (IsUnderOp root) ops → Keeps I (run_ops fs root ops)
  unfolding run_ops
  run_ops-Keeps [] u = λ s i. i
  run_ops-Keeps (op ∷ ops) (u, us) =
      Keeps-bind I (run_op fs root op) _ (run_op-Keeps op u)
        λ path. Keeps-bind I (run_ops fs root ops) _ (run_ops-Keeps ops us) (λ changed s i. i)

  -- If every file and operation of an edit resolves to a path under the root, then whatever
  -- survives the file system's operations under the root survives `apply`, also when it fails.
  pub apply-Survives :
      (edit : WorkspaceEdit)
      → All (λ (f : FileEdit). IsUnder root f.path) edit.files
      → All (IsUnderOp root) edit.file_ops
      → (s : fs.State) → I s
      → I (apply fs edit root s).1
  unfolding apply
  apply-Survives edit uf uo s i = elim (Result-cases (plan fs edit.files edit.encoding root s)) [
    | inr (inl (e, bad)) ↦ rw bad i
    | inr (inr bad) ↦ rw bad i
    | inl (ps, good) ↦ rw good (
        Keeps-bind I (write_all fs ps) _
          (write_all-Keeps ps (plan-IsUnder fs root edit.files edit.encoding s ps uf good))
          (λ written.
            Keeps-bind I (run_ops fs root edit.file_ops) _ (run_ops-Keeps edit.file_ops uo)
              (λ moved s' j. j))
          s i)
  ]
