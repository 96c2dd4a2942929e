-- ===== src/Vcs/Fingerprint/Aligned.antt =====
-- Which files a fingerprint lists.
use henka.Common.{
  ℕ, suc, ◌≡◌, ◌≢◌, refl, ap, sym, ◌∙◌, List, [], ◌∷◌, map, Option, none, some, arith, ◌==◌, nat_eq,
  length, sort_by, eq_of_beq, if◌then◌else◌, Bool-cases, Option-cases, inl, inr,
}
use mathlib.Core.List.{Perm}
use henka.Common.{sort_by-perm}
use henka.Text.{Text, codes}
use henka.FilePath.{FilePath}
use henka.Fs.{FileSystem}
use henka.Vcs.{Tools, none_empty, lines}
use henka.Vcs.Fingerprint.{
  ChangedFile, zipped, without_oids, path_le, path_input, git_blob_oids, fingerprint_of,
  working_copy_fingerprint, oids_of, blob_oids, trim_all,
}

abbrev pub listed : List ChangedFile → List FilePath
listed files = map (λ f. f.path) files

listed-zipped :
    (paths : List FilePath) (oids : List Text)
    → length oids ≡ length paths
    → listed (zipped paths oids) ≡ paths
listed-zipped [] oids h = ground arith
listed-zipped (p ∷ paths) [] h = ground (arith, h)
listed-zipped (p ∷ paths) (o ∷ oids) h =
    ap (λ u. p ∷ u) (listed-zipped paths oids (omega (arith, h)))

listed-without_oids : (paths : List FilePath) → listed (without_oids paths) ≡ paths
listed-without_oids [] = refl
listed-without_oids (p ∷ paths) = ap (λ u. p ∷ u) (listed-without_oids paths)

or_none : Option (List Text) → List Text → List Text
or_none none other = other
or_none (some xs) other = xs

aligned :
    (xs oids : List Text) (paths : List FilePath)
    → (if length xs == length paths then some xs else none) ≡ some oids
    → length oids ≡ length paths
unfolding or_none
aligned xs oids paths h = elim (Bool-cases (length xs == length paths)) [
  | inl e ↦
      let same : some xs ≡ some oids = ap (λ b. if b then some xs else none) (sym e) ∙ h in
      ap (λ o. length (or_none o [])) (sym same) ∙ eq_of_beq (length xs) (length paths) e
  | inr e ↦
      let wrong : none ≡ some oids = ap (λ b. if b then some xs else none) (sym e) ∙ h in
      ground (arith, wrong)
]

-- The ids in what git prints, one on each line that is not blank.
abbrev pub ids_in : Option Text → Option (List Text)
ids_in none = none
ids_in (some out) = some (none_empty (trim_all (lines out)))

-- The ids of the files: those that git answers, if they are as many as the files, else none.
pub data Paired (files : List ChangedFile) (ids : Option (List Text)) : Type 0 where
  paired :
      (given : List Text)
      → ids ≡ some given
      → length given ≡ length files
      → map (λ f. f.oid) files ≡ map some given
      → Paired files ids
  unpaired :
      ((given : List Text) → ids ≡ some given → length given ≢ length files)
      → map (λ f. f.oid) files ≡ map (λ f. none) files
      → Paired files ids

checked_ids : List FilePath → Option (List Text) → Option (List Text)
checked_ids paths none = none
checked_ids paths (some ids) = if length ids == length paths then some ids else none

oids-zipped :
    (paths : List FilePath) (oids : List Text)
    → length oids ≡ length paths
    → map (λ f. f.oid) (zipped paths oids) ≡ map some oids
oids-zipped [] [] h = refl
oids-zipped [] (o ∷ oids) h = ground (arith, h)
oids-zipped (p ∷ paths) [] h = ground (arith, h)
oids-zipped (p ∷ paths) (o ∷ oids) h =
    ap (λ u. some o ∷ u) (oids-zipped paths oids (omega (arith, h)))

oids-without_oids :
    (paths : List FilePath)
    → map (λ f. f.oid) (without_oids paths) ≡ map (λ f. none) (without_oids paths)
oids-without_oids [] = refl
oids-without_oids (p ∷ paths) = ap (λ u. none ∷ u) (oids-without_oids paths)

length-zipped :
    (paths : List FilePath) (oids : List Text)
    → length oids ≡ length paths
    → length oids ≡ length (zipped paths oids)
length-zipped [] [] h = refl
length-zipped [] (o ∷ oids) h = ground (arith, h)
length-zipped (p ∷ paths) [] h = ground (arith, h)
length-zipped (p ∷ paths) (o ∷ oids) h = ap suc (length-zipped paths oids (omega (arith, h)))

length-without_oids : (paths : List FilePath) → length (without_oids paths) ≡ length paths
length-without_oids [] = refl
length-without_oids (p ∷ paths) = ap suc (length-without_oids paths)

no_files-Paired : (ids : Option (List Text)) → Paired [] ids
no_files-Paired none = unpaired (λ given e. ground (arith, e)) refl
no_files-Paired (some []) = paired [] refl refl refl
no_files-Paired (some (t ∷ ts)) = unpaired (λ given e. ground (arith, e)) refl

module _ (fs : FileSystem) (tools : Tools fs.State)
    (run_stdin : fs.State → FilePath → Text → List Text → Text → Option Text)
    (read : fs.State → FilePath → Option (List ℕ)) (utf8 : Text → List ℕ)
    (sha256 : List ℕ → List ℕ) where
  -- The ids that git gives are as many as the paths.
  length-oids_of :
      (paths : List FilePath) (out : Option Text) (oids : List Text)
      → oids_of fs tools run_stdin read utf8 sha256 paths out ≡ some oids
      → length oids ≡ length paths
  length-oids_of paths none oids h = ground (arith, h)
  length-oids_of paths (some out) oids h = aligned (none_empty (trim_all (lines out))) oids paths h

  length-git_blob_oids :
      (s : fs.State) (root : FilePath) (paths : List FilePath) (oids : List Text)
      → git_blob_oids fs tools run_stdin read utf8 sha256 s root paths ≡ some oids
      → length oids ≡ length paths
  unfolding git_blob_oids
  length-git_blob_oids s root paths oids h = by_input (path_input paths) h
    where
      by_input :
          (input : Option Text)
          → blob_oids fs tools run_stdin read utf8 sha256 s root paths input ≡ some oids
          → length oids ≡ length paths
      by_input none k = ground (arith, k)
      by_input (some t) k =
          length-oids_of paths
            (run_stdin s root (codes "git")
              (codes "hash-object" ∷ codes "--no-filters" ∷ codes "--stdin-paths" ∷ []) t)
            oids k

  listed-fingerprint_of :
      (s : fs.State) (root : FilePath) (paths : List FilePath)
      → listed
          (fingerprint_of fs tools run_stdin read utf8 sha256 s root paths
            (git_blob_oids fs tools run_stdin read utf8 sha256 s root paths)).files
        ≡ paths
  listed-fingerprint_of s root paths =
      elim (Option-cases (git_blob_oids fs tools run_stdin read utf8 sha256 s root paths)) [
        | inl e ↦ rw e (listed-without_oids paths)
        | inr (oids, e) ↦ rw e (listed-zipped paths oids (length-git_blob_oids s root paths oids e))
      ]

  -- The ids that git answers for the paths, however many they are.
  abbrev pub answered_ids : fs.State → FilePath → Option Text → Option (List Text)
  answered_ids s root none = none
  answered_ids s root (some input) = ids_in (
      run_stdin s root (codes "git")
        (codes "hash-object" ∷ codes "--no-filters" ∷ codes "--stdin-paths" ∷ []) input)

  git_blob_oids_lem :
      (s : fs.State) (root : FilePath) (paths : List FilePath)
      → git_blob_oids fs tools run_stdin read utf8 sha256 s root paths
        ≡ checked_ids paths (answered_ids s root (path_input paths))
  unfolding git_blob_oids checked_ids
  git_blob_oids_lem s root paths = by_input (path_input paths)
    where
      by_output :
          (out : Option Text)
          → oids_of fs tools run_stdin read utf8 sha256 paths out ≡ checked_ids paths (ids_in out)
      by_output none = refl
      by_output (some t) = refl

      by_input :
          (input : Option Text)
          → blob_oids fs tools run_stdin read utf8 sha256 s root paths input
            ≡ checked_ids paths (answered_ids s root input)
      by_input none = refl
      by_input (some t) = by_output (
          run_stdin s root (codes "git")
            (codes "hash-object" ∷ codes "--no-filters" ∷ codes "--stdin-paths" ∷ []) t)

  fingerprint_of-Paired :
      (s : fs.State) (root : FilePath) (paths : List FilePath) (ids : Option (List Text))
      → Paired
          (fingerprint_of fs tools run_stdin read utf8 sha256 s root paths
            (checked_ids paths ids)).files
          ids
  unfolding checked_ids
  fingerprint_of-Paired s root paths none =
      unpaired (λ given e. ground (arith, e)) (oids-without_oids paths)
  fingerprint_of-Paired s root paths (some ids) = elim (Bool-cases (length ids == length paths)) [
    | inl e ↦
        let h = eq_of_beq (length ids) (length paths) e in
        rw e (paired ids refl (length-zipped paths ids h) (oids-zipped paths ids h))
    | inr e ↦ rw e (
        unpaired
          (λ given g. λ same.
            ground (arith, e, ap (λ o. length (or_none o [])) g, same, length-without_oids paths))
          (oids-without_oids paths))
  ]

  -- A fingerprint lists the changed files, each as often as it was given and in the order of their
  -- paths, whatever git answers. The ids that git answers for these paths are paired with the files
  -- in that order if they are as many as the files; if they are too few or too many, or git answers
  -- none, then no file has an id.
  pub working_copy_fingerprint-Perm :
      (s : fs.State) (root : FilePath) (changed : List FilePath)
      → (listed (working_copy_fingerprint fs tools run_stdin read utf8 sha256 s root changed).files
          ≡ sort_by path_le changed)
        × Perm (sort_by path_le changed) changed
        × Paired
            (working_copy_fingerprint fs tools run_stdin read utf8 sha256 s root changed).files
            (answered_ids s root (path_input (sort_by path_le changed)))
  unfolding working_copy_fingerprint sort_by
  working_copy_fingerprint-Perm s root [] = (refl, sort_by-perm path_le [], no_files-Paired _)
  working_copy_fingerprint-Perm s root (p ∷ changed) =
      let paths = sort_by path_le (p ∷ changed) in
      (
        listed-fingerprint_of s root paths,
        sort_by-perm path_le (p ∷ changed),
        rw (git_blob_oids_lem s root paths)
            (fingerprint_of-Paired s root paths (answered_ids s root (path_input paths))),
      )
