-- ===== src/Registry/Slug.antt =====
-- A derived id is always a valid one.
use henka.Common.{
  ℕ, ◌≡◌, inl, inr, refl, Bool, true, false, ◌||◌, [], ◌∷◌, map, arith, ◌==◌, nat_eq, list_eq,
  reverse, if◌then◌else◌, Bool-cases,
}
use henka.Text.{Text, codes}
use henka.Text.Trim.{BeginsOff, trim_matches-BeginsOff, trim_matches-EndsOff, all-trim_matches}
use henka.Text.Search.{trim_matches, starts_with, strip_prefix, is_ascii_lowercase, is_ascii_digit}
use henka.FilePath.{FilePath, file_name}
use henka.Project.{are_slug_chars, validate_project_id}
use henka.Registry.{derive_id, raw_name}

abbrev is_dash : ℕ → Bool
is_dash c = c == b'-'

starts_with-dash : (t : Text) → BeginsOff is_dash t → starts_with t (codes "-") ≡ false
unfolding strip_prefix
starts_with-dash [] h = refl
starts_with-dash (c ∷ t) h = rw h

slug_chars :
    (t : Text)
    → are_slug_chars (map (λ c. if is_ascii_lowercase c || is_ascii_digit c then c else b'-') t)
      ≡ true
slug_chars [] = refl
slug_chars (c ∷ t) = ground (arith, slug_chars t)

-- The id that is derived from a directory's name is valid, whatever the name, and however letters
-- are lowered.
pub derive_id-IsValid :
    (to_lowercase : Text → Text) (root : FilePath)
    → validate_project_id (derive_id to_lowercase root) ≡ true
unfolding derive_id validate_project_id
derive_id-IsValid to_lowercase root =
    let raw = raw_name to_lowercase (file_name root) in
    let mapped = map (λ c. if is_ascii_lowercase c || is_ascii_digit c then c else b'-') raw in
    let slug = trim_matches is_dash mapped in
    elim (Bool-cases (slug == [])) [
      | inl none_left ↦ rw none_left (unfold strip_prefix in refl)
      | inr some_left ↦ rw (
        some_left,
        some_left,
        starts_with-dash slug (trim_matches-BeginsOff is_dash mapped),
        starts_with-dash (reverse slug) (trim_matches-EndsOff is_dash mapped),
        all-trim_matches _ is_dash mapped (slug_chars raw),
      )
    ]
