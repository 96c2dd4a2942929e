-- ===== src/Lsp/Uri/RoundTrip.antt =====
-- A path is read back from its URI, as long as no `%` stands in it.
use henka.Common.{
  ℕ, ◌≡◌, refl, ap, ◌∙◌, Bool, true, false, not, ◌&&◌, all, List, [], ◌∷◌, ◌++◌, some, arith, ◌==◌,
  nat_eq, list_eq, beq_refl, map, append-nil,
}
use henka.Text.{Text, codes}
use henka.Text.Search.{split, strip_prefix}
use henka.FilePath.{
  FilePath, Component, root_dir, cur_dir, parent_dir, normal, display, slashed, component_text,
  of_text, components,
}
use henka.Lsp.Uri.{hex_byte, encode, path_to_file_uri, decode, uri_to_path, scheme}

abbrev pub has_no_percent : Text → Bool
has_no_percent t = all (λ c. not (c == b'%')) t

decode-plain : (c : ℕ) (t : Text) → (c == b'%') ≡ false → decode (c ∷ t) ≡ c ∷ decode t
unfolding decode
decode-plain c [] h = refl
decode-plain c (hi ∷ []) h = refl
decode-plain c (hi ∷ lo ∷ t) h = rw h refl

decode-escape :
    (hi lo byte : ℕ) (t : Text)
    → hex_byte hi lo ≡ some byte
    → decode (b'%' ∷ hi ∷ lo ∷ t) ≡ byte ∷ decode t
unfolding decode
decode-escape hi lo byte t h = rw h refl

decode-encode : (t : Text) → has_no_percent t ≡ true → decode (encode t) ≡ t
unfolding encode
decode-encode [] h = unfold decode in refl
decode-encode (c ∷ t) h = ground (
  arith,
  decode-encode t,
  decode-plain c (encode t),
  decode-escape b'2' b'0' b' ' (encode t),
  decode-escape b'2' b'3' b'#' (encode t),
  decode-escape b'3' b'F' b'?' (encode t),
)

abbrev has_no_slash : Text → Bool
has_no_slash t = all (λ c. not (c == b'/')) t

-- A name that a path can hold: not empty, no slash in it, and neither `.` nor `..`.
abbrev pub is_name : Text → Bool
is_name t = not (t == []) && (not (t == codes ".") && (not (t == codes "..") && has_no_slash t))

abbrev pub is_inner : Component → Bool
is_inner (normal t) = is_name t
is_inner parent_dir = true
is_inner _ = false

-- An absolute path as `PathBuf` holds it.
abbrev pub is_plain_absolute : FilePath → Bool
is_plain_absolute (root_dir ∷ p) = all is_inner p
is_plain_absolute _ = false

split-last : (t : Text) → has_no_slash t ≡ true → split (λ c. c == b'/') t ≡ t ∷ []
unfolding split
split-last [] h = refl
split-last (c ∷ t) h = ground (arith, split-last t)

split-first :
    (t rest : Text)
    → has_no_slash t ≡ true
    → split (λ c. c == b'/') (t ++ (b'/' ∷ rest)) ≡ t ∷ split (λ c. c == b'/') rest
unfolding split
split-first [] rest h = refl
split-first (c ∷ t) rest h = ground (arith, split-first t rest)

component_text-has_no_slash :
    (c : Component) → is_inner c ≡ true → has_no_slash (component_text c) ≡ true
component_text-has_no_slash (normal t) h = ground arith
component_text-has_no_slash parent_dir h = refl
component_text-has_no_slash root_dir h = cc
component_text-has_no_slash cur_dir h = cc

split-slashed :
    (t : Text) (p : List Component)
    → has_no_slash t ≡ true
    → all is_inner p ≡ true
    → split (λ c. c == b'/') (t ++ slashed p) ≡ t ∷ map component_text p
split-slashed t [] h k = rw append-nil (split-last t h)
split-slashed t (c ∷ p) h k =
    split-first t (component_text c ++ slashed p) h
    ∙ ap (λ x. t ∷ x)
        (split-slashed (component_text c) p (component_text-has_no_slash c (ground arith))
          (ground arith))

components_lem :
    (p : List Component) → all is_inner p ≡ true → components (map component_text p) ≡ p
unfolding components
components_lem [] h = refl
components_lem (normal t ∷ p) h = ground (arith, components_lem p)
components_lem (parent_dir ∷ p) h = ap (λ x. parent_dir ∷ x) (components_lem p (ground arith))
components_lem (root_dir ∷ p) h = cc
components_lem (cur_dir ∷ p) h = cc

-- A path is read back from the text that displays it.
of_text-display : (p : FilePath) → is_plain_absolute p ≡ true → of_text (display p) ≡ p
unfolding of_text display
of_text-display [] h = cc
of_text-display (root_dir ∷ []) h = unfold split components in refl
of_text-display (root_dir ∷ c ∷ p) h =
    rw (split-slashed [] (c ∷ p) refl h) (ap (λ x. root_dir ∷ x) (components_lem (c ∷ p) h))
of_text-display (normal t ∷ p) h = cc
of_text-display (parent_dir ∷ p) h = cc
of_text-display (cur_dir ∷ p) h = cc

strip_prefix-append : (s t : Text) → strip_prefix (s ++ t) s ≡ some t
unfolding strip_prefix
strip_prefix-append [] t = refl
strip_prefix-append (c ∷ s) t = rw (beq_refl c) (strip_prefix-append s t)

-- An absolute path in whose text no `%` stands is read back from its URI, whatever other characters
-- its names have.
pub uri_to_path-path_to_file_uri :
    (p : FilePath)
    → is_plain_absolute p ≡ true
    → has_no_percent (display p) ≡ true
    → uri_to_path (path_to_file_uri p) ≡ p
unfolding uri_to_path path_to_file_uri
uri_to_path-path_to_file_uri p h k =
    rw (strip_prefix-append scheme (encode (display p)))
      (rw (decode-encode (display p) k) (of_text-display p h))
