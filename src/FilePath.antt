-- ===== src/FilePath.antt =====
-- Rust's `std::path` on Unix, by components: `PathBuf` compares, joins and strips prefixes by
-- `components()`, in which repeated and trailing slashes and inner `.` have no part.
pub mod Prefix
use henka.Common.{
  ℕ, ◌≡◌, ◌↔◌, refl, Bool, true, false, not, ◌&&◌, ◌||◌, List, [], ◌∷◌, ◌++◌, Option, none, some,
  arith, Eq, ◌==◌, list_beq, list_beq_iff, nat_eq, list_eq, if◌then◌else◌,
}
use henka.Text.{Text, codes}
use henka.Text.Search.{split}

-- `std::path::Component`
pub data Component : Type 0 where
  root_dir cur_dir parent_dir : Component
  normal : Text → Component

abbrev pub component_beq : Component → Component → Bool
component_beq root_dir root_dir = true
component_beq cur_dir cur_dir = true
component_beq parent_dir parent_dir = true
component_beq (normal a) (normal b) = a == b
component_beq _ _ = false

pub component_beq_iff : (a b : Component) → (component_beq a b ≡ true) ↔ (a ≡ b)
component_beq_iff root_dir root_dir = ground arith
component_beq_iff (normal a) (normal b) = ground (arith, list_beq_iff a b)
component_beq_iff _ _ = ground arith

instance abbrev pub component_eq : Eq Component
component_eq = record { beq = component_beq; beq_iff = component_beq_iff }

abbrev pub FilePath : Type 0
FilePath = List Component

-- `Path::is_absolute`
abbrev pub is_absolute : FilePath → Bool
is_absolute (root_dir ∷ p) = true
is_absolute _ = false

-- `path.strip_prefix(base)`
unfoldable pub strip_prefix : FilePath → FilePath → Option FilePath
strip_prefix p [] = some p
strip_prefix [] (b ∷ base) = none
strip_prefix (c ∷ p) (b ∷ base) = if c == b then strip_prefix p base else none

abbrev pub is_some {ℓ} : {A : Type ℓ} → Option A → Bool
is_some none = false
is_some (some _) = true

-- `path.starts_with(base)`
abbrev pub starts_with : FilePath → FilePath → Bool
starts_with p base = is_some (strip_prefix p base)

-- The components that `p` adds behind a base: a leading `.` counts only in an empty path.
abbrev pub behind : FilePath → FilePath → FilePath
behind [] p = p
behind (c ∷ base) (cur_dir ∷ p) = p
behind (c ∷ base) p = p

-- `base.join(p)`: an absolute `p` replaces the base.
unfoldable pub join : FilePath → FilePath → FilePath
join base p = if is_absolute p then p else base ++ behind base p

-- What follows the last component, for `Path::parent` and `Path::file_name`.
abbrev pub drop_last {ℓ} : {A : Type ℓ} → List A → List A
drop_last [] = []
drop_last (x ∷ []) = []
drop_last (x ∷ y ∷ xs) = x ∷ drop_last (y ∷ xs)

abbrev pub last? {ℓ} : {A : Type ℓ} → List A → Option A
last? [] = none
last? (x ∷ []) = some x
last? (x ∷ y ∷ xs) = last? (y ∷ xs)

abbrev parent_of : FilePath → Option Component → Option FilePath
parent_of p none = none
parent_of p (some root_dir) = none
parent_of p (some _) = some (drop_last p)

-- `Path::parent`: none for the root and for the empty path.
unfoldable pub parent : FilePath → Option FilePath
parent p = parent_of p (last? p)

abbrev name_of : Option Component → Option Text
name_of (some (normal n)) = some n
name_of _ = none

-- `Path::file_name`: the last component, if it is a name.
unfoldable pub file_name : FilePath → Option Text
file_name p = name_of (last? p)

-- The components of a path's text, as `Path::components` yields them. A `.` counts only in front.
abbrev named : Text → List Component → List Component
named t rest =
    if t == codes "" || t == codes "."
    then rest
    else (if t == codes ".." then parent_dir ∷ rest else normal t ∷ rest)

unfoldable pub components : List Text → List Component
components [] = []
components (t ∷ ts) = named t (components ts)

abbrev of_parts : List Text → FilePath
of_parts [] = []
of_parts (t ∷ []) = if t == codes "." then cur_dir ∷ [] else named t []
of_parts (t ∷ u ∷ ts) =
    if t == codes ""
    then root_dir ∷ components (u ∷ ts)
    else (if t == codes "." then cur_dir ∷ components (u ∷ ts) else named t (components (u ∷ ts)))

-- `PathBuf::from`
unfoldable pub of_text : Text → FilePath
of_text t = of_parts (split (λ c. c == b'/') t)

-- `path.display()` of a path that is made of these components.
abbrev pub component_text : Component → Text
component_text root_dir = []
component_text cur_dir = codes "."
component_text parent_dir = codes ".."
component_text (normal t) = t

abbrev pub slashed : List Component → Text
slashed [] = []
slashed (c ∷ p) = b'/' ∷ (component_text c ++ slashed p)

unfoldable pub display : FilePath → Text
display [] = []
display (root_dir ∷ []) = codes "/"
display (root_dir ∷ c ∷ p) = slashed (c ∷ p)
display (c ∷ p) = component_text c ++ slashed p
