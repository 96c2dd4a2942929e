-- ===== src/Language.antt =====
-- crates/henka-core/src/language.rs: the languages, and their detection in a tree.
pub mod Detect
use henka.Common.{
  ◌≡◌, ◌↔◌, Bool, true, false, [], ◌∷◌, Option, none, some, arith, Eq, ◌==◌, list_eq, nat_eq, ◌||◌,
  if◌then◌else◌,
}
use henka.Text.{Text, codes}
use henka.Text.Search.{rsplit_once}
use henka.FilePath.{FilePath, file_name}

pub data Language : Type 0 where
  java rust typescript javascript : Language

abbrev pub language_beq : Language → Language → Bool
language_beq java java = true
language_beq rust rust = true
language_beq typescript typescript = true
language_beq javascript javascript = true
language_beq _ _ = false

pub language_beq_iff : (a b : Language) → (language_beq a b ≡ true) ↔ (a ≡ b)
language_beq_iff java b = ground arith
language_beq_iff _ b = ground arith

instance abbrev pub language_eq : Eq Language
language_eq = record { beq = language_beq; beq_iff = language_beq_iff }

unfoldable pub as_str : Language → Text
as_str java = codes "java"
as_str rust = codes "rust"
as_str typescript = codes "typescript"
as_str javascript = codes "javascript"

abbrev extension_of : Option (Text × Text) → Option Text
extension_of none = none
extension_of (some ([], e)) = none
extension_of (some (c ∷ stem, e)) = some e

abbrev pub extension_in : Option Text → Option Text
extension_in none = none
extension_in (some name) = extension_of (rsplit_once b'.' name)

-- `Path::extension`: what follows the last dot of the name, unless the name begins with it.
unfoldable pub extension : FilePath → Option Text
extension path = extension_in (file_name path)

unfoldable pub of_extension : Option Text → Option Language
of_extension none = none
of_extension (some e) =
    if e == codes "java"
    then some java
    else if e == codes "rs"
    then some rust
    else if e == codes "ts" || (e == codes "tsx" || (e == codes "mts" || e == codes "cts"))
    then some typescript
    else if e == codes "js" || (e == codes "jsx" || (e == codes "mjs" || e == codes "cjs"))
    then some javascript
    else none

-- `Language::from_path`
unfoldable pub from_path : FilePath → Option Language
from_path path = of_extension (extension path)
