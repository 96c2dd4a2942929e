-- ===== src/Language/Detect.antt =====
-- `detect_languages` of crates/henka-core/src/language.rs. The walk over the tree is the crate
-- `walkdir`'s: it is given the test of `filter_entry`, and yields the entries that it can read.
pub mod Exact
use henka.Common.{
  ℕ, ◌+◌, Bool, true, false, not, ◌&&◌, ◌||◌, any, List, [], ◌∷◌, ◌++◌, ltb, ◌==◌, list_eq, nat_eq,
  if◌then◌else◌,
}
use henka.Text.{Text, codes}
use henka.Text.Search.{ends_with}
use henka.Language.{Language, java, rust, typescript, javascript}

-- What the code reads of a `walkdir::DirEntry`.
pub record Entry : Type 0 where
  pub depth : ℕ
  pub name : Text
  pub is_dir : Bool
  pub is_file : Bool

abbrev pub skip_dirs : List Text
skip_dirs =
    codes ".git"
    ∷ codes ".jj"
    ∷ codes ".hg"
    ∷ codes "target"
    ∷ codes "build"
    ∷ codes "out"
    ∷ codes "node_modules"
    ∷ codes ".gradle"
    ∷ codes ".idea"
    ∷ []

abbrev pub max_walk_entries : ℕ
max_walk_entries = 50_000

-- The closure of `filter_entry`.
unfoldable pub keep_entry : Entry → Bool
keep_entry entry = entry.depth == 0 || not (entry.is_dir && any (λ d. d == entry.name) skip_dirs)

unfoldable pub is_java_marker : Text → Bool
is_java_marker name =
    ends_with name (codes ".java")
    || any (λ n. n == name)
        (codes "pom.xml"
          ∷ codes "build.gradle"
          ∷ codes "build.gradle.kts"
          ∷ codes "settings.gradle"
          ∷ codes "settings.gradle.kts"
          ∷ [])

unfoldable pub is_rust_marker : Text → Bool
is_rust_marker name = ends_with name (codes ".rs") || name == codes "Cargo.toml"

unfoldable pub is_typescript_marker : Text → Bool
is_typescript_marker name =
    name == codes "tsconfig.json"
    || any (λ ext. ends_with name ext)
        (codes ".ts" ∷ codes ".tsx" ∷ codes ".mts" ∷ codes ".cts" ∷ [])

unfoldable pub is_javascript_marker : Text → Bool
is_javascript_marker name =
    any (λ ext. ends_with name ext) (codes ".js" ∷ codes ".jsx" ∷ codes ".mjs" ∷ codes ".cjs" ∷ [])

-- The loop's four flags.
pub record Found : Type 0 where
  pub java : Bool
  pub rust : Bool
  pub ts : Bool
  pub js : Bool

unfoldable pub mark : Found → Entry → Found
mark f entry =
    if entry.is_file
    then record {
      java = f.java || is_java_marker entry.name;
      rust = f.rust || is_rust_marker entry.name;
      ts = f.ts || is_typescript_marker entry.name;
      js = f.js || is_javascript_marker entry.name;
    }
    else f

abbrev pub all_found : Found → Bool
all_found f = f.java && (f.rust && (f.ts && f.js))

-- The loop over the walk, which stops at the budget or once everything is found.
unfoldable pub scan : ℕ → Found → List Entry → Found
scan walked f [] = f
scan walked f (entry ∷ entries) =
    let f' = mark f entry in
    let rest = scan (walked + 1) f' entries in
    if ltb max_walk_entries (walked + 1) then f else (if all_found f' then f' else rest)

abbrev pub push_if : Bool → Language → List Language → List Language
push_if true l langs = l ∷ langs
push_if false l langs = langs

abbrev pub languages_of : Found → List Language
languages_of f =
    push_if f.java java (push_if f.rust rust (push_if f.ts typescript (push_if f.js javascript [])))

abbrev pub nothing_found : Found
nothing_found = record { java = false; rust = false; ts = false; js = false }

-- `walk` is what `WalkDir::new(root)` yields under the given filter.
unfoldable pub detect_languages : ((Entry → Bool) → List Entry) → List Language
unfolding scan
detect_languages walk = languages_of (scan 0 nothing_found (walk keep_entry))
