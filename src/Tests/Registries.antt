-- ===== src/Tests/Registries.antt =====
-- Languages, ids and the registry of projects, on a file system in memory.
use henka.Common.{
  ℕ, ◌≡◌, ◌≢◌, ◌⊎◌, inl, inr, refl, Bool, true, false, any, take, List, [], ◌∷◌, Option, none,
  arith, ◌==◌, ◌&&◌, list_eq, nat_eq, list_beq_iff, if◌then◌else◌, map, not,
}
use henka.Common.BTreeMap.{lookup, insert}
use henka.Text.{Text, codes}
use henka.Text.Search.{text_ord, trim_start, trim_matches, strip_prefix}
use henka.FilePath.{FilePath, root_dir, normal, component_eq, file_name, parent}
use henka.Error.{ok}
use henka.Fs.Memory.{memory, memory_writes, Files}
use henka.Language.{rust, language_eq}
use henka.Language.Detect.{
  Entry, max_walk_entries, detect_languages, scan, mark, is_java_marker, is_rust_marker,
  is_typescript_marker, is_javascript_marker,
}
use henka.Language.Detect.Exact.{marks, detect_languages_exact}
use henka.Project.{Project, validate_project_id}
use henka.Registry.{ProjectEntry, RegistryFile, derive_id, raw_name, from_projects, entry_of}
use henka.Registry.Slug.{derive_id-IsValid}
use henka.Registry.Store.{
  Host, ProjectRegistry, normalize_root, admit, checked, register, register_checked, save, inserted,
  unregister, auto_register, or_given, make_parent, after_parent, write_config,
}
use henka.Registry.Store.Invariant.{IsValid, operations-IsValid}
use henka.Registry.Store.Reload.{TomlReadsBack, IsRegistered, register_persists}

abbrev tree : FilePath
tree = root_dir ∷ normal (codes "My App!") ∷ []

abbrev lower : Text → Text
lower t = map (λ c. if c == b'M' then b'm' else (if c == b'A' then b'a' else c)) t

derives : derive_id lower tree ≡ codes "my-app"
unfolding derive_id raw_name file_name trim_start trim_matches
derives = refl

derive_id-IsValid_example : validate_project_id (derive_id lower tree) ≡ true
derive_id-IsValid_example = derive_id-IsValid lower tree

abbrev entry : Text → Bool → ℕ → Entry
entry name is_file depth = record {
  name = name;
  is_dir = not is_file;
  is_file = is_file;
  depth = depth;
}

abbrev entries : List Entry
entries = entry (codes "My App!") false 0 ∷ entry (codes "Cargo.toml") true 1 ∷ []

detect_languages_exact_example :
    any (λ k. k == rust) (detect_languages (λ keep. entries))
    ≡ any (marks rust) (take max_walk_entries entries)
detect_languages_exact_example = detect_languages_exact (λ keep. entries) rust

-- A codec for one project of a fixed tree and language, whose id is the whole text.
abbrev only_entry : ProjectEntry
only_entry = record { root = tree; languages = rust ∷ [] }

abbrev encode : RegistryFile → Text ⊎ Text
encode [] = inl (codes "empty")
encode ((id, e) ∷ []) =
    if e.root == only_entry.root && e.languages == only_entry.languages
    then inr id
    else inl (codes "other")
encode (a ∷ b ∷ m) = inl (codes "many")

abbrev host : Host
host = record {
  fs = memory;
  read_dir = λ s p. none;
  walk = λ s p keep. entries;
  to_toml = encode;
  from_toml = λ t. inr ((t, only_entry) ∷ []);
  to_lowercase = lower;
}

host-TomlReadsBack : TomlReadsBack host
host-TomlReadsBack [] t e = cc
host-TomlReadsBack ((id, e) ∷ []) t h =
    ground
      (arith, list_beq_iff e.root only_entry.root, list_beq_iff e.languages only_entry.languages)
host-TomlReadsBack (a ∷ b ∷ m) t e = cc

abbrev config : FilePath
config = root_dir ∷ normal (codes "projects.toml") ∷ []

abbrev empty_registry : ProjectRegistry
empty_registry = record { config_path = config; projects = [] }

abbrev disk : Files
disk = (tree, []) ∷ []

abbrev app : Project
app = record { id = codes "my-app"; root = tree; languages = rust ∷ [] }

checks_app : checked host none tree empty_registry disk ≡ ok app
unfolding checked normalize_root or_given admit derive_id raw_name file_name trim_start trim_matches
    validate_project_id strip_prefix scan mark detect_languages is_java_marker is_rust_marker
    is_typescript_marker is_javascript_marker lookup
checks_app = refl

registers_app : (register host none tree (empty_registry, disk)).0 ≡ ok app
unfolding register register_checked save make_parent after_parent write_config from_projects
    entry_of insert inserted parent
registers_app = rw checks_app refl

operations-IsValid_example :
    ((given : Option Text) (root : FilePath)
      → IsValid (register host given root (empty_registry, disk)).1.0)
    × ((id : Text) → IsValid (unregister host id (empty_registry, disk)).1.0)
    × ((roots : List FilePath) → IsValid (auto_register host roots (empty_registry, disk)).1.0)
operations-IsValid_example = operations-IsValid host empty_registry disk tt

register_persists_example :
    IsRegistered host host-TomlReadsBack
      (λ p q. p ≢ q)
      memory_writes
      app
      empty_registry
      (register host none tree (empty_registry, disk)).1.0
      (register host none tree (empty_registry, disk)).1.1
register_persists_example =
    register_persists host host-TomlReadsBack (λ p q. p ≢ q) memory_writes none tree empty_registry
      disk app tt registers_app
