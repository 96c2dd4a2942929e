-- ===== src/Registry/Store.antt =====
-- `ProjectRegistry` of crates/henka-core/src/registry.rs: its operations over a file system, the
-- TOML of its file, and the walk of a tree.
pub mod Invariant
pub mod Reload
use henka.Common.{
  ◌⊎◌, inl, inr, Bool, true, false, not, any, List, [], ◌∷◌, ◌++◌, Option, none, some, ◌==◌,
  list_eq, nat_eq, ◌||◌, ◌&&◌, sort_by, map, if◌then◌else◌,
}
use henka.Common.BTreeMap.{BTreeMap, lookup, insert, remove}
use henka.Text.{Text}
use henka.Text.Search.{text_ord, text_lt}
use henka.FilePath.{
  FilePath, Component, root_dir, cur_dir, parent_dir, normal, component_eq, parent, is_some,
}
use henka.Error.{
  Error, Result, ok, err, panic, project_not_found, project_already_exists, invalid_project_id,
  path_not_found, not_a_directory, no_language_detected, config_read, config_write, io, not_found,
  other, ok_or, when, ◌>>=◌, ◌>>◌,
}
use henka.Fs.{FileSystem, IoResult, done, failed}
use henka.Fs.Action.{from_io}
use henka.Language.{Language}
use henka.Language.Detect.{Entry, detect_languages}
use henka.Project.{Project, validate_project_id}
use henka.Registry.{ProjectEntry, RegistryFile, from_projects, into_projects, derive_id}

-- What the registry uses that this repository does not implement: the file system, its directory
-- listings, the crates `walkdir` and `toml`, and `str::to_lowercase`. A failure of `toml` is the
-- text that it displays.
pub record Host : Type 1 where
  pub fs : FileSystem
  pub open fs use {State}
  pub read_dir : State → FilePath → Option (List FilePath)
  pub walk : State → FilePath → (Entry → Bool) → List Entry
  pub to_toml : RegistryFile → Text ⊎ Text
  pub from_toml : Text → Text ⊎ RegistryFile
  pub to_lowercase : Text → Text

pub record ProjectRegistry : Type 0 where
  pub config_path : FilePath
  pub projects : BTreeMap Text Project

-- Whether `a` may stand before `b` in `dirs.sort()`.
abbrev component_lt : Component → Component → Bool
component_lt root_dir root_dir = false
component_lt root_dir _ = true
component_lt cur_dir root_dir = false
component_lt cur_dir cur_dir = false
component_lt cur_dir _ = true
component_lt parent_dir (normal t) = true
component_lt (normal a) (normal b) = text_lt a b
component_lt _ _ = false

abbrev pub path_le : FilePath → FilePath → Bool
path_le [] q = true
path_le (c ∷ p) [] = false
path_le (c ∷ p) (d ∷ q) = component_lt c d || (c == d && path_le p q)

abbrev pub is_nil {ℓ} : {A : Type ℓ} → List A → Bool
is_nil [] = true
is_nil (x ∷ xs) = false

abbrev as_result {ℓ} : {A : Type ℓ} → A → Result (Unit {0}) → Result A
as_result a r = r >>= λ _. ok a

-- `ProjectRegistry::get`
unfoldable pub get : Text → ProjectRegistry → Result Project
get id reg = ok_or (lookup id reg.projects) (project_not_found id)

module _ (h : Host) where
  open h use {fs, State}

  read_config : FilePath → IoResult Text → Result (BTreeMap Text Project)
  read_config path (done text) = elim (h.from_toml text) [
    | inl source ↦ err (config_read path source)
    | inr file ↦ ok (into_projects file)
  ]
  read_config path (failed not_found) = ok []
  read_config path (failed (other e)) = err (io (other e))

  -- `ProjectRegistry::load`
  pub load : FilePath → State → Result ProjectRegistry
  unfolding read_config
  load config_path s = do
    projects ← read_config config_path (fs.read_to_string s config_path)
    ok (record { config_path = config_path; projects = projects })

  unfoldable pub make_parent : Option FilePath → State → Result (Unit {0}) × State
  make_parent none s = (ok tt, s)
  make_parent (some dir) s = let (r, s') = fs.create_dir_all s dir in (from_io r, s')

  unfoldable pub write_config : FilePath → Text ⊎ Text → State → Result (Unit {0}) × State
  write_config path (inl e) s = (err (config_write e), s)
  write_config path (inr text) s = let (r, s') = fs.write s path text in (from_io r, s')

  unfoldable pub after_parent :
      FilePath → Text ⊎ Text → Result (Unit {0}) × State → Result (Unit {0}) × State
  unfolding write_config
  after_parent path text (ok _, s) = write_config path text s
  after_parent path text (err e, s) = (err e, s)
  after_parent path text (panic, s) = (panic, s)

  -- `ProjectRegistry::save`
  unfoldable pub save : ProjectRegistry → State → Result (Unit {0}) × State
  unfolding make_parent after_parent
  save reg s =
      after_parent reg.config_path (h.to_toml (from_projects reg.projects))
        (make_parent (parent reg.config_path) s)

  unfoldable pub or_given : FilePath → IoResult FilePath → FilePath
  or_given root (done p) = p
  or_given root (failed e) = root

  unfoldable pub normalize_root : FilePath → State → Result FilePath
  unfolding or_given
  normalize_root root s = do
    when (not (fs.exists s root)) (path_not_found root)
    when (not (fs.is_dir s root)) (not_a_directory root)
    ok (or_given root (fs.canonicalize s root))

  abbrev pub id_or_derived : Option Text → FilePath → Text
  id_or_derived (some id) root = id
  id_or_derived none root = derive_id h.to_lowercase root

  -- The checks of `register` behind `normalize_root`.
  unfoldable pub admit : Text → FilePath → ProjectRegistry → State → Result Project
  admit id root reg s = do
    when (not (validate_project_id id)) (invalid_project_id id)
    when (is_some (lookup id reg.projects)) (project_already_exists id)
    let languages = detect_languages (h.walk s root)
    when (is_nil languages) (no_language_detected root)
    ok (record { id = id; root = root; languages = languages })

  -- All checks of `register`: the project that it would insert.
  unfoldable pub checked : Option Text → FilePath → ProjectRegistry → State → Result Project
  unfolding normalize_root admit
  checked given root reg s = do
    root' ← normalize_root root s
    admit (id_or_derived given root') root' reg s

  unfoldable pub inserted : Project → ProjectRegistry → ProjectRegistry
  inserted p reg = record reg { projects = insert p.id p reg.projects }

  unfoldable pub register_checked :
      ProjectRegistry → State → Result Project → Result Project × (ProjectRegistry × State)
  unfolding inserted
  register_checked reg s (ok p) =
      let (r, s') = save (inserted p reg) s in (as_result p r, (inserted p reg, s'))
  register_checked reg s (err e) = (err e, (reg, s))
  register_checked reg s panic = (panic, (reg, s))

  -- `ProjectRegistry::register`
  unfoldable pub register :
      Option Text → FilePath → ProjectRegistry × State → Result Project × (ProjectRegistry × State)
  unfolding register_checked
  register given root (reg, s) = register_checked reg s (checked given root reg s)

  pub removed : Text → ProjectRegistry → ProjectRegistry
  removed id reg = record reg { projects = remove id reg.projects }

  unregister_found :
      Text → ProjectRegistry → State → Option Project → Result Project × (ProjectRegistry × State)
  unfolding removed
  unregister_found id reg s none = (err (project_not_found id), (reg, s))
  unregister_found id reg s (some p) =
      let (r, s') = save (removed id reg) s in (as_result p r, (removed id reg, s'))

  -- `ProjectRegistry::unregister`
  pub unregister : Text → ProjectRegistry × State → Result Project × (ProjectRegistry × State)
  unfolding unregister_found
  unregister id (reg, s) = unregister_found id reg s (lookup id reg.projects)

  -- `ProjectRegistry::is_registered_root`
  pub is_registered_root : FilePath → ProjectRegistry → State → Bool
  unfolding or_given
  is_registered_root dir reg s =
      any (λ e. e.1.root == or_given dir (fs.canonicalize s dir)) reg.projects

  added_id : Result Project → List Text → List Text
  added_id (ok p) added = p.id ∷ added
  added_id (err e) added = added
  added_id panic added = added

  -- The inner loop of `auto_register`.
  pub register_dirs :
      List FilePath → ProjectRegistry × State → List Text × (ProjectRegistry × State)
  unfolding register is_registered_root added_id
  register_dirs [] st = ([], st)
  register_dirs (dir ∷ dirs) (reg, s) =
      let skipped = register_dirs dirs (reg, s) in
      let (r, st) = register none dir (reg, s) in
      let rest = register_dirs dirs st in
      if is_registered_root dir reg s then skipped else (added_id r rest.0, rest.1)

  keep_dirs : State → List FilePath → List FilePath
  keep_dirs s [] = []
  keep_dirs s (p ∷ ps) = let rest = keep_dirs s ps in if fs.is_dir s p then p ∷ rest else rest

  dirs_in : State → Option (List FilePath) → List FilePath
  unfolding keep_dirs
  dirs_in s none = []
  dirs_in s (some entries) = sort_by path_le (keep_dirs s entries)

  -- `ProjectRegistry::auto_register`: the ids that were added.
  pub auto_register :
      List FilePath → ProjectRegistry × State → List Text × (ProjectRegistry × State)
  unfolding register_dirs dirs_in
  auto_register [] st = ([], st)
  auto_register (root ∷ roots) (reg, s) =
      let (added, st) = register_dirs (dirs_in s (h.read_dir s root)) (reg, s) in
      let (more, st') = auto_register roots st in (added ++ more, st')
