-- ===== src/Registry/Store/Reload.antt =====
-- A successful registration or removal is on disk: loading the file gives the registry back.
use mathlib.Core.Path.{subst}
use henka.Common.{
  ◌≡◌, ◌⊎◌, inl, inr, refl, sym, ap, [], ◌∷◌, Option, none, some, ◌==◌, list_eq, nat_eq,
  if◌then◌else◌,
}
use henka.Common.BTreeMap.{BTreeMap, lookup, lookup-insert}
use henka.Text.{Text}
use henka.Text.Search.{text_ord}
use henka.FilePath.{FilePath, parent}
use henka.Error.{Result, ok, err, panic, >>=-eq-ok}
use henka.Fs.{IoResult, done, failed, WritesFiles}
use henka.Fs.Action.{from_io}
use henka.Project.{Project}
use henka.Registry.{RegistryFile, from_projects, into_projects, entry_of, project_of}
use henka.Registry.Store.{
  Host, ProjectRegistry, read_config, load, make_parent, write_config, after_parent, save, checked,
  inserted, register_checked, register,
}
use henka.Registry.Store.Invariant.{IsValid, IsChecked, checked-IsChecked, inserted-IsValid}

into-from :
    (m : BTreeMap Text Project)
    → (reg : FilePath) → IsValid (record { config_path = reg; projects = m })
    → into_projects (from_projects m) ≡ m
unfolding into_projects from_projects
into-from [] c v = refl
into-from ((id, p) ∷ m) c v =
    let own : p.id ≡ id = v.0.own_id in
    let same : project_of (entry_of (id, p)) ≡ (id, p) =
      unfold project_of entry_of in ap (λ (i : Text). (id, record p { id = i })) (sym own) in
    cc (same, into-from m c v.1)

-- What `toml` writes it reads back.
abbrev pub TomlReadsBack : Host → Type 0
TomlReadsBack h = (f : RegistryFile) (t : Text) → h.to_toml f ≡ inr t → h.from_toml t ≡ inr f

module _ (h : Host) (toml : TomlReadsBack h) (Distinct : FilePath → FilePath → Type 0)
    (disk : WritesFiles h.fs Distinct) where
  open h use {State}

  write_config-read :
      (path : FilePath) (f : RegistryFile) (t : Text ⊎ Text) (s : State)
      → h.to_toml f ≡ t
      → (write_config h path t s).0 ≡ ok tt
      → read_config h path (h.fs.read_to_string (write_config h path t s).1 path)
        ≡ ok (into_projects f)
  unfolding write_config read_config
  write_config-read path f (inl e) s w o = cc
  write_config-read path f (inr t) s w o = go (h.fs.write s path t) refl o
    where
      go :
          (r : IoResult (Unit {0}) × State)
          → h.fs.write s path t ≡ r
          → from_io r.0 ≡ ok tt
          → read_config h path (h.fs.read_to_string r.1 path) ≡ ok (into_projects f)
      go (done u, s') e good =
          rw (disk.read-write_self s s' path t e) (rw (toml f t w, read_config))
      go (failed x, s') e good = cc

  after_parent-load :
      (reg : ProjectRegistry) (r : Result (Unit {0}) × State)
      → IsValid reg
      → (after_parent h reg.config_path (h.to_toml (from_projects reg.projects)) r).0 ≡ ok tt
      → load h reg.config_path
          (after_parent h reg.config_path (h.to_toml (from_projects reg.projects)) r).1
        ≡ ok reg
  unfolding after_parent load
  after_parent-load reg (ok u, s) v o =
      let text = h.to_toml (from_projects reg.projects) in
      rw (write_config-read reg.config_path (from_projects reg.projects) text s refl o) (
        ap (λ (m : BTreeMap Text Project). ok (record reg { projects = m }))
          (into-from reg.projects reg.config_path v))
  after_parent-load reg (err e, s) v o = cc
  after_parent-load reg (panic, s) v o = cc

  -- After a save that succeeds, the file holds the registry.
  load-save :
      (reg : ProjectRegistry) (s : State)
      → IsValid reg
      → (save h reg s).0 ≡ ok tt
      → load h reg.config_path (save h reg s).1 ≡ ok reg
  unfolding save
  load-save reg s v o = after_parent-load reg (make_parent h (parent reg.config_path) s) v o

  -- What a registration that returns `p` has done to the registry, and to its file.
  pub record IsRegistered (p : Project) (before after : ProjectRegistry) (s : State) : Type 0 where
    pub was_new : lookup p.id before.projects ≡ none
    pub now_there :
        (id : Text)
        → lookup id after.projects ≡ (if p.id == id then some p else lookup id before.projects)
    pub on_disk : load h after.config_path s ≡ ok after

  register_checked-IsRegistered :
      (reg : ProjectRegistry) (s : State) (r : Result Project) (p : Project)
      → IsValid reg
      → ((q : Project) → r ≡ ok q → IsChecked h reg q)
      → (register_checked h reg s r).0 ≡ ok p
      → IsRegistered p reg (register_checked h reg s r).1.0 (register_checked h reg s r).1.1
  unfolding register_checked
  register_checked-IsRegistered reg s (err e) p v c o = cc
  register_checked-IsRegistered reg s panic p v c o = cc
  register_checked-IsRegistered reg s (ok q) p v c o =
      let (u, saved, same) = >>=-eq-ok (save h (inserted h q reg) s).0 (λ _. ok q) o in
      let e : q ≡ p = cc in
      subst (λ x. IsRegistered x reg (inserted h q reg) (save h (inserted h q reg) s).1) e
        (record {
          was_new = (c q refl).is_new;
          now_there = unfold inserted in λ id. lookup-insert q.id id q reg.projects;
          on_disk = load-save (inserted h q reg) s (inserted-IsValid h reg q v (c q refl)) saved;
        })

  -- If `toml` reads back what it writes, and a file what was written to it: a registration in a
  -- valid registry that succeeds adds the project under an id that was free, changes no other id,
  -- and has persisted the registry: loading the file gives exactly the registry in memory.
  pub register_persists :
      (given : Option Text) (root : FilePath) (reg : ProjectRegistry) (s : State) (p : Project)
      → IsValid reg
      → (register h given root (reg, s)).0 ≡ ok p
      → IsRegistered p reg (register h given root (reg, s)).1.0 (register h given root (reg, s)).1.1
  unfolding register
  register_persists given root reg s p v o =
      register_checked-IsRegistered reg s (checked h given root reg s) p v
        (checked-IsChecked h given root reg s) o
