-- ===== src/Registry/Store/Invariant.antt =====
-- What every registry that the operations build satisfies.
use henka.Common.{
  ◌≡◌, inl, inr, refl, true, false, List, [], ◌∷◌, Option, none, some, arith, list_eq, nat_eq,
  Bool-cases,
}
use henka.Common.BTreeMap.{lookup, AllEntries, AllEntries-insert, AllEntries-remove}
use henka.Text.{Text}
use henka.Text.Search.{text_ord}
use henka.FilePath.{FilePath}
use henka.Error.{Result, ok, err, panic, >>=-eq-ok}
use henka.Project.{Project, validate_project_id}
use henka.Registry.Store.{
  Host, ProjectRegistry, normalize_root, id_or_derived, is_nil, admit, checked, inserted,
  register_checked, register, removed, unregister_found, unregister, register_dirs, auto_register,
  is_registered_root, dirs_in,
}

-- An entry under its own, valid id, with at least one language.
pub record IsEntry (id : Text) (p : Project) : Type 0 where
  pub own_id : p.id ≡ id
  pub valid_id : validate_project_id id ≡ true
  pub has_languages : is_nil p.languages ≡ false

abbrev pub IsValid : ProjectRegistry → Type 0
IsValid reg = AllEntries IsEntry reg.projects

module _ (h : Host) where
  open h use {State}

  -- What the checks of `register` have established of the project that they pass on.
  pub record IsChecked (reg : ProjectRegistry) (p : Project) : Type 0 where
    pub valid_id : validate_project_id p.id ≡ true
    pub is_new : lookup p.id reg.projects ≡ none
    pub has_languages : is_nil p.languages ≡ false

  admit-IsChecked :
      (id : Text) (root : FilePath) (reg : ProjectRegistry) (s : State) (p : Project)
      → admit h id root reg s ≡ ok p
      → IsChecked reg p
  unfolding admit
  admit-IsChecked id root reg s p e = ground arith

  pub checked-IsChecked :
      (given : Option Text) (root : FilePath) (reg : ProjectRegistry) (s : State) (p : Project)
      → checked h given root reg s ≡ ok p
      → IsChecked reg p
  unfolding checked
  checked-IsChecked given root reg s p e =
      let (root', _, rest) = >>=-eq-ok (normalize_root h root s) _ e in
      admit-IsChecked (id_or_derived h given root') root' reg s p rest

  pub inserted-IsValid :
      (reg : ProjectRegistry) (p : Project)
      → IsValid reg
      → IsChecked reg p
      → IsValid (inserted h p reg)
  unfolding inserted
  inserted-IsValid reg p v c =
      AllEntries-insert IsEntry p.id p reg.projects
        (record { own_id = refl; valid_id = c.valid_id; has_languages = c.has_languages }) v

  register_checked-IsValid :
      (reg : ProjectRegistry) (s : State) (r : Result Project)
      → IsValid reg
      → ((p : Project) → r ≡ ok p → IsChecked reg p)
      → IsValid (register_checked h reg s r).1.0
  unfolding register_checked
  register_checked-IsValid reg s (ok p) v c = inserted-IsValid reg p v (c p refl)
  register_checked-IsValid reg s (err e) v c = v
  register_checked-IsValid reg s panic v c = v

  -- Whatever comes of a registration, the registry stays valid.
  pub register-IsValid :
      (given : Option Text) (root : FilePath) (reg : ProjectRegistry) (s : State)
      → IsValid reg
      → IsValid (register h given root (reg, s)).1.0
  unfolding register
  register-IsValid given root reg s v =
      register_checked-IsValid reg s (checked h given root reg s) v
        (checked-IsChecked given root reg s)

  unregister_found-IsValid :
      (id : Text) (reg : ProjectRegistry) (s : State) (o : Option Project)
      → IsValid reg
      → IsValid (unregister_found h id reg s o).1.0
  unfolding unregister_found removed
  unregister_found-IsValid id reg s none v = v
  unregister_found-IsValid id reg s (some p) v = AllEntries-remove IsEntry id reg.projects v

  unregister-IsValid :
      (id : Text) (reg : ProjectRegistry) (s : State)
      → IsValid reg
      → IsValid (unregister h id (reg, s)).1.0
  unfolding unregister
  unregister-IsValid id reg s v = unregister_found-IsValid id reg s (lookup id reg.projects) v

  register_dirs-IsValid :
      (dirs : List FilePath) (reg : ProjectRegistry) (s : State)
      → IsValid reg
      → IsValid (register_dirs h dirs (reg, s)).1.0
  unfolding register_dirs
  register_dirs-IsValid [] reg s v = v
  register_dirs-IsValid (dir ∷ dirs) reg s v =
      let skipped = register_dirs-IsValid dirs reg s v in
      let st = (register h none dir (reg, s)).1 in
      let rest = register_dirs-IsValid dirs st.0 st.1 (register-IsValid none dir reg s v) in
      elim (Bool-cases (is_registered_root h dir reg s)) [
        | inl known ↦ rw known skipped
        | inr unknown ↦ rw unknown rest
      ]

  auto_register-IsValid :
      (roots : List FilePath) (reg : ProjectRegistry) (s : State)
      → IsValid reg
      → IsValid (auto_register h roots (reg, s)).1.0
  unfolding auto_register
  auto_register-IsValid [] reg s v = v
  auto_register-IsValid (root ∷ roots) reg s v =
      let dirs = dirs_in h s (h.read_dir s root) in
      let st = (register_dirs h dirs (reg, s)).1 in
      auto_register-IsValid roots st.0 st.1 (register_dirs-IsValid dirs reg s v)

  -- Registration, removal and the scan of workspaces keep the registry valid, whether they succeed
  -- or fail: every project stands under its own id, which is a valid slug, and has a language.
  pub operations-IsValid :
      (reg : ProjectRegistry) (s : State)
      → IsValid reg
      → ((given : Option Text) (root : FilePath) → IsValid (register h given root (reg, s)).1.0)
        × ((id : Text) → IsValid (unregister h id (reg, s)).1.0)
        × ((roots : List FilePath) → IsValid (auto_register h roots (reg, s)).1.0)
  operations-IsValid reg s v = (
    λ given root. register-IsValid given root reg s v,
    λ id. unregister-IsValid id reg s v,
    λ roots. auto_register-IsValid roots reg s v,
  )
