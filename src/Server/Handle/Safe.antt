-- ===== src/Server/Handle/Safe.antt =====
-- What a request can do to the file system, through all of `dispatch_operation`.
use henka.Common.{
  ℕ, ◌≡◌, refl, Bool, any, List, [], ◌∷◌, ◌++◌, Option, option_eq, list_eq, nat_eq, Bool-cases,
  Option-cases, inl, inr,
}
use henka.Common.BTreeMap.{lookup}
use henka.Text.{Text}
use henka.FilePath.{FilePath, component_eq}
use henka.Error.{Error}
use henka.Fs.{FileSystem}
use henka.Language.{Language, language_eq}
use henka.Json.{Json, Fields}
use henka.Edit.{WorkspaceEdit}
use henka.Edit.Plan.{Display}
use henka.Edit.Apply.Confined.{Survives}
use henka.Operation.{OperationRegistry, resolve}
use henka.Provider.{ProviderRegistry}
use henka.Registry.Store.{ProjectRegistry}
use henka.Vcs.{Tools}
use henka.Server.PathMap.{PathMap}
use henka.Server.Ops.{dry_run}
use henka.Server.Mcp.{Reply, answer, refuse, abort, map_err}
use henka.Server.Workspace.{Texts}
use henka.Server.Finish.Safe.{finish_edit-Survives}
use henka.Server.Run.{Backends, OperationOutcome, edit_outcome, query_outcome}
use henka.Server.Run.Kept.{Keeps, run_operation-keeps}
use henka.Server.Handle.{
  Answered, session_api, finish_in, after_run, Request, with_operation, serve, prepared, dispatched,
  dispatch_operation,
}

module _ (fs : FileSystem) (tools : Tools fs.State) (b : Backends fs.State) (d : Display)
    (texts : Texts) (message : Error → Text) (revision : fs.State → FilePath → Option Text)
    (is_alphanumeric : ℕ → Bool) (catalog : OperationRegistry b.Operation)
    (providers : ProviderRegistry b.Provider) where
  abbrev Store : Type 0
  Store = fs.State × b.World

  module _ (P : fs.State → Type 0) (keeps : Keeps tools b P) where
    -- A step leaves files that have `P`.
    abbrev Leaves : {A : Type 0} → A × Store → Type 0
    Leaves (r, (s, w)) = P s

    -- Finishing an edit of the request keeps `P`.
    abbrev Finishes : Fields → FilePath → Type 0
    Finishes args ws =
        (s : fs.State) (session : b.Session) (w : b.World) (edit : WorkspaceEdit)
        → P s
        → Leaves
            (finish_in fs tools b d texts message revision is_alphanumeric args ws s session w edit)

    abbrev Continues : (Json → Store → Reply Answered × Store) → Type 0
    Continues more = (v : Json) (s : fs.State) (w : b.World) → P s → Leaves (more v (s, w))

    after_run-keeps :
        (args : Fields) (ws : FilePath)
        → Finishes args ws
        → (more : Json → Store → Reply Answered × Store) → Continues more
        → (r : Reply (b.Session × OperationOutcome) × Store) → Leaves r
        → Leaves (after_run fs tools b d texts message revision is_alphanumeric args ws more r)
    unfolding after_run
    after_run-keeps args ws fin more k (answer (session, query_outcome v), (s, w)) h = k v s w h
    after_run-keeps args ws fin more k (answer (session, edit_outcome e), (s, w)) h =
        fin s session w e h
    after_run-keeps args ws fin more k (refuse e, st) h = h
    after_run-keeps args ws fin more k (abort, st) h = h

    with_operation-keeps :
        (q : Request fs tools b d texts message revision is_alphanumeric catalog providers)
        (p : b.Provider)
        → Finishes q.args q.workspace
        → (more : Json → Store → Reply Answered × Store) → Continues more
        → (s : fs.State) (w : b.World) (r : Reply b.Operation) → P s
        → Leaves (
            with_operation fs tools b d texts message revision is_alphanumeric catalog providers q p
              more
              (s, w)
              r)
    unfolding with_operation
    with_operation-keeps q p fin more k s w (answer op) h =
        after_run-keeps q.args q.workspace fin more k _ (
          run_operation-keeps fs tools b message P keeps op p q.project q.target q.params
            q.workspace s w h)
    with_operation-keeps q p fin more k s w (refuse e) h = h
    with_operation-keeps q p fin more k s w abort h = h

    serve-keeps :
        (q : Request fs tools b d texts message revision is_alphanumeric catalog providers)
        → Finishes q.args q.workspace
        → (ls : List Language) (asked : List b.Provider) (queries : List Json) (s : fs.State)
          (w : b.World)
        → P s
        → Leaves (
            serve fs tools b d texts message revision is_alphanumeric catalog providers q ls asked
              queries
              (s, w))
    unfolding serve
    serve-keeps q fin [] asked queries s w h = h
    serve-keeps q fin (l ∷ ls) asked queries s w h = elim (Option-cases (lookup l providers)) [
      | inl gone ↦ rw (gone, serve) h
      | inr (p, found) ↦
          let skipped = serve-keeps q fin ls asked queries s w h in
          let asked_now =
            with_operation-keeps q p fin
              (λ v st.
                serve fs tools b d texts message revision is_alphanumeric catalog providers q ls
                  (p ∷ asked) (queries ++ (v ∷ [])) st)
              (λ v s' w' h'. serve-keeps q fin ls (p ∷ asked) (queries ++ (v ∷ [])) s' w' h') s w
              (map_err message (resolve b.Operation q.name l catalog)) h in
          rw (found, serve)
            (elim (Bool-cases (any (λ (a : b.Provider). b.provider_eq.beq a p) asked)) [
              | inl known ↦ rw known skipped
              | inr fresh ↦ rw fresh asked_now
            ])
    ]

    dispatched-keeps :
        (r : Reply (
          Request fs tools b d texts message revision is_alphanumeric catalog providers
          × List Language))
        (s : fs.State) (w : b.World)
        → ((q : Request fs tools b d texts message revision is_alphanumeric catalog providers)
              (languages : List Language)
            → r ≡ answer (q, languages)
            → Finishes q.args q.workspace)
        → P s
        → Leaves (
            dispatched fs tools b d texts message revision is_alphanumeric catalog providers r
              (s, w))
    unfolding dispatched
    dispatched-keeps (answer (q, languages)) s w fin h =
        serve-keeps q (fin q languages refl) languages [] [] s w h
    dispatched-keeps (refuse e) s w fin h = h
    dispatched-keeps abort s w fin h = h

  -- What survives every file operation under the working copy that a request resolves to, and what
  -- the tools and the language backends write on their own account, survives the request, whatever
  -- edits the backends answer with and whether it succeeds or not. If the request is refused before
  -- it resolves to a working copy, then nothing is asked of the file operations.
  pub dispatch_operation-Survives :
      (m : PathMap) (registry : ProjectRegistry) (name : Text) (args : Fields) (s : fs.State)
      (w : b.World) (I : fs.State → Type 0)
      → Keeps tools b I
      → ((q : Request fs tools b d texts message revision is_alphanumeric catalog providers)
            (languages : List Language)
          → prepared fs tools b d texts message revision is_alphanumeric catalog providers m
              registry name args s
            ≡ answer (q, languages)
          → Survives fs q.workspace I)
      → I s
      → I
          (dispatch_operation fs tools b d texts message revision is_alphanumeric catalog providers
            m registry name args
            (s, w)).1.0
  unfolding dispatch_operation finish_in
  dispatch_operation-Survives m registry name args s w I keeps safe i =
      dispatched-keeps I keeps
        (prepared fs tools b d texts message revision is_alphanumeric catalog providers m registry
          name args s)
        s w
        (λ q languages e s' session w' edit h.
          finish_edit-Survives fs (session_api fs tools b d texts message revision is_alphanumeric)
            d message revision edit (dry_run q.args) q.workspace s' (session, w') I
            (safe q languages e) h)
        i
