-- ===== src/Lsp/Convert/Source/Cache.antt =====
-- The cache of a `Source` changes nothing of what it quotes.
use henka.Common.{◌≡◌, refl, Option-cases, inl, inr, list_eq, nat_eq}
use henka.Common.BTreeMap.{lookup, AllEntries, AllEntries-lookup}
use henka.Text.{Text}
use henka.FilePath.{component_eq}
use henka.Fs.{FileSystem}
use henka.Lsp.Convert.Source.{Source, Cache, read_from, content_of, content}

module _ (fs : FileSystem) (st : fs.State) where
  -- Every entry is what reading its file gives.
  abbrev pub IsFresh : Cache → Type 0
  IsFresh cache = AllEntries (λ path text. text ≡ content_of fs st path) cache

  -- A URI's content is what its file holds, with whatever the cache has kept from earlier calls, and
  -- the call keeps the cache true.
  pub content-IsFresh :
      (s : Source) (uri : Text) (cache : Cache)
      → IsFresh cache
      → ((content fs st s uri cache).0 ≡ content_of fs st (read_from s uri))
        × IsFresh (content fs st s uri cache).1
  unfolding content
  content-IsFresh s uri cache h = elim (Option-cases (lookup (read_from s uri) cache)) [
    | inl e ↦ rw e (refl, (refl, h))
    | inr (known, e) ↦ rw e (
      AllEntries-lookup (λ path text. text ≡ content_of fs st path) (read_from s uri) known cache h
          e,
      h,
    )
  ]
