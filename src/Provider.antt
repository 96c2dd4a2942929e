-- ===== src/Provider.antt =====
-- `ProviderRegistry` of crates/henka-core/src/provider.rs. A provider is compared by identity, as
-- `Arc::ptr_eq` does.
use henka.Common.{any, List, [], ◌∷◌, ◌++◌, Option, Eq, ◌==◌, ltb, ℕ, if◌then◌else◌}
use henka.Common.BTreeMap.{Ord, BTreeMap, lookup, insert}
use henka.Language.{Language, java, rust, typescript, javascript, language_eq}

-- The order of `Language` that is derived from its declaration.
abbrev rank : Language → ℕ
rank java = 0
rank rust = 1
rank typescript = 2
rank javascript = 3

instance abbrev pub language_ord : Ord Language
language_ord = record { lt = λ a b. ltb (rank a) (rank b) }

module _ (Provider : Type 0) where
  abbrev pub ProviderRegistry : Type 0
  ProviderRegistry = BTreeMap Language Provider

  -- `ProviderRegistry::register`; `language` is the provider's own.
  unfoldable pub register :
      (language : Provider → Language) → Provider → ProviderRegistry → ProviderRegistry
  register language provider providers = insert (language provider) provider providers

  -- `ProviderRegistry::register_for`
  unfoldable pub register_for : List Language → Provider → ProviderRegistry → ProviderRegistry
  register_for [] provider providers = providers
  register_for (l ∷ ls) provider providers = register_for ls provider (insert l provider providers)

  -- `ProviderRegistry::get`
  abbrev pub get : Language → ProviderRegistry → Option Provider
  get language providers = lookup language providers

  module _ ⦃e : Eq Provider⦄ (Operation : Type 0) (operations_of : Provider → List Operation) where
    operations_unseen : ProviderRegistry → List Provider → List Operation
    operations_unseen [] seen = []
    operations_unseen ((l, p) ∷ providers) seen =
        let skipped = operations_unseen providers seen in
        let rest = operations_unseen providers (p ∷ seen) in
        if any (λ q. q == p) seen then skipped else operations_of p ++ rest

    -- `ProviderRegistry::operations`: a provider of several languages is asked once.
    unfoldable pub operations : ProviderRegistry → List Operation
    unfolding operations_unseen
    operations providers = operations_unseen providers []
