-- ===== src/Operation/Catalog.antt =====
-- What the catalog lists can be run: its listings agree with `resolve`.
use henka.Common.{
  ◌≡◌, inl, inr, refl, sym, ◌∙◌, Bool, true, false, ◌&&◌, ◌||◌, any, any-sort_by, List, [], ◌∷◌,
  arith, ◌==◌, list_eq, nat_eq, list_beq_iff, Bool-cases,
}
use henka.Text.{Text}
use henka.Error.{Result, ok, err, panic}
use henka.Language.{Language, language_eq, language_beq_iff}
use henka.Project.{Project}
use henka.Operation.{
  OperationDescriptor, applies_to, Registered, OperationRegistry, serves, resolve, languages_for,
  dedup_behind, dedup_by_id, applicable, id_le, descriptors_for,
}

abbrev pub succeeds {ℓ} : {A : Type ℓ} → Result A → Bool
succeeds (ok a) = true
succeeds (err e) = false
succeeds panic = false

abbrev pub has_id : Text → OperationDescriptor → Bool
has_id id d = d.id == id

any-or {ℓ} :
    {A : Type ℓ} (f g : A → Bool) (xs : List A) → any (λ x. f x || g x) xs ≡ (any f xs || any g xs)
any-or f g [] = refl
any-or f g (x ∷ xs) = ground (arith, any-or f g xs)

any-none {ℓ} : {A : Type ℓ} (xs : List A) → any (λ x. false) xs ≡ false
any-none [] = refl
any-none (x ∷ xs) = any-none xs

any-swap {ℓ κ} :
    {A : Type ℓ} {B : Type κ} (f : A → B → Bool) (xs : List A) (ys : List B)
    → any (λ x. any (f x) ys) xs ≡ any (λ y. any (λ x. f x y) xs) ys
any-swap f [] ys = sym (any-none ys)
any-swap f (x ∷ xs) ys =
    rw (any-or (f x) (λ y. any (λ x. f x y) xs) ys) (rw (any-swap f xs ys) refl)

module _ (Operation : Type 0) where
  succeeds-resolve :
      (id : Text) (l : Language) (registry : OperationRegistry Operation)
      → succeeds (resolve Operation id l registry) ≡ any (serves Operation id l) registry
  unfolding resolve
  succeeds-resolve id l [] = refl
  succeeds-resolve id l (r ∷ registry) = elim (Bool-cases (serves Operation id l r)) [
    | inl here ↦ rw here refl
    | inr other ↦ rw other (succeeds-resolve id l registry)
  ]

  -- A language is reported for an id exactly if it was asked for and the operation resolves for it.
  pub languages_for-resolve :
      (id : Text) (languages : List Language) (registry : OperationRegistry Operation)
      (l : Language)
      → any (λ k. k == l) (languages_for Operation id languages registry)
        ≡ (any (λ k. k == l) languages && succeeds (resolve Operation id l registry))
  unfolding languages_for
  languages_for-resolve id [] registry l = refl
  languages_for-resolve id (k ∷ languages) registry l =
      let ih = languages_for-resolve id languages registry l in
      let e = succeeds-resolve id l registry in
      elim (Bool-cases (k == l)) [
        | inl same ↦ let q : k ≡ l = (language_beq_iff k l).0 same in rw q (ground (arith, ih, e))
        | inr other ↦ ground (arith, ih, e)
      ]

  any-dedup_behind :
      (id : Text) (d : OperationDescriptor) (es : List OperationDescriptor)
      → (has_id id d || any (has_id id) (dedup_behind Operation d es))
        ≡ (has_id id d || any (has_id id) es)
  unfolding dedup_behind
  any-dedup_behind id d [] = refl
  any-dedup_behind id d (e ∷ es) =
      ground (arith, any-dedup_behind id d es, any-dedup_behind id e es, list_beq_iff e.id d.id)

  any-dedup_by_id :
      (id : Text) (ds : List OperationDescriptor)
      → any (has_id id) (dedup_by_id Operation ds) ≡ any (has_id id) ds
  unfolding dedup_by_id
  any-dedup_by_id id [] = refl
  any-dedup_by_id id (d ∷ ds) = any-dedup_behind id d ds

  any-serves :
      (id : Text) (r : Registered Operation) (languages : List Language)
      → any (λ l. serves Operation id l r) languages
        ≡ (has_id id r.descriptor && any (λ l. applies_to r.descriptor l) languages)
  any-serves id r [] = ground arith
  any-serves id r (l ∷ languages) = ground (arith, any-serves id r languages)

  any-applicable :
      (id : Text) (p : Project) (registry : OperationRegistry Operation)
      → any (has_id id) (applicable Operation p registry)
        ≡ any (λ r. any (λ l. serves Operation id l r) p.languages) registry
  any-applicable id p [] = refl
  any-applicable id p (r ∷ registry) =
      ground (arith, any-serves id r p.languages, any-applicable id p registry)

  any_resolves :
      (id : Text) (registry : OperationRegistry Operation) (languages : List Language)
      → any (λ l. any (serves Operation id l) registry) languages
        ≡ any (λ l. succeeds (resolve Operation id l registry)) languages
  any_resolves id registry [] = refl
  any_resolves id registry (l ∷ languages) =
      rw (succeeds-resolve id l registry) (rw (any_resolves id registry languages) refl)

  -- An id is listed for a project exactly if the operation resolves for a language of the project.
  pub descriptors_for-resolve :
      (id : Text) (p : Project) (registry : OperationRegistry Operation)
      → any (has_id id) (descriptors_for Operation p registry)
        ≡ any (λ l. succeeds (resolve Operation id l registry)) p.languages
  unfolding descriptors_for
  descriptors_for-resolve id p registry =
      any-dedup_by_id id _
      ∙ any-sort_by (has_id id) (id_le Operation) (applicable Operation p registry)
      ∙ any-applicable id p registry
      ∙ sym (any-swap (λ l r. serves Operation id l r) p.languages registry)
      ∙ any_resolves id registry p.languages
