-- ===== src/Server/Dispatch/Served.antt =====
-- Every language that a request is dispatched to is a candidate, and only a query of the whole
-- project goes to several.
use henka.Common.{
  ◌≡◌, inl, inr, refl, Bool, true, false, ◌||◌, any, all, List, [], ◌∷◌, Option, none, some, arith,
  length, leb, Eq, ◌==◌, option_eq, Bool-cases, Option-cases, if◌then◌else◌,
}
use henka.Common.BTreeMap.{lookup}
use henka.Language.{Language, language_eq, language_beq_iff}
use henka.Operation.{OperationDescriptor, Target, LanguageRoute, unspecified, routed, unplaceable}
use henka.Provider.{ProviderRegistry}
use henka.Server.Mcp.{Reply, answer, refuse, abort}
use henka.Server.Dispatch.{
  is_project_query, first, is_served_by, find_sharing, sharing, serving_candidate, place, placed,
  dispatch_languages, named,
}

abbrev pub are_candidates : List Language → List Language → Bool
are_candidates candidates languages = all (λ l. any (λ c. c == l) candidates) languages

more_candidates :
    (k : Language) (candidates languages : List Language)
    → are_candidates candidates languages ≡ true
    → are_candidates (k ∷ candidates) languages ≡ true
more_candidates k candidates [] h = refl
more_candidates k candidates (l ∷ languages) h =
    ground (arith, more_candidates k candidates languages)

all_themselves : (candidates : List Language) → are_candidates candidates candidates ≡ true
all_themselves [] = refl
all_themselves (k ∷ candidates) = ground (
  arith,
  more_candidates k candidates candidates,
  all_themselves candidates,
  language_beq_iff k k,
)

all_fit : (candidates : List Language) → all (λ (l : Language). true) candidates ≡ true
all_fit [] = refl
all_fit (k ∷ candidates) = all_fit candidates

module _ (Provider : Type 0) ⦃e : Eq Provider⦄ (providers : ProviderRegistry Provider) where
  -- The named language itself, or one that has the same provider.
  abbrev pub fits_name : Option Language → Language → Bool
  fits_name none c = true
  fits_name (some l) c = c == l || (lookup c providers == lookup l providers)

  -- What a dispatch answers with; it may refuse, and never panics.
  abbrev pub IsServed :
      List Language → OperationDescriptor → Option Language → Reply (List Language) → Type 0
  IsServed candidates d name (answer languages) =
      (are_candidates candidates languages ≡ true)
      × ((is_project_query d || leb (length languages) 1) ≡ true)
      × (all (fits_name name) languages ≡ true)
  IsServed candidates d name (refuse x) = Unit
  IsServed candidates d name abort = true ≡ false

  find_sharing_lem :
      (serving : Provider) (candidates : List Language) (c : Language)
      → find_sharing Provider serving providers candidates ≡ some c
      → (any (λ k. k == c) candidates ≡ true)
        × (is_served_by Provider serving (lookup c providers) ≡ true)
  find_sharing_lem serving [] c h = cc
  find_sharing_lem serving (k ∷ candidates) c h =
      elim (Bool-cases (is_served_by Provider serving (lookup k providers))) [
        | inl shared ↦
            let same : k ≡ c = cc (rw shared at h) in
            (ground (arith, language_beq_iff k c), rw (← same) shared)
        | inr other ↦
            let (i, f) = find_sharing_lem serving candidates c (rw other at h) in
            (ground (arith, i), f)
      ]

  sharing_lem :
      (candidates : List Language) (l c : Language) (o : Option Provider)
      → lookup l providers ≡ o
      → sharing Provider candidates providers o ≡ some c
      → (any (λ k. k == c) candidates ≡ true) × (fits_name (some l) c ≡ true)
  sharing_lem candidates l c none q h = cc
  sharing_lem candidates l c (some serving) q h =
      let (i, f) = find_sharing_lem serving candidates c h in
      (
        i,
        rw q (elim (Option-cases (lookup c providers)) [
          | inl gone ↦ cc (rw gone at f)
          | inr (p, there) ↦ rw there (ground (arith, (rw there at f)))
        ]),
      )

  serving_candidate_lem :
      (candidates : List Language) (l c : Language)
      → serving_candidate Provider candidates providers l ≡ some c
      → (any (λ k. k == c) candidates ≡ true) × (fits_name (some l) c ≡ true)
  unfolding serving_candidate
  serving_candidate_lem candidates l c h = elim (Bool-cases (any (λ k. k == l) candidates)) [
    | inl there ↦
        let same : l ≡ c = cc (rw there at h) in
        (rw (← same) there, ground (arith, language_beq_iff c l))
    | inr gone ↦ sharing_lem candidates l c (lookup l providers) refl (rw gone at h)
  ]

  place-IsServed :
      (candidates : List Language) (d : OperationDescriptor) (l : Language) (o : Option Language)
      → serving_candidate Provider candidates providers l ≡ o
      → IsServed candidates d (some l) (place Provider d l o)
  place-IsServed candidates d l none h = tt
  place-IsServed candidates d l (some c) h =
      let (i, f) = serving_candidate_lem candidates l c h in
      (ground (arith, i), ground arith, ground (arith, f))

  first-IsServed :
      (candidates : List Language) (d : OperationDescriptor)
      → IsServed candidates d none (answer (first candidates))
  first-IsServed [] d = (refl, ground arith, refl)
  first-IsServed (k ∷ candidates) d = (ground (arith, language_beq_iff k k), ground arith, refl)

  listed-IsServed :
      (candidates : List Language) (d : OperationDescriptor)
      → IsServed candidates d none
          (if is_project_query d then answer candidates else answer (first candidates))
  listed-IsServed candidates d = elim (Bool-cases (is_project_query d)) [
    | inl wide ↦ rw (wide, wide) (all_themselves candidates, refl, all_fit candidates)
    | inr narrow ↦ rw narrow (first-IsServed candidates d)
  ]

  placed-IsServed :
      (candidates : List Language) (d : OperationDescriptor) (route : LanguageRoute)
      (name : Option Language)
      → IsServed candidates d name (placed Provider candidates providers d route name)
  placed-IsServed candidates d (unplaceable t) none = tt
  placed-IsServed candidates d unspecified none = listed-IsServed candidates d
  placed-IsServed candidates d (routed l) none = listed-IsServed candidates d
  placed-IsServed candidates d route (some l) = place-IsServed candidates d l _ refl

  -- A request is dispatched to candidates only, to one at most unless it is a query of the whole
  -- project, and if its file or its parameters name a language, then to that language or to one
  -- with the same provider.
  pub dispatch_languages-IsServed :
      (candidates : List Language) (d : OperationDescriptor) (target : Target)
      (route : LanguageRoute)
      → IsServed candidates d
          (named target route)
          (dispatch_languages Provider candidates providers d target route)
  unfolding dispatch_languages
  dispatch_languages-IsServed candidates d target route =
      placed-IsServed candidates d route (named target route)
