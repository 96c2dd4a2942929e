-- ===== src/Common/BTreeMap.antt =====
-- Rust's `BTreeMap`: its entries in the order of their keys.
use mathlib.Core.Path.{◌≡◌, refl}
use mathlib.Core.Bool.{Bool}
use mathlib.Core.List.{List, [], ◌∷◌}
use mathlib.Core.Option.{Option, none, some}
use native.Mathlib.Omega.{arith}
use henka.Common.Tests.{if◌then◌else◌}
use henka.Common.Equality.{Eq, ◌==◌}

-- The key's `Ord`: which of two keys stands first.
pub record Ord {ℓ} (K : Type ℓ) : Type ℓ where
  pub lt : K → K → Bool

abbrev pub BTreeMap {ℓ κ} : Type ℓ → Type κ → Type (ℓ ⊔ κ)
BTreeMap K V = List (K × V)

module _ {ℓ κ} {K : Type ℓ} {V : Type κ} ⦃e : Eq K⦄ where
  unfoldable pub lookup : K → BTreeMap K V → Option V
  lookup k [] = none
  lookup k ((j, v) ∷ m) = if j == k then some v else lookup k m

  unfoldable pub remove : K → BTreeMap K V → BTreeMap K V
  remove k [] = []
  remove k ((j, v) ∷ m) = let rest = remove k m in if j == k then rest else (j, v) ∷ rest

  unfoldable pub insert : ⦃o : Ord K⦄ → K → V → BTreeMap K V → BTreeMap K V
  insert k v [] = (k, v) ∷ []
  insert ⦃o⦄ k v ((j, w) ∷ m) =
      let rest = insert k v m in
      if j == k then (k, v) ∷ m else (if o.lt k j then (k, v) ∷ (j, w) ∷ m else (j, w) ∷ rest)

  pub lookup-remove :
      (k j : K) (m : BTreeMap K V) → lookup j (remove k m) ≡ (if k == j then none else lookup j m)
  unfolding lookup remove
  lookup-remove k j [] = ground arith
  lookup-remove k j ((i, v) ∷ m) =
      ground (arith, lookup-remove k j m, e.beq_iff i k, e.beq_iff i j, e.beq_iff k j)

  pub lookup-insert :
      ⦃o : Ord K⦄
      → (new k : K) (v : V) (m : BTreeMap K V)
      → lookup k (insert new v m) ≡ (if new == k then some v else lookup k m)
  unfolding lookup insert
  lookup-insert new k v [] = refl
  lookup-insert new k v ((i, w) ∷ m) =
      ground (arith, lookup-insert new k v m, e.beq_iff i new, e.beq_iff i k, e.beq_iff new k)

  -- What holds of every entry.
  abbrev pub AllEntries {μ} : (K → V → Type μ) → BTreeMap K V → Type μ
  AllEntries P [] = Unit
  AllEntries P ((k, v) ∷ m) = P k v × AllEntries P m

  pub AllEntries-remove {μ} :
      (P : K → V → Type μ) (k : K) (m : BTreeMap K V) → AllEntries P m → AllEntries P (remove k m)
  unfolding remove
  AllEntries-remove P k [] h = tt
  AllEntries-remove P k ((j, v) ∷ m) h = ground (arith, AllEntries-remove P k m h.1)

  pub AllEntries-insert {μ} :
      ⦃o : Ord K⦄
      → (P : K → V → Type μ) (k : K) (v : V) (m : BTreeMap K V) → P k v
      → AllEntries P m
      → AllEntries P (insert k v m)
  unfolding insert
  AllEntries-insert P k v [] p h = (p, tt)
  AllEntries-insert P k v ((j, w) ∷ m) p h = ground (arith, AllEntries-insert P k v m p h.1)

  pub AllEntries-lookup {μ} :
      (P : K → V → Type μ) (k : K) (v : V) (m : BTreeMap K V)
      → AllEntries P m
      → lookup k m ≡ some v
      → P k v
  unfolding lookup
  AllEntries-lookup P k v [] h q = ground arith
  AllEntries-lookup P k v ((j, w) ∷ m) h q =
      ground (arith, AllEntries-lookup P k v m h.1, e.beq_iff j k)
