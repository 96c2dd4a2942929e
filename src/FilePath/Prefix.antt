-- ===== src/FilePath/Prefix.antt =====
-- Prefixes of paths: `strip_prefix` undoes `++`, and `join` stays below its base.
use henka.Common.{◌≡◌, refl, false, [], ◌∷◌, ◌++◌, some, arith, beq_refl, list_eq, nat_eq}
use henka.FilePath.{
  FilePath, component_eq, component_beq_iff, is_absolute, strip_prefix, join, behind,
}

pub strip_prefix_sound :
    (p base : FilePath) {r : FilePath} → strip_prefix p base ≡ some r → p ≡ base ++ r
unfolding strip_prefix
strip_prefix_sound p [] h = ground arith
strip_prefix_sound [] (b ∷ base) h = ground arith
strip_prefix_sound (c ∷ p) (b ∷ base) {r} h =
    ground (arith, strip_prefix_sound p base {r = r}, component_beq_iff c b)

pub strip_prefix-append : (base r : FilePath) → strip_prefix (base ++ r) base ≡ some r
unfolding strip_prefix
strip_prefix-append [] r = refl
strip_prefix-append (b ∷ base) r = rw (beq_refl b) (strip_prefix-append base r)

-- A relative path joined to a base lies under the base.
pub strip_prefix-join :
    (base p : FilePath)
    → is_absolute p ≡ false
    → strip_prefix (join base p) base ≡ some (behind base p)
unfolding join
strip_prefix-join base p h = rw h (strip_prefix-append base (behind base p))
