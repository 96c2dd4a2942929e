-- ===== src/Server/PathMap.antt =====
-- crates/henka-server/src/pathmap.rs: the prefixes that translate a caller's paths.
pub mod Longest
use henka.Common.{
  ℕ, Bool, true, false, not, ◌&&◌, ◌||◌, List, [], ◌∷◌, Option, none, some, map, ltb, length, ◌==◌,
  list_eq, nat_eq, if◌then◌else◌,
}
use henka.Text.{Text}
use henka.Text.Search.{split, split_once, trim}
use henka.FilePath.{FilePath, of_text, strip_prefix, join}

-- `PathMap`: the pairs of a host's prefix and the container's.
abbrev pub PathMap : Type 0
PathMap = List (FilePath × FilePath)

abbrev is_separator : ℕ → Bool
is_separator c = c == b',' || (c == b';' || c == b'\n')

-- The two sides of an entry, if neither is empty.
abbrev pub sides : Option (Text × Text) → PathMap → PathMap
sides none rest = rest
sides (some (host, container)) rest =
    if not (trim host == []) && not (trim container == [])
    then (of_text (trim host), of_text (trim container)) ∷ rest
    else rest

unfoldable pub entries_of : List Text → PathMap
entries_of [] = []
entries_of (entry ∷ entries) = sides (split_once b'=' (trim entry)) (entries_of entries)

-- `PathMap::parse`
unfoldable pub parse : Text → PathMap
unfolding entries_of
parse spec = entries_of (split is_separator spec)

-- `PathMap::container_prefixes`
pub container_prefixes : PathMap → List FilePath
container_prefixes m = map (λ e. e.1) m

-- Whether `depth` beats the best so far: only a longer prefix does.
abbrev pub beats : ℕ → Option (ℕ × FilePath) → Bool
beats depth none = true
beats depth (some (d, p)) = ltb d depth

abbrev pub better :
    FilePath × FilePath → Option FilePath → Option (ℕ × FilePath) → Option (ℕ × FilePath)
better (host, container) none best = best
better (host, container) (some rest) best =
    if beats (length host) best then some (length host, join container rest) else best

-- The loop of `map`, which `reverse` runs with the two sides exchanged.
unfoldable pub longest : PathMap → FilePath → Option (ℕ × FilePath) → Option (ℕ × FilePath)
longest [] path best = best
longest ((host, container) ∷ m) path best =
    longest m path (better (host, container) (strip_prefix path host) best)

abbrev pub mapped_or : FilePath → Option (ℕ × FilePath) → FilePath
mapped_or path none = path
mapped_or path (some (d, p)) = p

abbrev pub mapped : Option (ℕ × FilePath) → Option FilePath
mapped none = none
mapped (some (d, p)) = some p

-- `PathMap::map`
unfoldable pub map_path : PathMap → FilePath → FilePath
map_path m path = mapped_or path (longest m path none)

abbrev pub exchanged : PathMap → PathMap
exchanged m = map (λ e. (e.1, e.0)) m

-- `PathMap::reverse`
unfoldable pub reverse_path : PathMap → FilePath → Option FilePath
reverse_path m path = mapped (longest (exchanged m) path none)
