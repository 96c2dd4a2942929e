-- ===== src/Server/PathMap/Longest.antt =====
-- A path is translated by the longest of the prefixes that it has.
use henka.Common.{
  All, ℕ, ◌≤◌, ◌≡◌, ◌⊎◌, inl, inr, refl, true, false, [], ◌∷◌, Option, none, some, arith, length,
  In, Bool-cases, Option-cases, list_eq, nat_eq,
}
use henka.FilePath.{FilePath, component_eq, strip_prefix, join}
use henka.Server.PathMap.{
  PathMap, beats, longest, mapped_or, mapped, map_path, exchanged, reverse_path,
}

-- No entry's prefix is one of the path's.
abbrev Unmatched : PathMap → FilePath → Type 0
Unmatched m path = (e : FilePath × FilePath) → In e m → strip_prefix path e.0 ≡ none

-- `result` is what the entry makes of the path.
pub record IsMatch (m : PathMap) (path : FilePath) (depth : ℕ) (result : FilePath) : Type 0 where
  pub entry : FilePath × FilePath
  pub rest : FilePath
  pub listed : In entry m
  pub stripped : strip_prefix path entry.0 ≡ some rest
  pub depth_of : depth ≡ length entry.0
  pub result_of : result ≡ join entry.1 rest

-- No matching prefix is longer than `depth`.
abbrev Bounds : PathMap → FilePath → ℕ → Type 0
Bounds m path depth =
    (e : FilePath × FilePath) (r : FilePath)
    → In e m
    → strip_prefix path e.0 ≡ some r
    → length e.0 ≤ depth

abbrev Within : Option (ℕ × FilePath) → ℕ → Type 0
Within none d = Unit
Within (some (d', p)) d = d' ≤ d

-- What the loop makes of the best so far.
abbrev IsBest : PathMap → FilePath → Option (ℕ × FilePath) → Option (ℕ × FilePath) → Type 0
IsBest m path best none = (best ≡ none) × Unmatched m path
IsBest m path best (some (d, p)) =
    ((best ≡ some (d, p)) ⊎ IsMatch m path d p) × (Within best d × Bounds m path d)

later :
    (e : FilePath × FilePath) (m : PathMap) (path : FilePath) (d : ℕ) (p : FilePath)
    → IsMatch m path d p
    → IsMatch (e ∷ m) path d p
later e m path d p i = record {
  entry = i.entry;
  rest = i.rest;
  listed = inr i.listed;
  stripped = i.stripped;
  depth_of = i.depth_of;
  result_of = i.result_of;
}

Bounds-cons :
    (e : FilePath × FilePath) (m : PathMap) (path : FilePath) (d : ℕ)
    → ((r : FilePath) → strip_prefix path e.0 ≡ some r → length e.0 ≤ d)
    → Bounds m path d
    → Bounds (e ∷ m) path d
Bounds-cons e m path d here there f r (inl same) h = rw (← same) (here r (rw same h))
Bounds-cons e m path d here there f r (inr at) h = there f r at h

unmatched_step :
    (e : FilePath × FilePath) (m : PathMap) (path : FilePath) (best result : Option (ℕ × FilePath))
    → strip_prefix path e.0 ≡ none
    → IsBest m path best result
    → IsBest (e ∷ m) path best result
unmatched_step e m path best none h (b, u) =
    (b, λ f at. elim at [ inl same ↦ rw (← same) h | inr l ↦ u f l ])
unmatched_step e m path best (some (d, p)) h (c, (w, b)) = (
  elim c [ inl same ↦ inl same | inr i ↦ inr (later e m path d p i) ],
  (w, Bounds-cons e m path d (λ r k. cc) b),
)

Within-beats :
    (best : Option (ℕ × FilePath)) (n d : ℕ) → beats n best ≡ true → n ≤ d → Within best d
Within-beats none n d h k = tt
Within-beats (some (d', p)) n d h k = ground arith

beaten_step :
    (host container rest : FilePath) (m : PathMap) (path : FilePath)
    (best result : Option (ℕ × FilePath))
    → strip_prefix path host ≡ some rest
    → beats (length host) best ≡ true
    → IsBest m path (some (length host, join container rest)) result
    → IsBest ((host, container) ∷ m) path best result
beaten_step host container rest m path best none h k (b, u) = cc
beaten_step host container rest m path best (some (d, p)) h k (c, (w, b)) = (
  inr (elim c [
    | inl same ↦ record {
      entry = (host, container);
      rest = rest;
      listed = inl refl;
      stripped = h;
      depth_of = cc;
      result_of = cc;
    }
    | inr i ↦ later (host, container) m path d p i
  ]),
  (Within-beats best (length host) d k w, Bounds-cons (host, container) m path d (λ r e. w) b),
)

kept_step :
    (host container rest : FilePath) (m : PathMap) (path : FilePath)
    (best result : Option (ℕ × FilePath))
    → strip_prefix path host ≡ some rest
    → beats (length host) best ≡ false
    → IsBest m path best result
    → IsBest ((host, container) ∷ m) path best result
kept_step host container rest m path none result h k i = cc
kept_step host container rest m path (some (d', q)) none h k (b, u) = cc
kept_step host container rest m path (some (d', q)) (some (d, p)) h k (c, (w, b)) = (
  elim c [ inl same ↦ inl same | inr i ↦ inr (later (host, container) m path d p i) ],
  (w, Bounds-cons (host, container) m path d (λ r e. ground arith) b),
)

longest-IsBest :
    (m : PathMap) (path : FilePath) (best : Option (ℕ × FilePath))
    → IsBest m path best (longest m path best)
unfolding longest
longest-IsBest [] path none = (refl, λ e at. elim at [ ])
longest-IsBest [] path (some (d, p)) = (inl refl, (omega arith, λ e r at. elim at [ ]))
longest-IsBest ((host, container) ∷ m) path best = elim (Option-cases (strip_prefix path host)) [
  | inl off ↦
      rw off (unmatched_step (host, container) m path best _ off (longest-IsBest m path best))
  | inr (rest, cut) ↦ rw cut (elim (Bool-cases (beats (length host) best)) [
    | inl wins ↦ rw wins (
        beaten_step host container rest m path best _ cut wins
          (longest-IsBest m path (some (length host, join container rest))))
    | inr loses ↦
        rw loses
          (kept_step host container rest m path best _ cut loses (longest-IsBest m path best))
  ])
]

-- `path` itself if there is no translation.
abbrev pub given : FilePath → Option FilePath → FilePath
given path none = path
given path (some t) = t

-- What a translation is: if no entry's prefix is one of the path's, there is none; otherwise an
-- entry's prefix is replaced by its other side, and no matching prefix is longer.
abbrev pub IsTranslation : PathMap → FilePath → Option FilePath → Type 0
IsTranslation m path none = All (λ e. strip_prefix path e.0 ≡ none) m
IsTranslation m path (some result) =
    (d : ℕ) × IsMatch m path d result
    × All (λ (e : FilePath × FilePath). (strip_prefix path e.0 ≡ none) ⊎ (length e.0 ≤ d)) m

Unmatched-All :
    (m : PathMap) (path : FilePath) → Unmatched m path → All (λ e. strip_prefix path e.0 ≡ none) m
Unmatched-All [] path u = tt
Unmatched-All (e ∷ m) path u = (u e (inl refl), Unmatched-All m path (λ f at. u f (inr at)))

Bounds-All :
    (m : PathMap) (path : FilePath) (d : ℕ)
    → Bounds m path d
    → All (λ (e : FilePath × FilePath). (strip_prefix path e.0 ≡ none) ⊎ (length e.0 ≤ d)) m
Bounds-All [] path d b = tt
Bounds-All (e ∷ m) path d b = (
  elim (Option-cases (strip_prefix path e.0)) [
    | inl off ↦ inl off
    | inr (r, cut) ↦ inr (b e r (inl refl) cut)
  ],
  Bounds-All m path d (λ f r at cut. b f r (inr at) cut),
)

translated :
    (m : PathMap) (path : FilePath) (r : Option (ℕ × FilePath))
    → IsBest m path none r
    → IsTranslation m path (mapped r)
translated m path none (b, u) = Unmatched-All m path u
translated m path (some (d, p)) (c, (w, b)) =
    (d, elim c [ inl seen ↦ cc | inr i ↦ i ], Bounds-All m path d b)

or_else : (path : FilePath) (r : Option (ℕ × FilePath)) → mapped_or path r ≡ given path (mapped r)
or_else path none = refl
or_else path (some (d, p)) = refl

-- `reverse` translates by the longest container prefix, or not at all if none matches; `map` does
-- the same by the longest host prefix, and returns the path itself if none matches.
pub translation_lem :
    (m : PathMap) (path : FilePath)
    → IsTranslation (exchanged m) path (reverse_path m path)
      × ((t : Option FilePath) × IsTranslation m path t × (map_path m path ≡ given path t))
unfolding reverse_path map_path
translation_lem m path = (
  translated (exchanged m) path _ (longest-IsBest (exchanged m) path none),
  (
    mapped (longest m path none),
    translated m path _ (longest-IsBest m path none),
    or_else path (longest m path none),
  ),
)
