-- ===== src/Language/Detect/Exact.antt =====
-- What detection finds: a language is reported exactly if a marker of it is among the entries
-- within the budget, whatever the order of the walk and wherever the loop stops.
use henka.Common.{
  ℕ, zero, suc, ◌+◌, ◌≡◌, ◌<◌, refl, sym, ◌∙◌, Bool, true, false, ◌&&◌, ◌||◌, any, take, List, [],
  ◌∷◌, arith, ltb, ◌==◌, if◌then◌else◌, Bool-cases, inl, inr,
}
use henka.Text.{Text}
use henka.Language.{Language, java, rust, typescript, javascript, language_eq}
use henka.Language.Detect.{
  Entry, keep_entry, is_java_marker, is_rust_marker, is_typescript_marker, is_javascript_marker,
  Found, mark, all_found, scan, max_walk_entries, languages_of, nothing_found, detect_languages,
}

-- Whether a file name marks a language.
abbrev pub is_marker : Language → Text → Bool
is_marker java = is_java_marker
is_marker rust = is_rust_marker
is_marker typescript = is_typescript_marker
is_marker javascript = is_javascript_marker

abbrev pub marks : Language → Entry → Bool
marks l entry = entry.is_file && is_marker l entry.name

-- The flags after all of `entries`.
abbrev joined : Found → List Entry → Found
joined f entries = record {
  java = f.java || any (marks java) entries;
  rust = f.rust || any (marks rust) entries;
  ts = f.ts || any (marks typescript) entries;
  js = f.js || any (marks javascript) entries;
}

joined-nil : (f : Found) → joined f [] ≡ f
joined-nil f = ground arith

joined-cons : (f : Found) (e : Entry) (es : List Entry) → joined f (e ∷ es) ≡ joined (mark f e) es
unfolding mark
joined-cons f e es = ground arith

joined_full : (f : Found) (es : List Entry) → all_found f ≡ true → joined f es ≡ f
joined_full f es h = ground arith

scan-cons :
    (walked : ℕ) (f : Found) (e : Entry) (es : List Entry)
    → walked < max_walk_entries
    → scan walked f (e ∷ es)
      ≡ (if all_found (mark f e) then mark f e else scan (walked + 1) (mark f e) es)
unfolding scan
scan-cons walked f e es h =
    let within : ltb max_walk_entries (walked + 1) ≡ false = ground arith in rw within

scan_lem :
    (k walked : ℕ) (f : Found) (es : List Entry)
    → walked + k ≡ max_walk_entries
    → scan walked f es ≡ joined f (take k es)
scan_lem zero walked f [] h = unfold scan in sym (joined-nil f)
scan_lem (suc k) walked f [] h = unfold scan in sym (joined-nil f)
scan_lem zero walked f (e ∷ es) h =
    let over : ltb max_walk_entries (walked + 1) ≡ true = ground arith in
    unfold scan in rw over (sym (joined-nil f))
scan_lem (suc k) walked f (e ∷ es) h =
    let ih = scan_lem k (walked + 1) (mark f e) es (omega arith) in
    rw (scan-cons walked f e es (omega arith), joined-cons f e (take k es))
      (elim (Bool-cases (all_found (mark f e))) [
        | inl full ↦ rw full (sym (joined_full (mark f e) (take k es) full))
        | inr more ↦ rw more ih
      ])

abbrev flag : Found → Language → Bool
flag f java = f.java
flag f rust = f.rust
flag f typescript = f.ts
flag f javascript = f.js

flag-joined : (es : List Entry) (l : Language) → flag (joined nothing_found es) l ≡ any (marks l) es
flag-joined es java = refl
flag-joined es _ = refl

any_languages : (f : Found) (l : Language) → any (λ k. k == l) (languages_of f) ≡ flag f l
any_languages f java = ground arith
any_languages f _ = ground arith

-- A language is detected exactly if one of the first 50 000 entries that the walk yields under the
-- filter is a file whose name marks that language.
pub detect_languages_exact :
    (walk : (Entry → Bool) → List Entry) (l : Language)
    → any (λ k. k == l) (detect_languages walk)
      ≡ any (marks l) (take max_walk_entries (walk keep_entry))
unfolding detect_languages
detect_languages_exact walk l =
    rw (scan_lem max_walk_entries 0 nothing_found (walk keep_entry) (omega arith)) (
      any_languages (joined nothing_found (take max_walk_entries (walk keep_entry))) l
      ∙ flag-joined (take max_walk_entries (walk keep_entry)) l)
