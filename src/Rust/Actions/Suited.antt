-- ===== src/Rust/Actions/Suited.antt =====
-- When a code action suits an operation, said without the tests of the code.
use henka.Common.{
  ℕ, ◌≡◌, refl, ap, ◌∙◌, Bool, true, ◌&&◌, ◌||◌, [], ◌∷◌, ◌++◌, Option, none, some, arith, ◌==◌,
  nat_eq, list_eq, option_eq, eq_of_beq, beq_refl, Bool-cases, inl, inr,
}
use henka.Text.{Text, codes}
use henka.Text.Search.{starts_with, strip_prefix}
use henka.Json.{Json, string, member}
use henka.Rust.Actions.{CodeActionOp, contains_text, fits, str_of, title_has, keyword_fits}

-- `p` stands somewhere in `t`.
pub record Within (p t : Text) : Type 0 where
  pub before : Text
  pub after : Text
  pub whole : t ≡ before ++ (p ++ after)

-- The action has a title, in which the keyword stands once it is in lower case.
pub record IsTitled (to_lowercase : Text → Text) (keyword : Text) (action : Json) : Type 0 where
  pub title : Text
  pub given : member (codes "title") action ≡ some (string title)
  pub within : Within keyword (to_lowercase title)

-- A keyword is asked for by some operations alone.
abbrev pub SuitsKeyword : (Text → Text) → Option Text → Json → Type 0
SuitsKeyword to_lowercase none action = Unit {0}
SuitsKeyword to_lowercase (some keyword) action = IsTitled to_lowercase keyword action

-- The action has the operation's kind, and its keyword in the title.
pub record Suits (to_lowercase : Text → Text) (op : CodeActionOp) (action : Json) : Type 0 where
  pub kind : member (codes "kind") action ≡ some (string op.action_kind)
  pub keyword : SuitsKeyword to_lowercase op.title_keyword action

record Front (p t : Text) : Type 0 where
  after : Text
  whole : t ≡ p ++ after

starts_with-Front : (t p : Text) → starts_with t p ≡ true → Front p t
unfolding strip_prefix
starts_with-Front t [] h = record { after = t; whole = refl }
starts_with-Front [] (d ∷ p) h = ground (arith, h)
starts_with-Front (c ∷ t) (d ∷ p) h = elim (Bool-cases (c == d)) [
  | inl e ↦
      let f = starts_with-Front t p (rw e at h) in
      record {
        after = f.after;
        whole = ap (λ x. x ∷ t) (eq_of_beq c d e) ∙ ap (λ u. d ∷ u) f.whole;
      }
  | inr e ↦ let wrong = rw e at h in ground (arith, wrong)
]

starts_with-append : (p after : Text) → starts_with (p ++ after) p ≡ true
unfolding strip_prefix
starts_with-append [] after = ground arith
starts_with-append (d ∷ p) after = rw (beq_refl d) (starts_with-append p after)

contains_text-Within : (t p : Text) → contains_text t p ≡ true → Within p t
unfolding contains_text
contains_text-Within [] p h =
    let f = starts_with-Front [] p h in record { before = []; after = f.after; whole = f.whole }
contains_text-Within (c ∷ t) p h = elim (Bool-cases (starts_with (c ∷ t) p)) [
  | inl e ↦
      let f = starts_with-Front (c ∷ t) p e in
      record { before = []; after = f.after; whole = f.whole }
  | inr e ↦
      let w = contains_text-Within t p (rw e at h) in
      record { before = c ∷ w.before; after = w.after; whole = ap (λ u. c ∷ u) w.whole }
]

or_true : (a b : Bool) → b ≡ true → (a || b) ≡ true
or_true a b h = ground (arith, h)

contains_text-start : (t p : Text) → starts_with t p ≡ true → contains_text t p ≡ true
unfolding contains_text
contains_text-start [] p h = h
contains_text-start (c ∷ t) p h = rw h refl

contains_text-cons :
    (c : ℕ) (t p : Text) → contains_text t p ≡ true → contains_text (c ∷ t) p ≡ true
unfolding contains_text
contains_text-cons c t p h = or_true (starts_with (c ∷ t) p) (contains_text t p) h

contains_text-append : (before p after : Text) → contains_text (before ++ (p ++ after)) p ≡ true
contains_text-append [] p after = contains_text-start (p ++ after) p (starts_with-append p after)
contains_text-append (c ∷ before) p after =
    contains_text-cons c (before ++ (p ++ after)) p (contains_text-append before p after)

-- A member that is a text.
given_text : (o : Option Json) (t : Text) → (str_of o == some t) ≡ true → o ≡ some (string t)
given_text none t h = ground (arith, h)
given_text (some (string u)) t h = ap (λ x. some (string x)) (eq_of_beq u t h)
given_text (some v) t h = ground (arith, h)

titled :
    (to_lowercase : Text → Text) (keyword : Text) (action : Json) (o : Option Json)
    → member (codes "title") action ≡ o
    → title_has to_lowercase keyword (str_of o) ≡ true
    → IsTitled to_lowercase keyword action
titled to_lowercase keyword action none e h = ground (arith, h)
titled to_lowercase keyword action (some (string t)) e h = record {
  title = t;
  given = e;
  within = contains_text-Within (to_lowercase t) keyword h;
}
titled to_lowercase keyword action (some v) e h = ground (arith, h)

keyword_fits-SuitsKeyword :
    (to_lowercase : Text → Text) (keyword : Option Text) (action : Json)
    → keyword_fits to_lowercase keyword action ≡ true
    → SuitsKeyword to_lowercase keyword action
keyword_fits-SuitsKeyword to_lowercase none action h = tt
keyword_fits-SuitsKeyword to_lowercase (some keyword) action h =
    titled to_lowercase keyword action (member (codes "title") action) refl h

SuitsKeyword-keyword_fits :
    (to_lowercase : Text → Text) (keyword : Option Text) (action : Json)
    → SuitsKeyword to_lowercase keyword action
    → keyword_fits to_lowercase keyword action ≡ true
SuitsKeyword-keyword_fits to_lowercase none action s = refl
SuitsKeyword-keyword_fits to_lowercase (some keyword) action s =
    ap (λ o. title_has to_lowercase keyword (str_of o)) s.given
    ∙ ap (λ t. contains_text t keyword) s.within.whole
    ∙ contains_text-append s.within.before keyword s.within.after

both : (a b : Bool) → (a && b) ≡ true → (a ≡ true) × (b ≡ true)
both a b h = (ground (arith, h), ground (arith, h))

and_true : (a b : Bool) → a ≡ true → b ≡ true → (a && b) ≡ true
and_true a b h k = ground (arith, h, k)

pub fits-Suits :
    (to_lowercase : Text → Text) (op : CodeActionOp) (action : Json)
    → fits to_lowercase op action ≡ true
    → Suits to_lowercase op action
unfolding fits
fits-Suits to_lowercase op action h =
    let parts =
      both (str_of (member (codes "kind") action) == some op.action_kind)
        (keyword_fits to_lowercase op.title_keyword action) h in
    record {
      kind = given_text (member (codes "kind") action) op.action_kind parts.0;
      keyword = keyword_fits-SuitsKeyword to_lowercase op.title_keyword action parts.1;
    }

pub Suits-fits :
    (to_lowercase : Text → Text) (op : CodeActionOp) (action : Json)
    → Suits to_lowercase op action
    → fits to_lowercase op action ≡ true
unfolding fits
Suits-fits to_lowercase op action s =
    and_true (str_of (member (codes "kind") action) == some op.action_kind)
      (keyword_fits to_lowercase op.title_keyword action)
      (ap (λ o. str_of o == some op.action_kind) s.kind ∙ beq_refl op.action_kind)
      (SuitsKeyword-keyword_fits to_lowercase op.title_keyword action s.keyword)
