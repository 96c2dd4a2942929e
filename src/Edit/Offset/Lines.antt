-- ===== src/Edit/Offset/Lines.antt =====
-- The line scan: `nth_line_start` stops behind the n-th newline and goes on from there.
use henka.Common.{
  ℕ, ◌+◌, ◌%◌, ◌≤◌, ◌<◌, ◌≡◌, refl, ap, ◌∙◌, true, false, [], ◌∷◌, ◌++◌, none, some, arith, ◌==◌,
  nat_eq, nat_beq_iff, if◌then◌else◌, Bool-cases, inl, inr,
}
use henka.Text.{Text, len_utf8, byte_len}
use henka.Edit.{u32_mod}
use henka.Edit.Offset.{newline, scan_lines, up_to_newline}

newline_len : len_utf8 newline ≡ 1
unfolding len_utf8
newline_len = refl

scan-nil : (i seen n : ℕ) → scan_lines [] i seen n ≡ none
unfolding scan_lines
scan-nil i seen n = refl

scan-other :
    (c : ℕ) (cs : Text) (i seen n : ℕ)
    → (c == newline) ≡ false
    → scan_lines (c ∷ cs) i seen n ≡ scan_lines cs (i + len_utf8 c) seen n
unfolding scan_lines
scan-other c cs i seen n h = rw h

scan-newline :
    (c : ℕ) (cs : Text) (i seen n : ℕ)
    → (c == newline) ≡ true
    → seen + 1 < u32_mod
    → scan_lines (c ∷ cs) i seen n
      ≡ (if (seen + 1) == n then some (i + 1) else scan_lines cs (i + 1) (seen + 1) n)
scan-newline c cs i seen n h small =
    let e : c ≡ newline = (nat_beq_iff c newline).0 h in
    let m : (seen + 1) % u32_mod ≡ seen + 1 = omega arith in
    unfold scan_lines in rw (e, m, newline_len)

scan_past :
    (c : ℕ) (cs : Text) (i seen n : ℕ)
    → (c == newline) ≡ true
    → seen + 1 < n
    → seen + 1 < u32_mod
    → scan_lines (c ∷ cs) i seen n ≡ scan_lines cs (i + 1) (seen + 1) n
scan_past c cs i seen n h lt small = scan-newline c cs i seen n h small ∙ ground arith

newline_byte_len : (c : ℕ) → (c == newline) ≡ true → len_utf8 c ≡ 1
newline_byte_len c h = rw ((nat_beq_iff c newline).0 h) newline_len

-- The scan at its stop `k`: what was read, what is left, and how a longer scan goes on.
pub record IsStop (cs : Text) (i seen n k : ℕ) : Type 0 where
  pub before : Text
  pub after : Text
  pub joined : cs ≡ before ++ after
  pub measured : i + byte_len before ≡ k
  pub goes_on : (n' : ℕ) → n < n' → scan_lines cs i seen n' ≡ scan_lines after k n n'

IsStop-later :
    (c : ℕ) (cs : Text) (i j seen seen' n k : ℕ)
    → i + len_utf8 c ≡ j
    → ((n' : ℕ) → n < n' → scan_lines (c ∷ cs) i seen n' ≡ scan_lines cs j seen' n')
    → IsStop cs j seen' n k
    → IsStop (c ∷ cs) i seen n k
IsStop-later c cs i j seen seen' n k e step s = record {
  before = c ∷ s.before;
  after = s.after;
  joined = ap (λ r. c ∷ r) s.joined;
  measured = omega (arith, s.measured);
  goes_on = λ n' lt. step n' lt ∙ s.goes_on n' lt;
}

pub scan_lines-IsStop :
    (cs : Text) (i seen n k : ℕ)
    → seen < n
    → n < u32_mod
    → scan_lines cs i seen n ≡ some k
    → IsStop cs i seen n k
scan_lines-IsStop [] i seen n k lt small h = cc (scan-nil i seen n)
scan_lines-IsStop (c ∷ cs) i seen n k lt small h = elim (Bool-cases (c == newline)) [
  | inr other ↦
      let ih =
        scan_lines-IsStop cs (i + len_utf8 c) seen n k lt small
          (rw (scan-other c cs i seen n other) at h) in
      IsStop-later c cs i (i + len_utf8 c) seen seen n k refl
        (λ n' _. scan-other c cs i seen n' other) ih
  | inl hit ↦
      let one : len_utf8 c ≡ 1 = newline_byte_len c hit in
      let past =
        λ (n' : ℕ) (lt' : n < n'). scan_past c cs i seen n' hit (omega arith) (omega arith) in
      let h' = scan-newline c cs i seen n hit (omega arith) in
      elim (Bool-cases ((seen + 1) == n)) [
        | inl stop ↦
            let e : i + 1 ≡ k = ground arith in
            let e' : seen + 1 ≡ n = ground arith in
            record {
              before = c ∷ [];
              after = cs;
              joined = refl;
              measured = omega arith;
              goes_on = λ n' lt'. rw (← e) (rw e' at (past n' lt'));
            }
        | inr more ↦
            IsStop-later c cs i (i + 1) seen (seen + 1) n k (ap (λ x. i + x) one) past
              (scan_lines-IsStop cs (i + 1) (seen + 1) n k (ground arith) small (ground arith))
      ]
]

-- A line and its newline end before the scan can stop.
pub line-le-stop :
    (cs : Text) (i seen n k : ℕ)
    → seen < n
    → n < u32_mod
    → scan_lines cs i seen n ≡ some k
    → i + byte_len (up_to_newline cs) + 1 ≤ k
unfolding up_to_newline
line-le-stop [] i seen n k lt small h = cc (scan-nil i seen n)
line-le-stop (c ∷ cs) i seen n k lt small h = elim (Bool-cases (c == newline)) [
  | inr other ↦
      let ih =
        line-le-stop cs (i + len_utf8 c) seen n k lt small
          (rw (scan-other c cs i seen n other) at h) in
      rw other (omega arith)
  | inl hit ↦
      let h' = scan-newline c cs i seen n hit (omega arith) in
      elim (Bool-cases ((seen + 1) == n)) [
        | inl stop ↦ rw hit (ground arith)
        | inr more ↦
            let ih = line-le-stop cs (i + 1) (seen + 1) n k (ground arith) small (ground arith) in
            rw hit (omega (arith))
      ]
]
