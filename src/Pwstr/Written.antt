-- ===== src/Pwstr/Written.antt =====
-- pwstr.c, `load_rules`: what it reads of a file in which every line is a rule.
use vpopmail.Common.{
  ◌≡◌, refl, ap, ◌∙◌, true, List, [], ◌∷◌, ◌++◌, none, some, if◌then◌else◌, Bytes, All, arith,
}
use mathlib.Core.Path.{subst}
use vpopmail.Common.Fgets.{pieces, pieces-line}
use vpopmail.Pwstr.{Double, Subject, Rule, State, contents, no_test}
use vpopmail.Pwstr.Rules.{
  separate, set_rule, apply_rule, apply_value, apply_words, apply_line, apply_lines, reset,
  load_rules,
}
use vpopmail.Pwstr.Words.{
  Entry, IsEntry, same_subject, same_subject-place, subject_name, sign, line, print_entries,
  skip_blanks-word, separate-word, separate_last, cut_comment-line, sign-All,
  find_subject-subject_name, find_test-sign, not_policy, All-IsText, line-All, short_line,
  separate-line,
}

module _ (D : Double) where
  abbrev pub rule_of : Entry → Rule D
  rule_of e = record { test = e.test; value = D.strtod e.number }

  -- The rule for a subject that the last of its lines gives, or the given one without such a line.
  abbrev pub last_rule : Subject → List Entry → Rule D → Rule D
  last_rule u [] r = r
  last_rule u (e ∷ es) r = last_rule u es (if same_subject e.subject u then rule_of e else r)

  abbrev pub void : Rule D
  void = record { test = no_test; value = D.of_nat 0 }

  abbrev set_entries : List Entry → State D → State D
  set_entries [] s = s
  set_entries (e ∷ es) s = set_entries es (set_rule D e.subject (rule_of e) s)

  apply_line-words :
      (l b t : Bytes) (s : State D) → separate l ≡ (b, t) → apply_line D l s ≡ apply_words D b t s
  unfolding apply_line separate apply_words
  apply_line-words [] b t s e = ap (λ p. apply_words D p.0 p.1 s) e
  apply_line-words (c ∷ cs) b t s e = ap (λ p. apply_words D p.0 p.1 s) e

  apply_words-value :
      (b t w v : Bytes) (s : State D)
      → separate t ≡ (w, v)
      → apply_words D b t s ≡ apply_value D b w v s
  unfolding apply_words separate apply_value
  apply_words-value b [] w v s e = ap (λ p. apply_value D b p.0 p.1 s) e
  apply_words-value b (c ∷ cs) w v s e = ap (λ p. apply_value D b p.0 p.1 s) e

  apply_value-entry :
      (e : Entry) (v : Bytes) (s : State D)
      → IsEntry e
      → e.number ≡ v
      → apply_value D (subject_name e.subject) (sign e.test) v s
        ≡ some (set_rule D e.subject (rule_of e) s)
  unfolding apply_value apply_rule
  apply_value-entry e [] s h n = absurd (ground (arith, h.some_number))
  apply_value-entry e (c ∷ cs) s h n =
      rw
        (
          not_policy e.subject,
          apply_rule,
          find_subject-subject_name e.subject,
          find_test-sign e.test h.tested,
        )
        (ap
          (λ (p : Bytes × Bytes).
            some (set_rule D e.subject (record { test = e.test; value = D.strtod p.0 }) s))
          (subst (λ x. separate x ≡ (e.number, [])) n (separate_last e.number h.word)))

  apply_line-line :
      (e : Entry) (s : State D)
      → IsEntry e
      → apply_line D (line e) s ≡ some (set_rule D e.subject (rule_of e) s)
  apply_line-line e s h =
      apply_line-words (line e) (subject_name e.subject) (sign e.test ++ (b' ' ∷ e.number)) s
        (separate-line e h)
      ∙ apply_words-value (subject_name e.subject) (sign e.test ++ (b' ' ∷ e.number)) (sign e.test)
          e.number s
          (separate-word (sign e.test) e.number (sign-All e.test)
            ∙ ap (λ x. (sign e.test, x)) (skip_blanks-word e.number h.word))
      ∙ apply_value-entry e e.number s h refl

  -- What the entries leave of a state.
  abbrev with_entries : List Entry → State D → State D
  with_entries es s = record s { rule = λ u. last_rule u es (s.rule u) }

  set_entries-with_entries : (es : List Entry) (s : State D) → set_entries es s ≡ with_entries es s
  unfolding set_rule
  set_entries-with_entries [] s = refl
  set_entries-with_entries (e ∷ es) s =
      set_entries-with_entries es (set_rule D e.subject (rule_of e) s) ∙ (λ i. record s {
        rule =
            λ u. last_rule u es (if same_subject-place e.subject u i then rule_of e else s.rule u);
      })

  lines_of : List Entry → List Bytes
  lines_of [] = []
  lines_of (e ∷ es) = (line e ++ (b'\n' ∷ [])) ∷ lines_of es

  pieces-entries :
      (es : List Entry) → All IsEntry es → pieces 1024 1023 [] (print_entries es) ≡ lines_of es
  unfolding pieces print_entries lines_of
  pieces-entries [] h = refl
  pieces-entries (e ∷ es) (h, hs) =
      pieces-line 1024 (line e) [] (print_entries es) 1023 (All-IsText (line e) (line-All e h))
        (short_line e h)
      ∙ ap (λ x. (line e ++ (b'\n' ∷ [])) ∷ x) (pieces-entries es hs)

  apply_lines-entries :
      (es : List Entry) (s : State D)
      → All IsEntry es
      → apply_lines D (lines_of es) s ≡ (true, set_entries es s)
  unfolding apply_lines lines_of
  apply_lines-entries [] s h = refl
  apply_lines-entries (e ∷ es) s (h, hs) =
      rw (apply_lines, cut_comment-line (line e) (line-All e h), apply_line-line e s h)
        (apply_lines-entries es (set_rule D e.subject (rule_of e) s) hs)

  -- A file in which every line is a rule is read without an error: the rule for each subject is then
  -- that of the last line for it, or one without a test where there is none; no text for users and no
  -- last rule is left, and whether the rules are loaded stays as it was.
  pub load_rules-print_entries :
      (es : List Entry) (s : State D)
      → All IsEntry es
      → load_rules D (contents (print_entries es)) s
        ≡ (true, record s { rule_desc = []; rule_last = none; rule = λ u. last_rule u es void })
  unfolding load_rules reset
  load_rules-print_entries es s h =
      ap (λ ls. apply_lines D ls (reset D s)) (pieces-entries es h)
      ∙ apply_lines-entries es (reset D s) h
      ∙ ap (λ t. (true, t)) (set_entries-with_entries es (reset D s))
