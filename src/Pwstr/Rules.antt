-- ===== src/Pwstr/Rules.antt =====
-- pwstr.c, `load_rules`: the file with the rules.
use vpopmail.Common.{
  ℕ, Bool, true, false, ◌||◌, List, [], ◌∷◌, map, Option, none, some, Bytes, codes, ◌==◌,
  if◌then◌else◌, take, equal,
}
use vpopmail.Common.Fgets.{pieces}
use vpopmail.Email.{to_lower}
use vpopmail.Pwstr.{
  Double, Comparison, no_test, test_less, test_less_equal, test_equal, test_greater,
  test_greater_equal, Subject, alpha, alphadelta, numeric, other, length_of, Rule, State, File,
  contents, absent, unreadable,
}

-- `!(strcasecmp(s, t))`
unfoldable pub same_word : Bytes → Bytes → Bool
unfolding equal
same_word s t = equal (map to_lower s) (map to_lower t)

-- The line in front of its comment or end.
unfoldable pub cut_comment : Bytes → Bytes
cut_comment [] = []
cut_comment (c ∷ cs) =
    let rest = cut_comment cs in
    if (c == 0) || (c == b'#') || (c == b'\r') || (c == b'\n') then [] else c ∷ rest

abbrev pub is_blank : ℕ → Bool
is_blank c = (c == b' ') || (c == b'\t')

unfoldable pub skip_blanks : Bytes → Bytes
skip_blanks [] = []
skip_blanks (c ∷ cs) = let rest = skip_blanks cs in if is_blank c then rest else c ∷ cs

-- The first word, and what comes behind the blanks that end it.
unfoldable pub separate : Bytes → Bytes × Bytes
unfolding skip_blanks
separate [] = ([], [])
separate (c ∷ cs) =
    let (word, rest) = separate cs in if is_blank c then ([], skip_blanks cs) else (c ∷ word, rest)

unfoldable pub find_subject : Bytes → Option Subject
unfolding same_word
find_subject b =
    if same_word b (codes "alphabet")
    then some alpha
    else if same_word b (codes "upperlower")
    then some alphadelta
    else if same_word b (codes "numeric")
    then some numeric
    else if same_word b (codes "other")
    then some other
    else if same_word b (codes "length")
    then some length_of
    else none

unfoldable pub find_test : Bytes → Option Comparison
unfolding same_word
find_test t =
    if same_word t (codes "<")
    then some test_less
    else if same_word t (codes "<=")
    then some test_less_equal
    else if same_word t (codes "=")
    then some test_equal
    else if same_word t (codes ">")
    then some test_greater
    else if same_word t (codes ">=")
    then some test_greater_equal
    else none

abbrev pub place : Subject → ℕ
place alpha = 0
place alphadelta = 1
place numeric = 2
place other = 3
place length_of = 4

module _ (D : Double) where
  unfoldable pub set_rule : Subject → Rule D → State D → State D
  set_rule u r s = record s { rule = λ v. if place u == place v then r else s.rule v }

  -- A rule; `none` is the return of 0.
  unfoldable pub apply_rule : Bytes → Bytes → Bytes → State D → Option (State D)
  unfolding find_subject find_test separate set_rule
  apply_rule b t v s = elim (find_subject b) [
    | none ↦ none
    | some u ↦ elim (find_test t) [
      | none ↦ none
      | some test ↦ some (set_rule u (record { test = test; value = D.strtod (separate v).0 }) s)
    ]
  ]

  -- The line `b` behind its first word, and behind its second.
  unfoldable pub apply_value : Bytes → Bytes → Bytes → State D → Option (State D)
  unfolding apply_rule same_word
  apply_value b t [] s = some s
  apply_value b t (c ∷ v) s =
      if same_word b (codes "policy")
      then some (record s { rule_desc = take 511 (c ∷ v) })
      else apply_rule b t (c ∷ v) s

  unfoldable pub apply_words : Bytes → Bytes → State D → Option (State D)
  unfolding apply_value separate
  apply_words b [] s = some s
  apply_words b (c ∷ t) s = apply_value b (separate (c ∷ t)).0 (separate (c ∷ t)).1 s

  -- One round of the loop: a line that is empty or lacks a part is passed over.
  unfoldable pub apply_line : Bytes → State D → Option (State D)
  unfolding apply_words separate
  apply_line [] s = some s
  apply_line (c ∷ cs) s = apply_words (separate (c ∷ cs)).0 (separate (c ∷ cs)).1 s

  unfoldable pub apply_lines : List Bytes → State D → Bool × State D
  unfolding apply_line cut_comment
  apply_lines [] s = (true, s)
  apply_lines (l ∷ ls) s = elim (apply_line (cut_comment l) s) [
    | none ↦ (false, s)
    | some t ↦ apply_lines ls t
  ]

  unfoldable pub reset : State D → State D
  reset s = record s {
    rule_desc = [];
    rule_last = none;
    rule = λ u. record { test = no_test; value = D.of_nat 0 };
  }

  -- `load_rules`
  unfoldable pub load_rules : File → State D → Bool × State D
  unfolding apply_lines pieces reset
  load_rules (contents text) s = apply_lines (pieces 1024 1023 [] text) (reset s)
  load_rules absent s = (true, reset s)
  load_rules unreadable s = (false, reset s)
