-- ===== src/Pwstr/Strength.antt =====
-- pwstr.c, `pw_strength` and `pw_strength_error`.
use vpopmail.Common.{
  ℕ, ◌+◌, ◌-◌, ◌≡◌, refl, ◌∙◌, Bool, true, not, ◌||◌, List, [], ◌∷◌, ◌++◌, Option, none, some,
  Bytes, if◌then◌else◌, leb, within, length, All, arith, ◌⊎◌,
}
use vpopmail.Common.Int.{ℤ, pos, negsuc}
use vpopmail.Pwstr.{
  Double, Comparison, no_test, test_less, test_less_equal, test_equal, test_greater,
  test_greater_equal, Subject, alpha, alphadelta, numeric, other, length_of, Rule, State, File,
  rule_is_true, Counts, count_char, count_chars, counts,
}
use vpopmail.Pwstr.Rules.{load_rules}

-- How many characters pass a test.
abbrev pub count_where : (ℕ → Bool) → Bytes → ℕ
count_where test [] = 0
count_where test (c ∷ cs) = (if test c then 1 else 0) + count_where test cs

-- None of the characters between 0 and 9, A and Z, or `[` and z.
abbrev pub is_other : ℕ → Bool
is_other c = not (within b'0' b'9' c || within b'A' b'Z' c || within b'[' b'z' c)

abbrev pub added : Counts → Bytes → Counts
added n p = record {
  n_lower = n.n_lower + count_where (within b'[' b'z') p;
  n_upper = n.n_upper + count_where (within b'A' b'Z') p;
  n_numeric = n.n_numeric + count_where (within b'0' b'9') p;
  n_other = n.n_other + count_where is_other p;
  n_alpha = n.n_alpha + count_where (within b'[' b'z') p + count_where (within b'A' b'Z') p;
}

same_counts :
    (m n : Counts)
    → m.n_lower ≡ n.n_lower
    → m.n_upper ≡ n.n_upper
    → m.n_numeric ≡ n.n_numeric
    → m.n_other ≡ n.n_other
    → m.n_alpha ≡ n.n_alpha
    → m ≡ n
same_counts m n a b c d e i = record {
  n_lower = a i;
  n_upper = b i;
  n_numeric = c i;
  n_other = d i;
  n_alpha = e i;
}

count_char-added : (c : ℕ) (cs : Bytes) (n : Counts) → added (count_char c n) cs ≡ added n (c ∷ cs)
count_char-added c cs n =
    same_counts (added (count_char c n) cs) (added n (c ∷ cs)) (ground arith) (ground arith)
      (ground arith) (ground arith) (ground arith)

count_chars-added : (p : Bytes) (n : Counts) → count_chars p n ≡ added n p
unfolding count_chars
count_chars-added [] n =
    same_counts n (added n []) (omega arith) (omega arith) (omega arith) (omega arith) (omega arith)
count_chars-added (c ∷ cs) n = count_chars-added cs (count_char c n) ∙ count_char-added c cs n

count_where_total :
    (p : Bytes)
    → count_where (within b'[' b'z') p
        + count_where (within b'A' b'Z') p
        + count_where (within b'0' b'9') p
        + count_where is_other p
      ≡ length p
count_where_total [] = refl
count_where_total (c ∷ cs) = ground (arith, count_where_total cs)

-- `pw_strength` counts the letters, digits and other characters of a password, each character once,
-- with the six characters between `Z` and `a` among the lower case.
pub counts_lem :
    (p : Bytes)
    → ((counts p).n_upper ≡ count_where (within b'A' b'Z') p)
      × ((counts p).n_lower ≡ count_where (within b'[' b'z') p)
      × ((counts p).n_numeric ≡ count_where (within b'0' b'9') p)
      × ((counts p).n_alpha ≡ (counts p).n_upper + (counts p).n_lower)
      × ((counts p).n_alpha + (counts p).n_numeric + (counts p).n_other ≡ length p)
unfolding counts
counts_lem p =
    let e =
      count_chars-added p
        (record { n_lower = 0; n_upper = 0; n_numeric = 0; n_other = 0; n_alpha = 0 }) in
    rw e (omega arith, omega arith, omega arith, omega arith, omega (arith, count_where_total p))

-- The code of the failure of a rule.
abbrev pub failure : Subject → ℤ
failure length_of = negsuc 69
failure alpha = negsuc 70
failure numeric = negsuc 71
failure other = negsuc 72
failure alphadelta = negsuc 73

-- The order of the tests.
abbrev pub subjects : List Subject
subjects = length_of ∷ alpha ∷ numeric ∷ other ∷ alphadelta ∷ []

abbrev distance : ℕ → ℕ → ℕ
distance a b = if leb a b then b - a else a - b

module _ (D : Double) where
  -- What the rules are asked of.
  abbrev pub measured : Bytes → Subject → D.Carrier
  measured p length_of = D.of_nat (length p)
  measured p alpha = D.quotient (counts p).n_alpha (length p)
  measured p numeric = D.quotient (counts p).n_numeric (length p)
  measured p other = D.quotient (counts p).n_other (length p)
  measured p alphadelta =
      D.quotient (distance (counts p).n_upper (counts p).n_lower) (counts p).n_alpha

  unfoldable pub check_rules : (Subject → D.Carrier) → List Subject → State D → ℤ × State D
  unfolding rule_is_true
  check_rules v [] s = (pos 1, s)
  check_rules v (u ∷ us) s =
      let (answer, t) = rule_is_true D s u (v u) in
      let rest = check_rules v us t in if answer then rest else (failure u, t)

  abbrev pub loaded : File → State D → State D
  loaded file s =
      if s.rules_loaded then s else (load_rules D file (record s { rules_loaded = true })).1

  abbrev strength_of : Option Bytes → State D → ℤ × State D
  strength_of none s = (negsuc 68, s)
  strength_of (some p) s = check_rules (measured p) subjects s

  -- `pw_strength`
  unfoldable pub pw_strength : File → Option Bytes → State D → ℤ × State D
  unfolding check_rules load_rules
  pw_strength file password s = strength_of password (loaded file s)

  -- What a comparison asks of a value and the number of the rule.
  abbrev pub Meets : Comparison → D.Carrier → D.Carrier → Type 0
  Meets no_test v limit = Unit
  Meets test_less v limit = D.less v limit ≡ true
  Meets test_less_equal v limit = (D.less v limit ≡ true) ⊎ (D.same v limit ≡ true)
  Meets test_equal v limit = D.same v limit ≡ true
  Meets test_greater v limit = D.less limit v ≡ true
  Meets test_greater_equal v limit = (D.less limit v ≡ true) ⊎ (D.same v limit ≡ true)

  -- A subject, the code of its failure, and the value that its rule is asked of.
  abbrev pub Test : Type 0
  Test = Subject × ℤ × D.Carrier

  abbrev pub Passed : (Subject → Rule D) → Test → Type 0
  Passed rule t = Meets (rule t.0).test t.2 (rule t.0).value

  -- The tests of a password, in their order.
  abbrev pub tests : Bytes → List Test
  tests p =
      let upper = count_where (within b'A' b'Z') p in
      let lower = count_where (within b'[' b'z') p in
      (length_of, negsuc 69, D.of_nat (length p))
      ∷ (alpha, negsuc 70, D.quotient (upper + lower) (length p))
      ∷ (numeric, negsuc 71, D.quotient (count_where (within b'0' b'9') p) (length p))
      ∷ (other, negsuc 72, D.quotient (count_where is_other p) (length p))
      ∷ (alphadelta, negsuc 73, D.quotient ((upper - lower) + (lower - upper)) (upper + lower))
      ∷ []

  -- The first of the tests that fails gives the answer, and is kept for the message.
  pub record Fails (ts : List Test) (rule : Subject → Rule D) (r : ℤ × State D) : Type 0 where
    pub first : Test
    pub passed : List Test
    pub left : List Test
    pub order : ts ≡ passed ++ (first ∷ left)
    pub all_passed : All (Passed rule) passed
    pub failed : ¬ Passed rule first
    pub answer : r.0 ≡ first.1
    pub last : r.1.rule_last ≡ some first.0

  -- All of the tests are passed, and the answer is 1.
  abbrev pub Passes : List Test → (Subject → Rule D) → ℤ × State D → Type 0
  Passes ts rule r = (r.0 ≡ pos 1) × All (Passed rule) ts

  Outcome : List Test → (Subject → Rule D) → ℤ × State D → Type 0
  Outcome ts rule r = Passes ts rule r ⊎ Fails ts rule r

  tested : (Subject → D.Carrier) → Subject → Test
  tested v u = (u, failure u, v u)
