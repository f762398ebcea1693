-- ===== src/Pwstr/Tests.antt =====
-- A file with two rules, and passwords that are tested by them. The shares are in thousandths.
use vpopmail.Common.{
  ◌≡◌, true, false, [], ◌∷◌, none, codes, List, ℕ, ◌*◌, ◌/◌, ◌==◌, ltb, if◌then◌else◌, arith, All,
  ◌+◌,
}
use vpopmail.Common.Decimal.{read_digits}
use vpopmail.Pwstr.{
  Double, State, no_test, test_greater_equal, test_greater, length_of, numeric, contents, counts,
}
use vpopmail.Pwstr.Rules.{load_rules}
use vpopmail.Pwstr.Words.{Entry, IsEntry, print_entries}
use vpopmail.Pwstr.Written.{last_rule, void, load_rules-print_entries}
use vpopmail.Pwstr.Strength.{counts_lem}

abbrev thousandths : Double
thousandths = record {
  Carrier = ℕ;
  strtod = λ t. 1000 * read_digits 0 t;
  of_nat = λ n. 1000 * n;
  quotient = λ a b. if b == 0 then 0 else 1000 * a / b;
  less = ltb;
  same = ◌==◌;
}

abbrev fresh : State thousandths
fresh = record {
  rule_desc = [];
  rules_loaded = false;
  rule_last = none;
  rule = λ u. record { test = no_test; value = 0 };
}

abbrev two_entries : List Entry
two_entries =
    record { subject = length_of; test = test_greater_equal; number = codes "6" }
    ∷ record { subject = numeric; test = test_greater; number = codes "0" }
    ∷ []

two_entries-IsEntry : All IsEntry two_entries
two_entries-IsEntry = (
  record {
    tested = ground arith;
    some_number = omega arith;
    short = omega arith;
    word = ground arith;
  },
  (
    record {
      tested = ground arith;
      some_number = omega arith;
      short = omega arith;
      word = ground arith;
    },
    tt,
  ),
)

load_rules-print_entries_example :
    load_rules thousandths (contents (print_entries two_entries)) fresh ≡ (
      true,
      record fresh {
        rule_desc = [];
        rule_last = none;
        rule = λ u. last_rule thousandths u two_entries (void thousandths);
      },
    )
load_rules-print_entries_example =
    load_rules-print_entries thousandths two_entries fresh two_entries-IsEntry

counts_lem_example :
    ((counts (codes "aZ_7")).n_upper ≡ 1)
    × ((counts (codes "aZ_7")).n_lower ≡ 2)
    × ((counts (codes "aZ_7")).n_numeric ≡ 1)
    × ((counts (codes "aZ_7")).n_alpha
        ≡ (counts (codes "aZ_7")).n_upper + (counts (codes "aZ_7")).n_lower)
    × ((counts (codes "aZ_7")).n_alpha
          + (counts (codes "aZ_7")).n_numeric
          + (counts (codes "aZ_7")).n_other
        ≡ 4)
counts_lem_example = counts_lem (codes "aZ_7")
