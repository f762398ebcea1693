-- ===== src/Pwstr.antt =====
-- pwstr.c: the strength of a password, by rules that a file sets. The static variables are `State`.
-- The arithmetic of `double` is a parameter, `Double`.
pub mod Rules
pub mod Words
pub mod Written
pub mod Strength
mod Tests
use vpopmail.Common.{
  ℕ, zero, suc, ◌+◌, ◌-◌, Bool, true, false, not, ◌&&◌, ◌||◌, List, [], ◌∷◌, ◌++◌, map, Option,
  none, some, Bytes, codes, ◌==◌, leb, within, if◌then◌else◌, take, length, equal,
}
use vpopmail.Common.Int.{ℤ, pos, negsuc}
use vpopmail.Common.Fgets.{pieces}
use vpopmail.Email.{to_lower}

-- `strtod`, the conversion and the quotient of two counts, and the comparisons.
pub record Double : Type 1 where
  pub Carrier : Type 0
  pub strtod : Bytes → Carrier
  pub of_nat : ℕ → Carrier
  pub quotient : ℕ → ℕ → Carrier
  pub less : Carrier → Carrier → Bool
  pub same : Carrier → Carrier → Bool

pub data Comparison : Type 0 where
  no_test : Comparison
  test_less : Comparison
  test_less_equal : Comparison
  test_equal : Comparison
  test_greater : Comparison
  test_greater_equal : Comparison

pub data Subject : Type 0 where
  alpha : Subject
  alphadelta : Subject
  numeric : Subject
  other : Subject
  length_of : Subject

module _ (D : Double) where
  pub record Rule : Type 0 where
    pub test : Comparison
    pub value : D.Carrier

  pub record State : Type 0 where
    pub rule_desc : Bytes
    pub rules_loaded : Bool
    pub rule_last : Option Subject
    pub rule : Subject → Rule

  -- `rule_is_true`: its answer, which it also keeps in `rule_ret`.
  unfoldable pub holds : Rule → D.Carrier → Bool
  holds r v = elim r.test [
    | no_test ↦ true
    | test_less ↦ D.less v r.value
    | test_less_equal ↦ D.less v r.value || D.same v r.value
    | test_equal ↦ D.same v r.value
    | test_greater ↦ D.less r.value v
    | test_greater_equal ↦ D.less r.value v || D.same v r.value
  ]

  unfoldable pub rule_is_true : State → Subject → D.Carrier → Bool × State
  unfolding holds
  rule_is_true s u v = (holds (s.rule u) v, record s { rule_last = some u })

  -- `pw_strength_policy`
  unfoldable pub pw_strength_policy : State → Option Bytes
  pw_strength_policy s = elim s.rule_desc [ [] ↦ none | c ∷ cs ↦ some (c ∷ cs) ]

-- What `fopen` finds: a file, none, or one that it cannot open.
pub data File : Type 0 where
  contents : Bytes → File
  absent : File
  unreadable : File

-- Characters counted by kind. The second range begins at the last letter of the first, which the
-- branch before has taken, so that the six characters behind it count as lower case.
pub record Counts : Type 0 where
  pub n_lower : ℕ
  pub n_upper : ℕ
  pub n_numeric : ℕ
  pub n_other : ℕ
  pub n_alpha : ℕ

abbrev pub count_char : ℕ → Counts → Counts
count_char c n =
    if within 65 90 c
    then record n { n_upper = suc n.n_upper; n_alpha = suc n.n_alpha }
    else if within 90 122 c
    then record n { n_lower = suc n.n_lower; n_alpha = suc n.n_alpha }
    else if within b'0' b'9' c
    then record n { n_numeric = suc n.n_numeric }
    else record n { n_other = suc n.n_other }

unfoldable pub count_chars : Bytes → Counts → Counts
count_chars [] n = n
count_chars (c ∷ cs) n = count_chars cs (count_char c n)

unfoldable pub counts : Bytes → Counts
unfolding count_chars
counts p =
    count_chars p (record { n_lower = 0; n_upper = 0; n_numeric = 0; n_other = 0; n_alpha = 0 })
