-- ===== src/Pwstr/Words.antt =====
-- pwstr.c, `load_rules`: the words of a line that holds a rule.
use vpopmail.Common.{
  ℕ, ◌<◌, ◌≤◌, length-append, ◌≡◌, ◌≢◌, refl, ap, ◌∙◌, Bool, true, false, List, [], ◌∷◌, ◌++◌, some,
  Bytes, codes, length, equal, All, All-append, arith, ◌==◌,
}
use vpopmail.Common.Fgets.{IsText}
use vpopmail.Pwstr.{
  Comparison, no_test, test_less, test_less_equal, test_equal, test_greater, test_greater_equal,
  Subject, alpha, alphadelta, numeric, other, length_of,
}
use vpopmail.Pwstr.Rules.{
  same_word, cut_comment, skip_blanks, separate, find_subject, find_test, place,
}

abbrev pub subject_name : Subject → Bytes
subject_name alpha = codes "Alphabet"
subject_name alphadelta = codes "UpperLower"
subject_name numeric = codes "Numeric"
subject_name other = codes "Other"
subject_name length_of = codes "Length"

abbrev pub sign : Comparison → Bytes
sign no_test = []
sign test_less = codes "<"
sign test_less_equal = codes "<="
sign test_equal = codes "="
sign test_greater = codes ">"
sign test_greater_equal = codes ">="

abbrev pub same_subject : Subject → Subject → Bool
same_subject alpha alpha = true
same_subject alphadelta alphadelta = true
same_subject numeric numeric = true
same_subject other other = true
same_subject length_of length_of = true
same_subject _ _ = false

pub same_subject-place : (u v : Subject) → (place u == place v) ≡ same_subject u v
same_subject-place alpha alpha = refl
same_subject-place alpha alphadelta = refl
same_subject-place alpha numeric = refl
same_subject-place alpha other = refl
same_subject-place alpha length_of = refl
same_subject-place alphadelta alpha = refl
same_subject-place alphadelta alphadelta = refl
same_subject-place alphadelta numeric = refl
same_subject-place alphadelta other = refl
same_subject-place alphadelta length_of = refl
same_subject-place numeric alpha = refl
same_subject-place numeric alphadelta = refl
same_subject-place numeric numeric = refl
same_subject-place numeric other = refl
same_subject-place numeric length_of = refl
same_subject-place other alpha = refl
same_subject-place other alphadelta = refl
same_subject-place other numeric = refl
same_subject-place other other = refl
same_subject-place other length_of = refl
same_subject-place length_of alpha = refl
same_subject-place length_of alphadelta = refl
same_subject-place length_of numeric = refl
same_subject-place length_of other = refl
same_subject-place length_of length_of = refl

pub record Entry : Type 0 where
  pub subject : Subject
  pub test : Comparison
  pub number : Bytes

-- A character of a word.
abbrev pub IsWordChar : ℕ → Type 0
IsWordChar c = (c ≢ 0) × (c ≢ b'#') × (c ≢ b'\r') × (c ≢ b'\n') × (c ≢ b' ') × (c ≢ b'\t')

pub record IsEntry (e : Entry) : Type 0 where
  pub tested : e.test ≢ no_test
  pub some_number : 0 < length e.number
  pub short : length e.number < 1000
  pub word : All IsWordChar e.number

abbrev pub line : Entry → Bytes
line e = subject_name e.subject ++ (b' ' ∷ (sign e.test ++ (b' ' ∷ e.number)))

unfoldable pub print_entries : List Entry → Bytes
print_entries [] = []
print_entries (e ∷ es) = line e ++ (b'\n' ∷ print_entries es)

pub skip_blanks-word : (w : Bytes) → All IsWordChar w → skip_blanks w ≡ w
unfolding skip_blanks
skip_blanks-word [] h = refl
skip_blanks-word (c ∷ cs) (h, hs) = ground arith

pub separate-word :
    (w rest : Bytes) → All IsWordChar w → separate (w ++ (b' ' ∷ rest)) ≡ (w, skip_blanks rest)
unfolding separate
separate-word [] rest h = refl
separate-word (c ∷ cs) rest (h, hs) = ground (arith, separate-word cs rest hs)

pub separate_last : (w : Bytes) → All IsWordChar w → separate w ≡ (w, [])
unfolding separate
separate_last [] h = refl
separate_last (c ∷ cs) (h, hs) = ground (arith, separate_last cs hs)

-- A character that does not end a line.
abbrev pub IsLineChar : ℕ → Type 0
IsLineChar c = (c ≢ 0) × (c ≢ b'#') × (c ≢ b'\r') × (c ≢ b'\n')

pub cut_comment-line : (l : Bytes) → All IsLineChar l → cut_comment (l ++ (b'\n' ∷ [])) ≡ l
unfolding cut_comment
cut_comment-line [] h = refl
cut_comment-line (c ∷ cs) (h, hs) = ground (arith, cut_comment-line cs hs)

pub subject_name-All : (u : Subject) → All IsWordChar (subject_name u)
subject_name-All alpha = ground arith
subject_name-All alphadelta = ground arith
subject_name-All numeric = ground arith
subject_name-All other = ground arith
subject_name-All length_of = ground arith

pub sign-All : (t : Comparison) → All IsWordChar (sign t)
sign-All no_test = tt
sign-All test_less = ground arith
sign-All test_less_equal = ground arith
sign-All test_equal = ground arith
sign-All test_greater = ground arith
sign-All test_greater_equal = ground arith

pub find_subject-subject_name : (u : Subject) → find_subject (subject_name u) ≡ some u
unfolding find_subject same_word equal
find_subject-subject_name alpha = refl
find_subject-subject_name alphadelta = refl
find_subject-subject_name numeric = refl
find_subject-subject_name other = refl
find_subject-subject_name length_of = refl

pub find_test-sign : (t : Comparison) → t ≢ no_test → find_test (sign t) ≡ some t
unfolding find_test same_word equal
find_test-sign no_test h = absurd (h refl)
find_test-sign test_less h = refl
find_test-sign test_less_equal h = refl
find_test-sign test_equal h = refl
find_test-sign test_greater h = refl
find_test-sign test_greater_equal h = refl

pub not_policy : (u : Subject) → same_word (subject_name u) (codes "policy") ≡ false
unfolding same_word equal
not_policy alpha = refl
not_policy alphadelta = refl
not_policy numeric = refl
not_policy other = refl
not_policy length_of = refl

pub IsWordChar-IsLineChar : (l : Bytes) → All IsWordChar l → All IsLineChar l
IsWordChar-IsLineChar [] h = tt
IsWordChar-IsLineChar (c ∷ cs) ((a, b, d, e, f, g), hs) =
    ((a, b, d, e), IsWordChar-IsLineChar cs hs)

pub All-IsText : (l : Bytes) → All IsLineChar l → All IsText l
All-IsText [] h = tt
All-IsText (c ∷ cs) ((a, b, d, e), hs) = ((a, e), All-IsText cs hs)

pub line-All : (e : Entry) → IsEntry e → All IsLineChar (line e)
line-All e h =
    All-append IsLineChar (subject_name e.subject) _
      (IsWordChar-IsLineChar _ (subject_name-All e.subject))
      (
        ground arith,
        All-append IsLineChar (sign e.test) _ (IsWordChar-IsLineChar _ (sign-All e.test))
            (ground arith, IsWordChar-IsLineChar e.number h.word),
      )

pub short_line : (e : Entry) → IsEntry e → length (line e) < 1023
short_line e h = omega (
  arith,
  length-append (subject_name e.subject) (b' ' ∷ (sign e.test ++ (b' ' ∷ e.number))),
  length-append (sign e.test) (b' ' ∷ e.number),
  subject_le e.subject,
  sign_le e.test,
  h.short,
)
  where
    subject_le : (u : Subject) → length (subject_name u) ≤ 10
    subject_le alpha = omega arith
    subject_le alphadelta = omega arith
    subject_le numeric = omega arith
    subject_le other = omega arith
    subject_le length_of = omega arith

    sign_le : (t : Comparison) → length (sign t) ≤ 2
    sign_le no_test = omega arith
    sign_le test_less = omega arith
    sign_le test_less_equal = omega arith
    sign_le test_equal = omega arith
    sign_le test_greater = omega arith
    sign_le test_greater_equal = omega arith

pub skip_blanks-sign :
    (t : Comparison) (rest : Bytes) → t ≢ no_test → skip_blanks (sign t ++ rest) ≡ sign t ++ rest
unfolding skip_blanks
skip_blanks-sign no_test rest h = absurd (h refl)
skip_blanks-sign test_less rest h = refl
skip_blanks-sign test_less_equal rest h = refl
skip_blanks-sign test_equal rest h = refl
skip_blanks-sign test_greater rest h = refl
skip_blanks-sign test_greater_equal rest h = refl

-- The words of a line.
pub separate-line :
    (e : Entry)
    → IsEntry e
    → separate (line e) ≡ (subject_name e.subject, sign e.test ++ (b' ' ∷ e.number))
separate-line e h =
    separate-word (subject_name e.subject) _ (subject_name-All e.subject)
    ∙ ap (λ x. (subject_name e.subject, x)) (skip_blanks-sign e.test (b' ' ∷ e.number) h.tested)
