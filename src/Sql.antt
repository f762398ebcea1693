-- ===== src/Sql.antt =====
-- vpopmail.c, `qnprintf`: the text of an SQL query from a format and values, which it escapes.
pub mod Render
pub mod Literal
mod Tests
use vpopmail.Common.{
  ℕ, suc, ◌^◌, ◌<◌, Bool, true, false, ◌||◌, List, [], ◌∷◌, ◌++◌, Option, none, some, Bytes, codes,
  take, ltb, zero, leb, ◌==◌, if◌then◌else◌,
}
use mathlib.Core.Option
use vpopmail.Common.Int.{ℤ}
use vpopmail.Common.Decimal.{print_int, print_nat}

-- What stands for one format: `int` and `long` are printed alike, as are their unsigned forms.
pub data Argument : Type 0 where
  int : ℤ → Argument
  unsigned : ℕ → Argument
  long : ℤ → Argument
  unsigned_long : ℕ → Argument
  string : Bytes → Argument

-- `printed` and what stands in the buffer in front of `b`.
pub record Output : Type 0 where
  pub printed : ℕ
  pub text : Bytes

-- `if (++printed < (int)size) *b++ = c;`
abbrev pub emit : ℕ → ℕ → Output → Output
emit size c o = record {
  printed = suc o.printed;
  text = (if ltb (suc o.printed) size then o.text ++ (c ∷ []) else o.text);
}

-- `strchr(ESCAPE_CHARS, c) != NULL`
abbrev pub is_special : ℕ → Bool
is_special c = (c == b'"') || (c == b'\'') || (c == b'\\')

-- The loop over `s`.
unfoldable pub emit_escaped : ℕ → Bytes → Output → Output
emit_escaped size [] o = o
emit_escaped size (c ∷ cs) o =
    emit_escaped size cs (emit size c (if is_special c then emit size b'\\' o else o))

-- `snprintf(n, sizeof(n), ...)`, where `n` has 20 bytes.
abbrev pub number : Bytes → Bytes
number = take 19

unfoldable pub convert_argument : ℕ → List Argument → Option (Bytes × List Argument)
convert_argument c (int z ∷ args) =
    if (c == b'd') || (c == b'i') then some (number (print_int z), args) else none
convert_argument c (unsigned n ∷ args) =
    if c == b'u' then some (number (print_nat n), args) else none
convert_argument c (string s ∷ args) = if c == b's' then some (s, args) else none
convert_argument c args = none

-- The text for a format of one letter, and the arguments that are left. `none`: the argument is missing
-- or of another type, or the format is a numbered one or unknown.
unfoldable pub convert : ℕ → List Argument → Option (Bytes × List Argument)
unfolding convert_argument
convert c args = if c == b'%' then some (codes "%", args) else convert_argument c args

-- The same behind the letter l.
unfoldable pub convert_long : ℕ → List Argument → Option (Bytes × List Argument)
convert_long c (long z ∷ args) =
    if (c == b'd') || (c == b'i')
    then some (number (print_int z), args)
    else if c == b'u'
    then none
    else some (codes "*", long z ∷ args)
convert_long c (unsigned_long n ∷ args) =
    if c == b'u'
    then some (number (print_nat n), args)
    else if (c == b'd') || (c == b'i')
    then none
    else some (codes "*", unsigned_long n ∷ args)
convert_long c args =
    if (c == b'd') || (c == b'i') || (c == b'u') then none else some (codes "*", args)

-- Where the loop over the format stands: in text, behind a percent sign, behind the letter l.
pub data Place : Type 0 where
  plain : Place
  directive : Place
  long_directive : Place

-- `none` also where the format ends behind a percent sign, and the loop runs past its end.
unfoldable pub run : ℕ → Place → Bytes → List Argument → Output → Option Output
unfolding convert convert_long emit_escaped
run size plain [] args o = some o
run size directive [] args o = none
run size long_directive [] args o = none
run size plain (c ∷ f) args o = elim (c == b'%') [
  | true ↦ run size directive f args o
  | false ↦ run size plain f args (emit size c o)
]
run size directive (c ∷ f) args o = elim (c == b'l') [
  | true ↦ run size long_directive f args o
  | false ↦ elim (convert c args) [
    | none ↦ none
    | some (t, left) ↦ run size plain f left (emit_escaped size t o)
  ]
]
run size long_directive (c ∷ f) args o = elim (convert_long c args) [
  | none ↦ none
  | some (t, left) ↦ run size plain f left (emit_escaped size t o)
]

-- A buffer that the text does not fit is cleared.
abbrev pub finish : ℕ → Output → ℕ × Bytes
finish size o = (o.printed, if leb size o.printed then [] else o.text)

-- `qnprintf` on a buffer of `size` bytes: its answer, and the string in the buffer. With no room at all
-- the terminator is written outside of the buffer.
unfoldable pub qnprintf : ℕ → Bytes → List Argument → Option (ℕ × Bytes)
unfolding run
qnprintf zero f args = none
qnprintf (suc n) f args =
    Option.map (finish (suc n)) (run (suc n) plain f args (record { printed = 0; text = [] }))
