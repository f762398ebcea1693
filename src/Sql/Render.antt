-- ===== src/Sql/Render.antt =====
-- vpopmail.c, `qnprintf`, against a rendering of the format without a buffer.
use vpopmail.Common.{
  ℕ, zero, suc, ◌+◌, ◌<◌, ◌≡◌, ◌≢◌, refl, sym, ap, ◌∙◌, Bool, true, false, ◌||◌, List, [], ◌∷◌,
  ◌++◌, Option, none, some, Bytes, ltb, leb, lt→ltb, ltb→lt, gt-leb, Bool-cases, inl, inr, ◌==◌,
  if◌then◌else◌, length, take, append_assoc, append-nil, arith,
}
use mathlib.Core.Option
use vpopmail.Common.Decimal.{print_int, print_nat}
use vpopmail.Sql.{
  Argument, Output, emit, is_special, emit_escaped, convert_argument, convert, convert_long, Place,
  plain, directive, long_directive, run, finish, qnprintf,
}

-- A double quote, a quote and a backslash.
abbrev pub is_escaped : ℕ → Bool
is_escaped c = (c == b'"') || (c == b'\'') || (c == b'\\')

-- A text with a backslash in front of each of them.
unfoldable pub escape : Bytes → Bytes
escape [] = []
escape (c ∷ cs) = let rest = escape cs in if is_escaped c then b'\\' ∷ c ∷ rest else c ∷ rest

abbrev pub prepend : Bytes → Option Bytes → Option Bytes
prepend t = Option.map (λ rest. t ++ rest)

-- The first argument as a number or a text, if it is of the type that the directive asks for. A number is
-- cut to 19 characters.
abbrev Shown : Type 0
Shown = Option (Bytes × List Argument)

unfoldable shown_int : List Argument → Shown
shown_int (Argument.int z ∷ args) = some (take 19 (print_int z), args)
shown_int _ = none

unfoldable shown_unsigned : List Argument → Shown
shown_unsigned (Argument.unsigned n ∷ args) = some (take 19 (print_nat n), args)
shown_unsigned _ = none

unfoldable pub shown_string : List Argument → Shown
shown_string (Argument.string t ∷ args) = some (t, args)
shown_string _ = none

unfoldable shown_long : List Argument → Shown
shown_long (Argument.long z ∷ args) = some (take 19 (print_int z), args)
shown_long _ = none

unfoldable shown_unsigned_long : List Argument → Shown
shown_unsigned_long (Argument.unsigned_long n ∷ args) = some (take 19 (print_nat n), args)
shown_unsigned_long _ = none

-- The directives %%, %d and %i, %u, %s; there are no others.
unfoldable pub shown : ℕ → List Argument → Shown
unfolding shown_int shown_unsigned shown_string
shown c args =
    if c == b'%'
    then some (b'%' ∷ [], args)
    else if c == b's'
    then shown_string args
    else if c == b'u'
    then shown_unsigned args
    else if (c == b'd') || (c == b'i')
    then shown_int args
    else none

-- %ld and %li, %lu, and a star for any other letter.
unfoldable pub shown_behind_l : ℕ → List Argument → Shown
unfolding shown_long shown_unsigned_long
shown_behind_l c args =
    if c == b'u'
    then shown_unsigned_long args
    else if (c == b'd') || (c == b'i')
    then shown_long args
    else some (b'*' ∷ [], args)

pub shown-convert : (c : ℕ) (args : List Argument) → convert c args ≡ shown c args
unfolding convert convert_argument shown shown_int shown_unsigned shown_string
shown-convert c [] = ground arith
shown-convert c (Argument.int z ∷ args) = ground arith
shown-convert c (Argument.unsigned n ∷ args) = ground arith
shown-convert c (Argument.string t ∷ args) = ground arith
shown-convert c (Argument.long z ∷ args) = ground arith
shown-convert c (Argument.unsigned_long n ∷ args) = ground arith

shown_behind_l-convert_long :
    (c : ℕ) (args : List Argument) → convert_long c args ≡ shown_behind_l c args
unfolding convert_long shown_behind_l shown_long shown_unsigned_long
shown_behind_l-convert_long c [] = ground arith
shown_behind_l-convert_long c (Argument.int z ∷ args) = ground arith
shown_behind_l-convert_long c (Argument.unsigned n ∷ args) = ground arith
shown_behind_l-convert_long c (Argument.string t ∷ args) = ground arith
shown_behind_l-convert_long c (Argument.long z ∷ args) = ground arith
shown_behind_l-convert_long c (Argument.unsigned_long n ∷ args) = ground arith

-- The text of a format in which every value is escaped.
unfoldable pub render : Place → Bytes → List Argument → Option Bytes
unfolding shown shown_behind_l
render plain [] args = some []
render directive [] args = none
render long_directive [] args = none
render plain (c ∷ f) args = elim (c == b'%') [
  | true ↦ render directive f args
  | false ↦ prepend (c ∷ []) (render plain f args)
]
render directive (c ∷ f) args = elim (c == b'l') [
  | true ↦ render long_directive f args
  | false ↦ elim (shown c args) [
    | none ↦ none
    | some (t, left) ↦ prepend (escape t) (render plain f left)
  ]
]
render long_directive (c ∷ f) args = elim (shown_behind_l c args) [
  | none ↦ none
  | some (t, left) ↦ prepend (escape t) (render plain f left)
]

push : ℕ → Bytes → Output → Output
push size [] o = o
push size (c ∷ cs) o = push size cs (emit size c o)

push-append :
    (size : ℕ) (s t : Bytes) (o : Output) → push size (s ++ t) o ≡ push size t (push size s o)
unfolding push
push-append size [] t o = refl
push-append size (c ∷ cs) t o = push-append size cs t (emit size c o)

emit_escaped-push :
    (size : ℕ) (s : Bytes) (o : Output) → emit_escaped size s o ≡ push size (escape s) o
unfolding emit_escaped push escape
emit_escaped-push size [] o = refl
emit_escaped-push size (c ∷ cs) o =
    emit_escaped-push size cs (emit size c (if is_special c then emit size b'\\' o else o))
    ∙ elim (is_special c)
        as (λ (special : Bool).
          push size (escape cs) (emit size c (if special then emit size b'\\' o else o))
          ≡ push size (if special then b'\\' ∷ c ∷ escape cs else c ∷ escape cs) o) [
            | true ↦ refl
            | false ↦ refl
          ]

abbrev pushed : ℕ → Output → Option Bytes → Option Output
pushed size o = Option.map (λ t. push size t o)

pushed-prepend :
    (size : ℕ) (t : Bytes) (o : Output) (r : Option Bytes)
    → pushed size (push size t o) r ≡ pushed size o (prepend t r)
pushed-prepend size t o none = refl
pushed-prepend size t o (some rest) = ap some (sym (push-append size t rest o))

push_either :
    (size : ℕ) (o : Output) (b : Bool) {r1 r2 : Option Output} (t1 t2 : Option Bytes)
    → r1 ≡ pushed size o t1
    → r2 ≡ pushed size o t2
    → elim b [ true ↦ r1 | false ↦ r2 ] ≡ pushed size o (elim b [ true ↦ t1 | false ↦ t2 ])
push_either size o true t1 t2 h1 h2 = h1
push_either size o false t1 t2 h1 h2 = h2

push_converted :
    (size : ℕ) (o : Output) (x : Option (Bytes × List Argument))
    {r : List Argument → Output → Option Output} (t : List Argument → Option Bytes)
    → ((left : List Argument) (o : Output) → r left o ≡ pushed size o (t left))
    → elim x [ none ↦ none | some (s, left) ↦ r left (emit_escaped size s o) ]
      ≡ pushed size o (elim x [ none ↦ none | some (s, left) ↦ prepend (escape s) (t left) ])
push_converted size o none t h = refl
push_converted size o (some (s, left)) t h =
    h left (emit_escaped size s o)
    ∙ ap (λ x. pushed size x (t left)) (emit_escaped-push size s o)
    ∙ pushed-prepend size (escape s) o (t left)

-- The same where the text is given in another way.
push_shown :
    (size : ℕ) (o : Output) (x : Option (Bytes × List Argument))
    {y : Option (Bytes × List Argument)} {r : List Argument → Output → Option Output}
    (t : List Argument → Option Bytes)
    → x ≡ y
    → ((left : List Argument) (o : Output) → r left o ≡ pushed size o (t left))
    → elim x [ none ↦ none | some (s, left) ↦ r left (emit_escaped size s o) ]
      ≡ pushed size o (elim y [ none ↦ none | some (s, left) ↦ prepend (escape s) (t left) ])
push_shown size o x t e h =
    push_converted size o x t h
    ∙ ap
        (λ (y : Option (Bytes × List Argument)).
          pushed size o (elim y [ none ↦ none | some (s, left) ↦ prepend (escape s) (t left) ]))
        e

run-render :
    (size : ℕ) (place : Place) (f : Bytes) (args : List Argument) (o : Output)
    → run size place f args o ≡ pushed size o (render place f args)
unfolding run render push
run-render size plain [] args o = refl
run-render size directive [] args o = refl
run-render size long_directive [] args o = refl
run-render size plain (c ∷ f) args o =
    push_either size o (c == b'%') _ _ (run-render size directive f args o) (
      run-render size plain f args (emit size c o)
      ∙ pushed-prepend size (c ∷ []) o (render plain f args))
run-render size directive (c ∷ f) args o =
    push_either size o (c == b'l') _ _ (run-render size long_directive f args o) (
      push_shown size o (convert c args) (render plain f) (shown-convert c args)
        (run-render size plain f))
run-render size long_directive (c ∷ f) args o =
    push_shown size o (convert_long c args) (render plain f) (shown_behind_l-convert_long c args)
      (run-render size plain f)

push-printed : (size : ℕ) (t : Bytes) (o : Output) → (push size t o).printed ≡ o.printed + length t
unfolding push
push-printed size [] o = omega arith
push-printed size (c ∷ cs) o = omega (arith, push-printed size cs (emit size c o))

push_fits :
    (size : ℕ) (t : Bytes) (o : Output)
    → o.printed + length t < size
    → (push size t o).text ≡ o.text ++ t
unfolding push
push_fits size [] o h = sym (append-nil o.text)
push_fits size (c ∷ cs) o h =
    push_fits size cs (emit size c o) (omega arith)
    ∙ rw (lt→ltb (suc o.printed) size (omega arith)) (append_assoc o.text (c ∷ []) cs)

-- What the buffer holds of a text, and the answer.
abbrev pub stored : ℕ → Bytes → ℕ × Bytes
stored size t = (length t, if ltb (length t) size then t else [])

finish-push :
    (size : ℕ) (t : Bytes)
    → finish size (push size t (record { printed = 0; text = [] })) ≡ stored size t
finish-push size t =
    let first : Output = record { printed = 0; text = [] } in
    let n : (push size t first).printed ≡ length t = omega (arith, push-printed size t first) in
    elim (Bool-cases (ltb (length t) size)) [
      | inl h ↦
          rw
            (
              n,
              h,
              gt-leb size (length t) (ltb→lt (length t) size h),
              push_fits size t first (ground arith),
            )
            refl
      | inr h ↦ let over : leb size (length t) ≡ true = ground arith in rw (n, h, over) refl
    ]

-- On every format of the comment, `qnprintf` answers with the length of the rendered text; the buffer
-- holds the text where it fits with its terminator, and is cleared where it does not.
pub qnprintf-render :
    (size : ℕ) (f : Bytes) (args : List Argument)
    → size ≢ 0
    → qnprintf size f args ≡ Option.map (stored size) (render plain f args)
unfolding qnprintf
qnprintf-render zero f args h = absurd (h refl)
qnprintf-render (suc n) f args h =
    ap (Option.map (finish (suc n)))
      (run-render (suc n) plain f args (record { printed = 0; text = [] }))
    ∙ finished (render plain f args)
  where
    finished :
        (r : Option Bytes)
        → Option.map (finish (suc n)) (pushed (suc n) (record { printed = 0; text = [] }) r)
          ≡ Option.map (stored (suc n)) r
    finished none = refl
    finished (some t) = ap some (finish-push (suc n) t)
