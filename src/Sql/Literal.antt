-- ===== src/Sql/Literal.antt =====
-- vpopmail.c, `qnprintf`: what is read of a value that stands between quotes in a format by an SQL
-- server to which a backslash in a literal is an escape, as it is by default to MySQL. To the servers
-- of backends/postgres and backends/sybase it is by default a character like others.
use vpopmail.Common.{
  ℕ, ◌<◌, ◌≡◌, refl, sym, ap, ◌∙◌, true, false, List, [], ◌∷◌, ◌++◌, Option, none, some, Bytes,
  codes, lt→ltb, ◌==◌, if◌then◌else◌, length, All, append_assoc, Bool-cases, inl, inr, arith,
}
use mathlib.Core.Option
use mathlib.Core.Option.{some-injective}
use mathlib.Core.Path.{subst}
use vpopmail.Sql.{Argument, string, plain, qnprintf}
use vpopmail.Sql.Render.{
  is_escaped, escape, shown, shown_string, prepend, render, stored, qnprintf-render,
}

-- Where a server that reads backslashes as escapes stands in a literal: inside, behind a backslash,
-- behind a quote.
pub data Inside : Type 0 where
  inside : Inside
  escaped : Inside
  quoted : Inside

-- What a backslash and a letter stand for.
abbrev unescaped : ℕ → ℕ
unescaped c =
    if c == b'0'
    then 0
    else if c == b'b'
    then 8
    else if c == b't'
    then 9
    else if c == b'n'
    then 10
    else if c == b'r'
    then 13
    else if c == b'Z'
    then 26
    else c

abbrev with_char : ℕ → Option (Bytes × Bytes) → Option (Bytes × Bytes)
with_char c = Option.map (λ p. (c ∷ p.0, p.1))

-- The value of a literal behind its first quote, and the text behind its last one. A quote that is
-- written twice stands for one.
unfoldable pub literal : Inside → Bytes → Option (Bytes × Bytes)
literal inside [] = none
literal escaped [] = none
literal quoted [] = some ([], [])
literal inside (c ∷ cs) = elim (c == b'\\') [
  | true ↦ literal escaped cs
  | false ↦ elim (c == b'\'') [ true ↦ literal quoted cs | false ↦ with_char c (literal inside cs) ]
]
literal escaped (c ∷ cs) = with_char (unescaped c) (literal inside cs)
literal quoted (c ∷ cs) = elim (c == b'\'') [
  | true ↦ with_char b'\'' (literal inside cs)
  | false ↦ some ([], c ∷ cs)
]

-- No text begins with a quote.
abbrev pub NoQuote : Bytes → Type 0
NoQuote [] = Unit
NoQuote (c ∷ cs) = (c == b'\'') ≡ false

literal-quoted : (rest : Bytes) → NoQuote rest → literal quoted rest ≡ some ([], rest)
unfolding literal
literal-quoted [] h = refl
literal-quoted (c ∷ cs) h = rw (literal, h) refl

unescaped_special : (c : ℕ) → is_escaped c ≡ true → unescaped c ≡ c
unescaped_special c h = ground arith

not_backslash : (c : ℕ) → is_escaped c ≡ false → (c == b'\\') ≡ false
not_backslash c h = ground arith

not_quote : (c : ℕ) → is_escaped c ≡ false → (c == b'\'') ≡ false
not_quote c h = ground arith

literal-escape :
    (v rest : Bytes) → NoQuote rest → literal inside (escape v ++ b'\'' ∷ rest) ≡ some (v, rest)
unfolding literal escape
literal-escape [] rest h = literal-quoted rest h
literal-escape (c ∷ cs) rest h = elim (Bool-cases (is_escaped c)) [
  | inl e ↦ rw (e, literal-escape cs rest h, unescaped_special c e) refl
  | inr e ↦
      rw (e, literal, not_backslash c e, not_quote c e)
        (ap (with_char c) (literal-escape cs rest h))
]

-- Text of a format that stands for itself.
abbrev pub IsPlain : ℕ → Type 0
IsPlain c = (c == b'%') ≡ false

prepend_nil : (r : Option Bytes) → prepend [] r ≡ r
prepend_nil none = refl
prepend_nil (some t) = refl

prepend-prepend : (s t : Bytes) (r : Option Bytes) → prepend s (prepend t r) ≡ prepend (s ++ t) r
prepend-prepend s t none = refl
prepend-prepend s t (some u) = ap some (sym (append_assoc s t u))

render_char :
    (c : ℕ) (f : Bytes) (args : List Argument)
    → IsPlain c
    → render plain (c ∷ f) args ≡ prepend (c ∷ []) (render plain f args)
unfolding render
render_char c f args h = rw (render, h) refl

render-plain :
    (before f : Bytes) (args : List Argument)
    → All IsPlain before
    → render plain (before ++ f) args ≡ prepend before (render plain f args)
render-plain [] f args h = sym (prepend_nil (render plain f args))
render-plain (c ∷ cs) f args (h, hs) =
    render_char c (cs ++ f) args h
    ∙ ap (prepend (c ∷ [])) (render-plain cs f args hs)
    ∙ prepend-prepend (c ∷ []) cs (render plain f args)

-- The format `'%s'` and its value.
render-literal :
    (f v r : Bytes) (args : List Argument)
    → render plain f args ≡ some r
    → render plain (codes "'%s'" ++ f) (string v ∷ args) ≡ some (b'\'' ∷ (escape v ++ b'\'' ∷ r))
unfolding render shown shown_string
render-literal f v r args h = rw h refl

-- In a format with `'%s'`, whatever text without a percent sign stands before and whatever comes
-- behind, as long as that does not begin with a quote, `qnprintf` writes a literal that is read as
-- exactly the given value, with the text behind it left over, by an SQL server to which a backslash in
-- a literal is an escape, as by default to MySQL; if the buffer is large enough.
pub qnprintf-literal :
    (size n : ℕ) (before f v r t : Bytes) (args : List Argument)
    → All IsPlain before
    → render plain f args ≡ some r
    → NoQuote r
    → qnprintf size (before ++ (codes "'%s'" ++ f)) (string v ∷ args) ≡ some (n, t)
    → n < size
    → (e : Bytes) × (t ≡ before ++ b'\'' ∷ e) × (literal inside e ≡ some (v, r))
qnprintf-literal size n before f v r t args hb hr hq e fits =
    let text : Bytes = before ++ (b'\'' ∷ (escape v ++ b'\'' ∷ r)) in
    let whole : render plain (before ++ (codes "'%s'" ++ f)) (string v ∷ args) ≡ some text =
      render-plain before (codes "'%s'" ++ f) (string v ∷ args) hb
      ∙ ap (prepend before) (render-literal f v r args hr) in
    let same : stored size text ≡ (n, t) = some-injective _ _ (
      sym (ap (Option.map (stored size)) whole)
      ∙ sym (qnprintf-render size (before ++ (codes "'%s'" ++ f)) (string v ∷ args) (omega arith))
      ∙ e) in
    let long : length text < size = subst (λ x. x < size) (sym (ap (λ p. p.0) same)) fits in
    (
      escape v ++ b'\'' ∷ r,
      sym (ap (λ p. p.1) same) ∙ rw (lt→ltb (length text) size long) refl,
      literal-escape v r hq,
    )
