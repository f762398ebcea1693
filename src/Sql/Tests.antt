-- ===== src/Sql/Tests.antt =====
-- A query with a value that holds special characters.
use vpopmail.Common.{◌≡◌, refl, [], ◌∷◌, ◌++◌, some, Bytes, codes, length, List, arith}
use mathlib.Core.Option
use vpopmail.Common.Int.{pos}
use vpopmail.Common.Decimal.{print_int, print_nat}
use vpopmail.Sql.{
  Argument, int, string, unsigned_long, convert_long, plain, qnprintf, run, emit_escaped, convert,
  convert_argument,
}
use vpopmail.Sql.Render.{render, escape, stored, qnprintf-render}
use vpopmail.Sql.Literal.{inside, literal, qnprintf-literal}

abbrev before : Bytes
before = codes "delete from t where u="

abbrev after : Bytes
after = codes " and n=%d"

abbrev value : Bytes
value = codes "x' or 'a'='a"

abbrev args : List Argument
args = int (pos 7) ∷ []

abbrev query : Bytes
query = codes "delete from t where u='x\\' or \\'a\\'=\\'a' and n=7"

qnprintf-render_example :
    qnprintf 64 (codes "%s %d") (string value ∷ args)
    ≡ Option.map (stored 64) (render plain (codes "%s %d") (string value ∷ args))
qnprintf-render_example = qnprintf-render 64 (codes "%s %d") (string value ∷ args) (omega arith)

query_written :
    qnprintf 100 (before ++ (codes "'%s'" ++ after)) (string value ∷ args)
    ≡ some (length query, query)
unfolding qnprintf run emit_escaped convert convert_argument print_int
query_written = refl

after-render : render plain after args ≡ some (codes " and n=7")
unfolding render convert convert_argument escape print_int
after-render = refl

qnprintf-literal_example :
    (e : Bytes) × (query ≡ before ++ b'\'' ∷ e)
    × (literal inside e ≡ some (value, codes " and n=7"))
qnprintf-literal_example =
    qnprintf-literal 100 (length query) before after value (codes " and n=7") query args
      (ground arith) after-render refl query_written (omega arith)

-- A number of 20 digits loses its last one.
number_cut :
    qnprintf 40 (codes "%lu") (unsigned_long 18446744073709551615 ∷ [])
    ≡ some (19, codes "1844674407370955161")
unfolding qnprintf run emit_escaped convert_long print_nat
number_cut = refl
