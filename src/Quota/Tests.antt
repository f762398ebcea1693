-- ===== src/Quota/Tests.antt =====
-- Runs of quota.c on concrete inputs.
use vpopmail.Common.{◌≡◌, refl, codes, Bytes, [], ◌∷◌, Option, some, inl, inr, true, arith, ap}
use vpopmail.Common.Int.{pos}
use vpopmail.Common.Decimal.{read_int, print_nat}
use vpopmail.Limits.{Vlimits, default_limits}
use vpopmail.Quota.{mtos, Daemon, compare, check, check_domain}
use vpopmail.Quota.Parse.{bytes, messages, mtos-render}
use vpopmail.Quota.Compare.{compare_lem}
use vpopmail.Quota.Check.{check_lem, check_domain_lem}

both : (mtos 0 (codes "1048576S,1000C")).size ≡ 1048576
unfolding mtos read_int
both = refl

none_given : (mtos 0 (codes "NOQUOTA")).count ≡ 0
unfolding mtos read_int
none_given = refl

-- With the letter S in memory before it, the empty quota string sets no quota either.
before_empty : (mtos b'S' []).size ≡ 0
unfolding mtos read_int
before_empty = refl

mtos-render_example : (mtos 0 (codes "100S,20C,7S")).size ≡ 100
unfolding mtos read_int print_nat
mtos-render_example =
    ap (λ q. q.size)
      (mtos-render (bytes 100) (messages 20 ∷ bytes 7 ∷ []) 0 (omega arith)
        (omega arith, (omega arith, tt)))

abbrev busy : Daemon
busy = record { connects = true; query = λ _. some (3000000, 12) }

abbrev limits_of : Bytes → Option Vlimits
limits_of _ = some (record default_limits { diskquota = pos 2 })

abbrev email : Bytes
email = codes "joe@example.com"

compare_lem_example : compare busy limits_of 0 email (codes "100S") ≡ 1
unfolding mtos read_int
compare_lem_example =
    (compare_lem busy limits_of 0 email (codes "100S")).0.1
      (refl, ((3000000, 12), refl, (ground arith, inl (ground arith, omega arith))))

check_lem_example : check busy limits_of 0 email (some (codes "9C")) ≡ 1
unfolding mtos read_int
check_lem_example =
    (check_lem busy limits_of 0 email (codes "9C")).0.1
      (inl (refl, ((3000000, 12), refl, (ground arith, inr (ground arith, omega arith)))))

check_domain_lem_example : check_domain busy limits_of (codes "example.com") ≡ 1
check_domain_lem_example = (check_domain_lem busy limits_of (codes "example.com")).1 (
  omega arith,
  (
    record default_limits { diskquota = pos 2 },
    refl,
    (refl, ((3000000, 12), refl, (ground arith, inl (ground arith, omega arith)))),
  ),
)
