-- ===== src/Quota/Check.antt =====
-- quota.c: what the answers of `quota_check`, `quota_check_domain` and `quota_usage` mean.
use vpopmail.Common.{
  ℕ, ◌<◌, ◌≤◌, ◌≡◌, ◌↔◌, ◌⊎◌, inl, inr, refl, sym, ◌∙◌, Bool, true, ◌&&◌, ◌∷◌, Option, none, some,
  Bytes, leb, ◌==◌, if◌then◌else◌, length, arith,
}
use mathlib.Core.Option.{some-injective}
use mathlib.Core.Path.{subst}
use vpopmail.Common.Int.{ℤ}
use vpopmail.Limits.{Vlimits}
use vpopmail.Quota.{
  mtos, Daemon, query_quick, over_domain, domain_of, compare, check, answered, domain_limits,
  compare_domain, check_domain_in, check_domain, percent, percent_of, get_usage, usage,
}
use vpopmail.Quota.Compare.{
  Over, OverLimits, Reports, DomainOver, over_domain_iff, Reports_iff, compare_lem,
}

domain_limits_le_two :
    (d : Daemon) (gl : Bytes → Option Vlimits) (domain : Bytes) (o : Option Vlimits)
    → domain_limits d gl domain o ≤ 2
unfolding domain_limits
domain_limits_le_two d gl domain none = omega arith
domain_limits_le_two d gl domain (some vl) = ground arith

compare_domain_le_two :
    (d : Daemon) (gl : Bytes → Option Vlimits) (o : Option Bytes) → compare_domain d gl o ≤ 2
unfolding compare_domain
compare_domain_le_two d gl none = omega arith
compare_domain_le_two d gl (some domain) = domain_limits_le_two d gl domain (gl domain)

compare_le_two :
    (d : Daemon) (gl : Bytes → Option Vlimits) (before : ℕ) (email quota : Bytes)
    → compare d gl before email quota ≤ 2
unfolding compare
compare_le_two d gl before email quota =
    ground (arith, compare_domain_le_two d gl (domain_of email))

two_is_one : (n : ℕ) → ((if n == 2 then 1 else n) ≡ 1) ↔ ((n ≡ 1) ⊎ (n ≡ 2))
two_is_one n = ground arith

-- `quota_check` on a user with an entry answers 1 exactly if the usage daemon reports a usage of the
-- user that reaches a limit of the quota string, or, where it does not, a usage of the address's
-- domain that reaches a limit of the domain; and no answer is above 1.
pub check_lem :
    (d : Daemon) (gl : Bytes → Option Vlimits) (before : ℕ) (email quota : Bytes)
    → ((check d gl before email (some quota) ≡ 1) ↔ (
        Reports d email (Over (mtos before quota))
        ⊎ (¬ Reports d email (Over (mtos before quota)) × DomainOver d gl (domain_of email))))
      × (check d gl before email (some quota) ≤ 1)
unfolding check
check_lem d gl before email quota =
    let n : ℕ = compare d gl before email quota in
    let (one, two) = compare_lem d gl before email quota in
    let cases = two_is_one n in
    (
      (
        λ e. elim (cases.0 e) [ inl a ↦ inl (one.0 a) | inr b ↦ inr (two.0 b) ],
        λ o. cases.1 (elim o [ inl r ↦ inl (one.1 r) | inr r ↦ inr (two.1 r) ]),
      ),
      ground (arith, compare_le_two d gl before email quota),
    )

abbrev one_unless : Bool → Bool → ℕ
one_unless long test = if long then 0 else if test then 1 else 0

one_unless_iff :
    (n : ℕ) (test : Bool) → (one_unless (leb 254 n) test ≡ 1) ↔ ((n < 254) × (test ≡ true))
one_unless_iff n test = ground arith

query_quick-answered :
    (test : ℕ × ℕ → Bool) (d : Daemon) (entry : Bytes)
    → answered test (query_quick d entry) ≡ (d.connects && answered test (d.query entry))
query_quick-answered test d entry = case d.connects (d.query entry)
  where
    case :
        (c : Bool) (o : Option (ℕ × ℕ))
        → answered test (if c then o else none) ≡ (c && answered test o)
    case c o = ground arith

check_domain_in_iff :
    (d : Daemon) (gl : Bytes → Option Vlimits) (domain : Bytes) (o : Option Vlimits)
    → (check_domain_in d gl domain o ≡ 1) ↔ (
        (length domain < 254)
        × ((vl : Vlimits) × (o ≡ some vl) × Reports d (b'@' ∷ domain) (OverLimits vl)))
unfolding check_domain_in
check_domain_in_iff d gl domain none =
    (λ e. absurd (ground arith), λ (h, (vl, e, r)). absurd (ground arith))
check_domain_in_iff d gl domain (some vl) =
    let quick = query_quick-answered (over_domain vl) d (b'@' ∷ domain) in
    let one =
      one_unless_iff (length domain) (answered (over_domain vl) (query_quick d (b'@' ∷ domain))) in
    let reports =
      Reports_iff d (b'@' ∷ domain) (over_domain vl) (OverLimits vl) (over_domain_iff vl) in
    (
      (λ e. ((one.0 e).0, (vl, refl, reports.0 (sym quick ∙ (one.0 e).1)))),
      λ (h, (v, e, r)). one.1 (
        h,
        quick
            ∙ reports.1 (
                subst (λ w. Reports d (b'@' ∷ domain) (OverLimits w)) (sym (some-injective _ _ e))
                  r),
      ),
    )

-- `quota_check_domain` answers 1 exactly if the name is shorter than 254 bytes, the domain has
-- limits, and the daemon reports a usage of it that reaches one of them.
pub check_domain_lem :
    (d : Daemon) (gl : Bytes → Option Vlimits) (domain : Bytes)
    → (check_domain d gl domain ≡ 1) ↔ (
        (length domain < 254)
        × ((vl : Vlimits) × (gl domain ≡ some vl) × Reports d (b'@' ∷ domain) (OverLimits vl)))
unfolding check_domain
check_domain_lem d gl domain = check_domain_in_iff d gl domain (gl domain)

percent_bound :
    (f : ℕ → ℕ → ℤ) (bytes count size_ count_ : ℕ) → percent f bytes count size_ count_ ≤ 100
unfolding percent
percent_bound f bytes count size_ count_ = ground arith

-- The percentage that `quota_usage` answers is at most 100, whatever the floating-point quotient is.
pub usage_bound :
    (f : ℕ → ℕ → ℤ) (before : ℕ) (d : Daemon) (entry quota : Bytes)
    → usage f before d entry quota ≤ 100
unfolding usage percent_of
usage_bound f before d entry quota = bound (get_usage d entry)
  where
    bound : (o : Option (ℕ × ℕ)) → percent_of f (mtos before quota) o ≤ 100
    bound none = omega arith
    bound (some (b, c)) = percent_bound f b c (mtos before quota).size (mtos before quota).count
