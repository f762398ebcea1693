-- ===== src/Quota/Compare.antt =====
-- quota.c: what the answers of `quota_compare` mean.
use vpopmail.Common.{
  ℕ, ◌/◌, ◌≤◌, ◌≡◌, ◌≢◌, ◌↔◌, ◌⊎◌, refl, sym, ◌∙◌, Bool, true, false, not, ◌&&◌, ◌||◌, ◌∷◌, Option,
  none, some, Bytes, leb, ◌==◌, if◌then◌else◌, arith,
}
use mathlib.Core.Option.{some-injective}
use mathlib.Core.Path.{subst}
use vpopmail.Common.Int.{to_u64}
use vpopmail.Limits.{Vlimits}
use vpopmail.Quota.{
  Quota, mtos, unavailable, Daemon, over_user, over_domain, domain_of, compare, answered,
  domain_limits, compare_domain,
}

-- A usage reaches a limit that is set.
abbrev pub Reaches : ℕ → ℕ → Type 0
Reaches used limit = (limit ≢ 0) × (limit ≤ used)

-- What the daemon says of a user reaches one of the two limits.
abbrev pub Over : Quota → ℕ × ℕ → Type 0
Over q (bytes, count) = (bytes ≢ unavailable) × (Reaches bytes q.size ⊎ Reaches count q.count)

-- The same for a domain, its disk quota in units of 1000000 bytes.
abbrev pub OverLimits : Vlimits → ℕ × ℕ → Type 0
OverLimits vl (bytes, count) =
    (bytes ≢ unavailable)
    × (Reaches (bytes / 1000000) (to_u64 vl.diskquota) ⊎ Reaches count (to_u64 vl.maxmsgcount))

-- The daemon can be reached and answers for `entry` with a usage of which `P` holds.
abbrev pub Reports : Daemon → Bytes → (ℕ × ℕ → Type 0) → Type 0
Reports d entry P = (d.connects ≡ true) × ((u : ℕ × ℕ) × (d.query entry ≡ some u) × P u)

over_user_iff : (q : Quota) (u : ℕ × ℕ) → (over_user q u ≡ true) ↔ Over q u
unfolding over_user
over_user_iff q (bytes, count) = ground arith

-- Without a usage there is no limit to reach.
nonzero_div : (limit n : ℕ) → limit ≢ 0 → limit ≤ n / 1000000 → n ≢ 0
nonzero_div limit n h k = omega arith

pub over_domain_iff : (vl : Vlimits) (u : ℕ × ℕ) → (over_domain vl u ≡ true) ↔ OverLimits vl u
unfolding over_domain
over_domain_iff vl (bytes, count) =
    over (to_u64 vl.diskquota) (to_u64 vl.maxmsgcount) (nonzero_div (to_u64 vl.diskquota) bytes)
  where
    over :
        (dq mq : ℕ)
        → (dq ≢ 0 → dq ≤ bytes / 1000000 → bytes ≢ 0)
        → ((not (bytes == unavailable)
              && ((not (dq == 0) && not (bytes == 0) && leb dq (bytes / 1000000))
                  || (not (mq == 0) && leb mq count)))
            ≡ true)
          ↔ ((bytes ≢ unavailable) × (Reaches (bytes / 1000000) dq ⊎ Reaches count mq))
    over dq mq h = ground arith

answered_iff :
    (test : ℕ × ℕ → Bool) (P : ℕ × ℕ → Type 0)
    → ((u : ℕ × ℕ) → (test u ≡ true) ↔ P u)
    → (connects : Bool) (o : Option (ℕ × ℕ))
    → ((connects && answered test o) ≡ true)
      ↔ ((connects ≡ true) × ((u : ℕ × ℕ) × (o ≡ some u) × P u))
answered_iff test P h false o = ground arith
answered_iff test P h true none =
    (λ e. absurd (ground arith), λ (_, (u, e, p)). absurd (ground arith))
answered_iff test P h true (some u) = (
  λ t. (refl, (u, refl, (h u).0 t)),
  λ (_, (v, e, p)). (h u).1 (subst P (sym (some-injective _ _ e)) p),
)

pub Reports_iff :
    (d : Daemon) (entry : Bytes) (test : ℕ × ℕ → Bool) (P : ℕ × ℕ → Type 0)
    → ((u : ℕ × ℕ) → (test u ≡ true) ↔ P u)
    → ((d.connects && answered test (d.query entry)) ≡ true) ↔ Reports d entry P
Reports_iff d entry test P h = answered_iff test P h d.connects (d.query entry)

-- The domain behind the address has limits, and is over them.
abbrev pub DomainOver : Daemon → (Bytes → Option Vlimits) → Option Bytes → Type 0
DomainOver d get_limits o =
    (domain : Bytes) × (vl : Vlimits) × (o ≡ some domain)
    × (get_limits domain ≡ some vl)
    × Reports d (b'@' ∷ domain) (OverLimits vl)

-- The first half of `quota_compare` as a condition on Booleans.
compare-1 :
    (set connects over : Bool) (on_domain : ℕ)
    → (over ≡ true → set ≡ true)
    → on_domain ≢ 1
    → ((if set then (if connects then (if over then 1 else on_domain) else 0) else on_domain) ≡ 1)
      ↔ ((connects && over) ≡ true)
compare-1 set connects over n h k = ground arith

domain_limits-cases :
    (d : Daemon) (gl : Bytes → Option Vlimits) (domain : Bytes) (vl : Vlimits)
    → domain_limits d gl domain (some vl)
      ≡ (if d.connects && answered (over_domain vl) (d.query (b'@' ∷ domain)) then 2 else 0)
unfolding domain_limits
domain_limits-cases d gl domain vl = ground arith

compare_domain-ne-1 :
    (d : Daemon) (gl : Bytes → Option Vlimits) (o : Option Bytes) → compare_domain d gl o ≢ 1
unfolding compare_domain domain_limits
compare_domain-ne-1 d gl none = ground arith
compare_domain-ne-1 d gl (some domain) = ground arith

abbrev two_if : Bool → ℕ
two_if b = if b then 2 else 0

if_two : (b : Bool) → (two_if b ≡ 2) ↔ (b ≡ true)
if_two b = ground arith

domain_limits_iff :
    (d : Daemon) (gl : Bytes → Option Vlimits) (domain : Bytes) (o : Option Vlimits)
    → (domain_limits d gl domain o ≡ 2)
      ↔ ((vl : Vlimits) × (o ≡ some vl) × Reports d (b'@' ∷ domain) (OverLimits vl))
unfolding domain_limits
domain_limits_iff d gl domain none =
    (λ e. absurd (ground arith), λ (vl, e, r). absurd (ground arith))
domain_limits_iff d gl domain (some vl) =
    let two = if_two (d.connects && answered (over_domain vl) (d.query (b'@' ∷ domain))) in
    let reports =
      Reports_iff d (b'@' ∷ domain) (over_domain vl) (OverLimits vl) (over_domain_iff vl) in
    let cases = domain_limits-cases d gl domain vl in
    (
      (λ e. (vl, refl, reports.0 (two.0 (sym cases ∙ e)))),
      λ (v, e, r).
          cases
          ∙ two.1 (
              reports.1 (
                subst (λ w. Reports d (b'@' ∷ domain) (OverLimits w)) (sym (some-injective _ _ e))
                  r)),
    )

compare_domain_iff :
    (d : Daemon) (gl : Bytes → Option Vlimits) (o : Option Bytes)
    → (compare_domain d gl o ≡ 2) ↔ DomainOver d gl o
unfolding compare_domain
compare_domain_iff d gl none =
    (λ e. absurd (ground arith), λ (domain, vl, e, h, r). absurd (ground arith))
compare_domain_iff d gl (some domain) =
    let limits = domain_limits_iff d gl domain (gl domain) in
    (
      (λ e. let (vl, h, r) = limits.0 e in (domain, vl, refl, h, r)),
      λ (domain', vl, e, h, r).
          let same : domain' ≡ domain = sym (some-injective _ _ e) in
          limits.1 (
            vl,
            subst (λ x. gl x ≡ some vl) same h,
            subst (λ x. Reports d (b'@' ∷ x) (OverLimits vl)) same r,
          ),
    )

set_quota :
    (q : Quota) (o : Option (ℕ × ℕ))
    → answered (over_user q) o ≡ true
    → (not (q.size == 0) || not (q.count == 0)) ≡ true
unfolding over_user
set_quota q none h = ground arith
set_quota q (some (b, c)) h = ground arith

-- The answer 1 comes from the user, the answer 2 from the domain if the user is not over.
compare-2 :
    (set connects over : Bool) (on_domain : ℕ)
    → (over ≡ true → set ≡ true)
    → (connects ≡ false → on_domain ≢ 2)
    → ((if set then (if connects then (if over then 1 else on_domain) else 0) else on_domain) ≡ 2)
      ↔ (¬ ((connects && over) ≡ true) × (on_domain ≡ 2))
compare-2 set connects over n h k = ground arith

domain_needs_daemon :
    (d : Daemon) (gl : Bytes → Option Vlimits) (o : Option Bytes)
    → d.connects ≡ false
    → compare_domain d gl o ≢ 2
unfolding compare_domain domain_limits
domain_needs_daemon d gl none h = ground arith
domain_needs_daemon d gl (some domain) h = ground (arith, h)

-- `quota_compare` answers 1 exactly if the usage daemon can be reached and reports a usage of the
-- user that reaches a limit set in the quota string; and 2 exactly if that is not so, the address has
-- a domain with limits, and the daemon reports a usage of the domain that reaches one of them.
pub compare_lem :
    (d : Daemon) (gl : Bytes → Option Vlimits) (before : ℕ) (email quota : Bytes)
    → ((compare d gl before email quota ≡ 1) ↔ Reports d email (Over (mtos before quota)))
      × ((compare d gl before email quota ≡ 2)
          ↔ (¬ Reports d email (Over (mtos before quota)) × DomainOver d gl (domain_of email)))
unfolding compare
compare_lem d gl before email quota =
    let q : Quota = mtos before quota in
    let over : Bool = answered (over_user q) (d.query email) in
    let set : Bool = not (q.size == 0) || not (q.count == 0) in
    let n : ℕ = compare_domain d gl (domain_of email) in
    let reports = Reports_iff d email (over_user q) (Over q) (over_user_iff q) in
    let domain = compare_domain_iff d gl (domain_of email) in
    let one =
      compare-1 set d.connects over n (set_quota q (d.query email))
        (compare_domain-ne-1 d gl (domain_of email)) in
    let two =
      compare-2 set d.connects over n (set_quota q (d.query email))
        (domain_needs_daemon d gl (domain_of email)) in
    (
      (λ e. reports.0 (one.0 e), λ r. one.1 (reports.1 r)),
      (
        λ e. (λ r. (two.0 e).0 (reports.1 r), domain.0 (two.0 e).1),
        λ (not_over, dom). two.1 (λ b. not_over (reports.0 b), domain.1 dom),
      ),
    )
