-- ===== src/Quota.antt =====
-- quota.c: Maildir++ quota strings, and the checks of a user and a domain against their quotas.
-- A `storage_t` is a number below 2 ^ 64. The usage daemon is reached through a socket (client.c);
-- `Daemon` is what it answers. The limits of a domain are a function, which Limits.Store provides.
pub mod Parse
pub mod Compare
pub mod Check
mod Tests
use vpopmail.Common.{
  ℕ, ◌+◌, ◌/◌, ◌%◌, ◌^◌, ◌-◌, Bool, true, false, not, ◌&&◌, ◌||◌, List, [], ◌∷◌, ◌++◌, Option, none,
  some, Bytes, codes, ltb, leb, ◌==◌, if◌then◌else◌, length,
}
use vpopmail.Common.Int.{ℤ, to_u64, clamp64}
use vpopmail.Common.Decimal.{read_int}
use vpopmail.Limits.{Vlimits}

-- -1 as a `storage_t`.
abbrev pub unavailable : ℕ
unavailable = 2 ^ 64 - 1

-- `strtoll` into a `storage_t`.
abbrev pub strtoll : Bytes → ℕ
strtoll s = to_u64 (clamp64 (read_int s))

-- `*size` and `*count`, and whether the two pointers are still set.
pub record Quota : Type 0 where
  pub size : ℕ
  pub count : ℕ
  pub want_size : Bool
  pub want_count : Bool

-- `ts = strtoll(t, NULL, 10); if (ts != -1) *size = ts; size = NULL;`
abbrev store_size : Bytes → Quota → Quota
store_size t q =
    if q.want_size
    then record q {
      size = (if strtoll t == unavailable then q.size else strtoll t);
      want_size = false;
    }
    else q

abbrev store_count : Bytes → Quota → Quota
store_count t q =
    if q.want_count
    then record q {
      count = (if strtoll t == unavailable then q.count else strtoll t);
      want_count = false;
    }
    else q

-- The switch on the byte before `h`; the Boolean is `!(*h)`.
unfoldable pub store_part : ℕ → Bool → Bytes → Quota → Quota
store_part before at_end t q =
    if before == b'S'
    then store_size t q
    else if before == b'C'
    then store_count t q
    else if at_end
    then store_size t q
    else q

-- The loop. `before` is `*(h - 1)`, `t` the text of the current part, and the list the text from `h`
-- on. `skipping` is set in the inner loop over commas, which ends by `t = h`.
unfoldable pub scan_quota : ℕ → Bytes → Bool → Bytes → Quota → Quota
unfolding store_part
scan_quota before t skipping [] q = store_part before true (if skipping then [] else t) q
scan_quota before t skipping (c ∷ cs) q =
    let comma = c == b',' in
    scan_quota c (if skipping then c ∷ cs else t) comma cs
      (if comma && not skipping then store_part before false t q else q)

abbrev pub unset : Quota
unset = record { size = 0; count = 0; want_size = true; want_count = true }

-- `quota_mtos` with both pointers given. `before` is the byte in memory in front of the string: the
-- code looks at it when the string is empty or begins with a comma.
unfoldable pub mtos : ℕ → Bytes → Quota
unfolding scan_quota
mtos before quota = scan_quota before quota false quota unset

pub record Daemon : Type 0 where
  -- Whether `client_connect` succeeds.
  pub connects : Bool
  -- `client_query` on a record: the bytes and messages in use, or `none` where it returns 0.
  pub query : Bytes → Option (ℕ × ℕ)

-- `client_query_quick`
abbrev pub query_quick : Daemon → Bytes → Option (ℕ × ℕ)
query_quick d entry = if d.connects then d.query entry else none

abbrev nonzero : ℕ → Bool
nonzero n = not (n == 0)

-- The test of a user's usage.
unfoldable pub over_user : Quota → ℕ × ℕ → Bool
over_user q (usage, count) =
    not (usage == unavailable)
    && ((nonzero q.size && leb q.size usage) || (nonzero q.count && leb q.count count))

-- The test of a domain's usage. The limits are signed, and become unsigned in the comparison.
unfoldable pub over_domain : Vlimits → ℕ × ℕ → Bool
over_domain vl (bytes, count) =
    let diskquota = to_u64 vl.diskquota in
    let maxmsgcount = to_u64 vl.maxmsgcount in
    not (bytes == unavailable)
    && ((nonzero diskquota && nonzero bytes && leb diskquota (bytes / 1000000))
        || (nonzero maxmsgcount && leb maxmsgcount count))

abbrev pub answered : (ℕ × ℕ → Bool) → Option (ℕ × ℕ) → Bool
answered test none = false
answered test (some use_) = test use_

-- The text behind the first `@`.
unfoldable pub domain_of : Bytes → Option Bytes
domain_of [] = none
domain_of (c ∷ cs) = if c == b'@' then some cs else domain_of cs

module _ (daemon : Daemon) (get_limits : Bytes → Option Vlimits) where
  unfoldable pub domain_limits : Bytes → Option Vlimits → ℕ
  unfolding over_domain
  domain_limits domain none = 0
  domain_limits domain (some vl) =
      if daemon.connects
      then (if answered (over_domain vl) (daemon.query (b'@' ∷ domain)) then 2 else 0)
      else 0

  -- The second half of `quota_compare`, from the search for the domain on.
  unfoldable pub compare_domain : Option Bytes → ℕ
  unfolding domain_limits
  compare_domain none = 0
  compare_domain (some domain) = domain_limits domain (get_limits domain)

  -- `quota_compare`, with neither argument NULL.
  unfoldable pub compare : ℕ → Bytes → Bytes → ℕ
  unfolding mtos over_user domain_of compare_domain
  compare before email quota =
      let q = mtos before quota in
      let on_domain = compare_domain (domain_of email) in
      if nonzero q.size || nonzero q.count
      then (if daemon.connects
          then (if answered (over_user q) (daemon.query email) then 1 else on_domain)
          else 0)
      else on_domain

  -- `quota_check`; the option is the `pw_shell` of the user's entry.
  unfoldable pub check : ℕ → Bytes → Option Bytes → ℕ
  unfolding compare
  check before email none = 0
  check before email (some quota) =
      let ret = compare before email quota in if ret == 2 then 1 else ret

  unfoldable pub check_domain_in : Bytes → Option Vlimits → ℕ
  unfolding over_domain
  check_domain_in domain none = 0
  check_domain_in domain (some vl) =
      if leb 254 (length domain)
      then 0
      else if answered (over_domain vl) (query_quick daemon (b'@' ∷ domain))
      then 1
      else 0

  -- `quota_check_domain`
  unfoldable pub check_domain : Bytes → ℕ
  unfolding check_domain_in
  check_domain domain = check_domain_in domain (get_limits domain)

-- `quota_get_usage`; `none` is the result 0, with both counts set to 0.
unfoldable pub get_usage : Daemon → Bytes → Option (ℕ × ℕ)
get_usage d entry = available (query_quick d entry)
  where
    available : Option (ℕ × ℕ) → Option (ℕ × ℕ)
    available none = none
    available (some (bytes, count)) = if bytes == unavailable then none else some (bytes, count)

-- `(int)((float)((float)x / (float)y) * (float)100)` is a parameter. The result goes into an unsigned
-- `storage_t`, so that the tests for less than 0 never hold.
module _ (float_percent : ℕ → ℕ → ℤ) where
  abbrev pub one_percent : ℕ → ℕ → ℕ
  one_percent used quota =
      if nonzero quota
      then (let p = to_u64 (float_percent used quota) in if ltb 100 p then 100 else p)
      else 0

  -- `quota_percent`
  unfoldable pub percent : ℕ → ℕ → ℕ → ℕ → ℕ
  percent bytes count squota cquota =
      let sp = one_percent bytes squota in
      let cp = one_percent count cquota in if ltb sp cp then cp else sp

  unfoldable pub percent_of : Quota → Option (ℕ × ℕ) → ℕ
  unfolding percent
  percent_of q none = 0
  percent_of q (some (bytes, count)) = percent bytes count q.size q.count

  -- `quota_usage`
  unfoldable pub usage : ℕ → Daemon → Bytes → Bytes → ℕ
  unfolding percent_of mtos get_usage
  usage before d entry quota = percent_of (mtos before quota) (get_usage d entry)

-- `quota_should_warn`: the option is the time of the last warning, if its file is there.
unfoldable pub should_warn : Option ℕ → ℕ → Bool
should_warn none now = false
should_warn (some mtime) now = not (ltb now (mtime + 86400))
