-- ===== src/Email.antt =====
-- vpopmail.c: mail addresses, taken apart and put together.
-- A C string is the list of its bytes up to its end. The host's settings that give the default domain
-- are in `Settings`.
pub mod Chars
pub mod RoundTrip
pub mod Results
mod Tests
use vpopmail.Common.{
  ℕ, zero, suc, ◌+◌, ◌-◌, Bool, true, false, not, ◌&&◌, ◌||◌, List, [], ◌∷◌, ◌++◌, Option, none,
  some, Bytes, codes, ◌==◌, leb, within, if◌then◌else◌, take, length,
}

abbrev pub to_lower : ℕ → ℕ
to_lower c = if within b'A' b'Z' c then c + 32 else c

-- The loop of `lowerit`: at the character of index 156 the string is cut.
unfoldable pub lower_from : ℕ → Bytes → Bytes
lower_from size [] = []
lower_from size (c ∷ cs) =
    let rest = lower_from (suc size) cs in if size == 156 then [] else to_lower c ∷ rest

-- `lowerit`
unfoldable pub lowerit : Bytes → Bytes
unfolding lower_from
lowerit s = lower_from 0 s

abbrev pub is_user_char : ℕ → Bool
is_user_char c =
    c == 33
    || c == 35
    || c == 36
    || c == 38
    || c == 39
    || c == 42
    || c == 43
    || within 45 57 c
    || c == 61
    || c == 63
    || within 65 90 c
    || within 94 126 c

-- `is_username_valid`, with `true` for the answer 0.
unfoldable pub is_username_valid : Bytes → Bool
is_username_valid [] = true
is_username_valid (c ∷ cs) = is_user_char c && is_username_valid cs

abbrev pub is_domain_char : ℕ → Bool
is_domain_char c = c == 45 || c == 46 || within 48 57 c || within 65 90 c || within 97 122 c

-- `is_domain_valid`
unfoldable pub is_domain_valid : Bytes → Bool
is_domain_valid [] = true
is_domain_valid (c ∷ cs) = is_domain_char c && is_domain_valid cs

abbrev pub is_empty : Bytes → Bool
is_empty [] = true
is_empty (c ∷ cs) = false

-- What gives a default domain: VPOPMAIL_DOMAIN, the host that `vget_ip_map` finds for TCPLOCALIP (if
-- the feature IP_ALIAS_DOMAINS is on, the call succeeds and the host is not in control/locals), and
-- the configured domain.
pub record Settings : Type 0 where
  pub environment : Option Bytes
  pub ip_host : Option Bytes
  pub configured : Bytes

abbrev pub is_ok_env_char : ℕ → Bool
is_ok_env_char c =
    within b'a' b'z' c
    || within b'A' b'Z' c
    || within b'0' b'9' c
    || c == b'_'
    || c == b'-'
    || c == b'.'
    || c == b'@'

abbrev clean : Bytes → Bytes
clean [] = []
clean (c ∷ cs) = (if is_ok_env_char c then c else b'_') ∷ clean cs

abbrev from_ip : Settings → Option Bytes → Bytes
from_ip settings none = take 96 settings.configured
from_ip settings (some host) = take 96 host

abbrev from_environment : Settings → Option Bytes → Bytes
from_environment settings none = from_ip settings settings.ip_host
from_environment settings (some text) = take 96 (clean text)

-- `vset_default_domain`; MAX_PW_DOMAIN is 96.
unfoldable pub vset_default_domain : Settings → Bytes → Bytes
vset_default_domain settings [] = from_environment settings settings.environment
vset_default_domain settings (c ∷ cs) = c ∷ cs

abbrev pub from_ip_safe : ℕ → Option Bytes → Bytes
from_ip_safe dlen none = []
from_ip_safe dlen (some host) = take dlen host

-- Here the answer for the address is kept only where no domain is configured, and is written with one
-- byte more than the others. Its copy has the length of the buffer and its end stands one byte behind,
-- also where the configured domain then replaces it: what this overrun destroys is not modelled.
abbrev pub configured_safe : Settings → ℕ → Bytes
configured_safe settings dlen =
    if is_empty settings.configured
    then from_ip_safe dlen settings.ip_host
    else take (dlen - 1) settings.configured

abbrev pub from_environment_safe : Settings → ℕ → Option Bytes → Bytes
from_environment_safe settings dlen none = configured_safe settings dlen
from_environment_safe settings dlen (some []) = configured_safe settings dlen
from_environment_safe settings dlen (some (c ∷ cs)) = take (dlen - 1) (c ∷ cs)

-- `vset_default_domain_safe`
unfoldable pub vset_default_domain_safe : Settings → Bytes → ℕ → Bytes
vset_default_domain_safe settings domain zero = domain
vset_default_domain_safe settings [] (suc n) =
    from_environment_safe settings (suc n) settings.environment
vset_default_domain_safe settings (c ∷ cs) (suc n) = c ∷ cs

-- The text in front of the first `mark`, and that behind it if there is one.
pub record Halves : Type 0 where
  pub front : Bytes
  pub back : Option Bytes

unfoldable pub split_at : ℕ → Bytes → Halves
split_at mark [] = record { front = []; back = none }
split_at mark (c ∷ cs) =
    let rest = split_at mark cs in
    if c == mark
    then record { front = []; back = some cs }
    else record rest { front = c ∷ rest.front }

-- ATCHARS, in their order: the first of them that occurs at all.
unfoldable pub find_at : Bytes → Bytes → Halves
unfolding split_at
find_at [] email = record { front = email; back = none }
find_at (mark ∷ marks) email =
    chosen (split_at mark email).back (split_at mark email) (find_at marks email)
  where
    chosen : Option Bytes → Halves → Halves → Halves
    chosen none here later = later
    chosen (some _) here later = here

-- What a parser leaves in the buffers, and whether it succeeds.
pub record Parsed : Type 0 where
  pub success : Bool
  pub user : Bytes
  pub domain : Bytes

-- `snprintf(user, n, "%s", email)` with `n = at - email + 1`, at most `buff_size`.
unfoldable pub parse_halves : ℕ → Halves → Parsed
parse_halves buff_size h = record {
  success = true;
  user = take (buff_size - 1) h.front;
  domain = domain_part h.back;
}
  where
    domain_part : Option Bytes → Bytes
    domain_part none = []
    domain_part (some d) = take (buff_size - 1) d

-- `parse_email`, for a buffer size of at least 1; `email` itself is left in lower case.
unfoldable pub parse_email : Settings → Bytes → ℕ → Parsed
unfolding lowerit find_at parse_halves
parse_email settings email buff_size =
    let p = parse_halves buff_size (find_at (codes "@%/") (lowerit email)) in
    if is_username_valid p.user && is_domain_valid p.domain
    then record p { domain = vset_default_domain settings p.domain }
    else record p { success = false }

abbrev domain_from : Settings → Bytes → ℕ → Option Bytes → Bytes
domain_from settings domain dlen none = vset_default_domain_safe settings domain dlen
domain_from settings domain dlen (some d) = take (dlen - 1) d

-- The half of `parse_email_safe` for the domain; a `dlen` of 0 stands for no buffer.
unfoldable pub parse_domain : Settings → ℕ → Option Bytes → Parsed → Parsed
parse_domain settings zero back p = p
parse_domain settings (suc n) back p =
    let d = lowerit (domain_from settings p.domain (suc n) back) in
    record p { success = is_domain_valid d; domain = d }

-- The half for the user, and then the other.
unfoldable pub parse_user : Settings → ℕ → ℕ → Halves → Parsed → Parsed
unfolding parse_domain
parse_user settings zero dlen h p = parse_domain settings dlen h.back p
parse_user settings (suc n) dlen h p =
    let u = lowerit (take n h.front) in
    if is_username_valid u
    then parse_domain settings dlen h.back (record p { user = u })
    else record p { success = false; user = u }

-- `parse_email_safe`; `user` and `domain` are what the buffers hold at first.
unfoldable pub parse_email_safe : Settings → Bytes → Bytes → ℕ → Bytes → ℕ → Parsed
unfolding parse_user split_at
parse_email_safe settings [] user ulen domain dlen = record {
  success = false;
  user = user;
  domain = domain;
}
parse_email_safe settings (c ∷ cs) user ulen domain dlen =
    parse_user settings ulen dlen (split_at b'@' (c ∷ cs))
      (record { success = true; user = user; domain = domain })

abbrev address : ℕ → Bytes → Bytes → Option Bytes
address elen user domain =
    if leb elen (length user + length domain + 1) then none else some (user ++ (b'@' ∷ domain))

abbrev with_default : ℕ → Bytes → Bytes → Option Bytes
with_default elen user [] = none
with_default elen user (c ∷ cs) = address elen user (c ∷ cs)

-- `user_domain_to_email`: the address, whose length is the answer, or `none` for the answer 0.
unfoldable pub user_domain_to_email : Settings → Bytes → Bytes → ℕ → Option Bytes
user_domain_to_email settings [] domain elen = none
user_domain_to_email settings (u ∷ us) [] elen =
    with_default elen (u ∷ us) (vset_default_domain_safe settings [] 256)
user_domain_to_email settings (u ∷ us) (d ∷ ds) elen = address elen (u ∷ us) (d ∷ ds)
