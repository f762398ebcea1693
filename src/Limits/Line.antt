-- ===== src/Limits/Line.antt =====
-- vlimits.c, `vlimits_read_limits_file`: what one line of the file does to the limits.
use vpopmail.Common.{
  ℕ, ◌/◌, ◌%◌, ◌^◌, Bool, true, ◌||◌, [], ◌∷◌, Option, none, some, Bytes, codes, ◌==◌,
  if◌then◌else◌, equal,
}
use vpopmail.Common.Int.{ℤ, to_u64, low_bits, clamp64}
use vpopmail.Common.Decimal.{read_int}
use vpopmail.Limits.{Vlimits}

abbrev pub is_separator : ℕ → Bool
is_separator c = c == b' ' || c == b'\t' || c == b':'

-- The name ends at the first separator. `none` stands for `s2 = NULL`.
unfoldable pub split_name : Bytes → Bytes × Option Bytes
split_name [] = ([], none)
split_name (c ∷ cs) =
    let (name, rest) = split_name cs in if is_separator c then ([], some cs) else (c ∷ name, rest)

unfoldable pub skip_separators : Bytes → Bytes
skip_separators [] = []
skip_separators (c ∷ cs) = if is_separator c then skip_separators cs else c ∷ cs

-- `if (s2) limits->... = atoi(s2)`, over the update as a function of the number.
abbrev on_value : Option Bytes → (ℤ → Vlimits) → Vlimits → Vlimits
on_value none set l = l
on_value (some s2) set l = set (read_int s2)

-- `& VLIMIT_DISABLE_ALL`
abbrev perm_bits : ℤ → ℕ
perm_bits = low_bits 3

-- The chain that begins with `maxpopaccounts`.
unfoldable pub apply_max : Bytes → Option Bytes → Vlimits → Vlimits
unfolding equal
apply_max s1 s2 l =
    if equal s1 (codes "maxpopaccounts")
    then on_value s2 (λ n. record l { maxpopaccounts = n }) l
    else if equal s1 (codes "maxaliases")
    then on_value s2 (λ n. record l { maxaliases = n }) l
    else if equal s1 (codes "maxforwards")
    then on_value s2 (λ n. record l { maxforwards = n }) l
    else if equal s1 (codes "maxautoresponders")
    then on_value s2 (λ n. record l { maxautoresponders = n }) l
    else if equal s1 (codes "maxmailinglists")
    then on_value s2 (λ n. record l { maxmailinglists = n }) l
    else if equal s1 (codes "quota")
    then on_value s2 (λ n. record l { diskquota = n }) l
    else if equal s1 (codes "maxmsgcount")
    then on_value s2 (λ n. record l { maxmsgcount = n }) l
    else l

-- `perm_maillist` holds three masks, from the lowest bits up.
abbrev maillist_perms : ℕ → Vlimits → Vlimits
maillist_perms perm l = record l {
  perm_maillist = perm % 2 ^ 3;
  perm_maillist_users = perm / 2 ^ 3 % 2 ^ 3;
  perm_maillist_moderators = perm / 2 ^ 3 / 2 ^ 3 % 2 ^ 3;
}

-- The permissions at the end of the second chain.
unfoldable pub apply_perm : Bytes → Option Bytes → Vlimits → Vlimits
unfolding equal
apply_perm s1 s2 l =
    if equal s1 (codes "perm_account")
    then on_value s2 (λ n. record l { perm_account = perm_bits n }) l
    else if equal s1 (codes "perm_alias")
    then on_value s2 (λ n. record l { perm_alias = perm_bits n }) l
    else if equal s1 (codes "perm_forward")
    then on_value s2 (λ n. record l { perm_forward = perm_bits n }) l
    else if equal s1 (codes "perm_autoresponder")
    then on_value s2 (λ n. record l { perm_autoresponder = perm_bits n }) l
    else if equal s1 (codes "perm_maillist")
    then on_value s2 (λ n. maillist_perms (to_u64 (clamp64 n)) l) l
    else if equal s1 (codes "perm_quota")
    then on_value s2 (λ n. record l { perm_quota = perm_bits n }) l
    else if equal s1 (codes "perm_defaultquota")
    then on_value s2 (λ n. record l { perm_defaultquota = perm_bits n }) l
    else l

-- The chain that begins with `default_quota`.
unfoldable pub apply_default : Bytes → Option Bytes → Vlimits → Vlimits
unfolding equal apply_perm
apply_default s1 s2 l =
    if equal s1 (codes "default_quota")
    then on_value s2 (λ n. record l { defaultquota = n }) l
    else if equal s1 (codes "default_maxmsgcount")
    then on_value s2 (λ n. record l { defaultmaxmsgcount = n }) l
    else if equal s1 (codes "disable_pop")
    then record l { disable_pop = true }
    else if equal s1 (codes "disable_imap")
    then record l { disable_imap = true }
    else if equal s1 (codes "disable_dialup")
    then record l { disable_dialup = true }
    else if equal s1 (codes "disable_password_changing")
    then record l { disable_passwordchanging = true }
    else if equal s1 (codes "disable_external_relay")
    then record l { disable_relay = true }
    else if equal s1 (codes "disable_smtp")
    then record l { disable_smtp = true }
    else if equal s1 (codes "disable_webmail")
    then record l { disable_webmail = true }
    else if equal s1 (codes "disable_spamassassin")
    then record l { disable_spamassassin = true }
    else if equal s1 (codes "delete_spam")
    then record l { delete_spam = true }
    else if equal s1 (codes "disable_maildrop")
    then record l { disable_maildrop = true }
    else apply_perm s1 s2 l

-- Both chains run on each name.
abbrev pub apply_setting : Bytes → Option Bytes → Vlimits → Vlimits
apply_setting s1 s2 l = apply_default s1 s2 (apply_max s1 s2 l)

skip_value : Option Bytes → Option Bytes
unfolding skip_separators
skip_value none = none
skip_value (some s2) = some (skip_separators s2)

-- `if ((*t) && (*t != '#'))` and its body.
unfoldable pub parse_line : Bytes → Vlimits → Vlimits
unfolding split_name skip_separators skip_value apply_max apply_default
parse_line [] l = l
parse_line (c ∷ cs) l =
    let (s1, s2) = split_name (c ∷ cs) in
    if c == b'#' then l else apply_setting s1 (skip_value s2) l
