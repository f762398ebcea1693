-- ===== src/Vpopmaild/LimitLines.antt =====
-- vpopmaild.c: the lines in which `get_limits` shows the limits, sent back as options of `set_limits`.
use vpopmail.Common.{
  ℕ, suc, ◌<◌, ◌^◌, ◌≡◌, ◌≢◌, ◌∙◌, refl, ap, sym, append-nil, Bool, true, false, List, [], ◌∷◌,
  ◌++◌, some, Bytes, codes, if◌then◌else◌, arith, All, map, equal,
}
use vpopmail.Common.Int.{ℤ, pos, negsuc}
use vpopmail.Common.Decimal.{
  print_int, print_nat, read_int, read_int-print_int, read_int-print_nat, print_nat-All,
  print_nat-ne-nil, IsDigit,
}
use vpopmail.Limits.{Vlimits, quota_bits, max_table}
use vpopmail.Limits.RoundTrip.{Ints}
use vpopmail.Vpopmaild.{Library, Connection, send_lines}
use vpopmail.Vpopmaild.Tokens.{strtok, skip_tokens, token_of, param_tokens}
use vpopmail.Vpopmaild.Accounts.{named}
use vpopmail.Vpopmaild.Options.{is_last}
use vpopmail.Vpopmaild.DomainLimits.{
  flag_value, is_set, to_short, short_value, limit_lines, limit_options, set_limit, on_value,
  on_param, limit_line, read_limits,
}
use vpopmail.Vpopmaild.Flags.{sent}

-- What a line of `get_limits` shows: a name, a value, and the change of the limits by the option.
abbrev Row : Type 0
Row = Bytes × Bytes × (Vlimits → Vlimits)

abbrev rows : Vlimits → List Row
rows l =
    (
      codes "max_popaccounts",
      print_int l.maxpopaccounts,
      λ m. record m { maxpopaccounts = l.maxpopaccounts },
    )
    ∷ (codes "max_aliases", print_int l.maxaliases, λ m. record m { maxaliases = l.maxaliases })
    ∷ (codes "max_forwards", print_int l.maxforwards, λ m. record m { maxforwards = l.maxforwards })
    ∷ (
      codes "max_autoresponders",
      print_int l.maxautoresponders,
      λ m. record m { maxautoresponders = l.maxautoresponders },
    )
    ∷ (
      codes "max_mailinglists",
      print_int l.maxmailinglists,
      λ m. record m { maxmailinglists = l.maxmailinglists },
    )
    ∷ (codes "disk_quota", print_int l.diskquota, λ m. record m { diskquota = l.diskquota })
    ∷ (codes "max_msgcount", print_int l.maxmsgcount, λ m. record m { maxmsgcount = l.maxmsgcount })
    ∷ (
      codes "default_quota",
      print_int l.defaultquota,
      λ m. record m { defaultquota = l.defaultquota },
    )
    ∷ (
      codes "default_maxmsgcount",
      print_int l.defaultmaxmsgcount,
      λ m. record m { defaultmaxmsgcount = l.defaultmaxmsgcount },
    )
    ∷ (codes "disable_pop", flag_value l.disable_pop, λ m. record m { disable_pop = l.disable_pop })
    ∷ (
      codes "disable_imap",
      flag_value l.disable_imap,
      λ m. record m { disable_imap = l.disable_imap },
    )
    ∷ (
      codes "disable_dialup",
      flag_value l.disable_dialup,
      λ m. record m { disable_dialup = l.disable_dialup },
    )
    ∷ (
      codes "disable_password_changing",
      flag_value l.disable_passwordchanging,
      λ m. record m { disable_passwordchanging = l.disable_passwordchanging },
    )
    ∷ (
      codes "disable_webmail",
      flag_value l.disable_webmail,
      λ m. record m { disable_webmail = l.disable_webmail },
    )
    ∷ (
      codes "disable_external_relay",
      flag_value l.disable_relay,
      λ m. record m { disable_relay = l.disable_relay },
    )
    ∷ (
      codes "disable_smtp",
      flag_value l.disable_smtp,
      λ m. record m { disable_smtp = l.disable_smtp },
    )
    ∷ (
      codes "disable_spamassassin",
      flag_value l.disable_spamassassin,
      λ m. record m { disable_spamassassin = l.disable_spamassassin },
    )
    ∷ (codes "delete_spam", flag_value l.delete_spam, λ m. record m { delete_spam = l.delete_spam })
    ∷ (
      codes "disable_maildrop",
      flag_value l.disable_maildrop,
      λ m. record m { disable_maildrop = l.disable_maildrop },
    )
    ∷ (
      codes "perm_account",
      print_int (short_value l.perm_account),
      λ m. record m { perm_account = l.perm_account },
    )
    ∷ (
      codes "perm_alias",
      print_int (short_value l.perm_alias),
      λ m. record m { perm_alias = l.perm_alias },
    )
    ∷ (
      codes "perm_forward",
      print_int (short_value l.perm_forward),
      λ m. record m { perm_forward = l.perm_forward },
    )
    ∷ (
      codes "perm_autoresponder",
      print_int (short_value l.perm_autoresponder),
      λ m. record m { perm_autoresponder = l.perm_autoresponder },
    )
    ∷ (
      codes "perm_maillist",
      print_int (short_value l.perm_maillist),
      λ m. record m { perm_maillist = l.perm_maillist },
    )
    ∷ (codes "perm_quota", print_nat (quota_bits l), λ m. record m { perm_quota = quota_bits l })
    ∷ (
      codes "perm_defaultquota",
      print_int (short_value l.perm_defaultquota),
      λ m. record m { perm_defaultquota = l.perm_defaultquota },
    )
    ∷ (
      codes "perm_defaultquota",
      print_int (short_value l.perm_defaultquota),
      λ m. record m { perm_defaultquota = l.perm_defaultquota },
    )
    ∷ []

abbrev crlf : Bytes
crlf = b'\r' ∷ b'\n' ∷ []

-- The words of a line, and that it is no last one.
abbrev Words : Row → Type 0
Words (name, value, f) =
    (strtok param_tokens (sent (named name value)) ≡ some (name, value ++ crlf))
    × (is_last (sent (named name value)) ≡ false)

rows-Words : (l : Vlimits) → All Words (rows l)
unfolding strtok
rows-Words l = ground arith

read_shown_int : (z : ℤ) → read_int (print_int z) ≡ z
read_shown_int z = ap read_int (sym (append-nil (print_int z))) ∙ read_int-print_int z [] tt

read_shown_nat : (n : ℕ) → n < 2 ^ 15 → to_short (read_int (print_nat n)) ≡ n
read_shown_nat n h =
    ap to_short (ap read_int (sym (append-nil (print_nat n))) ∙ read_int-print_nat n [] tt)
    ∙ omega (arith, h)

read_shown_flag : (b : Bool) → is_set (read_int (flag_value b)) ≡ b
unfolding read_int
read_shown_flag true = refl
read_shown_flag false = refl

-- The limits are values of their types: the permissions are the bits of a `short`, and what perm_quota
-- shows fits one.
pub record FitsTypes (l : Vlimits) : Type 0 where
  pub ints : Ints (max_table l)
  pub account : l.perm_account < 2 ^ 16
  pub alias : l.perm_alias < 2 ^ 16
  pub forward : l.perm_forward < 2 ^ 16
  pub autoresponder : l.perm_autoresponder < 2 ^ 16
  pub maillist : l.perm_maillist < 2 ^ 16
  pub defaultquota : l.perm_defaultquota < 2 ^ 16
  pub quota : quota_bits l < 2 ^ 15

abbrev Sets : Vlimits → Row → Type 0
Sets m (name, value, f) = set_limit limit_options name value m ≡ (f m, [])

rows-Sets : (l m : Vlimits) → FitsTypes l → All (Sets m) (rows l)
unfolding set_limit equal
rows-Sets l m h =
    simp (read_shown_int, read_shown_flag, read_shown_nat (quota_bits l) h.quota) (ground arith)

-- A character that ends no word.
abbrev IsWord : ℕ → Type 0
IsWord c = param_tokens c ≡ false

token_of-text : (v : Bytes) → All IsWord v → token_of param_tokens (v ++ crlf) ≡ (v, b'\n' ∷ [])
unfolding token_of
token_of-text [] h = refl
token_of-text (c ∷ cs) (h, hs) = ground (arith, token_of-text cs hs)

-- A value is one word.
abbrev IsValue : Bytes → Type 0
IsValue v = strtok param_tokens (v ++ crlf) ≡ some (v, b'\n' ∷ [])

strtok-text : (c : ℕ) (cs : Bytes) → All IsWord (c ∷ cs) → IsValue (c ∷ cs)
unfolding strtok skip_tokens
strtok-text c cs (h, hs) = ground (arith, token_of-text (c ∷ cs) (h, hs))

digits-IsWord : (v : Bytes) → All IsDigit v → All IsWord v
digits-IsWord [] h = tt
digits-IsWord (c ∷ cs) (h, hs) = (ground arith, digits-IsWord cs hs)

text-IsValue : (v : Bytes) → All IsWord v → v ≢ [] → IsValue v
text-IsValue [] h k = absurd (k refl)
text-IsValue (c ∷ cs) h k = strtok-text c cs h

nat-IsValue : (n : ℕ) → IsValue (print_nat n)
nat-IsValue n =
    text-IsValue (print_nat n) (digits-IsWord (print_nat n) (print_nat-All n)) (print_nat-ne-nil n)

int-IsValue : (z : ℤ) → IsValue (print_int z)
unfolding print_int
int-IsValue (pos n) = nat-IsValue n
int-IsValue (negsuc n) =
    strtok-text b'-' (print_nat (suc n))
      (ground arith, digits-IsWord (print_nat (suc n)) (print_nat-All (suc n)))

flag-IsValue : (b : Bool) → IsValue (flag_value b)
unfolding strtok
flag-IsValue true = refl
flag-IsValue false = refl

abbrev HasValue : Row → Type 0
HasValue (name, value, f) = IsValue value

rows-HasValue : (l : Vlimits) → All HasValue (rows l)
rows-HasValue l = search (int-IsValue, nat-IsValue, flag-IsValue)

abbrev line_of : Row → Bytes
line_of (name, value, f) = sent (named name value)

abbrev changed : List Row → Vlimits → Vlimits
changed [] m = m
changed ((name, value, f) ∷ rs) m = changed rs (f m)

module _ (L : Library) where
  line_of-limits :
      (name value : Bytes) (f : Vlimits → Vlimits) (m : Vlimits)
      → Words (name, value, f)
      → HasValue (name, value, f)
      → Sets m (name, value, f)
      → limit_line (sent (named name value)) m ≡ (f m, [])
  unfolding limit_line
  line_of-limits name value f m (w, last) v s =
      ap (λ o. on_param o m) w ∙ ap (λ o. on_value name o m) v ∙ s

  no_warning : (c : Connection L) → send_lines L [] c ≡ c
  unfolding send_lines
  no_warning c = refl

  read_limits-rows :
      (rs : List Row) (more : List Bytes) (m : Vlimits) (c : Connection L)
      → All Words rs
      → All HasValue rs
      → ((k : Vlimits) → All (Sets k) rs)
      → read_limits L (map line_of rs ++ ((b'.' ∷ b'\n' ∷ []) ∷ more)) m c
        ≡ (changed rs m, record c { input = more })
  unfolding read_limits
  read_limits-rows [] more m c w v s = refl
  read_limits-rows ((name, value, f) ∷ rs) more m c (w, ws) (v, vs) s =
      let lines = map line_of rs ++ ((b'.' ∷ b'\n' ∷ []) ∷ more) in
      let one = limit_line (sent (named name value)) m in
      ap
        (λ (stop : Bool).
          if stop
          then (m, record c { input = lines })
          else read_limits L lines one.0 (send_lines L one.1 c))
        w.1
      ∙ ap (λ (r : Vlimits × List Bytes). read_limits L lines r.0 (send_lines L r.1 c))
          (line_of-limits name value f m w v (s m).0)
      ∙ ap (read_limits L lines (f m)) (no_warning c)
      ∙ read_limits-rows rs more (f m) c ws vs (λ k. (s k).1)

-- The limits that the lines give: those shown, and the others as they were.
abbrev pub shown_over : Vlimits → Vlimits → Vlimits
shown_over l m = record l {
  perm_quota = quota_bits l;
  perm_maillist_users = m.perm_maillist_users;
  perm_maillist_moderators = m.perm_maillist_moderators;
}

-- The lines in which `get_limits` shows the limits of a domain, sent as the options of `set_limits` with
-- a line `.` behind them, are read as these limits, with two exceptions: perm_quota becomes the value
-- that was shown, which has the permissions for the users and moderators of lists above its own bits,
-- and these two permissions stay as they were before. The limits are values of their types, and the
-- value that is shown for perm_quota fits a `short`.
pub read_limits-limit_lines :
    (L : Library) (l m : Vlimits) (more : List Bytes) (c : Connection L)
    → FitsTypes l
    → read_limits L (map sent (limit_lines l) ++ ((b'.' ∷ b'\n' ∷ []) ∷ more)) m c
      ≡ (shown_over l m, record c { input = more })
read_limits-limit_lines L l m more c h =
    read_limits-rows L (rows l) more m c (rows-Words l) (rows-HasValue l) (λ k. rows-Sets l k h)
