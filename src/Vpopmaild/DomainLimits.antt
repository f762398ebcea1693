-- ===== src/Vpopmaild/DomainLimits.antt =====
-- vpopmaild.c: the commands on the limits of a domain. A permission is a `short`, given by its bits in
-- two's complement; the number of an option is taken to fit an `int`, which `atoi` answers with.
use vpopmail.Common.{
  ℕ, ◌-◌, ◌^◌, ltb, not, Bool, List, [], ◌∷◌, Option, none, some, Bytes, codes, equal, ◌==◌,
  if◌then◌else◌, take,
}
use vpopmail.Common.Int.{ℤ, pos, negsuc, low_bits}
use vpopmail.Common.Decimal.{print_int, print_nat, read_int}
use vpopmail.Limits.{Vlimits, quota_bits}
use vpopmail.Vpopmaild.{
  Call, Library, Session, is_sa, error, failed, ok, ok_more, dot, Connection, Answer, require,
  present, noted, on_call, send, send_lines,
}
use vpopmail.Vpopmaild.Tokens.{strtok, tokens, param_tokens}
use vpopmail.Vpopmaild.Accounts.{named}
use vpopmail.Vpopmaild.Options.{is_last}

abbrev pub flag_value : Bool → Bytes
flag_value b = if b then codes "1" else codes "0"

-- The number that the bits of a `short` stand for.
abbrev pub short_value : ℕ → ℤ
short_value n = if ltb n (2 ^ 15) then pos n else negsuc (2 ^ 16 - 1 - n)

-- The lines of `get_limits`, in their order, of which the last one is sent twice. The three permissions
-- that perm_quota is made of are taken to be at least 0.
abbrev pub limit_lines : Vlimits → List Bytes
limit_lines l =
    named (codes "max_popaccounts") (print_int l.maxpopaccounts)
    ∷ named (codes "max_aliases") (print_int l.maxaliases)
    ∷ named (codes "max_forwards") (print_int l.maxforwards)
    ∷ named (codes "max_autoresponders") (print_int l.maxautoresponders)
    ∷ named (codes "max_mailinglists") (print_int l.maxmailinglists)
    ∷ named (codes "disk_quota") (print_int l.diskquota)
    ∷ named (codes "max_msgcount") (print_int l.maxmsgcount)
    ∷ named (codes "default_quota") (print_int l.defaultquota)
    ∷ named (codes "default_maxmsgcount") (print_int l.defaultmaxmsgcount)
    ∷ named (codes "disable_pop") (flag_value l.disable_pop)
    ∷ named (codes "disable_imap") (flag_value l.disable_imap)
    ∷ named (codes "disable_dialup") (flag_value l.disable_dialup)
    ∷ named (codes "disable_password_changing") (flag_value l.disable_passwordchanging)
    ∷ named (codes "disable_webmail") (flag_value l.disable_webmail)
    ∷ named (codes "disable_external_relay") (flag_value l.disable_relay)
    ∷ named (codes "disable_smtp") (flag_value l.disable_smtp)
    ∷ named (codes "disable_spamassassin") (flag_value l.disable_spamassassin)
    ∷ named (codes "delete_spam") (flag_value l.delete_spam)
    ∷ named (codes "disable_maildrop") (flag_value l.disable_maildrop)
    ∷ named (codes "perm_account") (print_int (short_value l.perm_account))
    ∷ named (codes "perm_alias") (print_int (short_value l.perm_alias))
    ∷ named (codes "perm_forward") (print_int (short_value l.perm_forward))
    ∷ named (codes "perm_autoresponder") (print_int (short_value l.perm_autoresponder))
    ∷ named (codes "perm_maillist") (print_int (short_value l.perm_maillist))
    ∷ named (codes "perm_quota") (print_nat (quota_bits l))
    ∷ named (codes "perm_defaultquota") (print_int (short_value l.perm_defaultquota))
    ∷ named (codes "perm_defaultquota") (print_int (short_value l.perm_defaultquota))
    ∷ []

-- The bits of the `short` that a number is stored in, and whether it is not 0.
abbrev pub to_short : ℤ → ℕ
to_short = low_bits 16

abbrev pub is_set : ℤ → Bool
is_set z = not (to_short z == 0)

-- The tests of `set_limits` on the names, in their order.
abbrev pub limit_options : List (Bytes × (ℤ → Vlimits → Vlimits))
limit_options =
    (codes "max_popaccounts", λ z l. record l { maxpopaccounts = z })
    ∷ (codes "max_aliases", λ z l. record l { maxaliases = z })
    ∷ (codes "max_forwards", λ z l. record l { maxforwards = z })
    ∷ (codes "max_autoresponders", λ z l. record l { maxautoresponders = z })
    ∷ (codes "max_mailinglists", λ z l. record l { maxmailinglists = z })
    ∷ (codes "disk_quota", λ z l. record l { diskquota = z })
    ∷ (codes "max_msgcount", λ z l. record l { maxmsgcount = z })
    ∷ (codes "default_quota", λ z l. record l { defaultquota = z })
    ∷ (codes "default_maxmsgcount", λ z l. record l { defaultmaxmsgcount = z })
    ∷ (codes "disable_pop", λ z l. record l { disable_pop = is_set z })
    ∷ (codes "disable_imap", λ z l. record l { disable_imap = is_set z })
    ∷ (codes "disable_dialup", λ z l. record l { disable_dialup = is_set z })
    ∷ (codes "disable_password_changing", λ z l. record l { disable_passwordchanging = is_set z })
    ∷ (codes "disable_webmail", λ z l. record l { disable_webmail = is_set z })
    ∷ (codes "disable_external_relay", λ z l. record l { disable_relay = is_set z })
    ∷ (codes "disable_smtp", λ z l. record l { disable_smtp = is_set z })
    ∷ (codes "disable_spamassassin", λ z l. record l { disable_spamassassin = is_set z })
    ∷ (codes "delete_spam", λ z l. record l { delete_spam = is_set z })
    ∷ (codes "disable_maildrop", λ z l. record l { disable_maildrop = is_set z })
    ∷ (codes "perm_account", λ z l. record l { perm_account = to_short z })
    ∷ (codes "perm_alias", λ z l. record l { perm_alias = to_short z })
    ∷ (codes "perm_forward", λ z l. record l { perm_forward = to_short z })
    ∷ (codes "perm_autoresponder", λ z l. record l { perm_autoresponder = to_short z })
    ∷ (codes "perm_maillist", λ z l. record l { perm_maillist = to_short z })
    ∷ (codes "perm_maillist_users", λ z l. record l { perm_maillist_users = to_short z })
    ∷ (codes "perm_maillist_moderators", λ z l. record l { perm_maillist_moderators = to_short z })
    ∷ (codes "perm_quota", λ z l. record l { perm_quota = to_short z })
    ∷ (codes "perm_defaultquota", λ z l. record l { perm_defaultquota = to_short z })
    ∷ []

-- The new limits, and whether there was such an option.
unfoldable pub set_limit :
    List (Bytes × (ℤ → Vlimits → Vlimits)) → Bytes → Bytes → Vlimits → Vlimits × List Bytes
unfolding equal
set_limit [] param value l = (l, codes "  Warning: invalid option" ∷ [])
set_limit ((name, set) ∷ rows) param value l =
    let later = set_limit rows param value l in
    if equal param name then (set (read_int value) l, []) else later

abbrev pub on_value : Bytes → Option (Bytes × Bytes) → Vlimits → Vlimits × List Bytes
on_value param none l = (l, codes "  Warning: missing value" ∷ [])
on_value param (some (value, _)) l = set_limit limit_options param value l

abbrev pub on_param : Option (Bytes × Bytes) → Vlimits → Vlimits × List Bytes
on_param none l = (l, [])
on_param (some (param, rest)) l = on_value param (strtok param_tokens rest) l

-- One line: the new limits, and the warning.
unfoldable pub limit_line : Bytes → Vlimits → Vlimits × List Bytes
unfolding strtok set_limit
limit_line s l = on_param (strtok param_tokens s) l

module _ (L : Library) where
  -- The loop over the option lines, up to one that begins with a dot.
  unfoldable pub read_limits : List Bytes → Vlimits → Connection L → Vlimits × Connection L
  unfolding limit_line
  read_limits [] l c = (l, record c { input = [] })
  read_limits (s ∷ ss) l c =
      let (l', warning) = limit_line s l in
      let rest = read_limits ss l' (send_lines L warning c) in
      if is_last s then (l, record c { input = ss }) else rest

  unfoldable pub get_limits : Session → Bytes → Connection L → Answer L
  get_limits s rest c = require L (is_sa s) (error 9 3401) c (
      present L (strtok tokens rest) (error 13 3402) c (λ (domain, _).
        let d = noted L (Call.vget_limits domain) c in
        present L (L.limits_of domain c.world) (error 34 3403) d
          (λ l. (dot, send_lines L (limit_lines l) (send L ok_more d)))))

  unfoldable pub set_limits : Session → Bytes → Connection L → Answer L
  set_limits s rest c = require L (is_sa s) (error 9 3501) c (
      present L (strtok tokens rest) (error 13 3502) c (λ (param, _).
        let domain = take 155 param in
        let d = noted L (Call.vget_limits domain) c in
        present L (L.limits_of domain c.world) (error 34 3505) d (λ l.
          let (l', e) = read_limits d.input l (send L ok d) in
          on_call L (Call.vset_limits domain l') e (error 35 3504) (λ f. (ok, f)))))

  unfoldable pub del_limits : Session → Bytes → Connection L → Answer L
  del_limits s rest c = require L (is_sa s) (error 9 3601) c (
      present L (strtok tokens rest) (error 13 3602) c
        (λ (domain, _). on_call L (Call.vdel_limits domain) c (failed 3603) (λ d. (ok, d))))
