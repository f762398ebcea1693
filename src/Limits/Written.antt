-- ===== src/Limits/Written.antt =====
-- vlimits.c: the lines that `vlimits_write_limits_file` writes, read one after another.
use vpopmail.Common.{
  ℕ, ◌+◌, ◌%◌, ◌/◌, ◌^◌, ◌*◌, ◌<◌, ◌≡◌, refl, ◌∙◌, ap, Bool, true, false, ◌||◌, List, [], ◌∷◌, ◌++◌,
  Bytes, codes, arith, append-nil, ◌==◌, all_below, all_below_sound, ==_iff,
}
use Prim.Native.Nat.{bit_or}
use vpopmail.Common.Int.{ℤ, pos, negsuc, to_u64, clamp64}
use vpopmail.Common.Decimal.{
  read_int, print_int, print_nat, read_int-print_int, print_nat-head, is_digit,
}
use vpopmail.Limits.{
  Vlimits, default_limits, max_table, flag_table, perm_table, int_lines, perm_lines, flag_line,
  flag_lines, written_lines,
}
use vpopmail.Limits.Line.{parse_line, skip_separators}

-- The effect of a list of lines.
unfoldable pub read_lines : List Bytes → Vlimits → Vlimits
read_lines [] l = l
read_lines (s ∷ ss) l = read_lines ss (parse_line s l)

read_lines-append :
    (xs ys : List Bytes) (l : Vlimits) → read_lines (xs ++ ys) l ≡ read_lines ys (read_lines xs l)
unfolding read_lines
read_lines-append [] ys l = refl
read_lines-append (x ∷ xs) ys l = read_lines-append xs ys (parse_line x l)

read_lines-nil : (l : Vlimits) → read_lines [] l ≡ l
unfolding read_lines
read_lines-nil l = refl

skip_digit : (c : ℕ) (cs : Bytes) → is_digit c ≡ true → skip_separators (c ∷ cs) ≡ c ∷ cs
unfolding skip_separators
skip_digit c cs h = ground arith

skip-print_nat : (n : ℕ) → skip_separators (print_nat n) ≡ print_nat n
skip-print_nat n = let (c, cs, e, d) = print_nat-head n in rw e (skip_digit c cs d)

skip-print_int : (z : ℤ) → skip_separators (print_int z) ≡ print_int z
unfolding print_int skip_separators
skip-print_int (pos n) = skip-print_nat n
skip-print_int (negsuc n) = refl

read_value : (z : ℤ) → read_int (skip_separators (print_int z)) ≡ z
read_value z = rw (skip-print_int z, ← append-nil (print_int z)) (read_int-print_int z [] tt)

read_limit_lines :
    (w l : Vlimits)
    → read_lines (int_lines (max_table w)) l ≡ record l {
      maxpopaccounts = w.maxpopaccounts;
      maxaliases = w.maxaliases;
      maxforwards = w.maxforwards;
      maxautoresponders = w.maxautoresponders;
      maxmailinglists = w.maxmailinglists;
      diskquota = w.diskquota;
      maxmsgcount = w.maxmsgcount;
      defaultquota = w.defaultquota;
      defaultmaxmsgcount = w.defaultmaxmsgcount;
    }
unfolding read_lines parse_line
read_limit_lines w l = simp read_value

-- A flag's line sets the flag, and a flag that is clear has no line.
read_pop :
    (b : Bool) (l : Vlimits)
    → read_lines (flag_line (codes "disable_pop") b) l
      ≡ record l { disable_pop = b || l.disable_pop }
unfolding read_lines parse_line
read_pop true l = refl
read_pop false l = refl

read_imap :
    (b : Bool) (l : Vlimits)
    → read_lines (flag_line (codes "disable_imap") b) l
      ≡ record l { disable_imap = b || l.disable_imap }
unfolding read_lines parse_line
read_imap true l = refl
read_imap false l = refl

read_dialup :
    (b : Bool) (l : Vlimits)
    → read_lines (flag_line (codes "disable_dialup") b) l
      ≡ record l { disable_dialup = b || l.disable_dialup }
unfolding read_lines parse_line
read_dialup true l = refl
read_dialup false l = refl

read_password :
    (b : Bool) (l : Vlimits)
    → read_lines (flag_line (codes "disable_password_changing") b) l
      ≡ record l { disable_passwordchanging = b || l.disable_passwordchanging }
unfolding read_lines parse_line
read_password true l = refl
read_password false l = refl

read_webmail :
    (b : Bool) (l : Vlimits)
    → read_lines (flag_line (codes "disable_webmail") b) l
      ≡ record l { disable_webmail = b || l.disable_webmail }
unfolding read_lines parse_line
read_webmail true l = refl
read_webmail false l = refl

read_relay :
    (b : Bool) (l : Vlimits)
    → read_lines (flag_line (codes "disable_external_relay") b) l
      ≡ record l { disable_relay = b || l.disable_relay }
unfolding read_lines parse_line
read_relay true l = refl
read_relay false l = refl

read_smtp :
    (b : Bool) (l : Vlimits)
    → read_lines (flag_line (codes "disable_smtp") b) l
      ≡ record l { disable_smtp = b || l.disable_smtp }
unfolding read_lines parse_line
read_smtp true l = refl
read_smtp false l = refl

read_spamassassin :
    (b : Bool) (l : Vlimits)
    → read_lines (flag_line (codes "disable_spamassassin") b) l
      ≡ record l { disable_spamassassin = b || l.disable_spamassassin }
unfolding read_lines parse_line
read_spamassassin true l = refl
read_spamassassin false l = refl

read_delete_spam :
    (b : Bool) (l : Vlimits)
    → read_lines (flag_line (codes "delete_spam") b) l
      ≡ record l { delete_spam = b || l.delete_spam }
unfolding read_lines parse_line
read_delete_spam true l = refl
read_delete_spam false l = refl

read_maildrop :
    (b : Bool) (l : Vlimits)
    → read_lines (flag_line (codes "disable_maildrop") b) l
      ≡ record l { disable_maildrop = b || l.disable_maildrop }
unfolding read_lines parse_line
read_maildrop true l = refl
read_maildrop false l = refl

ruleset flag_rules = (
  read_pop, read_imap, read_dialup, read_password, read_webmail, read_relay, read_smtp,
  read_spamassassin, read_delete_spam, read_maildrop,
)

read_flag_lines :
    (w l : Vlimits)
    → read_lines (flag_lines (flag_table w)) l ≡ record l {
      disable_pop = w.disable_pop || l.disable_pop;
      disable_imap = w.disable_imap || l.disable_imap;
      disable_dialup = w.disable_dialup || l.disable_dialup;
      disable_passwordchanging = w.disable_passwordchanging || l.disable_passwordchanging;
      disable_webmail = w.disable_webmail || l.disable_webmail;
      disable_relay = w.disable_relay || l.disable_relay;
      disable_smtp = w.disable_smtp || l.disable_smtp;
      disable_spamassassin = w.disable_spamassassin || l.disable_spamassassin;
      delete_spam = w.delete_spam || l.delete_spam;
      disable_maildrop = w.disable_maildrop || l.disable_maildrop;
    }
read_flag_lines w l = simp (read_lines-append, flag_rules, read_lines-nil)

-- Every permission is a mask of three bits.
pub record IsMasked (w : Vlimits) : Type 0 where
  pub perm_account_lt : w.perm_account < 8
  pub perm_alias_lt : w.perm_alias < 8
  pub perm_forward_lt : w.perm_forward < 8
  pub perm_autoresponder_lt : w.perm_autoresponder < 8
  pub perm_maillist_lt : w.perm_maillist < 8
  pub perm_maillist_users_lt : w.perm_maillist_users < 8
  pub perm_maillist_moderators_lt : w.perm_maillist_moderators < 8
  pub perm_quota_lt : w.perm_quota < 8
  pub perm_defaultquota_lt : w.perm_defaultquota < 8

read_perm : (n : ℕ) → read_int (skip_separators (print_nat n)) ≡ pos n
unfolding print_int
read_perm n = read_value (pos n)

mask_lem : (n : ℕ) → n < 8 → n % 2 ^ 64 % 2 ^ 3 ≡ n
mask_lem n h = omega arith

-- Over all masks, the low three bits of the combined value are those of the quota.
abbrev quota_ok : ℕ → Bool
quota_ok k =
    bit_or (bit_or (k % 8) (k / 8 % 8 * 2 ^ 3)) (k / 64 * 2 ^ (3 * 2)) % 2 ^ 64 % 2 ^ 3 == k % 8

quota_table : all_below 512 quota_ok ≡ true
unfolding all_below
quota_table = refl

quota_lem :
    (q u m : ℕ)
    → q < 8
    → u < 8
    → m < 8
    → bit_or (bit_or q (u * 2 ^ 3)) (m * 2 ^ (3 * 2)) % 2 ^ 64 % 2 ^ 3 ≡ q
quota_lem q u m hq hu hm =
    let k = m * 64 + u * 8 + q in
    let eq : k % 8 ≡ q = omega arith in
    let eu : k / 8 % 8 ≡ u = omega arith in
    let em : k / 64 ≡ m = omega arith in
    rw (eq, eu, em) at ((==_iff _ _).0 (all_below_sound 512 quota_ok k quota_table (omega arith)))

maillist_lem : (n : ℕ) → n < 8 → to_u64 (clamp64 (pos n)) ≡ n
maillist_lem n h = ground arith

high_lem : (n : ℕ) → n < 8 → n / 2 ^ 3 % 2 ^ 3 ≡ 0
high_lem n h = omega arith

read_perm_lines :
    (w l : Vlimits)
    → IsMasked w
    → read_lines (perm_lines (perm_table w)) l ≡ record l {
      perm_account = w.perm_account;
      perm_alias = w.perm_alias;
      perm_forward = w.perm_forward;
      perm_autoresponder = w.perm_autoresponder;
      perm_maillist = w.perm_maillist;
      perm_maillist_users = 0;
      perm_maillist_moderators = 0;
      perm_quota = w.perm_quota;
      perm_defaultquota = w.perm_defaultquota;
    }
unfolding read_lines parse_line
read_perm_lines w l m = simp read_perm (
    ground (
      arith,
      quota_lem w.perm_quota w.perm_maillist_users w.perm_maillist_moderators m.perm_quota_lt
          m.perm_maillist_users_lt m.perm_maillist_moderators_lt,
    ))

-- What reading the written lines makes of limits with no flag set.
abbrev pub forgotten : Vlimits → Vlimits
forgotten w = record w { perm_maillist_users = 0; perm_maillist_moderators = 0 }

or-false : (b : Bool) → (b || false) ≡ b
or-false true = refl
or-false false = refl

pub read_lines-written_lines :
    (w : Vlimits) → IsMasked w → read_lines (written_lines w) default_limits ≡ forgotten w
read_lines-written_lines w m =
    read_lines-append (int_lines (max_table w))
      (flag_lines (flag_table w) ++ perm_lines (perm_table w)) default_limits
    ∙ ap (read_lines (flag_lines (flag_table w) ++ perm_lines (perm_table w)))
        (read_limit_lines w default_limits)
    ∙ read_lines-append (flag_lines (flag_table w)) (perm_lines (perm_table w)) _
    ∙ ap (read_lines (perm_lines (perm_table w))) (read_flag_lines w _)
    ∙ read_perm_lines w _ m
    ∙ simp or-false
