-- ===== src/Limits.antt =====
-- vlimits.h and vlimits.c: the limits of a domain, and the file that keeps them.
-- `struct vlimits` has its `int` members as integers, its flags, which are 0 or 1, as Booleans, and
-- its permission masks, which are never negative, as numbers. What `atoi` makes of a number that no
-- `int` can hold is not defined in C; here it is that number.
pub mod Line
pub mod Reader
pub mod Written
pub mod Mask
pub mod Store
pub mod RoundTrip
mod Tests
use vpopmail.Common.{
  ℕ, ◌+◌, Bool, false, true, List, [], ◌∷◌, ◌++◌, Bytes, codes, if◌then◌else◌, map,
}
use vpopmail.Common.Int.{ℤ, pos, negsuc}
use vpopmail.Common.Decimal.{print_int, print_nat}
use Prim.Native.Nat.{◌*◌, ◌^◌, bit_or}

pub record Vlimits : Type 0 where
  pub maxpopaccounts : ℤ
  pub maxaliases : ℤ
  pub maxforwards : ℤ
  pub maxautoresponders : ℤ
  pub maxmailinglists : ℤ
  pub diskquota : ℤ
  pub maxmsgcount : ℤ
  pub defaultquota : ℤ
  pub defaultmaxmsgcount : ℤ
  pub disable_pop : Bool
  pub disable_imap : Bool
  pub disable_dialup : Bool
  pub disable_passwordchanging : Bool
  pub disable_webmail : Bool
  pub disable_relay : Bool
  pub disable_smtp : Bool
  pub disable_spamassassin : Bool
  pub delete_spam : Bool
  pub disable_maildrop : Bool
  pub perm_account : ℕ
  pub perm_alias : ℕ
  pub perm_forward : ℕ
  pub perm_autoresponder : ℕ
  pub perm_maillist : ℕ
  pub perm_maillist_users : ℕ
  pub perm_maillist_moderators : ℕ
  pub perm_quota : ℕ
  pub perm_defaultquota : ℕ

-- `vdefault_limits`
abbrev pub default_limits : Vlimits
default_limits = record {
  maxpopaccounts = negsuc 0;
  maxaliases = negsuc 0;
  maxforwards = negsuc 0;
  maxautoresponders = negsuc 0;
  maxmailinglists = negsuc 0;
  diskquota = pos 0;
  maxmsgcount = pos 0;
  defaultquota = pos 0;
  defaultmaxmsgcount = pos 0;
  disable_pop = false;
  disable_imap = false;
  disable_dialup = false;
  disable_passwordchanging = false;
  disable_webmail = false;
  disable_relay = false;
  disable_smtp = false;
  disable_spamassassin = false;
  delete_spam = false;
  disable_maildrop = false;
  perm_account = 0;
  perm_alias = 0;
  perm_forward = 0;
  perm_autoresponder = 0;
  perm_maillist = 0;
  perm_maillist_users = 0;
  perm_maillist_moderators = 0;
  perm_quota = 0;
  perm_defaultquota = 0;
}

-- `fprintf(fs, "name: %d\n", value)`, without the newline.
abbrev pub setting : Bytes → Bytes → Bytes
setting name value = name ++ (b':' ∷ b' ' ∷ value)

abbrev pub int_lines : List (Bytes × ℤ) → List Bytes
int_lines [] = []
int_lines ((name, z) ∷ t) = setting name (print_int z) ∷ int_lines t

abbrev pub perm_lines : List (Bytes × ℕ) → List Bytes
perm_lines [] = []
perm_lines ((name, n) ∷ t) = setting name (print_nat n) ∷ perm_lines t

-- `if (flag) fprintf(fs, "name\n")`
abbrev pub flag_line : Bytes → Bool → List Bytes
flag_line name b = if b then name ∷ [] else []

abbrev pub flag_lines : List (Bytes × Bool) → List Bytes
flag_lines [] = []
flag_lines ((name, b) ∷ t) = flag_line name b ++ flag_lines t

-- The names and values in the order of the `fprintf` calls.
abbrev pub max_table : Vlimits → List (Bytes × ℤ)
max_table l =
    (codes "maxpopaccounts", l.maxpopaccounts)
    ∷ (codes "maxaliases", l.maxaliases)
    ∷ (codes "maxforwards", l.maxforwards)
    ∷ (codes "maxautoresponders", l.maxautoresponders)
    ∷ (codes "maxmailinglists", l.maxmailinglists)
    ∷ (codes "quota", l.diskquota)
    ∷ (codes "maxmsgcount", l.maxmsgcount)
    ∷ (codes "default_quota", l.defaultquota)
    ∷ (codes "default_maxmsgcount", l.defaultmaxmsgcount)
    ∷ []

abbrev pub flag_table : Vlimits → List (Bytes × Bool)
flag_table l =
    (codes "disable_pop", l.disable_pop)
    ∷ (codes "disable_imap", l.disable_imap)
    ∷ (codes "disable_dialup", l.disable_dialup)
    ∷ (codes "disable_password_changing", l.disable_passwordchanging)
    ∷ (codes "disable_webmail", l.disable_webmail)
    ∷ (codes "disable_external_relay", l.disable_relay)
    ∷ (codes "disable_smtp", l.disable_smtp)
    ∷ (codes "disable_spamassassin", l.disable_spamassassin)
    ∷ (codes "delete_spam", l.delete_spam)
    ∷ (codes "disable_maildrop", l.disable_maildrop)
    ∷ []

-- The value that `perm_quota` is written with: it carries the permissions of the lists' users and
-- moderators above its own three bits.
abbrev pub quota_bits : Vlimits → ℕ
quota_bits l =
    bit_or (bit_or l.perm_quota (l.perm_maillist_users * 2 ^ 3))
      (l.perm_maillist_moderators * 2 ^ (3 * 2))

abbrev pub perm_table : Vlimits → List (Bytes × ℕ)
perm_table l =
    (codes "perm_account", l.perm_account)
    ∷ (codes "perm_alias", l.perm_alias)
    ∷ (codes "perm_forward", l.perm_forward)
    ∷ (codes "perm_autoresponder", l.perm_autoresponder)
    ∷ (codes "perm_maillist", l.perm_maillist)
    ∷ (codes "perm_quota", quota_bits l)
    ∷ (codes "perm_defaultquota", l.perm_defaultquota)
    ∷ []

abbrev pub written_lines : Vlimits → List Bytes
written_lines l =
    int_lines (max_table l) ++ (flag_lines (flag_table l) ++ perm_lines (perm_table l))

-- Each line with its newline.
unfoldable pub unlines : List Bytes → Bytes
unlines [] = []
unlines (l ∷ ls) = l ++ (b'\n' ∷ unlines ls)

-- `vlimits_write_limits_file`: what the file holds after it is written.
unfoldable pub write_limits_file : Vlimits → Bytes
unfolding unlines
write_limits_file l = unlines (written_lines l)
