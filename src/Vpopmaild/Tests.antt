-- ===== src/Vpopmaild/Tests.antt =====
-- vpopmaild.c: the theorems at concrete inputs, and runs of the daemon.
use vpopmail.Common.{
  ℕ, ◌≡◌, refl, Bool, true, false, ◌==◌, ◌||◌, ◌&&◌, List, [], ◌∷◌, ◌++◌, Option, none, some, Bytes,
  codes, equal, All, arith, take, drop, map, ap, sym,
}
use vpopmail.Common.Decimal.{read_int, read_sign, read_digits}
use vpopmail.Email.{
  lowerit, lower_from, split_at, parse_email, find_at, parse_halves, is_username_valid,
  is_domain_valid, vset_default_domain,
}
use vpopmail.Vpopmaild.{
  Vqpasswd, DomainEntry, Call, Library, Session, Connection, require, present, on_email, on_call,
  in_domain,
}
use vpopmail.Vpopmaild.Tokens.{strtok, skip_tokens, token_of}
use vpopmail.Vpopmaild.Accounts.{
  named, add_user, del_user, flag_lines, shown_flags, bounds_of, paged,
}
use vpopmail.Vpopmaild.Table.{find_row}
use vpopmail.Vpopmaild.Options.{options, option_line, apply_option, set_flag, mod_user}
use vpopmail.Vpopmaild.Domains.{entry_lines, find_entry}
use vpopmail.Vpopmaild.Lists.{has_part, is_prefix}
use vpopmail.Vpopmaild.Files.{rm_dir, validate_path, below_root}
use vpopmail.Vpopmaild.Commands.{serve, turn, run_command, run_function}
use vpopmail.Vpopmaild.Pages.{each, paged_lem, find_entry-paged}
use vpopmail.Limits.{default_limits}
use vpopmail.Vpopmaild.DomainLimits.{limit_lines, read_limits}
use vpopmail.Vpopmaild.LimitLines.{shown_over, FitsTypes, read_limits-limit_lines}
use vpopmail.Vpopmaild.Flags.{sent, options-flag_lines}
use vpopmail.Vpopmaild.Privileges.{options-reserved}
use vpopmail.Vpopmaild.Authority.{Allowed}
use vpopmail.Vpopmaild.Authority.Sessions.{serve-Allowed}

abbrev no_bits : ℕ → Bool
no_bits i = false

abbrev account : Bytes → (ℕ → Bool) → Vqpasswd
account name gid = record {
  pw_name = name;
  pw_passwd = codes "x";
  pw_gid = gid;
  pw_flags = no_bits;
  pw_gecos = [];
  pw_dir = codes "/d/e.x/" ++ name;
  pw_shell = [];
  pw_clear_passwd = [];
}

-- `root` is a system administrator, `adm` one of the domain.
abbrev rights_of : Bytes → ℕ → Bool
rights_of name i = (equal name (codes "root") && i == 16) || (equal name (codes "adm") && i == 12)

-- Every account exists, with the password `pw`; every call succeeds and changes nothing.
abbrev daemon : Library
daemon = record {
  World = Unit;
  settings = record { environment = none; ip_host = none; configured = [] };
  dir_bin = [];
  dir_etc = [];
  dir_lib = [];
  dir_include = [];
  dir_domains = codes "/d";
  has_uidgid = true;
  has_ip_alias_domains = true;
  has_auth_logging = true;
  getpw = λ user domain w. some (account user (rights_of user));
  crypt = λ user domain pass entry w. equal pass (codes "pw");
  getall = λ domain sort w. account (codes "joe") no_bits ∷ [];
  entries = λ domain w. none;
  get_assign = λ domain w. some (codes "/d/" ++ domain, 89, 89);
  userquota = λ dir w. some (100, 1);
  lastauth = λ user domain w. 0;
  lastauthip = λ user domain w. [];
  aliases = λ alias domain w. [];
  all_aliases = λ domain w. [];
  limits_of = λ domain w. none;
  ip_map = λ ip w. none;
  ip_maps = λ w. [];
  enters = λ dir w. true;
  directory = λ dir w. some [];
  sorted_names = λ dir w. [];
  contents = λ path w. some [];
  owner = λ path w. some 89;
  mkpasswd3 = λ text w. codes "crypted";
  format_maildirquota = λ quota. quota;
  perform = λ call w. (true, w);
}

abbrev session : Bytes → ℕ → Session
session name level = record {
  auth = account name (rights_of name);
  the_user = name;
  the_domain = codes "e.x";
  the_domain_dir = codes "/d/e.x";
  the_user_dir = codes "/d/e.x/" ++ name;
  the_vpopmail_domains = codes "/d";
  logged_in = level;
  output_type = 0;
}

abbrev start : List Bytes → Connection daemon
start lines = record { world = tt; log = []; input = lines; output = [] }

abbrev commands : List Bytes
commands = codes "add_user bob@e.x pw\n" ∷ codes "add_user bob@o.x pw\n" ∷ codes "quit\n" ∷ []

abbrev name_in : Option Vqpasswd → Bytes → Bytes
name_in none other = other
name_in (some pw) other = pw.pw_name

daemon_names :
    (user domain : Bytes) (w : daemon.World) (pw : Vqpasswd)
    → daemon.getpw user domain w ≡ some pw
    → pw.pw_name ≡ user
daemon_names user domain w pw e = ap (λ o. name_in o user) (sym e)

serve-Allowed_example :
    All
      (Allowed (session (codes "adm") 2))
      (serve daemon 3 (session (codes "adm") 2) (start commands)).log
unfolding lowerit lower_from split_at
serve-Allowed_example =
    serve-Allowed daemon (session (codes "adm") 2) 3 (start commands) daemon_names refl tt

abbrev grant : List Bytes
grant = codes "system_admin_privileges 1\n" ∷ codes "domain_admin_privileges 1\n" ∷ codes ".\n" ∷ []

options-flag_lines_example :
    (options daemon
        (session (codes "root") 3)
        (codes "e.x")
        (map sent (flag_lines (λ i. i == 4) shown_flags) ++ (codes ".\n" ∷ []))
        (account (codes "joe") no_bits)
        (start [])).0.pw_gid
      4
    ≡ true
unfolding equal
options-flag_lines_example =
    options-flag_lines daemon (session (codes "root") 3) (codes "e.x") (λ i. i == 4) []
      (account (codes "joe") no_bits) (start []) 4 refl

-- A domain administrator makes joe a domain administrator, and leaves him no system administrator.
granted :
    (options daemon
        (session (codes "adm") 2)
        (codes "e.x")
        grant
        (account (codes "joe") no_bits)
        (start [])).0.pw_gid
      12
    ≡ true
unfolding options option_line strtok skip_tokens token_of equal apply_option set_flag read_int
    read_sign read_digits
granted = refl

options-reserved_example :
    (options daemon
        (session (codes "adm") 2)
        (codes "e.x")
        grant
        (account (codes "joe") no_bits)
        (start [])).0.pw_gid
      16
    ≡ false
unfolding equal
options-reserved_example =
    options-reserved daemon (session (codes "adm") 2) (codes "e.x") grant
      (account (codes "joe") no_bits) (start []) 16 refl refl

abbrev entry : Bytes → DomainEntry
entry name = record { domain = name; realdomain = name; uid = 89; gid = 89; path = [] }

abbrev domains : List DomainEntry
domains = entry (codes "a") ∷ entry (codes "b") ∷ entry (codes "c") ∷ []

paged_lem_example :
    paged (bounds_of 2 2) entry_lines [] 0 domains ≡ each entry_lines (take 2 (drop 2 domains))
paged_lem_example = paged_lem entry_lines 2 2 domains (omega arith) (omega arith) (omega arith)

find_entry-paged_example :
    (real : Bytes) × (front : List Bytes) × (back : List Bytes) × (paged
        (bounds_of 2 2)
        entry_lines
        []
        0
        domains
      ≡ front ++ (named real (codes "c") ∷ back))
unfolding find_entry equal
find_entry-paged_example = find_entry-paged (codes "c") 2 2 domains (omega arith) refl

-- What the daemon calls for the lines of a session.
abbrev calls : Session → List Bytes → List Call
calls s lines = (serve daemon 9 s (start lines)).log

-- In another domain nothing is added.
only_own_domain :
    calls (session (codes "adm") 2) commands
    ≡ Call.vadduser (codes "bob") (codes "e.x") (codes "pw") ∷ []
unfolding serve turn run_command strtok skip_tokens token_of find_row equal run_function add_user
    require present on_email parse_email in_domain on_call lowerit lower_from find_at split_at
    parse_halves is_username_valid is_domain_valid vset_default_domain
only_own_domain = refl

default_limits-FitsTypes : FitsTypes default_limits
default_limits-FitsTypes = record {
  ints = omega arith;
  account = omega arith;
  alias = omega arith;
  forward = omega arith;
  autoresponder = omega arith;
  maillist = omega arith;
  defaultquota = omega arith;
  quota = omega arith;
}

read_limits-limit_lines_example :
    read_limits daemon
      (map sent (limit_lines default_limits) ++ (codes ".\n" ∷ []))
      default_limits
      (start [])
    ≡ (shown_over default_limits default_limits, start [])
read_limits-limit_lines_example =
    read_limits-limit_lines daemon default_limits default_limits [] (start [])
      default_limits-FitsTypes

-- The permissions of the lists' users, shown and sent back, are stored as those of the quota.
users_to_quota :
    shown_over (record default_limits { perm_maillist_users = 1 }) default_limits
    ≡ record default_limits { perm_quota = 8 }
users_to_quota = refl

abbrev new_password : List Bytes
new_password = codes "mod_user root@e.x\n" ∷ codes "encrypted_password secret\n" ∷ codes ".\n" ∷ []

-- A domain administrator sets the password of a system administrator of its domain.
takes_over :
    calls (session (codes "adm") 2) new_password
    ≡ Call.vauth_setpw
        (record (account (codes "root") (rights_of (codes "root"))) { pw_passwd = codes "secret" })
        (codes "e.x")
      ∷ []
unfolding serve turn run_command strtok skip_tokens token_of find_row equal run_function mod_user
    options option_line apply_option require present on_email parse_email on_call lowerit lower_from
    find_at split_at parse_halves is_username_valid is_domain_valid vset_default_domain
takes_over = refl

-- Where `mod_user` is refused, the option lines are read as commands.
abbrev refused_options : List Bytes
refused_options = codes "mod_user joe@o.x\n" ∷ codes "del_user joe@e.x\n" ∷ codes ".\n" ∷ []

runs_options :
    calls (session (codes "adm") 2) refused_options ≡ Call.vdeluser (codes "joe") (codes "e.x") ∷ []
unfolding serve turn run_command strtok skip_tokens token_of find_row equal run_function mod_user
    del_user require present on_email parse_email in_domain on_call lowerit lower_from find_at
    split_at parse_halves is_username_valid is_domain_valid vset_default_domain
runs_options = refl

-- The directory of another user, whose name begins with that of the session's.
other_directory :
    calls (session (codes "joe") 1) (codes "rm_dir /d/e.x/joe2\n" ∷ [])
    ≡ Call.vdelfiles (codes "/d/e.x/joe2") ∷ []
unfolding serve turn run_command strtok skip_tokens token_of find_row equal run_function rm_dir
    validate_path below_root has_part is_prefix require present on_call split_at
other_directory = refl
