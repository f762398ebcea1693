-- ===== src/Vpopmaild.antt =====
-- vpopmaild.c: the administration daemon, a protocol of lines over the other parts of vpopmail, which
-- it calls. What it calls is the parameter `Library`: what the calls read is a function of the world,
-- and those that change it go through `perform`. `Connection` is the world, the calls made so far, the
-- lines on the standard input as `fgets` gives them, and what was written, each with the newest first.
pub mod Tokens
pub mod Accounts
pub mod Aliases
pub mod Options
pub mod Domains
pub mod DomainLimits
pub mod Lists
pub mod Files
pub mod Table
pub mod Commands
pub mod Login
pub mod Pages
pub mod Authority
pub mod Privileges
pub mod Flags
pub mod LimitLines
mod Tests
use vpopmail.Common.{
  ℕ, Bool, true, false, not, ◌&&◌, ◌||◌, List, [], ◌∷◌, Option, none, some, Bytes, equal,
}
use vpopmail.Email.{Settings, Parsed, parse_email}
use vpopmail.Limits.{Vlimits}

-- The bits of `pw_gid` and `pw_flags` are given by their places.
pub record Vqpasswd : Type 0 where
  pub pw_name : Bytes
  pub pw_passwd : Bytes
  pub pw_gid : ℕ → Bool
  pub pw_flags : ℕ → Bool
  pub pw_gecos : Bytes
  pub pw_dir : Bytes
  pub pw_shell : Bytes
  pub pw_clear_passwd : Bytes

-- `domain_entry`
pub record DomainEntry : Type 0 where
  pub domain : Bytes
  pub realdomain : Bytes
  pub uid : ℕ
  pub gid : ℕ
  pub path : Bytes

-- What is logged of a session: the calls that change or show something, by the function that is called,
-- and `use_account` for an account whose directory is taken from an address in front of a path. Those
-- that read an account carry its user and domain. Looking up an account with `vauth_getpw` or a domain
-- with `vget_assign`, and checking a password, is not logged.
pub data Call : Type 0 where
  vadduser : Bytes → Bytes → Bytes → Call
  vdeluser : Bytes → Bytes → Call
  vauth_setpw : Vqpasswd → Bytes → Call
  update_maildirsize : Bytes → Bytes → Bytes → Call
  send_info : Bytes → Bytes → Call
  vget_lastauth : Bytes → Bytes → Call
  readuserquota : Bytes → Bytes → Call
  vauth_getall : Bytes → Call
  scan_lists : Bytes → Call
  valias_insert : Bytes → Bytes → Bytes → Call
  valias_remove : Bytes → Bytes → Bytes → Call
  valias_delete : Bytes → Bytes → Call
  valias_select : Bytes → Bytes → Call
  valias_select_all : Bytes → Call
  vadddomain : Bytes → Call
  vdeldomain : Bytes → Call
  vaddaliasdomain : Bytes → Bytes → Call
  domain_entries : Bytes → Call
  vget_limits : Bytes → Call
  vset_limits : Bytes → Vlimits → Call
  vdel_limits : Bytes → Call
  vget_ip_map : Bytes → Call
  vadd_ip_map : Bytes → Bytes → Call
  vdel_ip_map : Bytes → Bytes → Call
  vshow_ip_map : Call
  use_account : Bytes → Bytes → Call
  mkdir : Bytes → Call
  chown : Bytes → Call
  vdelfiles : Bytes → Call
  opendir : Bytes → Call
  move : Bytes → Bytes → Call
  remove_file : Bytes → Call
  write_contents : Bytes → List Bytes → Call
  read_contents : Bytes → Call
  get_stat : Bytes → Call

pub record Library : Type 1 where
  pub World : Type 0
  pub settings : Settings
  -- VPOPMAIL_DIR_BIN, ETC, LIB, INCLUDE and DOMAINS
  pub dir_bin : Bytes
  pub dir_etc : Bytes
  pub dir_lib : Bytes
  pub dir_include : Bytes
  pub dir_domains : Bytes
  -- whether `vpopmail_uidgid` succeeds, and the features of the module that is loaded
  pub has_uidgid : Bool
  pub has_ip_alias_domains : Bool
  pub has_auth_logging : Bool
  -- `vauth_getpw`, and whether `vauth_crypt` accepts a password
  pub getpw : Bytes → Bytes → World → Option Vqpasswd
  pub crypt : Bytes → Bytes → Bytes → Vqpasswd → World → Bool
  -- the results of the walks with `vauth_getall` (sorted or not) and `get_domain_entries`, which has
  -- none where the file cannot be opened
  pub getall : Bytes → Bool → World → List Vqpasswd
  pub entries : Bytes → World → Option (List DomainEntry)
  -- `vget_assign`: the directory of a domain with its ids
  pub get_assign : Bytes → World → Option (Bytes × ℕ × ℕ)
  pub userquota : Bytes → World → Option (ℕ × ℕ)
  pub lastauth : Bytes → Bytes → World → ℕ
  pub lastauthip : Bytes → Bytes → World → Bytes
  -- the walks with `valias_select` and `valias_select_all`
  pub aliases : Bytes → Bytes → World → List Bytes
  pub all_aliases : Bytes → World → List (Bytes × Bytes)
  pub limits_of : Bytes → World → Option Vlimits
  pub ip_map : Bytes → World → Option Bytes
  pub ip_maps : World → List (Bytes × Bytes)
  -- whether `chdir` succeeds, and the entries of a directory with what `lstat` says of them; it is
  -- taken to succeed
  pub enters : Bytes → World → Bool
  pub directory : Bytes → World → Option (List (Bytes × Bytes))
  -- the names of a directory in the order of `qa_sort`, with the first line of those that open
  pub sorted_names : Bytes → World → List (Bytes × Option Bytes)
  pub contents : Bytes → World → Option (List Bytes)
  pub owner : Bytes → World → Option ℕ
  pub mkpasswd3 : Bytes → World → Bytes
  pub format_maildirquota : Bytes → Bytes
  -- whether a call succeeds, and what it makes of the world
  pub perform : Call → World → Bool × World

abbrev pub qa_admin : ℕ
qa_admin = 12

abbrev pub v_override : ℕ
v_override = 13

abbrev pub sa_admin : ℕ
sa_admin = 16

-- What `login` leaves in the global variables; `auth` is `AuthVpw`.
pub record Session : Type 0 where
  pub auth : Vqpasswd
  pub the_user : Bytes
  pub the_domain : Bytes
  pub the_domain_dir : Bytes
  pub the_user_dir : Bytes
  pub the_vpopmail_domains : Bytes
  pub logged_in : ℕ
  pub output_type : ℕ

abbrev pub is_sa : Session → Bool
is_sa s = s.auth.pw_gid sa_admin

abbrev pub is_qa : Session → Bool
is_qa s = s.auth.pw_gid qa_admin

-- What stands in `WriteBuf`: `show_error(major, minor)`, the text of a library's error under a
-- number, RET_OK, RET_OK_MORE, a line without its RET_CRLF, or a text as it is.
pub data Reply : Type 0 where
  error : ℕ → ℕ → Reply
  failed : ℕ → Reply
  ok : Reply
  ok_more : Reply
  line : Bytes → Reply
  text : Bytes → Reply

-- Both kinds of administrators.
abbrev pub is_admin : Session → Bool
is_admin s = is_qa s || is_sa s

-- The rejection is `!SA && QA && strcmp(TheDomain, domain) != 0`.
unfoldable pub in_domain : Session → Bytes → Bool
in_domain s domain = is_sa s || not (is_qa s) || equal s.the_domain domain

abbrev pub auth_size : ℕ
auth_size = 156

abbrev pub dot : Reply
dot = line (b'.' ∷ [])

module _ (L : Library) where
  pub record Connection : Type 0 where
    pub world : L.World
    pub log : List Call
    pub input : List Bytes
    pub output : List Reply

  abbrev pub Answer : Type 0
  Answer = Reply × Connection

  -- A guard of a handler.
  unfoldable pub require : Bool → Reply → Connection → Answer → Answer
  require true e c k = k
  require false e c k = (e, c)

  -- A pointer that may be NULL, with the reply where it is.
  unfoldable pub present : {A : Type 0} → Option A → Reply → Connection → (A → Answer) → Answer
  present none e c k = (e, c)
  present (some a) e c k = k a

  -- `parse_email`, with the reply where it fails.
  unfoldable pub on_email : Bytes → ℕ → Reply → Connection → (Bytes → Bytes → Answer) → Answer
  on_email email size e c k =
      let p = parse_email L.settings email size in require p.success e c (k p.user p.domain)

  -- A call that reads, and one that may fail, with the reply where it does.
  abbrev pub noted : Call → Connection → Connection
  noted call c = record c { log = call ∷ c.log }

  abbrev pub called : Call → Connection → Bool × Connection
  called call c =
      let (success, w) = L.perform call c.world in
      (success, record c { world = w; log = call ∷ c.log })

  unfoldable pub on_call : Call → Connection → Reply → (Connection → Answer) → Answer
  on_call call c e k = let (success, d) = called call c in require success e d (k d)

  -- `wait_write`
  abbrev pub send : Reply → Connection → Connection
  send r c = record c { output = r ∷ c.output }

  unfoldable pub send_lines : List Bytes → Connection → Connection
  send_lines [] c = c
  send_lines (l ∷ ls) c = send_lines ls (send (line l) c)
