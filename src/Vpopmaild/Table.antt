-- ===== src/Vpopmaild/Table.antt =====
-- vpopmaild.c: the tables of commands. A function of the tables is named by a constructor.
use vpopmail.Common.{
  ℕ, Bool, true, false, ◌&&◌, List, [], ◌∷◌, Option, none, some, Bytes, codes, leb, equal,
  if◌then◌else◌, map,
}
use vpopmail.Email.{to_lower}

pub data Function : Type 0 where
  no_function log_in leave show_help show_login_help add_user del_user user_info : Function
  get_lastauth get_user_size get_domain_size user_count list_users add_alias : Function
  remove_alias delete_alias list_alias mod_user add_domain add_alias_domain : Function
  del_domain dom_info list_domains find_domain domain_count get_ip_map add_ip_map : Function
  del_ip_map show_ip_map get_limits set_limits del_limits list_lists mk_dir rm_dir : Function
  list_dir rename_file rm_file write_file read_file stat_file add_list del_list : Function
  mod_list : Function

-- `func_t`
pub record Row : Type 0 where
  pub level : ℕ
  pub command : Bytes
  pub func : Function
  pub help_text : Option Bytes

abbrev row : ℕ → Bytes → Function → Option Bytes → Row
row l c f h = record { level = l; command = c; func = f; help_text = h }

-- `LoginFunctions`; there the level is the output type.
abbrev pub login_functions : List Row
login_functions =
    (row 0 (codes "Login") Function.no_function none)
    ∷ (row 0 (codes "login") Function.log_in
        (some (codes "login user@domain password - expanded bitmaps")))
    ∷ (row 1 (codes "clogin") Function.log_in
        (some (codes "login user@domain password - compact bitmapts")))
    ∷ (row 2 (codes "slogin") Function.log_in
        (some (codes "login user@domain password - silent results")))
    ∷ (row 0 (codes "Utility") Function.no_function none)
    ∷ (row 0 (codes "help") Function.show_login_help (some (codes "help")))
    ∷ (row 0 (codes "exit") Function.leave (some (codes "quit")))
    ∷ (row 0 (codes "quit") Function.leave (some (codes "quit")))
    ∷ (row 0 (codes "q") Function.leave (some (codes "quit")))
    ∷ []

-- `Functions`
abbrev pub functions : List Row
functions =
    (row 2 (codes "Domain") Function.no_function none)
    ∷ (row 2 (codes "user_info") Function.user_info (some (codes "user_domain<crlf>")))
    ∷ (row 3 (codes "list_domains") Function.list_domains (some (codes "[page per_page]<crlf>")))
    ∷ (row 3 (codes "find_domain") Function.find_domain (some (codes "domain [per-page]<crlf>")))
    ∷ (row 3 (codes "domain_count") Function.domain_count (some (codes "<crlf>")))
    ∷ (row 3 (codes "add_alias_domain") Function.add_alias_domain
        (some (codes "domain alias<crlf>")))
    ∷ (row 3 (codes "add_domain") Function.add_domain
        (some (codes "domain postmaster-password<crlf>")))
    ∷ (row 3 (codes "del_domain") Function.del_domain (some (codes "domain<crlf>")))
    ∷ (row 3 (codes "dom_info") Function.dom_info (some (codes "domain<crlf>")))
    ∷ (row 2 (codes "get_limits") Function.get_limits (some (codes "domain<crlf>")))
    ∷ (row 3 (codes "set_limits") Function.set_limits
        (some (codes "domain (option lines)<crlf>.<crlf>")))
    ∷ (row 3 (codes "del_limits") Function.del_limits (some (codes "domain<crlf>")))
    ∷ (row 2 (codes "get_domain_size") Function.get_domain_size (some (codes "domain<crlf>")))
    ∷ (row 1 (codes "User") Function.no_function none)
    ∷ (row 2 (codes "add_user") Function.add_user (some (codes "user@domain password<crlf>")))
    ∷ (row 2 (codes "del_user") Function.del_user (some (codes "user@domain<crlf>")))
    ∷ (row 2 (codes "user_count") Function.user_count (some (codes "domain <crlf>")))
    ∷ (row 2 (codes "list_users") Function.list_users (some (codes "domain [page per_page]<crlf>")))
    ∷ (row 2 (codes "list_users") Function.list_users (some (codes "domain<crlf>")))
    ∷ (row 2 (codes "list_lists") Function.list_lists (some (codes "domain<crlf>")))
    ∷ (row 1 (codes "mod_user") Function.mod_user
        (some (codes "user@domain (option lines)<crlf>.<crlf>")))
    ∷ (row 1 (codes "get_lastauth") Function.get_lastauth (some (codes "user@domain<crlf>")))
    ∷ (row 1 (codes "get_user_size") Function.get_user_size (some (codes "user@domain<crlf>")))
    ∷ (row 2 (codes "Alias") Function.no_function none)
    ∷ (row 2 (codes "add_alias") Function.add_alias
        (some (codes "user@domain user@otherdomain<crlf>")))
    ∷ (row 2 (codes "delete_alias") Function.delete_alias (some (codes "user@domain<crlf>")))
    ∷ (row 2 (codes "list_alias") Function.list_alias (some (codes "domain<crlf>")))
    ∷ (row 2 (codes "remove_alias") Function.remove_alias
        (some (codes "user@domain user@otherdomain<crlf>")))
    ∷ (row 1 (codes "File System") Function.no_function none)
    ∷ (row 1 (codes "mk_dir") Function.mk_dir (some (codes "/full/path/to/dir<crlf>")))
    ∷ (row 1 (codes "rm_dir") Function.rm_dir (some (codes "/full/path/to/dir<crlf>")))
    ∷ (row 1 (codes "list_dir") Function.list_dir (some (codes "/full/path/to/dir<crlf>")))
    ∷ (row 1 (codes "rm_file") Function.rm_file (some (codes "/full/path/to/file<crlf>")))
    ∷ (row 1 (codes "rename_file") Function.rename_file (some (codes "/full/path/to/file<crlf>")))
    ∷ (row 1 (codes "write_file") Function.write_file
        (some (codes "/full/path (data lines)<crlf>.<crlf>")))
    ∷ (row 1 (codes "read_file") Function.read_file (some (codes "/full/path<crlf>")))
    ∷ (row 1 (codes "stat_file") Function.stat_file (some (codes "/full/path<crlf>")))
    ∷ (row 1 (codes "IP Map") Function.no_function none)
    ∷ (row 1 (codes "get_ip_map") Function.get_ip_map (some (codes "domain<crlf>")))
    ∷ (row 3 (codes "add_ip_map") Function.add_ip_map (some (codes "ip domain<crlf>")))
    ∷ (row 3 (codes "del_ip_map") Function.del_ip_map (some (codes "ip domain<crlf>")))
    ∷ (row 3 (codes "show_ip_map") Function.show_ip_map (some (codes "domain<crlf>")))
    ∷ (row 2 (codes "Mailing List") Function.no_function none)
    ∷ (row 2 (codes "add_list") Function.add_list
        (some (codes "domain listname (command line options)<crlf>")))
    ∷ (row 2 (codes "del_list") Function.del_list (some (codes "domain listname<crlf>")))
    ∷ (row 2 (codes "mod_list") Function.mod_list
        (some (codes "domain listname (command line options)<crlf>")))
    ∷ (row 0 (codes "Utility") Function.no_function none)
    ∷ (row 0 (codes "exit") Function.leave (some (codes "quit")))
    ∷ (row 0 (codes "quit") Function.leave (some (codes "quit")))
    ∷ (row 0 (codes "q") Function.leave (some (codes "quit")))
    ∷ (row 0 (codes "help") Function.show_help (some (codes "help")))
    ∷ []

-- `strcasecmp(a, b) == 0`
abbrev pub same_word : Bytes → Bytes → Bool
same_word a b = equal (map to_lower a) (map to_lower b)

abbrev pub is_function : Function → Bool
is_function Function.no_function = false
is_function _ = true

-- The first row whose command it is and which the level allows.
unfoldable pub find_row : ℕ → List Row → Bytes → Option Row
unfolding equal
find_row logged_in [] command = none
find_row logged_in (r ∷ rows) command =
    let rest = find_row logged_in rows command in
    if same_word r.command command && is_function r.func && leb r.level logged_in
    then some r
    else rest
