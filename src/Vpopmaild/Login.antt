-- ===== src/Vpopmaild/Login.antt =====
-- vpopmaild.c: `login`, and the loop that waits for it.
use vpopmail.Common.{
  ℕ, zero, suc, ◌+◌, Bool, true, false, ◌||◌, List, [], ◌∷◌, ◌++◌, Option, none, some, Bytes, codes,
  ltb, equal, if◌then◌else◌, take,
}
use vpopmail.Common.Decimal.{print_nat}
use vpopmail.Email.{parse_email}
use vpopmail.Vpopmaild.{
  Vqpasswd, Call, noted, Library, Session, Reply, error, ok, ok_more, dot, auth_size, qa_admin,
  sa_admin, Connection, Answer, send, send_lines,
}
use vpopmail.Vpopmaild.Tokens.{strtok, tokens, pass_tokens}
use vpopmail.Vpopmaild.Accounts.{named, send_user_info}
use vpopmail.Vpopmaild.Options.{with_bit}
use vpopmail.Vpopmaild.Table.{Row, Function, find_row, login_functions}
use vpopmail.Vpopmaild.Commands.{send_help}

-- The directory of the domain; glibc writes "(null)" for the pointer NULL.
abbrev dir_of : Option (Bytes × ℕ × ℕ) → Bytes
dir_of none = codes "(null)"
dir_of (some (dir, _, _)) = dir

abbrev ids_of : Option (Bytes × ℕ × ℕ) → List Bytes
ids_of none = []
ids_of (some (dir, uid, gid)) =
    named (codes "uid") (print_nat uid) ∷ named (codes "gid") (print_nat gid) ∷ []

abbrev pub is_domain_admin : Vqpasswd → Bool
is_domain_admin pw = pw.pw_gid qa_admin || equal (codes "postmaster") pw.pw_name

-- The level, and the rights of an account that is a postmaster's.
abbrev pub level_of : Vqpasswd → ℕ
level_of pw = if pw.pw_gid sa_admin then 3 else if is_domain_admin pw then 2 else 1

abbrev pub with_rights : Vqpasswd → Vqpasswd
with_rights pw =
    if pw.pw_gid sa_admin
    then pw
    else if is_domain_admin pw
    then record pw { pw_gid = with_bit qa_admin true pw.pw_gid }
    else pw

abbrev pub is_login : Function → Bool
is_login Function.log_in = true
is_login _ = false

abbrev pub is_help : Function → Bool
is_help Function.show_login_help = true
is_help _ = false

-- The value that `login` returns: 0, -1 or -2.
pub data LoginStatus : Type 0 where
  accepted : Session → LoginStatus
  missing : LoginStatus
  invalid : LoginStatus

module _ (L : Library) where
  -- The session of an account that is let in. The directory of a domain administrator's domain is
  -- copied again, without a bound; it is taken to fit.
  abbrev pub session_of : ℕ → Bytes → Bytes → Vqpasswd → Connection L → Session
  session_of output_type user domain pw c = record {
    auth = with_rights pw;
    the_user = user;
    the_domain = domain;
    the_domain_dir = take 255 (dir_of (L.get_assign domain c.world));
    the_user_dir = take 255 pw.pw_dir;
    the_vpopmail_domains = take 255 L.dir_domains;
    logged_in = level_of pw;
    output_type = output_type;
  }

  -- Without a directory for the domain, `uid` and `gid` are not set; their lines are left out then.
  unfoldable pub welcome : Session → Connection L → Answer L
  welcome s c =
      if ltb s.output_type 2
      then (
        dot,
        send_lines L
            (named (codes "vpopmail_dir_bin") L.dir_bin
              ∷ named (codes "vpopmail_dir_etc") L.dir_etc
              ∷ named (codes "vpopmail_dir_lib") L.dir_lib
              ∷ named (codes "vpopmail_dir_include") L.dir_include
              ∷ named (codes "vpopmail_dir_domains") L.dir_domains
              ∷ named (codes "domain_dir") s.the_domain_dir
              ∷ (ids_of (L.get_assign s.the_domain c.world) ++ send_user_info s.output_type s.auth))
            (send L ok_more (noted L (Call.send_info s.the_user s.the_domain) c)),
      )
      else (ok, c)

  abbrev pub Login : Type 0
  Login = LoginStatus × Reply × Connection L

  abbrev pub admit : Session → Connection L → Login
  admit s c = let (r, d) = welcome s c in (accepted s, r, d)

  abbrev pub on_password : Bool → ℕ → Bytes → Bytes → Vqpasswd → Connection L → Login
  on_password false output_type user domain pw c = (invalid, error 8 207, c)
  on_password true output_type user domain pw c = admit (session_of output_type user domain pw c) c

  abbrev pub on_account : Option Vqpasswd → ℕ → Bytes → Bytes → Bytes → Connection L → Login
  on_account none output_type user domain pass c = (invalid, error 8 206, c)
  on_account (some pw) output_type user domain pass c =
      on_password (L.crypt user domain pass pw c.world) output_type user domain pw c

  abbrev pub on_address : Bool → ℕ → Bytes → Bytes → Bytes → Connection L → Login
  on_address false output_type user domain pass c = (invalid, error 8 205, c)
  on_address true output_type user domain pass c =
      on_account (L.getpw user domain c.world) output_type user domain pass c

  abbrev pub on_pass : Option (Bytes × Bytes) → ℕ → Bytes → Connection L → Login
  on_pass none output_type email c = (missing, error 7 204, c)
  on_pass (some (pass, _)) output_type email c =
      let p = parse_email L.settings email auth_size in
      on_address p.success output_type p.user p.domain pass c

  abbrev pub on_login : Option (Bytes × Bytes) → ℕ → Connection L → Login
  on_login none output_type c = (missing, error 6 203, c)
  on_login (some (email, rest)) output_type c =
      on_pass (strtok pass_tokens rest) output_type email c

  unfoldable pub login : ℕ → Bytes → Connection L → Login
  login output_type rest c = on_login (strtok tokens rest) output_type c

  -- What the loop goes on with: nothing read, the end by `quit`, or a status with the reply.
  pub data Try : Type 0 where
    blank : Try
    quits : Try
    tried : Login → Try

  -- `login_help` returns 1, and an unknown command leaves the status as it is: both go on. The table has
  -- `login`, `login_help` and `quit`.
  abbrev pub on_function : Function → ℕ → Bytes → Connection L → Try
  on_function f level rest c =
      if is_login f
      then tried (login level rest c)
      else if is_help f
      then tried (missing, dot, send_help L 3 login_functions (send L ok_more c))
      else quits

  abbrev pub on_row : Option Row → Bytes → Connection L → Try
  on_row none rest c = tried (missing, error 4 104, c)
  on_row (some r) rest c = on_function r.func r.level rest c

  abbrev pub on_command : Option (Bytes × Bytes) → Connection L → Try
  on_command none c = blank
  on_command (some (command, rest)) c = on_row (find_row 3 login_functions command) rest c

  unfoldable pub try_line : Bytes → Connection L → Try
  try_line l c = on_command (strtok tokens l) c

  -- How the loop ends: with a session, or by the end of the process.
  pub data Outcome : Type 0 where
    entered : Session → Connection L → Outcome
    ended : Connection L → Outcome

  abbrev pub next_line : List Bytes → Bytes
  next_line [] = []
  next_line (l ∷ ls) = l

  abbrev pub next_lines : List Bytes → List Bytes
  next_lines [] = []
  next_lines (l ∷ ls) = ls

  -- After the fourth failure the process ends at once; `again` goes on with the number of failures.
  abbrev pub on_try : (ℕ → Connection L → Outcome) → ℕ → Connection L → Try → Outcome
  on_try again failures c blank = again failures c
  on_try again failures c quits = ended (send L ok c)
  on_try again failures c (tried (accepted s, r, e)) = entered s (send L r e)
  on_try again failures c (tried (missing, r, e)) = again failures (send L r e)
  on_try again failures c (tried (invalid, r, e)) =
      if ltb 3 (failures + 1)
      then ended (send L (error 5 105) (send L r e))
      else again (failures + 1) (send L r e)

  -- The loop; `left` is LOGIN_ACTIVITY less the attempts that were made. At the end of the input a line
  -- is read as a blank one.
  unfoldable pub await_login : ℕ → ℕ → Connection L → Outcome
  await_login zero failures c = ended (send L (error 5 102) c)
  await_login (suc left) failures c =
      let d = record c { input = next_lines c.input } in
      on_try (λ f e. await_login left f e) failures d (try_line (next_line c.input) d)

  -- `main`, behind the opening of the authentication module: LOGIN_ACTIVITY is 4.
  abbrev pub greet : Connection L → Outcome
  greet c = await_login 4 0 (send L ok c)
