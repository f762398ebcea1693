-- ===== src/Vpopmaild/Options.antt =====
-- vpopmaild.c: `mod_user` and its option lines.
use vpopmail.Common.{
  ℕ, Bool, true, false, not, ◌&&◌, ◌||◌, List, [], ◌∷◌, Option, none, some, Bytes, codes, ◌==◌,
  equal, if◌then◌else◌,
}
use vpopmail.Common.Int.{ℤ, pos, negsuc}
use vpopmail.Common.Decimal.{read_int}
use vpopmail.Vpopmaild.{
  Vqpasswd, Call, Library, Session, is_sa, is_qa, v_override, error, failed, ok, auth_size,
  Connection, Answer, require, present, on_email, called, on_call, send,
}
use vpopmail.Vpopmaild.Tokens.{strtok, tokens, pass_tokens, param_tokens}

-- `can_override`
abbrev pub can_override : Session → Bool
can_override s = is_sa s || (is_qa s && s.auth.pw_gid v_override)

-- Who may set a flag.
pub data Right : Type 0 where
  anyone overriding domain_admin system_admin : Right

abbrev pub has_right : Session → Right → Bool
has_right s Right.anyone = true
has_right s Right.overriding = can_override s
has_right s Right.domain_admin = is_sa s || is_qa s
has_right s Right.system_admin = is_sa s

-- The tests on the flags, in their order.
abbrev pub flag_options : List (Right × Bytes × ℕ)
flag_options =
    (Right.overriding, codes "no_password_change", 0)
    ∷ (Right.overriding, codes "no_pop", 1)
    ∷ (Right.overriding, codes "no_webmail", 2)
    ∷ (Right.overriding, codes "no_imap", 3)
    ∷ (Right.overriding, codes "bounce_mail", 4)
    ∷ (Right.overriding, codes "no_relay", 5)
    ∷ (Right.overriding, codes "no_dialup", 6)
    ∷ (Right.overriding, codes "user_flag_0", 7)
    ∷ (Right.overriding, codes "user_flag_1", 8)
    ∷ (Right.anyone, codes "user_flag_2", 9)
    ∷ (Right.anyone, codes "user_flag_3", 10)
    ∷ (Right.overriding, codes "no_smtp", 11)
    ∷ (Right.system_admin, codes "system_admin_privileges", 16)
    ∷ (Right.system_admin, codes "system_expert_privileges", 17)
    ∷ (Right.domain_admin, codes "domain_admin_privileges", 12)
    ∷ (Right.system_admin, codes "override_domain_limits", 13)
    ∷ (Right.anyone, codes "no_spamassassin", 14)
    ∷ (Right.anyone, codes "delete_spam", 15)
    ∷ (Right.anyone, codes "no_maildrop", 18)
    ∷ []

abbrev pub with_bit : ℕ → Bool → (ℕ → Bool) → ℕ → Bool
with_bit bit b gid i = if i == bit then b else gid i

-- `atoi(value)` 1 sets a flag, 0 clears it.
abbrev pub store_flag : ℕ → ℤ → (ℕ → Bool) → ℕ → Bool
store_flag bit (pos n) gid =
    if n == 1 then with_bit bit true gid else if n == 0 then with_bit bit false gid else gid
store_flag bit (negsuc n) gid = gid

unfoldable pub set_flag : Session → List (Right × Bytes × ℕ) → Bytes → Bytes → (ℕ → Bool) → ℕ → Bool
set_flag s [] param value gid = gid
set_flag s ((right, name, bit) ∷ rows) param value gid =
    let later = set_flag s rows param value gid in
    if has_right s right && equal param name then store_flag bit (read_int value) gid else later

-- The line that ends the options.
abbrev pub is_last : Bytes → Bool
is_last [] = false
is_last (c ∷ cs) = c == b'.'

module _ (L : Library) where
  -- One line, with its parameter and its value: the new entry and connection.
  unfoldable pub apply_option :
      Session → Bytes → Bytes → Bytes → Vqpasswd → Connection L → Vqpasswd × Connection L
  apply_option s domain param value pw c =
      let quota = L.format_maildirquota value in
      if equal param (codes "comment")
      then (record pw { pw_gecos = value }, c)
      else if can_override s && equal param (codes "quota")
      then (
        record pw { pw_shell = quota },
        (called L (Call.update_maildirsize domain pw.pw_dir quota) c).1,
      )
      else if equal param (codes "encrypted_password")
      then (record pw { pw_passwd = value }, c)
      else if equal param (codes "clear_text_password") && not (pw.pw_flags 0)
      then (record pw { pw_clear_passwd = value; pw_passwd = L.mkpasswd3 value c.world }, c)
      else if can_override s && equal param (codes "clear_all_flags")
      then (record pw { pw_gid = λ i. false }, c)
      else (record pw { pw_gid = set_flag s flag_options param value pw.pw_gid }, c)

  abbrev pub on_value :
      Session
      → Bytes
      → Bytes
      → Option (Bytes × Bytes)
      → Vqpasswd
      → Connection L
      → Vqpasswd × Connection L
  on_value s domain param none pw c = (pw, c)
  on_value s domain param (some (value, _)) pw c = apply_option s domain param value pw c

  abbrev pub on_param :
      Session → Bytes → Option (Bytes × Bytes) → Vqpasswd → Connection L → Vqpasswd × Connection L
  on_param s domain none pw c = (pw, c)
  on_param s domain (some (param, rest)) pw c =
      on_value s domain param (strtok pass_tokens rest) pw c

  unfoldable pub option_line :
      Session → Bytes → Bytes → Vqpasswd → Connection L → Vqpasswd × Connection L
  option_line s domain l pw c = on_param s domain (strtok param_tokens l) pw c

  -- The loop over the option lines, up to one that begins with a dot.
  unfoldable pub options :
      Session → Bytes → List Bytes → Vqpasswd → Connection L → Vqpasswd × Connection L
  options s domain [] pw c = (pw, record c { input = [] })
  options s domain (l ∷ ls) pw c =
      let (pw', c') = option_line s domain l pw c in
      let rest = options s domain ls pw' c' in
      if is_last l then (pw, record c { input = ls }) else rest

  -- The lines up to `.` are dropped where the user is unknown.
  unfoldable pub skip_options : List Bytes → List Bytes
  skip_options [] = []
  skip_options (l ∷ ls) =
      let rest = skip_options ls in if equal l (b'.' ∷ b'\n' ∷ []) then ls else rest

  abbrev pub change : Session → Bytes → Vqpasswd → Connection L → Answer L
  change s domain pw c =
      let (pw', d) = options s domain c.input pw (send L ok c) in
      on_call L (Call.vauth_setpw pw' domain) d (failed 507) (λ e. (ok, e))

  -- A domain administrator in its domain, another user on its own account, or a system administrator.
  abbrev pub may_modify : Session → Bytes → Bytes → Bool
  may_modify s user domain =
      is_sa s || (equal s.the_domain domain && (is_qa s || equal s.the_user user))

  unfoldable pub mod_user : Session → Bytes → Connection L → Answer L
  mod_user s rest c = present L (strtok tokens rest) (error 6 501) c (λ (email, _).
      on_email L email auth_size (error 10 502) c (λ user domain.
        require L (may_modify s user domain) (error 11 (if is_qa s then 503 else 504)) c (
          present L (L.getpw user domain c.world) (error 12 505)
            (record c { input = skip_options c.input }) (λ pw. change s domain pw c))))
