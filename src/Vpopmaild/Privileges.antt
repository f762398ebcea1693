-- ===== src/Vpopmaild/Privileges.antt =====
-- vpopmaild.c: the rights that the option lines of `mod_user` can give.
use vpopmail.Common.{
  ℕ, ◌≡◌, Bool, true, false, not, ◌&&◌, ◌||◌, List, [], ◌∷◌, Option, none, some, Bytes, ◌==◌, arith,
  All, Bool-cases, inl, inr,
}
use vpopmail.Vpopmaild.{Vqpasswd, Library, Session, is_sa, is_qa, Connection}
use vpopmail.Vpopmaild.Tokens.{strtok, pass_tokens, param_tokens}
use vpopmail.Vpopmaild.Options.{
  Right, has_right, flag_options, set_flag, apply_option, on_value, on_param, option_line, options,
}

-- The flags that a session may not give: those of system administrators and experts, that for the
-- limits of a domain, and, for one that is no administrator at all, that of domain administrators.
abbrev pub reserved : Session → ℕ → Bool
reserved s bit =
    not (is_sa s) && (bit == 16 || bit == 17 || bit == 13 || (bit == 12 && not (is_qa s)))

abbrev Guarded : Session → Right × Bytes × ℕ → Type 0
Guarded s (right, name, bit) = has_right s right ≡ true → reserved s bit ≡ false

options-Guarded : (s : Session) → All (Guarded s) flag_options
options-Guarded s = ground arith

set_flag-kept :
    (s : Session) (rows : List (Right × Bytes × ℕ)) (param value : Bytes) (gid : ℕ → Bool) (bit : ℕ)
    → All (Guarded s) rows
    → reserved s bit ≡ true
    → set_flag s rows param value gid bit ≡ true
    → gid bit ≡ true
unfolding set_flag
set_flag-kept s [] param value gid bit g r h = h
set_flag-kept s ((right, name, b) ∷ rows) param value gid bit (g, gs) r h =
    ground (arith, set_flag-kept s rows param value gid bit gs r)

module _ (L : Library) (s : Session) (domain : Bytes) where
  abbrev Ungained : Vqpasswd → Vqpasswd → Type 0
  Ungained pw pw' = (bit : ℕ) → reserved s bit ≡ true → pw'.pw_gid bit ≡ true → pw.pw_gid bit ≡ true

  apply_option-Ungained :
      (param value : Bytes) (pw : Vqpasswd) (c : Connection L)
      → Ungained pw (apply_option L s domain param value pw c).0
  unfolding apply_option
  apply_option-Ungained param value pw c bit r =
      ground (arith, set_flag-kept s flag_options param value pw.pw_gid bit (options-Guarded s) r)

  value-Ungained :
      (param : Bytes) (o : Option (Bytes × Bytes)) (pw : Vqpasswd) (c : Connection L)
      → Ungained pw (on_value L s domain param o pw c).0
  value-Ungained param none pw c bit r h = h
  value-Ungained param (some (value, _)) pw c bit r h =
      apply_option-Ungained param value pw c bit r h

  param-Ungained :
      (o : Option (Bytes × Bytes)) (pw : Vqpasswd) (c : Connection L)
      → Ungained pw (on_param L s domain o pw c).0
  param-Ungained none pw c bit r h = h
  param-Ungained (some (param, rest)) pw c bit r h =
      value-Ungained param (strtok pass_tokens rest) pw c bit r h

options-ungained :
    (L : Library) (s : Session) (domain : Bytes) (lines : List Bytes) (pw : Vqpasswd)
    (c : Connection L) (bit : ℕ)
    → reserved s bit ≡ true
    → (options L s domain lines pw c).0.pw_gid bit ≡ true
    → pw.pw_gid bit ≡ true
unfolding options
options-ungained L s domain [] pw c bit r h = h
options-ungained L s domain (l ∷ ls) pw c bit r h =
    let one = option_line L s domain l pw c in
    let later = options-ungained L s domain ls one.0 one.1 bit r in
    let now : one.0.pw_gid bit ≡ true → pw.pw_gid bit ≡ true =
      unfold option_line in param-Ungained L s domain (strtok param_tokens l) pw c bit r in
    ground (arith, later, now)

-- Whatever option lines a session sends for an entry, the entry gains no flag that is reserved: only a
-- system administrator gives the rights of a system administrator or expert and the right to override
-- the limits of a domain, and only an administrator gives those of a domain administrator.
pub options-reserved :
    (L : Library) (s : Session) (domain : Bytes) (lines : List Bytes) (pw : Vqpasswd)
    (c : Connection L) (bit : ℕ)
    → reserved s bit ≡ true
    → pw.pw_gid bit ≡ false
    → (options L s domain lines pw c).0.pw_gid bit ≡ false
options-reserved L s domain lines pw c bit r h =
    elim (Bool-cases ((options L s domain lines pw c).0.pw_gid bit)) [
      | inl e ↦ absurd (ground (arith, options-ungained L s domain lines pw c bit r e))
      | inr e ↦ e
    ]
