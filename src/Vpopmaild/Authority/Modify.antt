-- ===== src/Vpopmaild/Authority/Modify.antt =====
-- vpopmaild.c: `mod_user` makes allowed calls only.
use vpopmail.Common.{
  ◌≡◌, ◌∙◌, refl, true, ◌||◌, List, [], ◌∷◌, Option, none, some, Bytes, equal, arith, Bool-cases,
  inl, inr,
}
use vpopmail.Vpopmaild.{Vqpasswd, Call, Library, Session, is_sa, ok, Connection, send}
use vpopmail.Vpopmaild.Tokens.{strtok, pass_tokens, param_tokens}
use vpopmail.Vpopmaild.Options.{
  may_modify, mod_user, change, options, option_line, apply_option, is_last, on_param, on_value,
}
use vpopmail.Vpopmaild.Authority.{
  allowed, Kept, Good, good, require-Good, present-Good, on_email-Good, on_call-Good, called-Kept,
}

-- The domain is the session's own, or the session is a system administrator's.
abbrev pub InOwn : Session → Bytes → Type 0
InOwn s domain = (is_sa s || equal s.the_domain domain) ≡ true

module _ (L : Library) (s : Session) where
  -- An option leaves the name of the entry, and makes allowed calls.
  record Fine (pw : Vqpasswd) (r : Vqpasswd × Connection L) : Type 0 where
    name : r.0.pw_name ≡ pw.pw_name
    kept : Kept L s r.1

  apply_option-Fine :
      (domain param value : Bytes) (pw : Vqpasswd) (c : Connection L)
      → InOwn s domain
      → Kept L s c
      → Fine pw (apply_option L s domain param value pw c)
  unfolding apply_option
  apply_option-Fine domain param value pw c own h = ground (
    arith,
    h.all,
    called-Kept L s (Call.update_maildirsize domain pw.pw_dir (L.format_maildirquota value)) c h,
  )

  value-Fine :
      (domain param : Bytes) (o : Option (Bytes × Bytes)) (pw : Vqpasswd) (c : Connection L)
      → InOwn s domain
      → Kept L s c
      → Fine pw (on_value L s domain param o pw c)
  value-Fine domain param none pw c own h = record { name = refl; kept = h }
  value-Fine domain param (some (value, _)) pw c own h =
      apply_option-Fine domain param value pw c own h

  param-Fine :
      (domain : Bytes) (o : Option (Bytes × Bytes)) (pw : Vqpasswd) (c : Connection L)
      → InOwn s domain
      → Kept L s c
      → Fine pw (on_param L s domain o pw c)
  param-Fine domain none pw c own h = record { name = refl; kept = h }
  param-Fine domain (some (param, rest)) pw c own h =
      value-Fine domain param (strtok pass_tokens rest) pw c own h

  line-Fine :
      (domain l : Bytes) (pw : Vqpasswd) (c : Connection L)
      → InOwn s domain
      → Kept L s c
      → Fine pw (option_line L s domain l pw c)
  unfolding option_line
  line-Fine domain l pw c own h = param-Fine domain (strtok param_tokens l) pw c own h

  options-Fine :
      (domain : Bytes) (ls : List Bytes) (pw : Vqpasswd) (c : Connection L)
      → InOwn s domain
      → Kept L s c
      → Fine pw (options L s domain ls pw c)
  unfolding options
  options-Fine domain [] pw c own h = record { name = refl; kept = record { all = h.all } }
  options-Fine domain (l ∷ ls) pw c own h =
      let one = line-Fine domain l pw c own h in
      let r = option_line L s domain l pw c in
      let more = options-Fine domain ls r.0 r.1 own one.kept in
      elim (Bool-cases (is_last l)) [
        | inl e ↦ rw e (record { name = refl; kept = record { all = h.all } })
        | inr e ↦ rw e (record { name = more.name ∙ one.name; kept = more.kept })
      ]

  may_store :
      (pw : Vqpasswd) (user domain : Bytes)
      → may_modify L s user domain ≡ true
      → pw.pw_name ≡ user
      → allowed s (Call.vauth_setpw pw domain) ≡ true
  may_store pw user domain h e = rw e (ground arith)

  own_of : (user domain : Bytes) → may_modify L s user domain ≡ true → InOwn s domain
  own_of user domain h = ground arith

  change-Good :
      (user domain : Bytes) (pw : Vqpasswd) (c : Connection L)
      → may_modify L s user domain ≡ true
      → pw.pw_name ≡ user
      → Kept L s c
      → Good L s (change L s domain pw c)
  change-Good user domain pw c m e h =
      let d = send L ok c in
      let f = options-Fine domain c.input pw d (own_of user domain m) (record { all = h.all }) in
      let r = options L s domain c.input pw d in
      on_call-Good L s (Call.vauth_setpw r.0 domain) r.1 _ _ f.kept
        (may_store r.0 user domain m (f.name ∙ e)) (good L s _)

  -- The entry of a user carries the user's name.
  abbrev pub Named : Type 0
  Named =
      (user domain : Bytes) (w : L.World) (pw : Vqpasswd)
      → L.getpw user domain w ≡ some pw
      → pw.pw_name ≡ user

  pub mod_user-Good :
      (rest : Bytes) (c : Connection L) → Named → Kept L s c → Good L s (mod_user L s rest c)
  unfolding mod_user
  mod_user-Good rest c n h = present-Good L s _ _ c _ h (λ (email, _) _.
      on_email-Good L s _ _ _ c _ h (λ user domain. require-Good L s _ _ c _ h (λ m.
        present-Good L s _ _ _ _ (record { all = h.all })
          (λ pw e. change-Good user domain pw c m (n user domain c.world pw e) h))))
