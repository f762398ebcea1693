-- ===== src/Vpopmaild/Authority/Handlers.antt =====
-- vpopmaild.c: the handlers on accounts, aliases and mailing lists make allowed calls only.
use vpopmail.Common.{ℕ, ◌≡◌, true, List, [], ◌∷◌, Bytes, ◌+◌, ◌%◌, ◌^◌}
use vpopmail.Vpopmaild.{
  Vqpasswd, Call, Library, Session, is_admin, in_domain, Reply, Connection, Answer, require,
  present, on_email, noted, send, send_lines,
}
use vpopmail.Vpopmaild.Tokens.{strtok, tokens}
use vpopmail.Vpopmaild.Accounts.{
  add_user, del_user, user_info, get_lastauth, get_user_size, get_domain_size, user_count,
  list_users, sum_sizes,
}
use vpopmail.Vpopmaild.Aliases.{add_alias, remove_alias, delete_alias}
use vpopmail.Vpopmaild.Lists.{list_lists}
use vpopmail.Vpopmaild.Authority.{
  allowed, own_domain, Kept, Good, good, require-Good, present-Good, on_email-Good, on_call-Good,
  send_lines-Kept, noted-Kept,
}

module _ (L : Library) (s : Session) where
  -- The guards of the commands on an account, and of those on a domain.
  account_guards :
      (e₁ e₂ e₃ e₄ : Reply) (size : ℕ) (rest : Bytes) (c : Connection L)
      (k : Bytes → Bytes → Bytes → Answer L)
      → Kept L s c
      → ((more user domain : Bytes)
          → is_admin s ≡ true
          → in_domain s domain ≡ true
          → Good L s (k more user domain))
      → Good L s (
          require L (is_admin s) e₁ c (
            present L (strtok tokens rest) e₂ c (λ (email, more).
              on_email L email size e₃ c
                (λ user domain. require L (in_domain s domain) e₄ c (k more user domain)))))
  account_guards e₁ e₂ e₃ e₄ size rest c k h f = require-Good L s _ e₁ c _ h (λ admin.
      present-Good L s _ e₂ c _ h (λ (email, more) _.
        on_email-Good L s email size e₃ c _ h
          (λ user domain. require-Good L s _ e₄ c _ h (f more user domain admin))))

  domain_guards :
      (e₁ e₂ e₃ : Reply) (rest : Bytes) (c : Connection L) (k : Bytes → Bytes → Answer L)
      → Kept L s c
      → ((domain more : Bytes)
          → is_admin s ≡ true
          → in_domain s domain ≡ true
          → Good L s (k domain more))
      → Good L s (
          require L (is_admin s) e₁ c (
            present L
              (strtok tokens rest)
              e₂
              c
              (λ (domain, more). require L (in_domain s domain) e₃ c (k domain more))))
  domain_guards e₁ e₂ e₃ rest c k h f = require-Good L s _ e₁ c _ h (λ admin.
      present-Good L s _ e₂ c _ h
        (λ (domain, more) _. require-Good L s _ e₃ c _ h (f domain more admin)))

  -- An answer of several lines, behind a call that reads.
  shown :
      (call : Call) (ls : List Bytes) (first last : Reply) (c : Connection L)
      → Kept L s c
      → allowed s call ≡ true
      → Good L s (last, send_lines L ls (send L first (noted L call c)))
  shown call ls first last c h a =
      good L s last _ (send_lines-Kept L s ls _ (record { all = (a, h.all) }))

  pub add_user-Good :
      (rest : Bytes) (c : Connection L) → Kept L s c → Good L s (add_user L s rest c)
  unfolding add_user
  add_user-Good rest c h = account_guards _ _ _ _ _ rest c _ h (λ more user domain admin inside.
      present-Good L s _ _ c _ h (λ password _.
        on_call-Good L s _ c _ _ h (own_domain s domain _ admin inside) (good L s _)))

  pub del_user-Good :
      (rest : Bytes) (c : Connection L) → Kept L s c → Good L s (del_user L s rest c)
  unfolding del_user
  del_user-Good rest c h = account_guards _ _ _ _ _ rest c _ h (λ more user domain admin inside.
      on_call-Good L s _ c _ _ h (own_domain s domain _ admin inside) (good L s _))

  pub user_info-Good :
      (rest : Bytes) (c : Connection L) → Kept L s c → Good L s (user_info L s rest c)
  unfolding user_info
  user_info-Good rest c h = account_guards _ _ _ _ _ rest c _ h (λ more user domain admin inside.
      present-Good L s _ _ c _ h
        (λ pw _. shown (Call.send_info user domain) _ _ _ c h (own_domain s domain _ admin inside)))

  pub get_lastauth-Good :
      (rest : Bytes) (c : Connection L) → Kept L s c → Good L s (get_lastauth L s rest c)
  unfolding get_lastauth
  get_lastauth-Good rest c h = account_guards _ _ _ _ _ rest c _ h (λ more user domain admin inside.
      present-Good L s _ _ c _ h (λ pw _. require-Good L s _ _ c _ h (λ _.
        shown (Call.vget_lastauth user domain) _ _ _ c h (own_domain s domain _ admin inside))))

  pub get_user_size-Good :
      (rest : Bytes) (c : Connection L) → Kept L s c → Good L s (get_user_size L s rest c)
  unfolding get_user_size
  get_user_size-Good rest c h =
      account_guards _ _ _ _ _ rest c _ h (λ more user domain admin inside.
        present-Good L s _ _ c _ h (λ pw _.
          let call = Call.readuserquota user domain in
          let a = own_domain s domain _ admin inside in
          present-Good L s _ _ _ _ (noted-Kept L s call c h a) (λ size _. shown call _ _ _ c h a)))

  pub user_count-Good :
      (rest : Bytes) (c : Connection L) → Kept L s c → Good L s (user_count L s rest c)
  unfolding user_count
  user_count-Good rest c h = domain_guards _ _ _ rest c _ h (λ domain more admin inside.
      shown (Call.vauth_getall domain) _ _ _ c h (own_domain s domain _ admin inside))

  pub list_users-Good :
      (rest : Bytes) (c : Connection L) → Kept L s c → Good L s (list_users L s rest c)
  unfolding list_users
  list_users-Good rest c h = domain_guards _ _ _ rest c _ h (λ domain more admin inside.
      shown (Call.vauth_getall domain) _ _ _ c h (own_domain s domain _ admin inside))

  pub list_lists-Good :
      (rest : Bytes) (c : Connection L) → Kept L s c → Good L s (list_lists L s rest c)
  unfolding list_lists
  list_lists-Good rest c h = domain_guards _ _ _ rest c _ h (λ domain more admin inside.
      present-Good L s _ _ c _ h (λ dir _.
        let call = Call.scan_lists domain in
        let a = own_domain s domain _ admin inside in
        require-Good L s _ _ _ _ (noted-Kept L s call c h a) (λ _. shown call _ _ _ c h a)))

  sum_sizes-Good :
      (domain : Bytes) (bytes cnt : ℕ) (pws : List Vqpasswd) (c : Connection L)
      → is_admin s ≡ true
      → in_domain s domain ≡ true
      → Kept L s c
      → Good L s (sum_sizes L domain bytes cnt pws c)
  unfolding sum_sizes
  sum_sizes-Good domain bytes cnt [] c admin inside h = good L s _ _ (send_lines-Kept L s _ c h)
  sum_sizes-Good domain bytes cnt (pw ∷ pws) c admin inside h =
      let call = Call.readuserquota pw.pw_name domain in
      let k = noted-Kept L s call c h (own_domain s domain _ admin inside) in
      present-Good L s _ _ _ _ k (λ (b, n) _.
        sum_sizes-Good domain ((bytes + b) % 2 ^ 64) ((cnt + n) % 2 ^ 32) pws _ admin inside
          (send_lines-Kept L s _ _ k))

  pub get_domain_size-Good :
      (rest : Bytes) (c : Connection L) → Kept L s c → Good L s (get_domain_size L s rest c)
  unfolding get_domain_size
  get_domain_size-Good rest c h = domain_guards _ _ _ rest c _ h (λ domain more admin inside.
      sum_sizes-Good domain 0 0 _ _ admin inside
        (record { all = (own_domain s domain _ admin inside, h.all) }))

  pub add_alias-Good :
      (rest : Bytes) (c : Connection L) → Kept L s c → Good L s (add_alias L s rest c)
  unfolding add_alias
  add_alias-Good rest c h = account_guards _ _ _ _ _ rest c _ h (λ more user domain admin inside.
      present-Good L s _ _ c _ h
        (λ target _. on_call-Good L s _ c _ _ h (own_domain s domain _ admin inside) (good L s _)))

  pub remove_alias-Good :
      (rest : Bytes) (c : Connection L) → Kept L s c → Good L s (remove_alias L s rest c)
  unfolding remove_alias
  remove_alias-Good rest c h = account_guards _ _ _ _ _ rest c _ h (λ more user domain admin inside.
      present-Good L s _ _ c _ h
        (λ target _. on_call-Good L s _ c _ _ h (own_domain s domain _ admin inside) (good L s _)))

  pub delete_alias-Good :
      (rest : Bytes) (c : Connection L) → Kept L s c → Good L s (delete_alias L s rest c)
  unfolding delete_alias
  delete_alias-Good rest c h = account_guards _ _ _ _ _ rest c _ h (λ more user domain admin inside.
      on_call-Good L s _ c _ _ h (own_domain s domain _ admin inside) (good L s _))
