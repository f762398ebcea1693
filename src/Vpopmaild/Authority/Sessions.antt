-- ===== src/Vpopmaild/Authority/Sessions.antt =====
-- vpopmaild.c: all that a session does, from its first command to its last.
use vpopmail.Common.{
  ℕ, zero, suc, ◌≡◌, List, [], ◌∷◌, Option, none, some, Bytes, All, leb, Bool-cases, inl, inr,
}
use vpopmail.Vpopmaild.{Vqpasswd, Library, Session, Connection, Answer, ok_more, send}
use vpopmail.Vpopmaild.Tokens.{strtok, tokens}
use vpopmail.Vpopmaild.Table.{Function, Row, functions, find_row}
use vpopmail.Vpopmaild.Commands.{
  send_help, run_function, Step, blank, end, answered, as_step, on_row, on_command, run_command,
  Turn, going, stopped, after_step, on_turn, turn, serve,
}
use vpopmail.Vpopmaild.Authority.{Allowed, Kept, Good, good}
use vpopmail.Vpopmaild.Authority.Handlers.{
  add_user-Good, del_user-Good, user_info-Good, get_lastauth-Good, get_user_size-Good,
  get_domain_size-Good, user_count-Good, list_users-Good, list_lists-Good, add_alias-Good,
  remove_alias-Good, delete_alias-Good,
}
use vpopmail.Vpopmaild.Authority.Listing.{HasNoAt, list_alias-Good}
use vpopmail.Vpopmaild.Authority.Modify.{Named, mod_user-Good}
use vpopmail.Vpopmaild.Authority.Domains.{
  add_domain-Good, add_alias_domain-Good, del_domain-Good, dom_info-Good, list_domains-Good,
  find_domain-Good, domain_count-Good, get_ip_map-Good, add_ip_map-Good, del_ip_map-Good,
  show_ip_map-Good, get_limits-Good, set_limits-Good, del_limits-Good,
}
use vpopmail.Vpopmaild.Authority.Paths.{
  mk_dir-Good, rm_dir-Good, list_dir-Good, rename_file-Good, rm_file-Good, write_file-Good,
  read_file-Good, stat_file-Good,
}

module _ (L : Library) (s : Session) where
  send_help-Kept :
      (level : ℕ) (rows : List Row) (c : Connection L)
      → Kept L s c
      → Kept L s (send_help L level rows c)
  unfolding send_help
  send_help-Kept level [] c h = h
  send_help-Kept level (r ∷ rows) c h = elim (Bool-cases (leb r.level level)) [
    | inl e ↦ rw e (send_help-Kept level rows _ (record { all = h.all }))
    | inr e ↦ rw e (send_help-Kept level rows c h)
  ]

  abbrev FineAnswer : Option (Answer L) → Type 0
  FineAnswer none = Unit
  FineAnswer (some a) = Good L s a

  run_function-Fine :
      (f : Function) (rest : Bytes) (c : Connection L)
      → Named L s
      → HasNoAt s
      → Kept L s c
      → FineAnswer (run_function L f s rest c)
  unfolding run_function
  run_function-Fine Function.no_function rest c n a h = tt
  run_function-Fine Function.log_in rest c n a h = tt
  run_function-Fine Function.leave rest c n a h = tt
  run_function-Fine Function.show_login_help rest c n a h = tt
  run_function-Fine Function.show_help rest c n a h =
      good L s _ _
        (send_help-Kept s.logged_in functions (send L ok_more c) (record { all = h.all }))
  run_function-Fine Function.add_user rest c n a h = add_user-Good L s rest c h
  run_function-Fine Function.del_user rest c n a h = del_user-Good L s rest c h
  run_function-Fine Function.user_info rest c n a h = user_info-Good L s rest c h
  run_function-Fine Function.get_lastauth rest c n a h = get_lastauth-Good L s rest c h
  run_function-Fine Function.get_user_size rest c n a h = get_user_size-Good L s rest c h
  run_function-Fine Function.get_domain_size rest c n a h = get_domain_size-Good L s rest c h
  run_function-Fine Function.user_count rest c n a h = user_count-Good L s rest c h
  run_function-Fine Function.list_users rest c n a h = list_users-Good L s rest c h
  run_function-Fine Function.list_lists rest c n a h = list_lists-Good L s rest c h
  run_function-Fine Function.add_alias rest c n a h = add_alias-Good L s rest c h
  run_function-Fine Function.remove_alias rest c n a h = remove_alias-Good L s rest c h
  run_function-Fine Function.delete_alias rest c n a h = delete_alias-Good L s rest c h
  run_function-Fine Function.list_alias rest c n a h = list_alias-Good L s rest c a h
  run_function-Fine Function.mod_user rest c n a h = mod_user-Good L s rest c n h
  run_function-Fine Function.add_domain rest c n a h = add_domain-Good L s rest c h
  run_function-Fine Function.add_alias_domain rest c n a h = add_alias_domain-Good L s rest c h
  run_function-Fine Function.del_domain rest c n a h = del_domain-Good L s rest c h
  run_function-Fine Function.dom_info rest c n a h = dom_info-Good L s rest c h
  run_function-Fine Function.list_domains rest c n a h = list_domains-Good L s rest c h
  run_function-Fine Function.find_domain rest c n a h = find_domain-Good L s rest c h
  run_function-Fine Function.domain_count rest c n a h = domain_count-Good L s rest c h
  run_function-Fine Function.get_ip_map rest c n a h = get_ip_map-Good L s rest c h
  run_function-Fine Function.add_ip_map rest c n a h = add_ip_map-Good L s rest c h
  run_function-Fine Function.del_ip_map rest c n a h = del_ip_map-Good L s rest c h
  run_function-Fine Function.show_ip_map rest c n a h = show_ip_map-Good L s rest c h
  run_function-Fine Function.get_limits rest c n a h = get_limits-Good L s rest c h
  run_function-Fine Function.set_limits rest c n a h = set_limits-Good L s rest c h
  run_function-Fine Function.del_limits rest c n a h = del_limits-Good L s rest c h
  run_function-Fine Function.mk_dir rest c n a h = mk_dir-Good L s rest c h
  run_function-Fine Function.rm_dir rest c n a h = rm_dir-Good L s rest c h
  run_function-Fine Function.list_dir rest c n a h = list_dir-Good L s rest c h
  run_function-Fine Function.rename_file rest c n a h = rename_file-Good L s rest c h
  run_function-Fine Function.rm_file rest c n a h = rm_file-Good L s rest c h
  run_function-Fine Function.write_file rest c n a h = write_file-Good L s rest c h
  run_function-Fine Function.read_file rest c n a h = read_file-Good L s rest c h
  run_function-Fine Function.stat_file rest c n a h = stat_file-Good L s rest c h
  run_function-Fine Function.add_list rest c n a h = good L s _ c h
  run_function-Fine Function.del_list rest c n a h = good L s _ c h
  run_function-Fine Function.mod_list rest c n a h = good L s _ c h

  abbrev FineStep : Step L → Type 0
  FineStep blank = Unit
  FineStep end = Unit
  FineStep (answered a) = Good L s a

  as_step-Fine : (o : Option (Answer L)) → FineAnswer o → FineStep (as_step L o)
  as_step-Fine none h = tt
  as_step-Fine (some a) h = h

  row-Fine :
      (o : Option Row) (rest : Bytes) (c : Connection L)
      → Named L s
      → HasNoAt s
      → Kept L s c
      → FineStep (on_row L o s rest c)
  row-Fine none rest c n a h = good L s _ c h
  row-Fine (some r) rest c n a h = as_step-Fine _ (run_function-Fine r.func rest c n a h)

  command-Fine :
      (o : Option (Bytes × Bytes)) (c : Connection L)
      → Named L s
      → HasNoAt s
      → Kept L s c
      → FineStep (on_command L o s c)
  command-Fine none c n a h = tt
  command-Fine (some (command, rest)) c n a h =
      row-Fine (find_row s.logged_in functions command) rest c n a h

  abbrev FineTurn : Turn L → Type 0
  FineTurn (going d) = Kept L s d
  FineTurn (stopped d) = Kept L s d

  after_step-Fine :
      (t : Step L) (c : Connection L) → FineStep t → Kept L s c → FineTurn (after_step L t c)
  after_step-Fine blank c f h = h
  after_step-Fine end c f h = record { all = h.all }
  after_step-Fine (answered a) c f h = record { all = f.kept.all }

  turn-Fine :
      (ls : List Bytes) (c : Connection L)
      → Named L s
      → HasNoAt s
      → Kept L s c
      → FineTurn (turn L s ls c)
  unfolding turn run_command
  turn-Fine [] c n a h = h
  turn-Fine (l ∷ ls) c n a h =
      let d = record c { input = ls } in
      let k : Kept L s d = record { all = h.all } in
      after_step-Fine _ d (command-Fine (strtok tokens l) d n a k) k

  on_turn-Kept :
      (next : Connection L → Connection L) (t : Turn L)
      → FineTurn t
      → ((d : Connection L) → Kept L s d → Kept L s (next d))
      → Kept L s (on_turn L next t)
  on_turn-Kept next (going d) h f = f d h
  on_turn-Kept next (stopped d) h f = h

  serve-Kept :
      (fuel : ℕ) (c : Connection L)
      → Named L s
      → HasNoAt s
      → Kept L s c
      → Kept L s (serve L fuel s c)
  unfolding serve
  serve-Kept zero c n a h = h
  serve-Kept (suc fuel) c n a h =
      on_turn-Kept _ (turn L s c.input c) (turn-Fine c.input c n a h)
        (λ d k. serve-Kept fuel d n a k)

-- Whatever lines a session sends, everything that is logged for it is allowed to it, if all that was
-- logged before is. The log has the calls that change or show something, and the accounts whose
-- directories are taken from an address in front of a path; looking up accounts and domains is not
-- logged. A system administrator may make all calls, but those on files only where the path begins
-- with the domains' directory; a domain administrator works on accounts, aliases and lists of its own
-- domain, on files whose path begins with the domain's directory, and names accounts in front of a path
-- whose domain begins with its own; another user stores and is shown the entry of its own account, works
-- on files whose path begins with its own directory, and names its own account in front of a path. The
-- entry of a user carries the user's name, and the session's domain has no `@`.
pub serve-Allowed :
    (L : Library) (s : Session) (fuel : ℕ) (c : Connection L)
    → ((user domain : Bytes) (w : L.World) (pw : Vqpasswd)
        → L.getpw user domain w ≡ some pw
        → pw.pw_name ≡ user)
    → HasNoAt s
    → All (Allowed s) c.log
    → All (Allowed s) (serve L fuel s c).log
serve-Allowed L s fuel c n a h = (serve-Kept L s fuel c n a (record { all = h })).all
