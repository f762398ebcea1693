-- ===== src/Vpopmaild/Commands.antt =====
-- vpopmaild.c: the loop that reads the commands after the login and runs them.
use vpopmail.Common.{
  ℕ, zero, suc, List, [], ◌∷◌, ◌++◌, Option, none, some, Bytes, leb, if◌then◌else◌,
}
use vpopmail.Vpopmaild.Table.{Function, Row, functions, find_row}
use vpopmail.Vpopmaild.{
  Library, Session, Reply, error, ok, ok_more, line, text, dot, Connection, Answer, send,
}
use vpopmail.Vpopmaild.Tokens.{strtok, tokens}
use vpopmail.Vpopmaild.Accounts.{
  add_user, del_user, user_info, get_lastauth, get_user_size, get_domain_size, user_count,
  list_users,
}
use vpopmail.Vpopmaild.Aliases.{add_alias, remove_alias, delete_alias, list_alias}
use vpopmail.Vpopmaild.Options.{mod_user}
use vpopmail.Vpopmaild.Domains.{
  add_domain, add_alias_domain, del_domain, dom_info, list_domains, find_domain, domain_count,
  get_ip_map, add_ip_map, del_ip_map, show_ip_map, not_implemented,
}
use vpopmail.Vpopmaild.DomainLimits.{get_limits, set_limits, del_limits}
use vpopmail.Vpopmaild.Lists.{list_lists}
use vpopmail.Vpopmaild.Files.{
  mk_dir, rm_dir, list_dir, rename_file, rm_file, write_file, read_file, stat_file,
}

-- The lines of `help` and `login_help`.
abbrev pub help_line : Row → Bytes → Bytes
help_line r h = r.command ++ (b' ' ∷ h)

abbrev pub help_of : Row → Option Bytes → Reply
help_of r none = text (b'\r' ∷ b'\n' ∷ (r.command ++ (b'\r' ∷ b'\n' ∷ [])))
help_of r (some h) = line (help_line r h)

module _ (L : Library) where
  unfoldable pub send_help : ℕ → List Row → Connection L → Connection L
  send_help logged_in [] c = c
  send_help logged_in (r ∷ rows) c =
      send_help logged_in rows
        (if leb r.level logged_in then send L (help_of r r.help_text) c else c)

  -- `help`
  abbrev pub help : Session → Connection L → Answer L
  help s c = (dot, send_help s.logged_in functions (send L ok_more c))

  -- `none` is the end of the session, by `quit`; `login` stands in the other table only.
  unfoldable pub run_function : Function → Session → Bytes → Connection L → Option (Answer L)
  unfolding send_help
  run_function Function.no_function s rest c = none
  run_function Function.log_in s rest c = none
  run_function Function.leave s rest c = none
  run_function Function.show_login_help s rest c = none
  run_function Function.show_help s rest c = some (help s c)
  run_function Function.add_user s rest c = some (add_user L s rest c)
  run_function Function.del_user s rest c = some (del_user L s rest c)
  run_function Function.user_info s rest c = some (user_info L s rest c)
  run_function Function.get_lastauth s rest c = some (get_lastauth L s rest c)
  run_function Function.get_user_size s rest c = some (get_user_size L s rest c)
  run_function Function.get_domain_size s rest c = some (get_domain_size L s rest c)
  run_function Function.user_count s rest c = some (user_count L s rest c)
  run_function Function.list_users s rest c = some (list_users L s rest c)
  run_function Function.add_alias s rest c = some (add_alias L s rest c)
  run_function Function.remove_alias s rest c = some (remove_alias L s rest c)
  run_function Function.delete_alias s rest c = some (delete_alias L s rest c)
  run_function Function.list_alias s rest c = some (list_alias L s rest c)
  run_function Function.mod_user s rest c = some (mod_user L s rest c)
  run_function Function.add_domain s rest c = some (add_domain L s rest c)
  run_function Function.add_alias_domain s rest c = some (add_alias_domain L s rest c)
  run_function Function.del_domain s rest c = some (del_domain L s rest c)
  run_function Function.dom_info s rest c = some (dom_info L s rest c)
  run_function Function.list_domains s rest c = some (list_domains L s rest c)
  run_function Function.find_domain s rest c = some (find_domain L s rest c)
  run_function Function.domain_count s rest c = some (domain_count L s rest c)
  run_function Function.get_ip_map s rest c = some (get_ip_map L s rest c)
  run_function Function.add_ip_map s rest c = some (add_ip_map L s rest c)
  run_function Function.del_ip_map s rest c = some (del_ip_map L s rest c)
  run_function Function.show_ip_map s rest c = some (show_ip_map L s rest c)
  run_function Function.get_limits s rest c = some (get_limits L s rest c)
  run_function Function.set_limits s rest c = some (set_limits L s rest c)
  run_function Function.del_limits s rest c = some (del_limits L s rest c)
  run_function Function.list_lists s rest c = some (list_lists L s rest c)
  run_function Function.mk_dir s rest c = some (mk_dir L s rest c)
  run_function Function.rm_dir s rest c = some (rm_dir L s rest c)
  run_function Function.list_dir s rest c = some (list_dir L s rest c)
  run_function Function.rename_file s rest c = some (rename_file L s rest c)
  run_function Function.rm_file s rest c = some (rm_file L s rest c)
  run_function Function.write_file s rest c = some (write_file L s rest c)
  run_function Function.read_file s rest c = some (read_file L s rest c)
  run_function Function.stat_file s rest c = some (stat_file L s rest c)
  run_function Function.add_list s rest c = some (not_implemented L 4001 s rest c)
  run_function Function.del_list s rest c = some (not_implemented L 4101 s rest c)
  run_function Function.mod_list s rest c = some (not_implemented L 4201 s rest c)

  -- What one line leads to: nothing, the end of the session, or an answer.
  pub data Step : Type 0 where
    blank : Step
    end : Step
    answered : Answer L → Step

  abbrev pub as_step : Option (Answer L) → Step
  as_step none = end
  as_step (some a) = answered a

  abbrev pub on_row : Option Row → Session → Bytes → Connection L → Step
  on_row none s rest c = answered (error 4 107, c)
  on_row (some r) s rest c = as_step (run_function r.func s rest c)

  abbrev pub on_command : Option (Bytes × Bytes) → Session → Connection L → Step
  on_command none s c = blank
  on_command (some (command, rest)) s c = on_row (find_row s.logged_in functions command) s rest c

  unfoldable pub run_command : Session → Bytes → Connection L → Step
  run_command s l c = on_command (strtok tokens l) s c

  -- After one line the loop goes on, or it has ended.
  pub data Turn : Type 0 where
    going : Connection L → Turn
    stopped : Connection L → Turn

  abbrev pub after_step : Step → Connection L → Turn
  after_step blank c = going c
  after_step end c = stopped (send L ok c)
  after_step (answered (r, d)) c = going (send L r d)

  -- At the end of the input the loop of the code goes on for ever; here it stops.
  unfoldable pub turn : Session → List Bytes → Connection L → Turn
  turn s [] c = stopped c
  turn s (l ∷ ls) c = let d = record c { input = ls } in after_step (run_command s l d) d

  abbrev pub on_turn : (Connection L → Connection L) → Turn → Connection L
  on_turn next (going d) = next d
  on_turn next (stopped d) = d

  -- The loop after the login, for at most as many lines as the fuel says.
  unfoldable pub serve : ℕ → Session → Connection L → Connection L
  serve zero s c = c
  serve (suc fuel) s c = on_turn (λ d. serve fuel s d) (turn s c.input c)
