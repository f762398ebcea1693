-- ===== src/Vpopmaild/Domains.antt =====
-- vpopmaild.c: the commands on domains, their mailing lists and the map of addresses, most of them for
-- the system administrator.
use vpopmail.Common.{
  ℕ, ◌+◌, ◌/◌, zero, suc, List, [], ◌∷◌, ◌++◌, Option, none, some, Bytes, codes, equal,
  if◌then◌else◌, length,
}
use vpopmail.Common.Decimal.{print_nat}
use vpopmail.Vpopmaild.{
  DomainEntry, Call, Library, Session, is_sa, error, failed, ok, ok_more, dot, Connection, Answer,
  require, present, noted, called, on_call, send, send_lines,
}
use vpopmail.Vpopmaild.Tokens.{strtok, tokens, pass_tokens}
use vpopmail.Vpopmaild.Accounts.{named, number_in, page_bounds, paged}

-- The first entry is NULL where the file cannot be opened and where it has no entries.
abbrev pub first_entry : Option (List DomainEntry) → Option (List DomainEntry)
first_entry none = none
first_entry (some []) = none
first_entry (some (e ∷ es)) = some (e ∷ es)

-- The walk of `find_domain`, with `count` as it goes.
unfoldable pub find_entry : Bytes → ℕ → List DomainEntry → Option ℕ
unfolding equal
find_entry domain count [] = none
find_entry domain count (e ∷ es) =
    let rest = find_entry domain (suc count) es in
    if equal domain e.domain then some count else rest

abbrev pub page_number : ℕ → ℕ → ℕ
page_number zero count = count + 1
page_number (suc n) count = count / suc n + 1

abbrev pub found_page : ℕ → Option ℕ → List Bytes
found_page per_page none = []
found_page per_page (some count) =
    named (codes "page") (print_nat (page_number per_page count)) ∷ []

abbrev pub entry_lines : DomainEntry → List Bytes
entry_lines e = named e.realdomain e.domain ∷ []

-- The entries of `dom_info`: the aliases come last.
abbrev pub info_lines : List DomainEntry → List Bytes
info_lines [] = []
info_lines (e ∷ es) =
    (if equal e.domain e.realdomain
      then named (codes "domain") e.domain
        ∷ named (codes "path") e.path
        ∷ named (codes "uid") (print_nat e.uid)
        ∷ named (codes "gid") (print_nat e.gid)
        ∷ []
      else [])
    ++ info_lines es

abbrev pub alias_lines : List DomainEntry → List Bytes
alias_lines [] = []
alias_lines (e ∷ es) =
    (if equal e.domain e.realdomain then [] else named (codes "alias") e.domain ∷ [])
    ++ alias_lines es

module _ (L : Library) where
  -- A domain whose postmaster cannot be added is deleted again.
  abbrev pub add_postmaster : Bytes → Bytes → Connection L → Answer L
  add_postmaster domain password c =
      let postmaster = codes "postmaster" in
      let (success, d) = called L (Call.vadduser postmaster domain password) c in
      if success then (ok, d) else (failed 805, (called L (Call.vdeldomain domain) d).1)

  unfoldable pub add_domain : Session → Bytes → Connection L → Answer L
  add_domain s rest c = require L L.has_uidgid (error 39 2000) c (
      require L (is_sa s) (error 9 801) c (
        present L (strtok tokens rest) (error 13 802) c (λ (domain, more).
          present L (strtok pass_tokens more) (error 7 803) c (λ (password, _).
            on_call L (Call.vadddomain domain) c (failed 804) (add_postmaster domain password)))))

  unfoldable pub add_alias_domain : Session → Bytes → Connection L → Answer L
  add_alias_domain s rest c = require L (is_sa s) (error 9 1201) c (
      present L (strtok tokens rest) (error 13 1202) c (λ (domain, more).
        present L (strtok tokens more) (error 14 1203) c (λ (alias, _).
          on_call L (Call.vaddaliasdomain alias domain) c (failed 1204) (λ d. (ok, d)))))

  unfoldable pub del_domain : Session → Bytes → Connection L → Answer L
  del_domain s rest c = require L (is_sa s) (error 9 1301) c (
      present L (strtok tokens rest) (error 13 1302) c
        (λ (domain, _). on_call L (Call.vdeldomain domain) c (failed 1303) (λ d. (ok, d))))

  abbrev pub describe : Option (List DomainEntry) → Connection L → Answer L
  describe none c = (failed 1403, c)
  describe (some []) c = (failed 1404, c)
  describe (some (e ∷ es)) c =
      (dot, send_lines L (info_lines (e ∷ es) ++ alias_lines (e ∷ es)) (send L ok_more c))

  unfoldable pub dom_info : Session → Bytes → Connection L → Answer L
  dom_info s rest c = require L (is_sa s) (error 9 1401) c (
      present L (strtok tokens rest) (error 13 1402) c (λ (domain, _).
        describe (L.entries domain c.world) (noted L (Call.domain_entries domain) c)))

  unfoldable pub list_domains : Session → Bytes → Connection L → Answer L
  list_domains s rest c = require L (is_sa s) (error 9 2301) c (
      let d = noted L (Call.domain_entries []) c in
      present L (first_entry (L.entries [] c.world)) (error 31 2302) d (λ es.
        (dot, send_lines L (paged (page_bounds rest) entry_lines [] 0 es) (send L ok_more d))))

  unfoldable pub find_domain : Session → Bytes → Connection L → Answer L
  find_domain s rest c = require L (is_sa s) (error 9 2401) c (
      present L (strtok tokens rest) (error 13 2402) c (λ (domain, more).
        let d = noted L (Call.domain_entries []) c in
        present L (first_entry (L.entries [] c.world)) (error 31 2403) d (λ es. (
          dot,
          send_lines L (found_page (number_in (strtok tokens more)) (find_entry domain 0 es))
              (send L ok_more d),
        ))))

  unfoldable pub domain_count : Session → Bytes → Connection L → Answer L
  domain_count s rest c = require L (is_sa s) (error 9 2501) c (
      let d = noted L (Call.domain_entries []) c in
      present L (first_entry (L.entries [] c.world)) (error 31 2502) d (λ es. (
        dot,
        send_lines L (named (codes "count") (print_nat (length es)) ∷ []) (send L ok_more d),
      )))

  -- The map of addresses, where the module has it.
  abbrev pair_lines : List (Bytes × Bytes) → List Bytes
  pair_lines [] = []
  pair_lines ((ip, domain) ∷ rows) = named ip domain ∷ pair_lines rows

  unfoldable pub get_ip_map : Session → Bytes → Connection L → Answer L
  get_ip_map s rest c = require L (is_sa s) (error 9 3001) c (
      present L (strtok tokens rest) (error 37 3002) c (λ (ip, _).
        require L L.has_ip_alias_domains (error 33 3004) c (
          let d = noted L (Call.vget_ip_map ip) c in
          present L (L.ip_map ip c.world) (failed 3003) d
            (λ domain. (dot, send_lines L (named ip domain ∷ []) (send L ok_more d))))))

  unfoldable pub add_ip_map : Session → Bytes → Connection L → Answer L
  add_ip_map s rest c = require L (is_sa s) (error 9 3101) c (
      present L (strtok tokens rest) (error 32 3102) c (λ (ip, more).
        present L (strtok tokens more) (error 13 3103) c (λ (domain, _).
          require L L.has_ip_alias_domains (error 33 3106) c (
            present L (L.get_assign domain c.world) (error 38 3104) c
              (λ _. on_call L (Call.vadd_ip_map ip domain) c (failed 3105) (λ d. (ok, d)))))))

  unfoldable pub del_ip_map : Session → Bytes → Connection L → Answer L
  del_ip_map s rest c = require L (is_sa s) (error 9 3201) c (
      present L (strtok tokens rest) (error 37 3202) c (λ (ip, more).
        present L (strtok tokens more) (error 13 3203) c (λ (domain, _).
          require L L.has_ip_alias_domains (error 33 3205) c
            (on_call L (Call.vdel_ip_map ip domain) c (failed 3204) (λ d. (ok, d))))))

  unfoldable pub show_ip_map : Session → Bytes → Connection L → Answer L
  show_ip_map s rest c = require L (is_sa s) (error 9 3301) c (
      require L L.has_ip_alias_domains (error 33 3302) c (
        (
          dot,
          send_lines L (pair_lines (L.ip_maps c.world))
              (send L ok_more (noted L Call.vshow_ip_map c)),
        )))

  -- `add_list`, `del_list` and `mod_list`
  abbrev pub not_implemented : ℕ → Session → Bytes → Connection L → Answer L
  not_implemented number s rest c = (error 36 number, c)
