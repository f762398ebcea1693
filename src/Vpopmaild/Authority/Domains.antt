-- ===== src/Vpopmaild/Authority/Domains.antt =====
-- vpopmaild.c: the handlers for the system administrator make allowed calls only.
use vpopmail.Common.{
  ◌≡◌, Bool, true, false, ◌||◌, ◌&&◌, List, [], ◌∷◌, Option, none, some, Bytes, arith, take, codes,
  if◌then◌else◌, Bool-cases, inl, inr,
}
use vpopmail.Vpopmaild.{
  DomainEntry, Call, Library, Session, is_sa, is_qa, failed, ok, ok_more, Reply, Connection,
  present, noted, called, send, send_lines,
}
use vpopmail.Limits.{Vlimits}
use vpopmail.Vpopmaild.Domains.{
  add_domain, add_postmaster, add_alias_domain, del_domain, dom_info, describe, list_domains,
  find_domain, domain_count, get_ip_map, add_ip_map, del_ip_map, show_ip_map,
}
use vpopmail.Vpopmaild.DomainLimits.{get_limits, set_limits, del_limits, read_limits, limit_line}
use vpopmail.Vpopmaild.Options.{is_last}
use vpopmail.Vpopmaild.Authority.{
  Kept, Good, good, require-Good, present-Good, on_call-Good, send_lines-Kept, noted-Kept,
  called-Kept,
}

module _ (L : Library) (s : Session) where
  -- A system administrator's call that is not about files.
  any_call : (b c : Bool) → is_sa s ≡ true → (is_sa s || (is_qa s && b) || c) ≡ true
  any_call b c h = ground arith

  add_postmaster-Good :
      (domain password : Bytes) (c : Connection L)
      → is_sa s ≡ true
      → Kept L s c
      → Good L s (add_postmaster L domain password c)
  add_postmaster-Good domain password c sa h =
      let d = called L (Call.vadduser (codes "postmaster") domain password) c in
      let k : Kept L s d.1 = called-Kept L s _ c h (any_call _ _ sa) in
      elim d.0
        as (λ (b : Bool).
          Good L s
            (if b then (ok, d.1) else (failed 805, (called L (Call.vdeldomain domain) d.1).1))) [
              | true ↦ good L s ok d.1 k
              | false ↦
                  good L s (failed 805) _
                    (called-Kept L s (Call.vdeldomain domain) d.1 k (any_call _ _ sa))
            ]

  pub add_domain-Good :
      (rest : Bytes) (c : Connection L) → Kept L s c → Good L s (add_domain L s rest c)
  unfolding add_domain
  add_domain-Good rest c h = require-Good L s _ _ c _ h (λ _. require-Good L s _ _ c _ h (λ sa.
      present-Good L s _ _ c _ h (λ domain _. present-Good L s _ _ c _ h (λ password _.
        on_call-Good L s _ c _ _ h (any_call _ _ sa) (λ d. add_postmaster-Good _ _ d sa)))))

  pub add_alias_domain-Good :
      (rest : Bytes) (c : Connection L) → Kept L s c → Good L s (add_alias_domain L s rest c)
  unfolding add_alias_domain
  add_alias_domain-Good rest c h = require-Good L s _ _ c _ h (λ sa.
      present-Good L s _ _ c _ h (λ domain _.
        present-Good L s _ _ c _ h
          (λ alias _. on_call-Good L s _ c _ _ h (any_call _ _ sa) (good L s _))))

  pub del_domain-Good :
      (rest : Bytes) (c : Connection L) → Kept L s c → Good L s (del_domain L s rest c)
  unfolding del_domain
  del_domain-Good rest c h = require-Good L s _ _ c _ h (λ sa.
      present-Good L s _ _ c _ h
        (λ domain _. on_call-Good L s _ c _ _ h (any_call _ _ sa) (good L s _)))

  describe-Good :
      (o : Option (List DomainEntry)) (c : Connection L) → Kept L s c → Good L s (describe L o c)
  describe-Good none c h = good L s _ c h
  describe-Good (some []) c h = good L s _ c h
  describe-Good (some (e ∷ es)) c h =
      good L s _ _ (send_lines-Kept L s _ (send L ok_more c) (record { all = h.all }))

  pub dom_info-Good :
      (rest : Bytes) (c : Connection L) → Kept L s c → Good L s (dom_info L s rest c)
  unfolding dom_info
  dom_info-Good rest c h = require-Good L s _ _ c _ h (λ sa.
      present-Good L s _ _ c _ h (λ (domain, _) _.
        describe-Good _ _ (noted-Kept L s (Call.domain_entries domain) c h (any_call _ _ sa))))

  -- The lines of an answer behind a guard on what is read.
  lines_of :
      {A : Type 0} (o : Option A) (e : Reply) (last : Reply) (ls : A → List Bytes)
      (c : Connection L)
      → Kept L s c
      → Good L s (present L o e c (λ a. (last, send_lines L (ls a) (send L ok_more c))))
  lines_of o e last ls c h = present-Good L s o e c _ h (λ a _.
      good L s last _ (send_lines-Kept L s (ls a) (send L ok_more c) (record { all = h.all })))

  pub list_domains-Good :
      (rest : Bytes) (c : Connection L) → Kept L s c → Good L s (list_domains L s rest c)
  unfolding list_domains
  list_domains-Good rest c h =
      require-Good L s _ _ c _ h
        (λ sa. lines_of _ _ _ _ _ (noted-Kept L s (Call.domain_entries []) c h (any_call _ _ sa)))

  pub find_domain-Good :
      (rest : Bytes) (c : Connection L) → Kept L s c → Good L s (find_domain L s rest c)
  unfolding find_domain
  find_domain-Good rest c h = require-Good L s _ _ c _ h (λ sa.
      present-Good L s _ _ c _ h (λ domain _.
        lines_of _ _ _ _ _ (noted-Kept L s (Call.domain_entries []) c h (any_call _ _ sa))))

  pub domain_count-Good :
      (rest : Bytes) (c : Connection L) → Kept L s c → Good L s (domain_count L s rest c)
  unfolding domain_count
  domain_count-Good rest c h =
      require-Good L s _ _ c _ h
        (λ sa. lines_of _ _ _ _ _ (noted-Kept L s (Call.domain_entries []) c h (any_call _ _ sa)))

  pub get_ip_map-Good :
      (rest : Bytes) (c : Connection L) → Kept L s c → Good L s (get_ip_map L s rest c)
  unfolding get_ip_map
  get_ip_map-Good rest c h = require-Good L s _ _ c _ h (λ sa.
      present-Good L s _ _ c _ h (λ (ip, _) _.
        require-Good L s _ _ c _ h
          (λ _. lines_of _ _ _ _ _ (noted-Kept L s (Call.vget_ip_map ip) c h (any_call _ _ sa)))))

  pub add_ip_map-Good :
      (rest : Bytes) (c : Connection L) → Kept L s c → Good L s (add_ip_map L s rest c)
  unfolding add_ip_map
  add_ip_map-Good rest c h = require-Good L s _ _ c _ h (λ sa. present-Good L s _ _ c _ h (λ ip _.
      present-Good L s _ _ c _ h (λ domain _. require-Good L s _ _ c _ h (λ _.
        present-Good L s _ _ c _ h
          (λ _ _. on_call-Good L s _ c _ _ h (any_call _ _ sa) (good L s _))))))

  pub del_ip_map-Good :
      (rest : Bytes) (c : Connection L) → Kept L s c → Good L s (del_ip_map L s rest c)
  unfolding del_ip_map
  del_ip_map-Good rest c h = require-Good L s _ _ c _ h (λ sa. present-Good L s _ _ c _ h (λ ip _.
      present-Good L s _ _ c _ h (λ domain _.
        require-Good L s _ _ c _ h
          (λ _. on_call-Good L s _ c _ _ h (any_call _ _ sa) (good L s _)))))

  pub show_ip_map-Good :
      (rest : Bytes) (c : Connection L) → Kept L s c → Good L s (show_ip_map L s rest c)
  unfolding show_ip_map
  show_ip_map-Good rest c h = require-Good L s _ _ c _ h (λ sa. require-Good L s _ _ c _ h (λ _.
      good L s _ _ (
        send_lines-Kept L s _ (send L ok_more (noted L Call.vshow_ip_map c))
          (record { all = (any_call _ _ sa, h.all) }))))

  read_limits-Kept :
      (ls : List Bytes) (l : Vlimits) (c : Connection L)
      → Kept L s c
      → Kept L s (read_limits L ls l c).1
  unfolding read_limits
  read_limits-Kept [] l c h = record { all = h.all }
  read_limits-Kept (x ∷ xs) l c h =
      let (m, warning) = limit_line x l in
      let k = read_limits-Kept xs m (send_lines L warning c) (send_lines-Kept L s warning c h) in
      elim (Bool-cases (is_last x)) [ inl e ↦ rw e (record { all = h.all }) | inr e ↦ rw e k ]

  pub get_limits-Good :
      (rest : Bytes) (c : Connection L) → Kept L s c → Good L s (get_limits L s rest c)
  unfolding get_limits
  get_limits-Good rest c h = require-Good L s _ _ c _ h (λ sa.
      present-Good L s _ _ c _ h (λ (domain, _) _.
        lines_of _ _ _ _ _ (noted-Kept L s (Call.vget_limits domain) c h (any_call _ _ sa))))

  pub set_limits-Good :
      (rest : Bytes) (c : Connection L) → Kept L s c → Good L s (set_limits L s rest c)
  unfolding set_limits
  set_limits-Good rest c h = require-Good L s _ _ c _ h (λ sa.
      present-Good L s _ _ c _ h (λ (param, _) _.
        let call = Call.vget_limits (take 155 param) in
        let k = noted-Kept L s call c h (any_call _ _ sa) in
        present-Good L s _ _ _ _ k (λ l _.
          on_call-Good L s _ _ _ _
            (read_limits-Kept c.input l (send L ok (noted L call c)) (record { all = k.all }))
            (any_call _ _ sa) (good L s _))))

  pub del_limits-Good :
      (rest : Bytes) (c : Connection L) → Kept L s c → Good L s (del_limits L s rest c)
  unfolding del_limits
  del_limits-Good rest c h = require-Good L s _ _ c _ h (λ sa.
      present-Good L s _ _ c _ h
        (λ domain _. on_call-Good L s _ c _ _ h (any_call _ _ sa) (good L s _)))
