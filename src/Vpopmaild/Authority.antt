-- ===== src/Vpopmaild/Authority.antt =====
-- vpopmaild.c: which calls a session may make, and the steps by which a handler keeps to them.
pub mod Handlers
pub mod Listing
pub mod Modify
pub mod Domains
pub mod Paths
pub mod Entry
pub mod Sessions
use vpopmail.Common.{
  ◌≡◌, refl, Bool, true, false, ◌&&◌, ◌||◌, List, [], ◌∷◌, Option, none, some, Bytes, equal, take,
  All, arith, if◌then◌else◌,
}
use vpopmail.Email.{lowerit, parse_email}
use vpopmail.Vpopmaild.{
  Vqpasswd, Call, Library, Session, is_sa, is_qa, is_admin, in_domain, Reply, Connection, Answer,
  require, present, on_email, noted, called, on_call, send, send_lines,
}
use vpopmail.Vpopmaild.Lists.{is_prefix}

-- The calls on the accounts, aliases and lists of the session's own domain; of the domain of an account
-- whose directory is used, the code compares the beginning only.
abbrev pub in_own_domain : Session → Call → Bool
in_own_domain s (Call.vadduser u d p) = equal s.the_domain d
in_own_domain s (Call.vdeluser u d) = equal s.the_domain d
in_own_domain s (Call.vauth_setpw pw d) = equal s.the_domain d
in_own_domain s (Call.update_maildirsize d dir q) = equal s.the_domain d
in_own_domain s (Call.send_info u d) = equal s.the_domain d
in_own_domain s (Call.vget_lastauth u d) = equal s.the_domain d
in_own_domain s (Call.readuserquota u d) = equal s.the_domain d
in_own_domain s (Call.vauth_getall d) = equal s.the_domain d
in_own_domain s (Call.scan_lists d) = equal s.the_domain d
in_own_domain s (Call.valias_insert u d t) = equal s.the_domain d
in_own_domain s (Call.valias_remove u d t) = equal s.the_domain d
in_own_domain s (Call.valias_delete u d) = equal s.the_domain d
in_own_domain s (Call.valias_select u d) = equal s.the_domain d
in_own_domain s (Call.valias_select_all d) = equal (lowerit (take 255 s.the_domain)) d
in_own_domain s (Call.use_account u d) = is_prefix s.the_domain d
in_own_domain s _ = false

-- The new entry for the session's own account, what is shown of it, and its directory.
abbrev pub on_own_account : Session → Call → Bool
on_own_account s (Call.vauth_setpw pw d) = equal s.the_user pw.pw_name && equal s.the_domain d
on_own_account s (Call.send_info u d) = equal s.the_user u && equal s.the_domain d
on_own_account s (Call.use_account u d) = equal s.the_user u && equal s.the_domain d
on_own_account s _ = false

-- The directory that belongs to the session: its rights are SA_ADMIN, bit 16, and QA_ADMIN, bit 12.
abbrev pub own_directory : Session → Bytes
own_directory s =
    if s.auth.pw_gid 16
    then s.the_vpopmail_domains
    else if s.auth.pw_gid 12
    then s.the_domain_dir
    else s.the_user_dir

abbrev pub below : Session → Bytes → Bool
below s path = is_prefix (own_directory s) path

-- For a call on files, whether its paths begin with the directory of the session; for another one,
-- the verdict that is given.
abbrev pub on_paths : Session → Call → Bool → Bool
on_paths s (Call.mkdir p) v = below s p
on_paths s (Call.chown p) v = below s p
on_paths s (Call.vdelfiles p) v = below s p
on_paths s (Call.opendir p) v = below s p
on_paths s (Call.move p q) v = below s p && below s q
on_paths s (Call.remove_file p) v = below s p
on_paths s (Call.write_contents p ls) v = below s p
on_paths s (Call.read_contents p) v = below s p
on_paths s (Call.get_stat p) v = below s p
on_paths s _ v = v

-- A system administrator may do all but leave its directory, a domain administrator what is in its
-- domain, and another user may change its account.
abbrev pub allowed : Session → Call → Bool
allowed s call =
    on_paths s call
      (s.auth.pw_gid 16 || (s.auth.pw_gid 12 && in_own_domain s call) || on_own_account s call)

abbrev pub Allowed : Session → Call → Type 0
Allowed s call = allowed s call ≡ true

pub own_domain :
    (s : Session) (domain : Bytes) (other : Bool)
    → is_admin s ≡ true
    → in_domain s domain ≡ true
    → (is_sa s || (is_qa s && equal s.the_domain domain) || other) ≡ true
unfolding in_domain
own_domain s domain other admin inside = ground arith

module _ (L : Library) (s : Session) where
  pub record Kept (c : Connection L) : Type 0 where
    pub all : All (Allowed s) c.log

  pub record Good (a : Answer L) : Type 0 where
    pub kept : Kept a.1

  pub good : (r : Reply) (c : Connection L) → Kept c → Good (r, c)
  good r c h = record { kept = h }

  pub noted-Kept :
      (call : Call) (c : Connection L) → Kept c → allowed s call ≡ true → Kept (noted L call c)
  noted-Kept call c h a = record { all = (a, h.all) }

  pub called-Kept :
      (call : Call) (c : Connection L) → Kept c → allowed s call ≡ true → Kept (called L call c).1
  called-Kept call c h a = record { all = (a, h.all) }

  pub require-Good :
      (b : Bool) (e : Reply) (c : Connection L) (k : Answer L)
      → Kept c
      → (b ≡ true → Good k)
      → Good (require L b e c k)
  unfolding require
  require-Good true e c k h f = f refl
  require-Good false e c k h f = good e c h

  pub present-Good :
      {A : Type 0} (o : Option A) (e : Reply) (c : Connection L) (k : A → Answer L)
      → Kept c
      → ((a : A) → o ≡ some a → Good (k a))
      → Good (present L o e c k)
  unfolding present
  present-Good none e c k h f = good e c h
  present-Good (some a) e c k h f = f a refl

  pub on_email-Good :
      (email : Bytes) (size : _) (e : Reply) (c : Connection L) (k : Bytes → Bytes → Answer L)
      → Kept c
      → ((user domain : Bytes) → Good (k user domain))
      → Good (on_email L email size e c k)
  unfolding on_email
  on_email-Good email size e c k h f =
      let p = parse_email L.settings email size in
      require-Good p.success e c (k p.user p.domain) h (λ _. f p.user p.domain)

  pub on_call-Good :
      (call : Call) (c : Connection L) (e : Reply) (k : Connection L → Answer L)
      → Kept c
      → allowed s call ≡ true
      → ((d : Connection L) → Kept d → Good (k d))
      → Good (on_call L call c e k)
  unfolding on_call
  on_call-Good call c e k h a f =
      require-Good (called L call c).0 e (called L call c).1 _ (called-Kept call c h a)
        (λ _. f _ (called-Kept call c h a))

  pub send_lines-Kept : (ls : List Bytes) (c : Connection L) → Kept c → Kept (send_lines L ls c)
  unfolding send_lines
  send_lines-Kept [] c h = h
  send_lines-Kept (l ∷ ls) c h =
      send_lines-Kept ls (send L (Reply.line l) c) (record { all = h.all })
