-- ===== src/Email/Tests.antt =====
-- Runs of the functions on addresses on concrete inputs.
use vpopmail.Common.{◌≡◌, refl, true, [], none, some, Bytes, codes, arith}
use vpopmail.Email.{
  Settings, is_username_valid, is_domain_valid, vset_default_domain, vset_default_domain_safe,
  lowerit, parse_email, parse_email_safe, user_domain_to_email,
}
use vpopmail.Email.RoundTrip.{IsUser, IsDomain, parse_email_safe-address, parsers_agree}
use vpopmail.Email.Results.{BothFit, parse_email_safe-BothFit}

abbrev plain : Settings
plain = record { environment = none; ip_host = none; configured = codes "example.org" }

lower_case : lowerit (codes "Joe.User") ≡ codes "joe.user"
unfolding lowerit
lower_case = refl

with_percent : (parse_email plain (codes "Joe%Example.com") 96).domain ≡ codes "example.com"
unfolding parse_email is_username_valid is_domain_valid vset_default_domain
with_percent = refl

without_domain : (parse_email_safe plain (codes "joe") [] 33 [] 97).domain ≡ codes "example.org"
unfolding parse_email_safe is_username_valid lowerit vset_default_domain_safe is_domain_valid
without_domain = refl

joe-IsUser : IsUser 33 (codes "joe")
joe-IsUser =
    (ground arith, (refl, (refl, (refl, tt))), (refl, (refl, (refl, tt))), omega arith, omega arith)

b_org-IsDomain : IsDomain 97 (codes "b.org")
b_org-IsDomain = (
  ground arith,
  (refl, (refl, (refl, (refl, (refl, tt))))),
  (refl, (refl, (refl, (refl, (refl, tt))))),
  omega arith,
  omega arith,
)

parse_email_safe-address_example :
    (email : Bytes) × (user_domain_to_email plain (codes "joe") (codes "b.org") 128 ≡ some email)
    × (parse_email_safe plain email [] 33 [] 97
        ≡ record { success = true; user = codes "joe"; domain = codes "b.org" })
parse_email_safe-address_example =
    parse_email_safe-address plain (codes "joe") (codes "b.org") 128 33 97 [] [] joe-IsUser
      b_org-IsDomain (omega arith)

parse_email_safe-BothFit_example :
    BothFit 33 97 (parse_email_safe plain (codes "Joe@B.org") [] 33 [] 97)
unfolding parse_email_safe is_username_valid lowerit is_domain_valid
parse_email_safe-BothFit_example =
    parse_email_safe-BothFit plain (codes "Joe@B.org") [] [] 33 97 (ground arith) (omega arith)
      (omega arith) refl

parsers_agree_example :
    parse_email plain (codes "joe@b.org") 97
    ≡ parse_email_safe plain (codes "joe@b.org") [] 97 [] 97
parsers_agree_example =
    parsers_agree plain (codes "joe") (codes "b.org") 97 [] []
      (
        ground arith,
        (refl, (refl, (refl, tt))),
        (refl, (refl, (refl, tt))),
        omega arith,
        omega arith,
      )
      b_org-IsDomain (omega arith)
