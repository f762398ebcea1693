-- ===== src/Email/RoundTrip.antt =====
-- vpopmail.c: `user_domain_to_email` and the two parsers of addresses.
use vpopmail.Common.{
  ℕ, zero, suc, ◌+◌, ◌-◌, ◌≤◌, ◌<◌, ◌≡◌, ◌≢◌, ◌∙◌, refl, sym, ap, true, false, [], ◌∷◌, ◌++◌, some,
  Bytes, ◌==◌, leb, All, arith, length, take, take_all, All-append, length-append,
}
use vpopmail.Email.{
  Settings, lowerit, split_at, Parsed, parse_domain, parse_user, parse_email, find_at, parse_halves,
  vset_default_domain, parse_email_safe, user_domain_to_email,
}
use vpopmail.Email.Chars.{IsLow, lowerit-fixed, IsUserChar, IsDomainChar, All-username, All-domain}

-- A user name in lower case that no buffer cuts.
abbrev pub IsUser : ℕ → Bytes → Type 0
IsUser room u = (u ≢ []) × All IsUserChar u × All IsLow u × (length u < room) × (length u ≤ 156)

abbrev pub IsDomain : ℕ → Bytes → Type 0
IsDomain room d = (d ≢ []) × All IsDomainChar d × All IsLow d × (length d < room) × (length d ≤ 156)

split_at-user :
    (u rest : Bytes)
    → All IsUserChar u
    → split_at b'@' (u ++ (b'@' ∷ rest)) ≡ record { front = u; back = some rest }
unfolding split_at
split_at-user [] rest h = refl
split_at-user (c ∷ cs) rest (hc, hs) =
    let other : (c == b'@') ≡ false = ground arith in rw (other, split_at-user cs rest hs) refl

built :
    (settings : Settings) (u d : Bytes) (elen : ℕ)
    → u ≢ []
    → d ≢ []
    → length u + length d + 1 < elen
    → user_domain_to_email settings u d elen ≡ some (u ++ (b'@' ∷ d))
unfolding user_domain_to_email
built settings [] d elen hu hd k = absurd (hu refl)
built settings (c ∷ cs) [] elen hu hd k = absurd (hd refl)
built settings (c ∷ cs) (x ∷ xs) elen hu hd k =
    let fits : leb elen (length (c ∷ cs) + length (x ∷ xs) + 1) ≡ false = ground (arith, k) in
    rw fits refl

domain_kept :
    (settings : Settings) (d : Bytes) (dlen : ℕ) (p : Parsed)
    → IsDomain dlen d
    → parse_domain settings dlen (some d) p ≡ record p { success = true; domain = d }
unfolding parse_domain
domain_kept settings d zero p h = absurd (omega (arith, h.3))
domain_kept settings d (suc n) p (ne, hc, hl, hn, hk) =
    let e : lowerit (take (suc n - 1) d) ≡ d =
      ap lowerit (take_all (suc n - 1) d (omega arith)) ∙ lowerit-fixed d hl hk in
    rw (e, All-domain d hc) refl

user_kept :
    (settings : Settings) (u d : Bytes) (ulen dlen : ℕ) (p : Parsed)
    → IsUser ulen u
    → IsDomain dlen d
    → parse_user settings ulen dlen (record { front = u; back = some d }) p
      ≡ record { success = true; user = u; domain = d }
unfolding parse_user
user_kept settings u d zero dlen p h k = absurd (omega (arith, h.3))
user_kept settings u d (suc n) dlen p (ne, hc, hl, hn, hk) k =
    let e : lowerit (take n u) ≡ u =
      ap lowerit (take_all n u (omega arith)) ∙ lowerit-fixed u hl hk in
    rw (e, All-username u hc) (domain_kept settings d dlen (record p { user = u }) k)

parsed :
    (settings : Settings) (u d : Bytes) (ulen dlen : ℕ) (user domain : Bytes)
    → IsUser ulen u
    → IsDomain dlen d
    → parse_email_safe settings (u ++ (b'@' ∷ d)) user ulen domain dlen
      ≡ record { success = true; user = u; domain = d }
unfolding parse_email_safe
parsed settings [] d ulen dlen user domain hu hd = absurd (hu.0 refl)
parsed settings (c ∷ cs) d ulen dlen user domain hu hd =
    ap
      (λ h.
        parse_user settings ulen dlen h (record { success = true; user = user; domain = domain }))
      (split_at-user (c ∷ cs) d hu.1)
    ∙ user_kept settings (c ∷ cs) d ulen dlen
        (record { success = true; user = user; domain = domain }) hu hd

-- For a user name and a domain in lower case, of the characters that are allowed, not empty, of at
-- most 156 bytes and shorter than their buffers, with room for the address: `user_domain_to_email`
-- builds an address, from which `parse_email_safe` takes just that user name and that domain,
-- whatever the buffers held and the host's settings are.
pub parse_email_safe-address :
    (settings : Settings) (u d : Bytes) (elen ulen dlen : ℕ) (user domain : Bytes)
    → IsUser ulen u
    → IsDomain dlen d
    → length u + length d + 1 < elen
    → (email : Bytes) × (user_domain_to_email settings u d elen ≡ some email)
      × (parse_email_safe settings email user ulen domain dlen
          ≡ record { success = true; user = u; domain = d })
parse_email_safe-address settings u d elen ulen dlen user domain hu hd k = (
  u ++ (b'@' ∷ d),
  built settings u d elen hu.0 hd.0 k,
  parsed settings u d ulen dlen user domain hu hd,
)

default_kept : (settings : Settings) (d : Bytes) → d ≢ [] → vset_default_domain settings d ≡ d
unfolding vset_default_domain
default_kept settings [] h = absurd (h refl)
default_kept settings (c ∷ cs) h = refl

parse_email-address :
    (settings : Settings) (u d : Bytes) (n : ℕ)
    → IsUser n u
    → IsDomain n d
    → length u + length d + 1 ≤ 156
    → parse_email settings (u ++ (b'@' ∷ d)) n ≡ record { success = true; user = u; domain = d }
unfolding parse_email find_at parse_halves
parse_email-address settings u d n (nu, cu, lu, ru, ku) (nd, cd, ld, rd, kd) k =
    let m = length-append u (b'@' ∷ d) in
    let low : lowerit (u ++ (b'@' ∷ d)) ≡ u ++ (b'@' ∷ d) =
      lowerit-fixed (u ++ (b'@' ∷ d)) (All-append IsLow u (b'@' ∷ d) lu (refl, ld))
        (omega (arith, m)) in
    let halves = split_at-user u d cu in
    rw
      (
        low,
        halves,
        take_all (n - 1) u (omega arith),
        take_all (n - 1) d (omega arith),
        All-username u cu,
        All-domain d cd,
        default_kept settings d nd,
      )
      refl

-- On an address of a user name and a domain as above of at most 156 bytes in all, `parse_email` and
-- `parse_email_safe` give the same parts, with buffers of the same size.
pub parsers_agree :
    (settings : Settings) (u d : Bytes) (n : ℕ) (user domain : Bytes)
    → IsUser n u
    → IsDomain n d
    → length u + length d + 1 ≤ 156
    → parse_email settings (u ++ (b'@' ∷ d)) n
      ≡ parse_email_safe settings (u ++ (b'@' ∷ d)) user n domain n
parsers_agree settings u d n user domain hu hd k =
    parse_email-address settings u d n hu hd k ∙ sym (parsed settings u d n n user domain hu hd)
