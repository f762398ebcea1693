-- ===== src/Email/Results.antt =====
-- vpopmail.c: what the parsers of addresses leave in the buffers of their callers.
use vpopmail.Common.{
  ℕ, zero, suc, ◌-◌, ◌≤◌, ◌<◌, ◌≡◌, ◌≢◌, ◌∙◌, refl, sym, ap, Bool, true, false, [], ◌∷◌, Option,
  none, some, Bytes, if◌then◌else◌, All, arith, length, take, length-take,
}
use mathlib.Core.Path.{subst}
use vpopmail.Email.{
  Settings, lowerit, is_username_valid, split_at, Halves, Parsed, parse_domain, parse_user,
  parse_email_safe, configured_safe, from_environment_safe, from_ip_safe, is_empty,
  vset_default_domain_safe,
}
use vpopmail.Email.Chars.{
  IsLow, lowerit-All, length-lowerit, IsUserChar, IsDomainChar, username-All, domain-All,
}

-- A text that a buffer of `room` bytes holds, of characters of the kind `P`, in lower case and cut to
-- what `lowerit` keeps.
abbrev pub Fits : (ℕ → Type 0) → ℕ → Bytes → Type 0
Fits P room s = All P s × All IsLow s × (length s < room) × (length s ≤ 156)

-- A default domain is configured, and IP_ALIAS_DOMAINS finds no host, for which the copy of
-- `vset_default_domain_safe` would write behind the buffer.
abbrev pub IsConfigured : Settings → Type 0
IsConfigured settings = (settings.configured ≢ []) × (settings.ip_host ≡ none)

length-take_pred : (n : ℕ) (s : Bytes) → length (take (suc n - 1) s) < suc n
length-take_pred n s = let m = length-take (suc n - 1) s in omega (arith, m)

length-configured :
    (settings : Settings) (n : ℕ)
    → IsConfigured settings
    → length (configured_safe settings (suc n)) < suc n
length-configured settings n (h, _) = by_cases settings.configured h
  where
    by_cases :
        (c : Bytes)
        → c ≢ []
        → length (if is_empty c then from_ip_safe (suc n) settings.ip_host else take (suc n - 1) c)
          < suc n
    by_cases [] ne = absurd (ne refl)
    by_cases (c ∷ cs) ne = length-take_pred n (c ∷ cs)

length-environment :
    (settings : Settings) (n : ℕ) (o : Option Bytes)
    → IsConfigured settings
    → length (from_environment_safe settings (suc n) o) < suc n
length-environment settings n none h = length-configured settings n h
length-environment settings n (some []) h = length-configured settings n h
length-environment settings n (some (c ∷ cs)) h = length-take_pred n (c ∷ cs)

length-default :
    (settings : Settings) (domain : Bytes) (dlen : ℕ)
    → IsConfigured settings
    → length domain < dlen
    → length (vset_default_domain_safe settings domain dlen) < dlen
unfolding vset_default_domain_safe
length-default settings domain zero h k = absurd (omega (arith, k))
length-default settings (c ∷ cs) (suc n) h k = k
length-default settings [] (suc n) h k = length-environment settings n settings.environment h

domain_Fits :
    (settings : Settings) (dlen : ℕ) (back : Option Bytes) (p : Parsed)
    → IsConfigured settings
    → length p.domain < dlen
    → (parse_domain settings dlen back p).success ≡ true
    → Fits IsDomainChar dlen (parse_domain settings dlen back p).domain
unfolding parse_domain
domain_Fits settings zero back p h k s = absurd (omega (arith, k))
domain_Fits settings (suc n) none p h k s =
    let d : Bytes = vset_default_domain_safe settings p.domain (suc n) in
    let (short, limit) = length-lowerit d in
    (
      domain-All (lowerit d) s,
      lowerit-All d,
      omega (arith, short, length-default settings p.domain (suc n) h k),
      limit,
    )
domain_Fits settings (suc n) (some b) p h k s =
    let d : Bytes = take (suc n - 1) b in
    let (short, limit) = length-lowerit d in
    let m = length-take (suc n - 1) b in
    (domain-All (lowerit d) s, lowerit-All d, omega (arith, short, m), limit)

accepted :
    (b : Bool) (x y : Parsed)
    → y.success ≡ false
    → (if b then x else y).success ≡ true
    → (b ≡ true) × ((if b then x else y) ≡ x)
accepted true x y e s = (refl, refl)
accepted false x y e s = absurd (ground (arith, e, s))

user_stays :
    (settings : Settings) (dlen : ℕ) (back : Option Bytes) (p : Parsed)
    → (parse_domain settings dlen back p).user ≡ p.user
unfolding parse_domain
user_stays settings zero back p = refl
user_stays settings (suc n) back p = refl

-- Both buffers are filled.
abbrev pub BothFit : ℕ → ℕ → Parsed → Type 0
BothFit ulen dlen p = Fits IsUserChar ulen p.user × Fits IsDomainChar dlen p.domain

user_Fits :
    (settings : Settings) (ulen dlen : ℕ) (h : Halves) (p : Parsed)
    → IsConfigured settings
    → length p.domain < dlen
    → 0 < ulen
    → (parse_user settings ulen dlen h p).success ≡ true
    → BothFit ulen dlen (parse_user settings ulen dlen h p)
unfolding parse_user
user_Fits settings zero dlen h p c k z s = absurd (omega (arith, z))
user_Fits settings (suc n) dlen h p c k z s =
    let t : Bytes = take n h.front in
    let u : Bytes = lowerit t in
    let q : Parsed = record p { user = u } in
    let (valid, e) =
      accepted (is_username_valid u) (parse_domain settings dlen h.back q)
        (record { success = false; user = u; domain = p.domain }) refl s in
    let (short, limit) = length-lowerit t in
    let m = length-take n h.front in
    let same = user_stays settings dlen h.back q in
    subst (BothFit (suc n) dlen) (sym e) (
      subst (Fits IsUserChar (suc n)) (sym same)
          (username-All u valid, lowerit-All t, omega (arith, short, m), limit),
      domain_Fits settings dlen h.back q c k (ap (λ x. x.success) (sym e) ∙ s),
    )

-- If `parse_email_safe` succeeds with buffers for both parts, the buffers hold a user name and a
-- domain that fit them, of the characters that are allowed, in lower case and of at most 156 bytes.
-- The buffer for the domain held a text that fits before, a default domain is configured, and
-- IP_ALIAS_DOMAINS gives no host for the address.
pub parse_email_safe-BothFit :
    (settings : Settings) (email user domain : Bytes) (ulen dlen : ℕ)
    → IsConfigured settings
    → length domain < dlen
    → 0 < ulen
    → (parse_email_safe settings email user ulen domain dlen).success ≡ true
    → BothFit ulen dlen (parse_email_safe settings email user ulen domain dlen)
unfolding parse_email_safe
parse_email_safe-BothFit settings [] user domain ulen dlen c k z s = absurd (ground (arith, s))
parse_email_safe-BothFit settings (x ∷ xs) user domain ulen dlen c k z s =
    user_Fits settings ulen dlen (split_at b'@' (x ∷ xs))
      (record { success = true; user = user; domain = domain }) c k z s
