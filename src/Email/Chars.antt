-- ===== src/Email/Chars.antt =====
-- Lower case, and the characters of user names and domain names.
use vpopmail.Common.{
  ℕ, suc, ◌+◌, ◌≤◌, ◌≡◌, refl, Bool, true, false, ◌&&◌, [], ◌∷◌, Bytes, ◌==◌, within, if◌then◌else◌,
  All, arith, length,
}
use vpopmail.Email.{
  to_lower, lower_from, lowerit, is_user_char, is_username_valid, is_domain_char, is_domain_valid,
}

-- No letter in upper case.
abbrev pub IsLow : ℕ → Type 0
IsLow c = within b'A' b'Z' c ≡ false

to_lower-IsLow : (c : ℕ) → IsLow (to_lower c)
to_lower-IsLow c = ground arith

lower_from-All : (size : ℕ) (s : Bytes) → All IsLow (lower_from size s)
unfolding lower_from
lower_from-All size [] = tt
lower_from-All size (c ∷ cs) =
    elim (size == 156)
      as (λ b. All IsLow (if b then [] else to_lower c ∷ lower_from (suc size) cs)) [
        | true ↦ tt
        | false ↦ (to_lower-IsLow c, lower_from-All (suc size) cs)
      ]

pub lowerit-All : (s : Bytes) → All IsLow (lowerit s)
unfolding lowerit
lowerit-All s = lower_from-All 0 s

lower_from-fixed :
    (size : ℕ) (s : Bytes) → All IsLow s → length s + size ≤ 156 → lower_from size s ≡ s
unfolding lower_from
lower_from-fixed size [] h k = refl
lower_from-fixed size (c ∷ cs) (hc, hs) k =
    let rest : lower_from (suc size) cs ≡ cs = lower_from-fixed (suc size) cs hs (omega arith) in
    let more : (size == 156) ≡ false = ground arith in rw (more, rest, hc) refl

-- A text of at most 156 bytes without upper case is not changed.
pub lowerit-fixed : (s : Bytes) → All IsLow s → length s ≤ 156 → lowerit s ≡ s
unfolding lowerit
lowerit-fixed s h k = lower_from-fixed 0 s h (omega (arith, k))

length-lower_from :
    (size : ℕ) (s : Bytes)
    → size ≤ 156
    → (length (lower_from size s) ≤ length s) × (length (lower_from size s) + size ≤ 156)
unfolding lower_from
length-lower_from size [] h = (omega arith, omega arith)
length-lower_from size (c ∷ cs) h = ground (arith, length-lower_from (suc size) cs)

pub length-lowerit : (s : Bytes) → (length (lowerit s) ≤ length s) × (length (lowerit s) ≤ 156)
unfolding lowerit
length-lowerit s = let (a, b) = length-lower_from 0 s (omega arith) in (a, omega (arith, b))

abbrev pub IsUserChar : ℕ → Type 0
IsUserChar c = is_user_char c ≡ true

abbrev pub IsDomainChar : ℕ → Type 0
IsDomainChar c = is_domain_char c ≡ true

both : (a b : Bool) → (a && b) ≡ true → (a ≡ true) × (b ≡ true)
both a b h = ground arith

pub username-All : (s : Bytes) → is_username_valid s ≡ true → All IsUserChar s
unfolding is_username_valid
username-All [] h = tt
username-All (c ∷ cs) h =
    let (a, b) = both (is_user_char c) (is_username_valid cs) h in (a, username-All cs b)

pub All-username : (s : Bytes) → All IsUserChar s → is_username_valid s ≡ true
unfolding is_username_valid
All-username [] h = refl
All-username (c ∷ cs) (hc, hs) = rw (hc, All-username cs hs) refl

pub domain-All : (s : Bytes) → is_domain_valid s ≡ true → All IsDomainChar s
unfolding is_domain_valid
domain-All [] h = tt
domain-All (c ∷ cs) h =
    let (a, b) = both (is_domain_char c) (is_domain_valid cs) h in (a, domain-All cs b)

pub All-domain : (s : Bytes) → All IsDomainChar s → is_domain_valid s ≡ true
unfolding is_domain_valid
All-domain [] h = refl
All-domain (c ∷ cs) (hc, hs) = rw (hc, All-domain cs hs) refl
