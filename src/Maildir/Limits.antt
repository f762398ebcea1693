-- ===== src/Maildir/Limits.antt =====
-- maildirquota.c, `qcalc`: what it answers for a well-formed quota string.
use vpopmail.Common.{
  ℕ, suc, ◌^◌, ◌+◌, ◌-◌, ◌*◌, ◌/◌, ◌<◌, ◌≤◌, ◌≡◌, ◌⊎◌, inl, inr, refl, sym, ap, ◌∙◌, true, false,
  List, [], ◌∷◌, ◌++◌, append_assoc, Option, none, some, Bytes, All, arith,
}
use mathlib.Core.Path.{subst}
use native.Mathlib.Nat.{div-le_of_le-mul}
use vpopmail.Common.Int.{ℤ, pos, negsuc}
use vpopmail.Common.Decimal.{
  is_digit, IsDigit, print_nat, print_nat-All, print_nat-ne-nil, read_digits, read_digits-print_nat,
}
use vpopmail.Quota.Parse.{Part, bytes, messages, amount, letter, render}
use vpopmail.Maildir.{Shares, zero_shares, share, judge, scan, larger, finished, qcalc}

-- The amount of a part fits an `off_t`, and that of messages an `int`.
abbrev pub IsAmount : Part → Type 0
IsAmount (bytes i) = i < 2 ^ 63
IsAmount (messages i) = i < 2 ^ 31

-- A size of which a hundred times fits an `off_t`; one below 0 also fits its share, an `int`.
abbrev pub IsUsage : ℤ → Type 0
IsUsage (pos k) = k * 100 < 2 ^ 63
IsUsage (negsuc k) = suc k * 100 < 2 ^ 31

-- A part of the quota that is not enough.
abbrev pub Exceeds : ℤ → ℕ → Part → Type 0
Exceeds (pos k) n (bytes i) = i < k
Exceeds (negsuc k) n (bytes i) = ⊥
Exceeds s n (messages i) = i < n

abbrev pub SomeExceeds : ℤ → ℕ → Part → List Part → Type 0
SomeExceeds s n p [] = Exceeds s n p
SomeExceeds s n p (r ∷ rs) = Exceeds s n p ⊎ SomeExceeds s n r rs

abbrev pub IsShare : Shares → Type 0
IsShare h = (h.spercentage ≤ 100) × (h.npercentage ≤ 100)

-- The share that a part leaves behind.
abbrev pub with_part : ℤ → ℕ → Part → Shares → Shares
with_part s n (bytes i) h = record h { spercentage = share i s }
with_part s n (messages i) h = record h { npercentage = share i (pos n) }

quotient_le : (a b : ℕ) → a ≤ b → a * 100 / b ≤ 100
quotient_le a b h = div-le_of_le-mul b (omega arith)

share_le : (i s : ℕ) → s ≤ i → share i (pos s) ≤ 100
share_le i s h = ground (
  arith,
  quotient_le (s / 1) (i / 1) (omega arith),
  quotient_le (s / 1024) (i / 1024) (omega arith),
)

scan_digit :
    (s : ℤ) (n d : ℕ) (rest : Bytes) (i : ℕ) (h : Shares)
    → is_digit d ≡ true
    → scan s n (some i) (d ∷ rest) h ≡ scan s n (some (i * 10 + (d - b'0'))) rest h
unfolding scan
scan_digit s n d rest i h e = rw (scan, e) refl

read_digit :
    (d : ℕ) (rest : Bytes) (i : ℕ)
    → is_digit d ≡ true
    → read_digits i (d ∷ rest) ≡ read_digits (i * 10 + (d - b'0')) rest
unfolding read_digits
read_digit d rest i e = rw (read_digits, e) refl

-- Digits are read as their number.
scan_digits :
    (s : ℤ) (n : ℕ) (ds : Bytes) (i c : ℕ) (rest : Bytes) (h : Shares)
    → All IsDigit ds
    → is_digit c ≡ false
    → scan s n (some i) (ds ++ (c ∷ rest)) h
      ≡ scan s n (some (read_digits i (ds ++ (c ∷ rest)))) (c ∷ rest) h
unfolding scan read_digits
scan_digits s n [] i c rest h hs hc = rw (read_digits, hc) refl
scan_digits s n (d ∷ ds) i c rest h (hd, hs) hc =
    scan_digit s n d (ds ++ (c ∷ rest)) i h hd
    ∙ scan_digits s n ds (i * 10 + (d - b'0')) c rest h hs hc
    ∙ ap (λ k. scan s n (some k) (c ∷ rest) h) (sym (read_digit d (ds ++ (c ∷ rest)) i hd))

judge_part :
    (s : ℤ) (n : ℕ) (p : Part) (h : Shares)
    → (Exceeds s n p × (judge s n (amount p) (letter p) h ≡ none))
      ⊎ ((¬ Exceeds s n p) × (judge s n (amount p) (letter p) h ≡ some (with_part s n p h)))
unfolding judge
judge_part (pos k) n (bytes i) h = ground arith
judge_part (negsuc k) n (bytes i) h = ground arith
judge_part s n (messages i) h = ground arith

-- What becomes of the shares behind a part.
abbrev behind : ℤ → ℕ → Bytes → Option Shares → Option Shares
behind s n rest none = none
behind s n rest (some h) = scan s n none rest h

scan_first :
    (s : ℤ) (n d : ℕ) (rest : Bytes) (h : Shares)
    → is_digit d ≡ true
    → scan s n none (d ∷ rest) h ≡ scan s n (some (d - b'0')) rest h
unfolding scan
scan_first s n d rest h e = rw (scan, e) refl

scan_number :
    (s : ℤ) (n k c : ℕ) (rest : Bytes) (h : Shares)
    → is_digit c ≡ false
    → scan s n none (print_nat k ++ (c ∷ rest)) h ≡ behind s n rest (judge s n k c h)
unfolding scan
scan_number s n k c rest h hc = from (print_nat k) refl (print_nat-All k)
  where
    stop : scan s n (some k) (c ∷ rest) h ≡ behind s n rest (judge s n k c h)
    stop =
        rw (scan, hc)
          (elim (judge s n k c h)
            as (λ (x : Option Shares).
              elim x [ none ↦ none | some r ↦ scan s n none rest r ] ≡ behind s n rest x) [
                | none ↦ refl
                | some r ↦ refl
              ])

    from :
        (ds : Bytes)
        → print_nat k ≡ ds
        → All IsDigit ds
        → scan s n none (ds ++ (c ∷ rest)) h ≡ behind s n rest (judge s n k c h)
    from [] e hs = absurd (print_nat-ne-nil k e)
    from (d ∷ ds) e (hd, hs) =
        let first : d - b'0' ≡ 0 * 10 + (d - b'0') = omega arith in
        let number : read_digits 0 (d ∷ (ds ++ (c ∷ rest))) ≡ k =
          subst (λ x. read_digits 0 (x ++ (c ∷ rest)) ≡ k) e
            (read_digits-print_nat k (c ∷ rest) hc) in
        scan_first s n d (ds ++ (c ∷ rest)) h hd
        ∙ ap (λ i. scan s n (some i) (ds ++ (c ∷ rest)) h) first
        ∙ scan_digits s n ds (0 * 10 + (d - b'0')) c rest h hs hc
        ∙ ap (λ i. scan s n (some i) (c ∷ rest) h)
            (sym (read_digit d (ds ++ (c ∷ rest)) 0 hd) ∙ number)
        ∙ stop

letter_stops : (p : Part) → is_digit (letter p) ≡ false
letter_stops (bytes i) = refl
letter_stops (messages i) = refl

scan_last :
    (s : ℤ) (n : ℕ) (p : Part) (h : Shares)
    → scan s n none (render p []) h ≡ judge s n (amount p) (letter p) h
unfolding scan
scan_last s n p h =
    scan_number s n (amount p) (letter p) [] h (letter_stops p)
    ∙ last (judge s n (amount p) (letter p) h)
  where
    last : (x : Option Shares) → behind s n [] x ≡ x
    last none = refl
    last (some g) = refl

-- Behind a part and a comma.
next_part : ℤ → ℕ → Part → List Part → Option Shares → Option Shares
next_part s n r rs none = none
next_part s n r rs (some g) = scan s n none (render r rs) g

scan_comma :
    (s : ℤ) (n : ℕ) (p r : Part) (rs : List Part) (h : Shares)
    → scan s n none (render p (r ∷ rs)) h ≡ next_part s n r rs (judge s n (amount p) (letter p) h)
unfolding scan next_part
scan_comma s n p r rs h =
    ap (λ x. scan s n none x h)
      (append_assoc (print_nat (amount p)) (letter p ∷ []) (b',' ∷ render r rs))
    ∙ scan_number s n (amount p) (letter p) (b',' ∷ render r rs) h (letter_stops p)
    ∙ comma (judge s n (amount p) (letter p) h)
  where
    comma : (x : Option Shares) → behind s n (b',' ∷ render r rs) x ≡ next_part s n r rs x
    comma none = refl
    comma (some g) = refl

with_part-IsShare :
    (s : ℤ) (n : ℕ) (p : Part) (h : Shares)
    → (¬ Exceeds s n p)
    → IsShare h
    → IsShare (with_part s n p h)
with_part-IsShare (pos k) n (bytes i) h e (a, b) = (share_le i k (ground arith), b)
with_part-IsShare (negsuc k) n (bytes i) h e (a, b) = ground arith
with_part-IsShare s n (messages i) h e (a, b) = (a, share_le i n (ground arith))

-- What the scan of a quota string comes to.
Scanned : ℤ → ℕ → Part → List Part → Option Shares → Type 0
Scanned s n p rs x =
    (SomeExceeds s n p rs × (x ≡ none))
    ⊎ ((¬ SomeExceeds s n p rs) × ((g : Shares) × (x ≡ some g) × IsShare g))

scan-Scanned :
    (s : ℤ) (n : ℕ) (p : Part) (rs : List Part) (h : Shares)
    → IsShare h
    → Scanned s n p rs (scan s n none (render p rs) h)
unfolding Scanned next_part
scan-Scanned s n p [] h b = elim (judge_part s n p h) [
  | inl (e, j) ↦ inl (e, scan_last s n p h ∙ j)
  | inr (e, j) ↦ inr (e, (with_part s n p h, scan_last s n p h ∙ j, with_part-IsShare s n p h e b))
]
scan-Scanned s n p (r ∷ rs) h b = elim (judge_part s n p h) [
  | inl (e, j) ↦ inl (inl e, scan_comma s n p r rs h ∙ ap (next_part s n r rs) j)
  | inr (e, j) ↦
      let same = scan_comma s n p r rs h ∙ ap (next_part s n r rs) j in
      elim (scan-Scanned s n r rs (with_part s n p h) (with_part-IsShare s n p h e b)) [
        | inl (f, k) ↦ inl (inr f, same ∙ k)
        | inr (f, (g, k, i)) ↦ inr (λ x. elim x [ inl a ↦ e a | inr c ↦ f c ], (g, same ∙ k, i))
      ]
]

larger_le : (g : Shares) → IsShare g → larger g ≤ 100
larger_le g (a, b) = ground arith

-- On a quota string of numbers of bytes that fit an `off_t` and of messages that fit an `int`, for a size
-- of which a hundred times fits an `off_t`, or an `int` where it is below 0, `qcalc`
-- answers -1 exactly if the size or the number of messages, which fits an `int`, is above one of them, and
-- otherwise 0 with a percentage that is at most 100.
pub qcalc_lem :
    (s : ℤ) (n : ℕ) (p : Part) (rs : List Part)
    → IsUsage s
    → n < 2 ^ 31
    → All IsAmount (p ∷ rs)
    → (SomeExceeds s n p rs × (qcalc s n (render p rs) ≡ none))
      ⊎ ((¬ SomeExceeds s n p rs) × ((k : ℕ) × (qcalc s n (render p rs) ≡ some k) × (k ≤ 100)))
unfolding qcalc Scanned
qcalc_lem s n p rs hs hn hr = elim (scan-Scanned s n p rs zero_shares (omega arith, omega arith)) [
  | inl (e, j) ↦ inl (e, ap finished j)
  | inr (f, (g, j, i)) ↦ inr (f, (larger g, ap finished j, larger_le g i))
]
