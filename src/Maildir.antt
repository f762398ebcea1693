-- ===== src/Maildir.antt =====
-- maildirquota.c: the quota of one maildir, and its ledger, the file maildirsize.
pub mod Limits
pub mod Counting
pub mod Names
pub mod Ledger
pub mod Written
pub mod Totals
mod Tests
use vpopmail.Common.{
  ℕ, zero, suc, ◌+◌, ◌-◌, ◌*◌, ◌/◌, Bool, true, false, List, [], ◌∷◌, ◌++◌, Option, none, some,
  Bytes, codes, ltb, leb, ◌==◌, if◌then◌else◌,
}
use vpopmail.Common.Int.{ℤ, pos, negsuc}
use vpopmail.Common.Decimal.{is_digit}

-- `spercentage` and `npercentage`.
pub record Shares : Type 0 where
  pub spercentage : ℕ
  pub npercentage : ℕ

-- `i < s` for an `off_t` that is not negative.
abbrev pub below : ℕ → ℤ → Bool
below i (pos s) = ltb i s
below i (negsuc s) = false

-- The share of a usage in a limit, which is above 20 million bytes or messages taken in units of 1024.
-- One below 0 counts as 0, since the larger of the two shares is taken in the end.
abbrev pub share : ℕ → ℤ → ℕ
share i (pos s) =
    let x : ℕ = if ltb 20000000 i then 1024 else 1 in if i == 0 then 100 else s / x * 100 / (i / x)
share i (negsuc s) = if i == 0 then 100 else 0

-- The switch on the byte behind a number; `none` is the return of -1.
unfoldable pub judge : ℤ → ℕ → ℕ → ℕ → Shares → Option Shares
judge s n i c h =
    if c == b'C'
    then (if ltb i n then none else some (record h { npercentage = share i (pos n) }))
    else if below i s
    then none
    else some (record h { spercentage = share i s })

-- The loop over the quota string, in front of the number `i` of a part or behind its first digits. The
-- byte behind a number is looked at by `judge`, and then passed over since it is no digit. The numbers,
-- and the products in `share`, are taken to fit the `off_t` that the code computes them in.
unfoldable pub scan : ℤ → ℕ → Option ℕ → Bytes → Shares → Option Shares
unfolding judge
scan s n none [] h = some h
scan s n (some i) [] h = judge s n i 0 h
scan s n none (c ∷ cs) h = scan s n (if is_digit c then some (c - b'0') else none) cs h
scan s n (some i) (c ∷ cs) h = elim (is_digit c) [
  | true ↦ scan s n (some (i * 10 + (c - b'0'))) cs h
  | false ↦ elim (judge s n i c h) [ none ↦ none | some r ↦ scan s n none cs r ]
]

abbrev larger : Shares → ℕ
larger h = if ltb h.npercentage h.spercentage then h.spercentage else h.npercentage

abbrev finished : Option Shares → Option ℕ
finished none = none
finished (some h) = some (larger h)

abbrev pub zero_shares : Shares
zero_shares = record { spercentage = 0; npercentage = 0 }

-- `qcalc` of a size and a number of messages: -1 as `none`, with the percentage 100, or 0 and the
-- percentage.
unfoldable pub qcalc : ℤ → ℕ → Bytes → Option ℕ
unfolding scan
qcalc s n quota = finished (scan s n none quota zero_shares)
