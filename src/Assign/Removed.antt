-- ===== src/Assign/Removed.antt =====
-- What `remove_lines` takes out of a file, and what it leaves when it fails.
use vpopmail.Common.{
  ℕ, suc, ◌≡◌, ◌⊎◌, inl, inr, refl, ap, Bool, true, false, List, [], ◌∷◌, Option, none, some, Bytes,
  All, equal, equal_iff, arith, Bool-cases,
}
use vpopmail.Common.Int.{pos, negsuc}
use vpopmail.Assign.{unlines, Host, works}
use vpopmail.Assign.Reading.{IsLine, entries-unlines}
use vpopmail.Assign.Remove.{
  listed, Split, split_line, split, remove_from, remove_opened, remove_lines,
}

abbrev pub In : Bytes → List Bytes → Type 0
In l [] = ⊥
In l (a ∷ rest) = (l ≡ a) ⊎ In l rest

-- `Without aliases ls ks n`: `ks` is `ls` without its `n` lines that are among the aliases.
pub data Without (aliases : List Bytes) : List Bytes → List Bytes → ℕ → Type 0 where
  nothing : Without aliases [] [] 0
  drops :
      {l : Bytes} {ls ks : List Bytes} {n : ℕ}
      → In l aliases
      → Without aliases ls ks n
      → Without aliases (l ∷ ls) ks (suc n)
  keeps :
      {l : Bytes} {ls ks : List Bytes} {n : ℕ}
      → ¬ In l aliases
      → Without aliases ls ks n
      → Without aliases (l ∷ ls) (l ∷ ks) n

listed-In : (l : Bytes) (aliases : List Bytes) → listed l aliases ≡ true → In l aliases
unfolding listed
listed-In l [] h = absurd (ground arith)
listed-In l (a ∷ rest) h = elim (Bool-cases (equal l a)) [
  | inl e ↦ inl ((equal_iff l a).0 e)
  | inr e ↦ inr (listed-In l rest (rw e at h))
]

In-listed : (l : Bytes) (aliases : List Bytes) → In l aliases → listed l aliases ≡ true
unfolding listed
In-listed l [] h = absurd h
In-listed l (a ∷ rest) (inl e) = let same = (equal_iff l a).1 e in ground (arith, same)
In-listed l (a ∷ rest) (inr h) = ground (arith, In-listed l rest h)

split_line-Without :
    (aliases ls : List Bytes) (l : Bytes) (rest : Split) (b : Bool)
    → listed l aliases ≡ b
    → Without aliases ls rest.kept rest.removed
    → Without aliases (l ∷ ls) (split_line b l rest).kept (split_line b l rest).removed
split_line-Without aliases ls l rest true e w = drops (listed-In l aliases e) w
split_line-Without aliases ls l rest false e w =
    keeps (λ h. let yes_listed = In-listed l aliases h in ground (arith, yes_listed, e)) w

split-Without :
    (aliases ls : List Bytes)
    → Without aliases ls (split aliases ls).kept (split aliases ls).removed
unfolding split
split-Without aliases [] = nothing
split-Without aliases (l ∷ ls) =
    split_line-Without aliases ls l (split aliases ls) (listed l aliases) refl
      (split-Without aliases ls)

-- Where every call succeeds, a file of lines that fit the buffer loses exactly the lines that are
-- among the given ones, every copy of them, the others stay in their order, and the answer is the
-- number of lines taken out.
pub remove_lines_lem :
    (aliases ls : List Bytes)
    → All IsLine ls
    → (ks : List Bytes) × (n : ℕ) × Without aliases ls ks n
      × (remove_lines works aliases (some (unlines ls)) ≡ (pos n, some (unlines ks)))
unfolding remove_lines remove_opened remove_from
remove_lines_lem aliases ls h = (
  (split aliases ls).kept,
  (split aliases ls).removed,
  split-Without aliases ls,
  ap (λ es. (pos (split aliases es).removed, some (unlines (split aliases es).kept)))
      (entries-unlines ls h),
)

-- A negative answer of `remove_lines` leaves the file as it was, or missing if it was missing.
pub remove_lines-error :
    (h : Host) (aliases : List Bytes) (file : Option Bytes) (n : ℕ) (after : Option Bytes)
    → remove_lines h aliases file ≡ (negsuc n, after)
    → after ≡ file
unfolding remove_lines remove_opened remove_from
remove_lines-error h aliases none n after e = ground (arith, e)
remove_lines-error h aliases (some text) n after e = ground (arith, e)
