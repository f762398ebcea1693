-- ===== src/Maildir/Ledger.antt =====
-- maildirquota.c, `maildirsize_read` and `doaddquota`: the ledger is a text, a line with the quota and
-- then lines with a size and a number of messages each, of which the sums count.
use vpopmail.Common.{
  ℕ, zero, suc, ◌+◌, ◌-◌, Bool, true, false, List, [], ◌∷◌, ◌++◌, Option, none, some, Bytes, ltb,
  leb, ◌==◌, if◌then◌else◌, length, take, drop,
}
use mathlib.Core.Option
use vpopmail.Common.Int.{ℤ, pos, negate, ◌+ℤ◌}
use vpopmail.Common.Decimal.{is_digit, is_space, read_digits, print_int}

-- The leading digits, and the rest.
unfoldable pub span_digits : Bytes → Bytes × Bytes
span_digits [] = ([], [])
span_digits (c ∷ cs) =
    let (ds, rest) = span_digits cs in if is_digit c then (c ∷ ds, rest) else ([], c ∷ cs)

unfoldable pub scan_unsigned : Bytes → Option (ℕ × Bytes)
unfolding span_digits read_digits
scan_unsigned s = elim (span_digits s).0 [
  | [] ↦ none
  | d ∷ ds ↦ some (read_digits 0 (d ∷ ds), (span_digits s).1)
]

unfoldable pub scan_signed : Bytes → Option (ℤ × Bytes)
unfolding scan_unsigned
scan_signed [] = none
scan_signed (c ∷ cs) =
    if c == b'-'
    then Option.map (λ p. (negate p.0, p.1)) (scan_unsigned cs)
    else Option.map (λ p. (pos p.0, p.1)) (scan_unsigned (if c == b'+' then cs else c ∷ cs))

-- `%ld` and `%d` of `sscanf`.
unfoldable pub scan_int : Bytes → Option (ℤ × Bytes)
unfolding scan_signed
scan_int [] = none
scan_int (c ∷ cs) = let rest = scan_int cs in if is_space c then rest else scan_signed (c ∷ cs)

-- `sscanf(q, "%ld %d", &n, &c)`; what is not read stays 0.
unfoldable pub scan_entry : Bytes → ℤ × ℤ
unfolding scan_int
scan_entry q = elim (scan_int q) [
  | none ↦ (pos 0, pos 0)
  | some (n, rest) ↦ elim (scan_int rest) [ none ↦ (n, pos 0) | some (c, left) ↦ (n, c) ]
]

-- `*sizeptr`, `*cntptr` and `*nlines`. Numbers that `%ld` and `%d` do not fit, and sums that an
-- `off_t` and an `int` do not, are not modelled.
pub record Ledger : Type 0 where
  pub size : ℤ
  pub count : ℤ
  pub nlines : ℕ

abbrev pub empty : Ledger
empty = record { size = pos 0; count = pos 0; nlines = 0 }

abbrev pub add_entry : ℤ × ℤ → Ledger → Ledger
add_entry e l = record { size = l.size +ℤ e.0; count = l.count +ℤ e.1; nlines = suc l.nlines }

-- The lines of the buffer up to its end; the Boolean is whether the line has begun.
unfoldable pub ledger_lines : Bool → Bytes → Bytes → List Bytes
ledger_lines begun q [] = if begun then q ∷ [] else []
ledger_lines begun q (c ∷ cs) =
    let rest =
      ledger_lines (if c == b'\n' then false else true) (if c == b'\n' then [] else q ++ (c ∷ []))
        cs in
    if c == 0 then (if begun then q ∷ [] else []) else if c == b'\n' then q ∷ rest else rest

abbrev pub add_lines : List Bytes → Ledger → Ledger
add_lines [] l = l
add_lines (q ∷ qs) l = add_lines qs (add_entry (scan_entry q) l)

-- The loop, which passes the first line over.
unfoldable pub add_all : List Bytes → Ledger
unfolding scan_entry
add_all [] = empty
add_all (first ∷ qs) = add_lines qs empty

-- `maildirsize_read`: `none` is the return of -1, for a file that cannot be read or fills the buffer.
unfoldable pub maildirsize_read : Option Bytes → Option Ledger
unfolding add_all ledger_lines
maildirsize_read none = none
maildirsize_read (some text) =
    if leb 5120 (length text) then none else some (add_all (ledger_lines false [] text))

abbrev pub total_length : List Bytes → ℕ
total_length [] = 0
total_length (b ∷ bs) = length b + total_length bs

-- What is left of the buffers when `n` bytes of them are written.
unfoldable pub consume : ℕ → List Bytes → List Bytes
consume n [] = []
consume n (b ∷ bs) =
    let rest = consume (n - length b) bs in
    if n == 0 then b ∷ bs else if ltb n (length b) then drop n b ∷ bs else rest

abbrev pub concat : List Bytes → Bytes
concat [] = []
concat (b ∷ bs) = b ++ concat bs

-- The loop with `writev`, over the numbers of bytes that its calls write, of which 0 is an error; no
-- call writes more than it is given. The result is the file, or `none` for -1.
unfoldable pub write_loop : List ℕ → List Bytes → Bytes → Option Bytes
unfolding consume
write_loop answers [] file = some file
write_loop [] (b ∷ bs) file = none
write_loop (zero ∷ answers) (b ∷ bs) file = none
write_loop (suc n ∷ answers) (b ∷ bs) file =
    write_loop answers (consume (suc n) (b ∷ bs)) (file ++ take (suc n) (concat (b ∷ bs)))

abbrev pub entry_text : ℤ → ℤ → Bytes
entry_text size cnt = print_int size ++ (b' ' ∷ (print_int cnt ++ (b'\n' ∷ [])))

abbrev pub buffers : Bool → Bytes → ℤ → ℤ → List Bytes
buffers isnew quota_type size cnt =
    if isnew then quota_type ∷ (b'\n' ∷ []) ∷ entry_text size cnt ∷ [] else entry_text size cnt ∷ []

-- `doaddquota` once the ledger is open for appending.
unfoldable pub doaddquota : List ℕ → Bool → Bytes → ℤ → ℤ → Bytes → Option Bytes
unfolding write_loop
doaddquota answers isnew quota_type size cnt file =
    write_loop answers (buffers isnew quota_type size cnt) file
