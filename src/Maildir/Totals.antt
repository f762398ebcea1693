-- ===== src/Maildir/Totals.antt =====
-- maildirquota.c: what `maildirsize_read` finds in a ledger that `doaddquota` has written.
use vpopmail.Common.{
  ℕ, suc, ◌+◌, map, ◌^◌, ◌≤◌, ◌<◌, ◌≡◌, refl, sym, ap, ◌∙◌, Bool, true, false, List, [], ◌∷◌, ◌++◌,
  append_assoc, append-nil, some, Bytes, gt-leb, ◌==◌, length, All, All-append, arith,
}
use mathlib.Core.Option
use mathlib.Core.Path.{subst}
use vpopmail.Common.Int.{ℤ, pos, negsuc, negate, ◌+ℤ◌}
use vpopmail.Common.Decimal.{
  is_digit, IsDigit, is_space, Stops, read_digits, read_digits-print_nat, print_nat, print_nat-All,
  print_nat-head, print_nat-ne-nil, print_int, IsClean, print_int-IsClean,
}
use vpopmail.Common.Fgets.{IsText}
use vpopmail.Maildir.Ledger.{
  span_digits, scan_unsigned, scan_signed, scan_int, scan_entry, Ledger, empty, add_entry,
  ledger_lines, add_lines, add_all, maildirsize_read, entry_text, buffers, doaddquota,
}
use vpopmail.Maildir.Written.{write_loop-concat, write_loop_ends, work}

span_digits-All :
    (ds rest : Bytes) → All IsDigit ds → Stops rest → span_digits (ds ++ rest) ≡ (ds, rest)
unfolding span_digits
span_digits-All [] [] h s = refl
span_digits-All [] (c ∷ cs) h s = rw (span_digits, s) refl
span_digits-All (d ∷ ds) rest (h, hs) s = rw (span_digits, h, span_digits-All ds rest hs s) refl

scan_unsigned-digits :
    (d : ℕ) (ds rest : Bytes)
    → All IsDigit (d ∷ ds)
    → Stops rest
    → scan_unsigned ((d ∷ ds) ++ rest) ≡ some (read_digits 0 (d ∷ ds), rest)
unfolding scan_unsigned
scan_unsigned-digits d ds rest h s =
    let e = span_digits-All (d ∷ ds) rest h s in
    rw (scan_unsigned, e) (ap (λ (p : Bytes × Bytes). some (read_digits 0 (d ∷ ds), p.1)) e)

scan_unsigned-print_nat :
    (n : ℕ) (rest : Bytes) → Stops rest → scan_unsigned (print_nat n ++ rest) ≡ some (n, rest)
scan_unsigned-print_nat n rest s = from (print_nat n) refl (print_nat-All n)
  where
    from :
        (ds : Bytes)
        → print_nat n ≡ ds
        → All IsDigit ds
        → scan_unsigned (ds ++ rest) ≡ some (n, rest)
    from [] e h = absurd (print_nat-ne-nil n e)
    from (d ∷ ds) e h =
        let number : read_digits 0 (d ∷ ds) ≡ n =
          subst (λ x. read_digits 0 x ≡ n) (append-nil (print_nat n) ∙ e)
            (read_digits-print_nat n [] tt) in
        scan_unsigned-digits d ds rest h s ∙ ap (λ k. some (k, rest)) number

scan_int_digit :
    (c : ℕ) (cs : Bytes)
    → is_digit c ≡ true
    → scan_int (c ∷ cs) ≡ Option.map (λ p. (pos p.0, p.1)) (scan_unsigned (c ∷ cs))
unfolding scan_int scan_signed
scan_int_digit c cs h =
    let not_space : is_space c ≡ false = ground arith in
    let not_minus : (c == b'-') ≡ false = ground arith in
    let not_plus : (c == b'+') ≡ false = ground arith in
    rw (scan_int, not_space, not_minus, not_plus) refl

scan_int_minus :
    (cs : Bytes) → scan_int (b'-' ∷ cs) ≡ Option.map (λ p. (negate p.0, p.1)) (scan_unsigned cs)
unfolding scan_int scan_signed
scan_int_minus cs = refl

scan_int-print_nat :
    (n : ℕ) (rest : Bytes) → Stops rest → scan_int (print_nat n ++ rest) ≡ some (pos n, rest)
scan_int-print_nat n rest s =
    let (c, cs, e, d) = print_nat-head n in
    ap (λ x. scan_int (x ++ rest)) e
    ∙ scan_int_digit c (cs ++ rest) d
    ∙ ap (Option.map (λ (p : ℕ × Bytes). (pos p.0, p.1)))
        (ap (λ x. scan_unsigned (x ++ rest)) (sym e) ∙ scan_unsigned-print_nat n rest s)

scan_int-print_int :
    (z : ℤ) (rest : Bytes) → Stops rest → scan_int (print_int z ++ rest) ≡ some (z, rest)
unfolding print_int
scan_int-print_int (pos n) rest s = scan_int-print_nat n rest s
scan_int-print_int (negsuc n) rest s =
    scan_int_minus (print_nat (suc n) ++ rest)
    ∙ ap (Option.map (λ (p : ℕ × Bytes). (negate p.0, p.1)))
        (scan_unsigned-print_nat (suc n) rest s)

-- The blank between the two numbers.
scan_int_blank : (cs : Bytes) → scan_int (b' ' ∷ cs) ≡ scan_int cs
unfolding scan_int
scan_int_blank cs = refl

abbrev pub entry_line : ℤ × ℤ → Bytes
entry_line e = print_int e.0 ++ (b' ' ∷ print_int e.1)

scan_entry-line : (e : ℤ × ℤ) → scan_entry (entry_line e) ≡ e
unfolding scan_entry
scan_entry-line e =
    let second : scan_int (b' ' ∷ print_int e.1) ≡ some (e.1, []) =
      scan_int_blank (print_int e.1)
      ∙ ap scan_int (sym (append-nil (print_int e.1)))
      ∙ scan_int-print_int e.1 [] tt in
    rw (scan_entry, scan_int-print_int e.0 (b' ' ∷ print_int e.1) refl, second) refl

ledger_lines-line :
    (l q rest : Bytes) (begun : Bool)
    → All IsText l
    → ledger_lines begun q (l ++ (b'\n' ∷ rest)) ≡ (q ++ l) ∷ ledger_lines false [] rest
unfolding ledger_lines
ledger_lines-line [] q rest begun h = ap (λ x. x ∷ ledger_lines false [] rest) (sym (append-nil q))
ledger_lines-line (c ∷ cs) q rest begun ((a, b), hs) =
    let not_end : (c == 0) ≡ false = ground arith in
    let not_line : (c == b'\n') ≡ false = ground arith in
    rw (ledger_lines, not_end, not_line)
      (ledger_lines-line cs (q ++ (c ∷ [])) rest true hs
        ∙ ap (λ x. x ∷ ledger_lines false [] rest) (append_assoc q (c ∷ []) cs))

IsClean-IsText : (s : Bytes) → All IsClean s → All IsText s
IsClean-IsText [] h = tt
IsClean-IsText (c ∷ cs) (h, hs) = ((ground arith, ground arith), IsClean-IsText cs hs)

entry_line-IsText : (e : ℤ × ℤ) → All IsText (entry_line e)
entry_line-IsText e =
    All-append IsText (print_int e.0) _ (IsClean-IsText _ (print_int-IsClean e.0))
      (ground arith, IsClean-IsText _ (print_int-IsClean e.1))

-- The ledger of a quota and entries, as text and as sums.
unfoldable pub entries_text : List (ℤ × ℤ) → Bytes
entries_text [] = []
entries_text (e ∷ es) = entry_line e ++ (b'\n' ∷ entries_text es)

abbrev pub ledger_text : Bytes → List (ℤ × ℤ) → Bytes
ledger_text quota es = quota ++ (b'\n' ∷ entries_text es)

abbrev pub add_entries : List (ℤ × ℤ) → Ledger → Ledger
add_entries [] l = l
add_entries (e ∷ es) l = add_entries es (add_entry e l)

-- An integer of `w + 1` bits.
abbrev pub IsWithin : ℕ → ℤ → Type 0
IsWithin w (pos n) = n < 2 ^ w
IsWithin w (negsuc n) = n < 2 ^ w

-- The numbers of the entries, and the sums at each of them, fit a `long` or an `off_t` and an `int`.
abbrev pub SumsFit : List (ℤ × ℤ) → ℤ → ℤ → Type 0
SumsFit [] size cnt = Unit
SumsFit (e ∷ es) size cnt =
    (IsWithin 63 e.0 × IsWithin 31 e.1)
    × (IsWithin 63 (size +ℤ e.0) × IsWithin 31 (cnt +ℤ e.1))
    × SumsFit es (size +ℤ e.0) (cnt +ℤ e.1)

-- A number and the numbers of a list behind it, added up.
abbrev pub sum_from : ℤ → List ℤ → ℤ
sum_from z [] = z
sum_from z (x ∷ xs) = sum_from (z +ℤ x) xs

abbrev pub sizes : List (ℤ × ℤ) → List ℤ
sizes = map (λ e. e.0)

abbrev pub counts : List (ℤ × ℤ) → List ℤ
counts = map (λ e. e.1)

add_lines-entries :
    (es : List (ℤ × ℤ)) (l : Ledger)
    → add_lines (ledger_lines false [] (entries_text es)) l ≡ add_entries es l
unfolding entries_text ledger_lines
add_lines-entries [] l = refl
add_lines-entries (e ∷ es) l =
    ap (λ ls. add_lines ls l)
      (ledger_lines-line (entry_line e) [] (entries_text es) false (entry_line-IsText e))
    ∙ ap (λ x. add_lines (ledger_lines false [] (entries_text es)) (add_entry x l))
        (scan_entry-line e)
    ∙ add_lines-entries es (add_entry e l)

pub maildirsize_read-ledger_text :
    (quota : Bytes) (es : List (ℤ × ℤ))
    → All IsText quota
    → length (ledger_text quota es) < 5120
    → maildirsize_read (some (ledger_text quota es)) ≡ some (add_entries es empty)
unfolding maildirsize_read add_all
maildirsize_read-ledger_text quota es h n =
    rw
      (
        gt-leb 5120 (length (ledger_text quota es)) n,
        ledger_lines-line quota [] (entries_text es) false h,
      )
      (ap some (add_lines-entries es empty))

entries_text-append :
    (es : List (ℤ × ℤ)) (e : ℤ × ℤ)
    → entries_text (es ++ (e ∷ [])) ≡ entries_text es ++ (entry_line e ++ (b'\n' ∷ []))
unfolding entries_text
entries_text-append [] e = refl
entries_text-append (x ∷ es) e =
    ap (λ t. entry_line x ++ (b'\n' ∷ t)) (entries_text-append es e)
    ∙ sym (append_assoc (entry_line x) (b'\n' ∷ entries_text es) (entry_line e ++ (b'\n' ∷ [])))

add_entries-append :
    (es : List (ℤ × ℤ)) (e : ℤ × ℤ) (l : Ledger)
    → add_entries (es ++ (e ∷ [])) l ≡ add_entry e (add_entries es l)
add_entries-append [] e l = refl
add_entries-append (x ∷ es) e l = add_entries-append es e (add_entry x l)

same_ledger : (k l : Ledger) → k.size ≡ l.size → k.count ≡ l.count → k.nlines ≡ l.nlines → k ≡ l
same_ledger k l a b c i = record { size = a i; count = b i; nlines = c i }

add_entries-sums :
    (es : List (ℤ × ℤ)) (l : Ledger)
    → add_entries es l ≡ record {
      size = sum_from l.size (sizes es);
      count = sum_from l.count (counts es);
      nlines = l.nlines + length es;
    }
add_entries-sums [] l = same_ledger _ _ refl refl (omega arith)
add_entries-sums (e ∷ es) l =
    add_entries-sums es (add_entry e l) ∙ same_ledger _ _ refl refl (omega arith)

entry_text-line : (size cnt : ℤ) → entry_text size cnt ≡ entry_line (size, cnt) ++ (b'\n' ∷ [])
entry_text-line size cnt = sym (append_assoc (print_int size) (b' ' ∷ print_int cnt) (b'\n' ∷ []))

doaddquota-text :
    (answers : List ℕ) (quota : Bytes) (size cnt : ℤ) (es : List (ℤ × ℤ)) (f : Bytes)
    → doaddquota answers false quota size cnt (ledger_text quota es) ≡ some f
    → f ≡ ledger_text quota (es ++ ((size, cnt) ∷ []))
unfolding doaddquota
doaddquota-text answers quota size cnt es f e =
    write_loop-concat answers (buffers false quota size cnt) (ledger_text quota es) f e
    ∙ append_assoc quota (b'\n' ∷ entries_text es) _
    ∙ ap (λ x. quota ++ (b'\n' ∷ (entries_text es ++ x))) (append-nil _ ∙ entry_text-line size cnt)
    ∙ ap (λ x. quota ++ (b'\n' ∷ x)) (sym (entries_text-append es (size, cnt)))

-- When each call of `writev` writes a byte at least and there are enough calls, however they divide the
-- text, `doaddquota` ends without an error on a ledger of a quota and entries; and in the new ledger, if
-- it is below 5120 bytes, `maildirsize_read` finds the sums of the entries of the old one with the size and
-- the number of messages added, and one line more than there were. The numbers of all entries, and their sums up to each, fit a
-- `long` or an `off_t` and an `int`.
pub maildirsize_read-doaddquota :
    (answers : List ℕ) (quota : Bytes) (size cnt : ℤ) (es : List (ℤ × ℤ))
    → All IsText quota
    → length (ledger_text quota (es ++ ((size, cnt) ∷ []))) < 5120
    → All (λ n. 0 < n) answers
    → work (buffers false quota size cnt) ≤ length answers
    → SumsFit (es ++ ((size, cnt) ∷ [])) (pos 0) (pos 0)
    → (f : Bytes) × (doaddquota answers false quota size cnt (ledger_text quota es) ≡ some f)
      × (maildirsize_read (some f)
          ≡ some (record {
            size = sum_from (pos 0) (sizes es) +ℤ size;
            count = sum_from (pos 0) (counts es) +ℤ cnt;
            nlines = suc (length es);
          }))
maildirsize_read-doaddquota answers quota size cnt es h n a w fits =
    let ends : (f : Bytes) × (doaddquota answers false quota size cnt (ledger_text quota es)
          ≡ some f) =
      unfold doaddquota in
      write_loop_ends answers (buffers false quota size cnt) (ledger_text quota es) a w in
    (
      ends.0,
      ends.1,
      ap (λ x. maildirsize_read (some x)) (doaddquota-text answers quota size cnt es ends.0 ends.1)
          ∙ maildirsize_read-ledger_text quota (es ++ ((size, cnt) ∷ [])) h n
          ∙ ap some (add_entries-append es (size, cnt) empty)
          ∙ ap (λ l. some (add_entry (size, cnt) l)) (add_entries-sums es empty)
          ∙ ap some (same_ledger _ _ refl refl (omega arith)),
    )
