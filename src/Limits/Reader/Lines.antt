-- ===== src/Limits/Reader/Lines.antt =====
-- vlimits.c: the buffered loop of `vlimits_read_limits_file` against a reading line by line.
use vpopmail.Common.{
  ℕ, zero, suc, ◌+◌, ◌<◌, ◌≡◌, ◌≢◌, ◌∙◌, refl, ap, sym, Bool, true, false, ◌||◌, [], ◌∷◌, ◌++◌,
  Option, none, some, Bytes, lt→ltb, gt-leb, ◌==◌, take, drop, length, arith, All, Bool-cases, inl,
  inr, append-nil, append_assoc, take_all,
}
use vpopmail.Limits.{Vlimits}
use vpopmail.Limits.Line.{parse_line}
use vpopmail.Limits.Reader.{
  buffer_size, Reader, refill, scan, again, done, take_line, round, run, read_limits_file,
}

abbrev pub is_break : ℕ → Bool
is_break c = c == b'\r' || c == b'\n'

-- The whole text, line by line; `cur` is the line that is being collected.
unfoldable pub fold_lines : Bytes → Bytes → Vlimits → Vlimits
fold_lines cur [] l = parse_line cur l
fold_lines cur (c ∷ cs) l = elim (is_break c) [
  | true ↦ fold_lines [] cs (parse_line cur l)
  | false ↦ fold_lines (cur ++ c ∷ []) cs l
]

abbrev pub NotNul : ℕ → Type 0
NotNul c = c ≢ 0

-- What the rest of the loop makes of a scanned line.
abbrev after : Bytes → Bytes × Option Bytes → Vlimits → Vlimits
after cur (line, some rest) l = fold_lines [] rest (parse_line (cur ++ line) l)
after cur (line, none) l = parse_line (cur ++ line) l

after-cons :
    (cur : Bytes) (c : ℕ) (r : Bytes × Option Bytes) (l : Vlimits)
    → after (cur ++ c ∷ []) r l ≡ after cur (c ∷ r.0, r.1) l
after-cons cur c (line, some rest) l = rw append_assoc
after-cons cur c (line, none) l = rw append_assoc

module _ (c : ℕ) (cs : Bytes) (nonzero : NotNul c) where
  scan_break : is_break c ≡ true → scan (c ∷ cs) ≡ ([], some cs)
  unfolding scan
  scan_break h = ground arith

  scan_more : is_break c ≡ false → scan (c ∷ cs) ≡ (c ∷ (scan cs).0, (scan cs).1)
  unfolding scan
  scan_more h = ground arith

  fold_break :
      (cur : Bytes) (l : Vlimits)
      → is_break c ≡ true
      → fold_lines cur (c ∷ cs) l ≡ fold_lines [] cs (parse_line cur l)
  unfolding fold_lines
  fold_break cur l h = rw (h, fold_lines)

  fold_more :
      (cur : Bytes) (l : Vlimits)
      → is_break c ≡ false
      → fold_lines cur (c ∷ cs) l ≡ fold_lines (cur ++ c ∷ []) cs l
  unfolding fold_lines
  fold_more cur l h = rw (h, fold_lines)

fold_lines-scan :
    (s cur : Bytes) (l : Vlimits) → All NotNul s → fold_lines cur s l ≡ after cur (scan s) l
fold_lines-scan [] cur l h = unfold fold_lines scan in rw append-nil
fold_lines-scan (c ∷ cs) cur l (hc, hs) = elim (Bool-cases (is_break c)) [
  | inl b ↦ rw (fold_break c cs hc cur l b, scan_break c cs hc b, append-nil)
  | inr b ↦
      rw (fold_more c cs hc cur l b, scan_more c cs hc b)
        (fold_lines-scan cs (cur ++ c ∷ []) l hs ∙ after-cons cur c (scan cs) l)
]

-- A scan ends at a break, with less text behind it, or at the end of the text.
abbrev Scanned : Bytes → Bytes × Option Bytes → Type 0
Scanned s (line, some rest) = (length rest < length s) × All NotNul rest
Scanned s (line, none) = line ≡ s

Scanned-cons :
    (c : ℕ) (cs : Bytes) (r : Bytes × Option Bytes) → Scanned cs r → Scanned (c ∷ cs) (c ∷ r.0, r.1)
Scanned-cons c cs (line, some rest) (h, k) = (omega arith, k)
Scanned-cons c cs (line, none) h = ap (◌∷◌ c) h

scan-Scanned : (s : Bytes) → All NotNul s → Scanned s (scan s)
scan-Scanned [] h = unfold scan in refl
scan-Scanned (c ∷ cs) (hc, hs) = elim (Bool-cases (is_break c)) [
  | inl b ↦ rw (scan_break c cs hc b) (omega arith, hs)
  | inr b ↦ rw (scan_more c cs hc b) (Scanned-cons c cs (scan cs) (scan-Scanned cs hs))
]

-- The loop over the buffer when the file has been read to its end.
abbrev closed : Bytes → ℕ → Bytes → Vlimits → Reader
closed pending in_bytes unread l = record {
  pending = pending;
  in_bytes = in_bytes;
  fd_open = false;
  unread = unread;
  limits = l;
}

module _ (fuel : ℕ) (r : Reader) where
  run_again : (s : Reader) → round r ≡ again s → run (suc fuel) r ≡ run fuel s
  unfolding run
  run_again s e = rw (e, run)

  run_done : (l : Vlimits) → round r ≡ done l → run (suc fuel) r ≡ some l
  unfolding run
  run_done l e = rw (e, run)

round-closed :
    (s : Bytes) (n : ℕ) (u : Bytes) (l : Vlimits)
    → round (closed s n u l) ≡ take_line (scan s) (closed s n u l)
unfolding round refill
round-closed s n u l = refl

run-closed :
    (fuel n : ℕ) (s u : Bytes) (l : Vlimits)
    → length s < fuel
    → All NotNul s
    → run fuel (closed s n u l) ≡ some (fold_lines [] s l)
unfolding take_line
run-closed zero n s u l h k = absurd (omega arith)
run-closed (suc fuel) n s u l h k =
    next (scan s) (scan-Scanned s k) refl (λ rest l' h' k'. run-closed fuel n rest u l' h' k')
  where
    Smaller : Type 0
    Smaller =
        (rest : Bytes) (l' : Vlimits)
        → length rest < fuel
        → All NotNul rest
        → run fuel (closed rest n u l') ≡ some (fold_lines [] rest l')

    scanned :
        (r : Bytes × Option Bytes)
        → scan s ≡ r
        → round (closed s n u l) ≡ take_line r (closed s n u l)
    scanned r e = round-closed s n u l ∙ ap (λ p. take_line p (closed s n u l)) e

    next :
        (r : Bytes × Option Bytes)
        → Scanned s r
        → scan s ≡ r
        → Smaller
        → run (suc fuel) (closed s n u l) ≡ some (fold_lines [] s l)
    next (line, some rest) (shorter, clean) e ih =
        rw (fold_lines-scan s [] l k, e)
          (run_again fuel _ (closed rest n u (parse_line line l)) (scanned (line, some rest) e)
            ∙ ih rest (parse_line line l) (omega arith) clean)
    next (line, none) same e ih =
        rw (fold_lines-scan s [] l k, e)
          (run_done fuel _ (parse_line line l) (scanned (line, none) e))

-- With the file open and nothing left in it, the next round closes it.
abbrev drained : Bytes → ℕ → Vlimits → Reader
drained pending in_bytes l = record {
  pending = pending;
  in_bytes = in_bytes;
  fd_open = true;
  unread = [];
  limits = l;
}

take_nothing : (n : ℕ) → take {A = ℕ} n [] ≡ []
take_nothing zero = refl
take_nothing (suc n) = refl

refill-drained :
    (s : Bytes) (n : ℕ) (l : Vlimits) → n < buffer_size → refill (drained s n l) ≡ closed s n [] l
unfolding refill
refill-drained s n l h = rw (lt→ltb n buffer_size h, take_nothing)

round-drained :
    (s : Bytes) (n : ℕ) (l : Vlimits)
    → n < buffer_size
    → round (drained s n l) ≡ round (closed s n [] l)
round-drained s n l h = unfold round in rw (refill-drained s n l h) (sym (round-closed s n [] l))

run_same : (fuel : ℕ) (r q : Reader) → round r ≡ round q → run (suc fuel) r ≡ run (suc fuel) q
unfolding run
run_same fuel r q e = rw (e, run)

run-drained :
    (fuel n : ℕ) (s : Bytes) (l : Vlimits)
    → n < buffer_size
    → length s < fuel
    → All NotNul s
    → run fuel (drained s n l) ≡ some (fold_lines [] s l)
run-drained zero n s l b h k = absurd (omega arith)
run-drained (suc fuel) n s l b h k =
    run_same fuel (drained s n l) (closed s n [] l) (round-drained s n l b)
    ∙ run-closed (suc fuel) n s [] l h k

-- The first round, which reads the whole of a file that the buffer can hold.
abbrev fresh : Bytes → Vlimits → Reader
fresh text l = record { pending = []; in_bytes = 0; fd_open = true; unread = text; limits = l }

drop_all : (s : Bytes) → drop (length s) s ≡ []
drop_all [] = refl
drop_all (x ∷ s) = drop_all s

refill-fresh :
    (c : ℕ) (cs : Bytes) (l : Vlimits)
    → length (c ∷ cs) < buffer_size
    → refill (fresh (c ∷ cs) l) ≡ drained (c ∷ cs) (0 + length (c ∷ cs)) l
unfolding refill
refill-fresh c cs l h = rw (take_all 2047 cs (omega arith), drop_all cs)

round_refilled : (r s : Reader) → refill r ≡ s → round r ≡ take_line (scan s.pending) s
unfolding round
round_refilled r s e = ap (λ q. take_line (scan q.pending) q) e

run-fresh :
    (fuel : ℕ) (text : Bytes) (l : Vlimits)
    → length text < buffer_size
    → length text < fuel
    → All NotNul text
    → run (suc fuel) (fresh text l) ≡ some (fold_lines [] text l)
unfolding take_line
run-fresh fuel [] l b h k = run-drained (suc fuel) 0 [] l (omega arith) (omega arith) tt
run-fresh fuel (c ∷ cs) l b h k = next (scan (c ∷ cs)) (scan-Scanned (c ∷ cs) k) refl
  where
    text : Bytes
    text = c ∷ cs

    size : ℕ
    size = 0 + length text

    size_lt : size < buffer_size
    size_lt = omega arith

    round_fresh :
        (r : Bytes × Option Bytes)
        → scan text ≡ r
        → round (fresh text l) ≡ take_line r (drained text size l)
    round_fresh r e =
        round_refilled (fresh text l) (drained text size l) (refill-fresh c cs l b)
        ∙ ap (λ p. take_line p (drained text size l)) e

    next :
        (r : Bytes × Option Bytes)
        → Scanned text r
        → scan text ≡ r
        → run (suc fuel) (fresh text l) ≡ some (fold_lines [] text l)
    next (line, some rest) (shorter, clean) e =
        rw (fold_lines-scan text [] l k, e)
          (run_again fuel _ (drained rest size (parse_line line l))
              (round_fresh (line, some rest) e)
            ∙ run-drained fuel size rest (parse_line line l) size_lt (omega arith) clean)
    next (line, none) same e =
        run_again fuel _ (drained line (length line) l)
          (round_fresh (line, none) e ∙ rw (gt-leb buffer_size size size_lt))
        ∙ rw same (run-drained fuel (length text) text l b h k)

-- A file shorter than the buffer, with no NUL in it, is read line by line, and the loop ends.
pub read_limits_file-fold_lines :
    (text : Bytes) (l : Vlimits)
    → length text < buffer_size
    → All NotNul text
    → read_limits_file (some text) l ≡ some (fold_lines [] text l)
unfolding read_limits_file
read_limits_file-fold_lines text l h k =
    let fuel : ℕ = length text + length text + 2 in
    let e : length text + length text + 3 ≡ suc fuel = omega arith in
    rw e (run-fresh fuel text l h (omega arith) k)
