-- ===== src/Assign/Sorted.antt =====
-- vpopmail.c, `update_file` and `sort_file`: the order of the lines they leave. `qsort` is a parameter,
-- of which the hypothesis `Sorts` says what the code relies on.
use vpopmail.Common.{
  ℕ, suc, ◌≤◌, ◌≡◌, ◌∙◌, refl, sym, ap, Bool, true, false, List, [], ◌∷◌, ◌++◌, map, append-nil,
  Option, none, some, Bytes, codes, All, All-append, ltb, arith, length,
}
use vpopmail.Common.Int.{pos, negsuc}
use mathlib.Core.List.{Perm}
use mathlib.Core.List.Perm
use vpopmail.Assign.{entries, unlines, Host, works}
use vpopmail.Assign.Reading.{IsLine, entries-unlines, unlines-append}
use vpopmail.Assign.Update.{
  SortRec, records, sorted_text, sort_file, sort_opened, sorted_answer, update_opened, update_file,
}
use vpopmail.Assign.Scanned.{Chain, IsEntry, rec_of, end_entries, text_of, Ordered, records-lem}

text_of-unlines :
    (assign : Bool) (ls : List Bytes) → text_of assign ls ≡ unlines (ls ++ end_entries assign)
unfolding unlines
text_of-unlines false ls = append-nil (unlines ls) ∙ ap unlines (sym (append-nil ls))
text_of-unlines true ls = sym (unlines-append ls (codes "." ∷ []))

entries-text_of :
    (assign : Bool) (ls : List Bytes)
    → All (IsEntry assign) ls
    → entries (text_of assign ls) ≡ ls ++ end_entries assign
entries-text_of assign ls h =
    ap entries (text_of-unlines assign ls)
    ∙ entries-unlines (ls ++ end_entries assign)
        (All-append IsLine ls (end_entries assign) (lines ls h) (end_line_fits assign))
  where
    lines : (ls : List Bytes) → All (IsEntry assign) ls → All IsLine ls
    lines [] h = tt
    lines (l ∷ ls) ((hl, hk), hs) = (hl, lines ls hs)

    end_line_fits : (assign : Bool) → All IsLine (end_entries assign)
    end_line_fits false = tt
    end_line_fits true = ((((ground arith, ground arith), tt), omega arith), tt)

length-map : (assign : Bool) (ls : List Bytes) → length (map (rec_of assign) ls) ≡ length ls
length-map assign [] = refl
length-map assign (l ∷ ls) = ap suc (length-map assign ls)

-- What the code relies on in the library's `qsort` with `sort_check`.
abbrev pub Sorts : (List SortRec → List SortRec) → Type 0
Sorts qsort = (rs : List SortRec) → Perm (qsort rs) rs × Chain [] (qsort rs)

module _ (assign : Bool) (behind : Bytes) (qsort : List SortRec → List SortRec)
    (sorts : Sorts qsort) where
  sorted_text_lem :
      (file_lines : ℕ) (cur : Bytes) (ls : List Bytes)
      → All (IsEntry assign) ls
      → length ls ≤ file_lines
      → sorted_text assign behind qsort file_lines cur (text_of assign ls)
        ≡ some (text_of assign (map (λ r. r.value) (qsort (map (rec_of assign) ls))))
  unfolding sorted_text
  sorted_text_lem file_lines cur ls h k =
      let found =
        ap (records assign behind cur) (entries-text_of assign ls h)
        ∙ records-lem assign behind cur ls h in
      let n = length-map assign ls in
      let fits : ltb file_lines (length (map (rec_of assign) ls)) ≡ false = ground (arith, n) in
      rw (found, fits) refl

  -- Where every call succeeds and there are at most `file_lines` entries, `sort_file` answers 0 and
  -- leaves the same entries in the order of their keys, in users/assign with the end line behind them.
  pub sort_file-Ordered :
      (file_lines : ℕ) (cur : Bytes) (ls : List Bytes)
      → All (IsEntry assign) ls
      → length ls ≤ file_lines
      → (text : Bytes) × (sort_file assign behind qsort works file_lines cur
            (some (text_of assign ls))
          ≡ (pos 0, some text))
        × Ordered assign ls text
  unfolding sort_file sort_opened sorted_answer Ordered
  sort_file-Ordered file_lines cur ls h k =
      let (perm, chain) = sorts (map (rec_of assign) ls) in
      (
        text_of assign (map (λ r. r.value) (qsort (map (rec_of assign) ls))),
        ap (sorted_answer assign behind qsort works (text_of assign ls))
            (sorted_text_lem file_lines cur ls h k),
        (qsort (map (rec_of assign) ls), refl, perm, chain),
      )

-- A negative answer of `update_file` leaves the file as it was, or missing if it was missing.
pub update_file-error :
    (assign : Bool) (behind : Bytes) (qsort : List SortRec → List SortRec) (h sort_host : Host)
    (uninit sort_uninit line : Bytes) (file : Option Bytes) (n : ℕ) (after : Option Bytes)
    → update_file assign behind qsort h sort_host uninit sort_uninit line file ≡ (negsuc n, after)
    → after ≡ file
unfolding update_file update_opened
update_file-error assign behind qsort h sort_host uninit su line none n after e = ground (arith, e)
update_file-error assign behind qsort h sort_host uninit su line (some text) n after e =
    ground (arith, e)
