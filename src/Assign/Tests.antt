-- ===== src/Assign/Tests.antt =====
-- Runs of the functions on control files on concrete inputs.
use vpopmail.Common.{
  ℕ, ◌≡◌, ◌≢◌, refl, Bool, true, false, List, [], ◌∷◌, some, Bytes, codes, arith, if◌then◌else◌,
  All, ◌==◌, not, ◌&&◌,
}
use vpopmail.Common.Int.{pos}
use mathlib.Core.List.{Perm}
use mathlib.Core.List.Perm
use vpopmail.Assign.{unlines, Host, works}
use vpopmail.Assign.Domain.{reorder, key}
use vpopmail.Assign.Update.{SortRec, exceeds}
use vpopmail.Assign.Remove.{remove_lines}
use vpopmail.Assign.Removed.{Without, remove_lines_lem, remove_lines-error}
use vpopmail.Assign.Keys.{IsPart, reorder_lem}
use vpopmail.Common.Fgets.{IsText}
use vpopmail.Assign.Scanned.{IsEntry}

-- A sort that does what is asked of `qsort`.
put : SortRec → List SortRec → List SortRec
put r [] = r ∷ []
put r (e ∷ es) = if exceeds e.key r.key then r ∷ e ∷ es else e ∷ put r es

abbrev sort : List SortRec → List SortRec
sort [] = []
sort (r ∷ rs) = put r (sort rs)

abbrev is_text : Bytes → Bool
is_text [] = true
is_text (c ∷ cs) = not (c == 0) && (not (c == b'\n') && is_text cs)

is_text_sound : (l : Bytes) → is_text l ≡ true → All IsText l
is_text_sound [] h = tt
is_text_sound (c ∷ cs) h = (ground arith, is_text_sound cs (ground arith))

abbrev domains : List Bytes
domains = codes "b.org" ∷ codes "a.com" ∷ []

abbrev assigned : List Bytes
assigned = codes "+b.org-:b.org:89:89:/home/b:-::" ∷ codes "+a.com-:a.com:89:89:/home/a:-::" ∷ []

domains-IsEntry : All (IsEntry false) domains
domains-IsEntry = (
  ((is_text_sound (codes "b.org") refl, omega arith), tt),
  (((is_text_sound (codes "a.com") refl, omega arith), tt), tt),
)

abbrev new_line : Bytes
new_line = codes "+c.net-:c.net:89:89:/home/c:-::"

abbrev no_lock : Host
no_lock = record works { locks = false }

remove_lines_lem_example :
    (ks : List Bytes) × (n : ℕ) × Without (codes "a.com" ∷ []) domains ks n
    × (remove_lines works (codes "a.com" ∷ []) (some (unlines domains))
        ≡ (pos n, some (unlines ks)))
remove_lines_lem_example = remove_lines_lem (codes "a.com" ∷ []) domains (
  (is_text_sound (codes "b.org") refl, omega arith),
  ((is_text_sound (codes "a.com") refl, omega arith), tt),
)

remove_lines-error_example : some (codes "x\n") ≡ some (codes "x\n")
unfolding remove_lines
remove_lines-error_example =
    remove_lines-error no_lock (codes "x" ∷ []) (some (codes "x\n")) 0 (some (codes "x\n")) refl

part : (c : ℕ) → c ≢ b'.' → IsPart (c ∷ [])
part c h = (ground arith, (h, tt))

reorder_lem_example : reorder (codes "a.b.c.u.t") ≡ codes "u.t.a.b.a"
reorder_lem_example =
    (reorder_lem (codes "a") (codes "b") (codes "c") (codes "d") (codes "u") (codes "t") (
      part b'a' (ground arith),
      (
        part b'b' (ground arith),
        (
          part b'c' (ground arith),
          (part b'd' (ground arith), (part b'u' (ground arith), (part b't' (ground arith), tt))),
        ),
      ),
    )).3
