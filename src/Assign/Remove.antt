-- ===== src/Assign/Remove.antt =====
-- vpopmail.c, `remove_lines`.
use vpopmail.Common.{
  ℕ, suc, Bool, true, false, ◌||◌, List, [], ◌∷◌, Option, none, some, Bytes, if◌then◌else◌, equal,
}
use vpopmail.Common.Int.{pos}
use vpopmail.Assign.{entries, unlines, Host, could_not_update_file, Answer, locked, renamed}

-- The inner loop over the lines to remove.
unfoldable pub listed : Bytes → List Bytes → Bool
listed line [] = false
listed line (a ∷ aliases) = equal line a || listed line aliases

pub record Split : Type 0 where
  pub kept : List Bytes
  pub removed : ℕ

-- One line, with what the rest of the file gave.
abbrev pub split_line : Bool → Bytes → Split → Split
split_line true e rest = record rest { removed = suc rest.removed }
split_line false e rest = record rest { kept = e ∷ rest.kept }

unfoldable pub split : List Bytes → List Bytes → Split
unfolding listed
split aliases [] = record { kept = []; removed = 0 }
split aliases (e ∷ es) = split_line (listed e aliases) e (split aliases es)

unfoldable pub remove_from : Host → List Bytes → Bytes → Answer
unfolding split
remove_from h aliases text =
    let s = split aliases (entries text) in (pos s.removed, renamed h text (unlines s.kept))

-- A file that is not there is created; one that is there and cannot be opened is an error.
unfoldable pub remove_opened : Host → List Bytes → Option Bytes → Answer
unfolding remove_from
remove_opened h aliases none =
    if h.creates then remove_from h aliases [] else (could_not_update_file, none)
remove_opened h aliases (some text) =
    if h.opens then remove_from h aliases text else (could_not_update_file, some text)

-- `remove_lines`
unfoldable pub remove_lines : Host → List Bytes → Option Bytes → Answer
unfolding remove_opened
remove_lines h aliases file = locked h file (remove_opened h aliases file)
