-- ===== src/Assign.antt =====
-- vpopmail.c: the control files of qmail, a list of lines each: users/assign (`file_type` 1),
-- rcpthosts, morercpthosts, virtualdomains and locals. A file is read with `fgets` in pieces of at
-- most 299 bytes. `Host` says how the calls on the file system end; FILE_LOCKING is on, as by default.
pub mod Domain
pub mod Update
pub mod Remove
pub mod Reading
pub mod Removed
pub mod Keys
pub mod Scanned
pub mod Sorted
mod Tests
use vpopmail.Common.{
  ℕ, zero, suc, ◌-◌, Bool, true, false, not, ◌&&◌, ◌||◌, List, [], ◌∷◌, ◌++◌, map, Option, none,
  some, Bytes, codes, ◌==◌, if◌then◌else◌,
}
use vpopmail.Common.Int.{ℤ, negsuc}
use vpopmail.Common.Fgets.{pieces}

abbrev pub max_buff : ℕ
max_buff = 300

-- The piece as a C string, cut at its newline.
unfoldable pub trim : Bytes → Bytes
trim [] = []
trim (c ∷ cs) = let rest = trim cs in if c == 0 || c == b'\n' then [] else c ∷ rest

unfoldable pub entries : Bytes → List Bytes
unfolding pieces trim
entries text = map trim (pieces max_buff (max_buff - 1) [] text)

-- `fprintf(fs1, "%s\n", line)` for each line.
unfoldable pub unlines : List Bytes → Bytes
unlines [] = []
unlines (l ∷ ls) = l ++ (b'\n' ∷ unlines ls)

-- How the calls end: the lock file is opened, the lock taken, the temporary file opened, an existing
-- file opened, a file created, memory allocated, the temporary file renamed.
pub record Host : Type 0 where
  pub lock_opens : Bool
  pub locks : Bool
  pub temp_opens : Bool
  pub opens : Bool
  pub creates : Bool
  pub allocates : Bool
  pub renames : Bool

-- Every call succeeds.
abbrev pub works : Host
works = record {
  lock_opens = true;
  locks = true;
  temp_opens = true;
  opens = true;
  creates = true;
  allocates = true;
  renames = true;
}

abbrev pub could_not_update_file : ℤ
could_not_update_file = negsuc 16

abbrev pub memory_alloc_err : ℤ
memory_alloc_err = negsuc 23

-- What the three functions answer, with the file they leave.
abbrev pub Answer : Type 0
Answer = ℤ × Option Bytes

-- The start that they share: the lock and the temporary file.
abbrev pub locked : Host → Option Bytes → Answer → Answer
locked h file body =
    if not h.lock_opens
    then (could_not_update_file, file)
    else if not h.locks
    then (negsuc 0, file)
    else if not h.temp_opens
    then (could_not_update_file, file)
    else body

-- `fopen(path, "r+")`, and on its failure `fopen(path, "w+")`, which empties the file.
abbrev pub open_or_create : Host → Option Bytes → Option Bytes
open_or_create h none = if h.creates then some [] else none
open_or_create h (some text) = if h.opens then some text else if h.creates then some [] else none

-- The temporary file takes the place of the file.
abbrev pub renamed : Host → Bytes → Bytes → Option Bytes
renamed h old new = some (if h.renames then new else old)
