-- ===== src/Maildir/Counting.antt =====
-- maildirquota.c, `docount` and its callers: the messages of a maildir, counted file by file. Memory is
-- always there.
use vpopmail.Common.{
  ℕ, suc, ◌+◌, ◌%◌, ◌^◌, Bool, true, false, not, ◌&&◌, ◌||◌, List, [], ◌∷◌, Option, none, some,
  Bytes, codes, ltb, ◌==◌, within, if◌then◌else◌, equal,
}
use vpopmail.Common.Decimal.{read_digits}

-- The text behind the first `:2,`.
abbrev flags_here : Bytes → Option Bytes → Option Bytes
flags_here [] later = later
flags_here (d ∷ []) later = later
flags_here (d ∷ e ∷ fs) later = if (d == b'2') && (e == b',') then some fs else later

unfoldable pub flags_of : Bytes → Option Bytes
flags_of [] = none
flags_of (c ∷ cs) = let later = flags_of cs in if c == b':' then flags_here cs later else later

-- Whether the flags stop at a T.
unfoldable pub has_t : Bytes → Bool
has_t [] = false
has_t (c ∷ cs) = let more = has_t cs in if within b'A' b'Z' c then (c == b'T') || more else false

unfoldable pub is_deleted : Bytes → Bool
unfolding flags_of has_t
is_deleted name = elim (flags_of name) [ none ↦ false | some fs ↦ has_t fs ]

-- The text behind the last `,S=` in front of the first colon.
abbrev size_here : Bytes → Option Bytes
size_here [] = none
size_here (d ∷ []) = none
size_here (d ∷ e ∷ fs) = if (d == b'S') && (e == b'=') then some fs else none

unfoldable pub first_some : Option Bytes → Option Bytes → Option Bytes
first_some none o = o
first_some (some r) o = some r

unfoldable pub size_text : Bytes → Option Bytes
unfolding first_some
size_text [] = none
size_text (c ∷ cs) =
    let later = size_text cs in
    if c == b':' then none else first_some later (if c == b',' then size_here cs else none)

-- `maildir_parsequota` on a name without a slash; `none` is the return of -1.
unfoldable pub maildir_parsequota : Bytes → Option ℕ
unfolding size_text read_digits
maildir_parsequota name = elim (size_text name) [
  | none ↦ none
  | some r ↦ some (read_digits 0 r % 2 ^ 64)
]

-- An entry of a directory, with the size that `stat` finds, if the file is still there.
pub record File : Type 0 where
  pub name : Bytes
  pub found : Option ℕ

-- `*dirstamp`, `*sizep` and `*cntp`: the `off_t` and the `int` are given by their bits in two's
-- complement, so that a size of 2^63 or more in a name counts as the negative one that the code makes
-- of it.
pub record Tally : Type 0 where
  pub stamp : ℕ
  pub size : ℕ
  pub count : ℕ

abbrev pub add_file : ℕ → Tally → Tally
add_file n t = record t { size = (t.size + n) % 2 ^ 64; count = suc t.count % 2 ^ 32 }

abbrev pub begins_with_dot : Bytes → Bool
begins_with_dot [] = false
begins_with_dot (c ∷ cs) = c == b'.'

-- A round of the loop behind the two tests of the name.
abbrev pub count_size : Option ℕ → Option ℕ → Tally → Tally
count_size (some n) found t = add_file n t
count_size none (some n) t = add_file n t
count_size none none t = t

unfoldable pub count_file : File → Tally → Tally
unfolding is_deleted maildir_parsequota
count_file f t =
    if begins_with_dot f.name
    then t
    else if is_deleted f.name
    then t
    else count_size (maildir_parsequota f.name) f.found t

unfoldable pub count_files : List File → Tally → Tally
unfolding count_file
count_files [] t = t
count_files (f ∷ fs) t = count_files fs (count_file f t)

-- A directory that `stat` finds: its time, whether it opens and closes, and its entries.
pub record Directory : Type 0 where
  pub mtime : ℕ
  pub opens : Bool
  pub closes : Bool
  pub entries : List File

abbrev pub stamped : ℕ → Tally → Tally
stamped m t = record t { stamp = (if ltb t.stamp m then m else t.stamp) }

-- `docount`: whether it returns 0, and the sums.
unfoldable pub docount : Option Directory → Tally → Bool × Tally
unfolding count_files
docount none t = (true, t)
docount (some d) t =
    if d.opens
    then (d.closes, count_files d.entries (stamped d.mtime t))
    else (true, stamped d.mtime t)

-- The subdirectories `new` and `cur`.
pub record Folder : Type 0 where
  pub fresh : Option Directory
  pub seen : Option Directory

unfoldable pub countcurnew : Folder → Tally → Bool × Tally
unfolding docount
countcurnew f t = let (ok, u) = docount f.fresh t in if ok then docount f.seen u else (false, u)

-- Only folders are counted, and not the trash.
abbrev pub is_folder_name : Bytes → Bool
is_folder_name name =
    begins_with_dot name
    && not (equal name (codes "."))
    && not (equal name (codes ".."))
    && not (equal name (codes ".Trash"))

unfoldable pub countsubdir : Bytes → Folder → Tally → Bool × Tally
unfolding countcurnew
countsubdir name f t = if is_folder_name name then countcurnew f t else (true, t)

unfoldable pub count_folders : List (Bytes × Folder) → Tally → Bool × Tally
unfolding countsubdir
count_folders [] t = (true, t)
count_folders ((name, f) ∷ fs) t =
    let (ok, u) = countsubdir name f t in
    let rest = count_folders fs u in if ok then rest else (false, u)

-- The count in `docheckquota` of a maildir and the entries of its directory.
unfoldable pub count_maildir : Folder → List (Bytes × Folder) → Bool × Tally
unfolding countcurnew count_folders
count_maildir top fs =
    let (ok, t) = countcurnew top (record { stamp = 0; size = 0; count = 0 }) in
    let rest = count_folders fs t in if ok then rest else (false, t)
