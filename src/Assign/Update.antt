-- ===== src/Assign/Update.antt =====
-- vpopmail.c, `sort_check`, `sort_file` and `update_file`.
use vpopmail.Common.{
  ℕ, zero, suc, Bool, true, false, not, ◌&&◌, ◌||◌, List, [], ◌∷◌, ◌++◌, map, Option, none, some,
  Bytes, codes, ◌==◌, ltb, if◌then◌else◌, equal, length,
}
use vpopmail.Common.Int.{pos}
use vpopmail.Assign.{
  max_buff, entries, unlines, Host, could_not_update_file, memory_alloc_err, Answer, locked,
  open_or_create, renamed,
}
use vpopmail.Assign.Domain.{extract_domain}

-- `strncmp(a, b, n) > 0`
unfoldable pub exceeds_in : ℕ → Bytes → Bytes → Bool
exceeds_in zero a b = false
exceeds_in (suc n) [] b = false
exceeds_in (suc n) (x ∷ a) [] = true
exceeds_in (suc n) (x ∷ a) (y ∷ b) = ltb y x || (x == y && exceeds_in n a b)

abbrev pub exceeds : Bytes → Bytes → Bool
exceeds a b = exceeds_in max_buff a b

pub record SortRec : Type 0 where
  pub key : Bytes
  pub value : Bytes

-- The last line of users/assign, which is not an entry.
abbrev pub is_end : Bool → Bytes → Bool
is_end assign entry = assign && equal entry (codes ".")

abbrev pub end_line : Bool → Bytes
end_line assign = if assign then codes "." ++ (b'\n' ∷ []) else []

-- What the loop of `update_file` does with the lines of the file.
pub record Scan : Type 0 where
  pub out : List Bytes
  pub needsort : Bool
  pub count : ℕ

module _ (assign : Bool) (behind : Bytes) where
  -- The records that `sort_file` collects; `cur` is the text left in `cur_domain`.
  unfoldable pub records : Bytes → List Bytes → List SortRec
  records cur [] = []
  records cur (e ∷ es) =
      let skip = is_end assign e in
      let domain = extract_domain assign cur behind e in
      let rest = records (if skip then cur else domain) es in
      if skip then rest else record { key = domain; value = e } ∷ rest

  unfoldable pub scan : Bytes → Bytes → Bool → Bytes → Bytes → List Bytes → Scan
  scan new_domain update_line hit prv cur [] = record {
    out = (if hit then [] else update_line ∷ []);
    needsort = false;
    count = 0;
  }
  scan new_domain update_line hit prv cur (e ∷ es) =
      let skip = is_end assign e in
      let domain = extract_domain assign cur behind e in
      let hits = not hit && exceeds domain new_domain in
      let rest =
        scan new_domain update_line (if skip then hit else hit || hits)
          (if skip then prv else domain) (if skip then cur else domain) es in
      record {
        out =
            (if skip then rest.out else if hits then update_line ∷ e ∷ rest.out else e ∷ rest.out);
        needsort = (not skip && exceeds prv domain) || rest.needsort;
        count = suc rest.count;
      }

  module _ (qsort : List SortRec → List SortRec) where
    -- The file that `sort_file` writes, or nothing if there are more entries than `file_lines`.
    unfoldable pub sorted_text : ℕ → Bytes → Bytes → Option Bytes
    unfolding records
    sorted_text file_lines cur text =
        let found = records cur (entries text) in
        if ltb file_lines (length found)
        then none
        else some (unlines (map (λ r. r.value) (qsort found)) ++ end_line assign)

    unfoldable pub sorted_answer : Host → Bytes → Option Bytes → Answer
    sorted_answer h text none = (memory_alloc_err, some text)
    sorted_answer h text (some new) = (pos 0, renamed h text new)

    unfoldable pub sort_opened : Host → ℕ → Bytes → Option Bytes → Option Bytes → Answer
    unfolding sorted_answer
    sort_opened h file_lines cur file none = (could_not_update_file, file)
    sort_opened h file_lines cur file (some text) =
        if h.allocates
        then sorted_answer h text (sorted_text file_lines cur text)
        else (memory_alloc_err, some text)

    -- `sort_file`
    unfoldable pub sort_file : Host → ℕ → Bytes → Option Bytes → Answer
    unfolding sort_opened
    sort_file h file_lines cur file =
        locked h file (sort_opened h file_lines cur file (open_or_create h file))

    -- `update_file` once the files are open. What `sort_file` answers is not looked at.
    unfoldable pub update_opened :
        Host → Host → Bytes → Bytes → Bytes → Option Bytes → Option Bytes → Answer
    unfolding scan
    update_opened h sort_host uninit sort_uninit update_line file none =
        (could_not_update_file, file)
    update_opened h sort_host uninit sort_uninit update_line file (some text) =
        let new_domain = extract_domain assign uninit behind update_line in
        let s = scan new_domain update_line false [] uninit (entries text) in
        let updated = renamed h text (unlines s.out ++ end_line assign) in
        (
          pos 0,
          if s.needsort then (sort_file sort_host (suc s.count) sort_uninit updated).1 else updated,
        )

    -- `update_file`. The calls of `sort_file` on the file system end as `sort_host` says; `uninit` and
    -- `sort_uninit` are what the buffers for domains hold at first.
    unfoldable pub update_file : Host → Host → Bytes → Bytes → Bytes → Option Bytes → Answer
    unfolding update_opened
    update_file h sort_host uninit sort_uninit update_line file =
        locked h file
          (update_opened h sort_host uninit sort_uninit update_line file (open_or_create h file))
