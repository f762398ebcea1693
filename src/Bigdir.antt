-- ===== src/Bigdir.antt =====
-- bigdir.c: the directories in which the users of a large domain are put, a hundred to each.
pub mod Order
pub mod Users
mod Tests
use vpopmail.Common.{
  ℕ, zero, suc, ◌+◌, ◌-◌, ◌%◌, ◌^◌, Bool, true, false, ◌&&◌, ◌||◌, List, [], ◌∷◌, ◌++◌, Bytes,
  codes, leb, ◌==◌, if◌then◌else◌, get_or, length,
}

abbrev pub dirlist : Bytes
dirlist = codes "0123456789ABCDEFGHIJKLMNOPQRSTUVWXYZabcdefghijklmnopqrstuvwxyz"

-- `dirlist[i]`
unfoldable pub dir_char : ℕ → ℕ
dir_char i = get_or dirlist i 0

-- The bytes of `the_dir` behind those written are 0.
pub record VdirType : Type 0 where
  pub level_cur : ℕ
  pub level_start : List ℕ
  pub level_end : List ℕ
  pub level_mod : List ℕ
  pub level_index : List ℕ
  pub cur_users : ℕ
  pub the_dir : Bytes

abbrev pub set : List ℕ → ℕ → ℕ → List ℕ
set [] zero x = x ∷ []
set [] (suc i) x = 0 ∷ set [] i x
set (y ∷ ys) zero x = x ∷ ys
set (y ∷ ys) (suc i) x = y ∷ set ys i x

-- The loop of `next_char` from `i` on, over as many characters as are left to the end.
unfoldable pub find_char : ℕ → ℕ → ℕ → ℕ
unfolding dir_char
find_char zero c i = i
find_char (suc n) c i = let rest = find_char n c (suc i) in if dir_char i == c then i else rest

unfoldable pub next_char : ℕ → ℕ → ℕ → ℕ
unfolding dir_char find_char
next_char c start end =
    let i : ℕ = suc (find_char (end + 1 - start) c start) in
    dir_char (if leb (end + 1) i then start else i)

abbrev pub char_at : VdirType → ℕ → ℕ
char_at v level = get_or v.the_dir (get_or v.level_mod level 0) 0

abbrev pub with_char : ℕ → ℕ → VdirType → VdirType
with_char level c v = record v { the_dir = set v.the_dir (get_or v.level_mod level 0) c }

abbrev pub with_index : ℕ → ℕ → VdirType → VdirType
with_index level i v = record v { level_index = set v.level_index level i }

abbrev pub at_end : ℕ → VdirType → Bool
at_end level v = char_at v level == dir_char (get_or v.level_end level 0)

abbrev pub restart : ℕ → VdirType → VdirType
restart level v =
    with_index level (get_or v.level_start level 0)
      (with_char level (dir_char (get_or v.level_start level 0)) v)

abbrev pub advance : ℕ → VdirType → VdirType
advance level v = with_index level (suc (get_or v.level_index level 0)) (
    with_char level
      (next_char (char_at v level) (get_or v.level_start level 0) (get_or v.level_end level 0)) v)

unfoldable pub inc_dir : ℕ → VdirType → VdirType
unfolding dir_char next_char
inc_dir zero v = if at_end zero v then restart zero v else advance zero v
inc_dir (suc level) v =
    let carry = inc_dir level (restart (suc level) v) in
    if at_end (suc level) v then carry else advance (suc level) v

-- `++level_cur; strcat(the_dir, "/")`, where `the_dir` has no 0 among its bytes.
abbrev pub deeper : VdirType → VdirType
deeper v = record v { level_cur = suc v.level_cur; the_dir = v.the_dir ++ (b'/' ∷ []) }

abbrev pub full : ℕ → VdirType → Bool
full level v = get_or v.level_index level 0 == get_or v.level_end level 0

-- The switch over the level.
unfoldable pub grow : VdirType → VdirType
unfolding inc_dir
grow v =
    if v.level_cur == 0
    then deeper (inc_dir 0 v)
    else if v.level_cur == 1
    then (if full 0 v && full 1 v then deeper (inc_dir 1 v) else v)
    else v

abbrev pub next_level : VdirType → VdirType
next_level v = if full v.level_cur v then grow v else v

-- A new directory.
unfoldable pub next_dir : VdirType → VdirType
unfolding grow inc_dir dir_char
next_dir v =
    if length v.the_dir == 0
    then record v { the_dir = dir_char (get_or v.level_start 0 0) ∷ [] }
    else (let w = next_level v in inc_dir w.level_cur w)

-- `inc_dir_control`
unfoldable pub inc_dir_control : VdirType → VdirType
unfolding next_dir
inc_dir_control v =
    let w : VdirType = record v { cur_users = (v.cur_users + 1) % 2 ^ 64 } in
    if w.cur_users % 100 == 0 then next_dir w else w
