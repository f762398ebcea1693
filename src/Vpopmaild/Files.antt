-- ===== src/Vpopmaild/Files.antt =====
-- vpopmaild.c: the commands on files and directories, and `validate_path`.
-- A path has at most 256 bytes; with 256 of them, its end lies behind the buffer, and so does the end of
-- a name of 256 bytes in front of the first slash. What such an overrun destroys is not modelled.
use vpopmail.Common.{
  ℕ, ◌-◌, Bool, true, false, not, ◌||◌, ◌&&◌, List, [], ◌∷◌, ◌++◌, Option, none, some, Bytes, codes,
  ◌==◌, equal, if◌then◌else◌, take, drop, length,
}
use vpopmail.Common.Decimal.{print_nat}
use vpopmail.Email.{split_at}
use vpopmail.Vpopmaild.{
  Call, Library, Session, is_sa, is_qa, Reply, error, failed, ok, ok_more, text, dot, Connection,
  Answer, require, present, on_email, noted, on_call, send, send_lines,
}
use vpopmail.Vpopmaild.Tokens.{strtok, tokens}
use vpopmail.Vpopmaild.Lists.{is_prefix, has_part}

abbrev has_mark : Option Bytes → Bool
has_mark none = false
has_mark (some _) = true

abbrev pub has_char : ℕ → Bytes → Bool
has_char c s = has_mark (split_at c s).back

abbrev pub starts_with_slash : Bytes → Bool
starts_with_slash [] = false
starts_with_slash (c ∷ cs) = c == b'/'

-- `snprintf(newpath, MAXPATH, "%s", dir)` and `strncat(newpath, rest, MAXPATH - strlen(newpath))`
abbrev pub join : Bytes → Bytes → Bytes
join dir rest = let start = take 255 dir in start ++ take (256 - length start) rest

-- The directory below which the session may work.
abbrev pub root : Session → Bytes
root s =
    if is_sa s then s.the_vpopmail_domains else if is_qa s then s.the_domain_dir else s.the_user_dir

abbrev pub refused : Session → Reply
refused s = error 26 (if is_sa s then 1510 else if is_qa s then 1511 else 1512)

-- What is in front of the first slash, at most 256 bytes of it.
abbrev pub front_of : Bytes → Bytes
front_of path = take 256 (split_at b'/' path).front

module _ (L : Library) where
  -- The last guard of `validate_path`.
  unfoldable pub below_root :
      Session → Bytes → Connection L → (Bytes → Connection L → Answer L) → Answer L
  below_root s newpath c k = require L (is_prefix (root s) newpath) (refused s) c (k newpath c)

  -- The guards on the account of an address: those for administrators look at the beginning of the
  -- domain only.
  abbrev pub may_enter : Session → Bytes → Bytes → Bool
  may_enter s user domain =
      if is_qa s
      then is_prefix s.the_domain domain
      else is_sa s || (equal s.the_user user && equal s.the_domain domain)

  abbrev pub in_account :
      Session → Bytes → Bytes → Connection L → (Bytes → Connection L → Answer L) → Answer L
  in_account s front rest c k = on_email L front 256 (error 24 1505) c (λ user domain.
      present L (L.getpw user domain c.world) (error 25 1506) c (λ pw.
        require L (may_enter s user domain) (if is_qa s then error 11 1507 else error 12 1508) c
          (below_root s (join pw.pw_dir rest) (noted L (Call.use_account user domain) c) k)))

  abbrev pub in_domain_dir :
      Session → Bytes → Bytes → Connection L → (Bytes → Connection L → Answer L) → Answer L
  in_domain_dir s front rest c k =
      present L (L.get_assign front c.world) (error 11 1509) c
        (λ (dir, _, _). below_root s (join (take 255 dir) rest) c k)

  abbrev pub relative :
      Session → Bytes → Connection L → (Bytes → Connection L → Answer L) → Answer L
  relative s path c k =
      let front = front_of path in
      let rest = drop (length front) path in
      require L (has_char b'/' path) (error 22 1503) c (
        if has_char b'@' path
        then require L (has_char b'@' (split_at b'/' path).front) (error 23 1504) c
            (in_account s front rest c k)
        else in_domain_dir s front rest c k)

  -- `validate_path`, and what follows where it accepts the path. The log has an account whose directory
  -- it takes from an address once its guards are passed; its calls of `vauth_getpw` and `vget_assign`,
  -- which come before the guards, are not in the log.
  unfoldable pub validate_path :
      Session → Bytes → Connection L → (Bytes → Connection L → Answer L) → Answer L
  validate_path s path c k = require L (not (has_part (codes "..") path)) (error 20 1501) c (
      require L (not (has_char b'%' path)) (error 21 1502) c
        (if starts_with_slash path then below_root s (take 255 path) c k else relative s path c k))

  unfoldable pub mk_dir : Session → Bytes → Connection L → Answer L
  mk_dir s rest c = require L L.has_uidgid (error 39 2002) c (
      present L (strtok tokens rest) (error 27 1601) c (λ (olddir, _).
        validate_path s olddir c (λ dir d.
          on_call L (Call.mkdir dir) d (failed 1602)
            (λ e. on_call L (Call.chown dir) e (failed 1603) (λ f. (ok, f))))))

  unfoldable pub rm_dir : Session → Bytes → Connection L → Answer L
  rm_dir s rest c = present L (strtok tokens rest) (error 27 1701) c (λ (olddir, _).
      validate_path s olddir c
        (λ dir d. on_call L (Call.vdelfiles dir) d (failed 1702) (λ e. (ok, e))))

  -- `strncmp` with one byte more than the name has compares the whole name.
  abbrev is_dots : Bytes → Bool
  is_dots name = equal name (codes ".") || equal name (codes "..")

  abbrev pub dir_lines : List (Bytes × Bytes) → List Bytes
  dir_lines [] = []
  dir_lines ((name, kind) ∷ rows) =
      (if is_dots name then [] else (name ++ (b' ' ∷ kind)) ∷ []) ++ dir_lines rows

  unfoldable pub list_dir : Session → Bytes → Connection L → Answer L
  list_dir s rest c = present L (strtok tokens rest) (error 27 1801) c (λ (olddir, _).
      validate_path s olddir c (λ dir b.
        let d = noted L (Call.opendir dir) b in
        require L (L.enters dir c.world) (failed 1802) d (
          present L (L.directory dir c.world) (failed 1803) d
            (λ rows. (dot, send_lines L (dir_lines rows) (send L ok_more d))))))

  unfoldable pub rename_file : Session → Bytes → Connection L → Answer L
  rename_file s rest c = present L (strtok tokens rest) (error 28 3801) c (λ (source, more).
      present L (strtok tokens more) (error 29 3801) c (λ (dest, _).
        validate_path s source c (λ sourcename d. validate_path s dest d (λ destname e.
          on_call L (Call.move sourcename destname) e (failed 3803) (λ f. (ok, f))))))

  unfoldable pub rm_file : Session → Bytes → Connection L → Answer L
  rm_file s rest c = present L (strtok tokens rest) (error 30 1901) c (λ (oldfilename, _).
      validate_path s oldfilename c
        (λ filename d. on_call L (Call.remove_file filename) d (failed 1902) (λ e. (ok, e))))

  abbrev pub ends_file : Bytes → Bool
  ends_file l = equal l (b'.' ∷ b'\r' ∷ b'\n' ∷ []) || equal l (b'.' ∷ b'\n' ∷ [])

  -- The lines of the new file, and the input behind them.
  unfoldable pub file_lines : List Bytes → List Bytes × List Bytes
  unfolding equal
  file_lines [] = ([], [])
  file_lines (l ∷ ls) =
      let (body, rest) = file_lines ls in if ends_file l then ([], ls) else (l ∷ body, rest)

  -- The lines are read only where the file can be opened; the call opens and writes it.
  unfoldable pub write_file : Session → Bytes → Connection L → Answer L
  write_file s rest c = present L (strtok tokens rest) (error 30 2001) c (λ (oldfilename, _).
      validate_path s oldfilename c (λ filename d.
        let (body, more) = file_lines d.input in
        on_call L (Call.write_contents filename body) d (failed 2002)
          (λ e. (ok, record e { input = more }))))

  -- A line that would end the reply has a dot put in front of it.
  abbrev pub shown_line : Bytes → Bytes
  shown_line l = if ends_file l then b'.' ∷ l else l

  unfoldable pub send_texts : List Bytes → Connection L → Connection L
  send_texts [] c = c
  send_texts (l ∷ ls) c = send_texts ls (send L (text (shown_line l)) c)

  -- Whether the last line has its newline. An empty file is taken to leave no earlier line in the buffer.
  unfoldable pub is_complete : Bytes → Bool
  is_complete [] = true
  is_complete (c ∷ []) = c == b'\n'
  is_complete (c ∷ d ∷ cs) = is_complete (d ∷ cs)

  unfoldable pub last_complete : List Bytes → Bool
  unfolding is_complete
  last_complete [] = true
  last_complete (l ∷ []) = is_complete l
  last_complete (l ∷ m ∷ ls) = last_complete (m ∷ ls)

  abbrev pub file_end : List Bytes → Reply
  file_end ls = if last_complete ls then dot else text (b'\r' ∷ b'\n' ∷ b'.' ∷ b'\r' ∷ b'\n' ∷ [])

  unfoldable pub read_file : Session → Bytes → Connection L → Answer L
  read_file s rest c = present L (strtok tokens rest) (error 30 2101) c (λ (oldfilename, _).
      validate_path s oldfilename c (λ filename b.
        let d = noted L (Call.read_contents filename) b in
        present L (L.contents filename c.world) (failed 2102) d
          (λ ls. (file_end ls, send_texts ls (send L ok_more d)))))

  unfoldable pub stat_file : Session → Bytes → Connection L → Answer L
  stat_file s rest c = present L (strtok tokens rest) (error 30 2201) c (λ (oldfilename, _).
      validate_path s oldfilename c (λ filename b.
        let d = noted L (Call.get_stat filename) b in
        present L (L.owner filename c.world) (failed 2202) d (λ uid. (
          dot,
          send L (text (codes "uid: " ++ (print_nat uid ++ (b'\n' ∷ [])))) (send L ok_more d),
        ))))
