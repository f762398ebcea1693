-- ===== src/Vpopmaild/Lists.antt =====
-- vpopmaild.c: `list_lists`, the mailing lists of a domain.
use vpopmail.Common.{
  Bool, true, false, ◌&&◌, ◌||◌, List, [], ◌∷◌, Option, none, some, Bytes, codes, ◌==◌,
  if◌then◌else◌,
}
use vpopmail.Vpopmaild.{
  Call, Library, Session, is_admin, in_domain, error, failed, ok_more, dot, Connection, Answer,
  require, present, noted, send, send_lines,
}
use vpopmail.Vpopmaild.Tokens.{strtok, tokens}
use vpopmail.Vpopmaild.Accounts.{page_bounds, paged}

-- `strncmp(p, s, strlen(p)) == 0`
unfoldable pub is_prefix : Bytes → Bytes → Bool
is_prefix [] s = true
is_prefix (c ∷ cs) [] = false
is_prefix (c ∷ cs) (d ∷ ds) = c == d && is_prefix cs ds

-- `strstr(s, p) != NULL`
unfoldable pub has_part : Bytes → Bytes → Bool
unfolding is_prefix
has_part p [] = is_prefix p []
has_part p (c ∷ cs) = is_prefix p (c ∷ cs) || has_part p cs

abbrev names_list : Option Bytes → Bool
names_list none = false
names_list (some first) = has_part (codes "ezmlm-reject") first

-- The files of mailing lists among the names. A file that opens is taken to have a line.
unfoldable pub list_names : List (Bytes × Option Bytes) → List Bytes
unfolding has_part
list_names [] = []
list_names ((name, first) ∷ rows) =
    let rest = list_names rows in
    if is_prefix (codes ".qmail-") name && names_list first then name ∷ rest else rest

module _ (L : Library) where
  abbrev single : Bytes → List Bytes
  single name = name ∷ []

  unfoldable pub list_lists : Session → Bytes → Connection L → Answer L
  list_lists s rest c = require L (is_admin s) (error 9 2901) c (
      present L (strtok tokens rest) (error 6 2902) c (λ (domain, more).
        require L (in_domain s domain) (error 11 2903) c (
          present L (L.get_assign domain c.world) (error 11 2904) c (λ (dir, _, _).
            let d = noted L (Call.scan_lists domain) c in
            require L (L.enters dir c.world) (failed 2905) d (
              (
                dot,
                send_lines L
                    (paged (page_bounds more) single [] 0 (list_names (L.sorted_names dir c.world)))
                    (send L ok_more d),
              ))))))
