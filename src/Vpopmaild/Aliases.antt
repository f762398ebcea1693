-- ===== src/Vpopmaild/Aliases.antt =====
-- vpopmaild.c: the commands on aliases. In `add_alias`, `remove_alias` and `delete_alias` the last
-- guard, for a session that is no administrator, is never reached.
use vpopmail.Common.{List, [], ◌∷◌, ◌++◌, Option, none, some, Bytes, take}
use vpopmail.Email.{lowerit, split_at}
use vpopmail.Vpopmaild.{
  Call, Library, Session, is_admin, in_domain, error, ok, ok_more, dot, Connection, Answer, require,
  present, on_email, noted, on_call, send, send_lines,
}
use vpopmail.Vpopmaild.Tokens.{strtok, tokens}

module _ (L : Library) where
  unfoldable pub add_alias : Session → Bytes → Connection L → Answer L
  add_alias s rest c = require L (is_admin s) (error 9 901) c (
      present L (strtok tokens rest) (error 14 902) c (λ (email, more).
        on_email L email 256 (error 15 903) c (λ user domain.
          require L (in_domain s domain) (error 11 904) c (
            present L (strtok tokens more) (error 16 906) c (λ (alias_line, _).
              on_call L (Call.valias_insert user domain alias_line) c (error 17 907)
                (λ d. (ok, d)))))))

  unfoldable pub remove_alias : Session → Bytes → Connection L → Answer L
  remove_alias s rest c = require L (is_admin s) (error 9 1001) c (
      present L (strtok tokens rest) (error 14 1002) c (λ (email, more).
        on_email L email 256 (error 15 1003) c (λ user domain.
          require L (in_domain s domain) (error 11 1004) c (
            present L (strtok tokens more) (error 16 1006) c (λ (alias_line, _).
              on_call L (Call.valias_remove user domain alias_line) c (error 18 1007)
                (λ d. (ok, d)))))))

  unfoldable pub delete_alias : Session → Bytes → Connection L → Answer L
  delete_alias s rest c = require L (is_admin s) (error 9 1101) c (
      present L (strtok tokens rest) (error 14 1102) c (λ (email, _).
        on_email L email 256 (error 15 1103) c (λ user domain.
          require L (in_domain s domain) (error 11 1104) c
            (on_call L (Call.valias_delete user domain) c (error 19 1106) (λ d. (ok, d))))))

  abbrev pub alias_lines : Bytes → List (Bytes × Bytes) → List Bytes
  alias_lines domain [] = []
  alias_lines domain ((alias, target) ∷ rows) =
      (alias ++ (b'@' ∷ domain ++ (b' ' ∷ target))) ∷ alias_lines domain rows

  abbrev pub with_alias : Bytes → List Bytes → List (Bytes × Bytes)
  with_alias alias [] = []
  with_alias alias (target ∷ targets) = (alias, target) ∷ with_alias alias targets

  abbrev pub list_all : Bytes → Connection L → Answer L
  list_all domain c = (
    dot,
    send_lines L (alias_lines domain (L.all_aliases domain c.world))
        (send L ok_more (noted L (Call.valias_select_all domain) c)),
  )

  -- Without an alias the `RET_OK` is overwritten.
  abbrev pub list_targets : Bytes → Bytes → List Bytes → Connection L → Answer L
  list_targets alias domain [] c = (dot, c)
  list_targets alias domain (t ∷ ts) c =
      (dot, send_lines L (alias_lines domain (with_alias alias (t ∷ ts))) (send L ok_more c))

  abbrev pub list_one : Bytes → Bytes → Connection L → Answer L
  list_one alias domain c =
      list_targets alias domain (L.aliases alias domain c.world)
        (noted L (Call.valias_select alias domain) c)

  -- By whether there is an `@` in the address.
  abbrev pub list_by : Option Bytes → Bytes → Bytes → Bytes → Connection L → Answer L
  list_by none address alias domain c = list_all address c
  list_by (some _) address alias domain c = list_one alias domain c

  -- The guard compares the whole word with the domain of the session.
  unfoldable pub list_alias : Session → Bytes → Connection L → Answer L
  list_alias s rest c = require L (is_admin s) (error 9 2801) c (
      present L (strtok tokens rest) (error 13 2802) c (λ (word, _).
        on_email L (take 255 word) 256 (error 10 2803) c (λ alias domain.
          require L (in_domain s word) (error 11 2804) c (
            let address = lowerit (take 255 word) in
            list_by (split_at b'@' address).back address alias domain c))))
