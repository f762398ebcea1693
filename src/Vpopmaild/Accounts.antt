-- ===== src/Vpopmaild/Accounts.antt =====
-- vpopmaild.c: the commands on the accounts of a domain, but for `mod_user`.
use vpopmail.Common.{
  ℕ, ◌+◌, ◌-◌, ◌*◌, Bool, true, false, List, [], ◌∷◌, ◌++◌, Option, none, some, Bytes, codes, ltb,
  leb, ◌&&◌, ◌^◌, zero, suc, if◌then◌else◌, length, take, ◌%◌,
}
use vpopmail.Common.Int.{ℤ, pos, negsuc}
use vpopmail.Common.Decimal.{print_nat, read_int}
use vpopmail.Vpopmaild.{
  Vqpasswd, Call, Library, Session, is_admin, in_domain, error, failed, ok, ok_more, dot, auth_size,
  Connection, Answer, require, present, on_email, noted, on_call, send, send_lines,
}
use vpopmail.Vpopmaild.Tokens.{strtok, tokens, pass_tokens}

abbrev pub named : Bytes → Bytes → Bytes
named name value = name ++ (b' ' ∷ value)

-- The lines that `send_user_info` writes for the bits, by their names.
abbrev pub shown_flags : List (Bytes × ℕ)
shown_flags =
    (codes "no_password_change", 0)
    ∷ (codes "no_pop", 1)
    ∷ (codes "no_webmail", 2)
    ∷ (codes "no_imap", 3)
    ∷ (codes "bounce_mail", 4)
    ∷ (codes "no_relay", 5)
    ∷ (codes "no_dialup", 6)
    ∷ (codes "user_flag_0", 7)
    ∷ (codes "user_flag_1", 8)
    ∷ (codes "user_flag_2", 9)
    ∷ (codes "user_flag_3", 10)
    ∷ (codes "no_smtp", 11)
    ∷ (codes "domain_admin_privileges", 12)
    ∷ (codes "override_domain_limits", 13)
    ∷ (codes "no_spamassassin", 14)
    ∷ (codes "delete_spam", 15)
    ∷ (codes "no_maildrop", 18)
    ∷ (codes "system_admin_privileges", 16)
    ∷ []

abbrev pub flag_line : (ℕ → Bool) → Bytes → ℕ → Bytes
flag_line gid name bit = named name (if gid bit then codes "1" else codes "0")

abbrev pub flag_lines : (ℕ → Bool) → List (Bytes × ℕ) → List Bytes
flag_lines gid [] = []
flag_lines gid ((name, bit) ∷ rows) = flag_line gid name bit ∷ flag_lines gid rows

-- The value of the bits below `n`; `pw_gid` uses 19.
unfoldable pub value_of : ℕ → (ℕ → Bool) → ℕ
value_of zero gid = 0
value_of (suc n) gid = value_of n gid + (if gid n then 2 ^ n else 0)

-- `send_user_info`, without the last line, which its callers overwrite.
unfoldable pub send_user_info : ℕ → Vqpasswd → List Bytes
unfolding value_of
send_user_info output_type pw =
    named (codes "name") pw.pw_name
    ∷ named (codes "comment") pw.pw_gecos
    ∷ named (codes "quota") pw.pw_shell
    ∷ named (codes "user_dir") pw.pw_dir
    ∷ named (codes "encrypted_password") pw.pw_passwd
    ∷ named (codes "clear_text_password") pw.pw_clear_passwd
    ∷ (if ltb 0 output_type
        then named (codes "gidflags") (print_nat (value_of 19 pw.pw_gid)) ∷ []
        else flag_lines pw.pw_gid shown_flags)

-- `page` and `lines_per_page`, with their bounds `start` and `end`, which are taken to fit an `int`.
abbrev pub nonnegative : ℤ → ℕ
nonnegative (pos n) = n
nonnegative (negsuc n) = 0

abbrev pub number_in : Option (Bytes × Bytes) → ℕ
number_in none = 0
number_in (some (word, rest)) = nonnegative (read_int word)

abbrev pub second_number : Option (Bytes × Bytes) → ℕ
second_number none = 0
second_number (some (word, rest)) = number_in (strtok tokens rest)

-- The products are taken to fit an `int`.
abbrev pub bounds_of : ℕ → ℕ → ℕ × ℕ
bounds_of page lines_per_page =
    if ltb 0 page && ltb 0 lines_per_page
    then ((page - 1) * lines_per_page, page * lines_per_page)
    else (0, 0)

abbrev pub page_bounds : Bytes → ℕ × ℕ
page_bounds rest = bounds_of (number_in (strtok tokens rest)) (second_number (strtok tokens rest))

-- The loop over what is listed, with `count` as it goes: an entry in front of the page has only the
-- lines `other`.
unfoldable pub paged {ℓ} :
    {A : Type ℓ} → ℕ × ℕ → (A → List Bytes) → List Bytes → ℕ → List A → List Bytes
paged (start, end) shown other count [] = []
paged (start, end) shown other count (x ∷ xs) =
    let rest = paged (start, end) shown other (suc count) xs in
    if ltb 0 end
    then (if leb start count && ltb count end
        then shown x ++ rest
        else if leb end count
        then []
        else other ++ rest)
    else shown x ++ rest

module _ (L : Library) where
  unfoldable pub add_user : Session → Bytes → Connection L → Answer L
  add_user s rest c = require L (is_admin s) (error 9 301) c (
      present L (strtok tokens rest) (error 6 302) c (λ (email, more).
        on_email L email auth_size (error 10 303) c (λ user domain.
          require L (in_domain s domain) (error 11 304) c (
            present L (strtok pass_tokens more) (error 7 305) c (λ (password, _).
              on_call L (Call.vadduser user domain password) c (failed 305) (λ d. (ok, d)))))))

  unfoldable pub del_user : Session → Bytes → Connection L → Answer L
  del_user s rest c = require L (is_admin s) (error 9 401) c (
      present L (strtok tokens rest) (error 6 402) c (λ (email, _).
        on_email L email auth_size (error 10 403) c (λ user domain.
          require L (in_domain s domain) (error 9 404) c
            (on_call L (Call.vdeluser user domain) c (failed 405) (λ d. (ok, d))))))

  unfoldable pub user_info : Session → Bytes → Connection L → Answer L
  user_info s rest c = require L (is_admin s) (error 9 601) c (
      present L (strtok tokens rest) (error 6 602) c (λ (email, _).
        on_email L email auth_size (error 10 603) c (λ user domain.
          require L (in_domain s domain) (error 11 604) c (
            present L (L.getpw user domain c.world) (error 12 605) c (λ pw. (
              dot,
              send_lines L (send_user_info s.output_type pw)
                  (send L ok_more (noted L (Call.send_info user domain) c)),
            ))))))

  abbrev last_login : Bytes → Bytes → Connection L → Answer L
  last_login user domain c = require L L.has_auth_logging ok c (
      (
        dot,
        send_lines L
            (named (codes "time") (print_nat (L.lastauth user domain c.world))
              ∷ named (codes "ip") (L.lastauthip user domain c.world)
              ∷ [])
            (send L ok_more (noted L (Call.vget_lastauth user domain) c)),
      ))

  unfoldable pub get_lastauth : Session → Bytes → Connection L → Answer L
  get_lastauth s rest c = require L (is_admin s) (error 9 3701) c (
      present L (strtok tokens rest) (error 6 3702) c (λ (email, _).
        on_email L email auth_size (error 10 3703) c (λ user domain.
          require L (in_domain s domain) (error 11 3704) c (
            present L (L.getpw user domain c.world) (error 12 3705) c
              (λ pw. last_login user domain c)))))

  abbrev pub size_lines : ℕ × ℕ → List Bytes
  size_lines (bytes, cnt) =
      named (codes "size") (print_nat bytes) ∷ named (codes "count") (print_nat cnt) ∷ []

  -- The errors here are texts of their own.
  unfoldable pub get_user_size : Session → Bytes → Connection L → Answer L
  get_user_size s rest c = require L (is_admin s) (failed 3801) c (
      present L (strtok tokens rest) (failed 3802) c (λ (email, _).
        on_email L email auth_size (failed 3803) c (λ user domain.
          require L (in_domain s domain) (failed 3804) c (
            present L (L.getpw user domain c.world) (failed 3805) c (λ pw.
              let d = noted L (Call.readuserquota user domain) c in
              present L (L.userquota pw.pw_dir c.world) (failed 3806) d
                (λ size. (dot, send_lines L (size_lines size) (send L ok_more d))))))))

  abbrev maildir_of : Vqpasswd → Bytes
  maildir_of pw = take 255 (pw.pw_dir ++ codes "/Maildir")

  -- The loop over the users, with the totals in 64 and 32 bits.
  unfoldable pub sum_sizes : Bytes → ℕ → ℕ → List Vqpasswd → Connection L → Answer L
  sum_sizes domain totalbytes totalcnt [] c =
      (dot, send_lines L (named (codes "domain") domain ∷ size_lines (totalbytes, totalcnt)) c)
  sum_sizes domain totalbytes totalcnt (pw ∷ pws) c =
      let d = noted L (Call.readuserquota pw.pw_name domain) c in
      present L (L.userquota (maildir_of pw) c.world) (failed 3904) d (λ (bytes, cnt).
        sum_sizes domain ((totalbytes + bytes) % 2 ^ 64) ((totalcnt + cnt) % 2 ^ 32) pws (
          send_lines L
            (named (codes "user") (pw.pw_name ++ (b'@' ∷ domain)) ∷ size_lines (bytes, cnt)) d))

  unfoldable pub get_domain_size : Session → Bytes → Connection L → Answer L
  get_domain_size s rest c = require L (is_admin s) (failed 3901) c (
      present L (strtok tokens rest) (failed 3902) c (λ (domain, _).
        require L (in_domain s domain) (failed 3903) c (
          sum_sizes domain 0 0 (L.getall domain false c.world)
            (send L ok_more (noted L (Call.vauth_getall domain) c)))))

  -- The domain is tested twice, under two numbers.
  unfoldable pub user_count : Session → Bytes → Connection L → Answer L
  user_count s rest c = require L (is_admin s) (error 9 2601) c (
      present L (strtok tokens rest) (error 13 2602) c (λ (domain, _).
        require L (in_domain s domain) (error 11 2603) c (
          (
            dot,
            send_lines L
                (named (codes "count") (print_nat (length (L.getall domain true c.world))) ∷ [])
                (send L ok_more (noted L (Call.vauth_getall domain) c)),
          ))))

  -- Each user that is passed ends with an empty line.
  abbrev user_lines : Session → Vqpasswd → List Bytes
  user_lines s pw = send_user_info s.output_type pw ++ ([] ∷ [])

  unfoldable pub list_users : Session → Bytes → Connection L → Answer L
  list_users s rest c = require L (is_admin s) (error 9 2701) c (
      present L (strtok tokens rest) (error 6 2702) c (λ (domain, more).
        require L (in_domain s domain) (error 11 2703) c (
          (
            dot,
            send_lines L
                (paged (page_bounds more) (user_lines s) ([] ∷ []) 0 (L.getall domain true c.world))
                (send L ok_more (noted L (Call.vauth_getall domain) c)),
          ))))
