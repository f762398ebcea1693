-- ===== src/Vpopmaild/Flags.antt =====
-- vpopmaild.c: the lines in which `user_info` shows the flags, sent back as options of `mod_user`.
use vpopmail.Common.{
  ℕ, ◌≡◌, ◌∙◌, refl, ap, Bool, true, false, ◌||◌, List, [], ◌∷◌, ◌++◌, some, Bytes, ◌==◌, equal,
  codes, if◌then◌else◌, ltb, arith, All, map,
}
use vpopmail.Common.Decimal.{read_int}
use vpopmail.Vpopmaild.{Vqpasswd, Library, Session, is_sa, Connection}
use vpopmail.Vpopmaild.Tokens.{strtok, pass_tokens, param_tokens}
use vpopmail.Vpopmaild.Accounts.{flag_line, flag_lines, shown_flags}
use vpopmail.Vpopmaild.Options.{
  flag_options, with_bit, set_flag, apply_option, on_value, on_param, option_line, is_last, options,
}

-- A line as it is sent, with RET_CRLF.
abbrev pub sent : Bytes → Bytes
sent l = l ++ (b'\r' ∷ b'\n' ∷ [])

abbrev digit_of : Bool → Bytes
digit_of b = if b then codes "1" else codes "0"

-- The two words of a line that shows a flag.
abbrev SplitsAs : Bool → Bytes × ℕ → Type 0
SplitsAs b (name, bit) =
    (strtok param_tokens (sent (name ++ (b' ' ∷ digit_of b)))
      ≡ some (name, digit_of b ++ (b'\r' ∷ b'\n' ∷ [])))
    × (strtok pass_tokens (digit_of b ++ (b'\r' ∷ b'\n' ∷ [])) ≡ some (digit_of b, b'\n' ∷ []))

two_words : (b : Bool) → All (SplitsAs b) shown_flags
unfolding strtok
two_words true = ground arith
two_words false = ground arith

abbrev Applies : (s : Session) → (ℕ → Bool) → Bool → Bytes × ℕ → Type 0
Applies s gid b (name, bit) = set_flag s flag_options name (digit_of b) gid ≡ with_bit bit b gid

sets_flags :
    (s : Session) (gid : ℕ → Bool) (b : Bool) → is_sa s ≡ true → All (Applies s gid b) shown_flags
unfolding set_flag equal read_int
sets_flags s gid true sa = ground arith
sets_flags s gid false sa = ground arith

-- No option in front of the flags has the name of a flag.
abbrev Passes : Bytes × ℕ → Type 0
Passes (name, bit) =
    (equal name (codes "comment") ≡ false)
    × (equal name (codes "quota") ≡ false)
    × (equal name (codes "encrypted_password") ≡ false)
    × (equal name (codes "clear_text_password") ≡ false)
    × (equal name (codes "clear_all_flags") ≡ false)

no_other_name : All Passes shown_flags
unfolding equal
no_other_name = ground arith

abbrev IsOption : Bool → Bytes × ℕ → Type 0
IsOption b (name, bit) = is_last (sent (name ++ (b' ' ∷ digit_of b))) ≡ false

ends_none : (b : Bool) → All (IsOption b) shown_flags
ends_none true = ground arith
ends_none false = ground arith

-- What the options make of the flags `g`, one after the other.
abbrev restored : List (Bytes × ℕ) → (ℕ → Bool) → (ℕ → Bool) → ℕ → Bool
restored [] gid g = g
restored ((name, bit) ∷ rows) gid g = restored rows gid (with_bit bit (gid bit) g)

module _ (L : Library) (s : Session) (domain : Bytes) where
  apply_flag :
      (name : Bytes) (bit : ℕ) (b : Bool) (pw : Vqpasswd) (c : Connection L)
      → Passes (name, bit)
      → Applies s pw.pw_gid b (name, bit)
      → apply_option L s domain name (digit_of b) pw c
        ≡ (record pw { pw_gid = with_bit bit b pw.pw_gid }, c)
  unfolding apply_option
  apply_flag name bit b pw c p a = ground (arith, p, a)

  line_flag :
      (name : Bytes) (bit : ℕ) (b : Bool) (pw : Vqpasswd) (c : Connection L)
      → SplitsAs b (name, bit)
      → Passes (name, bit)
      → Applies s pw.pw_gid b (name, bit)
      → option_line L s domain (sent (name ++ (b' ' ∷ digit_of b))) pw c
        ≡ (record pw { pw_gid = with_bit bit b pw.pw_gid }, c)
  unfolding option_line
  line_flag name bit b pw c (first, second) p a =
      ap (λ o. on_param L s domain o pw c) first
      ∙ ap (λ o. on_value L s domain name o pw c) second
      ∙ apply_flag name bit b pw c p a

  abbrev final : List Bytes → Connection L → Connection L
  final more c = record c { input = more }

  options_flags :
      (rows : List (Bytes × ℕ)) (gid : ℕ → Bool) (more : List Bytes) (pw : Vqpasswd)
      (c : Connection L)
      → ((b : Bool) → All (SplitsAs b) rows)
      → ((g : ℕ → Bool) (b : Bool) → All (Applies s g b) rows)
      → All Passes rows
      → ((b : Bool) → All (IsOption b) rows)
      → options L s domain (map sent (flag_lines gid rows) ++ ((b'.' ∷ b'\n' ∷ []) ∷ more)) pw c
        ≡ (record pw { pw_gid = restored rows gid pw.pw_gid }, final more c)
  unfolding options
  options_flags [] gid more pw c splits applies passes opts = refl
  options_flags ((name, bit) ∷ rows) gid more pw c splits applies (pass, passes) opts =
      let b = gid bit in
      let e = line_flag name bit b pw c (splits b).0 pass (applies pw.pw_gid b).0 in
      let rest =
        options_flags rows gid more (record pw { pw_gid = with_bit bit b pw.pw_gid }) c
          (λ d. (splits d).1) (λ g d. (applies g d).1) passes (λ d. (opts d).1) in
      let lines = map sent (flag_lines gid rows) ++ ((b'.' ∷ b'\n' ∷ []) ∷ more) in
      let one = option_line L s domain (sent (flag_line gid name bit)) pw c in
      ap
        (λ (stop : Bool).
          if stop then (pw, final lines c) else options L s domain lines one.0 one.1)
        (opts b).0
      ∙ ap (λ (r : Vqpasswd × Connection L). options L s domain lines r.0 r.1) e
      ∙ rest

-- The flags that are shown.
abbrev pub is_shown : ℕ → Bool
is_shown i = ltb i 17 || i == 18

restored-is_shown :
    (gid g : ℕ → Bool) (i : ℕ) → restored shown_flags gid g i ≡ (if is_shown i then gid i else g i)
restored-is_shown gid g i = ground arith

-- The lines in which `user_info` shows the flags of an account, sent by a system administrator as the
-- options of `mod_user` for any entry, with a line `.` behind them, give this entry the flags of the
-- account; the flags that are not shown stay as they were in the entry.
pub options-flag_lines :
    (L : Library) (s : Session) (domain : Bytes) (gid : ℕ → Bool) (more : List Bytes)
    (pw : Vqpasswd) (c : Connection L) (i : ℕ)
    → is_sa s ≡ true
    → (options L s domain
          (map sent (flag_lines gid shown_flags) ++ ((b'.' ∷ b'\n' ∷ []) ∷ more))
          pw
          c).0.pw_gid
        i
      ≡ (if is_shown i then gid i else pw.pw_gid i)
options-flag_lines L s domain gid more pw c i sa =
    ap (λ (r : Vqpasswd × Connection L). r.0.pw_gid i)
      (options_flags L s domain shown_flags gid more pw c two_words (λ g b. sets_flags s g b sa)
        no_other_name ends_none)
    ∙ restored-is_shown gid pw.pw_gid i
