-- ===== src/Limits/RoundTrip.antt =====
-- vlimits.c: the limits file, written and read again.
use Prim.Native.Nat.{bit_or}
use vpopmail.Common.{
  ltb, ltb→lt, ◌*◌, ◌/◌, ◌%◌, ◌^◌, all_below, all_below_sound, ℕ, ◌+◌, ◌<◌, ◌≤◌, ◌≡◌, ◌∙◌, refl, ap,
  Bool, true, false, List, [], ◌∷◌, ◌++◌, some, Bytes, length, length-append, arith, All,
  All-append, append_assoc, append-nil,
}
use vpopmail.Common.Int.{ℤ}
use vpopmail.Common.Decimal.{
  print_int, print_nat, IsInt, IsClean, length-print_int, length-print_nat, print_int-IsClean,
  print_nat-IsClean,
}
use vpopmail.Limits.{
  Vlimits, default_limits, setting, max_table, flag_table, perm_table, int_lines, perm_lines,
  flag_lines, quota_bits, written_lines, unlines, write_limits_file,
}
use vpopmail.Limits.Line.{parse_line}
use vpopmail.Limits.Reader.{read_limits_file, buffer_size}
use vpopmail.Limits.Reader.Lines.{fold_lines, NotNul, read_limits_file-fold_lines}
use vpopmail.Limits.Written.{read_lines, IsMasked, forgotten, read_lines-written_lines}

abbrev AllClean : List Bytes → Type 0
AllClean = All (All IsClean)

fold_lines-line :
    (s cur rest : Bytes) (l : Vlimits)
    → All IsClean s
    → fold_lines cur (s ++ (b'\n' ∷ rest)) l ≡ fold_lines [] rest (parse_line (cur ++ s) l)
unfolding fold_lines
fold_lines-line [] cur rest l h = ground (arith, append-nil cur)
fold_lines-line (c ∷ cs) cur rest l (hc, hs) =
    ground (arith, fold_lines-line cs (cur ++ c ∷ []) rest l hs, append_assoc cur (c ∷ []) cs)

fold_lines-unlines :
    (ls : List Bytes) (l : Vlimits) → AllClean ls → fold_lines [] (unlines ls) l ≡ read_lines ls l
unfolding unlines read_lines
fold_lines-unlines [] l h = unfold fold_lines parse_line in refl
fold_lines-unlines (s ∷ ss) l (hs, hss) =
    fold_lines-line s [] (unlines ss) l hs ∙ fold_lines-unlines ss (parse_line s l) hss

clean-NotNul : (s : Bytes) → All IsClean s → All NotNul s
clean-NotNul [] h = tt
clean-NotNul (c ∷ cs) (hc, hs) = (λ e. absurd (omega arith), clean-NotNul cs hs)

unlines-NotNul : (ls : List Bytes) → AllClean ls → All NotNul (unlines ls)
unfolding unlines
unlines-NotNul [] h = tt
unlines-NotNul (s ∷ ss) (hs, hss) =
    All-append NotNul s _ (clean-NotNul s hs) (λ e. absurd (omega arith), unlines-NotNul ss hss)

length-unlines :
    (xs ys : List Bytes) → length (unlines (xs ++ ys)) ≡ length (unlines xs) + length (unlines ys)
unfolding unlines
length-unlines [] ys = omega arith
length-unlines (x ∷ xs) ys = omega (
  arith,
  length-append x (b'\n' ∷ unlines (xs ++ ys)),
  length-append x (b'\n' ∷ unlines xs),
  length-unlines xs ys,
)

-- A property of every name and value of a table.
abbrev Names {ℓ} : {A : Type ℓ} → List (Bytes × A) → Type 0
Names [] = Unit
Names ((name, v) ∷ t) = All IsClean name × Names t

-- The length of the names, with `k` more bytes for each line.
abbrev room {ℓ} : {A : Type ℓ} → ℕ → List (Bytes × A) → ℕ
room k [] = 0
room k ((name, v) ∷ t) = length name + k + room k t

setting-IsClean :
    (name value : Bytes) → All IsClean name → All IsClean value → All IsClean (setting name value)
setting-IsClean name value h k = All-append IsClean name _ h (omega arith, (omega arith, k))

length-setting :
    (name value : Bytes) (rest : List Bytes) (k : ℕ)
    → length value ≤ k
    → length (unlines (setting name value ∷ rest)) ≤ length name + (k + 3) + length (unlines rest)
unfolding unlines
length-setting name value rest k h = omega (
  arith,
  length-append name (b':' ∷ b' ' ∷ value),
  length-append (setting name value) (b'\n' ∷ unlines rest),
)

abbrev pub Ints : List (Bytes × ℤ) → Type 0
Ints [] = Unit
Ints ((name, z) ∷ t) = IsInt z × Ints t

abbrev Small : List (Bytes × ℕ) → Type 0
Small [] = Unit
Small ((name, n) ∷ t) = (n < 1000) × Small t

int_lines-AllClean : (t : List (Bytes × ℤ)) → Names t → AllClean (int_lines t)
int_lines-AllClean [] h = tt
int_lines-AllClean ((name, z) ∷ t) (h, hs) =
    (setting-IsClean name (print_int z) h (print_int-IsClean z), int_lines-AllClean t hs)

perm_lines-AllClean : (t : List (Bytes × ℕ)) → Names t → AllClean (perm_lines t)
perm_lines-AllClean [] h = tt
perm_lines-AllClean ((name, n) ∷ t) (h, hs) =
    (setting-IsClean name (print_nat n) h (print_nat-IsClean n), perm_lines-AllClean t hs)

flag_lines-AllClean : (t : List (Bytes × Bool)) → Names t → AllClean (flag_lines t)
flag_lines-AllClean [] h = tt
flag_lines-AllClean ((name, true) ∷ t) (h, hs) = (h, flag_lines-AllClean t hs)
flag_lines-AllClean ((name, false) ∷ t) (h, hs) = flag_lines-AllClean t hs

length-int_lines : (t : List (Bytes × ℤ)) → Ints t → length (unlines (int_lines t)) ≤ room 14 t
length-int_lines [] h = unfold unlines in omega arith
length-int_lines ((name, z) ∷ t) (h, hs) = omega (
  arith,
  length-setting name (print_int z) (int_lines t) 11 (length-print_int z h),
  length-int_lines t hs,
)

length-perm_lines : (t : List (Bytes × ℕ)) → Small t → length (unlines (perm_lines t)) ≤ room 6 t
length-perm_lines [] h = unfold unlines in omega arith
length-perm_lines ((name, n) ∷ t) (h, hs) = omega (
  arith,
  length-setting name (print_nat n) (perm_lines t) 3 (length-print_nat 2 n (omega arith)),
  length-perm_lines t hs,
)

length-flag_lines : (t : List (Bytes × Bool)) → length (unlines (flag_lines t)) ≤ room 1 t
unfolding unlines
length-flag_lines [] = omega arith
length-flag_lines ((name, true) ∷ t) =
    omega (arith, length-append name (b'\n' ∷ unlines (flag_lines t)), length-flag_lines t)
length-flag_lines ((name, false) ∷ t) = omega (arith, length-flag_lines t)

-- Limits whose numbers fit an `int`, and whose permissions fit their masks.
pub record IsWritable (w : Vlimits) : Type 0 where
  pub masked : IsMasked w
  pub ints : Ints (max_table w)

-- Over all masks, the combined value has at most three digits.
abbrev quota_small : ℕ → Bool
quota_small k = ltb (bit_or (bit_or (k % 8) (k / 8 % 8 * 2 ^ 3)) (k / 64 * 2 ^ (3 * 2))) 1000

quota_table : all_below 512 quota_small ≡ true
unfolding all_below
quota_table = refl

quota_bits-lt : (w : Vlimits) → IsMasked w → quota_bits w < 1000
quota_bits-lt w m =
    let k = w.perm_maillist_moderators * 64 + w.perm_maillist_users * 8 + w.perm_quota in
    let eq : k % 8 ≡ w.perm_quota = omega arith in
    let eu : k / 8 % 8 ≡ w.perm_maillist_users = omega arith in
    let em : k / 64 ≡ w.perm_maillist_moderators = omega arith in
    rw (eq, eu, em) at (ltb→lt _ 1000 (all_below_sound 512 quota_small k quota_table (omega arith)))

written_lines-AllClean : (w : Vlimits) → AllClean (written_lines w)
written_lines-AllClean w =
    All-append (All IsClean) (int_lines (max_table w)) _
      (int_lines-AllClean (max_table w) (omega arith))
      (All-append (All IsClean) (flag_lines (flag_table w)) _
        (flag_lines-AllClean (flag_table w) (omega arith))
        (perm_lines-AllClean (perm_table w) (omega arith)))

length-write_limits_file : (w : Vlimits) → IsWritable w → length (write_limits_file w) < buffer_size
unfolding write_limits_file
length-write_limits_file w ok =
    let small : quota_bits w < 1000 = quota_bits-lt w ok.masked in
    omega (
      arith,
      length-int_lines (max_table w) (ok.ints),
      length-flag_lines (flag_table w),
      length-perm_lines (perm_table w) (omega arith),
      length-unlines (int_lines (max_table w))
          (flag_lines (flag_table w) ++ perm_lines (perm_table w)),
      length-unlines (flag_lines (flag_table w)) (perm_lines (perm_table w)),
    )

-- Reading the file that `vlimits_write_limits_file` wrote gives back every limit, flag and permission
-- that was written, except that those of the lists' users and moderators are gone. The permissions
-- have at most three bits, and the limits fit the C type `int`.
pub read-write :
    (w : Vlimits)
    → IsWritable w
    → read_limits_file (some (write_limits_file w)) default_limits ≡ some (forgotten w)
unfolding write_limits_file
read-write w ok =
    read_limits_file-fold_lines _ default_limits (length-write_limits_file w ok)
      (unlines-NotNul (written_lines w) (written_lines-AllClean w))
    ∙ ap some (fold_lines-unlines (written_lines w) default_limits (written_lines-AllClean w))
    ∙ ap some (read_lines-written_lines w ok.masked)
