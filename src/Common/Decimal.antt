-- ===== src/Common/Decimal.antt =====
-- Decimal numbers as `printf("%d")` writes them and as `atoi`, `atol` and `strtoll` read them.
use Prim.Native.Nat.{ℕ, zero, suc, ◌+◌, ◌-◌, ◌*◌, ◌/◌, ◌%◌, ◌^◌, ◌≤◌, ◌<◌}
use mathlib.Core.Path.{◌≡◌, refl}
use mathlib.Core.Logic.{◌≢◌, inl, inr}
use mathlib.Core.Bool.{Bool, true, false, ◌||◌}
use mathlib.Core.List.{[], ◌∷◌, ◌++◌, concat-ne-nil}
use native.Mathlib.Omega.{arith}
use vpopmail.Common.Tests.{ltb, ◌==◌, if◌then◌else◌, within, Bool-cases}
use vpopmail.Common.Lists.{Bytes, length, length-append, All, All-append}
use vpopmail.Common.Int.{ℤ, pos, negsuc, negate}

abbrev pub is_digit : ℕ → Bool
is_digit c = within b'0' b'9' c

abbrev pub IsDigit : ℕ → Type 0
IsDigit c = is_digit c ≡ true

-- The digits of `n`; `fuel` above `n` is enough.
unfoldable pub digits : ℕ → ℕ → Bytes
digits zero n = []
digits (suc fuel) n =
    let more = digits fuel (n / 10) ++ (b'0' + n % 10) ∷ [] in
    if ltb n 10 then (b'0' + n) ∷ [] else more

-- `%lu`
unfoldable pub print_nat : ℕ → Bytes
unfolding digits
print_nat n = digits (suc n) n

-- `%d` and `%ld`
unfoldable pub print_int : ℤ → Bytes
unfolding print_nat
print_int (pos n) = print_nat n
print_int (negsuc n) = b'-' ∷ print_nat (suc n)

-- The number that the leading digits spell behind `acc`.
unfoldable pub read_digits : ℕ → Bytes → ℕ
read_digits acc [] = acc
read_digits acc (c ∷ cs) = elim (is_digit c) [
  | true ↦ read_digits (acc * 10 + (c - b'0')) cs
  | false ↦ acc
]

-- `isspace`
abbrev pub is_space : ℕ → Bool
is_space c = c == b' ' || within b'\t' b'\r' c

-- An optional sign and digits.
unfoldable pub read_sign : Bytes → ℤ
unfolding read_digits
read_sign [] = pos 0
read_sign (c ∷ cs) =
    if c == b'-'
    then negate (read_digits 0 cs)
    else pos (read_digits 0 (if c == b'+' then cs else c ∷ cs))

-- `atoi` and its kin, before the result is cut to the range of its type.
unfoldable pub read_int : Bytes → ℤ
unfolding read_sign
read_int [] = pos 0
read_int (c ∷ cs) = if is_space c then read_int cs else read_sign (c ∷ cs)

read_digits-append :
    (acc : ℕ) (xs ys : Bytes)
    → All IsDigit xs
    → read_digits acc (xs ++ ys) ≡ read_digits (read_digits acc xs) ys
unfolding read_digits
read_digits-append acc [] ys h = refl
read_digits-append acc (x ∷ xs) ys (hx, hs) =
    ground (arith, read_digits-append (acc * 10 + (x - b'0')) xs ys hs)

digits-All : (fuel n : ℕ) → All IsDigit (digits fuel n)
unfolding digits
digits-All zero n = tt
digits-All (suc fuel) n = elim (Bool-cases (ltb n 10)) [
  | inl small ↦ rw small (ground arith, tt)
  | inr more ↦
      rw more
        (All-append IsDigit (digits fuel (n / 10)) _ (digits-All fuel (n / 10)) (ground arith, tt))
]

read_digits-digits : (fuel n : ℕ) → n < fuel → read_digits 0 (digits fuel n) ≡ n
unfolding digits
read_digits-digits zero n h = absurd (omega arith)
read_digits-digits (suc fuel) n h = elim (Bool-cases (ltb n 10)) [
  | inl small ↦ rw small (unfold read_digits in ground arith)
  | inr more ↦
      rw
        (
          more,
          read_digits-append 0 (digits fuel (n / 10)) _ (digits-All fuel (n / 10)),
          read_digits-digits fuel (n / 10) (ground arith),
        )
        (unfold read_digits in ground arith)
]

-- What is printed is read back, whatever stands behind it that is no digit.
abbrev pub Stops : Bytes → Type 0
Stops [] = Unit
Stops (c ∷ cs) = is_digit c ≡ false

read_digits-Stops : (acc : ℕ) (rest : Bytes) → Stops rest → read_digits acc rest ≡ acc
unfolding read_digits
read_digits-Stops acc [] h = refl
read_digits-Stops acc (c ∷ cs) h = ground arith

pub print_nat-All : (n : ℕ) → All IsDigit (print_nat n)
unfolding print_nat
print_nat-All n = digits-All (suc n) n

pub read_digits-print_nat :
    (n : ℕ) (rest : Bytes) → Stops rest → read_digits 0 (print_nat n ++ rest) ≡ n
unfolding print_nat
read_digits-print_nat n rest h =
    rw
      (
        read_digits-append 0 (digits (suc n) n) rest (digits-All (suc n) n),
        read_digits-digits (suc n) n (omega arith),
      )
      (read_digits-Stops n rest h)

pub print_nat-ne-nil : (n : ℕ) → print_nat n ≢ []
unfolding print_nat digits
print_nat-ne-nil n = ground (arith, concat-ne-nil (b'0' + n % 10) (digits n (n / 10)))

-- What is printed begins with a digit.
pub print_nat-head : (n : ℕ) → (c : ℕ) × (cs : Bytes) × (print_nat n ≡ c ∷ cs) × (is_digit c ≡ true)
print_nat-head n = head (print_nat n) refl (print_nat-All n)
  where
    head :
        (s : Bytes)
        → print_nat n ≡ s
        → All IsDigit s
        → (c : ℕ) × (cs : Bytes) × (print_nat n ≡ c ∷ cs) × (is_digit c ≡ true)
    head [] e h = absurd (print_nat-ne-nil n e)
    head (c ∷ cs) e (hc, _) = (c, cs, e, hc)

read_int_digit :
    (c : ℕ) (cs : Bytes) → is_digit c ≡ true → read_int (c ∷ cs) ≡ pos (read_digits 0 (c ∷ cs))
unfolding read_int
read_int_digit c cs h = ground arith

pub read_int-print_nat :
    (n : ℕ) (rest : Bytes) → Stops rest → read_int (print_nat n ++ rest) ≡ pos n
read_int-print_nat n rest h =
    let (c, cs, e, d) = print_nat-head n in
    cc (e, read_int_digit c (cs ++ rest) d, read_digits-print_nat n rest h)

pub read_int-print_int : (z : ℤ) (rest : Bytes) → Stops rest → read_int (print_int z ++ rest) ≡ z
unfolding print_int
read_int-print_int (pos n) rest h = read_int-print_nat n rest h
read_int-print_int (negsuc n) rest h = unfold read_int in rw (read_digits-print_nat (suc n) rest h)

abbrev pub ten_pow : ℕ → ℕ
ten_pow zero = 1
ten_pow (suc k) = 10 * ten_pow k

length-digits : (k fuel n : ℕ) → n < ten_pow (suc k) → length (digits fuel n) ≤ suc k
unfolding digits
length-digits k zero n h = omega arith
length-digits zero (suc fuel) n h = ground arith
length-digits (suc k) (suc fuel) n h = ground (
  arith,
  length-digits k fuel (n / 10) (omega arith),
  length-append (digits fuel (n / 10)) ((b'0' + n % 10) ∷ []),
)

-- A number below 10 ^ (k + 1) has at most k + 1 digits.
pub length-print_nat : (k n : ℕ) → n < ten_pow (suc k) → length (print_nat n) ≤ suc k
unfolding print_nat
length-print_nat k n h = length-digits k (suc n) n h

-- An `int` has at most ten digits, and a sign.
abbrev pub IsInt : ℤ → Type 0
IsInt (pos n) = n < 2 ^ 31
IsInt (negsuc n) = n < 2 ^ 31

pub length-print_int : (z : ℤ) → IsInt z → length (print_int z) ≤ 11
unfolding print_int
length-print_int (pos n) h = omega (arith, length-print_nat 9 n (omega arith))
length-print_int (negsuc n) h = omega (arith, length-print_nat 9 (suc n) (omega arith))

-- Printed numbers hold no control characters.
abbrev pub IsClean : ℕ → Type 0
IsClean c = 32 ≤ c

digits-IsClean : (s : Bytes) → All IsDigit s → All IsClean s
digits-IsClean [] h = tt
digits-IsClean (c ∷ cs) (hc, hs) = (ground arith, digits-IsClean cs hs)

pub print_nat-IsClean : (n : ℕ) → All IsClean (print_nat n)
print_nat-IsClean n = digits-IsClean (print_nat n) (print_nat-All n)

pub print_int-IsClean : (z : ℤ) → All IsClean (print_int z)
unfolding print_int
print_int-IsClean (pos n) = print_nat-IsClean n
print_int-IsClean (negsuc n) = (omega arith, print_nat-IsClean (suc n))
