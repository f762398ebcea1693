-- ===== src/Bigdir/Order.antt =====
-- bigdir.c, `inc_dir_control`: the order in which the directories of a domain are used.
use vpopmail.Common.{
  ℕ, zero, suc, ◌+◌, ◌*◌, ◌<◌, ◌≡◌, refl, ap, ◌∙◌, Bool, true, false, not, ◌&&◌, List, [], ◌∷◌,
  Bytes, ◌==◌, if◌then◌else◌, all_below, all_below_sound, ==_iff, arith, Bool-cases, inl, inr,
}
use vpopmail.Bigdir.{
  dir_char, VdirType, find_char, next_char, inc_dir, grow, full, at_end, advance, restart,
  with_index, with_char, next_dir,
}

-- No directory yet, or one, two or three characters of the list.
pub data Seat : Type 0 where
  base : Seat
  one : ℕ → Seat
  two : ℕ → ℕ → Seat
  three : ℕ → ℕ → ℕ → Seat

-- The three characters before the last ones.
abbrev pub IsSeat : Seat → Type 0
IsSeat base = Unit
IsSeat (one i) = i < 62
IsSeat (two i j) = (i < 62) × (j < 62)
IsSeat (three i j k) = (i < 62) × (j < 62) × (k < 62)

abbrev pub rank : Seat → ℕ
rank base = 0
rank (one i) = suc i
rank (two i j) = 63 + 62 * i + j
rank (three i j k) = 3907 + 3844 * i + 62 * j + k

-- The path of a directory, which stands in `the_dir`.
abbrev pub path : Seat → Bytes
path base = []
path (one i) = dir_char i ∷ []
path (two i j) = dir_char i ∷ b'/' ∷ dir_char j ∷ []
path (three i j k) = dir_char i ∷ b'/' ∷ dir_char j ∷ b'/' ∷ dir_char k ∷ []

abbrev level : Seat → ℕ
level base = 0
level (one i) = 0
level (two i j) = 1
level (three i j k) = 2

-- In the first run through a new level its index is one ahead.
abbrev index : Seat → List ℕ
index base = 0 ∷ 0 ∷ 0 ∷ []
index (one i) = i ∷ 0 ∷ 0 ∷ []
index (two zero j) = 0 ∷ suc j ∷ 0 ∷ []
index (two (suc i) j) = suc i ∷ j ∷ 0 ∷ []
index (three i j k) = i ∷ j ∷ (if i == 0 && j == 0 then suc k else k) ∷ []

abbrev pub state : Seat → ℕ → VdirType
state s n = record {
  level_cur = level s;
  level_start = 0 ∷ 0 ∷ 0 ∷ [];
  level_end = 61 ∷ 61 ∷ 61 ∷ [];
  level_mod = 0 ∷ 2 ∷ 4 ∷ [];
  level_index = index s;
  cur_users = n;
  the_dir = path s;
}

before_last : ℕ → Bool
before_last i = not (dir_char i == dir_char 61)

dir_char_last : (i : ℕ) → i < 61 → (dir_char i == dir_char 61) ≡ false
unfolding before_last
dir_char_last i h =
    flip (dir_char i == dir_char 61)
      (all_below_sound 61 before_last i (unfold dir_char all_below in refl) h)
  where
    flip : (b : Bool) → not b ≡ true → b ≡ false
    flip false e = refl
    flip true e = absurd (ground arith)

follows : ℕ → Bool
follows i = next_char (dir_char i) 0 61 == dir_char (suc i)

next_char_lem : (i : ℕ) → i < 61 → next_char (dir_char i) 0 61 ≡ dir_char (suc i)
unfolding follows
next_char_lem i h =
    (==_iff (next_char (dir_char i) 0 61) (dir_char (suc i))).0
      (all_below_sound 61 follows i (unfold dir_char all_below next_char find_char in refl) h)

pub next_one : (i n : ℕ) → i < 61 → next_dir (state (one i) n) ≡ state (one (suc i)) n
unfolding next_dir inc_dir
next_one i n h =
    let more : (i == 61) ≡ false = ground arith in
    rw (more, dir_char_last i h, next_char_lem i h) refl

pub first_two : (n : ℕ) → next_dir (state (one 61) n) ≡ state (two 0 0) n
unfolding next_dir inc_dir grow dir_char next_char find_char
first_two n = refl

pub next_two_first : (j n : ℕ) → j < 61 → next_dir (state (two 0 j) n) ≡ state (two 0 (suc j)) n
unfolding next_dir inc_dir grow
next_two_first j n h = elim (Bool-cases (suc j == 61)) [
  | inl e ↦ rw (next_dir, e, dir_char_last j h, next_char_lem j h) refl
  | inr e ↦ rw (next_dir, e, dir_char_last j h, next_char_lem j h) refl
]

pub next_two :
    (i j n : ℕ) → j < 61 → next_dir (state (two (suc i) j) n) ≡ state (two (suc i) (suc j)) n
unfolding next_dir inc_dir grow
next_two i j n h =
    let more : (j == 61) ≡ false = ground arith in
    rw (next_dir, more, dir_char_last j h, next_char_lem j h) refl

pub carry_two_first : (n : ℕ) → next_dir (state (two 0 61) n) ≡ state (two 1 0) n
unfolding next_dir inc_dir grow dir_char next_char find_char
carry_two_first n = refl

dir_char_same : (i : ℕ) → (dir_char i == dir_char i) ≡ true
dir_char_same i = ground arith

stays : (s : VdirType) (b : Bool) → grow s ≡ s → (if b then grow s else s) ≡ s
stays s true e = e
stays s false e = refl

inc_step : (l : ℕ) (v : VdirType) → at_end l v ≡ false → inc_dir l v ≡ advance l v
unfolding inc_dir
inc_step zero v e = rw (inc_dir, e) refl
inc_step (suc l) v e = rw (inc_dir, e) refl

inc_carry :
    (l : ℕ) (v : VdirType)
    → at_end (suc l) v ≡ true
    → inc_dir (suc l) v ≡ inc_dir l (restart (suc l) v)
unfolding inc_dir
inc_carry l v e = rw (inc_dir, e) refl

next_dir-two :
    (i j n : ℕ)
    → (suc i == 61) ≡ false
    → next_dir (state (two (suc i) j) n) ≡ inc_dir 1 (state (two (suc i) j) n)
unfolding next_dir grow
next_dir-two i j n e =
    ap (λ (w : VdirType). inc_dir w.level_cur w)
      (stays (state (two (suc i) j) n) (full 1 (state (two (suc i) j) n)) (rw (grow, e) refl))

pub carry_two :
    (i n : ℕ) → suc i < 61 → next_dir (state (two (suc i) 61) n) ≡ state (two (suc (suc i)) 0) n
carry_two i n h =
    let s : VdirType = state (two (suc i) 61) n in
    next_dir-two i 61 n (ground arith)
    ∙ inc_carry 0 s (dir_char_same 61)
    ∙ inc_step 0 (restart 1 s) (dir_char_last (suc i) h)
    ∙ rw (next_char_lem (suc i) h) refl

pub first_three : (n : ℕ) → next_dir (state (two 61 61) n) ≡ state (three 0 0 0) n
unfolding next_dir inc_dir grow dir_char next_char find_char
first_three n = refl

-- The third level is the last.
next_dir-three :
    (i j k n : ℕ) → next_dir (state (three i j k) n) ≡ inc_dir 2 (state (three i j k) n)
unfolding next_dir grow
next_dir-three i j k n =
    ap (λ (w : VdirType). inc_dir w.level_cur w)
      (stays (state (three i j k) n) (full 2 (state (three i j k) n)) refl)

shift : (b : Bool) (k : ℕ) → suc (if b then suc k else k) ≡ (if b then suc (suc k) else suc k)
shift true k = refl
shift false k = refl

pub next_three :
    (i j k n : ℕ) → k < 61 → next_dir (state (three i j k) n) ≡ state (three i j (suc k)) n
next_three i j k n h =
    let s : VdirType = state (three i j k) n in
    next_dir-three i j k n
    ∙ inc_step 2 s (dir_char_last k h)
    ∙ ap (λ c. with_index 2 (suc (if i == 0 && j == 0 then suc k else k)) (with_char 2 c s))
        (next_char_lem k h)
    ∙ ap (λ x. with_index 2 x (with_char 2 (dir_char (suc k)) s)) (shift (i == 0 && j == 0) k)

pub carry_three :
    (i j n : ℕ) → j < 61 → next_dir (state (three i j 61) n) ≡ state (three i (suc j) 0) n
carry_three i j n h =
    let s : VdirType = state (three i j 61) n in
    let not_first : (i == 0 && suc j == 0) ≡ false = ground arith in
    next_dir-three i j 61 n
    ∙ inc_carry 1 s (dir_char_same 61)
    ∙ inc_step 1 (restart 2 s) (dir_char_last j h)
    ∙ rw (next_char_lem j h, not_first) refl

pub carry_twice :
    (i n : ℕ) → i < 61 → next_dir (state (three i 61 61) n) ≡ state (three (suc i) 0 0) n
carry_twice i n h =
    let s : VdirType = state (three i 61 61) n in
    let not_first : (suc i == 0 && 0 == 0) ≡ false = ground arith in
    next_dir-three i 61 61 n
    ∙ inc_carry 1 s (dir_char_same 61)
    ∙ inc_carry 0 (restart 2 s) (dir_char_same 61)
    ∙ inc_step 0 (restart 1 (restart 2 s)) (dir_char_last i h)
    ∙ rw (next_char_lem i h, not_first) refl
