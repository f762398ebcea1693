-- ===== src/Maildir/Names.antt =====
-- maildirquota.c, `docount`: directories of messages that are named `base,S=size:2,flags`.
use vpopmail.Common.{
  ℕ, ◌+◌, ◌^◌, ◌<◌, ◌≡◌, ◌≢◌, refl, ap, ◌∙◌, Bool, true, false, ◌||◌, List, [], ◌∷◌, ◌++◌, map,
  Option, none, some, Bytes, ◌==◌, within, if◌then◌else◌, leb, All, arith, Bool-cases, inl, inr,
}
use vpopmail.Common.Decimal.{read_digits-print_nat, print_nat, print_nat-All, IsDigit}
use vpopmail.Maildir.Counting.{
  first_some, flags_of, has_t, is_deleted, size_text, maildir_parsequota, File, Tally, add_file,
  begins_with_dot, count_file, count_files, Directory, stamped, docount, countcurnew,
}

pub record Message : Type 0 where
  pub base : Bytes
  pub size : ℕ
  pub flags : Bytes
  pub found : Option ℕ

-- A character in front of the flags.
abbrev pub IsNameChar : ℕ → Type 0
IsNameChar c = (c ≢ b':') × (c ≢ b',')

abbrev pub IsFlag : ℕ → Type 0
IsFlag c = within b'A' b'Z' c ≡ true

pub record IsMessage (m : Message) : Type 0 where
  pub base_chars : All IsNameChar m.base
  pub no_dot : begins_with_dot m.base ≡ false
  pub letters : All IsFlag m.flags
  pub fits : m.size < 2 ^ 63

abbrev pub suffix : Message → Bytes
suffix m = b':' ∷ b'2' ∷ b',' ∷ m.flags

abbrev pub file_of : Message → File
file_of m = record {
  name = m.base ++ (b',' ∷ b'S' ∷ b'=' ∷ (print_nat m.size ++ suffix m));
  found = m.found;
}

-- Whether the flag T is there.
abbrev pub is_trashed : Bytes → Bool
is_trashed [] = false
is_trashed (c ∷ cs) = (c == b'T') || is_trashed cs

flags_of-skip : (xs rest : Bytes) → All (λ c. c ≢ b':') xs → flags_of (xs ++ rest) ≡ flags_of rest
unfolding flags_of
flags_of-skip [] rest h = refl
flags_of-skip (c ∷ cs) rest (h, hs) =
    let no_colon : (c == b':') ≡ false = ground arith in
    rw (flags_of, no_colon) (flags_of-skip cs rest hs)

has_t-is_trashed : (fs : Bytes) → All IsFlag fs → has_t fs ≡ is_trashed fs
unfolding has_t
has_t-is_trashed [] h = refl
has_t-is_trashed (c ∷ cs) (h, hs) = rw (has_t, h, has_t-is_trashed cs hs) refl

digits_no_colon : (ds : Bytes) → All IsDigit ds → All IsNameChar ds
digits_no_colon [] h = tt
digits_no_colon (c ∷ cs) (h, hs) = ((ground arith, ground arith), digits_no_colon cs hs)

no_colon : (xs : Bytes) → All IsNameChar xs → All (λ c. c ≢ b':') xs
no_colon [] h = tt
no_colon (c ∷ cs) ((a, b), hs) = (a, no_colon cs hs)

size_text-skip : (xs rest : Bytes) → All IsNameChar xs → size_text (xs ++ rest) ≡ size_text rest
unfolding size_text first_some
size_text-skip [] rest h = refl
size_text-skip (c ∷ cs) rest ((a, b), hs) =
    let colon : (c == b':') ≡ false = ground arith in
    let comma : (c == b',') ≡ false = ground arith in
    rw (size_text, colon, comma, size_text-skip cs rest hs) (same (size_text rest))
  where
    same : (o : Option Bytes) → first_some o none ≡ o
    same none = refl
    same (some r) = refl

-- Behind a comma that introduces the size.
size_text_here : (r : Bytes) → size_text r ≡ none → size_text (b',' ∷ b'S' ∷ b'=' ∷ r) ≡ some r
unfolding size_text first_some
size_text_here r h = rw h refl

size_text-digits : (n : ℕ) (rest : Bytes) → size_text (print_nat n ++ (b':' ∷ rest)) ≡ none
unfolding size_text
size_text-digits n rest =
    size_text-skip (print_nat n) (b':' ∷ rest) (digits_no_colon (print_nat n) (print_nat-All n))

maildir_parsequota-file :
    (m : Message) → IsMessage m → maildir_parsequota (file_of m).name ≡ some m.size
unfolding maildir_parsequota
maildir_parsequota-file m h =
    let text : size_text (file_of m).name ≡ some (print_nat m.size ++ suffix m) =
      size_text-skip m.base _ h.base_chars
      ∙ size_text_here _ (size_text-digits m.size (b'2' ∷ b',' ∷ m.flags)) in
    rw (maildir_parsequota, text, read_digits-print_nat m.size (suffix m) refl)
      (ap some (omega (arith, h.fits)))

flags_of-suffix : (m : Message) → flags_of (suffix m) ≡ some m.flags
unfolding flags_of
flags_of-suffix m = refl

is_deleted-file : (m : Message) → IsMessage m → is_deleted (file_of m).name ≡ is_trashed m.flags
unfolding is_deleted
is_deleted-file m h =
    let front : Bytes = b',' ∷ b'S' ∷ b'=' ∷ print_nat m.size in
    let flags : flags_of (file_of m).name ≡ some m.flags =
      flags_of-skip m.base _ (no_colon m.base h.base_chars)
      ∙ flags_of-skip front (suffix m) (
        ground arith,
        (ground arith, (ground arith, no_colon _ (digits_no_colon _ (print_nat-All m.size)))),
      )
      ∙ flags_of-suffix m in
    rw (is_deleted, flags) (has_t-is_trashed m.flags h.letters)

-- The messages that are not trashed, and their sizes.
abbrev pub live_count : List Message → ℕ
live_count [] = 0
live_count (m ∷ ms) = (if is_trashed m.flags then 0 else 1) + live_count ms

abbrev pub live_size : List Message → ℕ
live_size [] = 0
live_size (m ∷ ms) = (if is_trashed m.flags then 0 else m.size) + live_size ms

dot-file : (m : Message) → IsMessage m → begins_with_dot (file_of m).name ≡ false
dot-file m h = from m.base h.no_dot
  where
    from :
        (b : Bytes)
        → begins_with_dot b ≡ false
        → begins_with_dot (b ++ (b',' ∷ b'S' ∷ b'=' ∷ (print_nat m.size ++ suffix m))) ≡ false
    from [] e = refl
    from (c ∷ cs) e = e

count_file-message :
    (m : Message) (t : Tally)
    → IsMessage m
    → count_file (file_of m) t ≡ (if is_trashed m.flags then t else add_file m.size t)
unfolding count_file
count_file-message m t h = rw (dot-file m h, is_deleted-file m h, maildir_parsequota-file m h) refl

same_tally : (a b : Tally) → a.stamp ≡ b.stamp → a.size ≡ b.size → a.count ≡ b.count → a ≡ b
same_tally a b x y z i = record { stamp = x i; size = y i; count = z i }

abbrev pub with_messages : List Message → Tally → Tally
with_messages ms t = record t { size = t.size + live_size ms; count = t.count + live_count ms }

count_files-messages :
    (ms : List Message) (t : Tally)
    → All IsMessage ms
    → t.size + live_size ms < 2 ^ 63
    → t.count + live_count ms < 2 ^ 31
    → count_files (map file_of ms) t ≡ with_messages ms t
unfolding count_files
count_files-messages [] t h fits few =
    same_tally t (with_messages [] t) refl (omega arith) (omega arith)
count_files-messages (m ∷ ms) t (h, hs) fits few =
    ap (count_files (map file_of ms)) (count_file-message m t h)
    ∙ elim (Bool-cases (is_trashed m.flags)) [
      | inl e ↦
          let fits' : t.size + (0 + live_size ms) < 2 ^ 63 = rw e at fits in
          let few' : t.count + (0 + live_count ms) < 2 ^ 31 = rw e at few in
          rw e (
            count_files-messages ms t hs (omega (arith, fits')) (omega (arith, few'))
            ∙ same_tally _ _ refl (omega arith) (omega arith))
      | inr e ↦
          let fits' : t.size + (m.size + live_size ms) < 2 ^ 63 = rw e at fits in
          let few' : t.count + (1 + live_count ms) < 2 ^ 31 = rw e at few in
          rw e (
            count_files-messages ms (add_file m.size t) hs (omega (arith, fits'))
              (omega (arith, few'))
            ∙ same_tally _ _ refl (omega (arith, fits')) (omega (arith, few')))
    ]

abbrev pub directory_of : ℕ → List Message → Directory
directory_of mtime ms = record {
  mtime = mtime;
  opens = true;
  closes = true;
  entries = map file_of ms;
}

-- The later of two times.
abbrev pub latest : ℕ → ℕ → ℕ
latest a b = if leb a b then b else a

-- In a folder whose messages carry their sizes in their names, `countcurnew` adds up, without looking
-- at the files, the sizes and the number of the messages in `new` and `cur` whose flags have no T. Each
-- size and the sum of them all fit an `off_t`, and the number of them all an `int`. The time is that of
-- the later of the two directories, or the one that was given.
pub countcurnew-messages :
    (m1 m2 : ℕ) (fresh seen : List Message) (t : Tally)
    → All IsMessage fresh
    → All IsMessage seen
    → t.size + live_size fresh + live_size seen < 2 ^ 63
    → t.count + live_count fresh + live_count seen < 2 ^ 31
    → countcurnew
        (record { fresh = some (directory_of m1 fresh); seen = some (directory_of m2 seen) })
        t
      ≡ (
        true,
        record {
          stamp = latest (latest t.stamp m1) m2;
          size = t.size + live_size fresh + live_size seen;
          count = t.count + live_count fresh + live_count seen;
        },
      )
unfolding countcurnew docount
countcurnew-messages m1 m2 fresh seen t h k fits few =
    ap (λ x. (true, x))
      (ap (λ u. count_files (map file_of seen) (stamped m2 u))
          (count_files-messages fresh (stamped m1 t) h (omega (arith, fits)) (omega (arith, few)))
        ∙ count_files-messages seen (stamped m2 (with_messages fresh (stamped m1 t))) k fits few
        ∙ same_tally _ _ (ground arith) refl refl)
