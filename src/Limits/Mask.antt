-- ===== src/Limits/Mask.antt =====
-- vlimits.c: `vlimits_get_flag_mask`, and what `vlimits_setflags` makes of it.
use vpopmail.Common.{
  ℕ, zero, suc, ◌+◌, ◌≡◌, refl, Bool, true, false, ◌&&◌, List, [], ◌∷◌, Option, none, some, ◌==◌,
  if◌then◌else◌, ==_iff, arith,
}
use Prim.Native.Nat.{bit_or, bit_and}
use vpopmail.Limits.{Vlimits, default_limits}

-- `if (limits->... != 0) mask |= bit;`
abbrev set_if : Bool → ℕ → ℕ → ℕ
set_if b bit mask = if b then bit_or mask bit else mask

unfoldable pub get_flag_mask : Vlimits → ℕ
get_flag_mask l = set_if l.disable_maildrop 0x40000 (
    set_if l.delete_spam 0x8000 (
      set_if l.disable_spamassassin 0x4000 (
        set_if l.disable_dialup 0x40 (
          set_if l.disable_passwordchanging 0x01 (
            set_if l.disable_webmail 0x04 (
              set_if l.disable_relay 0x20 (
                set_if l.disable_imap 0x08
                  (set_if l.disable_smtp 0x800 (set_if l.disable_pop 0x02 0)))))))))

-- `vlimits_setflags`: the new `pw_flags` of an entry with this `pw_gid`. The option is the result of
-- `vget_limits`.
unfoldable pub setflags : ℕ → Option Vlimits → ℕ
unfolding get_flag_mask
setflags pw_gid none = pw_gid
setflags pw_gid (some limits) =
    if bit_and pw_gid 0x2000 == 0 then bit_or pw_gid (get_flag_mask limits) else pw_gid

-- Every list of `n` Booleans is checked by evaluation.
all_lists : ℕ → (List Bool → Bool) → Bool
all_lists zero p = p []
all_lists (suc n) p = all_lists n (λ bs. p (true ∷ bs)) && all_lists n (λ bs. p (false ∷ bs))

abbrev pub bit : ℕ → Bool → ℕ
bit value b = if b then value else 0

-- The ten flags at their places in the word.
abbrev pub placed : Vlimits → ℕ
placed l =
    bit 0x01 l.disable_passwordchanging
    + bit 0x02 l.disable_pop
    + bit 0x04 l.disable_webmail
    + bit 0x08 l.disable_imap
    + bit 0x20 l.disable_relay
    + bit 0x40 l.disable_dialup
    + bit 0x800 l.disable_smtp
    + bit 0x4000 l.disable_spamassassin
    + bit 0x8000 l.delete_spam
    + bit 0x40000 l.disable_maildrop

abbrev with_flags : List Bool → Vlimits
with_flags (a ∷ b ∷ c ∷ d ∷ e ∷ f ∷ g ∷ h ∷ i ∷ j ∷ k) = record default_limits {
  disable_pop = a;
  disable_imap = b;
  disable_dialup = c;
  disable_passwordchanging = d;
  disable_webmail = e;
  disable_relay = f;
  disable_smtp = g;
  disable_spamassassin = h;
  delete_spam = i;
  disable_maildrop = j;
}
with_flags _ = default_limits

abbrev mask_ok : List Bool → Bool
mask_ok bs = get_flag_mask (with_flags bs) == placed (with_flags bs)

mask_table : all_lists 10 mask_ok ≡ true
unfolding all_lists get_flag_mask
mask_table = refl

abbrev count : List Bool → ℕ
count [] = 0
count (b ∷ bs) = suc (count bs)

all_lists_sound :
    (n : ℕ) (p : List Bool → Bool) (bs : List Bool)
    → all_lists n p ≡ true
    → count bs ≡ n
    → p bs ≡ true
unfolding all_lists
all_lists_sound zero p [] h e = h
all_lists_sound zero p (b ∷ bs) h e = absurd (omega arith)
all_lists_sound (suc n) p [] h e = absurd (omega arith)
all_lists_sound (suc n) p (true ∷ bs) h e =
    ground (arith, all_lists_sound n (λ cs. p (true ∷ cs)) bs)
all_lists_sound (suc n) p (false ∷ bs) h e =
    ground (arith, all_lists_sound n (λ cs. p (false ∷ cs)) bs)

-- The mask of the limits is the sum of the bits of the flags that are set: no two flags share a bit.
pub get_flag_mask-placed : (l : Vlimits) → get_flag_mask l ≡ placed l
unfolding get_flag_mask
get_flag_mask-placed l = (==_iff _ _).0 (all_lists_sound 10 mask_ok flags mask_table refl)
  where
    flags : List Bool
    flags =
        l.disable_pop ∷ l.disable_imap ∷ l.disable_dialup ∷ l.disable_passwordchanging
        ∷ l.disable_webmail ∷ l.disable_relay ∷ l.disable_smtp ∷ l.disable_spamassassin
        ∷ l.delete_spam ∷ l.disable_maildrop ∷ []
