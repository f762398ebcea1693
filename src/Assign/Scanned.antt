-- ===== src/Assign/Scanned.antt =====
-- vpopmail.c: the loops of `update_file` and `sort_file` over a file of entries, against an insertion
-- by key and the list of the entries with their keys.
use vpopmail.Common.{
  ℕ, zero, suc, ◌<◌, ◌≡◌, refl, ap, Bool, true, false, not, ◌&&◌, ◌||◌, List, [], ◌∷◌, ◌++◌, map,
  Bytes, codes, All, if◌then◌else◌, equal, equal_iff, arith, Bool-cases, inl, inr, length,
}
use mathlib.Core.List.{Perm}
use mathlib.Core.Path.{subst}
use mathlib.Core.List.Perm
use vpopmail.Assign.{max_buff, unlines}
use vpopmail.Assign.Reading.{IsLine}
use vpopmail.Assign.Domain.{extract_domain, until_colon, IsKeyed, key, extract_domain-key}
use vpopmail.Assign.Update.{exceeds_in, exceeds, SortRec, is_end, end_line, records, scan}

-- Each record is not below the one before it, by the comparison of `sort_check`.
abbrev pub Chain : Bytes → List SortRec → Type 0
Chain k [] = Unit
Chain k (r ∷ rs) = (exceeds k r.key ≡ false) × Chain r.key rs

pub exceeds_in-asym : (n : ℕ) (a b : Bytes) → exceeds_in n a b ≡ true → exceeds_in n b a ≡ false
unfolding exceeds_in
exceeds_in-asym zero a b h = refl
exceeds_in-asym (suc n) [] b h = absurd (ground arith)
exceeds_in-asym (suc n) (x ∷ a) [] h = refl
exceeds_in-asym (suc n) (x ∷ a) (y ∷ b) h = ground (arith, exceeds_in-asym n a b)

pub nothing_below : (b : Bytes) → exceeds [] b ≡ false
unfolding exceeds_in
nothing_below b = refl

module _ (assign : Bool) where
  -- A line that is read back, and whose key depends on nothing but itself.
  abbrev pub IsEntry : Bytes → Type 0
  IsEntry l = IsLine l × IsKeyed assign l

  -- The key is shorter than the buffer for it.
  abbrev pub FitsBuffer : Bytes → Type 0
  FitsBuffer l = length (key assign l) < max_buff

  abbrev pub rec_of : Bytes → SortRec
  rec_of l = record { key = key assign l; value = l }

  abbrev pub end_entries : List Bytes
  end_entries = if assign then codes "." ∷ [] else []

  -- The file with the given lines.
  abbrev pub text_of : List Bytes → Bytes
  text_of ls = unlines ls ++ end_line assign

  -- The lines are those of `ls`, in the order of their keys.
  unfoldable pub Ordered : List Bytes → Bytes → Type 0
  Ordered ls text =
      (recs : List SortRec) × (text ≡ text_of (map (λ r. r.value) recs))
      × Perm recs (map rec_of ls)
      × Chain [] recs

  -- Where the line goes: in front of the first line with a greater key.
  unfoldable pub insert : Bytes → List Bytes → List Bytes
  insert line [] = line ∷ []
  insert line (e ∷ es) =
      if exceeds (key assign e) (key assign line) then line ∷ e ∷ es else e ∷ insert line es

  pub insert-Chain :
      (line : Bytes) (p : Bytes) (ls : List Bytes)
      → exceeds p (key assign line) ≡ false
      → Chain p (map rec_of ls)
      → Chain p (map rec_of (insert line ls))
  unfolding insert
  insert-Chain line p [] h c = (h, tt)
  insert-Chain line p (e ∷ es) h (hp, c) =
      elim (Bool-cases (exceeds (key assign e) (key assign line))) [
        | inl g ↦ rw g (h, (exceeds_in-asym max_buff (key assign e) (key assign line) g, c))
        | inr g ↦ rw g (hp, insert-Chain line (key assign e) es g c)
      ]

  pub insert-Perm :
      (line : Bytes) (ls : List Bytes) → Perm (map rec_of (insert line ls)) (map rec_of (line ∷ ls))
  unfolding insert
  insert-Perm line [] = Perm.refl _
  insert-Perm line (e ∷ es) = elim (Bool-cases (exceeds (key assign e) (key assign line))) [
    | inl g ↦ rw g (Perm.refl _)
    | inr g ↦ rw g (Perm.trans (Perm.cons (rec_of e) (insert-Perm line es)) (Perm.swap _ _ _))
  ]

  pub insert-All :
      (P : Bytes → Type 0) (line : Bytes) (ls : List Bytes)
      → P line
      → All P ls
      → All P (insert line ls)
  unfolding insert
  insert-All P line [] h hs = (h, tt)
  insert-All P line (e ∷ es) h (he, hs) =
      elim (Bool-cases (exceeds (key assign e) (key assign line))) [
        | inl g ↦ rw g (h, (he, hs))
        | inr g ↦ rw g (he, insert-All P line es h hs)
      ]

keyed_not_end : (assign : Bool) (e : Bytes) → IsKeyed assign e → is_end assign e ≡ false
unfolding until_colon
keyed_not_end false e h = refl
keyed_not_end true e h = elim (Bool-cases (equal e (codes "."))) [
  | inl same ↦ absurd (subst (IsKeyed true) ((equal_iff e (codes ".")).0 same) h refl)
  | inr other ↦ other
]

either_false : (a b : Bool) → (a || b) ≡ false → (a ≡ false) × (b ≡ false)
either_false a b h = ground arith

-- The end line is passed over.
scan-end :
    (assign : Bool) (behind nd line : Bytes) (hit : Bool) (prv cur : Bytes)
    → scan assign behind nd line hit prv cur (end_entries assign) ≡ record {
      out = (if hit then [] else line ∷ []);
      needsort = false;
      count = length (end_entries assign);
    }
unfolding scan equal
scan-end false behind nd line hit prv cur = refl
scan-end true behind nd line hit prv cur = refl

records-end :
    (assign : Bool) (behind cur : Bytes) → records assign behind cur (end_entries assign) ≡ []
unfolding records equal
records-end false behind cur = refl
records-end true behind cur = refl

module _ (assign : Bool) (behind : Bytes) where
  -- Past the hit, the lines are copied.
  pub scan-hit :
      (nd line prv cur : Bytes) (ls : List Bytes)
      → All (IsEntry assign) ls
      → (scan assign behind nd line true prv cur (ls ++ end_entries assign)).out ≡ ls
  unfolding scan
  scan-hit nd line prv cur [] h = ap (λ s. s.out) (scan-end assign behind nd line true prv cur)
  scan-hit nd line prv cur (e ∷ es) ((hl, hk), hs) =
      let other = keyed_not_end assign e hk in
      let domain = extract_domain assign cur behind e in
      rw (other, scan) (ap (◌∷◌ e) (scan-hit nd line domain domain es hs))

  -- Before it, the line is inserted.
  pub scan-insert :
      (line prv cur : Bytes) (ls : List Bytes)
      → All (IsEntry assign) ls
      → (scan assign behind (key assign line) line false prv cur (ls ++ end_entries assign)).out
        ≡ insert assign line ls
  unfolding scan insert
  scan-insert line prv cur [] h =
      ap (λ s. s.out) (scan-end assign behind (key assign line) line false prv cur)
  scan-insert line prv cur (e ∷ es) ((hl, hk), hs) =
      let other = keyed_not_end assign e hk in
      let k = extract_domain-key assign cur behind e hk in
      let domain = key assign e in
      elim (Bool-cases (exceeds domain (key assign line))) [
        | inl g ↦
            rw (other, scan, k, g)
              (ap (λ x. line ∷ e ∷ x) (scan-hit (key assign line) line domain domain es hs))
        | inr g ↦ rw (other, scan, k, g) (ap (◌∷◌ e) (scan-insert line domain domain es hs))
      ]

  pub scan-count :
      (nd line : Bytes) (hit : Bool) (prv cur : Bytes) (ls : List Bytes)
      → (scan assign behind nd line hit prv cur ls).count ≡ length ls
  unfolding scan
  scan-count nd line hit prv cur [] = refl
  scan-count nd line hit prv cur (e ∷ es) =
      let skip = is_end assign e in
      let domain = extract_domain assign cur behind e in
      ap suc (
        scan-count nd line (if skip then hit else hit || (not hit && exceeds domain nd))
          (if skip then prv else domain) (if skip then cur else domain) es)

  -- Without the flag, the lines were in order.
  pub scan-Chain :
      (nd line : Bytes) (hit : Bool) (prv cur : Bytes) (ls : List Bytes)
      → All (IsEntry assign) ls
      → (scan assign behind nd line hit prv cur (ls ++ end_entries assign)).needsort ≡ false
      → Chain prv (map (rec_of assign) ls)
  unfolding scan
  scan-Chain nd line hit prv cur [] h n = tt
  scan-Chain nd line hit prv cur (e ∷ es) ((hl, hk), hs) n =
      let other = keyed_not_end assign e hk in
      let k = extract_domain-key assign cur behind e hk in
      let (hp, hn) = either_false _ _ (rw (other, scan, k) at n) in
      (
        hp,
        scan-Chain nd line (hit || (not hit && exceeds (key assign e) nd)) (key assign e)
            (key assign e) es hs hn,
      )

  pub records-lem :
      (cur : Bytes) (ls : List Bytes)
      → All (IsEntry assign) ls
      → records assign behind cur (ls ++ end_entries assign) ≡ map (rec_of assign) ls
  unfolding records
  records-lem cur [] h = records-end assign behind cur
  records-lem cur (e ∷ es) ((hl, hk), hs) =
      let other = keyed_not_end assign e hk in
      let k = extract_domain-key assign cur behind e hk in
      rw (other, records, k) (ap (◌∷◌ (rec_of assign e)) (records-lem (key assign e) es hs))
