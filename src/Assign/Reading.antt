-- ===== src/Assign/Reading.antt =====
-- Control files as texts: their lines written one by one, and read with `fgets`.
use vpopmail.Common.{
  ◌-◌, ◌<◌, ◌≡◌, ◌∙◌, refl, sym, ap, List, [], ◌∷◌, ◌++◌, map, append_assoc, Bytes, All, arith,
  length,
}
use vpopmail.Common.Fgets.{IsText, pieces-line}
use vpopmail.Assign.{max_buff, trim, entries, unlines}

-- A line that the buffer holds with its newline.
abbrev pub IsLine : Bytes → Type 0
IsLine l = All IsText l × (length l < max_buff - 1)

trim-line : (l : Bytes) → All IsText l → trim (l ++ (b'\n' ∷ [])) ≡ l
unfolding trim
trim-line [] h = refl
trim-line (c ∷ cs) (hc, hs) = ground (arith, trim-line cs hs)

-- Reading undoes writing.
pub entries-unlines : (ls : List Bytes) → All IsLine ls → entries (unlines ls) ≡ ls
unfolding entries unlines
entries-unlines [] h = refl
entries-unlines (l ∷ ls) ((ht, hl), hs) =
    ap (map trim) (pieces-line max_buff l [] (unlines ls) (max_buff - 1) ht hl)
    ∙ ap (λ x. x ∷ entries (unlines ls)) (trim-line l ht)
    ∙ ap (◌∷◌ l) (entries-unlines ls hs)

pub unlines-append : (ks ms : List Bytes) → unlines (ks ++ ms) ≡ unlines ks ++ unlines ms
unfolding unlines
unlines-append [] ms = refl
unlines-append (l ∷ ks) ms =
    ap (λ x. l ++ (b'\n' ∷ x)) (unlines-append ks ms)
    ∙ sym (append_assoc l (b'\n' ∷ unlines ks) (unlines ms))
