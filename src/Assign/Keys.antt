-- ===== src/Assign/Keys.antt =====
-- vpopmail.c, `extract_domain`: the keys of domain names by their parts.
use vpopmail.Common.{
  ◌≡◌, ◌≢◌, ◌∙◌, refl, sym, ap, false, List, [], ◌∷◌, ◌++◌, append_assoc, append-nil, Bytes, ◌==◌,
  if◌then◌else◌, All, arith, length, take, leb,
}
use vpopmail.Assign.Domain.{tokens, join, make_room, juggle, reorder}

-- A part of a domain name: not empty, and without dots.
abbrev pub IsPart : Bytes → Type 0
IsPart p = (p ≢ []) × All (λ c. c ≢ b'.') p

tokens-part :
    (p token rest : Bytes)
    → All (λ c. c ≢ b'.') p
    → tokens token (p ++ rest) ≡ tokens (token ++ p) rest
unfolding tokens
tokens-part [] token rest h = ap (λ t. tokens t rest) (sym (append-nil token))
tokens-part (c ∷ cs) token rest (hc, hs) =
    let other : (c == b'.') ≡ false = ground arith in
    rw (other, tokens)
      (tokens-part cs (token ++ (c ∷ [])) rest hs
        ∙ ap (λ t. tokens t rest) (append_assoc token (c ∷ []) cs))

tokens-last : (p : Bytes) → p ≢ [] → tokens p [] ≡ p ∷ []
unfolding tokens
tokens-last [] h = absurd (h refl)
tokens-last (c ∷ cs) h = refl

tokens-dot : (p rest : Bytes) → p ≢ [] → tokens p (b'.' ∷ rest) ≡ p ∷ tokens [] rest
unfolding tokens
tokens-dot [] rest h = absurd (h refl)
tokens-dot (c ∷ cs) rest h = refl

-- Taking a name apart undoes joining its parts.
tokens-join : (ps : List Bytes) → All IsPart ps → tokens [] (join ps) ≡ ps
unfolding tokens
tokens-join [] h = refl
tokens-join (p ∷ []) ((ne, hp), hs) =
    ap (tokens []) (sym (append-nil p)) ∙ tokens-part p [] [] hp ∙ tokens-last p ne
tokens-join (p ∷ q ∷ ps) ((ne, hp), hs) =
    tokens-part p [] (b'.' ∷ join (q ∷ ps)) hp
    ∙ tokens-dot p (join (q ∷ ps)) ne
    ∙ ap (◌∷◌ p) (tokens-join (q ∷ ps) hs)

-- A name of two to four parts gets the key that has its last two parts first, in their order, and
-- then the others in their order; in the key of a name of five parts the first part stands in the
-- place of the third as well, and in that of six parts the first two in the place of the third and
-- the fourth.
pub reorder_lem :
    (a b c d u t : Bytes)
    → All IsPart (a ∷ b ∷ c ∷ d ∷ u ∷ t ∷ [])
    → (reorder (join (u ∷ t ∷ [])) ≡ join (u ∷ t ∷ []))
      × (reorder (join (a ∷ u ∷ t ∷ [])) ≡ join (u ∷ t ∷ a ∷ []))
      × (reorder (join (a ∷ b ∷ u ∷ t ∷ [])) ≡ join (u ∷ t ∷ a ∷ b ∷ []))
      × (reorder (join (a ∷ b ∷ c ∷ u ∷ t ∷ [])) ≡ join (u ∷ t ∷ a ∷ b ∷ a ∷ []))
      × (reorder (join (a ∷ b ∷ c ∷ d ∷ u ∷ t ∷ [])) ≡ join (u ∷ t ∷ a ∷ b ∷ a ∷ b ∷ []))
unfolding reorder juggle make_room
reorder_lem a b c d u t (ha, (hb, (hc, (hd, (hu, (ht, _)))))) = (
  parts (u ∷ t ∷ []) (hu, (ht, tt)),
  parts (a ∷ u ∷ t ∷ []) (ha, (hu, (ht, tt))),
  parts (a ∷ b ∷ u ∷ t ∷ []) (ha, (hb, (hu, (ht, tt)))),
  parts (a ∷ b ∷ c ∷ u ∷ t ∷ []) (ha, (hb, (hc, (hu, (ht, tt))))),
  parts (a ∷ b ∷ c ∷ d ∷ u ∷ t ∷ []) (ha, (hb, (hc, (hd, (hu, (ht, tt)))))),
)
  where
    parts :
        (ps : List Bytes)
        → All IsPart ps
        → reorder (join ps) ≡ (if leb 2 (length (take 10 ps)) then juggle (take 10 ps) else join ps)
    parts ps h = rw (tokens-join ps h) refl
