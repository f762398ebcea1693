-- ===== src/Quota/Parse.antt =====
-- quota.c, `quota_mtos`: well-formed quota strings and their parts.
use vpopmail.Common.{
  ℕ, ◌^◌, ◌<◌, ◌≡◌, ◌∙◌, refl, sym, ap, Bool, true, false, List, [], ◌∷◌, ◌++◌, append-nil,
  append_assoc, Bytes, ◌==◌, if◌then◌else◌, All, arith,
}
use vpopmail.Common.Decimal.{
  print_nat, print_nat-All, IsDigit, Stops, read_int-print_nat, print_nat-head,
}
use vpopmail.Quota.{Quota, strtoll, store_part, scan_quota, mtos, unset}

-- One part of a quota string: a number of bytes or of messages.
pub data Part : Type 0 where
  bytes : ℕ → Part
  messages : ℕ → Part

abbrev pub amount : Part → ℕ
amount (bytes n) = n
amount (messages n) = n

abbrev pub letter : Part → ℕ
letter (bytes n) = b'S'
letter (messages n) = b'C'

abbrev pub render_part : Part → Bytes
render_part p = print_nat (amount p) ++ letter p ∷ []

-- The parts with a comma between them.
abbrev pub render : Part → List Part → Bytes
render p [] = render_part p
render p (r ∷ rs) = render_part p ++ (b',' ∷ render r rs)

-- The first part of each kind counts.
abbrev pub take_part : Part → Quota → Quota
take_part (bytes n) q = if q.want_size then record q { size = n; want_size = false } else q
take_part (messages n) q = if q.want_count then record q { count = n; want_count = false } else q

abbrev pub take_parts : Part → List Part → Quota → Quota
take_parts p [] q = take_part p q
take_parts p (r ∷ rs) q = take_parts r rs (take_part p q)

strtoll_lem : (n : ℕ) (rest : Bytes) → n < 2 ^ 63 → Stops rest → strtoll (print_nat n ++ rest) ≡ n
strtoll_lem n rest h s = rw (read_int-print_nat n rest s) (ground arith)

store_part_lem :
    (p : Part) (at_end : Bool) (rest : Bytes) (q : Quota)
    → amount p < 2 ^ 63
    → store_part (letter p) at_end (print_nat (amount p) ++ letter p ∷ rest) q ≡ take_part p q
unfolding store_part
store_part_lem (bytes n) at_end rest q h = ground (arith, strtoll_lem n (b'S' ∷ rest) h refl)
store_part_lem (messages n) at_end rest q h = ground (arith, strtoll_lem n (b'C' ∷ rest) h refl)

not_comma : (c : ℕ) → IsDigit c → (c == b',') ≡ false
not_comma c h = ground arith

-- Digits are passed over.
last_of : ℕ → Bytes → ℕ
last_of before [] = before
last_of before (c ∷ cs) = last_of c cs

scan_digits :
    (s : Bytes) (before : ℕ) (t rest : Bytes) (q : Quota)
    → All IsDigit s
    → scan_quota before t false (s ++ rest) q ≡ scan_quota (last_of before s) t false rest q
unfolding scan_quota last_of
scan_digits [] before t rest q h = refl
scan_digits (c ∷ cs) before t rest q (hc, hs) =
    let e : (c == b',') ≡ false = not_comma c hc in
    rw (e, scan_quota) (scan_digits cs c t rest q hs)

-- The scan of one part, up to what follows its letter.
scan_part :
    (p : Part) (before : ℕ) (t rest : Bytes) (q : Quota)
    → scan_quota before t false (render_part p ++ rest) q ≡ scan_quota (letter p) t false rest q
unfolding scan_quota
scan_part (bytes n) before t rest q =
    rw
      (
        append_assoc (print_nat n) (b'S' ∷ []) rest,
        scan_digits (print_nat n) before t (b'S' ∷ rest) q (print_nat-All n),
      )
      refl
scan_part (messages n) before t rest q =
    rw
      (
        append_assoc (print_nat n) (b'C' ∷ []) rest,
        scan_digits (print_nat n) before t (b'C' ∷ rest) q (print_nat-All n),
      )
      refl

-- A part that begins behind a comma is scanned like one at the start.
render-starts :
    (p : Part) (ps : List Part) → (c : ℕ) × (cs : Bytes) × (render p ps ≡ c ∷ cs) × IsDigit c
render-starts p ps = starts (render p ps) (tail_of p ps)
  where
    tail_of :
        (p : Part) (ps : List Part) → (rest : Bytes) × (render p ps ≡ print_nat (amount p) ++ rest)
    tail_of p [] = (letter p ∷ [], refl)
    tail_of p (r ∷ rs) = (
      letter p ∷ (b',' ∷ render r rs),
      append_assoc (print_nat (amount p)) (letter p ∷ []) (b',' ∷ render r rs),
    )

    starts :
        (s : Bytes)
        → (rest : Bytes) × (s ≡ print_nat (amount p) ++ rest)
        → (c : ℕ) × (cs : Bytes) × (s ≡ c ∷ cs) × IsDigit c
    starts s (rest, e) =
        let (c, cs, h, d) = print_nat-head (amount p) in
        (c, cs ++ rest, e ∙ ap (λ x. x ++ rest) h, d)

restart :
    (s : Bytes) (c : ℕ) (cs : Bytes) (a b : ℕ) (t : Bytes) (q : Quota)
    → s ≡ c ∷ cs
    → IsDigit c
    → scan_quota a t true s q ≡ scan_quota b s false s q
unfolding scan_quota
restart s c cs a b t q e d = rw (e, scan_quota, not_comma c d) refl

abbrev pub AllSmall : List Part → Type 0
AllSmall = All (λ p. amount p < 2 ^ 63)

scan-render :
    (p : Part) (ps : List Part) (before : ℕ) (q : Quota)
    → amount p < 2 ^ 63
    → AllSmall ps
    → scan_quota before (render p ps) false (render p ps) q ≡ take_parts p ps q
unfolding scan_quota
scan-render p [] before q h hs =
    ap (λ s. scan_quota before (render_part p) false s q) (sym (append-nil (render_part p)))
    ∙ scan_part p before (render_part p) [] q
    ∙ store_part_lem p true [] q h
scan-render p (r ∷ rs) before q h (hr, hrs) =
    let t : Bytes = render p (r ∷ rs) in
    let (c, cs, e, d) = render-starts r rs in
    scan_part p before t (b',' ∷ render r rs) q
    ∙ ap (λ u. scan_quota b',' t true (render r rs) (store_part (letter p) false u q))
        (append_assoc (print_nat (amount p)) (letter p ∷ []) (b',' ∷ render r rs))
    ∙ ap (scan_quota b',' t true (render r rs)) (store_part_lem p false (b',' ∷ render r rs) q h)
    ∙ restart (render r rs) c cs b',' b',' t (take_part p q) e d
    ∙ scan-render r rs b',' (take_part p q) hr hrs

-- Every well-formed quota string, parts of numbers below 2 ^ 63 with a letter and commas between
-- them, is read as the first number of bytes and the first number of messages in it, whatever stands
-- in memory in front of the string.
pub mtos-render :
    (p : Part) (ps : List Part) (before : ℕ)
    → amount p < 2 ^ 63
    → AllSmall ps
    → mtos before (render p ps) ≡ take_parts p ps unset
unfolding mtos
mtos-render p ps before h hs = scan-render p ps before unset h hs
