-- ===== src/Usage/Framing.antt =====
-- vusaged/packet.c, `packet_read`, on a buffer of packets as the clients frame them.
use vpopmail.Common.{
  ℕ, zero, suc, ◌+◌, ◌*◌, ◌<◌, ◌≡◌, ◌≢◌, ◌∙◌, refl, ap, true, false, List, [], ◌∷◌, ◌++◌,
  append_assoc, map, some, Bytes, ltb, ◌==◌, All, arith, length, drop, length-append,
}
use vpopmail.Email.{to_lower}
use vpopmail.Usage.Packet.{
  lower_text, c_string, packet, waiting, query, round, add_query, after, run, packet_read,
}

-- What `client_query` sends for a string: its length and its bytes.
abbrev pub frame : Bytes → Bytes
frame q = 0 ∷ length q ∷ q

abbrev pub frames : List Bytes → Bytes
frames [] = []
frames (q ∷ qs) = frame q ++ frames qs

-- A string of 1 to 255 bytes.
abbrev pub IsQuery : Bytes → Type 0
IsQuery q = All (λ c. c ≢ 0) q × (0 < length q) × (length q < 256)

-- The beginning of a frame of such a string, or nothing.
abbrev pub IsPartial : Bytes → Type 0
IsPartial [] = Unit
IsPartial (h ∷ []) = h ≡ 0
IsPartial (h ∷ l ∷ rest) = (h ≡ 0) × (length rest < l) × (l < 256)

-- What stands behind a string begins with a NUL, if anything.
abbrev Ends : Bytes → Type 0
Ends [] = Unit
Ends (c ∷ cs) = c ≡ 0

lower_text-append :
    (q rest : Bytes)
    → All (λ c. c ≢ 0) q
    → Ends rest
    → lower_text (q ++ rest) ≡ map to_lower q ++ rest
unfolding lower_text
lower_text-append [] [] h e = refl
lower_text-append [] (c ∷ cs) h e = rw e refl
lower_text-append (c ∷ cs) rest (hc, hs) e =
    let more : (c == 0) ≡ false = ground arith in
    rw more (ap (◌∷◌ (to_lower c)) (lower_text-append cs rest hs e))

c_string-append :
    (q rest : Bytes)
    → All (λ c. c ≢ 0) q
    → Ends rest
    → c_string (map to_lower q ++ rest) ≡ map to_lower q
unfolding c_string
c_string-append [] [] h e = refl
c_string-append [] (c ∷ cs) h e = rw e refl
c_string-append (c ∷ cs) rest (hc, hs) e =
    let more : (to_lower c == 0) ≡ false = ground arith in
    rw more (ap (◌∷◌ (to_lower c)) (c_string-append cs rest hs e))

drop-append : (q rest : Bytes) → drop (length q) (map to_lower q ++ rest) ≡ rest
drop-append [] rest = refl
drop-append (c ∷ cs) rest = drop-append cs rest

packet_lem :
    (q rest : Bytes)
    → IsQuery q
    → Ends rest
    → packet (length q) (q ++ rest) ≡ query (map to_lower q) rest
unfolding packet
packet_lem q rest (hq, pos, small) e =
    let n = length-append q rest in
    let some_length : (length q == 0) ≡ false = ground arith in
    let fits : ltb 1024 (length q) ≡ false = ground arith in
    let present : ltb (length (q ++ rest)) (length q) ≡ false = ground (arith, n) in
    rw
      (
        some_length,
        fits,
        present,
        lower_text-append q rest hq e,
        c_string-append q rest hq e,
        drop-append q rest,
      )
      refl

round-frame :
    (q rest : Bytes) → IsQuery q → Ends rest → round (frame q ++ rest) ≡ query (map to_lower q) rest
unfolding round
round-frame q rest h e =
    let n : 0 * 256 + length q ≡ length q = omega arith in
    ap (λ k. packet k (q ++ rest)) n ∙ packet_lem q rest h e

packet-short : (n : ℕ) (rest : Bytes) → length rest < n → n < 256 → packet n rest ≡ waiting
unfolding packet
packet-short n rest short small = ground arith

round-IsPartial : (rest : Bytes) → IsPartial rest → round rest ≡ waiting
unfolding round
round-IsPartial [] h = refl
round-IsPartial (c ∷ []) h = refl
round-IsPartial (c ∷ l ∷ rest) (z, short, small) =
    packet-short (c * 256 + l) rest (omega (arith, z, short)) (omega (arith, z, small))

IsPartial-Ends : (rest : Bytes) → IsPartial rest → Ends rest
IsPartial-Ends [] h = tt
IsPartial-Ends (c ∷ []) h = h
IsPartial-Ends (c ∷ l ∷ rest) h = h.0

frames-Ends : (qs : List Bytes) (rest : Bytes) → IsPartial rest → Ends (frames qs ++ rest)
frames-Ends [] rest h = IsPartial-Ends rest h
frames-Ends (q ∷ qs) rest h = refl

run-frames :
    (qs : List Bytes) (rest : Bytes) (fuel : ℕ)
    → All IsQuery qs
    → IsPartial rest
    → length (frames qs ++ rest) < fuel
    → run fuel (frames qs ++ rest)
      ≡ some (record { accepted = true; left = rest; queries = map (map to_lower) qs })
unfolding run
run-frames qs rest zero hs h k = absurd (omega (arith, k))
run-frames [] rest (suc fuel) hs h k = rw (round-IsPartial rest h) refl
run-frames (q ∷ qs) rest (suc fuel) (hq, hs) h k =
    let others : Bytes = frames qs ++ rest in
    let together = append_assoc (frame q) (frames qs) rest in
    let n = length-append (frame q) others in
    let m = ap length together in
    ap (run (suc fuel)) together
    ∙ ap (λ r. after r (frame q ++ others) (run fuel))
        (round-frame q others hq (frames-Ends qs rest h))
    ∙ ap (add_query (map to_lower q)) (run-frames qs rest fuel hs h (omega (arith, n, m, k)))

-- Of any number of strings of 1 to 255 bytes, framed one behind the other, and the beginning of a
-- further frame, `packet_read` looks up each string in lower case, in their order, leaves just that
-- beginning in the buffer, and ends with success.
pub packet_read-frames :
    (qs : List Bytes) (rest : Bytes)
    → All IsQuery qs
    → IsPartial rest
    → packet_read (frames qs ++ rest)
      ≡ some (record { accepted = true; left = rest; queries = map (map to_lower) qs })
unfolding packet_read
packet_read-frames qs rest hs h =
    run-frames qs rest (suc (length (frames qs ++ rest))) hs h (omega arith)
