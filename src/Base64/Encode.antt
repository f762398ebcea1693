-- ===== src/Base64/Encode.antt =====
-- What `base64_encode` writes, and when it has room for it.
use vpopmail.Common.{
  ltb→lt, ℕ, ◌+◌, ◌*◌, ◌/◌, ◌%◌, ◌^◌, ◌<◌, ◌≡◌, refl, ◌∙◌, [], ◌∷◌, ◌++◌, append-nil, append_assoc,
  Bytes, ltb, ◌==◌, if◌then◌else◌, arith, length, length-append, Bool-cases, inl, inr,
}
use vpopmail.Base64.{
  Coded, ok, buffer_exceeded, ◌>>=◌, Encoder, quad, crlf, flush, encode_loop, encode_tail, encode,
  alphabet,
}

-- The column after one more group, and the line break that falls due there.
abbrev pub next_cols : ℕ → ℕ
next_cols cols = if cols + 4 == 72 then 0 else cols + 4

abbrev pub line_break : ℕ → Bytes
line_break cols = if cols + 4 == 72 then crlf else []

abbrev pub final_break : ℕ → Bytes
final_break cols = if ltb 0 cols then crlf else []

-- The text by groups of three bytes, with no buffer.
unfoldable pub render : ℕ → Bytes → Bytes
render cols [] = []
render cols (a ∷ []) =
    let bits = a * 2 ^ 16 in
    alphabet (bits / 2 ^ 18) ∷ alphabet (bits / 2 ^ 12 % 64) ∷ b'=' ∷ b'=' ∷ final_break cols
render cols (a ∷ b ∷ []) =
    let bits = (a * 2 ^ 8 + b) * 2 ^ 8 in
    alphabet (bits / 2 ^ 18)
    ∷ alphabet (bits / 2 ^ 12 % 64)
    ∷ alphabet (bits / 2 ^ 6 % 64)
    ∷ b'='
    ∷ final_break cols
render cols (a ∷ b ∷ c ∷ xs) =
    quad ((a * 2 ^ 8 + b) * 2 ^ 8 + c) ++ (line_break cols ++ render (next_cols cols) xs)

-- An encoder between two groups.
abbrev at : ℕ → ℕ → Bytes → Encoder
at cols out outbuf = record { bits = 0; cols = cols; char_count = 0; out = out; outbuf = outbuf }

-- The rest of an encoding, from such a state on.
abbrev finish : ℕ → Bytes → Encoder → Coded Bytes
finish outsz xs e = encode_loop outsz xs e >>= λ f. encode_tail outsz f >>= λ g. ok g.outbuf

abbrev within_size : ℕ → ℕ → Bytes → Coded Bytes
within_size outsz total text = if ltb total outsz then ok text else buffer_exceeded

-- A full group in the loop: three rounds, the last of which flushes.
group_lem :
    (outsz cols out : ℕ) (outbuf : Bytes) (a b c : ℕ) (xs : Bytes)
    → encode_loop outsz (a ∷ b ∷ c ∷ xs) (at cols out outbuf) ≡ (
        flush outsz (record {
          bits = ((0 + a) * 2 ^ 8 + b) * 2 ^ 8 + c;
          cols = cols;
          char_count = 3;
          out = out;
          outbuf = outbuf;
        })
        >>= encode_loop outsz xs)
unfolding encode_loop
group_lem outsz cols out outbuf a b c xs = refl

flush_lem :
    (outsz bits cols out : ℕ) (outbuf : Bytes)
    → flush outsz (record { bits = bits; cols = cols; char_count = 3; out = out; outbuf = outbuf })
      ≡ (if ltb (out + 4 + length (line_break cols)) outsz
          then ok (
              at
                (next_cols cols)
                (out + 4 + length (line_break cols))
                ((outbuf ++ quad bits) ++ line_break cols))
          else buffer_exceeded)
unfolding flush
flush_lem outsz bits cols out outbuf = ground (arith, append-nil (outbuf ++ quad bits))

append-four :
    (a : Bytes) (x y z w : ℕ) (r : Bytes)
    → ((a ++ x ∷ y ∷ []) ++ z ∷ w ∷ []) ++ r ≡ a ++ (x ∷ y ∷ z ∷ w ∷ r)
append-four a x y z w r = simp append_assoc

-- One or two bytes are left: the loop only collects them, and the tail pads the group.
one_lem :
    (outsz cols out : ℕ) (outbuf : Bytes) (a : ℕ)
    → finish outsz (a ∷ []) (at cols out outbuf)
      ≡ within_size outsz (out + length (render cols (a ∷ []))) (outbuf ++ render cols (a ∷ []))
unfolding encode_loop encode_tail render
one_lem outsz cols out outbuf a =
    let b = a * 2 ^ 16 in
    ground (
      arith,
      append-four outbuf (alphabet (b / 2 ^ 18)) (alphabet (b / 2 ^ 12 % 64)) b'=' b'=' crlf,
      append-four outbuf (alphabet (b / 2 ^ 18)) (alphabet (b / 2 ^ 12 % 64)) b'=' b'=' [],
      append-nil
          ((outbuf ++ alphabet (b / 2 ^ 18) ∷ alphabet (b / 2 ^ 12 % 64) ∷ []) ++ b'=' ∷ b'=' ∷ []),
    )

two_lem :
    (outsz cols out : ℕ) (outbuf : Bytes) (a b : ℕ)
    → finish outsz (a ∷ b ∷ []) (at cols out outbuf)
      ≡ within_size outsz
          (out + length (render cols (a ∷ b ∷ [])))
          (outbuf ++ render cols (a ∷ b ∷ []))
unfolding encode_loop encode_tail render
two_lem outsz cols out outbuf a b =
    let v = (a * 2 ^ 8 + b) * 2 ^ 8 in
    let p = alphabet (v / 2 ^ 18) in
    let q = alphabet (v / 2 ^ 12 % 64) in
    let r = alphabet (v / 2 ^ 6 % 64) in
    ground (
      arith,
      append-four outbuf p q r b'=' crlf,
      append-four outbuf p q r b'=' [],
      append-nil ((outbuf ++ p ∷ q ∷ []) ++ r ∷ b'=' ∷ []),
    )

length-render_group :
    (cols a b c : ℕ) (xs : Bytes)
    → length (render cols (a ∷ b ∷ c ∷ xs))
      ≡ 4 + length (line_break cols) + length (render (next_cols cols) xs)
unfolding render
length-render_group cols a b c xs =
    omega (arith, length-append (line_break cols) (render (next_cols cols) xs))

render_group :
    (cols a b c : ℕ) (outbuf xs : Bytes)
    → ((outbuf ++ quad (((0 + a) * 2 ^ 8 + b) * 2 ^ 8 + c)) ++ line_break cols)
        ++ render (next_cols cols) xs
      ≡ outbuf ++ render cols (a ∷ b ∷ c ∷ xs)
unfolding render
render_group cols a b c outbuf xs = let e : 0 + a ≡ a = omega arith in rw e (simp append_assoc)

finish_lem :
    (outsz cols out : ℕ) (outbuf xs : Bytes)
    → out < outsz
    → finish outsz xs (at cols out outbuf)
      ≡ within_size outsz (out + length (render cols xs)) (outbuf ++ render cols xs)
finish_lem outsz cols out outbuf [] h =
    unfold encode_loop encode_tail render in ground (arith, append-nil outbuf)
finish_lem outsz cols out outbuf (a ∷ []) h = one_lem outsz cols out outbuf a
finish_lem outsz cols out outbuf (a ∷ b ∷ []) h = two_lem outsz cols out outbuf a b
finish_lem outsz cols out outbuf (a ∷ b ∷ c ∷ xs) h =
    let now = out + 4 + length (line_break cols) in
    let v = ((0 + a) * 2 ^ 8 + b) * 2 ^ 8 + c in
    let written = (outbuf ++ quad v) ++ line_break cols in
    rw (group_lem, flush_lem)
      (elim (Bool-cases (ltb now outsz)) [
        | inl fits ↦ rw fits (
            finish_lem outsz (next_cols cols) now written xs (ltb→lt now outsz fits)
            ∙ rw (render_group, length-render_group) (ground arith))
        | inr full ↦ rw full (ground (arith, length-render_group cols a b c xs))
      ])

-- With a buffer that is not empty, `base64_encode` writes the rendering of its input, and refuses
-- exactly when the buffer could not hold that text and a terminator.
pub encode-render :
    (xs : Bytes) (outsz : ℕ)
    → 0 < outsz
    → encode xs outsz
      ≡ (if ltb (length (render 0 xs)) outsz then ok (render 0 xs) else buffer_exceeded)
unfolding encode
encode-render xs outsz h = finish_lem outsz 0 0 [] xs h ∙ ground arith

pub encode-eq-ok :
    (xs : Bytes) (outsz : ℕ) {text : Bytes}
    → 0 < outsz
    → encode xs outsz ≡ ok text
    → text ≡ render 0 xs
encode-eq-ok xs outsz h e = ground (arith, encode-render xs outsz h)
