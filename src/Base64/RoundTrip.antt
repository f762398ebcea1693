-- ===== src/Base64/RoundTrip.antt =====
-- base64.c: `base64_decode` on what `base64_encode` writes.
use vpopmail.Common.{
  ℕ, ◌+◌, ◌*◌, ◌/◌, ◌%◌, ◌^◌, ◌<◌, ◌≡◌, refl, ◌∙◌, Bool, true, false, not, ◌&&◌, [], ◌∷◌, ◌++◌,
  append-nil, append_assoc, Bytes, ◌==◌, arith, length, All, IsByte, all_below, all_below_sound,
}
use vpopmail.Base64.{
  Coded, ok, ◌>>=◌, alphabet, init, quad, uchar, Decoder, decode_loop, decode_tail, decode, encode,
}
use vpopmail.Base64.Encode.{encode-eq-ok, render, next_cols, line_break, final_break}

-- The two arrays of `base64_init` invert the alphabet, which has no `=`.
abbrev letter_ok : ℕ → Bool
letter_ok i =
    init.inalphabet (alphabet i) && init.decoder (alphabet i) == i && not (alphabet i == b'=')

letters : all_below 64 letter_ok ≡ true
unfolding all_below init alphabet
letters = refl

letter_lem :
    (i : ℕ)
    → i < 64
    → (init.inalphabet (alphabet i) ≡ true)
      × (init.decoder (alphabet i) ≡ i)
      × ((alphabet i == b'=') ≡ false)
letter_lem i h = ground (arith, all_below_sound 64 letter_ok i letters)

module _ (bufsz i : ℕ) (rest : Bytes) (i_lt : i < 64) where
  -- A letter that does not fill its group of four.
  decode_letter :
      (bits n out : ℕ) (outbuf : Bytes)
      → n < 3
      → decode_loop bufsz
          (alphabet i ∷ rest)
          (record { bits = bits; char_count = n; out = out; outbuf = outbuf })
        ≡ decode_loop bufsz rest
            (record { bits = (bits + i) * 64; char_count = n + 1; out = out; outbuf = outbuf })
  unfolding decode_loop
  decode_letter bits n out outbuf h = ground (arith, letter_lem i i_lt)

  -- The fourth letter writes three bytes.
  decode_fourth :
      (bits out : ℕ) (outbuf : Bytes)
      → out + 3 < bufsz
      → decode_loop bufsz
          (alphabet i ∷ rest)
          (record { bits = bits; char_count = 3; out = out; outbuf = outbuf })
        ≡ (let v = bits + i in
            decode_loop bufsz rest (record {
              bits = 0;
              char_count = 0;
              out = out + 3;
              outbuf = outbuf ++ uchar (v / 2 ^ 16) ∷ uchar (v / 2 ^ 8) ∷ uchar v ∷ [];
            }))
  unfolding decode_loop
  decode_fourth bits out outbuf h = ground (arith, letter_lem i i_lt)

-- A decoder between two groups.
abbrev at : ℕ → Bytes → Decoder
at out outbuf = record { bits = 0; char_count = 0; out = out; outbuf = outbuf }

module _ (bufsz v out : ℕ) (outbuf rest : Bytes) (small : v < 2 ^ 24) where
  regroup : (((0 + v / 2 ^ 18) * 64 + v / 2 ^ 12 % 64) * 64 + v / 2 ^ 6 % 64) * 64 + v % 64 ≡ v
  regroup = omega arith

  decode_quad :
      out + 3 < bufsz
      → decode_loop bufsz (quad v ++ rest) (at out outbuf)
        ≡ decode_loop bufsz rest
            (at (out + 3) (outbuf ++ uchar (v / 2 ^ 16) ∷ uchar (v / 2 ^ 8) ∷ uchar v ∷ []))
  decode_quad h =
      decode_letter bufsz (v / 2 ^ 18) _ (omega arith) 0 0 out outbuf (omega arith)
      ∙ decode_letter bufsz (v / 2 ^ 12 % 64) _ (omega arith) _ 1 out outbuf (omega arith)
      ∙ decode_letter bufsz (v / 2 ^ 6 % 64) _ (omega arith) _ 2 out outbuf (omega arith)
      ∙ decode_fourth bufsz (v % 64) rest (omega arith) _ out outbuf h
      ∙ rw regroup

decode_break :
    (bufsz cols : ℕ) (rest : Bytes) (d : Decoder)
    → decode_loop bufsz (line_break cols ++ rest) d ≡ decode_loop bufsz rest d
unfolding decode_loop init alphabet
decode_break bufsz cols rest d = ground arith

decode_pad :
    (bufsz : ℕ) (rest : Bytes) (d : Decoder) → decode_loop bufsz (b'=' ∷ rest) d ≡ ok (d, true)
unfolding decode_loop
decode_pad bufsz rest d = refl

abbrev finish : ℕ → Bytes → Decoder → Coded Bytes
finish bufsz text d = do r ← decode_loop bufsz text d; e ← decode_tail bufsz r; ok e.outbuf

group_value : (a b c : ℕ) → IsByte a → IsByte b → IsByte c → (a * 2 ^ 8 + b) * 2 ^ 8 + c < 2 ^ 24
group_value a b c ha hb hc = omega arith

group_bytes :
    (a b c : ℕ)
    → IsByte a
    → IsByte b
    → IsByte c
    → (let v = (a * 2 ^ 8 + b) * 2 ^ 8 + c in
        ◌≡◌ {A = Bytes} (uchar (v / 2 ^ 16) ∷ uchar (v / 2 ^ 8) ∷ uchar v ∷ []) (a ∷ b ∷ c ∷ []))
group_bytes a b c ha hb hc = ground arith

module _ (bufsz out : ℕ) (outbuf rest : Bytes) (a : ℕ) (ha : IsByte a) where
  -- The padded groups at the end of a text.
  decode_one :
      out + 1 < bufsz
      → (let v = a * 2 ^ 16 in
          finish bufsz
            (alphabet (v / 2 ^ 18) ∷ alphabet (v / 2 ^ 12 % 64) ∷ b'=' ∷ rest)
            (at out outbuf)
          ≡ ok (outbuf ++ a ∷ []))
  decode_one h =
      let v = a * 2 ^ 16 in
      rw
        (
          decode_letter bufsz (v / 2 ^ 18) _ (omega arith) 0 0 out outbuf (omega arith),
          decode_letter bufsz (v / 2 ^ 12 % 64) _ (omega arith) _ 1 out outbuf (omega arith),
          decode_pad,
        )
        (unfold decode_tail in ground arith)

  decode_two :
      (b : ℕ)
      → IsByte b
      → out + 2 < bufsz
      → (let v = (a * 2 ^ 8 + b) * 2 ^ 8 in
          finish bufsz
            (alphabet (v / 2 ^ 18)
              ∷ alphabet (v / 2 ^ 12 % 64)
              ∷ alphabet (v / 2 ^ 6 % 64)
              ∷ b'='
              ∷ rest)
            (at out outbuf)
          ≡ ok (outbuf ++ a ∷ b ∷ []))
  decode_two b hb h =
      let v = (a * 2 ^ 8 + b) * 2 ^ 8 in
      rw
        (
          decode_letter bufsz (v / 2 ^ 18) _ (omega arith) 0 0 out outbuf (omega arith),
          decode_letter bufsz (v / 2 ^ 12 % 64) _ (omega arith) _ 1 out outbuf (omega arith),
          decode_letter bufsz (v / 2 ^ 6 % 64) _ (omega arith) _ 2 out outbuf (omega arith),
          decode_pad,
        )
        (unfold decode_tail in ground arith)

decode-render :
    (bufsz cols out : ℕ) (outbuf xs : Bytes)
    → All IsByte xs
    → out + length xs < bufsz
    → finish bufsz (render cols xs) (at out outbuf) ≡ ok (outbuf ++ xs)
unfolding render
decode-render bufsz cols out outbuf [] hs h = unfold decode_loop decode_tail in rw append-nil
decode-render bufsz cols out outbuf (a ∷ []) (ha, _) h =
    decode_one bufsz out outbuf (b'=' ∷ final_break cols) a ha (omega arith)
decode-render bufsz cols out outbuf (a ∷ b ∷ []) (ha, (hb, _)) h =
    decode_two bufsz out outbuf (final_break cols) a ha b hb (omega arith)
decode-render bufsz cols out outbuf (a ∷ b ∷ c ∷ xs) (ha, (hb, (hc, hs))) h =
    rw
      (
        decode_quad bufsz ((a * 2 ^ 8 + b) * 2 ^ 8 + c) out outbuf
            (line_break cols ++ render (next_cols cols) xs) (group_value a b c ha hb hc)
            (omega arith),
        decode_break,
        group_bytes a b c ha hb hc,
      )
      (decode-render bufsz (next_cols cols) (out + 3) (outbuf ++ a ∷ b ∷ c ∷ []) xs hs (omega arith)
        ∙ rw append_assoc)

-- Whatever bytes `base64_encode` accepts with a buffer that is not empty, `base64_decode` gives back
-- from the text, if its buffer can hold the bytes and a terminator.
pub decode-encode :
    (xs : Bytes) (outsz bufsz : ℕ) {text : Bytes}
    → All IsByte xs
    → encode xs outsz ≡ ok text
    → 0 < outsz
    → length xs < bufsz
    → decode text bufsz ≡ ok xs
unfolding decode
decode-encode xs outsz bufsz hs e pos h =
    rw (encode-eq-ok xs outsz pos e) (decode-render bufsz 0 0 [] xs hs (omega arith))
