-- ===== src/Base64/Bounds.antt =====
-- base64.c: how much `base64_decode` writes.
use vpopmail.Common.{
  ℕ, ◌+◌, ◌/◌, ◌%◌, ◌^◌, ◌<◌, ◌≡◌, refl, Bool, true, false, [], ◌∷◌, Bytes, ◌==◌, arith, length,
  length-append, Bool-cases, inl, inr,
}
use vpopmail.Base64.{
  Coded, ok, buffer_exceeded, bad_char, ◌>>=◌, bind-eq-ok, Decoder, emit, decode_char, decode_loop,
  decode_tail, blank, decode,
}

-- `out` counts the bytes written, and the terminator still fits.
record Fits (bufsz : ℕ) (d : Decoder) : Type 0 where
  counted : d.out ≡ length d.outbuf
  room : d.out < bufsz

abbrev AllFit : ℕ → Coded Decoder → Type 0
AllFit bufsz (ok d) = Fits bufsz d
AllFit bufsz _ = Unit

emit-AllFit :
    (bufsz : ℕ) (buf : Bytes) (n : ℕ) (d : Decoder)
    → length buf ≡ n
    → Fits bufsz d
    → AllFit bufsz (emit bufsz buf n d)
unfolding emit
emit-AllFit bufsz buf n d e f = ground (arith, length-append d.outbuf buf)

-- `put` without the count and the bits: what the other operations have in common.
emit_then-AllFit :
    (bufsz : ℕ) (buf : Bytes) (n bits count : ℕ) (d : Decoder)
    → length buf ≡ n
    → Fits bufsz d
    → AllFit bufsz (emit bufsz buf n d >>= λ e. ok (record e { bits = bits; char_count = count }))
unfolding emit
emit_then-AllFit bufsz buf n bits count d e f = ground (arith, length-append d.outbuf buf)

decode_char-AllFit :
    (bufsz p : ℕ) (d : Decoder) → Fits bufsz d → AllFit bufsz (decode_char bufsz p d)
unfolding decode_char
decode_char-AllFit bufsz p d f = elim (Bool-cases (d.char_count + 1 == 4)) [
  | inl full ↦ rw full (emit_then-AllFit bufsz _ 3 0 0 d refl f)
  | inr more ↦ rw more (record { counted = f.counted; room = f.room })
]

abbrev LoopFits : ℕ → Coded (Decoder × Bool) → Type 0
LoopFits bufsz (ok r) = Fits bufsz r.0
LoopFits bufsz _ = Unit

bind-LoopFits :
    (bufsz : ℕ) (m : Coded Decoder) (k : Decoder → Coded (Decoder × Bool))
    → AllFit bufsz m
    → ((d : Decoder) → Fits bufsz d → LoopFits bufsz (k d))
    → LoopFits bufsz (m >>= k)
bind-LoopFits bufsz (ok d) k f keep = keep d f
bind-LoopFits bufsz buffer_exceeded k f keep = tt
bind-LoopFits bufsz bad_char k f keep = tt

decode_loop-LoopFits :
    (bufsz : ℕ) (text : Bytes) (d : Decoder)
    → Fits bufsz d
    → LoopFits bufsz (decode_loop bufsz text d)
unfolding decode_loop
decode_loop-LoopFits bufsz [] d f = f
decode_loop-LoopFits bufsz (p ∷ ps) d f = ground (
  arith,
  decode_loop-LoopFits bufsz ps d f,
  bind-LoopFits bufsz (decode_char bufsz p d) (decode_loop bufsz ps)
      (decode_char-AllFit bufsz p d f) (λ e. decode_loop-LoopFits bufsz ps e),
)

decode_tail-AllFit :
    (bufsz : ℕ) (d : Decoder) (padded : Bool)
    → Fits bufsz d
    → AllFit bufsz (decode_tail bufsz (d, padded))
unfolding decode_tail
decode_tail-AllFit bufsz d false f = ground arith
decode_tail-AllFit bufsz d true f = ground (
  arith,
  emit-AllFit bufsz (d.bits / 2 ^ 10 % 256 ∷ []) 1 d refl f,
  emit-AllFit bufsz (d.bits / 2 ^ 16 % 256 ∷ d.bits / 2 ^ 8 % 256 ∷ []) 2 d refl f,
)

-- Whatever the text, what `base64_decode` gives with a buffer that is not empty leaves room for the
-- terminator in it.
pub length-decode :
    (text : Bytes) (bufsz : ℕ) {r : Bytes} → 0 < bufsz → decode text bufsz ≡ ok r → length r < bufsz
unfolding decode
length-decode text bufsz h e =
    let (l, looped, e1) = bind-eq-ok (decode_loop bufsz text blank) _ e in
    let (d, tailed, e2) = bind-eq-ok (decode_tail bufsz l) _ e1 in
    let start : Fits bufsz blank = record { counted = refl; room = h } in
    let f : Fits bufsz l.0 = rw looped at (decode_loop-LoopFits bufsz text blank start) in
    let g : Fits bufsz d = rw tailed at (decode_tail-AllFit bufsz l.0 l.1 f) in ground arith
