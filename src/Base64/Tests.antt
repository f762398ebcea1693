-- ===== src/Base64/Tests.antt =====
-- Runs of base64.c on concrete inputs.
use vpopmail.Common.{◌≡◌, refl, codes, arith, All, IsByte, ltb, if◌then◌else◌, length}
use vpopmail.Base64.Encode.{render, encode-render}
use vpopmail.Base64.RoundTrip.{decode-encode}
use vpopmail.Base64.{ok, bad_char, buffer_exceeded, encode, alphabet, decode, init}

encode_runs : encode (codes "Many hands") 100 ≡ ok (codes "TWFueSBoYW5kcw==\r\n")
unfolding encode alphabet
encode_runs = refl

encode_small : encode (codes "Many hands") 18 ≡ buffer_exceeded
unfolding encode alphabet
encode_small = refl

decode_runs : decode (codes "TWFu eSBoYW5kcw==\r\n") 100 ≡ ok (codes "Many hands")
unfolding decode init
decode_runs = refl

decode_unpadded : decode (codes "TWFueQ") 100 ≡ bad_char
unfolding decode init
decode_unpadded = refl

short-All : All IsByte (codes "Many hands")
short-All = omega arith

encode-render_example : encode (codes "Many") 20 ≡ (
    if ltb (length (render 0 (codes "Many"))) 20
    then ok (render 0 (codes "Many"))
    else buffer_exceeded)
encode-render_example = encode-render (codes "Many") 20 (omega arith)

decode-encode_example : decode (codes "TWFueSBoYW5kcw==\r\n") 11 ≡ ok (codes "Many hands")
decode-encode_example =
    decode-encode (codes "Many hands") 100 11 short-All encode_runs (omega arith) (omega arith)
