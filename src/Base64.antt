-- ===== src/Base64.antt =====
-- base64.c: the alphabet tables, `base64_decode` and `base64_encode`.
-- A buffer is the list of the bytes written to it so far, and `out` counts them as in the source.
pub mod Encode
pub mod RoundTrip
pub mod Bounds
mod Tests
use vpopmail.Common.{
  ◌≡◌, refl, ℕ, zero, suc, ◌+◌, ◌*◌, ◌/◌, ◌%◌, ◌^◌, Bool, true, false, List, [], ◌∷◌, ◌++◌, Bytes,
  codes, leb, ltb, ◌==◌, if◌then◌else◌, get_or,
}

-- `VA_INTERNAL_BUFFER_EXCEEDED` and `VA_BAD_CHAR` are the two error codes.
pub data Coded {ℓ} (A : Type ℓ) : Type ℓ where
  ok : A → Coded A
  buffer_exceeded bad_char : Coded A

infixl 5 ◌>>=◌
abbrev pub ◌>>=◌ {ℓ κ} : {A : Type ℓ} {B : Type κ} → Coded A → (A → Coded B) → Coded B
ok a >>= f = f a
buffer_exceeded >>= f = buffer_exceeded
bad_char >>= f = bad_char

pub bind-eq-ok {ℓ κ} :
    {A : Type ℓ} {B : Type κ} (first : Coded A) (next : A → Coded B) {result : B}
    → (first >>= next) ≡ ok result
    → (x : A) × (first ≡ ok x) × (next x ≡ ok result)
bind-eq-ok (ok x) next e = (x, refl, e)
bind-eq-ok buffer_exceeded next e = cc
bind-eq-ok bad_char next e = cc

abbrev pub alphabet_table : Bytes
alphabet_table = codes "ABCDEFGHIJKLMNOPQRSTUVWXYZabcdefghijklmnopqrstuvwxyz0123456789+/"

unfoldable pub alphabet : ℕ → ℕ
alphabet i = get_or alphabet_table i 0

-- `base64_t`: two arrays indexed by a byte.
pub record Tables : Type 0 where
  pub inalphabet : ℕ → Bool
  pub decoder : ℕ → ℕ

-- `a[i] = v`
abbrev update {ℓ} : {A : Type ℓ} → (ℕ → A) → ℕ → A → ℕ → A
update a i v j = if j == i then v else a j

-- The loop from `i = 63` down to 0, with `n` rounds left.
init_from : ℕ → Tables → Tables
init_from zero b = b
init_from (suc i) b = init_from i (record {
  inalphabet = update b.inalphabet (alphabet i) true;
  decoder = update b.decoder (alphabet i) i;
})

unfoldable pub init : Tables
unfolding init_from alphabet
init = init_from 64 (record { inalphabet = λ c. false; decoder = λ c. 0 })

pub record Encoder : Type 0 where
  pub bits : ℕ
  pub cols : ℕ
  pub char_count : ℕ
  pub out : ℕ
  pub outbuf : Bytes

-- `if ((out + n) >= outsz) return ...; memcpy(outbuf, buf, n); outbuf += n; out += n;`
pub put : ℕ → Bytes → ℕ → Encoder → Coded Encoder
put outsz buf n e =
    if leb outsz (e.out + n)
    then buffer_exceeded
    else ok (record e { out = e.out + n; outbuf = e.outbuf ++ buf })

abbrev pub crlf : Bytes
crlf = b'\r' ∷ b'\n' ∷ []

-- The four characters of a full group of three bytes.
abbrev pub quad : ℕ → Bytes
quad bits =
    alphabet (bits / 2 ^ 18)
    ∷ alphabet (bits / 2 ^ 12 % 64)
    ∷ alphabet (bits / 2 ^ 6 % 64)
    ∷ alphabet (bits % 64)
    ∷ []

-- The body of `if (char_count == 3)`.
pub flush : ℕ → Encoder → Coded Encoder
unfolding put
flush outsz e = do
  f ← put outsz (quad e.bits) 4 e
  let g = record f { cols = f.cols + 4 }
  h ← (if g.cols == 72 then (put outsz crlf 2 g >>= λ k. ok (record k { cols = 0 })) else ok g)
  ok (record h { bits = 0; char_count = 0 })

-- One round of the loop over the input.
unfoldable pub encode_byte : ℕ → ℕ → Encoder → Coded Encoder
unfolding flush
encode_byte outsz p e =
    let f = record e { bits = e.bits + p; char_count = e.char_count + 1 } in
    if f.char_count == 3 then flush outsz f else ok (record f { bits = f.bits * 2 ^ 8 })

unfoldable pub encode_loop : ℕ → Bytes → Encoder → Coded Encoder
unfolding encode_byte
encode_loop outsz [] e = ok e
encode_loop outsz (p ∷ ps) e = do f ← encode_byte outsz p e; encode_loop outsz ps f

-- What is left when the input ends inside a group of three. The shift distance is
-- `16 - 8 * char_count`, with `char_count` 1 or 2.
unfoldable pub encode_tail : ℕ → Encoder → Coded Encoder
unfolding put
encode_tail outsz e = if e.char_count == 0 then ok e else do
  let shifted = if e.char_count == 1 then e.bits * 2 ^ 8 else e.bits
  f ← put outsz (alphabet (shifted / 2 ^ 18) ∷ alphabet (shifted / 2 ^ 12 % 64) ∷ []) 2 e
  g ←
      (if e.char_count == 1
        then put outsz (b'=' ∷ b'=' ∷ []) 2 f
        else put outsz (alphabet (shifted / 2 ^ 6 % 64) ∷ b'=' ∷ []) 2 f)
  if ltb 0 e.cols then put outsz crlf 2 g else ok g

abbrev pub start : Encoder
start = record { bits = 0; cols = 0; char_count = 0; out = 0; outbuf = [] }

unfoldable pub encode : Bytes → ℕ → Coded Bytes
unfolding encode_loop encode_tail
encode inbuf outsz = do e ← encode_loop outsz inbuf start; f ← encode_tail outsz e; ok f.outbuf

pub record Decoder : Type 0 where
  pub bits : ℕ
  pub char_count : ℕ
  pub out : ℕ
  pub outbuf : Bytes

-- `if ((out + n) >= bufsz) return ...; memcpy(outbuf, buf, n); outbuf += n; out += n;`
pub emit : ℕ → Bytes → ℕ → Decoder → Coded Decoder
emit bufsz buf n d =
    if leb bufsz (d.out + n)
    then buffer_exceeded
    else ok (record d { out = d.out + n; outbuf = d.outbuf ++ buf })

-- A stored byte keeps the low eight bits of the value that is assigned to it.
abbrev pub uchar : ℕ → ℕ
uchar x = x % 256

-- One character of the alphabet.
unfoldable pub decode_char : ℕ → ℕ → Decoder → Coded Decoder
unfolding emit
decode_char bufsz p d =
    let bits = d.bits + init.decoder p in
    if d.char_count + 1 == 4
    then (emit bufsz (uchar (bits / 2 ^ 16) ∷ uchar (bits / 2 ^ 8) ∷ uchar bits ∷ []) 3 d >>= λ e.
        ok (record e { bits = 0; char_count = 0 }))
    else ok (record d { bits = bits * 2 ^ 6; char_count = d.char_count + 1 })

-- The loop over the text. The Boolean tells whether it stopped at `=`, or at the terminator.
unfoldable pub decode_loop : ℕ → Bytes → Decoder → Coded (Decoder × Bool)
unfolding decode_char
decode_loop bufsz [] d = ok (d, false)
decode_loop bufsz (p ∷ ps) d =
    let skip = decode_loop bufsz ps d in
    let next = decode_char bufsz p d >>= decode_loop bufsz ps in
    if p == b'=' then ok (d, true) else if init.inalphabet p then next else skip

unfoldable pub decode_tail : ℕ → Decoder × Bool → Coded Decoder
unfolding emit
decode_tail bufsz (d, false) = if d.char_count == 0 then ok d else bad_char
decode_tail bufsz (d, true) =
    if d.char_count == 1
    then bad_char
    else if d.char_count == 2
    then emit bufsz (uchar (d.bits / 2 ^ 10) ∷ []) 1 d
    else if d.char_count == 3
    then emit bufsz (uchar (d.bits / 2 ^ 16) ∷ uchar (d.bits / 2 ^ 8) ∷ []) 2 d
    else ok d

abbrev pub blank : Decoder
blank = record { bits = 0; char_count = 0; out = 0; outbuf = [] }

unfoldable pub decode : Bytes → ℕ → Coded Bytes
unfolding decode_loop decode_tail
decode text bufsz = do r ← decode_loop bufsz text blank; d ← decode_tail bufsz r; ok d.outbuf
