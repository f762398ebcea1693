-- ===== src/Vpopmaild/Tokens.antt =====
-- vpopmaild.c: the words of a line, as `strtok` finds them.
use vpopmail.Common.{ℕ, Bool, ◌||◌, [], ◌∷◌, Option, none, some, Bytes, ◌==◌, if◌then◌else◌}

unfoldable pub skip_tokens : (ℕ → Bool) → Bytes → Bytes
skip_tokens d [] = []
skip_tokens d (c ∷ cs) = let rest = skip_tokens d cs in if d c then rest else c ∷ cs

-- The word up to the next delimiter, and what stands behind that.
unfoldable pub token_of : (ℕ → Bool) → Bytes → Bytes × Bytes
token_of d [] = ([], [])
token_of d (c ∷ cs) = let (t, rest) = token_of d cs in if d c then ([], cs) else (c ∷ t, rest)

-- `none` is the answer NULL.
unfoldable pub strtok : (ℕ → Bool) → Bytes → Option (Bytes × Bytes)
unfolding skip_tokens token_of
strtok d s = found (skip_tokens d s)
  where
    found : Bytes → Option (Bytes × Bytes)
    found [] = none
    found (c ∷ cs) = some (token_of d (c ∷ cs))

-- TOKENS, PASS_TOKENS and PARAM_TOKENS
abbrev pub tokens : ℕ → Bool
tokens c = c == b' ' || c == b'\n' || c == b'\t' || c == b'\r'

abbrev pub pass_tokens : ℕ → Bool
pass_tokens c = c == b'\n' || c == b'\r'

abbrev pub param_tokens : ℕ → Bool
param_tokens c = c == b' ' || c == b'=' || c == b':' || c == b'\n' || c == b'\r'
