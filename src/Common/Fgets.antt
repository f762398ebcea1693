-- ===== src/Common/Fgets.antt =====
-- A file read with `fgets` in pieces of at most `size - 1` bytes, until its end.
use Prim.Native.Nat.{ℕ, ◌-◌, ◌<◌}
use mathlib.Core.Path.{◌≡◌, refl}
use mathlib.Core.Logic.{◌≢◌}
use mathlib.Core.Bool.{false, ◌||◌}
use mathlib.Core.List.{List, [], ◌∷◌, ◌++◌, append_assoc}
use native.Mathlib.Omega.{arith}
use vpopmail.Common.Tests.{◌==◌, if◌then◌else◌}
use vpopmail.Common.Lists.{Bytes, length, All}

abbrev pub last_piece : Bytes → List Bytes
last_piece [] = []
last_piece (x ∷ xs) = (x ∷ xs) ∷ []

-- `room` bytes fit behind `line`.
unfoldable pub pieces : ℕ → ℕ → Bytes → Bytes → List Bytes
pieces size room line [] = last_piece line
pieces size room line (c ∷ cs) =
    let full = c == b'\n' || room == 1 in
    let rest =
      pieces size (if full then size - 1 else room - 1) (if full then [] else line ++ (c ∷ []))
        cs in
    if full then (line ++ (c ∷ [])) ∷ rest else rest

-- Neither a newline nor the end of a string.
abbrev pub IsText : ℕ → Type 0
IsText c = (c ≢ 0) × (c ≢ b'\n')

pub pieces-line :
    (size : ℕ) (l line rest : Bytes) (room : ℕ)
    → All IsText l
    → length l < room
    → pieces size room line (l ++ (b'\n' ∷ rest))
      ≡ (line ++ (l ++ (b'\n' ∷ []))) ∷ pieces size (size - 1) [] rest
unfolding pieces
pieces-line size [] line rest room h k = refl
pieces-line size (c ∷ cs) line rest room (hc, hs) k =
    let more : (c == b'\n' || room == 1) ≡ false = ground arith in
    rw (more, pieces, ← append_assoc line (c ∷ []) (cs ++ (b'\n' ∷ [])))
      (pieces-line size cs (line ++ (c ∷ [])) rest (room - 1) hs (omega arith))
