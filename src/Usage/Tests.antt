-- ===== src/Usage/Tests.antt =====
-- Runs of the daemon's buffer and packets on concrete inputs.
use vpopmail.Common.{◌≡◌, refl, true, false, [], ◌∷◌, ◌++◌, some, codes, arith}
use vpopmail.Usage.Grow.{Grow, inject, inject_lem}
use vpopmail.Usage.Packet.{packet_read}
use vpopmail.Usage.Framing.{frames, IsQuery, packet_read-frames}

-- A string that is not followed by a NUL runs on into the next packet, whose length is above 255.
runs_on :
    packet_read (0 ∷ 1 ∷ b'a' ∷ 1 ∷ b'B' ∷ b'c' ∷ [])
    ≡ some (record {
      accepted = true;
      left = 1 ∷ b'b' ∷ b'c' ∷ [];
      queries = (b'a' ∷ 1 ∷ codes "bc") ∷ [];
    })
unfolding packet_read
runs_on = refl

abbrev small : Grow
small = record { text = codes "ab"; size = 4; grow = 2 }

inject_lem_example : inject false (codes "cd") small ≡ inject true (codes "cd") small
inject_lem_example = (inject_lem (codes "cd") small (omega arith)).1 (omega arith)

joe-IsQuery : IsQuery (codes "Joe")
joe-IsQuery = ((ground arith, (ground arith, (ground arith, tt))), omega arith, omega arith)

packet_read-frames_example :
    packet_read (frames (codes "Joe" ∷ []) ++ (0 ∷ []))
    ≡ some (record { accepted = true; left = 0 ∷ []; queries = codes "joe" ∷ [] })
packet_read-frames_example = packet_read-frames (codes "Joe" ∷ []) (0 ∷ []) (joe-IsQuery, tt) refl
