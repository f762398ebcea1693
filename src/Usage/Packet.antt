-- ===== src/Usage/Packet.antt =====
-- vusaged/packet.c, `packet_read`, and what vusaged/query.c, `query_parse`, does with a packet.
-- A packet is a length of two bytes, the high one first, and as many bytes. `query_parse` gets the
-- length but looks for the end of the string instead; what it answers is left out.
use vpopmail.Common.{
  ℕ, zero, suc, ◌+◌, ◌*◌, Bool, true, false, List, [], ◌∷◌, Option, none, some, Bytes, ltb, ◌==◌,
  if◌then◌else◌, length, drop,
}
use vpopmail.Email.{to_lower}

-- `for (p = data; *p; p++)`: letters up to the first NUL are put in lower case.
unfoldable pub lower_text : Bytes → Bytes
lower_text [] = []
lower_text (c ∷ cs) = let rest = lower_text cs in if c == 0 then c ∷ cs else to_lower c ∷ rest

-- The C string at the start of the bytes; behind the last of them the buffer has a NUL.
unfoldable pub c_string : Bytes → Bytes
c_string [] = []
c_string (c ∷ cs) = let rest = c_string cs in if c == 0 then [] else c ∷ rest

-- How a round of the loop ends.
pub data Round : Type 0 where
  waiting too_large : Round
  empty : Bytes → Round
  query : Bytes → Bytes → Round

-- A packet of `qlen` bytes, with the string that is looked up and what is left behind it.
unfoldable pub packet : ℕ → Bytes → Round
unfolding lower_text c_string
packet qlen rest =
    if qlen == 0
    then empty rest
    else if ltb 1024 qlen
    then too_large
    else if ltb (length rest) qlen
    then waiting
    else query (c_string (lower_text rest)) (drop qlen (lower_text rest))

-- One round on the bytes in the buffer.
unfoldable pub round : Bytes → Round
unfolding packet
round [] = waiting
round (_ ∷ []) = waiting
round (hi ∷ lo ∷ rest) = packet (hi * 256 + lo) rest

-- The answer of `packet_read`, what is left in the buffer, and the strings that were looked up.
pub record Read : Type 0 where
  pub accepted : Bool
  pub left : Bytes
  pub queries : List Bytes

abbrev pub add_query : Bytes → Option Read → Option Read
add_query q none = none
add_query q (some r) = some (record r { queries = q ∷ r.queries })

abbrev pub after : Round → Bytes → (Bytes → Option Read) → Option Read
after waiting buffer next = some (record { accepted = true; left = buffer; queries = [] })
after too_large buffer next = some (record { accepted = false; left = buffer; queries = [] })
after (empty rest) buffer next = next rest
after (query q rest) buffer next = add_query q (next rest)

-- The loop, with fuel.
unfoldable pub run : ℕ → Bytes → Option Read
unfolding round
run zero buffer = none
run (suc fuel) buffer = after (round buffer) buffer (run fuel)

-- `packet_read`. Every round but the last takes at least two bytes.
unfoldable pub packet_read : Bytes → Option Read
unfolding run
packet_read buffer = run (suc (length buffer)) buffer
