-- ===== src/Limits/Reader.antt =====
-- vlimits.c, `vlimits_read_limits_file`: the loop over the buffer of 2048 bytes.
-- The file is a regular one, so `read` returns as many bytes as are asked for or left. Then a line
-- is found incomplete, with the file still open, only in the first round or with the buffer full, so
-- that `memmove` moves nothing, and the state needs no offset: `pending` is the text from `t` on.
-- An empty file is read as one empty line (the source looks at a byte of the buffer that it never
-- set). `read` reports no error here.
pub mod Lines
use vpopmail.Common.{
  ℕ, zero, suc, ◌-◌, ◌+◌, ◌<◌, ◌≤◌, ◌≡◌, ◌≢◌, ◌∙◌, refl, ap, sym, Bool, true, false, not, ◌&&◌,
  ◌||◌, List, [], ◌∷◌, ◌++◌, Option, none, some, Bytes, ltb, leb, ◌==◌, if◌then◌else◌, take, drop,
  length, arith, All, Bool-cases, inl, inr, append-nil, append_assoc, take_all, length-take,
  length-drop,
}
use vpopmail.Limits.{Vlimits}
use vpopmail.Limits.Line.{parse_line}

abbrev pub buffer_size : ℕ
buffer_size = 2048

pub record Reader : Type 0 where
  pub pending : Bytes
  pub in_bytes : ℕ
  pub fd_open : Bool
  pub unread : Bytes
  pub limits : Vlimits

-- `read`, or the close at the end of the file.
abbrev receive : Bytes → Reader → Reader
receive [] r = record r { fd_open = false }
receive (c ∷ cs) r = record r {
  pending = r.pending ++ c ∷ cs;
  in_bytes = r.in_bytes + length (c ∷ cs);
  unread = drop (length (c ∷ cs)) r.unread;
}

unfoldable pub refill : Reader → Reader
refill r =
    if r.fd_open && ltb r.in_bytes buffer_size
    then receive (take (buffer_size - r.in_bytes) r.unread) r
    else r

-- The search for the next line break, which a NUL also ends. The option is the text behind the break.
unfoldable pub scan : Bytes → Bytes × Option Bytes
scan [] = ([], none)
scan (c ∷ cs) =
    let (line, rest) = scan cs in
    if c == 0
    then ([], none)
    else if c == b'\r' || c == b'\n'
    then ([], some cs)
    else (c ∷ line, rest)

pub data Outcome : Type 0 where
  again : Reader → Outcome
  done : Vlimits → Outcome

-- One round, after `read`.
unfoldable pub take_line : Bytes × Option Bytes → Reader → Outcome
take_line (line, some rest) r =
    again (record r { pending = rest; limits = parse_line line r.limits })
take_line (line, none) r =
    if r.fd_open
    then (if leb buffer_size r.in_bytes
        then done r.limits
        else again (record r { pending = line; in_bytes = length line }))
    else done (parse_line line r.limits)

unfoldable pub round : Reader → Outcome
unfolding refill scan take_line
round r = let s = refill r in take_line (scan s.pending) s

-- The loop, with fuel; `none` means that the fuel ran out.
unfoldable pub run : ℕ → Reader → Option Vlimits
unfolding round
run zero r = none
run (suc fuel) r = elim (round r) [ again s ↦ run fuel s | done l ↦ some l ]

-- `none` on the left is a file that cannot be opened; the result `none` is the return value -1.
unfoldable pub read_limits_file : Option Bytes → Vlimits → Option Vlimits
unfolding run
read_limits_file none l = none
read_limits_file (some text) l =
    run (length text + length text + 3)
      (record { pending = []; in_bytes = 0; fd_open = true; unread = text; limits = l })
