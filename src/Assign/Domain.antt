-- ===== src/Assign/Domain.antt =====
-- vpopmail.c, `extract_domain`: the key by which the lines of a control file are put in order.
use vpopmail.Common.{
  ℕ, zero, suc, ◌+◌, ◌-◌, ◌≡◌, ◌≢◌, refl, ap, Bool, true, false, List, [], ◌∷◌, ◌++◌, Bytes, ◌==◌,
  leb, if◌then◌else◌, take, length, get_or,
}
use vpopmail.Assign.{max_buff}

unfoldable pub until_colon : Bytes → Bytes
until_colon [] = []
until_colon (c ∷ cs) = let rest = until_colon cs in if c == b':' then [] else c ∷ rest

abbrev pub all_but_last : Bytes → Bytes
all_but_last [] = []
all_but_last (c ∷ []) = []
all_but_last (c ∷ d ∷ cs) = c ∷ all_but_last (d ∷ cs)

-- Where the copy starts: in users/assign behind the first byte. `behind` is what follows the end of
-- the string in the buffer, where the code reads if the line is empty.
abbrev pub copied_from : Bool → Bytes → Bytes → Bytes
copied_from false behind line = until_colon (take max_buff line)
copied_from true behind [] = until_colon (take (max_buff - 1) behind)
copied_from true behind (c ∷ cs) = until_colon (take (max_buff - 1) cs)

-- In users/assign the last byte is taken off; if nothing was copied, `domain` keeps its `old` text.
abbrev pub cut_last : Bool → Bytes → Bytes → Bytes
cut_last false old copy = copy
cut_last true old [] = old
cut_last true old (c ∷ cs) = all_but_last (c ∷ cs)

abbrev add_token : Bytes → List Bytes → List Bytes
add_token [] rest = rest
add_token (x ∷ xs) rest = (x ∷ xs) ∷ rest

-- `strtok(tmpbuf, ".")` until the end.
unfoldable pub tokens : Bytes → Bytes → List Bytes
tokens token [] = add_token token []
tokens token (c ∷ cs) =
    let dot = c == b'.' in
    let rest = tokens (if dot then [] else token ++ (c ∷ [])) cs in
    if dot then add_token token rest else rest

abbrev set : List Bytes → ℕ → Bytes → List Bytes
set [] i x = []
set (p ∷ ps) zero x = x ∷ ps
set (p ∷ ps) (suc i) x = p ∷ set ps i x

-- `for (j = 0; j < i; j++) parts[j + 2] = parts[j]`, with `steps` rounds left.
unfoldable pub make_room : ℕ → ℕ → List Bytes → List Bytes
make_room zero j parts = parts
make_room (suc steps) j parts = make_room steps (suc j) (set parts (j + 2) (get_or parts j []))

abbrev pub join : List Bytes → Bytes
join [] = []
join (p ∷ []) = p
join (p ∷ q ∷ ps) = p ++ (b'.' ∷ join (q ∷ ps))

-- The last two parts come first; SORTTLD is off.
unfoldable pub juggle : List Bytes → Bytes
unfolding make_room
juggle parts =
    let i = length parts - 2 in
    let t = get_or parts (suc i) [] in
    let u = get_or parts i [] in join (set (set (make_room i 0 parts) 0 u) 1 t)

unfoldable pub reorder : Bytes → Bytes
unfolding juggle tokens
reorder domain =
    let parts = take 10 (tokens [] domain) in if leb 2 (length parts) then juggle parts else domain

-- `extract_domain`, with `file_type == 1` as a Boolean. The joined parts are taken to fit the buffer of
-- 300 bytes: what is destroyed where they do not is not modelled.
unfoldable pub extract_domain : Bool → Bytes → Bytes → Bytes → Bytes
unfolding reorder
extract_domain assign old behind line =
    reorder (cut_last assign old (copied_from assign behind line))

-- The line has a text in the place of the domain, so that its key depends on nothing else.
abbrev pub IsKeyed : Bool → Bytes → Type 0
IsKeyed false line = Unit
IsKeyed true line = copied_from true [] line ≢ []

unfoldable pub key : Bool → Bytes → Bytes
unfolding extract_domain
key assign line = extract_domain assign [] [] line

keeps_none : (old copy : Bytes) → copy ≢ [] → cut_last true old copy ≡ cut_last true [] copy
keeps_none old [] h = absurd (h refl)
keeps_none old (c ∷ cs) h = refl

pub extract_domain-key :
    (assign : Bool) (old behind line : Bytes)
    → IsKeyed assign line
    → extract_domain assign old behind line ≡ key assign line
unfolding key until_colon
extract_domain-key false old behind line h = refl
extract_domain-key true old behind [] h = absurd (h refl)
extract_domain-key true old behind (c ∷ cs) h =
    ap reorder (keeps_none old (copied_from true [] (c ∷ cs)) h)
