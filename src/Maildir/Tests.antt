-- ===== src/Maildir/Tests.antt =====
-- A quota with two parts, and a ledger with one entry to which another is added.
use vpopmail.Common.{
  ℕ, ◌≤◌, ◌<◌, ◌≡◌, ◌⊎◌, refl, true, false, List, [], ◌∷◌, ◌++◌, none, some, Bytes, codes, length,
  arith,
}
use vpopmail.Common.Int.{ℤ, pos, negsuc, ◌+ℤ◌}
use vpopmail.Common.Decimal.{print_int, print_nat}
use vpopmail.Quota.Parse.{bytes, messages, render}
use vpopmail.Maildir.{qcalc}
use vpopmail.Maildir.Limits.{SomeExceeds, qcalc_lem}
use vpopmail.Maildir.Ledger.{maildirsize_read, doaddquota, buffers}
use vpopmail.Maildir.Counting.{Tally, countcurnew}
use vpopmail.Maildir.Names.{Message, IsMessage, directory_of, countcurnew-messages}
use vpopmail.Maildir.Written.{work}
use vpopmail.Maildir.Totals.{
  ledger_text, sum_from, sizes, counts, entries_text, maildirsize_read-doaddquota,
}

qcalc_lem_example :
    (SomeExceeds (pos 900) 20 (bytes 1000) (messages 10 ∷ [])
      × (qcalc (pos 900) 20 (render (bytes 1000) (messages 10 ∷ [])) ≡ none))
    ⊎ ((¬ SomeExceeds (pos 900) 20 (bytes 1000) (messages 10 ∷ []))
        × ((k : ℕ) × (qcalc (pos 900) 20 (render (bytes 1000) (messages 10 ∷ [])) ≡ some k)
            × (k ≤ 100)))
qcalc_lem_example =
    qcalc_lem (pos 900) 20 (bytes 1000) (messages 10 ∷ []) (omega arith) (omega arith) (omega arith)

abbrev old : List (ℤ × ℤ)
old = (pos 500, pos 1) ∷ []

abbrev answers : List ℕ
answers = 3 ∷ 1 ∷ 2 ∷ 1 ∷ 1 ∷ 1 ∷ 1 ∷ 1 ∷ 1 ∷ 1 ∷ []

short_text : length (ledger_text (codes "1000S") (old ++ ((negsuc 119, pos 0) ∷ []))) < 5120
unfolding entries_text print_int print_nat
short_text = omega arith

enough : work (buffers false (codes "1000S") (negsuc 119) (pos 0)) ≤ length answers
unfolding print_int print_nat
enough = omega arith

maildirsize_read-doaddquota_example :
    (f : Bytes) × (doaddquota answers false
        (codes "1000S")
        (negsuc 119)
        (pos 0)
        (ledger_text (codes "1000S") old)
      ≡ some f)
    × (maildirsize_read (some f)
        ≡ some (record {
          size = sum_from (pos 0) (sizes old) +ℤ negsuc 119;
          count = sum_from (pos 0) (counts old) +ℤ pos 0;
          nlines = 2;
        }))
maildirsize_read-doaddquota_example =
    maildirsize_read-doaddquota answers (codes "1000S") (negsuc 119) (pos 0) old (ground arith)
      short_text (ground arith) enough (omega arith)

abbrev plain : Message
plain = record { base = codes "17.M2.host"; size = 1200; flags = codes "RS"; found = none }

abbrev trashed : Message
trashed = record { base = codes "18.M3.host"; size = 800; flags = codes "ST"; found = some 800 }

plain-IsMessage : IsMessage plain
plain-IsMessage = record {
  base_chars = ground arith;
  no_dot = refl;
  letters = ground arith;
  fits = omega arith;
}

trashed-IsMessage : IsMessage trashed
trashed-IsMessage = record {
  base_chars = ground arith;
  no_dot = refl;
  letters = ground arith;
  fits = omega arith;
}

abbrev zero_tally : Tally
zero_tally = record { stamp = 0; size = 0; count = 0 }

countcurnew-messages_example :
    countcurnew
      (record {
        fresh = some (directory_of 5 (plain ∷ []));
        seen = some (directory_of 7 (trashed ∷ plain ∷ []));
      })
      zero_tally
    ≡ (true, record { stamp = 7; size = 2400; count = 2 })
countcurnew-messages_example =
    countcurnew-messages 5 7 (plain ∷ []) (trashed ∷ plain ∷ []) zero_tally (plain-IsMessage, tt)
      (trashed-IsMessage, (plain-IsMessage, tt)) (omega arith) (omega arith)
