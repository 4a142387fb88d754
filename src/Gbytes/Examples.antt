-- ===== src/Gbytes/Examples.antt =====
-- Theorems on the buffer at concrete inputs.
use gomega.Base.{◌≡◌, refl, All, true, false, none, some, List, [], ◌∷◌, arith}
use gomega.Gbytes.{
  Buffer, Regexp, InRange, write, read, write_closed, clear_closed, eof, buffer_with_bytes,
}
use gomega.Gbytes.Stream.{
  Call, Fits, writes, reads, clears, closes, says, wrote, gave, cleared, said, done, session,
  promised_all, stream_of, session-promised,
}
use gomega.Gbytes.Detect.{
  Detector, found, Reach, here, next, written, was_read, IsSafe, Reach-IsSafe,
}

-- Three bytes, of which one is read.
abbrev part_read : Buffer
part_read = record { contents = 1 ∷ 2 ∷ 3 ∷ []; read_cursor = 1; detecting = true; closed = false }

-- The expression that matches one byte, whatever it is.
abbrev any_byte : Regexp
any_byte [] = none
any_byte (x ∷ xs) = some (0, 1)

any_byte-InRange : InRange any_byte
any_byte-InRange [] i j e = absurd (cc)
any_byte-InRange (x ∷ xs) i j e = ground arith

abbrev calls : List Call
calls =
    writes (1 ∷ 2 ∷ []) ∷ says any_byte ∷ reads 2 ∷ closes ∷ writes (3 ∷ []) ∷ clears ∷ reads 1 ∷ []

calls_answers :
    (promised_all calls (record { unread_bytes = 9 ∷ []; shut = false })).1
    ≡ wrote 2 none
      ∷ said true (9 ∷ 1 ∷ 2 ∷ [])
      ∷ gave (1 ∷ 2 ∷ []) none
      ∷ done
      ∷ wrote 0 (some write_closed)
      ∷ cleared (some clear_closed)
      ∷ gave [] (some eof)
      ∷ []
calls_answers = refl

calls_fit : All Fits calls
calls_fit = (tt, (any_byte-InRange, (tt, (tt, (tt, (tt, (tt, tt)))))))

session-promised_example :
    let (s, answers) = promised_all calls (record { unread_bytes = 9 ∷ []; shut = false }) in
    (b : Buffer) × (session calls (buffer_with_bytes (9 ∷ [])) ≡ some (b, answers))
    × (s ≡ stream_of b)
session-promised_example = session-promised (9 ∷ []) calls calls_fit

written_and_read :
    (d : Detector) → Reach any_byte part_read d (read 5 (write (4 ∷ []) part_read).0).0 d
written_and_read d = next (next here (written (4 ∷ []))) (was_read 5)

Reach-IsSafe_example : IsSafe (read 5 (write (4 ∷ []) part_read).0).0 (found 1 1)
Reach-IsSafe_example = Reach-IsSafe any_byte-InRange (written_and_read (found 1 1)) (omega arith)
