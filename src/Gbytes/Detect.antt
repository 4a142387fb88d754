-- ===== src/Gbytes/Detect.antt =====
-- Detect: the goroutine looks at the unread bytes under the lock, gives the lock up to send on its
-- channel, and takes it again to advance the cursor. Other calls come in between.
use mathlib.Core.Path.{subst}
use gomega.Base.{
  ap, ℕ, ◌+◌, ◌≤◌, ◌<◌, ◌≡◌, inl, inr, Bool, false, Option, none, some, List, length, length-append,
  arith, leb, Option-cases, if◌then◌else◌,
}
use gomega.Gbytes.{Buffer, Regexp, InRange, write, read, clear, close, unread, did_say}
use gomega.Gbytes.Laws.{
  IsValid, queue, unread-queue, write-queue, read-queue, did_say-queue, length-drop,
}

-- A goroutine that still looks, one between its two locked sections with the cursor that it copied
-- and the end of its match, and one that has returned.
pub data Detector : Type 0 where
  looking : Detector
  found : ℕ → ℕ → Detector
  returned : Detector

-- The ticker's case. `none` is the panic of the slice expression.
unfoldable pub look : Regexp → Buffer → Option Detector
look re b = elim (unread b) [
  | none ↦ none
  | some data_read ↦ elim (re data_read) [
    | none ↦ some looking
    | some (i, j) ↦ some (found b.read_cursor j)
  ]
]

-- The second locked section.
unfoldable pub advance : ℕ → ℕ → Buffer → Buffer
advance cursor j b =
    let position = cursor + j in
    if leb b.read_cursor position then record b { read_cursor = position } else b

-- One step of the goroutine, or of a caller that does not clear the buffer.
pub data Step (re : Regexp) : Buffer → Detector → Buffer → Detector → Type 0 where
  looks : {b : Buffer} {d : Detector} → look re b ≡ some d → Step re b looking b d
  advances : {b : Buffer} {cursor j : ℕ} → Step re b (found cursor j) (advance cursor j b) returned
  cancelled : {b : Buffer} → Step re b looking b returned
  written : {b : Buffer} {d : Detector} (p : List ℕ) → Step re b d (write p b).0 d
  was_read : {b : Buffer} {d : Detector} (n : ℕ) → Step re b d (read n b).0 d
  says :
      {b b' : Buffer} {d : Detector} {said : Bool} {bytes : List ℕ} (other : Regexp)
      → InRange other
      → did_say other b ≡ some (b', said, bytes)
      → Step re b d b' d
  was_closed : {b : Buffer} {d : Detector} → Step re b d (close b) d

pub data Reach (re : Regexp) (b : Buffer) (d : Detector) : Buffer → Detector → Type 0 where
  here : Reach re b d b d
  next :
      {b1 b2 : Buffer} {d1 d2 : Detector}
      → Reach re b d b1 d1
      → Step re b1 d1 b2 d2
      → Reach re b d b2 d2

-- The match that a goroutine carries ends within the contents.
abbrev pub Fits : Detector → Buffer → Type 0
Fits looking b = Unit {0}
Fits (found cursor j) b = cursor + j ≤ length b.contents
Fits returned b = Unit {0}

abbrev pub IsSafe : Buffer → Detector → Type 0
IsSafe b d = IsValid b × Fits d b

Fits-mono :
    (d : Detector) (b b' : Buffer) → length b.contents ≤ length b'.contents → Fits d b → Fits d b'
Fits-mono looking b b' h f = tt
Fits-mono (found cursor j) b b' h f = omega arith
Fits-mono returned b b' h f = tt

look-Fits :
    (re : Regexp) (b : Buffer) (d : Detector)
    → InRange re
    → IsValid b
    → look re b ≡ some d
    → Fits d b
unfolding look
look-Fits re b d range v h = elim (Option-cases (re (queue b))) [
  | inl miss ↦
      let same_state : looking ≡ d = ground (arith, unread-queue b v) in
      subst (λ x. Fits x b) same_state tt
  | inr ((i, j), hit) ↦
      let same_state : found b.read_cursor j ≡ d = ground (arith, unread-queue b v) in
      subst (λ x. Fits x b) same_state
        (omega (arith, (range (queue b) i j hit).1, length-drop b.read_cursor b.contents))
]

length-write : (p : List ℕ) (b : Buffer) → length b.contents ≤ length (write p b).0.contents
unfolding write
length-write p b = ground (arith, length-append b.contents p)

advance-IsValid :
    (cursor j : ℕ) (b : Buffer)
    → cursor + j ≤ length b.contents
    → IsValid b
    → IsValid (advance cursor j b)
unfolding advance
advance-IsValid cursor j b f v = ground arith

did_say-IsSafe :
    (re : Regexp) (b b' : Buffer) (d : Detector) {said : Bool} {bytes : List ℕ}
    → InRange re
    → did_say re b ≡ some (b', said, bytes)
    → IsSafe b d
    → IsSafe b' d
did_say-IsSafe re b b' d range e (v, f) =
    let (after, said, e', v', kept, _) = did_say-queue re b range v in
    let same_buffer : after ≡ b' = ground (arith, e, e') in
    subst (λ x. IsSafe x d) same_buffer (v', Fits-mono d b after (omega (arith, ap length kept)) f)

Step-IsSafe :
    {re : Regexp} {b b' : Buffer} {d d' : Detector}
    → InRange re
    → Step re b d b' d'
    → IsSafe b d
    → IsSafe b' d'
Step-IsSafe {re} {b} {b'} {d} {d'} range (looks e) s = (s.0, look-Fits re b d' range s.0 e)
Step-IsSafe range (advances {b = b} {cursor = cursor} {j = j}) s =
    (advance-IsValid cursor j b s.1 s.0, tt)
Step-IsSafe range cancelled s = (s.0, tt)
Step-IsSafe {re} {b} {b'} {d} range (written p) s =
    ((write-queue p b s.0).0, Fits-mono d b (write p b).0 (length-write p b) s.1)
Step-IsSafe {re} {b} {b'} {d} range (was_read n) s =
    let (v, _, _, kept, _) = read-queue n b s.0 in
    (v, Fits-mono d b (read n b).0 (omega (arith, ap length kept)) s.1)
Step-IsSafe {re} {b} {b'} {d} range (says other r e) s = did_say-IsSafe other b b' d r e s
Step-IsSafe {re} {b} {b'} {d} range was_closed s =
    (unfold close in s.0, Fits-mono d b (close b) (unfold close in omega arith) s.1)

-- However the goroutine of a Detect and the other calls interleave, Clear left out, the cursor stays
-- within the contents, so that no slice expression of the buffer panics.
pub Reach-IsSafe :
    {re : Regexp} {b : Buffer} {d : Detector} {b' : Buffer} {d' : Detector}
    → InRange re
    → Reach re b d b' d'
    → IsSafe b d
    → IsSafe b' d'
Reach-IsSafe range here s = s
Reach-IsSafe range (next r st) s = Step-IsSafe range st (Reach-IsSafe range r s)

advance-cursor : (cursor j : ℕ) (b : Buffer) → b.read_cursor ≤ (advance cursor j b).read_cursor
unfolding advance
advance-cursor cursor j b = ground arith

read-cursor : (n : ℕ) (b : Buffer) → b.read_cursor ≤ (read n b).0.read_cursor
unfolding read
read-cursor n b = ground arith

did_say-cursor :
    (re : Regexp) (b b' : Buffer) (said : Bool) (bytes : List ℕ)
    → did_say re b ≡ some (b', said, bytes)
    → b.read_cursor ≤ b'.read_cursor
unfolding did_say
did_say-cursor re b b' said bytes e = ground arith

write-cursor : (p : List ℕ) (b : Buffer) → (write p b).0.read_cursor ≡ b.read_cursor
unfolding write
write-cursor p b = ground arith

Step-cursor :
    {re : Regexp} {b b' : Buffer} {d d' : Detector}
    → Step re b d b' d'
    → b.read_cursor ≤ b'.read_cursor
unfolding close
Step-cursor (looks e) = omega arith
Step-cursor (advances {b = b} {cursor = cursor} {j = j}) = advance-cursor cursor j b
Step-cursor cancelled = omega arith
Step-cursor {re} {b} (written p) = omega (arith, write-cursor p b)
Step-cursor {re} {b} (was_read n) = read-cursor n b
Step-cursor {re} {b} {b'} (says {said = said} {bytes = bytes} other r e) =
    did_say-cursor other b b' said bytes e
Step-cursor was_closed = omega arith

-- Nor does the cursor ever go back.
pub Reach-cursor :
    {re : Regexp} {b : Buffer} {d : Detector} {b' : Buffer} {d' : Detector}
    → Reach re b d b' d'
    → b.read_cursor ≤ b'.read_cursor
Reach-cursor here = omega arith
Reach-cursor (next r st) = omega (arith, Step-cursor st, Reach-cursor r)

-- A Clear between the two locked sections: the goroutine moves the cursor beyond the emptied
-- contents, and from then on Say panics, as it does after a write that stays short of the cursor.
pub clear_during_detect :
    (re other : Regexp) (b : Buffer) (i j : ℕ) (p : List ℕ)
    → IsValid b
    → b.closed ≡ false
    → re (queue b) ≡ some (i, j)
    → length p < b.read_cursor + j
    → (look re b ≡ some (found b.read_cursor j))
      × (did_say other (write p (advance b.read_cursor j (clear b).0)).0 ≡ none)
unfolding look did_say clear advance write
clear_during_detect re other b i j p v opened hit short =
    (ground (arith, unread-queue b v), ground arith)
