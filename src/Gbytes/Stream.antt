-- ===== src/Gbytes/Stream.antt =====
-- Any sequence of calls of a buffer, against a stream: the bytes that are still to be read, and
-- whether it is closed.
use gomega.Base.{
  ℕ, zero, suc, ◌≡◌, refl, sym, ap, ◌∙◌, inl, inr, Bool, true, false, Option, none, some, List, [],
  ◌∷◌, ◌++◌, All, length, take, drop, arith, Bool-cases, Option-cases, ◌+◌, if◌then◌else◌, leb,
}
use gomega.Gbytes.{
  Buffer, Regexp, InRange, BufferError, write_closed, clear_closed, eof, write, read, clear, close,
  did_say, buffer_with_bytes,
}
use gomega.Gbytes.Laws.{
  IsValid, queue, write-queue, read-queue, unread-queue, length-drop, drop-drop,
}

pub data Call : Type 0 where
  writes : List ℕ → Call
  reads : ℕ → Call
  clears closes : Call
  says : Regexp → Call

pub data Answer : Type 0 where
  wrote : ℕ → Option BufferError → Answer
  gave : List ℕ → Option BufferError → Answer
  cleared : Option BufferError → Answer
  said : Bool → List ℕ → Answer
  done : Answer

-- One call on the buffer; `none` is a panic.
unfoldable pub call : Call → Buffer → Option (Buffer × Answer)
call (writes p) b = let (b', n, err) = write p b in some (b', wrote n err)
call (reads n) b = let (b', bytes, err) = read n b in some (b', gave bytes err)
call clears b = let (b', err) = clear b in some (b', cleared err)
call closes b = some (close b, done)
call (says re) b = elim (did_say re b) [
  | none ↦ none
  | some (b', hit, bytes) ↦ some (b', said hit bytes)
]

-- A sequence of calls: the buffer at its end, and every answer.
unfoldable pub session : List Call → Buffer → Option (Buffer × List Answer)
session [] b = some (b, [])
session (c ∷ cs) b = elim (call c b) [
  | none ↦ none
  | some (b1, a) ↦ elim (session cs b1) [ none ↦ none | some (b2, rest) ↦ some (b2, a ∷ rest) ]
]

pub record Stream : Type 0 where
  pub unread_bytes : List ℕ
  pub shut : Bool

abbrev at_end : List ℕ → Option BufferError
at_end [] = some eof
at_end (x ∷ xs) = none

abbrev pub promised : Call → Stream → Stream × Answer
promised (writes p) s =
    if s.shut
    then (s, wrote 0 (some write_closed))
    else (record s { unread_bytes = s.unread_bytes ++ p }, wrote (length p) none)
promised (reads n) s = (
  record s { unread_bytes = drop n s.unread_bytes },
  gave (take n s.unread_bytes) (at_end s.unread_bytes),
)
promised clears s =
    if s.shut
    then (s, cleared (some clear_closed))
    else (record s { unread_bytes = [] }, cleared none)
promised closes s = (record s { shut = true }, done)
promised (says re) s = elim (re s.unread_bytes) [
  | none ↦ (s, said false s.unread_bytes)
  | some (i, j) ↦ (record s { unread_bytes = drop j s.unread_bytes }, said true s.unread_bytes)
]

abbrev pub promised_all : List Call → Stream → Stream × List Answer
promised_all [] s = (s, [])
promised_all (c ∷ cs) s =
    let (s1, a) = promised c s in let (s2, rest) = promised_all cs s1 in (s2, a ∷ rest)

abbrev pub stream_of : Buffer → Stream
stream_of b = record { unread_bytes = queue b; shut = b.closed }

-- FindIndex of a call's expression stays in the slice.
abbrev pub Fits : Call → Type 0
Fits (writes p) = Unit
Fits (reads n) = Unit
Fits clears = Unit
Fits closes = Unit
Fits (says re) = InRange re

rest-take {ℓ} : {A : Type ℓ} (n : ℕ) (xs ys : List A) → xs ≡ take n xs ++ ys → ys ≡ drop n xs
rest-take zero xs ys h = sym h
rest-take (suc n) [] ys h = sym h
rest-take (suc n) (x ∷ xs) ys h = rest-take n xs ys (ap (drop 1) h)

at_end-length : (xs : List ℕ) → (if leb (length xs) 0 then some eof else none) ≡ at_end xs
at_end-length [] = refl
at_end-length (x ∷ xs) = ground arith

read-closed : (n : ℕ) (b : Buffer) → (read n b).0.closed ≡ b.closed
unfolding read
read-closed n b = ground arith

abbrev Keeps : Call → Buffer → Type 0
Keeps c b =
    (b' : Buffer) × (IsValid b')
    × (promised c (stream_of b) ≡ (stream_of b', (promised c (stream_of b)).1))
    × (call c b ≡ some (b', (promised c (stream_of b)).1))

call-Keeps : (c : Call) (b : Buffer) → Fits c → IsValid b → Keeps c b
unfolding call clear close write read did_say
call-Keeps (writes p) b f v =
    let (valid, q, n, err) = write-queue p b v in
    elim (Bool-cases b.closed) [
      | inl over ↦ (b, v, ground (arith, over), ground (arith, over))
      | inr going ↦ (
        record b { contents = b.contents ++ p },
        ground (arith, valid, going),
        ground (arith, q, going),
        ground (arith, going),
      )
    ]
call-Keeps (reads n) b f v =
    let (valid, q, bytes, same, err) = read-queue n b v in
    (
      (read n b).0,
      valid,
      cc (rest-take n (queue b) (queue (read n b).0) (q ∙ cc (bytes)), read-closed n b),
      cc (bytes, err, at_end-length (queue b)),
    )
call-Keeps clears b f v = elim (Bool-cases b.closed) [
  | inl over ↦ (b, v, ground (arith, over), ground (arith, over))
  | inr going ↦ (
    record b { contents = []; read_cursor = 0 },
    omega arith,
    ground (arith, going),
    ground (arith, going),
  )
]
call-Keeps closes b f v = (close b, v, refl, refl)
call-Keeps (says re) b f v = elim (Option-cases (re (queue b))) [
  | inl miss ↦ (b, v, ground (arith, miss), ground (arith, miss, unread-queue b v))
  | inr ((i, j), hit) ↦ (
    record b { read_cursor = b.read_cursor + j },
    omega (arith, (f (queue b) i j hit).1, length-drop b.read_cursor b.contents),
    ground (arith, hit, drop-drop b.read_cursor j b.contents),
    ground (arith, hit, unread-queue b v),
  )
]

session-cons :
    (c : Call) (cs : List Call) (b b1 b2 : Buffer) (a : Answer) (rest : List Answer)
    → call c b ≡ some (b1, a)
    → session cs b1 ≡ some (b2, rest)
    → session (c ∷ cs) b ≡ some (b2, a ∷ rest)
unfolding session
session-cons c cs b b1 b2 a rest e1 e2 = rw (session, e1, e2) refl

session-Keeps :
    (cs : List Call) (b : Buffer)
    → All Fits cs
    → IsValid b
    → (b' : Buffer) × (promised_all cs (stream_of b)
        ≡ (stream_of b', (promised_all cs (stream_of b)).1))
      × (session cs b ≡ some (b', (promised_all cs (stream_of b)).1))
unfolding session
session-Keeps [] b f v = (b, refl, refl)
session-Keeps (c ∷ cs) b (f, fs) v =
    let (b1, v1, s1, e1) = call-Keeps c b f v in
    let (b2, s2, e2) = session-Keeps cs b1 fs v1 in
    (b2, rw s1 (rw s2 refl), session-cons c cs b b1 b2 _ _ e1 e2 ∙ rw s1 refl)

-- Whatever writes, reads, clears, searches and closings are called on a buffer made with the given
-- bytes, none panics, and their counts, bytes, errors and results are those of a stream: a write
-- joins the end of the unread bytes, a read takes from their front and reports the end of the file
-- when there is none, a clear drops them, a search that hits drops them up to the end of the match,
-- and a closed stream refuses writes and clears but is still read and searched. At the end the
-- buffer has the stream's unread bytes. FindIndex stays within its slice.
pub session-promised :
    (bytes : List ℕ) (cs : List Call)
    → All Fits cs
    → let (s, answers) = promised_all cs (record { unread_bytes = bytes; shut = false }) in
      (b : Buffer) × (session cs (buffer_with_bytes bytes) ≡ some (b, answers)) × (s ≡ stream_of b)
unfolding buffer_with_bytes
session-promised bytes cs fits =
    let (b, s, e) = session-Keeps cs (buffer_with_bytes bytes) fits (omega arith) in
    (b, e, ap (λ r. r.0) s)
