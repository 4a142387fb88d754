-- ===== src/Gbytes.antt =====
-- gbytes/buffer.go and gbytes/say_matcher.go. Each method holds the buffer's lock from its first line
-- to its return, so a method is one step; only Detect's goroutine takes two (Gbytes/Detect). The
-- cursor is bounded by the length of a slice, so its uint64 arithmetic does not wrap. A compiled
-- regular expression is its FindIndex, a parameter.
pub mod Laws
pub mod Stream
pub mod Detect
mod Examples
use gomega.Base.{
  ℕ, ◌+◌, ◌≤◌, ◌<◌, ◌≡◌, Bool, true, false, not, Option, none, some, List, [], ◌++◌, if◌then◌else◌,
  leb, ltb, length, take, drop,
}

pub record Buffer : Type 0 where
  pub contents : List ℕ
  pub read_cursor : ℕ
  -- `detectCloser != nil`.
  pub detecting : Bool
  pub closed : Bool

-- FindIndex on a slice: `none` is nil, and `some (from, to)` a match.
abbrev pub Regexp : Type 0
Regexp = List ℕ → Option (ℕ × ℕ)

-- The documented range of FindIndex.
abbrev pub InRange : Regexp → Type 0
InRange re = (bytes : List ℕ) (i j : ℕ) → re bytes ≡ some (i, j) → (i ≤ j) × (j ≤ length bytes)

pub data BufferError : Type 0 where
  write_closed clear_closed eof : BufferError

unfoldable pub buffer_with_bytes : List ℕ → Buffer
buffer_with_bytes bytes = record {
  contents = bytes;
  read_cursor = 0;
  detecting = false;
  closed = false;
}

unfoldable pub new_buffer : Buffer
unfolding buffer_with_bytes
new_buffer = buffer_with_bytes []

-- Write: the buffer, the count and the error.
unfoldable pub write : List ℕ → Buffer → Buffer × ℕ × Option BufferError
write p b =
    if b.closed
    then (b, 0, some write_closed)
    else (record b { contents = b.contents ++ p }, length p, none)

-- Read into a slice of n bytes: the buffer, the bytes copied and the error. A cursor beyond the
-- contents also reads as the end of the file.
unfoldable pub read : ℕ → Buffer → Buffer × List ℕ × Option BufferError
read n b =
    if leb (length b.contents) b.read_cursor
    then (b, [], some eof)
    else let copied = take n (drop b.read_cursor b.contents) in
      (record b { read_cursor = b.read_cursor + length copied }, copied, none)

unfoldable pub clear : Buffer → Buffer × Option BufferError
clear b =
    if b.closed then (b, some clear_closed) else (record b { contents = []; read_cursor = 0 }, none)

unfoldable pub close : Buffer → Buffer
close b = record b { closed = true }

-- `b.contents[b.readCursor:]`: `none` is the panic of a cursor out of range.
unfoldable pub unread : Buffer → Option (List ℕ)
unread b =
    if leb b.read_cursor (length b.contents) then some (drop b.read_cursor b.contents) else none

-- didSay: the buffer, whether it said so, and the copy of the unread bytes; `none` is a panic.
unfoldable pub did_say : Regexp → Buffer → Option (Buffer × Bool × List ℕ)
unfolding unread
did_say re b = elim (unread b) [
  | none ↦ none
  | some bytes ↦ elim (re bytes) [
    | none ↦ some (b, false, bytes)
    | some (i, j) ↦ some (record b { read_cursor = b.read_cursor + j }, true, bytes)
  ]
]

-- CancelDetects closes `detectCloser`: a panic where it is nil.
unfoldable pub cancel_detects : Buffer → Option Buffer
cancel_detects b = if b.detecting then some (record b { detecting = false }) else none

-- sayMatcher.MatchMayChangeInTheFuture on a buffer.
unfoldable pub say_may_change : Buffer → Bool
say_may_change b = not b.closed
