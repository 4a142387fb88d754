-- ===== src/Gbytes/Laws.antt =====
-- The buffer as a queue of unread bytes: writes go to its end, reads and matches take from its front.
use gomega.Base.{
  ℕ, zero, suc, ◌+◌, ◌-◌, ◌≤◌, ◌≡◌, refl, sym, ◌∙◌, ap, inl, inr, ◌⊎◌, Bool, true, false, none,
  some, List, [], ◌∷◌, ◌++◌, length, take, drop, length-append, arith, leb, Bool-cases,
  Option-cases, if◌then◌else◌,
}
use gomega.Gbytes.{Buffer, Regexp, InRange, write_closed, eof, write, read, unread, did_say}

abbrev pub IsValid : Buffer → Type 0
IsValid b = b.read_cursor ≤ length b.contents

module _ {ℓ} {A : Type ℓ} where
  drop-append : (n : ℕ) (xs ys : List A) → n ≤ length xs → drop n (xs ++ ys) ≡ drop n xs ++ ys
  drop-append zero xs ys h = refl
  drop-append (suc n) [] ys h = absurd (omega arith)
  drop-append (suc n) (x ∷ xs) ys h = drop-append n xs ys (omega arith)

  drop-nil : (n : ℕ) → drop {A = A} n [] ≡ []
  drop-nil zero = refl
  drop-nil (suc n) = refl

  pub drop-drop : (n m : ℕ) (xs : List A) → drop m (drop n xs) ≡ drop (n + m) xs
  drop-drop zero m xs = ap (λ k. drop k xs) (omega arith)
  drop-drop (suc n) m [] = drop-nil m ∙ sym (drop-nil (suc n + m))
  drop-drop (suc n) m (x ∷ xs) =
      drop-drop n m xs ∙ ap (λ k. drop k (x ∷ xs)) {x = suc (n + m)} (omega arith)

  pub length-drop : (n : ℕ) (xs : List A) → length (drop n xs) ≡ length xs - n
  length-drop zero xs = omega arith
  length-drop (suc n) [] = omega arith
  length-drop (suc n) (x ∷ xs) = omega (arith, length-drop n xs)

  drop-all : (n : ℕ) (xs : List A) → length xs ≤ n → drop n xs ≡ []
  drop-all zero [] h = refl
  drop-all zero (x ∷ xs) h = absurd (omega arith)
  drop-all (suc n) [] h = refl
  drop-all (suc n) (x ∷ xs) h = drop-all n xs (omega arith)

  take-nil : (n : ℕ) → take {A = A} n [] ≡ []
  take-nil zero = refl
  take-nil (suc n) = refl

  take-append-drop : (n : ℕ) (xs : List A) → xs ≡ take n xs ++ drop (length (take n xs)) xs
  take-append-drop zero xs = refl
  take-append-drop (suc n) [] = refl
  take-append-drop (suc n) (x ∷ xs) = ap (◌∷◌ x) (take-append-drop n xs)

  length-take-le : (n : ℕ) (xs : List A) → length (take n xs) ≤ length xs
  length-take-le zero xs = omega arith
  length-take-le (suc n) [] = omega arith
  length-take-le (suc n) (x ∷ xs) = omega (arith, length-take-le n xs)

-- The bytes that are still to be read.
abbrev pub queue : Buffer → List ℕ
queue b = drop b.read_cursor b.contents

-- With the cursor in range `b.contents[b.readCursor:]` is that queue, and does not panic.
pub unread-queue : (b : Buffer) → IsValid b → unread b ≡ some (queue b)
unfolding unread
unread-queue b v = ground arith

-- A write to an open buffer appends to the queue; to a closed one it changes nothing and says so.
pub write-queue :
    (p : List ℕ) (b : Buffer)
    → IsValid b
    → let (b', n, err) = write p b in
      IsValid b'
      × (queue b' ≡ (if b.closed then queue b else queue b ++ p))
      × (n ≡ (if b.closed then 0 else length p))
      × (err ≡ (if b.closed then some write_closed else none))
unfolding write
write-queue p b v = elim (Bool-cases b.closed) [
  | inl shut ↦ rw shut (v, refl, refl, refl)
  | inr opened ↦ rw opened (
    omega (arith, length-append b.contents p),
    drop-append b.read_cursor b.contents p v,
    refl,
    refl,
  )
]

-- A read takes its bytes from the front of the queue, in order, and reports the end of the file
-- exactly when the queue is empty.
pub read-queue :
    (n : ℕ) (b : Buffer)
    → IsValid b
    → let (b', bytes, err) = read n b in
      IsValid b'
      × (queue b ≡ bytes ++ queue b')
      × (bytes ≡ take n (queue b))
      × (b'.contents ≡ b.contents)
      × (err ≡ (if leb (length (queue b)) 0 then some eof else none))
unfolding read
read-queue n b v = elim (Bool-cases (leb (length b.contents) b.read_cursor)) [
  | inl over ↦
      let none_left = drop-all b.read_cursor b.contents (ground arith) in
      rw (over, none_left) (v, refl, sym (take-nil n), refl, refl)
  | inr more ↦
      let copied = take n (queue b) in
      let left = length-drop b.read_cursor b.contents in
      rw more (
        omega (arith, left, length-take-le n (queue b)),
        take-append-drop n (queue b)
            ∙ ap (◌++◌ copied) (drop-drop b.read_cursor (length copied) b.contents),
        refl,
        refl,
        ground (arith, left),
      )
]

-- didSay never panics while the cursor is in range. On a match the queue loses everything up to the
-- end of the match, and otherwise the buffer stays; either way it hands back the whole queue.
pub did_say-queue :
    (re : Regexp) (b : Buffer)
    → InRange re
    → IsValid b
    → (b' : Buffer) × (said : Bool) × (did_say re b ≡ some (b', said, queue b))
      × IsValid b'
      × (b'.contents ≡ b.contents)
      × (((re (queue b) ≡ none) × (said ≡ false) × (b' ≡ b))
          ⊎ ((i : ℕ) × (j : ℕ) × (re (queue b) ≡ some (i, j))
              × (said ≡ true)
              × (queue b' ≡ drop j (queue b))))
unfolding did_say
did_say-queue re b range v = elim (Option-cases (re (queue b))) [
  | inl miss ↦ (b, false, ground (arith, unread-queue b v, miss), v, refl, inl (miss, refl, refl))
  | inr ((i, j), hit) ↦ (
    record b { read_cursor = b.read_cursor + j },
    true,
    ground (arith, unread-queue b v, hit),
    omega (arith, (range (queue b) i j hit).1, length-drop b.read_cursor b.contents),
    refl,
    inr (i, j, hit, refl, sym (drop-drop b.read_cursor j b.contents)),
  )
]
