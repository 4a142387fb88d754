-- ===== src/Table/Words.antt =====
-- How long the lines are that a text is broken into.
use mathlib.Core.Path.{subst}
use gomega.Base.{
  ℕ, suc, ◌+◌, ◌-◌, ◌≡◌, ◌≤◌, ◌<◌, ◌⊎◌, inl, inr, refl, sym, ap, ◌∙◌, ◌==◌, ltb, leb, some, List,
  [], ◌∷◌, ◌++◌, if◌then◌else◌, length, length-append, arith, Bool-cases, All, All-append,
  All-weaken,
}
use gomega.Table.{
  Text, ◌>>=◌, split, join, split_word, split_last, place_word, add_word, add_words, fill_lines,
  split_to_width, split_all,
}

-- Lines of a length, or of at most a length.
abbrev pub IsLong : ℕ → Text → Type 0
IsLong n l = length l ≡ n

abbrev pub Fits : ℕ → Text → Type 0
Fits n l = length l ≤ n

-- A word that is no longer than the width, or a width that a word can be broken to.
abbrev pub HasRoom : ℕ → Text → Type 0
HasRoom width word = (2 ≤ width) ⊎ (length word ≤ width)

pub split_word-IsLong :
    (width n : ℕ) (sub s : Text)
    → 2 ≤ width
    → length sub ≡ n
    → n + 1 < width
    → All (IsLong width) (split_word width n sub s)
split_word-IsLong width n sub [] wide same below = tt
split_word-IsLong width n sub (c ∷ s) wide same below = elim (Bool-cases (suc n == width - 1)) [
  | inl hit ↦
      let piece : length ((sub ++ c ∷ []) ++ 45 ∷ []) ≡ width =
        length-append (sub ++ c ∷ []) (45 ∷ [])
        ∙ (ap (λ k. k + 1) (length-append sub (c ∷ [])) ∙ ground (arith, hit, same)) in
      rw hit (piece, split_word-IsLong width 0 [] s wide refl (omega (arith, wide)))
  | inr miss ↦ rw miss (
      split_word-IsLong width (suc n) (sub ++ c ∷ []) s wide
        (length-append sub (c ∷ []) ∙ omega (arith, same)) (ground (arith, miss, below)))
]

-- A long word has a piece.
split_word-nonempty :
    (width n : ℕ) (sub s : Text)
    → n + 1 < width
    → width ≤ n + length s + 1
    → (w : Text) × (ws : List Text) × (split_word width n sub s ≡ w ∷ ws)
split_word-nonempty width n sub [] below long = absurd (omega (arith, below, long))
split_word-nonempty width n sub (c ∷ s) below long = elim (Bool-cases (suc n == width - 1)) [
  | inl hit ↦ (
    (sub ++ c ∷ []) ++ 45 ∷ [],
    split_word width 0 [] s,
    ap
        (λ b.
          if b
          then ((sub ++ c ∷ []) ++ 45 ∷ [])
            ∷ split_word width (if b then 0 else suc n) (if b then [] else sub ++ c ∷ []) s
          else split_word width (if b then 0 else suc n) (if b then [] else sub ++ c ∷ []) s)
        hit,
  )
  | inr miss ↦
      let (w, ws, found) =
        split_word-nonempty width (suc n) (sub ++ c ∷ []) s (ground (arith, miss, below))
          (omega (arith, long)) in
      (
        w,
        ws,
        ap
              (λ b.
                if b
                then ((sub ++ c ∷ []) ++ 45 ∷ [])
                  ∷ split_word width (if b then 0 else suc n) (if b then [] else sub ++ c ∷ []) s
                else split_word width (if b then 0 else suc n) (if b then [] else sub ++ c ∷ []) s)
              miss
            ∙ found,
      )
]

split_last-All :
    {P : Text → Type 0} (w : Text) (ws : List Text)
    → All P (w ∷ ws)
    → (ls : List Text) × (l : Text) × (split_last (w ∷ ws) ≡ some (ls, l)) × All P ls × P l
split_last-All w [] (p, h) = ([], w, refl, tt, p)
split_last-All w (v ∷ ws) (p, h) =
    let (ls, l, found, all, last) = split_last-All v ws h in
    (w ∷ ls, l, ground (arith, found), (p, all), last)

place_word-Fits :
    (width : ℕ) (word : Text)
    → HasRoom width word
    → (ls : List Text) × (l : Text) × (place_word width word ≡ some (ls, l))
      × All (Fits width) ls
      × Fits width l
unfolding place_word
place_word-Fits width word room = elim (Bool-cases (ltb width (length word))) [
  | inr short ↦ ([], word, ground (arith, short), tt, ground (arith, short))
  | inl long ↦ elim room [
    | inr small ↦ absurd (ground (arith, long, small))
    | inl wide ↦
        let (w, ws, found) =
          split_word-nonempty width 0 [] word (omega (arith, wide)) (ground (arith, long)) in
        let pieces = split_word-IsLong width 0 [] word wide refl (omega (arith, wide)) in
        let (ls, l, parts, all, last) = split_last-All {P = Fits width} w ws (
          All-weaken (IsLong width) (Fits width) (w ∷ ws) (λ x same. omega (arith, same))
            (subst (All (IsLong width)) found pieces)) in
        (
          ls,
          l,
          ap (λ b. if b then split_last (split_word width 0 [] word) else some ([], word)) long
              ∙ (ap split_last found ∙ parts),
          all,
          last,
        )
  ]
]

join-add :
    (x : Text) (xs : List Text) (w : Text)
    → length (join ((x ∷ xs) ++ w ∷ [])) ≡ length (join (x ∷ xs)) + (length w + 1)
join-add x [] w = length-append x (32 ∷ w) ∙ omega arith
join-add x (y ∷ xs) w =
    length-append x (32 ∷ join ((y ∷ xs) ++ w ∷ []))
    ∙ (ap (λ k. length x + suc k) (join-add y xs w)
        ∙ omega (arith, length-append x (32 ∷ join (y ∷ xs))))

-- The lines that a further word ends, and the words of the line after it.
abbrev Added : ℕ → List Text × List Text × ℕ → Type 0
Added width (ls, out, n) =
    All (Fits width) ls
    × (x : Text) × (xs : List Text) × (out ≡ x ∷ xs)
    × (length (join out) ≡ n)
    × (n ≤ width)

add_word-Added :
    (width : ℕ) (x : Text) (xs : List Text) (n : ℕ) (word : Text)
    → length (join (x ∷ xs)) ≡ n
    → n ≤ width
    → HasRoom width word
    → (r : List Text × List Text × ℕ) × (add_word width (x ∷ xs) n word ≡ some r) × Added width r
unfolding add_word
add_word-Added width x xs n word same below room =
    elim (Bool-cases (leb (n + length word + 1) width)) [
      | inl fits ↦ (
        ([], (x ∷ xs) ++ word ∷ [], n + (length word + 1)),
        ground (arith, fits),
        (
          tt,
          x,
          xs ++ word ∷ [],
          refl,
          join-add x xs word ∙ ap (λ k. k + (length word + 1)) same,
          ground (arith, fits),
        ),
      )
      | inr full ↦
          let (ls, l, placed, all, last) = place_word-Fits width word room in
          (
            (join (x ∷ xs) ∷ ls, l ∷ [], length l),
            ground (arith, full, placed),
            ((omega (arith, same, below), all), l, [], refl, refl, last),
          )
    ]

add_words-Fits :
    (width : ℕ) (x : Text) (xs : List Text) (n : ℕ) (words : List Text)
    → length (join (x ∷ xs)) ≡ n
    → n ≤ width
    → All (HasRoom width) words
    → (ls : List Text) × (add_words width (x ∷ xs) n words ≡ some ls) × All (Fits width) ls
unfolding add_words
add_words-Fits width x xs n [] same below room =
    (join (x ∷ xs) ∷ [], refl, (omega (arith, same, below), tt))
add_words-Fits width x xs n (word ∷ words) same below (here, there) =
    let ((ls, out, n'), added, (all, y, ys, shape, same', below')) =
      add_word-Added width x xs n word same below here in
    let (rest, done, all') =
      add_words-Fits width y ys n' words (ap (λ o. length (join o)) (sym shape) ∙ same') below'
        there in
    (
      ls ++ rest,
      ap (λ o. o >>= (λ r. add_words width r.1 r.2 words >>= (λ rest'. some (r.0 ++ rest')))) added
          ∙ ap (λ o. o >>= (λ rest'. some (ls ++ rest')))
              (ap (λ o. add_words width o n' words) shape ∙ done),
      All-append (Fits width) ls rest all all',
    )

fill_lines-Fits :
    (width : ℕ) (word : Text) (words : List Text)
    → All (HasRoom width) (word ∷ words)
    → (ls : List Text) × (fill_lines width (word ∷ words) ≡ some ls) × All (Fits width) ls
fill_lines-Fits width word words (here, there) =
    let (ls, l, placed, all, last) = place_word-Fits width word here in
    let (rest, done, all') = add_words-Fits width l [] (length l) words refl last there in
    (ls ++ rest, ground (arith, placed, done), All-append (Fits width) ls rest all all')

pub split-nonempty : (sep : ℕ) (s : Text) → (w : Text) × (ws : List Text) × (split sep s ≡ w ∷ ws)
split-nonempty sep [] = ([], [], refl)
split-nonempty sep (c ∷ s) = elim (Bool-cases (c == sep)) [
  | inl hit ↦ ([], split sep s, ground (arith, hit))
  | inr miss ↦ let (w, ws, shape) = split-nonempty sep s in (c ∷ w, ws, ground (arith, miss, shape))
]

split_to_width-Fits :
    (line : Text) (width : ℕ)
    → All (HasRoom width) (split 32 line)
    → (ls : List Text) × (split_to_width line width ≡ some ls) × All (Fits width) ls
unfolding split_to_width
split_to_width-Fits line width room = elim (Bool-cases (leb (length line) width)) [
  | inl short ↦ (line ∷ [], ground (arith, short), (ground (arith, short), tt))
  | inr long ↦
      let (w, ws, shape) = split-nonempty 32 line in
      let (ls, done, all) = fill_lines-Fits width w ws (subst (All (HasRoom width)) shape room) in
      (ls, ground (arith, long) ∙ (ap (fill_lines width) shape ∙ done), all)
]

pub split_all-Fits :
    (lines : List Text) (width : ℕ)
    → All (λ l. All (HasRoom width) (split 32 l)) lines
    → (ls : List Text) × (split_all lines width ≡ some ls) × All (Fits width) ls
unfolding split_all
split_all-Fits [] width room = ([], refl, tt)
split_all-Fits (l ∷ lines) width (here, there) =
    let (ls, done, all) = split_to_width-Fits l width here in
    let (rest, done', all') = split_all-Fits lines width there in
    (ls ++ rest, ground (arith, done, done'), All-append (Fits width) ls rest all all')
