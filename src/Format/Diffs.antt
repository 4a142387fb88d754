-- ===== src/Format/Diffs.antt =====
-- The diff that MessageWithDiff prints.
use mathlib.Core.List.{append_assoc}
use gomega.Base.{
  ℕ, zero, suc, ◌+◌, ◌-◌, ◌≡◌, ◌≢◌, ◌≤◌, ◌<◌, inl, inr, refl, sym, ap, ◌∙◌, Bool, true, false, ◌&&◌,
  ltb, leb, some, List, [], ◌∷◌, ◌++◌, if◌then◌else◌, length, take, drop, replicate, arith,
  Bool-cases, All-append,
}
use gomega.Format.{
  Text, DiffConfig, Message, ellipsis, left_padding, right_padding, truncate_and_format,
  find_first_mismatch, with_padding, message_with_diff,
}
use gomega.Format.Mismatch.{singles, IsAscii, find_first_mismatch-common, find_first_mismatch-bound}
use gomega.Format.Windows.{
  shown_before, shown_after, truncate_and_format-shown, truncate_and_format-some,
}

-- What is shown of a text around a byte of it: up to so many bytes on each side of it, in quotes, with
-- ellipsis where the text goes on.
abbrev pub shown : ℕ → Text → ℕ → Text → Text
shown around p x u = (34 ∷ shown_before around p) ++ x ∷ (shown_after around p x u ++ 34 ∷ [])

reassociate :
    (l d t r : Text) (x : ℕ)
    → (l ++ ((d ++ x ∷ t) ++ r)) ++ 34 ∷ [] ≡ (l ++ d) ++ x ∷ ((t ++ r) ++ 34 ∷ [])
reassociate l d t r x =
    ap (λ s. (l ++ s) ++ 34 ∷ []) (append_assoc d (x ∷ t) r)
    ∙ (ap (λ s. s ++ 34 ∷ []) (sym (append_assoc l d (x ∷ (t ++ r))))
        ∙ append_assoc (l ++ d) (x ∷ (t ++ r)) (34 ∷ []))

truncated :
    (around : ℕ) (p : Text) (x : ℕ) (u : Text)
    → truncate_and_format around (p ++ x ∷ u) (length p) ≡ some (shown around p x u)
truncated around p x u =
    truncate_and_format-shown around p x u
    ∙ ap (λ s. some (34 ∷ s))
        (reassociate (left_padding around (length p)) (drop (length p - around) p) (take around u)
          (right_padding around (length p) (length (p ++ x ∷ u))) x)

drop-IsAscii : (n : ℕ) (s : Text) → IsAscii s → IsAscii (drop n s)
drop-IsAscii zero s h = h
drop-IsAscii (suc n) [] h = tt
drop-IsAscii (suc n) (b ∷ s) (_, h) = drop-IsAscii n s h

take-IsAscii : (n : ℕ) (s : Text) → IsAscii s → IsAscii (take n s)
take-IsAscii zero s h = tt
take-IsAscii (suc n) [] h = tt
take-IsAscii (suc n) (b ∷ s) (p, h) = (p, take-IsAscii n s h)

split-IsAscii :
    (p : Text) (x : ℕ) (u : Text) → IsAscii (p ++ x ∷ u) → IsAscii p × (x < 128) × IsAscii u
split-IsAscii [] x u (q, h) = (tt, q, h)
split-IsAscii (b ∷ p) x u (q, h) = let (hp, hx, hu) = split-IsAscii p x u h in ((q, hp), hx, hu)

padding-IsAscii : (b : Bool) → IsAscii (if b then [] else ellipsis)
padding-IsAscii true = tt
padding-IsAscii false = (omega arith, (omega arith, (omega arith, tt)))

shown-IsAscii :
    (around : ℕ) (p : Text) (x : ℕ) (u : Text) → IsAscii (p ++ x ∷ u) → IsAscii (shown around p x u)
shown-IsAscii around p x u ascii =
    let (hp, hx, hu) = split-IsAscii p x u ascii in
    let ascii_byte = λ (b : ℕ). b < 128 in
    let left = left_padding around (length p) in
    let right = right_padding around (length p) (length (p ++ x ∷ u)) in
    let d = drop (length p - around) p in
    (
      omega arith,
      All-append ascii_byte (left ++ d) (x ∷ ((take around u ++ right) ++ 34 ∷ []))
          (All-append ascii_byte left d (padding-IsAscii (ltb (length p) around))
            (drop-IsAscii (length p - around) p hp))
          (
            hx,
            All-append ascii_byte (take around u ++ right) (34 ∷ [])
                (All-append ascii_byte (take around u) right (take-IsAscii around u hu)
                  (padding-IsAscii (ltb (length (p ++ x ∷ u)) (length p + around + 1))))
                (omega arith, tt),
          ),
    )

module _ (explode : Text → List Text) (law : (s : Text) → IsAscii s → explode s ≡ singles s)
    (p : Text) (x y : ℕ) (u v : Text) (ascii : IsAscii (p ++ x ∷ u)) (ascii' : IsAscii (p ++ y ∷ v))
    (differ : x ≢ y) where
  -- The bar is put under the byte that differs, after the 14 bytes before the texts and the quote.
  with_padding-shown :
      (around : ℕ) (message : Text)
      → length message ≤ 15 + length (shown_before around p)
      → with_padding explode (shown around p x u) message (shown around p y v) ≡ record {
        actual = shown around p x u;
        message =
            message
            ++ (replicate (15 + length (shown_before around p) - length message) 32 ++ 124 ∷ []);
        expected = shown around p y v;
      }
  unfolding with_padding
  with_padding-shown around message room =
      let found : find_first_mismatch explode (shown around p x u) (shown around p y v)
          ≡ suc (length (shown_before around p)) =
        find_first_mismatch-common explode (34 ∷ shown_before around p) x y
          (shown_after around p x u ++ 34 ∷ []) (shown_after around p y v ++ 34 ∷ []) law
          (shown-IsAscii around p x u ascii) (shown-IsAscii around p y v ascii') differ in
      let column : 14 + find_first_mismatch explode (shown around p x u) (shown around p y v)
          ≡ 15 + length (shown_before around p) =
        omega (arith, found) in
      let enough : ltb (15 + length (shown_before around p)) (length message) ≡ false =
        ground (arith, room) in
      rw (column, enough) refl

  -- Two long ASCII texts that agree up to a byte are shown around that byte, and the message has a bar
  -- under it, when it is short enough: the texts are printed after 14 bytes and a quote.
  pub message_with_diff-shown :
      (c : DiffConfig) (escape : Text → Text) (message : Text)
      → c.truncated_diff ≡ true
      → c.truncate_threshold ≤ length (p ++ x ∷ u)
      → c.truncate_threshold ≤ length (p ++ y ∷ v)
      → length message ≤ 15 + length (shown_before c.characters_around p)
      → message_with_diff c explode escape (p ++ x ∷ u) message (p ++ y ∷ v)
        ≡ some (record {
          actual = shown c.characters_around p x u;
          message =
              message
              ++ (replicate (15 + length (shown_before c.characters_around p) - length message) 32
                  ++ 124 ∷ []);
          expected = shown c.characters_around p y v;
        })
  unfolding message_with_diff
  message_with_diff-shown c escape message on long long' room =
      let here = find_first_mismatch-common explode p x y u v law ascii ascii' differ in
      let enough : leb c.truncate_threshold (length (p ++ x ∷ u)) ≡ true = ground (arith, long) in
      let enough' : leb c.truncate_threshold (length (p ++ y ∷ v)) ≡ true = ground (arith, long') in
      rw
        (
          on,
          enough,
          enough',
          here,
          truncated c.characters_around p x u,
          truncated c.characters_around p y v,
        )
        (ap some (with_padding-shown c.characters_around message room))

-- With at least a byte around a mismatch, and at most as many pieces of a text as it has bytes, a message
-- with a diff is made of any two texts without a slice out of range.
pub message_with_diff-some :
    (c : DiffConfig) (explode : Text → List Text) (escape : Text → Text)
    (actual message expected : Text)
    → ((s : Text) → length (explode s) ≤ length s)
    → 1 ≤ c.characters_around
    → (m : Message) × (message_with_diff c explode escape actual message expected ≡ some m)
unfolding message_with_diff
message_with_diff-some c explode escape actual message expected law wide =
    let point = find_first_mismatch explode actual expected in
    let (below, below') = find_first_mismatch-bound explode actual expected law in
    let (a, done) = truncate_and_format-some c.characters_around actual point wide below in
    let (e, done') = truncate_and_format-some c.characters_around expected point wide below' in
    elim (Bool-cases (
      c.truncated_diff
      && leb c.truncate_threshold (length actual)
      && leb c.truncate_threshold (length expected))) [
        | inl on ↦ (with_padding explode a message e, rw (on, done, done') refl)
        | inr off ↦ (
          record { actual = escape actual; message = message; expected = escape expected },
          rw off refl,
        )
      ]
