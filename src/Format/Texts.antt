-- ===== src/Format/Texts.antt =====
-- format/format.go: indented and truncated texts.
use gomega.Base.{
  ℕ, zero, suc, ◌+◌, ◌≡◌, ◌≢◌, ◌≤◌, inl, inr, refl, ap, ◌∙◌, Bool, true, false, ◌&&◌, ◌==◌, ltb,
  List, [], ◌∷◌, ◌++◌, if◌then◌else◌, length, arith, Bool-cases, All, All-append,
}
use gomega.Table.{split, add_first}
use gomega.Table.Rows.{repeat_text}
use gomega.Format.{Text, ellipsis}

abbrev led : Text → Bool → Text → Text
led indent true c = indent ++ c
led indent false c = c

-- The loop over the components; the Boolean is whether the next one is indented.
abbrev indent_lines : Text → Bool → List Text → Text
indent_lines indent lead [] = []
indent_lines indent lead (c ∷ []) = led indent lead c
indent_lines indent lead (c ∷ d ∷ cs) =
    led indent lead c ++ (10 ∷ indent_lines indent true (d ∷ cs))

-- indentString, with the variable Indent.
unfoldable pub indent_string : Text → Text → ℕ → Bool → Text
indent_string indent s indentation indent_first_line =
    indent_lines (repeat_text indentation indent) indent_first_line (split 10 s)

-- formatString, with what fmt makes of a text by %q.
unfoldable pub format_string : Text → (Text → Text) → Text → ℕ → Text
format_string indent quote s indentation =
    if indentation == 1 then indent_lines indent false (split 10 s) else quote s

-- A rune of a string: its number, the number of its bytes, and the bytes that WriteRune writes for it.
pub record Rune : Type 0 where
  pub code : ℕ
  pub size : ℕ
  pub written : Text

abbrev pub write_runes : ℕ → ℕ → List Rune → Text
write_runes max i [] = []
write_runes max i (r ∷ rs) =
    let rest = write_runes max (i + r.size) rs in if ltb i max then r.written ++ rest else []

-- truncateHelpText.
abbrev pub truncate_help_text : Text
truncate_help_text =
    10 ∷ 71 ∷ 111 ∷ 109 ∷ 101 ∷ 103 ∷ 97 ∷ 32 ∷ 116 ∷ 114 ∷ 117 ∷ 110 ∷ 99 ∷ 97 ∷ 116 ∷ 101 ∷ 100
    ∷ 32 ∷ 116 ∷ 104 ∷ 105 ∷ 115 ∷ 32 ∷ 114 ∷ 101 ∷ 112 ∷ 114 ∷ 101 ∷ 115 ∷ 101 ∷ 110 ∷ 116 ∷ 97
    ∷ 116 ∷ 105 ∷ 111 ∷ 110 ∷ 32 ∷ 97 ∷ 115 ∷ 32 ∷ 105 ∷ 116 ∷ 32 ∷ 101 ∷ 120 ∷ 99 ∷ 101 ∷ 101 ∷ 100
    ∷ 115 ∷ 32 ∷ 39 ∷ 102 ∷ 111 ∷ 114 ∷ 109 ∷ 97 ∷ 116 ∷ 46 ∷ 77 ∷ 97 ∷ 120 ∷ 76 ∷ 101 ∷ 110 ∷ 103
    ∷ 116 ∷ 104 ∷ 39 ∷ 46 ∷ 10 ∷ 67 ∷ 111 ∷ 110 ∷ 115 ∷ 105 ∷ 100 ∷ 101 ∷ 114 ∷ 32 ∷ 104 ∷ 97 ∷ 118
    ∷ 105 ∷ 110 ∷ 103 ∷ 32 ∷ 116 ∷ 104 ∷ 101 ∷ 32 ∷ 111 ∷ 98 ∷ 106 ∷ 101 ∷ 99 ∷ 116 ∷ 32 ∷ 112 ∷ 114
    ∷ 111 ∷ 118 ∷ 105 ∷ 100 ∷ 101 ∷ 32 ∷ 97 ∷ 32 ∷ 99 ∷ 117 ∷ 115 ∷ 116 ∷ 111 ∷ 109 ∷ 32 ∷ 39 ∷ 71
    ∷ 111 ∷ 109 ∷ 101 ∷ 103 ∷ 97 ∷ 83 ∷ 116 ∷ 114 ∷ 105 ∷ 110 ∷ 103 ∷ 101 ∷ 114 ∷ 39 ∷ 32 ∷ 114
    ∷ 101 ∷ 112 ∷ 114 ∷ 101 ∷ 115 ∷ 101 ∷ 110 ∷ 116 ∷ 97 ∷ 116 ∷ 105 ∷ 111 ∷ 110 ∷ 10 ∷ 111 ∷ 114
    ∷ 32 ∷ 97 ∷ 100 ∷ 106 ∷ 117 ∷ 115 ∷ 116 ∷ 32 ∷ 116 ∷ 104 ∷ 101 ∷ 32 ∷ 112 ∷ 97 ∷ 114 ∷ 97 ∷ 109
    ∷ 101 ∷ 116 ∷ 101 ∷ 114 ∷ 115 ∷ 32 ∷ 105 ∷ 110 ∷ 32 ∷ 71 ∷ 111 ∷ 109 ∷ 101 ∷ 103 ∷ 97 ∷ 39 ∷ 115
    ∷ 32 ∷ 39 ∷ 102 ∷ 111 ∷ 114 ∷ 109 ∷ 97 ∷ 116 ∷ 39 ∷ 32 ∷ 112 ∷ 97 ∷ 99 ∷ 107 ∷ 97 ∷ 103 ∷ 101
    ∷ 46 ∷ 10 ∷ 10 ∷ 76 ∷ 101 ∷ 97 ∷ 114 ∷ 110 ∷ 32 ∷ 109 ∷ 111 ∷ 114 ∷ 101 ∷ 32 ∷ 104 ∷ 101 ∷ 114
    ∷ 101 ∷ 58 ∷ 32 ∷ 104 ∷ 116 ∷ 116 ∷ 112 ∷ 115 ∷ 58 ∷ 47 ∷ 47 ∷ 111 ∷ 110 ∷ 115 ∷ 105 ∷ 46 ∷ 103
    ∷ 105 ∷ 116 ∷ 104 ∷ 117 ∷ 98 ∷ 46 ∷ 105 ∷ 111 ∷ 47 ∷ 103 ∷ 111 ∷ 109 ∷ 101 ∷ 103 ∷ 97 ∷ 47 ∷ 35
    ∷ 97 ∷ 100 ∷ 106 ∷ 117 ∷ 115 ∷ 116 ∷ 105 ∷ 110 ∷ 103 ∷ 45 ∷ 111 ∷ 117 ∷ 116 ∷ 112 ∷ 117 ∷ 116
    ∷ 10 ∷ []

-- truncateLongStrings, with the runes of a string.
unfoldable pub truncate_long_strings : ℕ → (Text → List Rune) → Text → Text
truncate_long_strings max_length runes s =
    if ltb 0 max_length && ltb max_length (length s)
    then write_runes max_length 0 (runes s) ++ (ellipsis ++ (10 ∷ truncate_help_text))
    else s

abbrev pub IsLine : Text → Type 0
IsLine s = All (λ c. c ≢ 10) s

split-line : (s : Text) → IsLine s → split 10 s ≡ s ∷ []
split-line [] h = refl
split-line (c ∷ s) (p, h) =
    let miss : c == 10 ≡ false = ground (arith, p) in rw miss (ap (add_first c) (split-line s h))

split-lines : (s t : Text) → IsLine s → split 10 (s ++ 10 ∷ t) ≡ s ∷ split 10 t
split-lines [] t h = refl
split-lines (c ∷ s) t (p, h) =
    let miss : c == 10 ≡ false = ground (arith, p) in rw miss (ap (add_first c) (split-lines s t h))

add_first-IsLine : (c : ℕ) (ls : List Text) → c ≢ 10 → All IsLine ls → All IsLine (add_first c ls)
add_first-IsLine c [] p h = ((p, tt), tt)
add_first-IsLine c (l ∷ ls) p (q, h) = ((p, q), h)

split-IsLine : (s : Text) → All IsLine (split 10 s)
split-IsLine [] = (tt, tt)
split-IsLine (c ∷ s) = elim (Bool-cases (c == 10)) [
  | inl hit ↦ rw hit (tt, split-IsLine s)
  | inr miss ↦
      rw miss
        (add_first-IsLine c (split 10 s) (λ same. ground (arith, same, miss)) (split-IsLine s))
]

repeat_text-IsLine : (n : ℕ) (s : Text) → IsLine s → IsLine (repeat_text n s)
repeat_text-IsLine zero s h = tt
repeat_text-IsLine (suc n) s h =
    All-append (λ c. c ≢ 10) s (repeat_text n s) h (repeat_text-IsLine n s h)

led-IsLine :
    (indent : Text) (lead : Bool) (c : Text) → IsLine indent → IsLine c → IsLine (led indent lead c)
led-IsLine indent true c h k = All-append (λ b. b ≢ 10) indent c h k
led-IsLine indent false c h k = k

-- Lines with the indent before each, but for the first if so.
abbrev pub all_led : Text → Bool → List Text → List Text
all_led indent lead [] = []
all_led indent lead (c ∷ cs) = led indent lead c ∷ all_led indent true cs

split-indent_lines :
    (indent : Text) (lead : Bool) (c : Text) (cs : List Text)
    → IsLine indent
    → All IsLine (c ∷ cs)
    → split 10 (indent_lines indent lead (c ∷ cs)) ≡ all_led indent lead (c ∷ cs)
split-indent_lines indent lead c [] h (k, _) =
    split-line (led indent lead c) (led-IsLine indent lead c h k)
split-indent_lines indent lead c (d ∷ cs) h (k, ks) =
    split-lines (led indent lead c) (indent_lines indent true (d ∷ cs))
      (led-IsLine indent lead c h k)
    ∙ ap (λ ls. led indent lead c ∷ ls) (split-indent_lines indent true d cs h ks)

-- Indenting a text puts the indent before each of its lines, but for the first if so, and makes no
-- further lines, when the indent has no newline.
pub split-indent_string :
    (indent s : Text) (n : ℕ) (first : Bool)
    → IsLine indent
    → split 10 (indent_string indent s n first) ≡ all_led (repeat_text n indent) first (split 10 s)
unfolding indent_string
split-indent_string indent s n first h = whole (split 10 s) (split-IsLine s) (split_nonempty s)
  where
    split_nonempty : (t : Text) → 1 ≤ length (split 10 t)
    split_nonempty [] = omega arith
    split_nonempty (c ∷ t) = elim (Bool-cases (c == 10)) [
      | inl hit ↦ rw hit (omega arith)
      | inr miss ↦ rw miss (add_first_nonempty c (split 10 t))
    ]
      where
        add_first_nonempty : (b : ℕ) (ls : List Text) → 1 ≤ length (add_first b ls)
        add_first_nonempty b [] = omega arith
        add_first_nonempty b (l ∷ ls) = omega arith

    whole :
        (ls : List Text)
        → All IsLine ls
        → 1 ≤ length ls
        → split 10 (indent_lines (repeat_text n indent) first ls)
          ≡ all_led (repeat_text n indent) first ls
    whole [] k full = absurd (omega (arith, full))
    whole (l ∷ ls) k full =
        split-indent_lines (repeat_text n indent) first l ls (repeat_text-IsLine n indent h) k
