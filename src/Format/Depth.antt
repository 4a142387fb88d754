-- ===== src/Format/Depth.antt =====
-- How deep formatValue looks.
use gomega.Base.{
  ℕ, zero, suc, ◌+◌, ◌-◌, ◌≡◌, ◌<◌, refl, sym, ap, ◌∙◌, Bool, true, false, ltb, Option, none, [],
  ◌∷◌, ◌++◌, if◌then◌else◌, arith,
}
use gomega.Format.{Text, ellipsis}
use gomega.Format.Values.{
  Settings, Object, Value, Content, Values, Entries, Fields, value, nil_value, scalar, fallback,
  string_value, slice_value, map_value, struct_value, pointer, interface_value, no_values,
  one_value, no_entries, one_entry, no_fields, one_field, bracketed, shortened, chosen_text, is_nil,
  slice_text, format_value, format_content, format_values, format_entries, format_fields,
}

module _ {A : Type 0} where
  -- A value without what is more than so many slices, arrays, maps and structs deep in it; a part at
  -- that depth is replaced by nil.
  abbrev mutual
    pub cut : ℕ → Value A → Value A
    cut zero v = value none false nil_value
    cut (suc n) (value o is_context content) = value o is_context (cut_content n content)

    pub cut_content : ℕ → Content A → Content A
    cut_content n nil_value = nil_value
    cut_content n (scalar t) = scalar t
    cut_content n (fallback t) = fallback t
    cut_content n (string_value t) = string_value t
    cut_content n (slice_value bytes vs) = slice_value bytes (cut_values n vs)
    cut_content n (map_value es) = map_value (cut_entries n es)
    cut_content n (struct_value fs) = struct_value (cut_fields n fs)
    cut_content n (pointer v) = pointer (cut (suc n) v)
    cut_content n (interface_value t v) = interface_value t (cut (suc n) v)

    pub cut_values : ℕ → Values A → Values A
    cut_values n no_values = no_values
    cut_values n (one_value v vs) = one_value (cut n v) (cut_values n vs)

    pub cut_entries : ℕ → Entries A → Entries A
    cut_entries n no_entries = no_entries
    cut_entries n (one_entry k v es) = one_entry (cut n k) (cut n v) (cut_entries n es)

    pub cut_fields : ℕ → Fields A → Fields A
    cut_fields n no_fields = no_fields
    cut_fields n (one_field name v fs) = one_field name (cut n v) (cut_fields n fs)

module _ {A : Type 0} (c : Settings A) where
  text_of : Option (Object A) → Bool → Content A → ℕ → Text → Text
  text_of o is_context content i parts =
      if ltb c.max_depth i
      then ellipsis
      else if is_nil c content
      then 110 ∷ 105 ∷ 108 ∷ []
      else chosen_text c o is_context i parts

  is_nil-cut : (n : ℕ) (content : Content A) → is_nil c (cut_content n content) ≡ is_nil c content
  is_nil-cut n nil_value = refl
  is_nil-cut n (scalar t) = refl
  is_nil-cut n (fallback t) = refl
  is_nil-cut n (string_value t) = refl
  is_nil-cut n (slice_value bytes vs) = refl
  is_nil-cut n (map_value es) = refl
  is_nil-cut n (struct_value fs) = refl
  is_nil-cut n (pointer v) = refl
  is_nil-cut n (interface_value t v) = refl

  mutual
    unfolding format_value text_of

    format_value-cut_any :
        (v : Value A) (n i : ℕ)
        → c.max_depth < n + i
        → format_value c v i ≡ format_value c (cut n v) i
    format_value-cut_any (value o is_context content) zero i deep =
        let beyond : ltb c.max_depth i ≡ true = ground (arith, deep) in rw beyond refl
    format_value-cut_any (value o is_context content) (suc n) i deep =
        ap (text_of o is_context content i) (format_content-cut content n i deep)
        ∙ ap
            (λ b.
              if ltb c.max_depth i
              then ellipsis
              else if b
              then 110 ∷ 105 ∷ 108 ∷ []
              else chosen_text c o is_context i (format_content c (cut_content n content) i))
            (sym (is_nil-cut n content))

    format_content-cut :
        (content : Content A) (n i : ℕ)
        → c.max_depth < suc n + i
        → format_content c content i ≡ format_content c (cut_content n content) i
    format_content-cut nil_value n i deep = refl
    format_content-cut (scalar t) n i deep = refl
    format_content-cut (fallback t) n i deep = refl
    format_content-cut (string_value t) n i deep = refl
    format_content-cut (slice_value bytes vs) n i deep =
        ap (λ rs. shortened c (slice_text c bytes (bracketed c 91 93 rs i) i))
          (format_values-cut vs n (suc i) (omega (arith, deep)))
    format_content-cut (map_value es) n i deep =
        ap (λ rs. shortened c (bracketed c 123 125 rs i))
          (format_entries-cut es n (suc i) (omega (arith, deep)))
    format_content-cut (struct_value fs) n i deep =
        ap (λ rs. shortened c (bracketed c 123 125 rs i))
          (format_fields-cut fs n (suc i) (omega (arith, deep)))
    format_content-cut (pointer v) n i deep = format_value-cut_any v (suc n) i deep
    format_content-cut (interface_value t v) n i deep =
        ap (λ r. 60 ∷ (t ++ (62 ∷ r))) (format_value-cut_any v (suc n) i deep)

    format_values-cut :
        (vs : Values A) (n i : ℕ)
        → c.max_depth < n + i
        → format_values c vs i ≡ format_values c (cut_values n vs) i
    format_values-cut no_values n i deep = refl
    format_values-cut (one_value v vs) n i deep =
        rw (format_value-cut_any v n i deep, format_values-cut vs n i deep) refl

    format_entries-cut :
        (es : Entries A) (n i : ℕ)
        → c.max_depth < n + i
        → format_entries c es i ≡ format_entries c (cut_entries n es) i
    format_entries-cut no_entries n i deep = refl
    format_entries-cut (one_entry k v es) n i deep =
        rw
          (
            format_value-cut_any k n i deep,
            format_value-cut_any v n i deep,
            format_entries-cut es n i deep,
          )
          refl

    format_fields-cut :
        (fs : Fields A) (n i : ℕ)
        → c.max_depth < n + i
        → format_fields c fs i ≡ format_fields c (cut_fields n fs) i
    format_fields-cut no_fields n i deep = refl
    format_fields-cut (one_field name v fs) n i deep =
        rw (format_value-cut_any v n i deep, format_fields-cut fs n i deep) refl

-- What is printed of a value at an indentation depends only on what is at most MaxDepth deep in it,
-- counted from the indentation, where a pointer and an interface add no depth: the value that is cut
-- below that is printed the same.
pub format_value-cut :
    {A : Type 0} (c : Settings A) (v : Value A) (i : ℕ)
    → format_value c v i ≡ format_value c (cut (c.max_depth + 1 - i) v) i
format_value-cut c v i = format_value-cut_any c v (c.max_depth + 1 - i) i (omega arith)
