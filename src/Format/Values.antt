-- ===== src/Format/Values.antt =====
-- format/format.go: formatValue on the tree of a value. What fmt prints of a single value, and what the
-- methods of an object return, stands in the tree.
use gomega.Base.{
  ℕ, suc, ◌+◌, Bool, true, false, not, ◌&&◌, ltb, Option, none, some, List, [], ◌∷◌, ◌++◌,
  if◌then◌else◌, length,
}
use gomega.Table.Rows.{repeat_text}
use gomega.Format.{Text, ellipsis}
use gomega.Format.Formatters.{KeyPair, handled_by}
use gomega.Format.Texts.{Rune, indent_string, format_string, truncate_long_strings}

-- The variables that formatValue reads, and what the libraries do for it.
pub record Settings (A : Type 0) : Type 0 where
  pub max_depth : ℕ
  pub max_length : ℕ
  pub use_stringer_representation : Bool
  pub print_context_objects : Bool
  pub indent : Text
  pub long_form_threshold : ℕ
  pub custom_formatters : List (KeyPair A)
  pub runes : Text → List Rune
  pub quote : Text → Text
  pub is_print : ℕ → Bool

-- What an object is asked for before it is taken apart: GomegaString, then GoString or String.
pub record Object (A : Type 0) : Type 0 where
  pub obj : A
  pub gomega_string : Option Text
  pub stringer : Option Text

-- A value with its object, if it can be had, and whether its type is a context's.
mutual
  pub data Value (A : Type 0) : Type 0 where
    value : Option (Object A) → Bool → Content A → Value A

  pub data Content (A : Type 0) : Type 0 where
    nil_value : Content A
    scalar : Text → Content A
    fallback : Text → Content A
    string_value : Text → Content A
    slice_value : Option Text → Values A → Content A
    map_value : Entries A → Content A
    struct_value : Fields A → Content A
    pointer : Value A → Content A
    interface_value : Text → Value A → Content A

  pub data Values (A : Type 0) : Type 0 where
    no_values : Values A
    one_value : Value A → Values A → Values A

  pub data Entries (A : Type 0) : Type 0 where
    no_entries : Entries A
    one_entry : Value A → Value A → Entries A → Entries A

  pub data Fields (A : Type 0) : Type 0 where
    no_fields : Fields A
    one_field : Text → Value A → Fields A → Fields A

abbrev suppressed : Text
suppressed =
    60 ∷ 115 ∷ 117 ∷ 112 ∷ 112 ∷ 114 ∷ 101 ∷ 115 ∷ 115 ∷ 101 ∷ 100 ∷ 32 ∷ 99 ∷ 111 ∷ 110 ∷ 116 ∷ 101
    ∷ 120 ∷ 116 ∷ 62 ∷ []

abbrev pub longest_part : ℕ → List Text → ℕ
longest_part n [] = n
longest_part n (r ∷ rs) = longest_part (if ltb n (length r) then length r else n) rs

-- strings.Join.
abbrev pub joined : Text → List Text → Text
joined sep [] = []
joined sep (r ∷ []) = r
joined sep (r ∷ s ∷ rs) = r ++ (sep ++ joined sep (s ∷ rs))

module _ {A : Type 0} (c : Settings A) where
  -- The texts of the parts between brackets, on a line each if one is long.
  unfoldable pub bracketed : ℕ → ℕ → List Text → ℕ → Text
  bracketed first last result indentation =
      let indenter = repeat_text indentation c.indent in
      if ltb c.long_form_threshold (longest_part 0 result)
      then first
        ∷ (10
            ∷ (indenter
                ++ (c.indent
                    ++ (joined (44 ∷ 10 ∷ (indenter ++ c.indent)) result
                        ++ (44 ∷ 10 ∷ (indenter ++ last ∷ []))))))
      else first ∷ (joined (44 ∷ 32 ∷ []) result ++ last ∷ [])

  unfoldable pub shortened : Text → Text
  shortened s = truncate_long_strings c.max_length c.runes s

  -- What is printed of an object that is not taken apart.
  unfoldable pub object_text : Option (Object A) → ℕ → Option Text
  object_text none indentation = none
  object_text (some o) indentation = elim (handled_by c.custom_formatters o.obj) [
    | some t ↦ some (indent_string c.indent t (indentation + 1) false)
    | none ↦ elim o.gomega_string [
      | some t ↦ some (indent_string c.indent t (indentation + 1) false)
      | none ↦
          if c.use_stringer_representation
          then elim o.stringer [
            | some t ↦ some (indent_string c.indent (shortened t) (indentation + 1) false)
            | none ↦ none
          ]
          else none
    ]
  ]

  -- What is printed of a value that is not nil nor too deep, by its object, its type and its parts.
  unfoldable pub chosen_text : Option (Object A) → Bool → ℕ → Text → Text
  chosen_text o is_context indentation parts = elim (object_text o indentation) [
    | some t ↦ t
    | none ↦
        if not c.print_context_objects && is_context && ltb 1 indentation then suppressed else parts
  ]

  abbrev pub is_nil : Content A → Bool
  is_nil nil_value = true
  is_nil (scalar t) = false
  is_nil (fallback t) = false
  is_nil (string_value t) = false
  is_nil (slice_value t vs) = false
  is_nil (map_value es) = false
  is_nil (struct_value fs) = false
  is_nil (pointer v) = false
  is_nil (interface_value t v) = false

  -- The loop of isPrintableString.
  abbrev pub all_printable : List Rune → Bool
  all_printable [] = true
  all_printable (r ∷ rs) =
      let rest = all_printable rs in if not (c.is_print r.code) then false else rest

  -- The bytes of a slice that are all printable are printed as a string.
  abbrev pub slice_text : Option Text → Text → ℕ → Text
  slice_text (some t) parts indentation =
      if all_printable (c.runes t) then format_string c.indent c.quote t indentation else parts
  slice_text none parts indentation = parts

  unfoldable mutual
    -- formatValue.
    pub format_value : Value A → ℕ → Text
    format_value (value o is_context content) indentation =
        let parts = format_content content indentation in
        if ltb c.max_depth indentation
        then ellipsis
        else if is_nil content
        then 110 ∷ 105 ∷ 108 ∷ []
        else chosen_text o is_context indentation parts

    -- The switch over the kind.
    pub format_content : Content A → ℕ → Text
    format_content nil_value indentation = []
    format_content (scalar t) indentation = t
    format_content (fallback t) indentation = shortened t
    format_content (string_value t) indentation =
        shortened (format_string c.indent c.quote t indentation)
    format_content (slice_value bytes vs) indentation = shortened (
        slice_text bytes (bracketed 91 93 (format_values vs (suc indentation)) indentation)
          indentation)
    format_content (map_value es) indentation =
        shortened (bracketed 123 125 (format_entries es (suc indentation)) indentation)
    format_content (struct_value fs) indentation =
        shortened (bracketed 123 125 (format_fields fs (suc indentation)) indentation)
    format_content (pointer v) indentation = format_value v indentation
    format_content (interface_value t v) indentation = 60 ∷ (t ++ (62 ∷ format_value v indentation))

    -- The loops of formatSlice, formatMap and formatStruct.
    pub format_values : Values A → ℕ → List Text
    format_values no_values indentation = []
    format_values (one_value v vs) indentation =
        format_value v indentation ∷ format_values vs indentation

    pub format_entries : Entries A → ℕ → List Text
    format_entries no_entries indentation = []
    format_entries (one_entry k v es) indentation =
        (format_value k indentation ++ (58 ∷ 32 ∷ format_value v indentation))
        ∷ format_entries es indentation

    pub format_fields : Fields A → ℕ → List Text
    format_fields no_fields indentation = []
    format_fields (one_field name v fs) indentation =
        (name ++ (58 ∷ 32 ∷ format_value v indentation)) ∷ format_fields fs indentation
