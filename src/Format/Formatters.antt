-- ===== src/Format/Formatters.antt =====
-- format/format.go: the registry of custom formatters.
use gomega.Base.{ℕ, ◌+◌, ◌==◌, Option, none, some, List, [], ◌∷◌, ◌++◌, if◌then◌else◌}
use gomega.Format.{Text}

-- A formatter of the objects of a type, and its key.
pub record KeyPair (A : Type 0) : Type 0 where
  pub custom_formatter : A → Option Text
  pub custom_formatter_key : ℕ

-- The variables customFormatterKey and customFormatters.
pub record Registry (A : Type 0) : Type 0 where
  pub next_key : ℕ
  pub formatters : List (KeyPair A)

abbrev pub no_formatters : {A : Type 0} → Registry A
no_formatters = record { next_key = 1; formatters = [] }

module _ {A : Type 0} where
  -- RegisterCustomFormatter: the key, and the registry after it.
  unfoldable pub register : (A → Option Text) → Registry A → ℕ × Registry A
  register f r = (
    r.next_key,
    record {
      next_key = r.next_key + 1;
      formatters =
          r.formatters ++ record { custom_formatter = f; custom_formatter_key = r.next_key } ∷ [];
    },
  )

  abbrev pub without : ℕ → List (KeyPair A) → List (KeyPair A)
  without key [] = []
  without key (p ∷ ps) =
      let rest = without key ps in if p.custom_formatter_key == key then rest else p ∷ rest

  -- UnregisterCustomFormatter.
  unfoldable pub unregister : ℕ → Registry A → Registry A
  unregister key r = record r { formatters = without key r.formatters }

  -- The first formatter of an object that handles it.
  unfoldable pub handled_by : List (KeyPair A) → A → Option Text
  handled_by [] x = none
  handled_by (p ∷ ps) x =
      let rest = handled_by ps x in elim (p.custom_formatter x) [ none ↦ rest | some t ↦ some t ]

-- Calls of the two functions.
pub data Call (A : Type 0) : Type 0 where
  registers : (A → Option Text) → Call A
  unregisters : ℕ → Call A

module _ {A : Type 0} where
  abbrev pub call : Call A → Registry A → Registry A
  call (registers f) r = (register f r).1
  call (unregisters key) r = unregister key r

  abbrev pub calls : List (Call A) → Registry A → Registry A
  calls [] r = r
  calls (c ∷ cs) r = calls cs (call c r)
