-- ===== src/Format/Lifetimes.antt =====
-- How long a custom formatter stays in the registry.
use gomega.Base.{
  ℕ, ◌+◌, ◌≡◌, ◌≢◌, ◌≤◌, ◌<◌, inl, inr, refl, ap, ◌∙◌, false, ◌==◌, Option, none, some, List, [],
  ◌∷◌, ◌++◌, if◌then◌else◌, arith, Bool-cases, ==_iff, All, All-append, All-weaken,
}
use gomega.Format.{Text}
use gomega.Format.Formatters.{
  KeyPair, Registry, no_formatters, register, without, unregister, Call, registers, unregisters,
  calls,
}

module _ {A : Type 0} where
  -- The formatter of a key.
  abbrev pub formatter_of : ℕ → List (KeyPair A) → Option (A → Option Text)
  formatter_of key [] = none
  formatter_of key (p ∷ ps) =
      let rest = formatter_of key ps in
      if p.custom_formatter_key == key then some p.custom_formatter else rest

  -- No key is beyond those given out.
  abbrev IsFresh : Registry A → Type 0
  IsFresh r = All (λ (p : KeyPair A). p.custom_formatter_key < r.next_key) r.formatters

  abbrev pub Keeps : ℕ → Call A → Type 0
  Keeps key (registers f) = Unit {0}
  Keeps key (unregisters other) = other ≢ key

  without-IsFresh :
      (key n : ℕ) (ps : List (KeyPair A))
      → All (λ (p : KeyPair A). p.custom_formatter_key < n) ps
      → All (λ (p : KeyPair A). p.custom_formatter_key < n) (without key ps)
  without-IsFresh key n [] h = tt
  without-IsFresh key n (p ∷ ps) (q, h) = elim (Bool-cases (p.custom_formatter_key == key)) [
    | inl hit ↦ rw hit (without-IsFresh key n ps h)
    | inr miss ↦ rw miss (q, without-IsFresh key n ps h)
  ]

  calls-IsFresh : (cs : List (Call A)) (r : Registry A) → IsFresh r → IsFresh (calls cs r)
  unfolding register unregister
  calls-IsFresh [] r h = h
  calls-IsFresh (registers f ∷ cs) r h = calls-IsFresh cs (register f r).1 (
      All-append (λ (p : KeyPair A). p.custom_formatter_key < r.next_key + 1) r.formatters
        (record { custom_formatter = f; custom_formatter_key = r.next_key } ∷ [])
        (All-weaken (λ (p : KeyPair A). p.custom_formatter_key < r.next_key)
          (λ (p : KeyPair A). p.custom_formatter_key < r.next_key + 1) r.formatters
          (λ p q. omega (arith, q)) h)
        (omega arith, tt))
  calls-IsFresh (unregisters key ∷ cs) r h =
      calls-IsFresh cs (unregister key r) (without-IsFresh key r.next_key r.formatters h)

  formatter_of-without :
      (key other : ℕ) (ps : List (KeyPair A))
      → other ≢ key
      → formatter_of key (without other ps) ≡ formatter_of key ps
  formatter_of-without key other [] differ = refl
  formatter_of-without key other (p ∷ ps) differ =
      let rest = formatter_of-without key other ps differ in
      elim (Bool-cases (p.custom_formatter_key == other)) [
        | inl hit ↦
            let miss : p.custom_formatter_key == key ≡ false = ground (arith, hit, differ) in
            rw (hit, miss) rest
        | inr miss ↦
            rw miss
              (ap (λ o. if p.custom_formatter_key == key then some p.custom_formatter else o) rest)
      ]

  formatter_of-removed :
      (key : ℕ) (ps : List (KeyPair A)) → formatter_of key (without key ps) ≡ none
  formatter_of-removed key [] = refl
  formatter_of-removed key (p ∷ ps) = elim (Bool-cases (p.custom_formatter_key == key)) [
    | inl hit ↦ rw hit (formatter_of-removed key ps)
    | inr miss ↦ rw (miss, miss) (formatter_of-removed key ps)
  ]

  formatter_of-end :
      (key : ℕ) (ps : List (KeyPair A)) (q : KeyPair A)
      → q.custom_formatter_key ≢ key
      → formatter_of key (ps ++ q ∷ []) ≡ formatter_of key ps
  formatter_of-end key [] q differ = ground (arith, differ)
  formatter_of-end key (p ∷ ps) q differ =
      ap (λ o. if p.custom_formatter_key == key then some p.custom_formatter else o)
        (formatter_of-end key ps q differ)

  formatter_of-new :
      (f : A → Option Text) (n : ℕ) (ps : List (KeyPair A))
      → All (λ (p : KeyPair A). p.custom_formatter_key < n) ps
      → formatter_of n (ps ++ record { custom_formatter = f; custom_formatter_key = n } ∷ [])
        ≡ some f
  formatter_of-new f n [] h = ground arith
  formatter_of-new f n (p ∷ ps) (q, h) =
      let miss : p.custom_formatter_key == n ≡ false = ground (arith, q) in
      rw miss (formatter_of-new f n ps h)

  -- Calls that keep a key given out leave its formatter.
  calls-keep :
      (key : ℕ) (cs : List (Call A)) (r : Registry A)
      → key < r.next_key
      → All (Keeps key) cs
      → formatter_of key (calls cs r).formatters ≡ formatter_of key r.formatters
  unfolding register unregister
  calls-keep key [] r below keeps = refl
  calls-keep key (registers f ∷ cs) r below (_, keeps) =
      calls-keep key cs (register f r).1 (omega (arith, below)) keeps
      ∙ formatter_of-end key r.formatters
          (record { custom_formatter = f; custom_formatter_key = r.next_key })
          (λ same. omega (arith, same, below))
  calls-keep key (unregisters other ∷ cs) r below (differ, keeps) =
      calls-keep key cs (unregister other r) below keeps
      ∙ formatter_of-without key other r.formatters differ

  -- Calls do not bring back a formatter of a key given out.
  calls-none :
      (key : ℕ) (cs : List (Call A)) (r : Registry A)
      → key < r.next_key
      → formatter_of key r.formatters ≡ none
      → formatter_of key (calls cs r).formatters ≡ none
  unfolding register unregister
  calls-none key [] r below gone = gone
  calls-none key (registers f ∷ cs) r below gone =
      calls-none key cs (register f r).1 (omega (arith, below)) (
        formatter_of-end key r.formatters
          (record { custom_formatter = f; custom_formatter_key = r.next_key })
          (λ same. omega (arith, same, below))
        ∙ gone)
  calls-none key (unregisters other ∷ cs) r below gone = elim (Bool-cases (other == key)) [
    | inl hit ↦
        let same : other ≡ key = (==_iff other key).0 hit in
        calls-none key cs (unregister other r) below (
          ap (λ k. formatter_of key (without k r.formatters)) same
          ∙ formatter_of-removed key r.formatters)
    | inr miss ↦
        calls-none key cs (unregister other r) below
          (formatter_of-without key other r.formatters (λ same. ground (arith, same, miss)) ∙ gone)
  ]

  calls-grows : (cs : List (Call A)) (r : Registry A) → r.next_key ≤ (calls cs r).next_key
  unfolding register unregister
  calls-grows [] r = omega arith
  calls-grows (registers f ∷ cs) r = omega (arith, calls-grows cs (register f r).1)
  calls-grows (unregisters key ∷ cs) r = calls-grows cs (unregister key r)

  register-formatter_of :
      (f : A → Option Text) (cs : List (Call A)) (r : Registry A)
      → IsFresh r
      → All (Keeps (register f r).0) cs
      → formatter_of (register f r).0 (calls cs (register f r).1).formatters ≡ some f
  unfolding register
  register-formatter_of f cs r fresh keeps =
      calls-keep r.next_key cs (register f r).1 (omega arith) keeps
      ∙ formatter_of-new f r.next_key r.formatters fresh

  unregister-formatter_of :
      (key : ℕ) (cs : List (Call A)) (r : Registry A)
      → key < r.next_key
      → formatter_of key (calls cs (unregister key r)).formatters ≡ none
  unfolding unregister
  unregister-formatter_of key cs r below =
      calls-none key cs (unregister key r) below (formatter_of-removed key r.formatters)

  -- A formatter that is registered, after any calls, has its key until the key is unregistered,
  -- whatever other formatters are registered and unregistered in the meantime, and from then on the key
  -- has no formatter, whatever is called.
  pub formatter_of-calls :
      (f : A → Option Text) (before cs after : List (Call A))
      → All (Keeps (register f (calls before no_formatters)).0) cs
      → (formatter_of
            (register f (calls before no_formatters)).0
            (calls cs (register f (calls before no_formatters)).1).formatters
          ≡ some f)
        × (formatter_of
              (register f (calls before no_formatters)).0
              (calls after (
                unregister
                  (register f (calls before no_formatters)).0
                  (calls cs (register f (calls before no_formatters)).1))).formatters
            ≡ none)
  unfolding register
  formatter_of-calls f before cs after keeps =
      let r = calls before no_formatters in
      (
        register-formatter_of f cs r (calls-IsFresh before no_formatters tt) keeps,
        unregister-formatter_of r.next_key after (calls cs (register f r).1)
            (omega (arith, calls-grows cs (register f r).1)),
      )
